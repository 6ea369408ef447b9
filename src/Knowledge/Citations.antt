-- ===== src/Knowledge/Citations.antt =====
-- About what a search returns (backend/app/ai/rag/knowledge_service.py).
use mathlib.Core.List.{Memᴰ}
use road_vision_ai.Base.{
  ℕ, zero, suc, ◌≤◌, ◌≡◌, Bool, not, List, Option, none, some, ok, All, length,
}
use road_vision_ai.Text.{Text}
use road_vision_ai.Float.{Float}
use road_vision_ai.Store.{VectorEntry}
use road_vision_ai.Storage.{Settings}
use road_vision_ai.Knowledge.{Retrieval, Hit}

-- What the program relies on of a query of ChromaDB: at most as many results as were asked for,
-- each of them from the collection.
pub record IsQuery {W : Type 0} (r : Retrieval W) : Type 0 where
  pub from_collection :
      (vector : List W) (n : ℕ) (entries : List (VectorEntry W))
      {results : List (VectorEntry W × W)}
      → r.nearest vector n entries ≡ ok results
      → All (λ (p : VectorEntry W × W). Memᴰ p.0 entries) results
  pub at_most :
      (vector : List W) (n : ℕ) (entries : List (VectorEntry W))
      {results : List (VectorEntry W × W)}
      → r.nearest vector n entries ≡ ok results
      → length results ≤ n

-- The threshold of a search, and the number of hits that it asks for (0 stands for the default).
abbrev pub threshold_of : {W : Type 0} → Settings W → Option W → W
threshold_of settings none = settings.rag_similarity_threshold
threshold_of settings (some t) = t

abbrev pub asked_for : {W : Type 0} → Settings W → Option ℕ → ℕ
asked_for settings none = settings.rag_top_k
asked_for settings (some zero) = settings.rag_top_k
asked_for settings (some (suc n)) = suc n

module _ {W : Type 0} ⦃f : Float W⦄ where
  -- The cosine similarity of a result is not below the threshold.
  abbrev pub is_near : W → VectorEntry W × W → Bool
  is_near threshold (e, distance) = not (f.lt (f.sub (f.lit 1 0) distance) threshold)

  abbrev pub hit_of : VectorEntry W × W → Hit W
  hit_of (e, distance) = record {
    text = e.text;
    similarity = f.round (f.sub (f.lit 1 0) distance) 4;
    document_id = e.document_id;
    title = e.title;
    doc_type = e.doc_type;
    page_start = e.page_start;
    page_end = e.page_end;
  }

  abbrev pub HitCites : (Text → ℕ → ℕ → Type 0) → Hit W → Type 0
  HitCites P h = P h.document_id h.page_start h.page_end
