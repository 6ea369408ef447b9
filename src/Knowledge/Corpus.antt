-- ===== src/Knowledge/Corpus.antt =====
-- About what the corpus holds and a search cites (backend/app/ai/rag/knowledge_service.py).
use mathlib.Core.List.{Memᴰ}
use mathlib.Core.List.Memᴰ
use road_vision_ai.Base.{
  ℕ, ◌≤◌, ◌≡◌, refl, ap, ◌∙◌, inl, inr, String, List, [], ◌∷◌, ◌++◌, map, Option, none, some, All,
  All-map, All-append, ◌==◌, ==_refl, length, Bool-cases, Option-cases, select-All,
}
use road_vision_ai.Text.{Text}
use road_vision_ai.Enums.{DocType}
use road_vision_ai.Schema.{KnowledgeDocument, User}
use road_vision_ai.Chunking.{Chunk}
use road_vision_ai.Chunking.Pages.{chunk_pages-IsCitable}
use road_vision_ai.Store.{VectorEntry, World, in_session}
use road_vision_ai.Storage.{Settings}
use road_vision_ai.Knowledge.{
  IngestStep, Retrieval, new_document, indexed, entry_of, entries_of, upsert, ingest_pdf,
}
use road_vision_ai.Knowledge.Ends.{marked, ingest_ends}

-- A citation names an indexed document, and pages that it has.
abbrev pub Cites : (ℕ → Text) → List KnowledgeDocument → Text → ℕ → ℕ → Type 0
Cites uuid_text docs document_id page_start page_end =
    (d : KnowledgeDocument) × (n : ℕ) × Memᴰ d docs
    × (uuid_text d.id ≡ document_id)
    × (d.status ≡ "INDEXED")
    × (d.page_count ≡ some n)
    × (1 ≤ page_start)
    × (page_start ≤ page_end)
    × (page_end ≤ n)

abbrev pub EntryCites : {W : Type 0} → (ℕ → Text) → List KnowledgeDocument → VectorEntry W → Type 0
EntryCites uuid_text docs e = Cites uuid_text docs e.document_id e.page_start e.page_end

-- Every vector can be cited.
abbrev pub IsCorpus : {W D : Type 0} → World W D → Type 0
IsCorpus s = All (EntryCites s.uuid_text s.committed.knowledge_documents) s.vectors

-- What an indexing does to a row that is cited already.
marked_kept :
    (id now chunks : ℕ) (d : KnowledgeDocument)
    → d.status ≡ "INDEXED"
    → ((marked id now chunks d).id ≡ d.id)
      × ((marked id now chunks d).status ≡ "INDEXED")
      × ((marked id now chunks d).page_count ≡ d.page_count)
unfolding indexed
marked_kept id now chunks d h = elim (Bool-cases (d.id == id)) [
  | inl e ↦ rw e (refl, refl, refl)
  | inr e ↦ rw e (refl, h, refl)
]

-- A citation stays good when a document is added and marked.
Cites-marked :
    (uuid_text : ℕ → Text) (docs : List KnowledgeDocument) (new : KnowledgeDocument)
    (id now chunks : ℕ) (document_id : Text) (page_start page_end : ℕ)
    → Cites uuid_text docs document_id page_start page_end
    → Cites uuid_text
        (map (marked id now chunks) (docs ++ new ∷ []))
        document_id
        page_start
        page_end
Cites-marked uuid_text docs new id now chunks document_id a b
      (d, n, m, same, status, count, p, q, w) =
    let (id_is, status_is, count_is) = marked_kept id now chunks d status in
    (
      marked id now chunks d,
      n,
      Memᴰ.map (marked id now chunks) (Memᴰ.append_left (new ∷ []) m),
      ap uuid_text id_is ∙ same,
      status_is,
      count_is ∙ count,
      p,
      q,
      w,
    )

-- The new entries name the new document, and its pages.
entries_of-All :
    {W : Type 0} (r : Retrieval W) (document_id : Text) (title : String) (doc_type : DocType)
    (n : ℕ) (chunks : List Chunk) (vectors : List (List W)) {entries : List (VectorEntry W)}
    → entries_of r document_id title doc_type chunks vectors ≡ some entries
    → All (λ c. (1 ≤ c.page_start) × (c.page_start ≤ c.page_end) × (c.page_end ≤ n)) chunks
    → All
        (λ (e : VectorEntry W).
          (e.document_id ≡ document_id)
          × (1 ≤ e.page_start)
          × (e.page_start ≤ e.page_end)
          × (e.page_end ≤ n))
        entries
unfolding entries_of entry_of
entries_of-All r document_id title doc_type n [] [] {entries} h a =
    let same : [] ≡ entries = cc in rw (← same) tt
entries_of-All r document_id title doc_type n [] (v ∷ vs) h a = cc
entries_of-All r document_id title doc_type n (c ∷ cs) [] h a = cc
entries_of-All r document_id title doc_type n (c ∷ cs) (v ∷ vs) {entries} h a =
    elim (Option-cases (entries_of r document_id title doc_type cs vs)) [
      | inl e ↦ cc (rw e at h)
      | inr (es, e) ↦
          let same : entry_of r document_id title doc_type c v ∷ es ≡ entries = cc (rw e at h) in
          rw (← same)
            ((refl, a.0.0, a.0.1, a.0.2), entries_of-All r document_id title doc_type n cs vs e a.1)
    ]

-- A new document, once it is marked.
Cites-new :
    (uuid_text : ℕ → Text) (docs : List KnowledgeDocument) (new : KnowledgeDocument)
    (now chunks n a b : ℕ)
    → new.page_count ≡ some n
    → (1 ≤ a) × (a ≤ b) × (b ≤ n)
    → Cites uuid_text (map (marked new.id now chunks) (docs ++ new ∷ [])) (uuid_text new.id) a b
unfolding indexed
Cites-new uuid_text docs new now chunks n a b count (p, q, w) =
    let here : marked new.id now chunks new ≡ indexed now chunks new = rw (==_refl new.id) refl in
    (
      marked new.id now chunks new,
      n,
      Memᴰ.map (marked new.id now chunks) (Memᴰ.append_right docs (Memᴰ.head refl)),
      rw here refl,
      rw here refl,
      rw here count,
      p,
      q,
      w,
    )

module _ {W D : Type 0} (r : Retrieval W) (settings : Settings W) (pdf_bytes : Text)
    (title : String) (doc_type : DocType) (source version : Option String) (actor : User)
    (s : World W D) where
  -- If the database raises neither at the audit entry nor at the commit of an ingestion, then
  -- however the ingestion ends, every vector of the collection still names a document that is
  -- indexed, and pages between the first and the last of that document. (An upsert that raises is
  -- taken to store nothing.)
  pub ingest_pdf-IsCorpus :
      IsCorpus s
      → r.fault IngestStep.logging s.next_id ≡ none
      → r.fault IngestStep.committing s.next_id ≡ none
      → IsCorpus
          (in_session (ingest_pdf r settings pdf_bytes title doc_type source version actor) s).1
  unfolding in_session upsert new_document
  ingest_pdf-IsCorpus k logs commits =
      let t : World W D = record s { working = s.committed } in
      elim (ingest_ends r settings pdf_bytes title doc_type source version actor t) [
        | inl (e, answer, kept, same, texts) ↦ rw (texts, kept, same) k
        | inr (inl (e, pages, chunks, vectors, entries, i, answer, why, rows)) ↦ elim why [
          | inl a ↦ cc
          | inr a ↦ cc
        ]
        | inr
              (inr
                (pages, chunks, vectors, entries, (e1, e2, e3, stored, texts), _, _, rows, how)) ↦
            let new = new_document s.next_id s.now pages title doc_type source version actor in
            let all =
              map (marked s.next_id s.now (length chunks))
                (s.committed.knowledge_documents ++ new ∷ []) in
            rw (texts, rows, stored)
              (All-append (EntryCites s.uuid_text all) _ entries
                (All-map _
                  (λ x.
                    Cites-marked s.uuid_text s.committed.knowledge_documents new s.next_id s.now
                      (length chunks) x.document_id x.page_start x.page_end)
                  (select-All (EntryCites s.uuid_text s.committed.knowledge_documents) _ s.vectors
                    k))
                (All-map entries
                  (λ x (names, p, q, w). rw names (
                    Cites-new s.uuid_text s.committed.knowledge_documents new s.now (length chunks)
                      (length pages) x.page_start x.page_end refl (p, q, w)))
                  (entries_of-All r (s.uuid_text s.next_id) title doc_type (length pages) chunks
                    vectors e3
                    (chunk_pages-IsCitable pages settings.rag_chunk_size settings.rag_chunk_overlap
                      e2))))
      ]
