-- ===== src/Knowledge/Ends.antt =====
-- The ways in which an ingestion may end (backend/app/ai/rag/knowledge_service.py).
use road_vision_ai.Base.{
  ℕ, ◌≡◌, refl, none, false, ◌⊎◌, inl, inr, String, List, [], ◌∷◌, ◌++◌, map, Option, some, Result,
  ok, err, Exn, ◌==◌, length, Bool-cases, Option-cases, Result-cases, if◌then◌else◌,
}
use road_vision_ai.Text.{Text}
use road_vision_ai.Enums.{DocType}
use road_vision_ai.Schema.{KnowledgeDocument, User}
use road_vision_ai.Chunking.{Chunk, chunk_pages}
use road_vision_ai.Store.{VectorEntry, World}
use road_vision_ai.Storage.{Settings}
use road_vision_ai.Knowledge.{
  IngestStep, Retrieval, full_text_of, new_document, indexed, entries_of, upsert, index_document,
  ingest_pdf,
}

-- The row of a document after its indexing; the other rows are left.
abbrev pub marked : ℕ → ℕ → ℕ → KnowledgeDocument → KnowledgeDocument
marked id now chunks d = if d.id == id then indexed now chunks d else d

module _ {W D : Type 0} (r : Retrieval W) (settings : Settings W) (pdf_bytes : Text)
    (title : String) (doc_type : DocType) (source version : Option String) (actor : User)
    (s : World W D) where
  abbrev Fails : IngestStep → Exn → Type 0
  Fails step e = (r.fault step s.next_id ≡ some e)

  abbrev Passes : IngestStep → Type 0
  Passes step = (r.fault step s.next_id ≡ none)

  -- An ingestion that has stored its vectors.
  abbrev pub Indexes :
      World W D → List Text → List Chunk → List (List W) → List (VectorEntry W) → Type 0
  Indexes t pages chunks vectors entries =
      (r.extract_pages pdf_bytes ≡ some pages)
      × (chunk_pages pages settings.rag_chunk_size settings.rag_chunk_overlap ≡ ok chunks)
      × (entries_of r (s.uuid_text s.next_id) title doc_type chunks vectors ≡ some entries)
      × (t.vectors ≡ upsert entries s.vectors)
      × (t.uuid_text ≡ s.uuid_text)

  -- One that is committed as well. Its answer is the row, if the refresh does not raise.
  abbrev pub Ingested : Result KnowledgeDocument × World W D → Type 0
  Ingested (answer, t) =
      (pages : List Text) × (chunks : List Chunk) × (vectors : List (List W)) × (entries : List
        (VectorEntry W))
      × Indexes t pages chunks vectors entries
      × Passes IngestStep.logging
      × Passes IngestStep.committing
      × (t.committed.knowledge_documents
          ≡ map (marked s.next_id s.now (length chunks)) (
              s.working.knowledge_documents
              ++ new_document s.next_id s.now pages title doc_type source version actor ∷ []))
      × (((e : Exn) × Fails IngestStep.refreshing e × (answer ≡ err e))
          ⊎ (answer
              ≡ ok (
                  indexed s.now (length chunks)
                    (new_document s.next_id s.now pages title doc_type source version actor))))

  -- One that the database stops once the vectors are stored.
  abbrev pub Stranded : Result KnowledgeDocument × World W D → Type 0
  Stranded (answer, t) =
      (e : Exn) × (pages : List Text) × (chunks : List Chunk) × (vectors : List (List W))
      × (entries : List (VectorEntry W)) × Indexes t pages chunks vectors entries
      × (answer ≡ err e)
      × (Fails IngestStep.logging e ⊎ Fails IngestStep.committing e)
      × (t.committed ≡ s.committed)

  -- One that stores nothing.
  abbrev pub Refused : Result KnowledgeDocument × World W D → Type 0
  Refused (answer, t) =
      (e : Exn) × (answer ≡ err e)
      × (t.committed ≡ s.committed)
      × (t.vectors ≡ s.vectors)
      × (t.uuid_text ≡ s.uuid_text)

  abbrev end : Result KnowledgeDocument × World W D
  end = ingest_pdf r settings pdf_bytes title doc_type source version actor s

  module _ {pages : List Text} {chunks : List Chunk} {vectors : List (List W)}
      {entries : List (VectorEntry W)} (e1 : r.extract_pages pdf_bytes ≡ some pages)
      (e2 : (length (full_text_of pages) == 0) ≡ false)
      (e3 : r.fault IngestStep.inserting s.next_id ≡ none)
      (e4 : chunk_pages pages settings.rag_chunk_size settings.rag_chunk_overlap ≡ ok chunks)
      (e5 : (length chunks == 0) ≡ false)
      (e6 : r.embed_passages (map (λ (c : Chunk). c.text) chunks) ≡ ok vectors)
      (e7 : entries_of r (s.uuid_text s.next_id) title doc_type chunks vectors ≡ some entries)
      (e8 : r.fault IngestStep.storing s.next_id ≡ none) where
    -- What follows the upsert.
    stored_ends : Stranded end ⊎ Ingested end
    unfolding ingest_pdf index_document new_document
    stored_ends = elim (Option-cases (r.fault IngestStep.logging s.next_id)) [
      | inr (x, k) ↦ inl (
          rw (e1, e2, e3, e4, e5, e6, e7, e8, k)
            (x, pages, chunks, vectors, entries, (refl, e4, e7, refl, refl), refl, inl refl, refl))
      | inl k ↦ elim (Option-cases (r.fault IngestStep.committing s.next_id)) [
        | inr (x, l) ↦ inl (
            rw (e1, e2, e3, e4, e5, e6, e7, e8, k, l)
              (
                x,
                pages,
                chunks,
                vectors,
                entries,
                (refl, e4, e7, refl, refl),
                refl,
                inr refl,
                refl,
              ))
        | inl l ↦ elim (Option-cases (r.fault IngestStep.refreshing s.next_id)) [
          | inr (x, m) ↦ inr (
              rw (e1, e2, e3, e4, e5, e6, e7, e8, k, l, m)
                (
                  pages,
                  chunks,
                  vectors,
                  entries,
                  (refl, e4, e7, refl, refl),
                  refl,
                  refl,
                  refl,
                  inl (x, refl, refl),
                ))
          | inl m ↦ inr (
              rw (e1, e2, e3, e4, e5, e6, e7, e8, k, l, m)
                (
                  pages,
                  chunks,
                  vectors,
                  entries,
                  (refl, e4, e7, refl, refl),
                  refl,
                  refl,
                  refl,
                  inr refl,
                ))
        ]
      ]
    ]

  chunked_ends :
      {pages : List Text} {chunks : List Chunk}
      → r.extract_pages pdf_bytes ≡ some pages
      → (length (full_text_of pages) == 0) ≡ false
      → r.fault IngestStep.inserting s.next_id ≡ none
      → chunk_pages pages settings.rag_chunk_size settings.rag_chunk_overlap ≡ ok chunks
      → (length chunks == 0) ≡ false
      → Refused end ⊎ Stranded end ⊎ Ingested end
  unfolding ingest_pdf index_document new_document
  chunked_ends {pages} {chunks} e1 e2 e3 e4 e5 =
      elim (Result-cases (r.embed_passages (map (λ (c : Chunk). c.text) chunks))) [
        | inl (x, e) ↦ inl (rw (e1, e2, e3, e4, e5, e) (_, refl, refl, refl, refl))
        | inr (vectors, e6) ↦
            elim (Option-cases
              (entries_of r (s.uuid_text s.next_id) title doc_type chunks vectors)) [
                | inl e ↦ inl (rw (e1, e2, e3, e4, e5, e6, e) (_, refl, refl, refl, refl))
                | inr (entries, e7) ↦ elim (Option-cases (r.fault IngestStep.storing s.next_id)) [
                  | inr (x, e) ↦
                      inl (rw (e1, e2, e3, e4, e5, e6, e7, e) (_, refl, refl, refl, refl))
                  | inl e8 ↦ inr (stored_ends e1 e2 e3 e4 e5 e6 e7 e8)
                ]
              ]
      ]

  pub ingest_ends : Refused end ⊎ Stranded end ⊎ Ingested end
  unfolding ingest_pdf index_document new_document
  ingest_ends = elim (Option-cases (r.extract_pages pdf_bytes)) [
    | inl e ↦ inl (rw e (_, refl, refl, refl, refl))
    | inr (pages, e1) ↦ elim (Bool-cases (length (full_text_of pages) == 0)) [
      | inl e ↦ inl (rw (e1, e) (_, refl, refl, refl, refl))
      | inr e2 ↦ elim (Option-cases (r.fault IngestStep.inserting s.next_id)) [
        | inr (x, e) ↦ inl (rw (e1, e2, e) (_, refl, refl, refl, refl))
        | inl e3 ↦
            elim (Result-cases
              (chunk_pages pages settings.rag_chunk_size settings.rag_chunk_overlap)) [
                | inl (x, e) ↦ inl (rw (e1, e2, e3, e) (_, refl, refl, refl, refl))
                | inr (chunks, e4) ↦ elim (Bool-cases (length chunks == 0)) [
                  | inl e ↦ inl (rw (e1, e2, e3, e4, e) (_, refl, refl, refl, refl))
                  | inr e5 ↦ chunked_ends e1 e2 e3 e4 e5
                ]
              ]
      ]
    ]
  ]
