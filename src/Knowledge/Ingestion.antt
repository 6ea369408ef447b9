-- ===== src/Knowledge/Ingestion.antt =====
-- About the ingestions that raise and those that succeed
-- (backend/app/ai/rag/knowledge_service.py).
use road_vision_ai.Base.{◌≡◌, inl, inr, String, List, Option, some, ok, length}
use road_vision_ai.Text.{Text}
use road_vision_ai.Enums.{DocType}
use road_vision_ai.Schema.{KnowledgeDocument, User}
use road_vision_ai.Chunking.{Chunk, chunk_pages}
use road_vision_ai.Store.{World}
use road_vision_ai.Storage.{Settings}
use road_vision_ai.Knowledge.{Retrieval, new_document, indexed, ingest_pdf}
use road_vision_ai.Knowledge.Ends.{ingest_ends}

module _ {W D : Type 0} (r : Retrieval W) (settings : Settings W) (pdf_bytes : Text)
    (title : String) (doc_type : DocType) (source version : Option String) (actor : User)
    (s : World W D) where
  -- An ingestion that succeeds answers with the row of the document, marked as indexed, and counts
  -- its chunks, which are those of the chunker on the pages of the PDF.
  pub ingest_counted :
      {d : KnowledgeDocument}
      → (ingest_pdf r settings pdf_bytes title doc_type source version actor s).0 ≡ ok d
      → (pages : List Text) × (chunks : List Chunk) × (r.extract_pages pdf_bytes ≡ some pages)
        × (chunk_pages pages settings.rag_chunk_size settings.rag_chunk_overlap ≡ ok chunks)
        × (d.status ≡ "INDEXED")
        × (d.embedding_count ≡ length chunks)
        × (d.page_count ≡ some (length pages))
  unfolding new_document indexed
  ingest_counted h = elim (ingest_ends r settings pdf_bytes title doc_type source version actor s) [
    | inl (e, answer, kept, same, texts) ↦ cc
    | inr (inl (x, pages, chunks, vectors, entries, i, answer, why, rows)) ↦ cc
    | inr (inr (pages, chunks, vectors, entries, (e1, e2, _, _, _), _, _, rows, how)) ↦ elim how [
      | inl (x, why, answer) ↦ cc
      | inr answer ↦ (pages, chunks, e1, e2, cc, cc, cc)
    ]
  ]
