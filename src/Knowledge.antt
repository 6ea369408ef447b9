-- ===== src/Knowledge.antt =====
-- KnowledgeService (backend/app/ai/rag/knowledge_service.py), and the guards of its endpoint
-- (backend/app/api/v1/endpoints/knowledge.py): the ingestion of a PDF, and the search.
pub mod Ends
pub mod Ingestion
pub mod Corpus
pub mod Citations
use road_vision_ai.Base.{
  ℕ, ◌+◌, ◌≡◌, Bool, true, false, not, ◌&&◌, ◌||◌, String, List, [], ◌∷◌, ◌++◌, map, Option, none,
  some, Exn, Result, ok, err, http, value_error, ◌==◌, ltb, length, find, select, any, is_none,
  if◌then◌else◌,
}
use road_vision_ai.Base.Sort.{sorted}
use road_vision_ai.Text.{Text, codes, strip, text_eq}
use road_vision_ai.Float.{Float}
use road_vision_ai.Json.{Json, ℤ, Fields}
use road_vision_ai.Enums.{DocType, doc_type_of}
use road_vision_ai.Schema.{KnowledgeDocument, User}
use road_vision_ai.Chunking.{Chunk, chunk_pages}
use road_vision_ai.Store.{
  VectorEntry, Exec, pure, lift, query, gets, or_raise, raise_when, raise_fault, write, new_key,
  commit, ◌>>=◌, ◌>>◌,
}
use road_vision_ai.Storage.{Settings}
use road_vision_ai.Repository.{audit_log}
use road_vision_ai.InspectionService.{UploadFile, content_type_of}

-- The steps of an ingestion at which ChromaDB or PostgreSQL may raise.
pub data IngestStep : Type 0 where
  inserting storing logging committing refreshing : IngestStep

-- What is no code of the repository: PyMuPDF's texts of the pages (`none` stands for an exception),
-- the embedding model, the query of ChromaDB (from a vector, a number of results and the
-- collection, to entries with their distances), `str` of an index, and what a step of the ingestion of
-- the document with a key raises, if anything (an upsert that raises stores nothing).
pub record Retrieval (W : Type 0) : Type 0 where
  pub extract_pages : Text → Option (List Text)
  pub embed_passages : List Text → Result (List (List W))
  pub embed_query : Text → Result (List W)
  pub nearest : List W → ℕ → List (VectorEntry W) → Result (List (VectorEntry W × W))
  pub index_text : ℕ → Text
  pub fault : IngestStep → ℕ → Option Exn

abbrev pub max_pdf_bytes : ℕ
max_pdf_bytes = 52428800

-- `"\n\n".join(pages)`
join_pages : List Text → Text
join_pages [] = []
join_pages (p ∷ []) = p
join_pages (p ∷ q ∷ ps) = p ++ 10 ∷ 10 ∷ join_pages (q ∷ ps)

unfoldable pub full_text_of : List Text → Text
unfolding join_pages
full_text_of pages = strip (join_pages pages)

-- A new row with the defaults of its columns.
unfoldable pub new_document :
    ℕ → ℕ → List Text → String → DocType → Option String → Option String → User → KnowledgeDocument
unfolding full_text_of
new_document id now pages title doc_type source version actor = record {
  id = id;
  title = title;
  doc_type = doc_type;
  language = "fr";
  content = full_text_of pages;
  status = "PENDING";
  embedding_count = 0;
  uploaded_at = now;
  updated_at = now;
  lock_version = 1;
  source = source;
  version = version;
  page_count = some (length pages);
  uploaded_by = some actor.id;
  deleted_at = none;
}

-- The UPDATE after the indexing, with the triggers of the table: its status changes.
unfoldable pub indexed : ℕ → ℕ → KnowledgeDocument → KnowledgeDocument
indexed now chunks d = record d {
  status = "INDEXED";
  embedding_count = chunks;
  updated_at = now;
  lock_version = d.lock_version + 1;
}

module _ {W : Type 0} where
  unfoldable pub entry_of : Retrieval W → Text → String → DocType → Chunk → List W → VectorEntry W
  entry_of r document_id title doc_type c vector = record {
    entry_id = document_id ++ b':' ∷ r.index_text c.index;
    embedding = vector;
    text = c.text;
    document_id = document_id;
    title = title;
    doc_type = doc_type;
    page_start = c.page_start;
    page_end = c.page_end;
  }

  -- The arguments of `upsert`; ChromaDB refuses lists of different lengths.
  unfoldable pub entries_of :
      Retrieval W
      → Text
      → String
      → DocType
      → List Chunk
      → List (List W)
      → Option (List (VectorEntry W))
  unfolding entry_of
  entries_of r document_id title doc_type [] [] = some []
  entries_of r document_id title doc_type (c ∷ cs) (v ∷ vs) =
      elim (entries_of r document_id title doc_type cs vs) [
        | none ↦ none
        | some es ↦ some (entry_of r document_id title doc_type c v ∷ es)
      ]
  entries_of r document_id title doc_type _ _ = none

  -- `upsert`: an entry replaces the one that has its id.
  unfoldable pub upsert : List (VectorEntry W) → List (VectorEntry W) → List (VectorEntry W)
  upsert new old =
      select
        (λ (e : VectorEntry W).
          not (any (λ (n : VectorEntry W). text_eq n.entry_id e.entry_id) new))
        old
      ++ new

pub record Hit (W : Type 0) : Type 0 where
  pub text : Text
  pub similarity : W
  pub document_id : Text
  pub title : String
  pub doc_type : DocType
  pub page_start : ℕ
  pub page_end : ℕ

module _ {W : Type 0} ⦃f : Float W⦄ where
  unfoldable pub similarity_of : W → W
  similarity_of distance = f.sub (f.lit 1 0) distance

  -- The loop over the results: those below the threshold are passed over.
  unfoldable pub hits_of : W → List (VectorEntry W × W) → List (Hit W)
  unfolding similarity_of
  hits_of threshold [] = []
  hits_of threshold ((e, distance) ∷ results) =
      let similarity = similarity_of distance in
      let rest = hits_of threshold results in
      if f.lt similarity threshold
      then rest
      else record {
        text = e.text;
        similarity = f.round similarity 4;
        document_id = e.document_id;
        title = e.title;
        doc_type = e.doc_type;
        page_start = e.page_start;
        page_end = e.page_end;
      }
        ∷ rest

-- `top_k or default`
unfoldable pub top_k_or : Option ℕ → ℕ → ℕ
top_k_or none default = default
top_k_or (some n) default = if n == 0 then default else n

-- The vector store is outside the database.
unfoldable pub store_entries : {W D : Type 0} → List (VectorEntry W) → Exec W D (Unit {0})
unfolding upsert
store_entries entries s = (ok tt, record s { vectors = upsert entries s.vectors })

module _ {W D : Type 0} (r : Retrieval W) (settings : Settings W) where
  -- The end of `ingest_pdf`, from the upsert on.
  unfoldable pub index_document :
      KnowledgeDocument
      → List Text
      → ℕ
      → List (VectorEntry W)
      → String
      → User
      → Exec W D KnowledgeDocument
  unfolding audit_log store_entries
  index_document document pages chunks entries title actor = do
    raise_fault (r.fault IngestStep.storing document.id)
    store_entries entries
    now ← gets (λ s. s.now)
    write (λ db. record db {
      knowledge_documents =
          map (λ (d : KnowledgeDocument). if d.id == document.id then indexed now chunks d else d)
            db.knowledge_documents;
    })
    audit_log "DOCUMENT_INDEXED" "knowledge_documents" document.id (some actor.id)
        (some (
          Json.obj (
            Fields.field "title" (Json.str title) (
              Fields.field "chunks" (Json.int (ℤ.pos chunks))
                (Fields.field "pages" (Json.int (ℤ.pos (length pages))) Fields.end)))))
        none none
    raise_fault (r.fault IngestStep.logging document.id)
    raise_fault (r.fault IngestStep.committing document.id)
    commit
    raise_fault (r.fault IngestStep.refreshing document.id)
    pure (indexed now chunks document)

  unfoldable pub ingest_pdf :
      Text → String → DocType → Option String → Option String → User → Exec W D KnowledgeDocument
  ingest_pdf pdf_bytes title doc_type source version actor = do
    pages ← or_raise (r.extract_pages pdf_bytes) (http 400)
    raise_when (length (full_text_of pages) == 0) (http 400)
    id ← new_key
    now ← gets (λ s. s.now)
    let document = new_document id now pages title doc_type source version actor
    write (λ db. record db { knowledge_documents = db.knowledge_documents ++ document ∷ [] })
    raise_fault (r.fault IngestStep.inserting id)
    chunks ← lift (chunk_pages pages settings.rag_chunk_size settings.rag_chunk_overlap)
    raise_when (length chunks == 0) (http 400)
    vectors ← lift (r.embed_passages (map (λ (c : Chunk). c.text) chunks))
    document_id ← gets (λ s. s.uuid_text id)
    entries ← or_raise (entries_of r document_id title doc_type chunks vectors) value_error
    index_document document pages (length chunks) entries title actor

  -- The endpoint's checks of an upload, and the ingestion.
  unfoldable pub ingest_document :
      UploadFile
      → String
      → String
      → Option String
      → Option String
      → User
      → Exec W D KnowledgeDocument
  unfolding ingest_pdf doc_type_of content_type_of
  ingest_document file title doc_type source version actor = do
    kind ← or_raise (doc_type_of doc_type) (http 422)
    let content_type = content_type_of file.content_type
    raise_when
        (not (
          text_eq content_type (codes "application/pdf")
          || text_eq content_type (codes "application/octet-stream")))
        (http 415)
    raise_when (length file.content == 0) (http 400)
    raise_when (ltb max_pdf_bytes (length file.content)) (http 413)
    ingest_pdf file.content title kind source version actor

  unfoldable pub search : ⦃f : Float W⦄ → Text → Option ℕ → Option W → Exec W D (List (Hit W))
  unfolding hits_of
  search text top_k threshold = do
    vector ← lift (r.embed_query text)
    vectors ← gets (λ s. s.vectors)
    results ← lift (r.nearest vector (top_k_or top_k settings.rag_top_k) vectors)
    pure
        (hits_of (elim threshold [ none ↦ settings.rag_similarity_threshold | some t ↦ t ]) results)

module _ {W D : Type 0} where
  -- The latest first.
  unfoldable pub list_documents : Exec W D (List KnowledgeDocument)
  list_documents = query (λ db.
      sorted (λ (a b : KnowledgeDocument). ltb b.uploaded_at a.uploaded_at)
        (select (λ (d : KnowledgeDocument). is_none d.deleted_at) db.knowledge_documents))

  unfoldable pub get_document : ℕ → Exec W D KnowledgeDocument
  get_document document_id = do
    doc ← query (λ db.
        find (λ (d : KnowledgeDocument). d.id == document_id)
          (select (λ (d : KnowledgeDocument). is_none d.deleted_at) db.knowledge_documents))
    or_raise doc (http 404)
