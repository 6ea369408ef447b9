-- ===== src/Tests/Corpora.antt =====
-- Examples of the corpus and of searches.
use road_vision_ai.Base.{
  ◌≡◌, refl, List, [], ◌∷◌, map, none, some, Result, ok, database_error, ◌==◌, length, take,
  if◌then◌else◌,
}
use road_vision_ai.Text.{Text, codes}
use road_vision_ai.Float.Fixed.{Fixed, fixed}
use road_vision_ai.Enums.{DocType}
use road_vision_ai.Schema.{KnowledgeDocument}
use road_vision_ai.Chunking.{Chunk, chunk_pages}
use road_vision_ai.Store.{VectorEntry, World, in_session}
use road_vision_ai.Knowledge.{IngestStep, Retrieval, entries_of, ingest_pdf}
use road_vision_ai.Knowledge.Ingestion.{ingest_counted}
use road_vision_ai.Knowledge.Corpus.{IsCorpus, ingest_pdf-IsCorpus}
use road_vision_ai.Tests.{engineer, world}
use road_vision_ai.Tests.Requests.{settings}

abbrev norm : List Text
norm = codes "a b c" ∷ codes "d e" ∷ []

-- Every entry is at the distance 0.1 of every query.
abbrev at_tenth : VectorEntry Fixed → VectorEntry Fixed × Fixed
at_tenth e = (e, 100000)

abbrev pub chroma : Retrieval Fixed
chroma = record {
  extract_pages = λ b. if length b == 0 then none else some norm;
  embed_passages = λ texts. ok (map (λ t. 0 ∷ []) texts);
  embed_query = λ text. ok (0 ∷ []);
  nearest = λ vector n entries. ok (take n (map at_tenth entries));
  index_text = λ n. n ∷ [];
  fault = λ step n. none;
}

-- The same, with a database that refuses the audit entry.
abbrev torn : Retrieval Fixed
torn = record chroma {
  fault = λ step n. elim step [ IngestStep.logging ↦ some database_error | _ ↦ none ];
}

abbrev half : Result KnowledgeDocument × World Fixed Fixed
half =
    in_session (ingest_pdf torn settings (1 ∷ []) "Norme" DocType.norme_dgr none none engineer)
      world

abbrev stocked : World Fixed Fixed
stocked =
    (in_session (ingest_pdf chroma settings (1 ∷ []) "Norme" DocType.norme_dgr none none engineer)
      world).1

ingested :
    (d : KnowledgeDocument) × ((ingest_pdf chroma settings
        (1 ∷ [])
        "Norme"
        DocType.norme_dgr
        none
        none
        engineer
        world).0
      ≡ ok d)
unfolding ingest_pdf road_vision_ai.Knowledge.index_document road_vision_ai.Knowledge.full_text_of
    road_vision_ai.Text.strip road_vision_ai.Text.lstrip chunk_pages
    road_vision_ai.Chunking.chunk_loop road_vision_ai.Chunking.words_from road_vision_ai.Text.split
    road_vision_ai.Knowledge.entries_of
ingested = (_, refl)

ingest_counted_example :
    (pages : List Text) × (chunks : List Chunk) × (some norm ≡ some pages)
    × (chunk_pages pages 500 50 ≡ ok chunks)
    × (ingested.0.status ≡ "INDEXED")
    × (ingested.0.embedding_count ≡ length chunks)
    × (ingested.0.page_count ≡ some (length pages))
ingest_counted_example =
    ingest_counted chroma settings (1 ∷ []) "Norme" DocType.norme_dgr none none engineer world
      {d = ingested.0} ingested.1

ingest_pdf-IsCorpus_example : IsCorpus stocked
ingest_pdf-IsCorpus_example =
    ingest_pdf-IsCorpus chroma settings (1 ∷ []) "Norme" DocType.norme_dgr none none engineer world
      tt refl refl
