-- ===== src/Lib.antt =====
-- RoadVisionAI: the inspection of roads by images. Inspectors upload images of a road section; a
-- detector finds damage; the PCI engine computes a condition index; a rule engine decides on
-- maintenance, and a language model with a search of norms writes its justification.
--
-- What the files model (paths from the repository's root, below backend/app/):
--
-- Pci: ai/engines/pci_engine.py. `compute_pci` is the source's function, cut at its loops:
--   `group_by_type`, `type_deduction`, `deduct_from`, `result_of`. A score is kept in hundredths.
--   Pci/Groups is about the grouping, Pci/Totality about errors, Pci/Levels about scores and
--   levels.
-- Rules: ai/engines/rule_engine.py: `_parse`, `_matches`, `_render` and `evaluate`.
--   Rules/FirstMatch is about what is decided, Rules/Order about the order of the rows.
-- Pipeline: ai/agents/recommendation_pipeline.py: the nodes and `run_pipeline`.
--   Pipeline/Grounding is about its result.
-- Chunking: ai/rag/chunking.py. Chunking/Coverage and Chunking/Pages are about its chunks,
--   Chunking/Fuel about its loop.
-- Detection: ai/detection/detector.py and class_mapping.py, after the prediction;
--   Detection/Bounds.
-- Registry: ai/detection/model_registry.py; Registry/SingleActive.
-- Repository: repositories/base.py, audit_repository.py and inspection_repository.py (in
--   Repository/Inspections), with the triggers of the database on inspections.
-- InspectionService: services/inspection_service.py; Revision and Locking are about PATCH,
--   Workflow about the start of an analysis, Deletion about soft deletion, Atomic about requests
--   that raise.
-- Storage: services/storage_service.py. Schema and Enums: db/models/, column by column.
-- Worker: workers/analysis_worker.py: the stored detections (`analyse_images`), the PCI and the
--   summary (`save_outputs`), and what follows an exception (`recover`). Worker/Detectors is the
--   cached detector (`get_detector`) with `load_artifacts` of ai/detection/model_registry.py.
--   Worker/Keeps and Worker/Outcome are about how a run ends, Worker/Storing, Worker/Images,
--   Worker/Outputs, Worker/Analysis and Worker/Consistency about the rows that it leaves.
--   Worker/Detectors/Artifacts is about the objects of a model.
-- Constraints: the CHECK, UNIQUE and FOREIGN KEY constraints of the tables that the worker writes
--   (db/models/inspection.py).
-- Security: core/security.py, passwords and tokens. Auth: services/auth_service.py and the guards
--   of core/dependencies.py, over Repository/Users (repositories/user_repository.py); Auth/Login is
--   about the answers to a login, Auth/Guards about the roles, Auth/Sessions (with Auth/Tokens)
--   about tokens in time.
-- Recommendations: services/recommendation_service.py over the pipeline;
--   Recommendations/Generation.
-- Knowledge: ai/rag/knowledge_service.py and the upload of api/v1/endpoints/knowledge.py, over
--   the chunker. Knowledge/Ends and Knowledge/Ingestion are about how an upload ends,
--   Knowledge/Corpus about the vectors, Knowledge/Citations about the hits of a search.
-- Reports: services/report_service.py and repositories/report_repository.py; Reports/Download.
-- Dashboard: workers/snapshot_job.py, repositories/dashboard_repository.py and
--   services/dashboard_service.py; Dashboard/Distribution is about the counts of a snapshot.
-- Lifecycle: the states of an inspection (SM1) as a step relation. Lifecycle/Rows is about the
--   table, Lifecycle/Served about each request, Lifecycle/Refinement about the requests and the
--   worker as its steps.
-- Store: the session of db/session.py. A world holds the committed tables, the tables of the
--   session, the objects of MinIO, the vectors of ChromaDB, the source of keys and the clock; an
--   operation is a function from a world to a result and a world (Store/Actions), and `in_session`
--   runs a request.
-- Api: api/v1/endpoints/ (auth.py in Api/Accounts, inspections.py in Api/Inspections, models.py
--   in Api/Models, the others in Api/Resources): a handler is its guard, the bounds of its
--   parameters and the call of its service. Api/Calls puts them together, as api/v1/router.py does:
--   a history is a list of calls, each in a session of its own, and of background tasks, each run
--   as a whole. Api/Guards is about who may write.
-- AuditTrail: the audit log (repositories/audit_repository.py) over the services
--   (AuditTrail/Services), the worker (AuditTrail/Tasks) and a history (AuditTrail/Trail).
-- Base, Text, Json and Float hold what the parts share. Tests holds concrete inputs, and an
--   example for each result.
--
-- What is not code of the repository is an argument: the arithmetic of floats (Float and
-- Float/Sums, with the laws of IEEE 754 and `decimal` that proofs use, and a fixed-point instance
-- of them in Float/Fixed), the parsing and printing of JSON and numbers (Json.Python), the search
-- and the language model, the boxes of YOLO, the reading of an image's size, Argon2 and PyJWT
-- (Security.Crypto, with what is relied on in Auth/Tokens), and PyMuPDF, the embeddings,
-- ChromaDB's query and what ChromaDB and PostgreSQL raise at the steps of an ingestion
-- (Knowledge.Retrieval), what the loading of YOLO raises (Worker.Detectors.Runtime), the drawing
-- of a PDF (Reports.Publishing), and which texts PostgreSQL reads as an address (`is_inet` of a
-- world).
--
-- The one loop without a bound, that of the chunker, runs on fuel: one more than the number of
-- words, which is enough as each round advances by at least one word.
--
-- FastAPI's check of a request's parameters is taken as documented: 422 after the guard of the
-- endpoint.
--
-- Not modelled: response models, multipart parsing, texts of messages and logs, the constraints
-- of tables that the worker does not write (but the unique active model and the array of cited
-- clauses), failures of the database but those named here (in an ingestion, of an address, of the
-- constraints that are modelled), stale objects of the ORM's identity map, two requests that
-- interleave within their sessions, the signature of links, and temporary files.
pub mod Base
pub mod Text
pub mod Float
pub mod Enums
pub mod Pci
pub mod Json
pub mod Rules
pub mod Chunking
pub mod Schema
pub mod Store
pub mod Repository
pub mod Storage
pub mod InspectionService
pub mod Detection
pub mod Registry
pub mod Pipeline
pub mod Constraints
pub mod Worker
pub mod Security
pub mod Auth
pub mod Recommendations
pub mod Knowledge
pub mod Lifecycle
pub mod Reports
pub mod Dashboard
pub mod Api
pub mod AuditTrail
pub mod Tests
