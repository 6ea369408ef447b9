-- ===== src/Lifecycle.antt =====
-- SM1, the life of an inspection's status, as a specification: what the requests
-- (backend/app/services/inspection_service.py) and the worker
-- (backend/app/workers/analysis_worker.py) may do to it. `none` is an inspection that is not there.
pub mod Rows
pub mod Served
pub mod Refinement
use mathlib.Core.Option
use road_vision_ai.Base.{ℕ, ◌≡◌, ◌⊎◌, Bool, false, List, [], ◌∷◌, Option, none, some, All, ◌==◌}
use road_vision_ai.Enums.{InspectionStatus}
use road_vision_ai.Schema.{Inspection}
use road_vision_ai.Worker.Outcome.{by_id}

pub data Agent : Type 0 where
  requests worker : Agent

-- The arrows of the state machine, with who takes them.
pub data Step : Agent → Option InspectionStatus → Option InspectionStatus → Type 0 where
  created : Step Agent.requests none (some InspectionStatus.en_attente)
  started : Step Agent.requests (some InspectionStatus.en_attente) (some InspectionStatus.en_cours)
  restarted : Step Agent.requests (some InspectionStatus.erreur) (some InspectionStatus.en_cours)
  completed : Step Agent.worker (some InspectionStatus.en_cours) (some InspectionStatus.terminee)
  failed : Step Agent.worker (some InspectionStatus.en_cours) (some InspectionStatus.erreur)

-- Nothing, or one step.
abbrev pub Moves : Agent → Option InspectionStatus → Option InspectionStatus → Type 0
Moves agent o o' = (o' ≡ o) ⊎ Step agent o o'

-- The abstract view of the table of inspections.
abbrev pub status_at : ℕ → List Inspection → Option InspectionStatus
status_at k rows = Option.map (λ (r : Inspection). r.status) (by_id k rows)

-- The primary key: no two rows have one key.
abbrev pub IsKeyed : List Inspection → Type 0
IsKeyed [] = Unit
IsKeyed (r ∷ rows) = All (λ (x : Inspection). (x.id == r.id) ≡ false) rows × IsKeyed rows
