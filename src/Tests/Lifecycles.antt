-- ===== src/Tests/Lifecycles.antt =====
-- Examples of the steps of SM1.
use road_vision_ai.Base.{ℕ, ◌≡◌, ◌⊎◌, refl, [], ◌∷◌, none}
use road_vision_ai.Float.Fixed.{Fixed, fixed}
use road_vision_ai.Enums.{InspectionStatus}
use road_vision_ai.Schema.{Inspection}
use road_vision_ai.Store.{World, in_session}
use road_vision_ai.InspectionService.Atomic.{Request, serve}
use road_vision_ai.Worker.{run_analysis}
use road_vision_ai.Lifecycle.{Agent, Step, Moves, status_at}
use road_vision_ai.Lifecycle.Refinement.{serve_refines, run_analysis_refines}
use road_vision_ai.Tests.{engineer, waiting, world}
use road_vision_ai.Tests.Requests.{settings, runtime, equipped}

serve_refines_example : Moves Agent.requests (status_at 5 world.committed.inspections) (
    status_at 5
      (in_session
        (serve settings (λ t. none) engineer (Request.analysis 5))
        world).1.committed.inspections)
serve_refines_example =
    serve_refines engineer world 5 settings (λ t. none) (Request.analysis 5) (tt, tt)

abbrev running : Inspection
running = record waiting { status = InspectionStatus.en_cours }

abbrev busy : World Fixed Fixed
busy = record equipped { committed = record equipped.committed { inspections = running ∷ [] } }

run_analysis_refines_example :
    Step Agent.worker
      (status_at 5 busy.committed.inspections)
      (status_at 5 (run_analysis runtime 5 busy).1.committed.inspections)
    × ((◌≡◌ {A = ℕ} 6 5)
        ⊎ (status_at 6 (run_analysis runtime 5 busy).1.committed.inspections
            ≡ status_at 6 busy.committed.inspections))
run_analysis_refines_example = run_analysis_refines runtime 5 busy 6 {r = running} refl refl
