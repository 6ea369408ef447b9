-- ===== src/AuditTrail/Trail.antt =====
-- The audit log over a history of calls and background tasks.
use mathlib.Core.List.{append-nil}
use road_vision_ai.Base.{ℕ, sym, List, [], ◌∷◌, Option}
use road_vision_ai.Float.{Float}
use road_vision_ai.Schema.{AuditLog}
use road_vision_ai.Store.{World, Exec}
use road_vision_ai.Store.Preserves.{Preserves}
use road_vision_ai.Api.{Outside, validate}
use road_vision_ai.Api.Accounts
use road_vision_ai.Api.Inspections
use road_vision_ai.Api.Resources
use road_vision_ai.Api.Models
use road_vision_ai.Api.Calls.{
  Write, Call, Process, Event, handle_write, handle, answer_call, run_task, happen, history,
}
use road_vision_ai.AuditTrail.{Extends, IsLogged, in_session-Extends}
use road_vision_ai.AuditTrail.Services.{serving}
use road_vision_ai.AuditTrail.Tasks.{run_analysis-Extends}

module _ {W D T : Type 0} ⦃f : Float W⦄ (old : List (AuditLog W)) (outside : Outside W D T) where
  abbrev Logs : {A : Type 0} → Exec W D A → Type 0
  Logs m = Preserves (IsLogged {D = D} old) m

  handle_write-IsLogged : (c : Option T) (w : Write W) → Logs (handle_write outside c w)
  unfolding handle_write validate Inspections.create_inspection Inspections.update_inspection
      Inspections.delete_inspection Inspections.upload_image Inspections.request_analysis
      Resources.generate_recommendation Resources.generate_report Resources.ingest_document
      Resources.trigger_snapshot Models.register_model Models.promote_model Accounts.logout
  handle_write-IsLogged c (Write.create_inspection body) = search (serving) depth 60 fits 5000
  handle_write-IsLogged c (Write.update_inspection id body) = search (serving) depth 60 fits 5000
  handle_write-IsLogged c (Write.delete_inspection id) = search (serving) depth 60 fits 5000
  handle_write-IsLogged c (Write.upload_image id file lat lng) = search (serving) depth 60 fits 5000
  handle_write-IsLogged c (Write.request_analysis id) = search (serving) depth 60 fits 5000
  handle_write-IsLogged c (Write.generate_recommendation id) = search (serving) depth 60 fits 5000
  handle_write-IsLogged c (Write.generate_report id title summary) =
      search (serving) depth 60 fits 5000
  handle_write-IsLogged c (Write.ingest_document file title kind source version) =
      search (serving) depth 60 fits 5000
  handle_write-IsLogged c Write.trigger_snapshot = search (serving) depth 60 fits 5000
  handle_write-IsLogged c (Write.register_model weights name version mapping metadata) =
      search (serving) depth 60 fits 5000
  handle_write-IsLogged c (Write.promote_model id) = search (serving) depth 60 fits 5000
  handle_write-IsLogged c (Write.logout ip agent) = search (serving) depth 60 fits 5000

  handle-IsLogged : (c : Call W T) → Logs (handle outside c)
  unfolding handle Accounts.login Accounts.refresh validate
  handle-IsLogged (Call.login email password ip agent) = search (serving) depth 60 fits 5000
  handle-IsLogged (Call.refresh token) = search (serving) depth 60 fits 5000
  handle-IsLogged (Call.guarded c w) = handle_write-IsLogged c w

  answer_call-Extends :
      (c : Call W T) (s : World W D) (tasks : List ℕ)
      → Extends old s.committed.audit_logs
      → Extends old (answer_call outside c s tasks).world.committed.audit_logs
  unfolding answer_call
  answer_call-Extends c s tasks = in_session-Extends old (handle outside c) s (handle-IsLogged c)

  run_task-Extends :
      (s : World W D) (tasks : List ℕ)
      → Extends old s.committed.audit_logs
      → Extends old (run_task outside s tasks).world.committed.audit_logs
  unfolding run_task
  run_task-Extends s [] l = l
  run_task-Extends s (id ∷ tasks) l = run_analysis-Extends old outside.runtime id s l

  happen-Extends :
      (e : Event W T) (p : Process W D)
      → Extends old p.world.committed.audit_logs
      → Extends old (happen outside e p).world.committed.audit_logs
  unfolding happen
  happen-Extends (Event.call c) p = answer_call-Extends c p.world p.tasks
  happen-Extends Event.task p = run_task-Extends p.world p.tasks

  pub history_from-Extends :
      (es : List (Event W T)) (p : Process W D)
      → Extends old p.world.committed.audit_logs
      → Extends old (history outside es p).world.committed.audit_logs
  unfolding history
  history_from-Extends [] p l = l
  history_from-Extends (e ∷ es) p l =
      history_from-Extends es (happen outside e p) (happen-Extends e p l)

module _ {W D T : Type 0} ⦃f : Float W⦄ (outside : Outside W D T) where
  -- Whatever calls and background tasks follow one another, admitted or refused, the committed audit
  -- log begins with the entries that it had: no entry is changed, moved or dropped.
  pub history-Extends :
      (es : List (Event W T)) (p : Process W D)
      → Extends p.world.committed.audit_logs (history outside es p).world.committed.audit_logs
  history-Extends es p =
      history_from-Extends p.world.committed.audit_logs outside es p ([], sym (append-nil _))
