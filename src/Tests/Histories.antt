-- ===== src/Tests/Histories.antt =====
-- Examples of calls of the API and of their histories.
use road_vision_ai.Base.{◌≡◌, ◌⊎◌, Exn, true, [], ◌∷◌, none, some, err, List, str_eq}
use road_vision_ai.Float.Fixed.{Fixed, fixed}
use road_vision_ai.Api.{Outside}
use road_vision_ai.Api.Calls.{Write, Call, Process, Event, handle_write, history}
use road_vision_ai.Api.Guards.{IsEntitled, handle_write-IsEntitled, allowed}
use road_vision_ai.AuditTrail.{Extends}
use road_vision_ai.AuditTrail.Trail.{history-Extends}
use road_vision_ai.Tests.{library, world}
use road_vision_ai.Tests.Requests.{settings, runtime}
use road_vision_ai.Tests.Accounts.{Token, crypto, tokens}
use road_vision_ai.Tests.Recommended.{alone}
use road_vision_ai.Tests.Published.{press}
use road_vision_ai.Tests.Corpora.{chroma}

abbrev outside : Outside Fixed Fixed Token
outside = record {
  settings = settings;
  crypto = crypto;
  same_email = str_eq;
  is_email = λ s. true;
  image_size = λ content. none;
  py = library;
  agents = alone;
  press = press;
  retrieval = chroma;
  sql = record { avg = λ xs. none; date_of = λ now. now };
  runtime = runtime;
  loads = λ s. none;
  dumps = λ v now. [];
  read_metadata = λ s. none;
}

-- A road engineer asks for the analysis of an inspection, and for the deletion of another, which is
-- refused; the task runs, and another one finds no work.
abbrev day : List (Event Fixed Token)
day =
    Event.call (Call.guarded (some tokens.0.access_token) (Write.request_analysis 5))
    ∷ Event.call (Call.guarded (some tokens.0.access_token) (Write.delete_inspection 5))
    ∷ Event.task
    ∷ Event.task
    ∷ []

abbrev morning : Process Fixed Fixed
morning = record { world = world; tasks = [] }

history-Extends_example :
    Extends world.committed.audit_logs (history outside day morning).world.committed.audit_logs
history-Extends_example = history-Extends outside day morning

handle_write-IsEntitled_example :
    IsEntitled crypto settings
      (allowed {W = Fixed} (Write.delete_inspection 5))
      (some tokens.0.access_token)
      world
    ⊎ ((e : Exn) × (handle_write outside
            (some tokens.0.access_token)
            (Write.delete_inspection 5)
            world
          ≡ (err e, world)))
handle_write-IsEntitled_example =
    handle_write-IsEntitled outside (some tokens.0.access_token) (Write.delete_inspection 5) world
