-- ===== src/Api/Accounts.antt =====
-- backend/app/api/v1/endpoints/auth.py.
use road_vision_ai.Base.{◌&&◌, String, [], ◌∷◌, Option, some, ◌==◌, if◌then◌else◌}
use road_vision_ai.Text.{Text, strip}
use road_vision_ai.Schema.{User}
use road_vision_ai.Store.{Exec, ◌>>=◌, ◌>>◌}
use road_vision_ai.Auth
use road_vision_ai.Auth.{TokenResponse, get_current_user}
use road_vision_ai.Api.{Outside, validate, has_length}

-- `text.split(",")[0]`
unfoldable pub before_comma : Text → Text
before_comma [] = []
before_comma (c ∷ s) = let rest = before_comma s in if c == 44 then [] else c ∷ rest

-- The header `x-forwarded-for` (the empty text if it is missing), and the client's host.
unfoldable pub client_ip : Text → Option Text → Option Text
unfolding before_comma
client_ip forwarded host = elim (strip (before_comma forwarded)) [
  | [] ↦ host
  | c ∷ s ↦ some (c ∷ s)
]

module _ {W D T : Type 0} (outside : Outside W D T) where
  open outside use {settings, crypto, same_email, is_email}

  -- `ip` and `user_agent` are those of the request (`_client_meta`).
  unfoldable pub login :
      String → String → Option String → Option String → Exec W D (TokenResponse T)
  unfolding validate has_length
  login email password ip user_agent = do
    validate (is_email email && has_length 8 128 password)
    Auth.login crypto settings same_email email password ip user_agent

  unfoldable pub refresh : T → Exec W D (TokenResponse T)
  refresh refresh_token = Auth.refresh crypto settings refresh_token

  unfoldable pub logout : Option T → Option String → Option String → Exec W D (Unit {0})
  logout credentials ip user_agent = do
    user ← get_current_user crypto settings credentials
    Auth.logout user ip user_agent

  unfoldable pub me : Option T → Exec W D User
  me credentials = get_current_user crypto settings credentials
