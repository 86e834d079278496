-- ===== src/Session.antt =====
-- internal/pkg/storageos/client.go and internal/pkg/secret/secret.go: the credentials, the
-- connection and the access token of the StorageOS API client. `filepath.Join` and `url.Parse` are
-- parameters. A context counts as the token that it carries.
pub mod Header
pub mod Refresh
pub mod Connect
pub mod Token
pub mod Outcomes
use api_manager.Base.{
  ℕ, zero, suc, String, Bool, true, Option, none, some, List, [], ◌∷◌, ◌<>◌, ◌==◌, if◌then◌else◌,
  String-discrete, not,
}
use api_manager.Go.Text.{split, trim_space, contains}
use api_manager.World.Calls
use api_manager.World.Env.{Env, Reply, done, failed}
use api_manager.World.Errors.{
  Error, message, no_auth_token, not_initialized, index_out_of_range, Result, ok, err, panic,
}
use api_manager.World.Monad.{M, pure, throw, lift, handle, ask_api, ◌>>=◌}

-- `strings.Split(value, " ")[1]`, which is out of range for a text without a space.
abbrev pub second : List String → Result String
second [] = panic index_out_of_range
second (_ ∷ []) = panic index_out_of_range
second (_ ∷ (part ∷ _)) = ok part

-- Of the header "Authorization" of a response; a missing header is empty.
unfoldable pub resp_auth_token : String → Result String
unfolding split String-discrete
resp_auth_token value = if value == "" then ok "" else second (split value)

pub record Credentials : Type 0 where
  pub username : String
  pub password : String

abbrev pub secret_username_key : String
secret_username_key = "username"

abbrev pub secret_password_key : String
secret_password_key = "password"

abbrev pub secret_text : (path : String) → Reply String String → Result String
secret_text path (done text) = ok (trim_space text)
secret_text path (failed reason) =
    err (message ("unable to read secret: " <> path <> ", error: " <> reason))

abbrev pub default_port : String
default_port = "5705"

abbrev pub default_scheme : String
default_scheme = "http"

-- What the code uses of a parsed URL.
pub record Url : Type 0 where
  pub scheme : String
  pub host : String

unfoldable pub with_scheme : String → String
unfolding contains
with_scheme endpoint =
    if contains endpoint "://" then endpoint else default_scheme <> "://" <> endpoint

unfoldable pub with_port : String → String
unfolding contains
with_port host = if contains host ":" then host else host <> ":" <> default_port

-- The scheme and the host of the configuration.
abbrev pub parsed_url : Reply String Url → Result Url
parsed_url (done u) = ok (record u { host = with_port u.host })
parsed_url (failed reason) = err (message reason)

module _ (env : Env) where
  -- `secret.Read`
  unfoldable pub read : (path : String) → M String
  read path h = (secret_text path (env.file_at h path), Calls.read_file path ∷ h)

  -- `AuthenticateUser`, with the header of its response.
  abbrev authenticate_user : Credentials → M String
  authenticate_user c =
      ask_api (Calls.authenticate_user c.username c.password)
        (λ h. env.authenticated h c.username c.password)

  -- `Authenticate`, and the second half of `resetClient`.
  unfoldable pub authenticate : Credentials → M String
  unfolding resp_auth_token
  authenticate c = do
    header ← authenticate_user c
    token ← lift (resp_auth_token header)
    if token == "" then throw no_auth_token else pure token

module _ (env : Env) (join : (path file : String) → String) where
  unfoldable pub read_creds_from_mounted_secret : (path : String) → M Credentials
  read_creds_from_mounted_secret path = do
    username ← read env (join path secret_username_key)
    password ← read env (join path secret_password_key)
    pure (record { username = username; password = password })

  unfoldable pub reset_client : (secret_path : String) → M String
  reset_client secret_path = do
    creds ← read_creds_from_mounted_secret secret_path
    authenticate env creds

-- The client. `open_bodies` counts the response bodies whose `Close` is deferred to the end of
-- `Refresh`, and `results` the results counted in the metric, the latest first.
pub record Session : Type 0 where
  pub initialized : Bool
  pub traced : Bool
  pub token : String
  pub open_bodies : ℕ
  pub results : List (String × Option Error)

-- What wakes the loop of `Refresh`: the interval, the reset channel, the end of its context.
pub data Event : Type 0 where
  tick reset_requested cancelled : Event

-- Whether the loop waits for its next event or has returned.
pub data Outcome : Type 0 where
  waiting stopped : Outcome

abbrev pub counted : Session → String → Option Error → Session
counted s name e = record s { results = if s.traced then (name, e) ∷ s.results else s.results }

module _ (env : Env) (join : (path file : String) → String) (secret_path : String) where
  unfoldable pub reset_session : Session → M Session
  reset_session s =
      handle (reset_client env join secret_path)
        (λ token. pure (counted (record s { token = token }) "reset_api" none))
        (λ e. pure (counted s "reset_api" (some e)))

  -- The session after a response to `RefreshJwt` with this token.
  unfoldable pub refreshed : Session → (token : String) → Session
  unfolding String-discrete
  refreshed s token =
      if token == ""
      then counted s "refresh_token" (some no_auth_token)
      else counted (record s { token = token }) "refresh_token" none

  unfoldable pub on_tick : Session → M Session
  unfolding reset_session refreshed
  on_tick s =
      handle (ask_api (Calls.refresh_jwt s.token) env.token_refreshed)
        (λ header. lift (resp_auth_token header) >>= λ token.
          pure (refreshed (record s { open_bodies = suc s.open_bodies }) token))
        (λ e. reset_session (counted s "refresh_token" (some e)))

  -- The loop of `Refresh` over the events that wake it. Its return runs the deferred calls.
  unfoldable pub refresh_loop : Session → List Event → M (Session × Outcome)
  unfolding on_tick
  refresh_loop s [] = pure (s, waiting)
  refresh_loop s (tick ∷ events) = on_tick s >>= λ t. refresh_loop t events
  refresh_loop s (reset_requested ∷ events) = reset_session s >>= λ t. refresh_loop t events
  refresh_loop s (cancelled ∷ events) = pure (record s { open_bodies = zero }, stopped)

  unfoldable pub refresh : Session → List Event → M (Session × Outcome)
  unfolding refresh_loop
  refresh s events = if not s.initialized then throw not_initialized else refresh_loop s events

module _ (env : Env) (parse_url : String → Reply String Url) where
  -- `NewTracedClient` and `newAuthenticatedClient`: where the client calls, and its session.
  unfoldable pub new_traced_client : Credentials → (endpoint : String) → M (Url × Session)
  new_traced_client creds endpoint = do
    url ← lift (parsed_url (parse_url (with_scheme endpoint)))
    token ← authenticate env creds
    pure (
      url,
      record { initialized = true; traced = true; token = token; open_bodies = zero; results = [] },
    )

  -- The loop of `main` that waits for a connection, over a number of attempts.
  unfoldable pub connect :
      (join : (path file : String) → String) (secret_path endpoint : String) (attempts : ℕ)
      → M (Option (Url × Session))
  connect join secret_path endpoint zero = pure none
  connect join secret_path endpoint (suc attempts) =
      handle
        (read_creds_from_mounted_secret env join secret_path >>= λ creds.
          new_traced_client creds endpoint)
        (λ client. pure (some client)) (λ e. connect join secret_path endpoint attempts)
