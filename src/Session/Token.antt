-- ===== src/Session/Token.antt =====
-- The token of the session, the bodies that its loop keeps open, and its recovery.
use mathlib.Core.Path.{subst}
use api_manager.World.Calls
use api_manager.Session.{
  pure, lift, ◌>>=◌, ask_api, handle, trim_space, ok, failed, done, Env, authenticate, read,
  read_creds_from_mounted_secret, reset_client, reset_session, Session, Event, resp_auth_token,
  on_tick, refresh,
}
use api_manager.Session.Refresh.{
  LoginCall, relogin, reads_password, reads_username, refresh-Ensures, refreshes, stay, logs_in,
  login, SessionCall, rest, renew, next, Moves, Move,
}
use api_manager.World.Env.{History}
use api_manager.Base.{==_false, refl, ◌∷◌, List, String, false, ◌≡◌, ◌≢◌}
use api_manager.World.Trace.{Ensures-weaken, Ensures}
use api_manager.Go.Text.Laws.{has_blank}
use api_manager.World.Calls.{Call}
use api_manager.Session.Header.{resp_auth_token-NoBlank}
use api_manager.World.Errors.{ApiFailure}
use api_manager.World.Ending.{NoError, NoFault, Ending}
use api_manager.Session.Outcomes.{}
use api_manager.World.Monad.{handle, ask_api, ◌>>=◌, lift, pure}

sent_token : {v u : String} → Calls.refresh_jwt v ≡ Calls.refresh_jwt u → v ≡ u
sent_token e = cc

abbrev pub IsToken : String → Type 0
IsToken t = (t ≢ "") × (has_blank t ≡ false)

module _ (env : Env) (join : (path file : String) → String) (path : String) where
  pub Move-IsToken : {t u : String} → Move env join path t u → IsToken t → IsToken u
  Move-IsToken stay k = k
  Move-IsToken {u = u} (renew r) k = (r.nonempty, resp_auth_token-NoBlank r.header u r.taken)
  Move-IsToken {u = u} (login c m l) k = (l.nonempty, resp_auth_token-NoBlank l.header u l.taken)

  pub Moves-IsToken : {t u : String} → Moves env join path t u → IsToken t → IsToken u
  Moves-IsToken rest k = k
  Moves-IsToken (next m ms) k = Moves-IsToken ms (Move-IsToken m k)

  not_refresh : {c : Call} {u : String} → LoginCall env join path c → c ≢ Calls.refresh_jwt u
  not_refresh reads_username e = cc
  not_refresh reads_password e = cc
  not_refresh (logs_in c m) e = cc

  -- The token of a client is a text that is not empty and holds no space. Whatever wakes the loop
  -- of `Refresh`, it stays one, and every token that is sent to be renewed is one.
  pub refresh-IsToken :
      (s : Session) (events : List Event)
      → IsToken s.token
      → Ensures
          (λ c. (u : String) → c ≡ Calls.refresh_jwt u → IsToken u)
          (λ (s', o). IsToken s'.token)
          (refresh env join path s events)
  refresh-IsToken s events k =
      Ensures-weaken sent (λ (s', o) m. Moves-IsToken m k) (refresh-Ensures env join path s events)
    where
      sent :
          (c : Call)
          → SessionCall env join path s.token c
          → (u : String) → c ≡ Calls.refresh_jwt u
          → IsToken u
      sent _ (relogin l) u e = absurd (not_refresh l e)
      sent _ (refreshes {u = v} m) u e = subst IsToken (sent_token e) (Moves-IsToken m k)

  -- If `RefreshJwt` fails, the mounted files can be read, and the login with what they hold is
  -- answered with a token that is not empty, then one tick of the interval replaces the token by
  -- that token.
  pub on_tick_recovers :
      (s : Session) (h : History) (f : ApiFailure) (username password header token : String)
      → env.token_refreshed h ≡ failed f
      → ((h : History) → env.file_at h (join path "username") ≡ done username)
      → ((h : History) → env.file_at h (join path "password") ≡ done password)
      → ((h : History)
          → env.authenticated h (trim_space username) (trim_space password) ≡ done header)
      → resp_auth_token header ≡ ok token
      → token ≢ ""
      → Ending NoFault NoError (λ s'. s'.token ≡ token) (on_tick env join path s h).0
  unfolding on_tick reset_session reset_client read_creds_from_mounted_secret read authenticate
      handle ask_api ◌>>=◌ lift pure
  on_tick_recovers s h f username password header token e0 e1 e2 e3 e4 n =
      let h1 = Calls.refresh_jwt s.token ∷ h in
      let h2 = Calls.read_file (join path "username") ∷ h1 in
      let h3 = Calls.read_file (join path "password") ∷ h2 in
      rw (e0, e1 h1, e2 h2, e3 h3, e4, ==_false token "" n) refl
