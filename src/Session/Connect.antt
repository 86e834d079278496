-- ===== src/Session/Connect.antt =====
-- What a client starts with: where it calls, and its token.
use mathlib.Core.Path.{◌≡◌, subst}
use api_manager.Session.{
  failed, done, ℕ, true, Reply, contains, some, Env, String, Credentials, Session, Url, with_port,
  parsed_url, with_scheme, new_traced_client, connect, default_port,
}
use api_manager.Go.Text.{contains}
use api_manager.World.Trace.{
  Ensures-weaken, Ensures-handle, Ensures-lift, Ensures-bind, Ensures-pure, Ensures, OkHas,
}
use api_manager.Session.Refresh.{
  authenticate-Ensures, logs_in, as_call, read_creds-Ensures, Login, LoginCall, Mounted,
}
use api_manager.Base.{
  some_injective, Bool-cases, zero, inr, inl, ◌<>◌, suc, if◌then◌else◌, false, ◌⊎◌, refl,
}
use api_manager.Session.Token.{IsToken}
use api_manager.Session.Header.{resp_auth_token-NoBlank}
use api_manager.Go.Text.Laws.{contains-append}

colon_first : contains ":5705" ":" ≡ true
unfolding contains
colon_first = refl

pub with_port-HasPort : (host : String) → contains (with_port host) ":" ≡ true
unfolding with_port
with_port-HasPort host = go (Bool-cases (contains host ":"))
  where
    go :
        (contains host ":" ≡ true) ⊎ (contains host ":" ≡ false)
        → contains (if contains host ":" then host else host <> (":" <> default_port)) ":" ≡ true
    go (inl e) = rw e e
    go (inr e) = rw e (contains-append host ":5705" ":" colon_first)

module _ (env : Env) (join : (path file : String) → String) (path : String)
    (parse_url : String → Reply String Url) where
  -- A client that can be used: its host has a port, and its token is one.
  pub record IsConnected (c : Url × Session) : Type 0 where
    pub initialized : c.1.initialized ≡ true
    pub has_port : contains c.0.host ":" ≡ true
    pub token : IsToken c.1.token

  parsed_url-HasPort :
      (r : Reply String Url) → OkHas (λ u. contains u.host ":" ≡ true) (parsed_url r)
  parsed_url-HasPort (done u) = with_port-HasPort u.host
  parsed_url-HasPort (failed reason) = tt

  new_traced_client-Ensures :
      (creds : Credentials) (endpoint : String)
      → Mounted env join path creds
      → Ensures
          (LoginCall env join path)
          IsConnected
          (new_traced_client env parse_url creds endpoint)
  unfolding new_traced_client
  new_traced_client-Ensures creds endpoint k =
      Ensures-bind (Ensures-lift _ (parsed_url-HasPort (parse_url (with_scheme endpoint)))) (λ u p.
        Ensures-bind {R = Login env creds}
          (Ensures-weaken (λ _. as_call env join path (logs_in creds k)) (λ _ l. l)
            (authenticate-Ensures env creds))
          (λ token l. Ensures-pure _ (record {
            initialized = refl;
            has_port = p;
            token = (l.nonempty, resp_auth_token-NoBlank l.header token l.taken);
          })))

  -- A client that `connect` returns is initialized, its host has a port, and its token is not empty
  -- and holds no space. Until then nothing is called but the reading of the two files and
  -- `AuthenticateUser` with what they held.
  pub connect-Ensures :
      (endpoint : String) (attempts : ℕ)
      → Ensures
          (LoginCall env join path)
          (λ o. (c : Url × Session) → o ≡ some c → IsConnected c)
          (connect env parse_url join path endpoint attempts)
  unfolding connect
  connect-Ensures endpoint zero = Ensures-pure _ (λ c e. cc)
  connect-Ensures endpoint (suc attempts) =
      Ensures-handle {R = IsConnected}
        (Ensures-bind (read_creds-Ensures env join path)
          (λ creds k. new_traced_client-Ensures creds endpoint k))
        (λ c k. Ensures-pure _ (λ d e. subst IsConnected (some_injective e) k))
        (λ e. connect-Ensures endpoint attempts)
