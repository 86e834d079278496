-- ===== src/Session/Refresh.antt =====
-- The loop of `Refresh` against an abstract machine that only keeps, renews and obtains tokens, and
-- what the token can be.
use mathlib.Core.Path.{subst}
use api_manager.World.Calls
use api_manager.Session.{
  failed, secret_text, Reply, no_auth_token, cancelled, counted, reset_requested, tick, trim_space,
  done, ok, List, String, Env, Credentials, Session, Event, resp_auth_token, read, authenticate,
  reset_client, read_creds_from_mounted_secret, reset_session, refreshed, on_tick, refresh_loop,
  refresh,
}
use api_manager.World.Trace.{
  OkHas-self, Ensures-handle, Ensures-weaken, Ensures-pure, Ensures-throw, Ensures-if, Ensures-lift,
  Ensures-ask_api, Extends-cons, Ensures-bind, Ensures, OkHas,
}
use api_manager.World.Env.{History}
use api_manager.Base.{
  sym, Bool-cases, inr, inl, none, some, if◌then◌else◌, false, [], ◌⊎◌, not, true, ==_apart, ◌==◌,
  ◌≢◌, refl, ◌∷◌, ◌≡◌,
}
use api_manager.World.Calls.{Call}

module _ (env : Env) where
  -- At some time the file held the text, up to white space at its ends.
  abbrev Held : (path text : String) → Type 0
  Held path text =
      (h : History) × ((raw : String) × ((env.file_at h path ≡ done raw) × (text ≡ trim_space raw)))

  -- A login with the credentials that was answered with the token.
  pub record Login (c : Credentials) (token : String) : Type 0 where
    pub at : History
    pub header : String
    pub answer : env.authenticated at c.username c.password ≡ done header
    pub taken : resp_auth_token header ≡ ok token
    pub nonempty : token ≢ ""

  -- A renewal that was answered with the token.
  pub record Renewal (token : String) : Type 0 where
    pub at : History
    pub header : String
    pub answer : env.token_refreshed at ≡ done header
    pub taken : resp_auth_token header ≡ ok token
    pub nonempty : token ≢ ""

  read-Ensures :
      (path : String) → Ensures (λ c. c ≡ Calls.read_file path) (Held path) (read env path)
  unfolding read
  read-Ensures path = record {
    calls = λ h. Extends-cons _ h refl;
    value = λ h. go h (env.file_at h path) refl;
  }
    where
      go :
          (h : History) (r : Reply String String)
          → env.file_at h path ≡ r
          → OkHas (Held path) (secret_text path r)
      go h (done raw) e = (h, (raw, (e, refl)))
      go h (failed reason) e = tt

  pub authenticate-Ensures :
      (c : Credentials)
      → Ensures
          (λ d. d ≡ Calls.authenticate_user c.username c.password)
          (Login c)
          (authenticate env c)
  unfolding authenticate
  authenticate-Ensures c =
      Ensures-bind
        {R = λ header. (h : History) × (env.authenticated h c.username c.password ≡ done header)}
        (Ensures-ask_api _ _ refl (λ h a e. (h, e)))
        (λ header (h, e).
          Ensures-bind {R = λ token. resp_auth_token header ≡ ok token}
            (Ensures-lift _ (OkHas-self (resp_auth_token header)))
            (λ token t.
              Ensures-if (token == "") _ _ (λ _. Ensures-throw _)
                (λ n. Ensures-pure _ (record {
                  at = h;
                  header = header;
                  answer = e;
                  taken = t;
                  nonempty = ==_apart token "" n;
                }))))

module _ (env : Env) (join : (path file : String) → String) (path : String) where
  -- Credentials that the mounted files held.
  abbrev pub Mounted : Credentials → Type 0
  Mounted c =
      Held env (join path "username") c.username × Held env (join path "password") c.password

  -- One move of the abstract machine, from token to token.
  pub data Move : String → String → Type 0 where
    stay : {t : String} → Move t t
    renew : {t u : String} → Renewal env u → Move t u
    login : {t u : String} (c : Credentials) → Mounted c → Login env c u → Move t u

  pub data Moves : String → String → Type 0 where
    rest : {t : String} → Moves t t
    next : {t u v : String} → Move t u → Moves u v → Moves t v

  pub Moves-snoc : {t u v : String} → Moves t u → Move u v → Moves t v
  Moves-snoc rest m = next m rest
  Moves-snoc (next k ks) m = next k (Moves-snoc ks m)

  -- The calls of a login with the mounted credentials.
  pub data LoginCall : Call → Type 0 where
    reads_username : LoginCall (Calls.read_file (join path "username"))
    reads_password : LoginCall (Calls.read_file (join path "password"))
    logs_in :
        (c : Credentials) → Mounted c → LoginCall (Calls.authenticate_user c.username c.password)

  -- The calls of a client that started with a token.
  pub data SessionCall (t : String) : Call → Type 0 where
    relogin : {c : Call} → LoginCall c → SessionCall t c
    refreshes : {u : String} → Moves t u → SessionCall t (Calls.refresh_jwt u)

  pub as_call : {c d : Call} → LoginCall c → d ≡ c → LoginCall d
  as_call s e = subst LoginCall (sym e) s

  pub read_creds-Ensures : Ensures LoginCall Mounted (read_creds_from_mounted_secret env join path)
  unfolding read_creds_from_mounted_secret
  read_creds-Ensures =
      Ensures-bind (Ensures-weaken (λ _. as_call reads_username) (λ _ q. q) (read-Ensures env _))
        (λ u hu.
          Ensures-bind
            (Ensures-weaken (λ _. as_call reads_password) (λ _ q. q) (read-Ensures env _))
            (λ p hp. Ensures-pure _ (hu, hp)))

  reset_client-Ensures :
      Ensures LoginCall
        (λ u. (c : Credentials) × Mounted c × Login env c u)
        (reset_client env join path)
  unfolding reset_client
  reset_client-Ensures = Ensures-bind read_creds-Ensures (λ c k.
      Ensures-weaken (λ _. as_call (logs_in c k)) (λ u l. (c, k, l)) (authenticate-Ensures env c))

  -- A session that a move leads to, from the one that has made moves already.
  abbrev pub Moved : (s s' : Session) → Type 0
  Moved s s' = Move s.token s'.token

  pub reset_session-Ensures :
      (t : String) (s : Session) → Ensures (SessionCall t) (Moved s) (reset_session env join path s)
  unfolding reset_session
  reset_session-Ensures t s =
      Ensures-handle {P = SessionCall t}
        (Ensures-weaken (λ _. relogin) (λ _ q. q) reset_client-Ensures)
        (λ u (c, k, l). Ensures-pure _ (login c k l)) (λ e. Ensures-pure _ stay)

  refreshed-Moved :
      (s : Session) (u : String) → (u ≢ "" → Renewal env u) → Moved s (refreshed env join path s u)
  unfolding refreshed
  refreshed-Moved s u r = go (Bool-cases (u == ""))
    where
      go :
          ((u == "") ≡ true) ⊎ ((u == "") ≡ false)
          → Moved s (
              if u == ""
              then counted s "refresh_token" (some no_auth_token)
              else counted (record s { token = u }) "refresh_token" none)
      go (inl e) = rw e stay
      go (inr e) = rw e (renew (r (==_apart u "" e)))

  pub on_tick-Ensures :
      (t : String) (s : Session)
      → Moves t s.token
      → Ensures (SessionCall t) (Moved s) (on_tick env join path s)
  unfolding on_tick
  on_tick-Ensures t s m =
      Ensures-handle {R = λ header. (h : History) × (env.token_refreshed h ≡ done header)}
        (Ensures-ask_api _ _ (refreshes m) (λ h a e. (h, e)))
        (λ header (h, e).
          Ensures-bind {R = λ u. resp_auth_token header ≡ ok u}
            (Ensures-lift _ (OkHas-self (resp_auth_token header)))
            (λ u k. Ensures-pure _ (
              refreshed-Moved _ u
                (λ n. record { at = h; header = header; answer = e; taken = k; nonempty = n }))))
        (λ e. reset_session-Ensures t _)

  loop-Ensures :
      (t : String) (s : Session) (events : List Event)
      → Moves t s.token
      → Ensures (SessionCall t) (λ (s', o). Moves t s'.token) (refresh_loop env join path s events)
  unfolding refresh_loop
  loop-Ensures t s [] m = Ensures-pure _ m
  loop-Ensures t s (tick ∷ events) m =
      Ensures-bind (on_tick-Ensures t s m) (λ s' k. loop-Ensures t s' events (Moves-snoc m k))
  loop-Ensures t s (reset_requested ∷ events) m =
      Ensures-bind (reset_session-Ensures t s) (λ s' k. loop-Ensures t s' events (Moves-snoc m k))
  loop-Ensures t s (cancelled ∷ events) m = Ensures-pure _ m

  -- Whatever wakes the loop of `Refresh`, its token moves as the abstract machine allows: it is
  -- kept, or renewed with a token from the response of `RefreshJwt`, or obtained by a login with
  -- credentials that the mounted files held. It calls nothing but `RefreshJwt` with a token
  -- reached so, the reading of the two files, and `AuthenticateUser` with what they held.
  pub refresh-Ensures :
      (s : Session) (events : List Event)
      → Ensures
          (SessionCall s.token)
          (λ (s', o). Moves s.token s'.token)
          (refresh env join path s events)
  unfolding refresh
  refresh-Ensures s events =
      Ensures-if (not s.initialized) _ _ (λ _. Ensures-throw _)
        (λ _. loop-Ensures s.token s events rest)
