-- ===== src/Session/Outcomes.antt =====
-- When the loop of `Refresh` returns.
use api_manager.Session.{
  cancelled, reset_requested, tick, failed, secret_text, stopped, done, Reply, waiting, String, Env,
  List, Error, Session, Event, Outcome, resp_auth_token, read, authenticate, reset_client,
  read_creds_from_mounted_secret, reset_session, on_tick, refresh_loop, refresh,
}
use api_manager.World.Ending.{
  NoError, NoFault, Ends-throw, Ends-if, Ends-lift, Ends-ask_api, Ending, Ends-pure, Ends-bind,
  Ends-handle, Ends,
}
use api_manager.World.Env.{History}
use api_manager.Base.{arith, not, ◌==◌, refl, [], ◌∷◌, ◌⊎◌, true, ◌≡◌}
use api_manager.Go.Text.Laws.{has_blank}
use api_manager.Session.Header.{resp_auth_token-total}

abbrev AnyError : Error → Type 0
AnyError e = Unit

-- The loop is stopped exactly when one of the events is the end of its context.
abbrev pub outcome_of : List Event → Outcome
outcome_of [] = waiting
outcome_of (tick ∷ events) = outcome_of events
outcome_of (reset_requested ∷ events) = outcome_of events
outcome_of (cancelled ∷ events) = stopped

-- Every header "Authorization" of a response is empty or has a space.
pub record AnswersTokens (env : Env) : Type 0 where
  pub on_refresh :
      (h : History) (header : String)
      → env.token_refreshed h ≡ done header
      → (header ≡ "") ⊎ (has_blank header ≡ true)
  pub on_login :
      (h : History) (username password header : String)
      → env.authenticated h username password ≡ done header
      → (header ≡ "") ⊎ (has_blank header ≡ true)

resp_auth_token-Ending :
    (X : Error → Type 0) (header : String)
    → (header ≡ "") ⊎ (has_blank header ≡ true)
    → Ending NoFault X (λ _. Unit {0}) (resp_auth_token header)
resp_auth_token-Ending X header fine = let (t, at) = resp_auth_token-total header fine in rw at tt

module _ (env : Env) (answers : AnswersTokens env) (join : (path file : String) → String)
    (path : String) where
  read-Ends : (file : String) → Ends NoFault AnyError (λ _. Unit {0}) (read env file)
  unfolding read
  read-Ends file = record { ending = λ h. go h (env.file_at h file) }
    where
      go :
          (h : History) (r : Reply String String)
          → Ending NoFault AnyError (λ _. Unit {0}) (secret_text file r)
      go h (done raw) = tt
      go h (failed reason) = tt

  reset_client-Ends : Ends NoFault AnyError (λ _. Unit {0}) (reset_client env join path)
  unfolding reset_client read_creds_from_mounted_secret authenticate
  reset_client-Ends =
      Ends-bind {R = λ _. Unit {0}}
        (Ends-bind (read-Ends _) (λ u _. Ends-bind (read-Ends _) (λ p _. Ends-pure _ tt)))
        (λ c _.
          Ends-bind {R = λ header. (header ≡ "") ⊎ (has_blank header ≡ true)}
            (Ends-ask_api _ _ (λ _. tt) (λ h a e. answers.on_login h c.username c.password a e))
            (λ header fine.
              Ends-bind (Ends-lift _ (resp_auth_token-Ending _ header fine)) (λ token _.
                Ends-if (token == "") _ _ (λ _. Ends-throw _ tt) (λ _. Ends-pure _ tt))))

  pub reset_session-Ends :
      (s : Session) → Ends NoFault NoError (λ _. Unit {0}) (reset_session env join path s)
  unfolding reset_session
  reset_session-Ends s =
      Ends-handle reset_client-Ends (λ t _. Ends-pure _ tt) (λ e _. Ends-pure _ tt)

  on_tick-Ends : (s : Session) → Ends NoFault NoError (λ _. Unit {0}) (on_tick env join path s)
  unfolding on_tick
  on_tick-Ends s =
      Ends-handle {X = AnyError} {R = λ header. (header ≡ "") ⊎ (has_blank header ≡ true)}
        (Ends-ask_api _ _ (λ _. tt) answers.on_refresh)
        (λ header fine.
          Ends-bind (Ends-lift _ (resp_auth_token-Ending _ header fine)) (λ t _. Ends-pure _ tt))
        (λ e _. reset_session-Ends _)

  loop-Ends :
      (s : Session) (events : List Event)
      → Ends NoFault NoError
          (λ (s', o). o ≡ outcome_of events)
          (refresh_loop env join path s events)
  unfolding refresh_loop
  loop-Ends s [] = Ends-pure _ refl
  loop-Ends s (tick ∷ events) = Ends-bind (on_tick-Ends s) (λ s' _. loop-Ends s' events)
  loop-Ends s (reset_requested ∷ events) =
      Ends-bind (reset_session-Ends s) (λ s' _. loop-Ends s' events)
  loop-Ends s (cancelled ∷ events) = Ends-pure _ refl

  -- If every header "Authorization" of a response is empty or has a space, then `Refresh` of an
  -- initialized client handles any events without an error and without a fault, whether or not its
  -- calls fail, and it has returned exactly when one of them is the end of its context.
  pub refresh-Ends :
      (s : Session)
      → s.initialized ≡ true
      → (events : List Event)
      → Ends NoFault NoError (λ (s', o). o ≡ outcome_of events) (refresh env join path s events)
  unfolding refresh
  refresh-Ends s e events =
      Ends-if (not s.initialized) _ _ (λ n. absurd (ground arith)) (λ _. loop-Ends s events)
