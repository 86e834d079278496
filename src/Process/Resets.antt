-- ===== src/Process/Resets.antt =====
-- Requests for a reset of the client, over the channel that the goroutines of main.go share.
use api_manager.Base.{◌≡◌, refl, false, String}
use api_manager.World.Env.{Env, History}
use api_manager.World.Errors.{Result, ok, err, panic}
use api_manager.World.Ending.{Ending, NoFault, NoError}
use api_manager.Session.{Session, reset_session}
use api_manager.Session.Outcomes.{AnswersTokens, reset_session-Ends}
use api_manager.Process.{
  Splitter, Live, Process, Controller, live, exited, serving, sending, looping, set, Refreshes,
  tick, tick_crash, leave, leave_exit, Step, refresh, signal, ask, meet, meet_crash, stop,
  manager_returns, manager_fails, fault, started, Reach, here, later,
}

ended_well :
    {A : Type 0} (r : Result A × History)
    → Ending NoFault NoError (λ _. Unit {0}) r.0
    → (a : A) × (h : History) × (r ≡ (ok a, h))
ended_well (ok a, h) k = (a, h, refl)
ended_well (err e, h) k = absurd k
ended_well (panic f, h) k = absurd k

-- `Refresh` leaves its loop only after the end of the context.
abbrev Serves : Process → Type 0
Serves (live s) = s.cancelled ≡ false → s.refresher ≡ serving
Serves (exited e) = Unit

module _ (split_host_port : Splitter) (env : Env) (join : (path file : String) → String)
    (path : String) where
  Refreshes-Serves :
      (s : Live) (p : Process) → Refreshes env join path s p → Serves (live s) → Serves p
  Refreshes-Serves s p (tick h r e) k = k
  Refreshes-Serves s p (tick_crash h r e) k = tt
  Refreshes-Serves s p (leave c r) k = λ n. cc
  Refreshes-Serves s p (leave_exit r) k = tt

  Step-Serves :
      (s : Live) (p : Process) → Step split_host_port env join path s p → Serves (live s) → Serves p
  Step-Serves s p (refresh r) k = Refreshes-Serves s p r k
  Step-Serves s p signal k = λ n. cc
  Step-Serves s p (ask c h l f) k = k
  Step-Serves s p (meet c h a r e) k = k
  Step-Serves s p (meet_crash c h a r e) k = tt
  Step-Serves s p (stop c l n) k = k
  Step-Serves s p (manager_returns c r) k = tt
  Step-Serves s p manager_fails k = tt
  Step-Serves s p (fault f) k = tt

  Reach-Serves :
      (s : Live) (p : Process)
      → Reach split_host_port env join path s p
      → Serves (live s)
      → Serves p
  Reach-Serves s p here k = k
  Reach-Serves s p (later {a} r t) k = Step-Serves a p t (Reach-Serves s (live a) r k)

  -- The request of a controller is taken, and the controller goes on, with a client that has been
  -- through `resetClient`.
  pub record Served (a : Live) (c : Controller) (h : History) : Type 0 where
    pub client : Session
    pub after : History
    pub handled : reset_session env join path a.session h ≡ (ok client, after)
    pub step :
        Step split_host_port env join path a
          (live (record a { session = client; threads = set a.threads c looping }))

  -- If every header "Authorization" of a response is empty or has a space, then in every state that
  -- is reached before the end of the context, a controller that waits to send a request for a reset
  -- can be served at once, whatever the other controller does and whatever is answered: the
  -- unbuffered channel does not deadlock.
  pub Reach-Served :
      (answers : AnswersTokens env) (s : Session) (a : Live) (c : Controller) (h : History)
      → Reach split_host_port env join path (started s) (live a)
      → a.cancelled ≡ false
      → a.threads c ≡ sending
      → Served a c h
  Reach-Served answers s a c h r n waits =
      let (t, h', e) =
        ended_well (reset_session env join path a.session h)
          ((reset_session-Ends env answers join path a.session).ending h) in
      record {
        client = t;
        after = h';
        handled = e;
        step = meet c h waits (Reach-Serves (started s) (live a) r (λ _. refl) n) e;
      }
