-- ===== src/Process/Tokens.antt =====
-- The token of the client, however the goroutines of main.go interleave.
use mathlib.Core.Path.{subst}
use api_manager.Base.{◌≡◌, String}
use api_manager.World.Env.{Env, History}
use api_manager.World.Errors.{Result, ok}
use api_manager.World.Trace.{OkHas, Ensures}
use api_manager.World.Monad.{M}
use api_manager.Session.{Session}
use api_manager.Session.Refresh.{
  Moves, rest, Moves-snoc, Moved, on_tick-Ensures, reset_session-Ensures, SessionCall,
}
use api_manager.Session.Token.{IsToken, Moves-IsToken}
use api_manager.Process.{
  Splitter, Live, Process, live, exited, Refreshes, tick, tick_crash, leave, leave_exit, Step,
  refresh, signal, ask, meet, meet_crash, stop, manager_returns, manager_fails, fault, started,
  Reach, here, later,
}

value_of :
    {A : Type 0} (Q : A → Type 0) (r : Result A × History) {a : A} {h : History}
    → OkHas Q r.0
    → r ≡ (ok a, h)
    → Q a
value_of Q r k e = subst (λ r. OkHas Q r.0) e k

module _ (env : Env) (join : (path file : String) → String) (path : String) (t : String) where
  -- The token that the client started with, moved by the abstract machine; nothing of a process
  -- that has ended.
  abbrev pub TokenOf : Process → Type 0
  TokenOf (live s) = Moves env join path t s.session.token
  TokenOf (exited e) = Unit

  moved :
      (s s' : Session) (m : M Session) (h : History) {h' : History}
      → Ensures (SessionCall env join path t) (Moved env join path s) m
      → m h ≡ (ok s', h')
      → Moves env join path t s.token
      → Moves env join path t s'.token
  moved s s' m h k e ms =
      Moves-snoc env join path ms (value_of (Moved env join path s) (m h) (k.value h) e)

  Refreshes-TokenOf :
      (s : Live) (p : Process) → Refreshes env join path s p → TokenOf (live s) → TokenOf p
  Refreshes-TokenOf s p (tick h r e) m =
      moved s.session _ _ h (on_tick-Ensures env join path t s.session m) e m
  Refreshes-TokenOf s p (tick_crash h r e) m = tt
  Refreshes-TokenOf s p (leave c r) m = m
  Refreshes-TokenOf s p (leave_exit r) m = tt

  module _ (split_host_port : Splitter) where
    Step-TokenOf :
        (s : Live) (p : Process)
        → Step split_host_port env join path s p
        → TokenOf (live s)
        → TokenOf p
    Step-TokenOf s p (refresh r) m = Refreshes-TokenOf s p r m
    Step-TokenOf s p signal m = m
    Step-TokenOf s p (ask c h l f) m = m
    Step-TokenOf s p (meet c h a r e) m =
        moved s.session _ _ h (reset_session-Ensures env join path t s.session) e m
    Step-TokenOf s p (meet_crash c h a r e) m = tt
    Step-TokenOf s p (stop c l k) m = m
    Step-TokenOf s p (manager_returns c r) m = tt
    Step-TokenOf s p manager_fails m = tt
    Step-TokenOf s p (fault f) m = tt

    Reach-TokenOf :
        (s : Live) (p : Process)
        → Reach split_host_port env join path s p
        → TokenOf (live s)
        → TokenOf p
    Reach-TokenOf s p here m = m
    Reach-TokenOf s p (later {a} r k) m = Step-TokenOf a p k (Reach-TokenOf s (live a) r m)

-- However the goroutines interleave, and whatever is answered: as long as the process lives, the
-- token of the shared client comes from the one that it was connected with by the moves of the
-- abstract machine, and it is a text that is not empty and holds no space.
pub Reach-IsToken :
    (split_host_port : Splitter) (env : Env) (join : (path file : String) → String) (path : String)
    (s : Session) (a : Live)
    → IsToken s.token
    → Reach split_host_port env join path (started s) (live a)
    → Moves env join path s.token a.session.token × IsToken a.session.token
Reach-IsToken split_host_port env join path s a k r =
    let m = Reach-TokenOf env join path s.token split_host_port (started s) (live a) r rest in
    (m, Moves-IsToken env join path m k)
