-- ===== src/Process/Shutdown.antt =====
-- What happens after the end of the context of main.go.
use api_manager.Base.{◌≡◌, ◌≢◌, refl, true, String}
use api_manager.World.Env.{Env}
use api_manager.Process.{
  returned, looping, Splitter, Live, Process, Exit, Controller, Thread, Refresher, live, exited,
  status, serving, leaving, sending, shared_volumes, fencer_poller, set, Refreshes, tick,
  tick_crash, leave, leave_exit, Step, refresh, signal, ask, meet, meet_crash, stop,
  manager_returns, manager_fails, fault, Reach, here, later,
}

module _ (env : Env) (join : (path file : String) → String) (path : String) where
  -- By steps of the goroutine of `Refresh` alone the process comes to its end with status 1, and the
  -- other goroutines stand where they stood.
  pub data EndsByRefresh : Live → Type 0 where
    now : {a : Live} → Refreshes env join path a (exited (status 1)) → EndsByRefresh a
    next :
        {a : Live} (b : Live)
        → Refreshes env join path a (live b)
        → b.threads ≡ a.threads
        → EndsByRefresh b
        → EndsByRefresh a

  -- Once the context has ended, the goroutine of `Refresh` can end the process with status 1, in
  -- whatever state the controllers and the manager are, and without waiting for any of them.
  cancelled-EndsByRefresh : (a : Live) → a.cancelled ≡ true → EndsByRefresh a
  cancelled-EndsByRefresh a c = go a.refresher refl
    where
      go : (r : Refresher) → a.refresher ≡ r → EndsByRefresh a
      go serving e = next _ (leave c e) refl (now (leave_exit refl))
      go leaving e = now (leave_exit e)

-- The loop of the shared volume controller waits to send, and nobody receives; or the process has
-- ended otherwise than with status 0.
abbrev Stuck : Process → Type 0
Stuck (live s) = (s.refresher ≡ leaving) × (s.threads shared_volumes ≡ sending)
Stuck (exited e) = e ≢ status 0

set-sending :
    (f : Controller → Thread) (c : Controller) (t : Thread)
    → f shared_volumes ≡ sending
    → (f c ≢ sending)
    → set f c t shared_volumes ≡ sending
set-sending f shared_volumes t e n = absurd (n e)
set-sending f fencer_poller t e n = e

module _ (split_host_port : Splitter) (env : Env) (join : (path file : String) → String)
    (path : String) where
  Refreshes-Stuck :
      (s : Live) (p : Process) → Refreshes env join path s p → Stuck (live s) → Stuck p
  Refreshes-Stuck s p (tick h r e) k = k
  Refreshes-Stuck s p (tick_crash h r e) k = λ n. cc
  Refreshes-Stuck s p (leave c r) k = (refl, k.1)
  Refreshes-Stuck s p (leave_exit r) k = λ n. cc

  Step-Stuck :
      (s : Live) (p : Process) → Step split_host_port env join path s p → Stuck (live s) → Stuck p
  Step-Stuck s p (refresh r) k = Refreshes-Stuck s p r k
  Step-Stuck s p signal k = k
  Step-Stuck s p (ask c h l f) (r, w) = (r, set-sending s.threads c _ w (λ e. cc))
  Step-Stuck s p (meet c h a r e) (q, w) = absurd (cc (q, r))
  Step-Stuck s p (meet_crash c h a r e) k = λ n. cc
  Step-Stuck s p (stop c l n) (r, w) = (r, set-sending s.threads c _ w (λ e. cc))
  Step-Stuck s p (manager_returns c r) (q, w) = absurd (cc (r, w))
  Step-Stuck s p manager_fails k = λ n. cc
  Step-Stuck s p (fault f) k = λ n. cc

  Reach-Stuck :
      (s : Live) (p : Process) → Reach split_host_port env join path s p → Stuck (live s) → Stuck p
  Reach-Stuck s p here k = k
  Reach-Stuck s p (later {a} r t) k = Step-Stuck a p t (Reach-Stuck s (live a) r k)

  -- If `Refresh` has left its loop while the loop of the shared volume controller waits to send a
  -- request for a reset, then the process does not end with status 0, whatever happens.
  pub never_status_zero :
      (s : Live) (e : Exit)
      → s.refresher ≡ leaving
      → s.threads shared_volumes ≡ sending
      → Reach split_host_port env join path s (exited e)
      → e ≢ status 0
  never_status_zero s e q w r = Reach-Stuck s (exited e) r (q, w)

  -- The manager's way to the end, once the loop of the shared volume controller may stop.
  stops_cleanly :
      (a : Live) (t : Thread)
      → a.cancelled ≡ true
      → a.threads shared_volumes ≡ t
      → t ≢ sending
      → Reach split_host_port env join path a (exited (status 0))
  stops_cleanly a looping c e n =
      later (later here (stop shared_volumes e c)) (manager_returns c refl)
  stops_cleanly a sending c e n = absurd (n refl)
  stops_cleanly a returned c e n = later here (manager_returns c e)

  -- After a signal, as long as the loop of the shared volume controller does not wait to send a
  -- request for a reset, the order of the goroutines decides on the status of the process: it can
  -- stop with status 0, and the goroutine of `Refresh` can end it with status 1 without waiting for
  -- any other.
  pub status_races :
      (a : Live)
      → a.cancelled ≡ true
      → a.threads shared_volumes ≢ sending
      → Reach split_host_port env join path a (exited (status 0)) × EndsByRefresh env join path a
  status_races a c n = (
    stops_cleanly a (a.threads shared_volumes) c refl n,
    cancelled-EndsByRefresh env join path a c,
  )
