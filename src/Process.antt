-- ===== src/Process.antt =====
-- The goroutines that main.go starts around one client of the StorageOS API: the loop of `Refresh`,
-- the loop of the shared volume controller, the node poller of the fencer, and the manager. They
-- share the token of the client, the unbuffered channel `apiReset` and the context, and take their
-- steps in any order. What one step calls may be answered as after any history.
pub mod Tokens
pub mod Resets
pub mod Shutdown
use api_manager.Base.{ℕ, zero, String, Bool, true, false, List, ◌≡◌}
use api_manager.Session.{Session, reset_session, on_tick}
use api_manager.Storageos.Node.{list_nodes}
use api_manager.Storageos.SharedVolume.Listing.{list_shared_volumes}
use api_manager.World.Env.{Env, History}
use api_manager.World.Errors.{Error, Fault, Result, ok, err, panic}
use api_manager.Storageos.SharedVolume.{Splitter}

-- The goroutines that ask for a reset: the loop of `Start` in
-- internal/controllers/sharedvolume/controller.go, and `pollNodes` in
-- controllers/fencer/reconciler.go.
pub data Controller : Type 0 where
  shared_volumes fencer_poller : Controller

-- Where such a goroutine stands: between two requests, in `apiReset <- struct{}{}`, at its return.
pub data Thread : Type 0 where
  looping sending returned : Thread

-- The goroutine of `Refresh`: in its loop, or back in `main`, before `os.Exit(1)`.
pub data Refresher : Type 0 where
  serving leaving : Refresher

pub record Live : Type 0 where
  pub session : Session
  pub refresher : Refresher
  pub threads : Controller → Thread
  pub cancelled : Bool

-- How the process ends: with a status, or by a fault of the runtime.
pub data Exit : Type 0 where
  status : ℕ → Exit
  crash : Fault → Exit

pub data Process : Type 0 where
  live : Live → Process
  exited : Exit → Process

abbrev pub set : (Controller → Thread) → Controller → Thread → Controller → Thread
set f shared_volumes t shared_volumes = t
set f shared_volumes t fencer_poller = f fencer_poller
set f fencer_poller t shared_volumes = f shared_volumes
set f fencer_poller t fencer_poller = t

-- `main`, once the goroutines run.
abbrev pub started : Session → Live
started s = record { session = s; refresher = serving; threads = λ _. looping; cancelled = false }

module _ (env : Env) (join : (path file : String) → String) (path : String) where
  -- The steps that the goroutine of `Refresh` takes on its own.
  pub data Refreshes (s : Live) : Process → Type 0 where
    tick :
        {t : Session} (h : History) {h' : History}
        → s.refresher ≡ serving
        → on_tick env join path s.session h ≡ (ok t, h')
        → Refreshes s (live (record s { session = t }))
    tick_crash :
        {f : Fault} (h : History) {h' : History}
        → s.refresher ≡ serving
        → on_tick env join path s.session h ≡ (panic f, h')
        → Refreshes s (exited (crash f))
    -- `case <-ctx.Done()`, which runs the deferred calls, and then `os.Exit(1)`
    leave :
        s.cancelled ≡ true
        → s.refresher ≡ serving
        → Refreshes s (
            live
              (record s { session = record s.session { open_bodies = zero }; refresher = leaving }))
    leave_exit : s.refresher ≡ leaving → Refreshes s (exited (status 1))

module _ (split_host_port : Splitter) (env : Env) (join : (path file : String) → String)
    (path : String) where
  -- The request that the goroutine polls with has failed.
  abbrev pub ListingFails : Controller → History → Type 0
  ListingFails shared_volumes h =
      (e : Error) × ((list_shared_volumes split_host_port env h).0 ≡ err e)
  ListingFails fencer_poller h = (e : Error) × ((list_nodes env h).0 ≡ err e)

  pub data Step (s : Live) : Process → Type 0 where
    refresh : {p : Process} → Refreshes env join path s p → Step s p
    -- SIGTERM or SIGINT
    signal : Step s (live (record s { cancelled = true }))
    ask :
        (c : Controller) (h : History)
        → s.threads c ≡ looping
        → ListingFails c h
        → Step s (live (record s { threads = set s.threads c sending }))
    -- both sides of the channel are ready: `Refresh` takes the request and handles it
    meet :
        (c : Controller) {t : Session} (h : History) {h' : History}
        → s.threads c ≡ sending
        → s.refresher ≡ serving
        → reset_session env join path s.session h ≡ (ok t, h')
        → Step s (live (record s { session = t; threads = set s.threads c looping }))
    meet_crash :
        (c : Controller) {f : Fault} (h : History) {h' : History}
        → s.threads c ≡ sending
        → s.refresher ≡ serving
        → reset_session env join path s.session h ≡ (panic f, h')
        → Step s (exited (crash f))
    stop :
        (c : Controller)
        → s.threads c ≡ looping
        → s.cancelled ≡ true
        → Step s (live (record s { threads = set s.threads c returned }))
    -- `mgr.Start` returns when its runnables have returned, or with an error
    manager_returns :
        s.cancelled ≡ true → s.threads shared_volumes ≡ returned → Step s (exited (status 0))
    manager_fails : Step s (exited (status 1))
    -- any other goroutine
    fault : (f : Fault) → Step s (exited (crash f))

  pub data Reach (s : Live) : Process → Type 0 where
    here : Reach s (live s)
    later : {a : Live} {p : Process} → Reach s (live a) → Step a p → Reach s p
