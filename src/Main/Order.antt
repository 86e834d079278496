-- ===== src/Main/Order.antt =====
-- The order of the start of main.go: the connection to the StorageOS API comes first.
use api_manager.Base.{some, Option, ◌≡◌, ◌⊎◌, String, List, [], ◌∷◌, ◌++◌, Bool, true}
use api_manager.Main.{failed, with_defaults}
use api_manager.Main.Flags.{Flags}
use api_manager.Main.Start.{namespaces_of}
use api_manager.Main.Steps.{after}
use api_manager.Main.Plan.{plan}
use api_manager.Session.{Url, Session}
use api_manager.Session.Connect.{IsConnected}
use api_manager.Session.Refresh.{LoginCall}
use api_manager.World.Calls
use api_manager.World.Env.{Env, History, Reply}
use api_manager.World.Errors.{Result, ok}
use api_manager.World.Setup.{Setup, install_telemetry}
use api_manager.World.Trace.{Extends}

module _ (env : Env) (parse_url : String → Reply String Url) (join : (path file : String) → String)
    (in_cluster : Result String) (f : Flags) where
  abbrev pub telemetry : Calls.Call
  telemetry = Calls.set_up (install_telemetry "api-manager")

  -- The part behind the connection: a beginning of the plan, and all of it at the end of `main`.
  pub record SetsUp (from : Result (Option (Url × Session)) × History) (at : History)
      (o : Result Bool × History) : Type 0 where
    pub client : Url × Session
    pub connected : IsConnected env join f.api_secret_path parse_url client
    pub returned : from ≡ (ok (some client), at)
    pub first : List Setup
    pub rest : List Setup
    pub split : plan f (with_defaults in_cluster (namespaces_of f)) ≡ first ++ rest
    pub calls : o.1 ≡ after first at
    pub finished : o.0 ≡ ok true → rest ≡ []

  -- The set-up of telemetry failed, or no client is there.
  abbrev pub Unconnected : (h : History) (from : Result (Option (Url × Session)) × History) → Type 0
  Unconnected h from =
      ((reason : String) × (env.set_up h (install_telemetry "api-manager") ≡ failed reason))
      ⊎ ((c : Url × Session) → ¬ (from.0 ≡ ok (some c)))

  pub record InOrder (from : Result (Option (Url × Session)) × History) (h : History)
      (o : Result Bool × History) : Type 0 where
    pub at : History
    pub logs_in : Extends (LoginCall env join f.api_secret_path) (telemetry ∷ h) at
    pub then : ((o.1 ≡ at) × ¬ (o.0 ≡ ok true) × Unconnected h from) ⊎ SetsUp from at o
