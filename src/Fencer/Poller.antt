-- ===== src/Fencer/Poller.antt =====
-- controllers/fencer/reconciler.go, and the methods of controllers/fencer/fencer.go that the
-- reconciler of operator-toolkit calls. An event of the channel is the node that it carries.
pub mod Observed
pub mod Bounds
use api_manager.World.Calls
use api_manager.Base.{
  ℕ, String, Bool, Option, none, some, List, [], ◌∷◌, ltb, leb, if◌then◌else◌, ◌<>◌,
}
use api_manager.Cache.{Store, key_string}
use api_manager.Fencer.{require_action, fence_node}
use api_manager.Go.Strconv.{pos, negsuc}
use api_manager.Go.Time.{Duration, times}
use api_manager.World.Env.{Env, Reply, done, failed}
use api_manager.World.Errors.{ok, err, message, node_not_cached, node_type_assertion, Result}
use api_manager.World.Monad.{M, pure, throw, handle, ◌>>=◌}
use api_manager.Storageos.Node.{Node, list_nodes}

abbrev pub min_poll_interval : ℕ
min_poll_interval = 5000000000

-- The intervals of the `Reconciler`.
pub record Intervals : Type 0 where
  pub poll_interval : Duration
  pub expiry_interval : Duration
  pub cleanup_interval : Duration

unfoldable pub clamped : Duration → Duration
clamped (pos n) = if ltb n min_poll_interval then pos min_poll_interval else pos n
clamped (negsuc n) = pos min_poll_interval

-- `NewReconciler`
unfoldable pub new_reconciler : (poll_interval expiry_interval : Duration) → Intervals
unfolding clamped
new_reconciler poll_interval expiry_interval = record {
  poll_interval = clamped poll_interval;
  expiry_interval = expiry_interval;
  cleanup_interval = times 5 expiry_interval;
}

module _ (env : Env) where
  -- One tick of `pollNodes`: the nodes that it sends to the event source. A failure asks for a
  -- reset of the API client.
  unfoldable pub poll_nodes : M (List Node)
  poll_nodes = handle (list_nodes env) pure (λ e h. (ok [], Calls.api_reset ∷ h))

-- A value of the type `interface{}`.
pub data Object : Type 0 where
  node : Node → Object
  foreign : Object

module _ {S : Type 0} (store : Store S Node) (convert : Node → Reply String Node) where
  abbrev pub converted : Reply String Node → Result Object
  converted (done n) = ok (node n)
  converted (failed reason) = err (message ("failed to convert cached object to Node: " <> reason))

  unfoldable pub get_object : (now : ℕ) → S → (name : String) → Result Object
  get_object now s name =
      elim (store.get now (key_string (record { namespace = ""; name = name })) s) [
        | none ↦ err node_not_cached
        | some val ↦ converted (convert val)
      ]

module _ (env : Env) where
  -- `RequireAction`, with its type assertion.
  unfoldable pub require_action_of : Object → M Bool
  require_action_of (node n) = require_action env n
  require_action_of foreign = throw node_type_assertion

-- The action manager is the node that it fences.
unfoldable pub build_action_manager : Object → Result Node
build_action_manager (node n) = ok n
build_action_manager foreign = err (message "failed to convert into StorageOS Node")

abbrev pub get_name : (manager : Node) → String
get_name manager = manager.name

abbrev pub get_objects : (manager : Node) → List Object
get_objects manager = node manager ∷ []

module _ (env : Env) where
  unfoldable pub run : (manager : Node) → Object → M Unit
  run manager o = fence_node env manager.name
