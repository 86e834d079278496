-- ===== src/Storageos/Namespace.antt =====
-- internal/pkg/storageos/namespace.go
use api_manager.Base.{ℕ, String, none, some, List, [], ◌∷◌, eqb, ◌==◌, if◌then◌else◌}
use api_manager.World.Objects.{ObjectKey, Namespace}
use api_manager.World.Errors.{
  Error, api, namespace_not_found, namespace_in_use, nil_dereference, Result, ok, err,
}
use api_manager.World.Calls
use api_manager.World.Env.{Env}
use api_manager.World.Monad.{M, pure, throw, fault, lift, handle, ◌>>=◌}
use api_manager.World.Client

-- The status codes that the code tests.
abbrev pub status_conflict : ℕ
status_conflict = 409

abbrev pub status_locked : ℕ
status_locked = 423

abbrev pub status_not_found : ℕ
status_not_found = 404

unfoldable pub find_namespace : String → List Namespace → Result Namespace
find_namespace name [] = err namespace_not_found
find_namespace name (ns ∷ rest) = if ns.name == name then ok ns else find_namespace name rest

unfoldable pub get_namespace : Env → ObjectKey → M Namespace
get_namespace env key = do
  namespaces ← Client.list_namespaces env
  lift (find_namespace key.name namespaces)

unfoldable pub list_namespaces : Env → M (List Namespace)
list_namespaces env = Client.list_namespaces env

-- What `DeleteNamespace` makes of a failed call. A failure without a response is a nil pointer.
unfoldable pub namespace_delete_failed : Error → M Unit
namespace_delete_failed (api f) = elim f.status [
  | none ↦ fault nil_dereference
  | some code ↦
      if eqb code status_conflict
      then throw namespace_in_use
      else if eqb code status_not_found
      then throw namespace_not_found
      else throw (api f)
]
namespace_delete_failed e = throw e

unfoldable pub delete_namespace : Env → ObjectKey → M Unit
delete_namespace env key = do
  ns ← get_namespace env key
  handle (Client.api_do env (Calls.delete_namespace ns.id ns.version)) pure namespace_delete_failed
