-- ===== src/Storageos/Node/Lookup.antt =====
-- What the lookup and the deletion of internal/pkg/storageos/node.go call and return.
use mathlib.Core.Logic.{if_pos, if_neg}
use api_manager.World.Calls
use api_manager.Storageos.Node.{
  node_not_found, node_has_lock, node_in_use, api, nil_dereference, fault, throw, pure, lift, err,
  handle, Error, ok, ◌>>=◌, node_delete_failed, delete_node, Result, get_node_by_key, ObjectKey,
  ApiNode, find_node,
}
use api_manager.Base.{some, arith, none, ◌↔◌, refl, [], In, String-discrete, ◌≡◌, ◌∷◌, List, String}
use api_manager.World.Env.{failed, done, History, Env}
use api_manager.World.Calls.{IsRead, Call}
use api_manager.World.Trace.{
  Extends-refl, Ensures-lift, Ensures-pure, Ensures-ask_api, Ensures-handle, any_result,
  Ensures-weaken, Extends, Ensures-bind, OkHas, Ensures,
}
use api_manager.World.Monad.{◌>>=◌, handle, lift, pure, throw, fault, ask_api}
use api_manager.World.Errors.{ApiFailure, panic}

Picked : String → List ApiNode → Result ApiNode → Type 0
Picked name l r = OkHas (λ v. (v.name ≡ name) × In v l) r

Picked-cons :
    (name : String) (v : ApiNode) (l : List ApiNode) (r : Result ApiNode)
    → Picked name l r
    → Picked name (v ∷ l) r
unfolding Picked
Picked-cons name v l (ok w) p = (p.0, In.there p.1)
Picked-cons name v l (err e) p = tt
Picked-cons name v l (panic f) p = tt

find_node-Picked : (name : String) (l : List ApiNode) → Picked name l (find_node name l)
unfolding find_node Picked
find_node-Picked name [] = tt
find_node-Picked name (v ∷ rest) = elim (String-discrete v.name name) [
  | yes p ↦ rw (if_pos _ p) (p, In.here refl)
  | no p ↦ rw (if_neg _ p) (Picked-cons name v rest _ (find_node-Picked name rest))
]

module _ (env : Env) (key : ObjectKey) where
  -- The node has the key's name, and the StorageOS API listed it.
  pub record NodeIsListed (node : ApiNode) : Type 0 where
    pub named : node.name ≡ key.name
    pub at : History
    pub nodes : List ApiNode
    pub listed : env.nodes at ≡ done nodes
    pub among : In node nodes

  pub get_node_by_key-NodeIsListed : Ensures IsRead NodeIsListed (get_node_by_key env key)
  unfolding get_node_by_key Picked
  get_node_by_key-NodeIsListed =
      Ensures-bind {R = λ l. (h : History) × (env.nodes h ≡ done l)}
        (Ensures-ask_api _ _ refl (λ h a e. (h, e)))
        (λ l found.
          Ensures-lift _ (go l found (find_node key.name l) (find_node-Picked key.name l)))
    where
      go :
          (l : List ApiNode)
          → (h : History) × (env.nodes h ≡ done l)
          → (r : Result ApiNode) → Picked key.name l r
          → OkHas NodeIsListed r
      go l found (ok v) p = record {
        named = p.0;
        at = found.0;
        nodes = l;
        listed = found.1;
        among = p.1;
      }
      go l found (err e) p = tt
      go l found (panic f) p = tt

  -- The calls of the deletion of a node.
  abbrev pub DeleteNodeCall : Call → Type 0
  DeleteNodeCall (Calls.delete_node id version) =
      (node : ApiNode) × NodeIsListed node × (id ≡ node.id) × (version ≡ node.version)
  DeleteNodeCall c = IsRead c

  read-DeleteNodeCall : (c : Call) → IsRead c → DeleteNodeCall c
  read-DeleteNodeCall (Calls.delete_node id version) r = absurd (cc)
  read-DeleteNodeCall _ r = r

  node_delete_failed-Ensures :
      (e : Error) → Ensures DeleteNodeCall (λ _. Unit {0}) (node_delete_failed e)
  unfolding node_delete_failed throw fault
  node_delete_failed-Ensures e = record { calls = λ h. calls e h; value = λ h. any_result _ }
    where
      same_history : (f : ApiFailure) (h : History) → (node_delete_failed (api f) h).1 ≡ h
      same_history f h = ground arith

      calls : (e : Error) (h : History) → Extends DeleteNodeCall h (node_delete_failed e h).1
      calls (api f) h = rw (same_history f h) (Extends-refl h)
      calls _ h = Extends-refl h

  -- Deleting a node deletes at most a node that the API listed under the key's name, at the version
  -- that was listed.
  pub delete_node-Ensures : Ensures DeleteNodeCall (λ _. Unit {0}) (delete_node env key)
  unfolding delete_node
  delete_node-Ensures =
      Ensures-bind (Ensures-weaken read-DeleteNodeCall (λ n l. l) get_node_by_key-NodeIsListed)
        (λ node l.
          Ensures-handle {R = λ _. Unit {0}}
            (Ensures-ask_api _ _ (node, l, refl, refl) (λ h a e. tt)) (λ a _. Ensures-pure _ tt)
            (λ e. node_delete_failed-Ensures e))

  -- How the deletion of a listed node ends when the call fails: with a nil pointer exactly if there
  -- was no response, and with the errors for a node in use, a locked node and a missing node
  -- exactly if the response has the status 409, 423 and 404.
  pub delete_node_failures :
      (h : History) (nodes : List ApiNode) (node : ApiNode) (f : ApiFailure)
      → env.nodes h ≡ done nodes
      → find_node key.name nodes ≡ ok node
      → env.api_write (Calls.list_nodes ∷ h) (Calls.delete_node node.id node.version) ≡ failed f
      → (((delete_node env key h).0 ≡ panic nil_dereference) ↔ (f.status ≡ none))
        × (((delete_node env key h).0 ≡ err node_in_use) ↔ (f.status ≡ some 409))
        × (((delete_node env key h).0 ≡ err node_has_lock) ↔ (f.status ≡ some 423))
        × (((delete_node env key h).0 ≡ err node_not_found) ↔ (f.status ≡ some 404))
  unfolding delete_node node_delete_failed get_node_by_key ◌>>=◌ handle ask_api lift pure throw
      fault
  delete_node_failures h nodes node f listed found fails = rw (listed, found, fails) (ground arith)
