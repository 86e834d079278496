-- ===== src/Fencer/Poller/Observed.antt =====
-- The poller and the controller of controllers/fencer together: what the controller acts on is what
-- the poller has seen.
use text.Mathlib.TextLemmas.{append_cancel_left}
use api_manager.Base.{◌∙◌, none, ap, some, refl}
use api_manager.Fencer.Poller.{
  converted, node_not_cached, err, ok, Env, pure, ◌>>=◌, handle, list_nodes, done, Reply, Bool,
  List, Node, String, poll_nodes, get_object, Object,
}
use api_manager.Cache.{Store, key_string}
use api_manager.Storageos.Node.{list_nodes, node_to_cr}
use api_manager.Base.{==_false, true, false, ◌≡◌, [], All-map, ◌==◌, map, ℕ, ◌∷◌, ◌<>◌, ◌≢◌, All}
use api_manager.World.Objects.{ApiNode, ObjectKey}
use api_manager.Cache.Observed.{after-Found, after, Apart}
use api_manager.Cache.Remembered.{IsCache}
use api_manager.World.Monad.{handle, ◌>>=◌, pure, ask_api}
use api_manager.World.Env.{History}
use api_manager.World.Ending.{NoError, NoFault, Ending}

abbrev pub node_cr_key : Node → ObjectKey
node_cr_key n = record { namespace = ""; name = n.name }

-- No two nodes have one name.
abbrev pub DistinctNames : List ApiNode → Type 0
DistinctNames [] = Unit
DistinctNames (n ∷ rest) = All (λ m. m.name ≢ n.name) rest × DistinctNames rest

key_apart : (s t : String) → s ≢ t → ("" <> ("/" <> s) == "" <> ("/" <> t)) ≡ false
key_apart s t n =
    ==_false _ _
      (λ e. n (append_cancel_left "/" s t (append_cancel_left "" ("/" <> s) ("/" <> t) e)))

All-map_list :
    {A B : Type 0} (f : A → B) (P : B → Type 0) (l : List A)
    → All (λ a. P (f a)) l
    → All P (map f l)
All-map_list f P [] k = tt
All-map_list f P (a ∷ l) (k, ks) = (k, All-map_list f P l ks)

Apart-names : (l : List ApiNode) → DistinctNames l → Apart node_cr_key (map node_to_cr l)
unfolding node_to_cr
Apart-names [] d = tt
Apart-names (n ∷ l) (fresh, d) = (
  All-map_list node_to_cr _ l (All-map _ _ l (λ m k. key_apart m.name n.name k) fresh),
  Apart-names l d,
)

module _ {S : Type 0} (store : Store S Node) (semantic_equal : Node → Node → Bool) (expiry : ℕ)
    (is_cache : IsCache store expiry) (equal_refl : (n : Node) → semantic_equal n n ≡ true)
    (convert : Node → Reply String Node) (copies : (n : Node) → convert n ≡ done n) where
  get_object_found :
      (now : ℕ) (s : S) (name : String) (x : Node)
      → store.get now (key_string (record { namespace = ""; name = name })) s ≡ some x
      → get_object store convert now s name ≡ ok (Object.node x)
  unfolding get_object
  get_object_found now s name x e =
      ap
        (λ r. elim r [
          | none ↦ err node_not_cached
          | some val ↦ converted store convert (convert val)
        ])
        e
      ∙ ap (converted store convert) (copies x)

  -- Over a cache that behaves as go-cache documents, an equality that holds of a node and itself, and
  -- a conversion that copies: if StorageOS lists its nodes, no two of one name, then the poll sends
  -- them all; and once `CacheMiss` was called for each, all at one instant, the controller gets at
  -- that instant an object for the name of each, and it is equal to the node as it was listed.
  pub polled-get_object :
      (env : Env) (h : History) (nodes : List ApiNode) (now : ℕ) (s : S)
      → env.nodes h ≡ done nodes
      → DistinctNames nodes
      → Ending NoFault NoError
          (λ sent.
            All
              (λ n.
                (x : Node) × (get_object store convert now
                    (after store semantic_equal node_cr_key now sent s)
                    n.name
                  ≡ ok (Object.node x))
                × (semantic_equal x n ≡ true))
              (map node_to_cr nodes)
            × (sent ≡ map node_to_cr nodes))
          (poll_nodes env h).0
  unfolding poll_nodes list_nodes handle ◌>>=◌ ask_api pure get_object
  polled-get_object env h nodes now s e d = rw e (
    All-map _ _ (map node_to_cr nodes)
        (λ n (x, at, same). (x, get_object_found now _ n.name x at, same))
        (after-Found store semantic_equal node_cr_key expiry is_cache equal_refl now
          (map node_to_cr nodes) s (Apart-names nodes d)),
    refl,
  )
