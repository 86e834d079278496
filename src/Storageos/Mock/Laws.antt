-- ===== src/Storageos/Mock/Laws.antt =====
-- The maps of internal/pkg/storageos/mock_client.go, and what its methods leave.
use mathlib.Core.Path.{subst}
use api_manager.Base.{
  ap, sym, ◌∙◌, Bool, ◌≡◌, refl, true, false, none, some, [], ◌∷◌, if◌then◌else◌, Option, String,
}
use api_manager.Base.Dict.{Dict}
use api_manager.Storageos.Index.{same_key}
use api_manager.Storageos.Index.Laws.{same_key_refl, same_key_sound, same_key_apart}
use api_manager.Storageos.Mock.{
  MockObject, MockClient, Keyed, find, remove, put, exists, kept_labels, accepted_of_volume,
}
use api_manager.Storageos.Mock.Objects.{
  mock_delete_node, node_exists, mock_get_volume, mock_ensure_volume_labels,
}
use api_manager.World.Errors.{ok, err, node_not_found}
use api_manager.World.Objects.{ObjectKey}

-- How three comparisons of keys fit together.
chosen :
    {B : Type 0} (p q r : Bool) (x y z : B)
    → (p ≡ true → q ≡ r)
    → (p ≡ false → q ≡ true → r ≡ false)
    → (if p then (if r then z else y) else (if q then x else (if r then z else y)))
      ≡ (if r then z else (if q then x else y))
chosen true true true x y z f g = refl
chosen true true false x y z f g = absurd (cc (f refl))
chosen true false true x y z f g = absurd (cc (f refl))
chosen true false false x y z f g = refl
chosen false true true x y z f g = absurd (cc (g refl refl))
chosen false true false x y z f g = refl
chosen false false r x y z f g = refl

same_left : (i k j : ObjectKey) → same_key i k ≡ true → same_key i j ≡ same_key k j
same_left i k j e = ap (λ i. same_key i j) (same_key_sound i k e)

same_apart : (i k j : ObjectKey) → same_key i k ≡ false → same_key i j ≡ true → same_key k j ≡ false
same_apart i k j n e = same_key_apart k j (λ p. cc (n, subst (λ l. same_key i l ≡ true) (sym p) e))

module _ {A : Type 0} where
  if_find :
      (b : Bool) (i j : ObjectKey) (a : A) (m : Keyed A)
      → find j (if b then m else (i, a) ∷ m)
        ≡ (if b then find j m else (if same_key i j then some a else find j m))
  unfolding find
  if_find true i j a m = refl
  if_find false i j a m = refl

  pub find-remove :
      (k j : ObjectKey) (m : Keyed A)
      → find j (remove k m) ≡ (if same_key k j then none else find j m)
  unfolding find remove
  find-remove k j [] = go (same_key k j)
    where
      go : (b : Bool) → ◌≡◌ {A = Option A} none (if b then none else none)
      go true = refl
      go false = refl
  find-remove k j ((i, a) ∷ m) =
      if_find (same_key i k) i j a (remove k m)
      ∙ ap (λ r. if same_key i k then r else (if same_key i j then some a else r))
          (find-remove k j m)
      ∙ chosen (same_key i k) (same_key i j) (same_key k j) _ _ _ (same_left i k j)
          (same_apart i k j)

  pub find-put :
      (k j : ObjectKey) (a : A) (m : Keyed A)
      → find j (put k a m) ≡ (if same_key k j then some a else find j m)
  unfolding find
  find-put k j a m = rw (find-remove k j m) (go (same_key k j))
    where
      go :
          (b : Bool)
          → (if b then some a else (if b then none else find j m))
            ≡ (if b then some a else find j m)
      go true = refl
      go false = refl

-- Deleting a node of the client in memory, with no error configured: it fails for a node that is not
-- there, and otherwise removes it and no other node.
pub mock_delete_node_lem :
    (key j : ObjectKey) (c : MockClient)
    → c.errors.delete_node ≡ none
    → ((mock_delete_node key c).0 ≡ (if node_exists key c then ok tt else err node_not_found))
      × (node_exists j (mock_delete_node key c).1
          ≡ (if same_key key j then false else node_exists j c))
unfolding mock_delete_node node_exists
mock_delete_node_lem key j c e = go (find key c.nodes) refl
  where
    gone :
        (b : Bool)
        → exists (if b then none else find j c.nodes)
          ≡ (if b then false else exists (find j c.nodes))
    gone true = refl
    gone false = refl

    missing :
        find key c.nodes ≡ none
        → (b : Bool) → same_key key j ≡ b
        → exists (find j c.nodes) ≡ (if b then false else exists (find j c.nodes))
    missing n true same = ap exists (ap (λ k. find k c.nodes) (sym (same_key_sound key j same)) ∙ n)
    missing n false differ = refl

    go :
        (o : Option MockObject)
        → find key c.nodes ≡ o
        → ((mock_delete_node key c).0 ≡ (if node_exists key c then ok tt else err node_not_found))
          × (node_exists j (mock_delete_node key c).1
              ≡ (if same_key key j then false else node_exists j c))
    go none n = rw (e, n) (refl, missing n (same_key key j) refl)
    go (some o) k = rw (e, k) (refl, rw (find-remove key j c.nodes) (gone (same_key key j)))

-- The labels of a volume of the client in memory are set only together with its health, which is
-- then bad, as it was not given.
pub labelled_unhealthy :
    (key : ObjectKey) (labels : Dict String) (c : MockClient) (o : MockObject)
    → c.errors.ensure_volume_labels ≡ none
    → c.errors.get_volume ≡ none
    → find key c.volumes ≡ some o
    → (mock_get_volume key (mock_ensure_volume_labels key labels c).1).0
      ≡ ok (record o {
        labels = some (kept_labels accepted_of_volume ([], []) labels).0;
        healthy = false;
      })
unfolding mock_get_volume mock_ensure_volume_labels
labelled_unhealthy key labels c o e f known =
    rw
      (
        e,
        known,
        f,
        find-put key key
            (record o {
              labels = some (kept_labels accepted_of_volume ([], []) labels).0;
              healthy = false;
            })
            c.volumes,
        same_key_refl key,
      )
      refl
