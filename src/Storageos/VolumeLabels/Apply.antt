-- ===== src/Storageos/VolumeLabels/Apply.antt =====
-- Which labels the updates of internal/pkg/storageos/volume_labels.go send, and when they are
-- skipped.
use mathlib.Core.Option.{or_else}
use api_manager.Storageos.VolumeLabels.{is_reserved_label, unchanged, copy_if, apply_labels}
use api_manager.Base.{
  ◌∙◌, sym, some, refl, ◌↔◌, none, true, not, false, if◌then◌else◌, arith, is_empty, ◌∷◌, ◌≡◌, [],
  Option, Bool, String,
}
use api_manager.Go.Maps.{deep_equal, entries, get, StringMap}
use api_manager.Base.Dict.{
  lookup-insert, insert-NodupKeys, lookup-nil, insert, NodupKeys, Dict, lookup,
}
use api_manager.Go.Maps.Equality.{deep_equal_iff}

-- The last value that `for k, v := range src { if p(k) { dst[k] = v } }` leaves.
unfoldable pub copied :
    (p : String → Bool) (k : String) (src : Dict String) → Option String → Option String
copied p k src old = if p k then or_else (lookup k src) old else old

pub lookup-copy_if :
    (p : String → Bool) (k : String) (src dst : Dict String)
    → NodupKeys src
    → lookup k (copy_if p src dst) ≡ copied p k src (lookup k dst)
unfolding copy_if lookup copied or_else
lookup-copy_if p k [] dst u = ground arith
lookup-copy_if p k ((j, v) ∷ src) dst (fresh, u) = ground (
  arith,
  lookup-copy_if p k src (insert j v dst) u,
  lookup-copy_if p k src dst u,
  lookup-insert j k v dst,
)

copy_if-NodupKeys :
    (p : String → Bool) (src dst : Dict String) → NodupKeys dst → NodupKeys (copy_if p src dst)
unfolding copy_if
copy_if-NodupKeys p [] dst u = u
copy_if-NodupKeys p ((j, v) ∷ src) dst u = copy_if-NodupKeys p src _ (go (p j))
  where
    go : (b : Bool) → NodupKeys (if b then insert j v dst else dst)
    go true = insert-NodupKeys j v dst u
    go false = u

abbrev pub IsMap : StringMap → Type 0
IsMap m = NodupKeys (entries m)

-- The labels that an update sends, from maps with no key twice: the reserved labels of the object
-- as they are, and of the others those that are desired, and no more.
pub lookup-apply_labels :
    (desired current : StringMap) (k : String)
    → IsMap desired
    → IsMap current
    → lookup k (apply_labels desired current)
      ≡ (if is_reserved_label k then get current k else get desired k)
unfolding apply_labels copied or_else get
lookup-apply_labels desired current k u w = ground (
  arith,
  lookup-copy_if is_reserved_label k (entries current)
      (copy_if (λ k. not (is_reserved_label k)) (entries desired) []) w,
  lookup-copy_if (λ k. not (is_reserved_label k)) k (entries desired) [] u,
  lookup-nil {V = String} k,
)

pub apply_labels-NodupKeys :
    (desired current : StringMap) → NodupKeys (apply_labels desired current)
unfolding apply_labels
apply_labels-NodupKeys desired current =
    copy_if-NodupKeys is_reserved_label (entries current) _
      (copy_if-NodupKeys (λ k. not (is_reserved_label k)) (entries desired) [] tt)

-- The object has every unreserved label with its desired value, and no other unreserved label.
abbrev pub InSync : (desired current : StringMap) → Type 0
InSync desired current = (k : String) → is_reserved_label k ≡ false → get current k ≡ get desired k

empty_map : (d : Dict String) (k : String) → is_empty d ≡ true → lookup k d ≡ none
unfolding lookup
empty_map [] k e = refl
empty_map (x ∷ d) k e = cc

empty_of_none : (d : Dict String) → ((k : String) → lookup k d ≡ none) → is_empty d ≡ true
unfolding lookup
empty_of_none [] n = refl
empty_of_none ((j, v) ∷ d) n = ground (arith, n j)

deep_equal_nil : (d : Dict String) → deep_equal none (some d) ≡ false
unfolding deep_equal
deep_equal_nil d = refl

module _ (desired : StringMap) (u : IsMap desired) where
  InSync-lookup :
      (current : StringMap) (k : String)
      → IsMap current
      → InSync desired current
      → get current k ≡ lookup k (apply_labels desired current)
  InSync-lookup current k w s = ground (arith, lookup-apply_labels desired current k u w, s k)

  unchanged-InSync :
      (current : StringMap)
      → IsMap current
      → unchanged current (apply_labels desired current) ≡ true
      → InSync desired current
  unfolding unchanged get
  unchanged-InSync none w e k free = ground (
    arith,
    lookup-nil {V = String} k,
    lookup-apply_labels desired none k u w,
    empty_map (apply_labels desired none) k,
    deep_equal_nil (apply_labels desired none),
  )
  unchanged-InSync (some c) w e k free = ground (
    arith,
    lookup-apply_labels desired (some c) k u w,
    empty_map c k,
    empty_map (apply_labels desired (some c)) k,
    λ (t : deep_equal (some c) (some (apply_labels desired (some c))) ≡ true).
        (deep_equal_iff c (apply_labels desired (some c)) w
            (apply_labels-NodupKeys desired (some c))).0
          t k,
  )

  InSync-unchanged :
      (current : StringMap)
      → IsMap current
      → InSync desired current
      → unchanged current (apply_labels desired current) ≡ true
  unfolding unchanged get
  InSync-unchanged none w s = ground (
    arith,
    empty_of_none (apply_labels desired none) (λ k. sym (InSync-lookup none k w s) ∙ lookup-nil k),
  )
  InSync-unchanged (some c) w s = ground (
    arith,
    (deep_equal_iff c (apply_labels desired (some c)) w (apply_labels-NodupKeys desired (some c))).1
        (λ k. InSync-lookup (some c) k w s),
  )

  -- For maps with no key twice, the update is skipped exactly when the object has every unreserved
  -- label with its desired value, and no other unreserved label; whether its map of labels is nil
  -- or empty makes no difference.
  pub unchanged_iff :
      (current : StringMap)
      → IsMap current
      → (unchanged current (apply_labels desired current) ≡ true) ↔ InSync desired current
  unchanged_iff current w = (unchanged-InSync current w, InSync-unchanged current w)
