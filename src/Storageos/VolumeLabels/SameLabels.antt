-- ===== src/Storageos/VolumeLabels/SameLabels.antt =====
-- The labels that internal/pkg/storageos/volume_labels.go sends for one map of labels, however its
-- entries are ordered.

use api_manager.Base.{
  ◌≡◌, refl, is_empty, length, eqb, not, String, Bool, true, false, [], ◌∷◌, some, none, arith,
  if◌then◌else◌,
}
use api_manager.Base.Dict.{Dict, insert, NodupKeys, lookup-insert}
use api_manager.Go.Maps.{StringMap, entries, get, covers, deep_equal}
use api_manager.Go.Maps.Equality.{SameMap, deep_equal_iff}
use api_manager.Labels.{is_reserved_label}
use api_manager.Storageos.VolumeLabels.{copy_if, apply_labels, unchanged}
use api_manager.Storageos.VolumeLabels.Apply.{lookup-copy_if, copied}

copy_if-SameMap :
    (p : String → Bool) (src c d : Dict String)
    → SameMap c d
    → SameMap (copy_if p src c) (copy_if p src d)
unfolding copy_if
copy_if-SameMap p [] c d s = s
copy_if-SameMap p ((j, v) ∷ src) c d s = copy_if-SameMap p src _ _ (go (p j))
  where
    go : (b : Bool) → SameMap (if b then insert j v c else c) (if b then insert j v d else d)
    go true k = ground (arith, lookup-insert j k v c, lookup-insert j k v d, s k)
    go false k = s k

pub apply_labels-SameMap :
    (c d : Dict String)
    → NodupKeys c
    → NodupKeys d
    → SameMap c d
    → (current : StringMap)
    → SameMap (apply_labels (some c) current) (apply_labels (some d) current)
unfolding apply_labels copied
apply_labels-SameMap c d u w s current =
    copy_if-SameMap is_reserved_label (entries current) _ _ (λ k. ground (
      arith,
      lookup-copy_if (λ k. not (is_reserved_label k)) k c [] u,
      lookup-copy_if (λ k. not (is_reserved_label k)) k d [] w,
      s k,
    ))

pub get-SameMap : (a b : Dict String) → SameMap a b → (k : String) → get (some a) k ≡ get (some b) k
unfolding get
get-SameMap a b s = s

covers-SameMap : (c a b : Dict String) → SameMap a b → covers c a ≡ covers c b
unfolding covers
covers-SameMap [] a b s = refl
covers-SameMap ((k, v) ∷ c) a b s = ground (arith, s k, covers-SameMap c a b s)

is_empty-length : (a : Dict String) → is_empty a ≡ eqb (length a) 0
is_empty-length [] = refl
is_empty-length (x ∷ a) = ground arith

module _ (a b : Dict String) (u : NodupKeys a) (w : NodupKeys b) (s : SameMap a b) where
  length-SameMap : length a ≡ length b
  unfolding deep_equal
  length-SameMap = ground (arith, (deep_equal_iff a b u w).1 s)

  pub unchanged-SameMap : (current : StringMap) → unchanged current a ≡ unchanged current b
  unfolding unchanged deep_equal
  unchanged-SameMap none = rw (is_empty-length a, is_empty-length b, length-SameMap) refl
  unchanged-SameMap (some c) =
      rw (is_empty-length a, is_empty-length b, length-SameMap, covers-SameMap c a b s) refl
