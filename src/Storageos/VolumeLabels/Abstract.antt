-- ===== src/Storageos/VolumeLabels/Abstract.antt =====
-- The labels of internal/pkg/storageos/volume_labels.go as Go's maps are: a quotient, which forgets
-- the order of the entries, and whether a map without entries is nil.
use api_manager.Base.{
  String-discrete, ◌≡◌, refl, sym, ap, ◌∙◌, String, Bool, true, false, ◌↔◌, Option, some,
  if◌then◌else◌, arith,
}
use api_manager.Go.Maps.{StringMap, get}
use api_manager.Labels.{is_reserved_label}
use api_manager.Storageos.VolumeLabels.{apply_labels, unchanged}
use api_manager.Storageos.VolumeLabels.Apply.{
  IsMap, InSync, unchanged_iff, lookup-apply_labels, apply_labels-NodupKeys,
}
use mathlib.Core.Quot
use mathlib.Core.Quot.{Quot, Quot-set}
use mathlib.Core.Bool.{Bool-set}
use mathlib.Core.HLevel.{hedberg}

abbrev pub Map : Type 0
Map = (m : StringMap) × IsMap m

abbrev pub Same : Map → Map → Type 0
Same a b = (k : String) → get a.0 k ≡ get b.0 k

abbrev pub LabelMap : Type 0
LabelMap = Quot Same

text_set : IsSet (Option String)
text_set = hlevel (hedberg String-discrete)

-- `m[k]`, of the abstract map.
value : String → LabelMap → Option String
value k = Quot.lift text_set (λ m. get m.0 k) (λ a b s. s k)

abbrev applied : Map → Map → Map
applied desired current =
    (some (apply_labels desired.0 current.0), apply_labels-NodupKeys desired.0 current.0)

get-applied :
    (desired current : Map) (k : String)
    → get (applied desired current).0 k
      ≡ (if is_reserved_label k then get current.0 k else get desired.0 k)
unfolding get
get-applied desired current k = lookup-apply_labels desired.0 current.0 k desired.1 current.1

applied-Same : (d d' c c' : Map) → Same d d' → Same c c' → Same (applied d c) (applied d' c')
applied-Same d d' c c' s t k = ground (arith, get-applied d c k, get-applied d' c' k, s k, t k)

apply_to : Map → LabelMap → LabelMap
apply_to d =
    Quot.lift Quot-set (λ c. Quot.mk (applied d c))
      (λ c c' t. Quot.sound (applied-Same d d c c' (λ k. refl) t))

apply_to-Same : (d d' : Map) → Same d d' → (c : LabelMap) → apply_to d c ≡ apply_to d' c
unfolding apply_to
apply_to-Same d d' s =
    Quot.ind (λ c. Quot-set _ _) (λ c. Quot.sound (applied-Same d d' c c s (λ k. refl)))

-- The labels that an update sends: `apply_labels`, of abstract maps.
pub apply : (desired current : LabelMap) → LabelMap
unfolding apply_to
apply desired current =
    Quot.lift Quot-set (λ d. apply_to d current) (λ d d' s. apply_to-Same d d' s current) desired

abbrev skipped : Map → Map → Bool
skipped desired current = unchanged current.0 (apply_labels desired.0 current.0)

skipped_iff : (d c : Map) → (skipped d c ≡ true) ↔ InSync d.0 c.0
skipped_iff d c = unchanged_iff d.0 d.1 c.0 c.1

skipped-true : (d d' c c' : Map) → Same d d' → Same c c' → skipped d c ≡ true → skipped d' c' ≡ true
skipped-true d d' c c' s t e =
    (skipped_iff d' c').1 (λ k free. sym (t k) ∙ (skipped_iff d c).0 e k free ∙ s k)

skipped-Same : (d d' c c' : Map) → Same d d' → Same c c' → skipped d c ≡ skipped d' c'
skipped-Same d d' c c' s t =
    ground
      (arith, skipped-true d d' c c' s t, skipped-true d' d c' c (λ k. sym (s k)) (λ k. sym (t k)))

skips_to : Map → LabelMap → Bool
skips_to d = Quot.lift Bool-set (λ c. skipped d c) (λ c c' t. skipped-Same d d c c' (λ k. refl) t)

skips_to-Same : (d d' : Map) → Same d d' → (c : LabelMap) → skips_to d c ≡ skips_to d' c
unfolding skips_to
skips_to-Same d d' s = Quot.ind (λ c. Bool-set _ _) (λ c. skipped-Same d d' c c s (λ k. refl))

-- Whether the update is skipped: `unchanged`, of abstract maps.
skips : (desired current : LabelMap) → Bool
unfolding skips_to
skips desired current =
    Quot.lift Bool-set (λ d. skips_to d current) (λ d d' s. skips_to-Same d d' s current) desired

-- Abstract maps with the same values are equal.
LabelMap-ext : (a b : LabelMap) → ((k : String) → value k a ≡ value k b) → a ≡ b
unfolding value
LabelMap-ext =
    Quot.ind (λ a. hlevel (Quot-set))
      (λ a. Quot.ind (λ b. hlevel (Quot-set)) (λ b same. Quot.sound same))

value-apply :
    (desired current : LabelMap) (k : String)
    → value k (apply desired current)
      ≡ (if is_reserved_label k then value k current else value k desired)
unfolding value apply apply_to
value-apply =
    Quot.ind (λ d. hlevel (text_set))
      (λ d. Quot.ind (λ c. hlevel (text_set)) (λ c k. get-applied d c k))

-- Every unreserved label has its desired value.
Agree : (desired current : LabelMap) → Type 0
Agree desired current =
    (k : String) → is_reserved_label k ≡ false → value k current ≡ value k desired

skips-Agree : (desired current : LabelMap) → (skips desired current ≡ true) ↔ Agree desired current
unfolding value skips skips_to Agree
skips-Agree =
    Quot.ind (λ d. hlevel (text_set, Bool-set))
      (λ d. Quot.ind (λ c. hlevel (text_set, Bool-set)) (λ c. skipped_iff d c))

apply-Agree : (desired current : LabelMap) → Agree desired current → apply desired current ≡ current
unfolding Agree
apply-Agree desired current agree =
    LabelMap-ext _ _ (λ k. ground (arith, value-apply desired current k, agree k))

Agree-apply : (desired current : LabelMap) → apply desired current ≡ current → Agree desired current
unfolding Agree
Agree-apply desired current e k free =
    ground (arith, value-apply desired current k, ap (λ m. value k m) e)

-- On labels as maps, the update is skipped exactly when it would send the labels that the volume
-- has.
skips_iff :
    (desired current : LabelMap)
    → (skips desired current ≡ true) ↔ (apply desired current ≡ current)
skips_iff desired current = (
  λ e. apply-Agree desired current ((skips-Agree desired current).0 e),
  λ e. (skips-Agree desired current).1 (Agree-apply desired current e),
)

-- After an update that sent these labels, the next one is skipped.
skips-apply : (desired current : LabelMap) → skips desired (apply desired current) ≡ true
unfolding Agree
skips-apply desired current =
    (skips-Agree desired (apply desired current)).1
      (λ k free. ground (arith, value-apply desired current k))

abbrev pub abstract : Map → LabelMap
abstract m = Quot.mk m

-- For maps with no key twice, the update is skipped exactly when, on abstract maps, which forget the
-- order of the entries and whether an empty map is nil, the labels that it would send are those that
-- the object has.
pub unchanged-refines :
    (desired current : Map)
    → (unchanged current.0 (apply_labels desired.0 current.0) ≡ true)
      ↔ (apply (abstract desired) (abstract current) ≡ abstract current)
unfolding skips skips_to
unchanged-refines desired current = skips_iff (abstract desired) (abstract current)
