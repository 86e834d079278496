-- ===== src/Go/Maps.antt =====
-- Go maps from texts to texts. `none` is the nil map: it reads as empty, and a write panics.
pub mod Equality
pub mod Order
use api_manager.Base.{
  String, Bool, true, false, ◌&&◌, Option, none, some, [], ◌∷◌, length, eqb, ◌==◌,
}
use api_manager.Base.Dict.{Dict, lookup}

abbrev pub StringMap : Type 0
StringMap = Option (Dict String)

-- What `range` visits.
abbrev pub entries : StringMap → Dict String
entries none = []
entries (some d) = d

-- `v, ok := m[k]`
unfoldable pub get : StringMap → String → Option String
unfolding lookup
get m k = lookup k (entries m)

abbrev pub or_empty : Option String → String
or_empty none = ""
or_empty (some v) = v

-- `m[k]`, the empty text for a missing key.
unfoldable pub index : StringMap → String → String
unfolding get
index m k = or_empty (get m k)

abbrev has : Dict String → String → String → Bool
has d k v = elim (lookup k d) [ none ↦ false | some w ↦ v == w ]

unfoldable pub covers : Dict String → Dict String → Bool
unfolding lookup
covers [] d = true
covers ((k, v) ∷ c) d = has d k v && covers c d

-- `reflect.DeepEqual` on two maps: both nil, or both not nil, of one length and with equal values.
unfoldable pub deep_equal : StringMap → StringMap → Bool
unfolding covers
deep_equal none none = true
deep_equal none (some d) = false
deep_equal (some c) none = false
deep_equal (some c) (some d) = eqb (length c) (length d) && covers c d
