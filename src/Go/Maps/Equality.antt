-- ===== src/Go/Maps/Equality.antt =====
-- `reflect.DeepEqual` on maps of texts: exactly the equality of all lookups, however the entries
-- are ordered.
use api_manager.Go.Maps.{covers, deep_equal}
use api_manager.Base.{
  ◌∷◌, [], sym, ◌∙◌, refl, ◌&&◌, arith, ◌≤◌, Option, eqb, ◌↔◌, length, suc, ◌==◌, true, some,
  if◌then◌else◌, none, ◌≡◌, String,
}
use api_manager.Base.Dict.{NodupKeys, lookup, Dict}

erase : String → Dict String → Dict String
erase k [] = []
erase k ((j, v) ∷ d) = let rest = erase k d in if j == k then rest else (j, v) ∷ rest

lookup-erase :
    (k j : String) (d : Dict String) → lookup j (erase k d) ≡ (if k == j then none else lookup j d)
unfolding erase lookup
lookup-erase k j [] = ground arith
lookup-erase k j ((i, w) ∷ d) = ground (arith, lookup-erase k j d)

erase_absent : (k : String) (d : Dict String) → lookup k d ≡ none → erase k d ≡ d
unfolding erase lookup
erase_absent k [] e = refl
erase_absent k ((j, v) ∷ d) e = ground (arith, erase_absent k d)

erase-NodupKeys : (k : String) (d : Dict String) → NodupKeys d → NodupKeys (erase k d)
unfolding erase
erase-NodupKeys k [] u = tt
erase-NodupKeys k ((j, v) ∷ d) (fresh, u) =
    ground (arith, erase-NodupKeys k d u, lookup-erase k j d)

length-erase :
    (k v : String) (d : Dict String)
    → NodupKeys d
    → lookup k d ≡ some v
    → suc (length (erase k d)) ≡ length d
unfolding erase lookup
length-erase k v [] u e = cc
length-erase k v ((j, w) ∷ d) (fresh, u) e = ground (arith, length-erase k v d u, erase_absent k d)

covers-erase :
    (k : String) (c d : Dict String)
    → lookup k c ≡ none
    → covers c d ≡ true
    → covers c (erase k d) ≡ true
unfolding covers lookup
covers-erase k [] d n e = refl
covers-erase k ((j, v) ∷ c) d n e = ground (arith, covers-erase k c d, lookup-erase k j d)

covers-length :
    (c d : Dict String) → NodupKeys c → NodupKeys d → covers c d ≡ true → length c ≤ length d
unfolding covers
covers-length [] d u w e = omega arith
covers-length ((j, v) ∷ c) d (fresh, u) w e = ground (
  arith,
  covers-length c (erase j d) u (erase-NodupKeys j d w),
  covers-erase j c d fresh,
  length-erase j v d w,
)

covers-lookup :
    (k v : String) (c d : Dict String)
    → covers c d ≡ true
    → lookup k c ≡ some v
    → lookup k d ≡ some v
unfolding covers lookup
covers-lookup k v [] d e f = cc
covers-lookup k v ((j, w) ∷ c) d e f = ground (arith, covers-lookup k v c d)

covers-lookup-none :
    (k : String) (c d : Dict String)
    → NodupKeys c
    → NodupKeys d
    → covers c d ≡ true
    → length c ≡ length d
    → lookup k c ≡ none
    → lookup k d ≡ none
covers-lookup-none k c d u w e same n = go (lookup k d) refl
  where
    go : (o : Option String) → lookup k d ≡ o → lookup k d ≡ none
    go none p = p
    go (some v) p = absurd (
        omega (
          arith,
          covers-length c (erase k d) u (erase-NodupKeys k d w) (covers-erase k c d n e),
          length-erase k v d w p,
        ))

abbrev pub SameMap : Dict String → Dict String → Type 0
SameMap c d = (k : String) → lookup k c ≡ lookup k d

covers-of_same :
    (c d : Dict String)
    → NodupKeys c
    → ((k v : String) → lookup k c ≡ some v → lookup k d ≡ some v)
    → covers c d ≡ true
unfolding covers lookup
covers-of_same [] d u s = refl
covers-of_same ((j, v) ∷ c) d (fresh, u) s =
    ground (arith, covers-of_same c d u (λ k w e. s k w (ground arith)), s j v)

-- Two maps that are not nil are deeply equal exactly when every lookup gives the same.
pub deep_equal_iff :
    (c d : Dict String)
    → NodupKeys c
    → NodupKeys d
    → (deep_equal (some c) (some d) ≡ true) ↔ SameMap c d
unfolding deep_equal
deep_equal_iff c d u w = (to, from)
  where
    to : (eqb (length c) (length d) && covers c d) ≡ true → SameMap c d
    to e k = go (lookup k c) refl
      where
        go : (o : Option String) → lookup k c ≡ o → lookup k c ≡ lookup k d
        go none p = p ∙ sym (covers-lookup-none k c d u w (ground arith) (ground arith) p)
        go (some v) p = p ∙ sym (covers-lookup k v c d (ground arith) p)

    from : SameMap c d → (eqb (length c) (length d) && covers c d) ≡ true
    from s =
        let cd = covers-of_same c d u (λ k v e. sym (s k) ∙ e) in
        let dc = covers-of_same d c w (λ k v e. s k ∙ e) in
        ground (arith, cd, covers-length c d u w cd, covers-length d c w u dc)
