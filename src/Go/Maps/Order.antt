-- ===== src/Go/Maps/Order.antt =====
-- Tests of all entries of a Go map: the order of the entries makes no difference.
use api_manager.Base.{all, true, Bool, String, ◌≡◌, refl, sym, ◌∙◌, some, [], ◌∷◌, arith}
use api_manager.Base.Dict.{Dict, lookup, NodupKeys}
use api_manager.Go.Maps.Equality.{SameMap}

module _ (p : (String × String) → Bool) where
  all-lookup :
      (d : Dict String) (k v : String) → all p d ≡ true → lookup k d ≡ some v → p (k, v) ≡ true
  unfolding lookup
  all-lookup [] k v e f = cc
  all-lookup ((j, w) ∷ d) k v e f = ground (arith, all-lookup d k v)

  all-of_lookup :
      (d : Dict String)
      → NodupKeys d
      → ((k v : String) → lookup k d ≡ some v → p (k, v) ≡ true)
      → all p d ≡ true
  unfolding lookup
  all-of_lookup [] u h = refl
  all-of_lookup ((j, w) ∷ d) (fresh, u) h =
      ground (arith, h j w, all-of_lookup d u (λ k v e. h k v (ground arith)))

  -- Over two maps with the same lookups, a test of all entries gives the same.
  pub all-SameMap :
      (c d : Dict String) → NodupKeys c → NodupKeys d → SameMap c d → all p c ≡ all p d
  all-SameMap c d u w s =
      let to : (all p c ≡ true → all p d ≡ true) =
        λ e. all-of_lookup d w (λ k v f. all-lookup c k v e (s k ∙ f)) in
      let from : (all p d ≡ true → all p c ≡ true) =
        λ e. all-of_lookup c u (λ k v f. all-lookup d k v e (sym (s k) ∙ f)) in
      ground arith
