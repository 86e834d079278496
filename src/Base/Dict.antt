-- ===== src/Base/Dict.antt =====
-- Association lists: the entries of a Go map, in the order in which one iteration meets them.
use Prim.Native.String.{String}
use mathlib.Core.Path.{◌≡◌, refl}
use mathlib.Core.Bool.{Bool}
use mathlib.Core.Option.{Option, none, some}
use mathlib.Core.List.{List, [], ◌∷◌}
use native.Mathlib.Omega.{arith}
use api_manager.Base.Logic.{◌==◌, if◌then◌else◌}

abbrev pub Dict {ℓ} : Type ℓ → Type ℓ
Dict V = List (String × V)

module _ {ℓ} {V : Type ℓ} where
  unfoldable pub lookup : String → Dict V → Option V
  lookup k [] = none
  lookup k ((j, v) ∷ d) = if j == k then some v else lookup k d

  -- `m[k] = v`
  unfoldable pub insert : String → V → Dict V → Dict V
  insert k v [] = (k, v) ∷ []
  insert k v ((j, w) ∷ d) = let rest = insert k v d in if j == k then (k, v) ∷ d else (j, w) ∷ rest

  -- The entries whose key passes a test.
  unfoldable pub only : (String → Bool) → Dict V → Dict V
  only p [] = []
  only p ((k, v) ∷ d) = let rest = only p d in if p k then (k, v) ∷ rest else rest

  abbrev pub NodupKeys : Dict V → Type ℓ
  NodupKeys [] = Unit
  NodupKeys ((k, _) ∷ d) = (lookup k d ≡ none) × NodupKeys d

  pub lookup-insert :
      (k j : String) (v : V) (d : Dict V)
      → lookup j (insert k v d) ≡ (if k == j then some v else lookup j d)
  unfolding lookup insert
  lookup-insert k j v [] = refl
  lookup-insert k j v ((i, w) ∷ d) = ground (arith, lookup-insert k j v d)

  pub lookup-only :
      (p : String → Bool) (j : String) (d : Dict V)
      → lookup j (only p d) ≡ (if p j then lookup j d else none)
  unfolding lookup only
  lookup-only p j [] = ground arith
  lookup-only p j ((i, w) ∷ d) = ground (arith, lookup-only p j d)

  pub only-NodupKeys : (p : String → Bool) (d : Dict V) → NodupKeys d → NodupKeys (only p d)
  unfolding only
  only-NodupKeys p [] u = tt
  only-NodupKeys p ((k, v) ∷ d) (fresh, u) = ground (arith, lookup-only p k d, only-NodupKeys p d u)

  pub insert-NodupKeys : (k : String) (v : V) (d : Dict V) → NodupKeys d → NodupKeys (insert k v d)
  unfolding insert lookup
  insert-NodupKeys k v [] u = (refl, tt)
  insert-NodupKeys k v ((j, w) ∷ d) (fresh, u) =
      ground (arith, lookup-insert k j v d, insert-NodupKeys k v d u)

  pub lookup-nil : (k : String) → lookup k [] ≡ none
  unfolding lookup
  lookup-nil k = refl
