-- ===== src/Cache.antt =====
-- internal/pkg/cache/cache.go: the cache with which the poller of the fencer tells new states of a
-- node from known ones. go-cache and `equality.Semantic.DeepEqual` are parameters.
pub mod Remembered
pub mod Observed
use api_manager.Base.{ℕ, String, Bool, true, false, Option, none, some, ◌<>◌, if◌then◌else◌}
use api_manager.World.Objects.{ObjectKey}

-- What the code uses of a go-cache of objects `A`: its state `S`, and the two operations at a time.
-- `set` is the `Set` with the default expiry.
pub record Store (S A : Type 0) : Type 0 where
  pub empty : S
  pub get : (now : ℕ) → (key : String) → S → Option A
  pub set : (now : ℕ) → (key : String) → A → S → S

-- The `String` of an object's key.
abbrev pub key_string : ObjectKey → String
key_string key = key.namespace <> ("/" <> key.name)

module _ {S A : Type 0} (store : Store S A) (semantic_equal : A → A → Bool)
    (key_of : A → ObjectKey) where
  -- The answer, and the cache after it.
  unfoldable pub cache_miss : (now : ℕ) → A → S → Bool × S
  cache_miss now obj s =
      let key = key_string (key_of obj) in
      elim (store.get now key s) [
        | none ↦ (true, store.set now key obj s)
        | some cached ↦
            if semantic_equal cached obj then (false, s) else (true, store.set now key obj s)
      ]
