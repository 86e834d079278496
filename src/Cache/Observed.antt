-- ===== src/Cache/Observed.antt =====
-- What the cache holds after the events of one poll.
use api_manager.Cache.{ℕ, Bool, ObjectKey, Store, cache_miss, key_string}
use api_manager.Cache.Remembered.{IsCache}
use api_manager.Base.{
  ap, ◌+◌, leb, inr, inl, Bool-cases, if◌then◌else◌, none, refl, Option, arith, false, ◌∙◌, some,
  String, ◌==◌, All, [], true, ◌≡◌, ◌∷◌, List,
}

leb_add : (m n : ℕ) → leb m (m + n) ≡ true
leb_add m n = ground arith

module _ {S A : Type 0} (store : Store S A) (semantic_equal : A → A → Bool)
    (key_of : A → ObjectKey) where
  -- The cache after `CacheMiss` of each object, at one time.
  abbrev pub after : (now : ℕ) → List A → S → S
  after now [] s = s
  after now (a ∷ rest) s = after now rest (cache_miss store semantic_equal key_of now a s).1

-- No two objects have one text as their key.
abbrev pub Apart : {A : Type 0} → (A → ObjectKey) → List A → Type 0
Apart key_of [] = Unit
Apart key_of (a ∷ rest) =
    All (λ b. (key_string (key_of b) == key_string (key_of a)) ≡ false) rest × Apart key_of rest

module _ {S A : Type 0} (store : Store S A) (semantic_equal : A → A → Bool) (key_of : A → ObjectKey)
    (expiry : ℕ) (is_cache : IsCache store expiry)
    (equal_refl : (a : A) → semantic_equal a a ≡ true) where
  -- An object is found under the key that equals `a`.
  abbrev pub Found : (now : ℕ) → A → S → Type 0
  Found now a s =
      (b : A) × (store.get now (key_string (key_of a)) s ≡ some b) × (semantic_equal b a ≡ true)

  cache_miss-Found :
      (now : ℕ) (a : A) (s : S) → Found now a (cache_miss store semantic_equal key_of now a s).1
  unfolding cache_miss
  cache_miss-Found now a s = go (store.get now k s) refl
    where
      k : String
      k = key_string (key_of a)

      answer : Option A → Bool × S
      answer none = (true, store.set now k a s)
      answer (some cached) =
          if semantic_equal cached a then (false, s) else (true, store.set now k a s)

      within : (if leb now (now + expiry) then some a else none) ≡ some a
      within = ap (λ b. if b then some a else none) (leb_add now expiry)

      stored : Found now a (store.set now k a s)
      stored = (a, is_cache.get-set now now k a s (omega arith) ∙ within, equal_refl a)

      go : (r : Option A) → store.get now k s ≡ r → Found now a (answer r).1
      go none e = stored
      go (some b) e = elim (Bool-cases (semantic_equal b a)) [
        | inl same ↦ rw same (b, e, same)
        | inr differ ↦ rw differ stored
      ]

  cache_miss_other :
      (now : ℕ) (a : A) (s : S) (j : String)
      → (key_string (key_of a) == j) ≡ false
      → store.get now j (cache_miss store semantic_equal key_of now a s).1 ≡ store.get now j s
  unfolding cache_miss
  cache_miss_other now a s j n = go (store.get now k s)
    where
      k : String
      k = key_string (key_of a)

      answer : Option A → Bool × S
      answer none = (true, store.set now k a s)
      answer (some cached) =
          if semantic_equal cached a then (false, s) else (true, store.set now k a s)

      go : (r : Option A) → store.get now j (answer r).1 ≡ store.get now j s
      go none = is_cache.get-set_other now now k j a s n
      go (some b) = elim (Bool-cases (semantic_equal b a)) [
        | inl same ↦ rw same refl
        | inr differ ↦ rw differ (is_cache.get-set_other now now k j a s n)
      ]

  after_other :
      (now : ℕ) (l : List A) (s : S) (j : String)
      → All (λ b. (key_string (key_of b) == j) ≡ false) l
      → store.get now j (after store semantic_equal key_of now l s) ≡ store.get now j s
  after_other now [] s j n = refl
  after_other now (a ∷ rest) s j (n, ns) =
      after_other now rest _ j ns ∙ cache_miss_other now a s j n

  -- After the events of a poll, each of its objects is found under its key, as it was observed.
  pub after-Found :
      (now : ℕ) (l : List A) (s : S)
      → Apart key_of l
      → All (λ a. Found now a (after store semantic_equal key_of now l s)) l
  after-Found now [] s d = tt
  after-Found now (a ∷ rest) s (fresh, d) =
      let (b, at, same) = cache_miss-Found now a s in
      (
        (b, after_other now rest _ (key_string (key_of a)) fresh ∙ at, same),
        after-Found now rest _ d,
      )
