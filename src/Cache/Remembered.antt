-- ===== src/Cache/Remembered.antt =====
-- The cache over go-cache against a memory that is written out: for each key, the object that was
-- stored last and when.
use api_manager.Cache.{
  if◌then◌else◌, Option, ObjectKey, Bool, String, ℕ, Store, cache_miss, key_string,
}
use api_manager.Base.{
  Bool-cases, inr, ◌∙◌, ==_sound, sym, ap, inl, refl, ◌+◌, false, leb, arith, not, ◌⊎◌, ◌≤◌, [],
  true, some, ◌∷◌, ◌==◌, none, ◌≡◌, List,
}

-- What go-cache documents, for objects that expire after a positive duration: an object is found
-- under its key from the time when it is set until its expiry, and other keys are left alone.
pub record IsCache {S A : Type 0} (store : Store S A) (expiry : ℕ) : Type 0 where
  pub get-empty : (t : ℕ) (k : String) → store.get t k store.empty ≡ none
  pub get-set :
      (t t' : ℕ) (k : String) (a : A) (s : S)
      → t ≤ t'
      → store.get t' k (store.set t k a s) ≡ (if leb t' (t + expiry) then some a else none)
  pub get-set_other :
      (t t' : ℕ) (k j : String) (a : A) (s : S)
      → (k == j) ≡ false
      → store.get t' j (store.set t k a s) ≡ store.get t' j s

-- The time of the last `Set` of a key, and its object.
abbrev pub Memory : Type 0 → Type 0
Memory A = String → Option (ℕ × A)

module _ {A : Type 0} (expiry : ℕ) where
  abbrev pub fresh : ℕ → Option (ℕ × A) → Option A
  fresh now none = none
  fresh now (some (t, a)) = if leb now (t + expiry) then some a else none

module _ {A : Type 0} where
  abbrev pub remember : String → ℕ → A → Memory A → Memory A
  remember k t a m j = if k == j then some (t, a) else m j

module _ {A : Type 0} (semantic_equal : A → A → Bool) where
  abbrev pub is_news : Option A → A → Bool
  is_news none a = true
  is_news (some b) a = not (semantic_equal b a)

module _ {A : Type 0} (expiry : ℕ) (semantic_equal : A → A → Bool) (key_of : A → ObjectKey) where
  -- Which of the observations are news: those of an object that is not remembered, whose memory has
  -- expired, or that differs from what is remembered. Only news are remembered.
  abbrev pub news : List (ℕ × A) → Memory A → List Bool
  news [] m = []
  news ((t, a) ∷ rest) m =
      let k = key_string (key_of a) in
      let new = is_news semantic_equal (fresh expiry t (m k)) a in
      new ∷ news rest (if new then remember k t a m else m)

-- The times do not go back, and start at `t` or later.
abbrev pub Ordered : {A : Type 0} → ℕ → List (ℕ × A) → Type 0
Ordered t [] = Unit
Ordered t ((u, a) ∷ rest) = (t ≤ u) × Ordered u rest

module _ {S A : Type 0} (store : Store S A) (semantic_equal : A → A → Bool)
    (key_of : A → ObjectKey) where
  -- The answers of `CacheMiss` to observations, each at its time.
  abbrev pub misses : List (ℕ × A) → S → List Bool
  misses [] s = []
  misses ((t, a) ∷ rest) s =
      let (miss, after) = cache_miss store semantic_equal key_of t a s in miss ∷ misses rest after

module _ {S A : Type 0} (store : Store S A) (semantic_equal : A → A → Bool) (key_of : A → ObjectKey)
    (expiry : ℕ) (is_cache : IsCache store expiry) where
  -- From the time `t` on, the cache finds what the memory holds.
  record Agrees (t : ℕ) (s : S) (m : Memory A) : Type 0 where
    at : (t' : ℕ) (k : String) → t ≤ t' → store.get t' k s ≡ fresh expiry t' (m k)

  Agrees-later : {t u : ℕ} {s : S} {m : Memory A} → t ≤ u → Agrees t s m → Agrees u s m
  Agrees-later le k = record { at = λ t' j l. k.at t' j (omega (arith, le, l)) }

  Agrees-set :
      (t : ℕ) (k : String) (a : A) (s : S) (m : Memory A)
      → Agrees t s m
      → Agrees t (store.set t k a s) (remember k t a m)
  Agrees-set t k a s m g = record { at = λ t' j le. go t' j le (Bool-cases (k == j)) }
    where
      go :
          (t' : ℕ) (j : String)
          → t ≤ t'
          → ((k == j) ≡ true) ⊎ ((k == j) ≡ false)
          → store.get t' j (store.set t k a s)
            ≡ fresh expiry t' (if k == j then some (t, a) else m j)
      go t' j le (inl same) = rw same (
          ap (λ i. store.get t' i (store.set t k a s)) (sym (==_sound k j same))
          ∙ is_cache.get-set t t' k a s le)
      go t' j le (inr differ) =
          rw (differ, is_cache.get-set_other t t' k j a s differ) (g.at t' j le)

  misses-news :
      (t : ℕ) (l : List (ℕ × A)) (s : S) (m : Memory A)
      → Ordered t l
      → Agrees t s m
      → misses store semantic_equal key_of l s ≡ news expiry semantic_equal key_of l m
  unfolding cache_miss
  misses-news t [] s m o g = refl
  misses-news t ((u, a) ∷ rest) s m (le, o) g =
      ap (λ r. (answer r).0 ∷ misses store semantic_equal key_of rest (answer r).1)
        (g.at u (key_string (key_of a)) le)
      ∙ go (fresh expiry u (m (key_string (key_of a)))) (Agrees-later le g)
          (λ s' m' g'. misses-news u rest s' m' o g')
    where
      k : String
      k = key_string (key_of a)

      answer : Option A → Bool × S
      answer r = elim r [
        | none ↦ (true, store.set u k a s)
        | some cached ↦ if semantic_equal cached a then (false, s) else (true, store.set u k a s)
      ]

      go :
          (r : Option A)
          → Agrees u s m
          → ((s' : S) (m' : Memory A)
              → Agrees u s' m'
              → misses store semantic_equal key_of rest s'
                ≡ news expiry semantic_equal key_of rest m')
          → (answer r).0 ∷ misses store semantic_equal key_of rest (answer r).1
            ≡ is_news semantic_equal r a
              ∷ news expiry semantic_equal key_of rest
                  (if is_news semantic_equal r a then remember k u a m else m)
      go none g later = ap (λ l. true ∷ l) (later _ _ (Agrees-set u k a s m g))
      go (some b) g later = elim (Bool-cases (semantic_equal b a)) [
        | inl same ↦ rw same (ap (λ l. false ∷ l) (later _ _ g))
        | inr differ ↦ rw differ (ap (λ l. true ∷ l) (later _ _ (Agrees-set u k a s m g)))
      ]

  -- Over a cache that behaves as go-cache documents, and over observations in the order of their
  -- times, `CacheMiss` answers that an object is missing exactly when it is news: when nothing
  -- under its key was ever stored, the stored object has expired, or it differs.
  pub cache_miss-refines :
      (l : List (ℕ × A))
      → Ordered 0 l
      → misses store semantic_equal key_of l store.empty
        ≡ news expiry semantic_equal key_of l (λ k. none)
  cache_miss-refines l o =
      misses-news 0 l store.empty (λ k. none) o (record { at = λ t' k le. is_cache.get-empty t' k })
