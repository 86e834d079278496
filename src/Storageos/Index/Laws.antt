-- ===== src/Storageos/Index/Laws.antt =====
-- Lookups in a map of objects by key.
use mathlib.Core.Path.{subst}
use api_manager.Storageos.Index.{List, ObjectKey, indexed, same_key}
use api_manager.Base.{
  ◌∙◌, ap, sym, some_injective, inr, if◌then◌else◌, inl, ◌⊎◌, Bool-cases, false, Option, refl, none,
  arith, [], ◌≢◌, true, ◌∷◌, some, In, All, ◌≡◌,
}

pub same_key_sound : (a b : ObjectKey) → same_key a b ≡ true → a ≡ b
same_key_sound a b e = ground arith

pub same_key_refl : (a : ObjectKey) → same_key a a ≡ true
same_key_refl a = ground arith

pub same_key_apart : (a b : ObjectKey) → a ≢ b → same_key a b ≡ false
same_key_apart a b n = elim (Bool-cases (same_key a b)) [
  | inl e ↦ absurd (n (same_key_sound a b e))
  | inr e ↦ e
]

module _ {A : Type 0} (key : A → ObjectKey) where
  -- No two objects of the list have one key.
  abbrev pub DistinctKeys : List A → Type 0
  DistinctKeys [] = Unit
  DistinctKeys (a ∷ rest) = All (λ b. key b ≢ key a) rest × DistinctKeys rest

  -- What is found is in the list and has the key.
  pub indexed_sound :
      (l : List A) (k : ObjectKey) (a : A) → indexed key l k ≡ some a → In a l × (key a ≡ k)
  unfolding indexed
  indexed_sound [] k a e = absurd (cc)
  indexed_sound (x ∷ l) k a e =
      go (indexed key l k) (indexed_sound l k) (Bool-cases (same_key (key x) k)) e
    where
      go :
          (r : Option A)
          → ((b : A) → r ≡ some b → In b l × (key b ≡ k))
          → (same_key (key x) k ≡ true) ⊎ (same_key (key x) k ≡ false)
          → elim r [ none ↦ if same_key (key x) k then some x else none | some b ↦ some b ] ≡ some a
          → In a (x ∷ l) × (key a ≡ k)
      go none later (inl same) = rw same (λ e.
          let at = some_injective e in
          (In.here (sym at), sym (ap key at) ∙ same_key_sound (key x) k same))
      go none later (inr differ) = rw differ (λ e. absurd (cc))
      go (some b) later _ = λ e. let (i, at) = later a e in (In.there i, at)

  pub indexed-none : (l : List A) (k : ObjectKey) → All (λ b. key b ≢ k) l → indexed key l k ≡ none
  unfolding indexed
  indexed-none [] k n = refl
  indexed-none (x ∷ l) k (n, ns) = rw (indexed-none l k ns, same_key_apart (key x) k n) refl

  take_same : (x : A) → (if same_key (key x) (key x) then some x else none) ≡ some x
  take_same x = ap (λ b. if b then some x else none) (same_key_refl (key x))

  pub indexed_complete :
      (l : List A) (a : A) → DistinctKeys l → In a l → indexed key l (key a) ≡ some a
  unfolding indexed
  indexed_complete [] a d i = elim i [ ]
  indexed_complete (x ∷ l) a (fresh, d) (In.here e) =
      subst (λ y. indexed key (x ∷ l) (key y) ≡ some y) (sym e)
        (rw (indexed-none l (key x) fresh) (take_same x))
  indexed_complete (x ∷ l) a (fresh, d) (In.there i) = rw (indexed_complete l a d i) refl
