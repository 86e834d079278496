-- ===== src/Go/Text/Laws.antt =====
-- Splitting at a space takes apart what was joined with one, and Contains sees each end of a text.
use text.Mathlib.TextLemmas.{cons-append, nil-append}
use Prim.Native.Char.{Char}
use api_manager.Go.Text.{push, contains, split, is_blank}
use api_manager.Base.{
  Bool-cases, inr, inl, if◌then◌else◌, List, ◌⊎◌, true, All, String, Bool, false, [], ◌∷◌, ◌≡◌,
  ◌<>◌, ◌||◌, refl, arith,
}

abbrev pub has_blank : String → Bool
has_blank String.[] = false
has_blank (String.◌∷◌ c s) = is_blank c || has_blank s

pub split_whole : (s : String) → has_blank s ≡ false → split s ≡ s ∷ []
unfolding split
split_whole String.[] e = refl
split_whole (String.◌∷◌ c s) e = ground (arith, split_whole s)

abbrev blank : Char
blank = " "

pub blank-append : (t : String) → " " <> t ≡ String.◌∷◌ " " t
blank-append t = rw (cons-append blank "" t, nil-append t) refl

split-blank : (t : String) → split (" " <> t) ≡ "" ∷ split t
unfolding split
split-blank t = rw (blank-append t) refl

pub split-append : (s t : String) → has_blank s ≡ false → split (s <> (" " <> t)) ≡ s ∷ split t
unfolding split
split-append String.[] t e = rw (nil-append (" " <> t)) (split-blank t)
split-append (String.◌∷◌ c s) t e =
    rw (cons-append c s (" " <> t)) (ground (arith, split-append s t))

-- The parts hold no space.
pub split-NoBlank : (s : String) → All (λ part. has_blank part ≡ false) (split s)
unfolding split
split-NoBlank String.[] = (refl, tt)
split-NoBlank (String.◌∷◌ c s) = go (Bool-cases (is_blank c)) (split s) (split-NoBlank s)
  where
    go :
        (is_blank c ≡ true) ⊎ (is_blank c ≡ false)
        → (parts : List String) → All (λ part. has_blank part ≡ false) parts
        → All (λ part. has_blank part ≡ false) (if is_blank c then "" ∷ parts else push c parts)
    go (inl e) parts k = rw e (refl, k)
    go (inr e) [] k = rw e (ground arith, tt)
    go (inr e) (part ∷ parts) (k, ks) = rw e (ground arith, ks)

pub contains-append : (s t part : String) → contains t part ≡ true → contains (s <> t) part ≡ true
unfolding contains
contains-append String.[] t part e = rw (nil-append t) e
contains-append (String.◌∷◌ c s) t part e =
    rw (cons-append c s t) (ground (arith, contains-append s t part e))
