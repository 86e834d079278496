-- ===== src/Session/Header.antt =====
-- Taking the token from a header, and the defaults of the endpoint.
use text.Mathlib.TextLemmas.{append-ne-nil_of_right_ne-nil, cons-ne-nil}
use Prim.Native.Char.{Char}
use api_manager.Base.{All, ==_false}
use api_manager.Session.{ok, index_out_of_range, split, panic, String, resp_auth_token, second}
use api_manager.Base.{
  ◌==◌, refl, arith, ◌⊎◌, inr, [], ap, ◌∙◌, inl, if◌then◌else◌, ◌∷◌, Bool-cases, List,
  String-discrete, sym, ◌≢◌, ◌↔◌, ◌<>◌, false, true, ◌≡◌,
}
use api_manager.Go.Text.Laws.{split-NoBlank, blank-append, split_whole, split-append, has_blank}
use api_manager.Go.Text.{push, is_blank, split}

joined-nonempty : (scheme token : String) → (scheme <> (" " <> token) == "") ≡ false
joined-nonempty scheme token = ==_false _ _ (
    append-ne-nil_of_right_ne-nil scheme
      (λ e. cons-ne-nil " " token (sym (blank-append token) ∙ e)))

-- A token without a space, behind a scheme without a space and one space, is the token that is
-- read.
pub resp_auth_token-scheme :
    (scheme token : String)
    → has_blank scheme ≡ false
    → has_blank token ≡ false
    → resp_auth_token (scheme <> (" " <> token)) ≡ ok token
unfolding resp_auth_token
resp_auth_token-scheme scheme token e f =
    rw (joined-nonempty scheme token, split-append scheme token e, split_whole token f) refl

second-push : (c : Char) (parts : List String) → second (push c parts) ≡ second parts
second-push c [] = refl
second-push c (_ ∷ []) = refl
second-push c (_ ∷ (_ ∷ _)) = refl

split-cons : (s : String) → (part : String) × ((parts : List String) × (split s ≡ part ∷ parts))
unfolding split
split-cons String.[] = ("", ([], refl))
split-cons (String.◌∷◌ c s) = go (Bool-cases (is_blank c)) (split s)
  where
    go :
        (is_blank c ≡ true) ⊎ (is_blank c ≡ false)
        → (l : List String)
        → (part : String) × ((parts : List String) × ((if is_blank c then "" ∷ l else push c l)
              ≡ part ∷ parts))
    go (inl e) l = ("", (l, rw e refl))
    go (inr e) [] = (String.◌∷◌ c "", ([], rw e refl))
    go (inr e) (part ∷ parts) = (String.◌∷◌ c part, (parts, rw e refl))

-- A text that holds a space has a second part.
split-second : (s : String) → has_blank s ≡ true → (t : String) × (second (split s) ≡ ok t)
unfolding split
split-second String.[] e = absurd (cc)
split-second (String.◌∷◌ c s) e =
    go (Bool-cases (is_blank c)) (split-cons s) (λ b. split-second s b)
  where
    go :
        (is_blank c ≡ true) ⊎ (is_blank c ≡ false)
        → (part : String) × ((parts : List String) × (split s ≡ part ∷ parts))
        → (has_blank s ≡ true → (t : String) × (second (split s) ≡ ok t))
        → (t : String) × (second (if is_blank c then "" ∷ split s else push c (split s)) ≡ ok t)
    go (inl b) (part, (parts, at)) later = (part, rw (b, at) refl)
    go (inr b) _ later =
        let (t, at) = later (ground arith) in (t, rw b (second-push c (split s) ∙ at))

pub resp_auth_token-total :
    (value : String)
    → (value ≡ "") ⊎ (has_blank value ≡ true)
    → (t : String) × (resp_auth_token value ≡ ok t)
unfolding resp_auth_token
resp_auth_token-total value (inl e) = ("", rw e refl)
resp_auth_token-total value (inr b) =
    let (t, at) = split-second value b in
    (t, rw (==_false value "" (λ e. absurd (blank_nonempty value b e))) at)
  where
    no_blank : true ≢ false
    no_blank e = cc

    blank_nonempty : (s : String) → has_blank s ≡ true → s ≢ ""
    blank_nonempty s b e = no_blank (sym b ∙ ap has_blank e)

-- The header is taken apart without a fault unless it is a text that is not empty and has no space;
-- then, and only then, the index is out of range.
pub resp_auth_token-panic_iff :
    (value : String)
    → (resp_auth_token value ≡ panic index_out_of_range)
      ↔ ((value ≢ "") × (has_blank value ≡ false))
unfolding resp_auth_token
resp_auth_token-panic_iff value = elim (String-discrete value "") [
  | yes p ↦ (λ e. absurd (fine (inl p) e), λ (n, b). absurd (n p))
  | no n ↦ elim (Bool-cases (has_blank value)) [
    | inl b ↦ (λ e. absurd (fine (inr b) e), λ (_, f). absurd (cc))
    | inr b ↦ (λ e. (n, b), λ _. rw (==_false value "" n) (ap second (split_whole value b)))
  ]
]
  where
    fine :
        (value ≡ "") ⊎ (has_blank value ≡ true) → resp_auth_token value ≢ panic index_out_of_range
    fine w e = let (t, at) = resp_auth_token-total value w in absurd (cc)

ok_injective : {A : Type 0} {a b : A} → ok a ≡ ok b → a ≡ b
ok_injective e = cc

second-NoBlank :
    (t : String) (parts : List String)
    → All (λ part. has_blank part ≡ false) parts
    → second parts ≡ ok t
    → has_blank t ≡ false
second-NoBlank t [] k e = cc
second-NoBlank t (_ ∷ []) k e = cc
second-NoBlank t (_ ∷ (part ∷ _)) (_, (k, _)) e = sym (ap has_blank (ok_injective e)) ∙ k

-- A token holds no space.
pub resp_auth_token-NoBlank :
    (value t : String) → resp_auth_token value ≡ ok t → has_blank t ≡ false
unfolding resp_auth_token
resp_auth_token-NoBlank value t e = go (Bool-cases (value == "")) e
  where
    go :
        ((value == "") ≡ true) ⊎ ((value == "") ≡ false)
        → (if value == "" then ok "" else second (split value)) ≡ ok t
        → has_blank t ≡ false
    go (inl b) = rw b (λ e. sym (ap has_blank (ok_injective e)))
    go (inr b) = rw b (second-NoBlank t (split value) (split-NoBlank value))
