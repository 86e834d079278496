-- ===== src/Go/Text.antt =====
-- What the code uses of Go's package strings: Split at a space, TrimSpace and Contains.
pub mod Laws
use Prim.Native.Char.{Char, code}
use text.Mathlib.Text.{starts_with}
use api_manager.Base.{
  String, Bool, true, false, List, [], ◌∷◌, ◌&&◌, ◌||◌, ◌==◌, eqb, leb, if◌then◌else◌,
  String-discrete,
}

abbrev pub is_blank : Char → Bool
is_blank c = eqb (code c) 32

-- `unicode.IsSpace`
unfoldable pub is_space : Char → Bool
is_space c =
    let n = code c in
    (leb 9 n && leb n 13)
    || eqb n 32
    || eqb n 133
    || eqb n 160
    || eqb n 5760
    || (leb 8192 n && leb n 8202)
    || eqb n 8232
    || eqb n 8233
    || eqb n 8239
    || eqb n 8287
    || eqb n 12288

-- A character in front of the first part.
abbrev pub push : Char → List String → List String
push c [] = String.◌∷◌ c String.[] ∷ []
push c (part ∷ parts) = String.◌∷◌ c part ∷ parts

-- `strings.Split(s, " ")`
unfoldable pub split : String → List String
split String.[] = String.[] ∷ []
split (String.◌∷◌ c s) =
    let parts = split s in if is_blank c then String.[] ∷ parts else push c parts

unfoldable pub trim_left : String → String
unfolding is_space
trim_left String.[] = String.[]
trim_left (String.◌∷◌ c s) = let rest = trim_left s in if is_space c then rest else String.◌∷◌ c s

unfoldable pub trim_right : String → String
unfolding is_space String-discrete
trim_right String.[] = String.[]
trim_right (String.◌∷◌ c s) =
    let rest = trim_right s in if is_space c && rest == "" then String.[] else String.◌∷◌ c rest

-- `strings.TrimSpace(s)`
unfoldable pub trim_space : String → String
unfolding trim_left trim_right
trim_space s = trim_right (trim_left s)

-- `strings.Contains(s, part)`
unfoldable pub contains : String → (part : String) → Bool
contains String.[] part = starts_with String.[] part
contains (String.◌∷◌ c s) part =
    let later = contains s part in starts_with (String.◌∷◌ c s) part || later
