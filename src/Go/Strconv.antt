-- ===== src/Go/Strconv.antt =====
-- What the code uses of Go's package strconv: ParseBool, ParseUint and Atoi, on 64 bits.
pub mod Laws
use Prim.Native.Char.{Char, code}
use api_manager.Base.{
  ℕ, ◌+◌, ◌-◌, ◌*◌, ◌%◌, String, Bool, true, false, ◌||◌, ◌&&◌, Option, none, some, leb, ltb, eqb,
  ◌==◌, String-discrete, if◌then◌else◌,
}

-- The reason in a `*strconv.NumError`.
pub data NumError : Type 0 where
  syntax range : NumError

-- A value that comes back beside an error, as every result of Go does.
pub record Parsed (A : Type 0) : Type 0 where
  pub value : A
  pub error : Option NumError

unfoldable pub parse_bool : String → Parsed Bool
unfolding String-discrete
parse_bool s =
    if s == "1" || s == "t" || s == "T" || s == "true" || s == "TRUE" || s == "True"
    then record { value = true; error = none }
    else if s == "0" || s == "f" || s == "F" || s == "false" || s == "FALSE" || s == "False"
    then record { value = false; error = none }
    else record { value = false; error = some syntax }

abbrev pub max_uint64 : ℕ
max_uint64 = 18446744073709551615

-- The smallest number such that ten times it overflows.
abbrev pub cutoff : ℕ
cutoff = 1844674407370955162

abbrev pub is_digit : Char → Bool
is_digit c = leb 48 (code c) && leb (code c) 57

-- The loop over the bytes. A syntax error gives 0, an overflow gives the largest number.
unfoldable pub parse_digits : ℕ → String → Parsed ℕ
parse_digits n String.[] = record { value = n; error = none }
parse_digits n (String.◌∷◌ c s) =
    let next = n * 10 + (code c - 48) in
    let rest = parse_digits next s in
    if is_digit c
    then (if leb cutoff n || ltb max_uint64 next
        then record { value = max_uint64; error = some range }
        else rest)
    else record { value = 0; error = some syntax }

unfoldable pub parse_uint : String → Parsed ℕ
unfolding parse_digits
parse_uint String.[] = record { value = 0; error = some syntax }
parse_uint (String.◌∷◌ c s) = parse_digits 0 (String.◌∷◌ c s)

-- `int`, on 64 bits. `negsuc n` is -(n + 1).
pub data ℤ : Type 0 where
  pos : ℕ → ℤ
  negsuc : ℕ → ℤ

abbrev pub two_63 : ℕ
two_63 = 9223372036854775808

abbrev pub negate : ℕ → ℤ
negate n = if eqb n 0 then pos 0 else negsuc (n - 1)

-- `ParseInt(s, 10, 64)` behind its sign.
unfoldable pub signed : Bool → Parsed ℕ → Parsed ℤ
signed true r = elim r.error [
  | some syntax ↦ record { value = pos 0; error = some syntax }
  | _ ↦
      if ltb two_63 r.value
      then record { value = negsuc (two_63 - 1); error = some range }
      else record { value = negate r.value; error = none }
]
signed false r = elim r.error [
  | some syntax ↦ record { value = pos 0; error = some syntax }
  | _ ↦
      if leb two_63 r.value
      then record { value = pos (two_63 - 1); error = some range }
      else record { value = pos r.value; error = none }
]

unfoldable pub atoi : String → Parsed ℤ
unfolding parse_uint signed
atoi String.[] = record { value = pos 0; error = some syntax }
atoi (String.◌∷◌ c s) =
    if eqb (code c) 43
    then signed false (parse_uint s)
    else if eqb (code c) 45
    then signed true (parse_uint s)
    else signed false (parse_uint (String.◌∷◌ c s))

-- The conversion `int32(n)`, as a bit pattern below 2^32.
unfoldable pub int32 : ℤ → ℕ
int32 (pos n) = n % 4294967296
int32 (negsuc n) = 4294967295 - n % 4294967296
