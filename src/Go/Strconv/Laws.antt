-- ===== src/Go/Strconv/Laws.antt =====
-- What ParseUint of Go returns.
use api_manager.Go.Strconv.{code, range, max_uint64, ℕ, String, parse_digits, parse_uint}
use api_manager.Base.{◌-◌, ◌+◌, ◌*◌, arith, some, ◌≤◌, ◌≡◌}

parse_digits_range :
    (n : ℕ) (s : String)
    → (parse_digits n s).error ≡ some range
    → (parse_digits n s).value ≡ max_uint64
unfolding parse_digits
parse_digits_range n String.[] e = cc
parse_digits_range n (String.◌∷◌ c s) e =
    ground (arith, parse_digits_range (n * 10 + (code c - 48)) s)

-- On an overflow the value is the largest number.
pub parse_uint_range :
    (s : String) → (parse_uint s).error ≡ some range → (parse_uint s).value ≡ max_uint64
unfolding parse_uint
parse_uint_range String.[] e = cc
parse_uint_range (String.◌∷◌ c s) e = parse_digits_range 0 (String.◌∷◌ c s) e

parse_digits_bound : (n : ℕ) (s : String) → n ≤ max_uint64 → (parse_digits n s).value ≤ max_uint64
unfolding parse_digits
parse_digits_bound n String.[] h = h
parse_digits_bound n (String.◌∷◌ c s) h =
    ground (arith, parse_digits_bound (n * 10 + (code c - 48)) s)

-- The value always fits 64 bits.
pub parse_uint_bound : (s : String) → (parse_uint s).value ≤ max_uint64
unfolding parse_uint
parse_uint_bound String.[] = omega arith
parse_uint_bound (String.◌∷◌ c s) = parse_digits_bound 0 (String.◌∷◌ c s) (omega arith)
