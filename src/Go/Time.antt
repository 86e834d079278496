-- ===== src/Go/Time.antt =====
-- `time.Duration`: nanoseconds, in an `int64`.
use api_manager.Base.{ℕ, ◌*◌, ◌-◌, ◌%◌, ◌^◌, ltb, if◌then◌else◌, suc}
use api_manager.Go.Strconv.{ℤ, pos, negsuc, two_63}

abbrev pub Duration : Type 0
Duration = ℤ

abbrev pub seconds : ℕ → Duration
seconds n = pos (n * 1000000000)

abbrev pub minutes : ℕ → Duration
minutes n = seconds (n * 60)

abbrev pub hours : ℕ → Duration
hours n = minutes (n * 60)

-- The `int64` of a number below 2 ^ 64.
abbrev pub of_word : ℕ → Duration
of_word m = if ltb m two_63 then pos m else negsuc (2 ^ 64 - 1 - m)

-- `k * d`, which wraps around.
unfoldable pub times : ℕ → Duration → Duration
times k (pos n) = of_word (k * n % 2 ^ 64)
times k (negsuc n) = of_word ((2 ^ 64 - k * suc n % 2 ^ 64) % 2 ^ 64)
