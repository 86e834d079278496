-- ===== src/Fencer/Poller/Bounds.antt =====
-- How often the fencer polls.
use api_manager.Go.Time.{Duration}
use api_manager.Fencer.Poller.{negsuc, pos, min_poll_interval, new_reconciler}
use api_manager.Base.{refl, inr, arith, inl, ltb, Bool-cases, ◌⊎◌, ◌≤◌, ◌≡◌}

-- The order of durations: the first is not above the second.
abbrev pub AtMost : Duration → Duration → Type 0
AtMost (pos m) (pos n) = m ≤ n
AtMost (pos m) (negsuc n) = ⊥
AtMost (negsuc m) (pos n) = Unit
AtMost (negsuc m) (negsuc n) = n ≤ m

-- Whatever interval is asked for, negative ones included, the reconciler polls at an interval that
-- is not below five seconds, not below the one asked for, and one of the two.
pub new_reconciler-bounds :
    (poll_interval expiry_interval : Duration)
    → let r = new_reconciler poll_interval expiry_interval in
      AtMost (pos min_poll_interval) r.poll_interval
      × AtMost poll_interval r.poll_interval
      × ((r.poll_interval ≡ poll_interval) ⊎ (r.poll_interval ≡ pos min_poll_interval))
unfolding new_reconciler
new_reconciler-bounds (pos n) e = elim (Bool-cases (ltb n min_poll_interval)) [
  | inl b ↦ rw b (omega arith, ground arith, inr refl)
  | inr b ↦ rw b (ground arith, omega arith, inl refl)
]
new_reconciler-bounds (negsuc n) e = (omega arith, tt, inr refl)
