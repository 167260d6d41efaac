-- ===== src/Blockchain/Queries/Clock.antt =====
-- When the clocks of the service and the node agree, in terms of the two times that the service reads and the time that
-- the node answers with.
use bicycle.Prelude.{ℕ, ◌+◌, ◌*◌, ◌-◌, ◌/◌, ◌≤◌, ◌≡◌, ◌↔◌, Bool, true, not, ◌||◌, Result, ok, arith}
use bicycle.Prelude.Int.{ℤ, pos, ◌-ℤ◌, ltb_ℤ, -ℤ_parts}
use bicycle.Blockchain.Retry.{retry}
use bicycle.Blockchain.Queries.{check_time, mid_time, unix}

within_iff :
    (m n c : ℕ)
    → (◌≡◌ {A = Result Bool}
        (ok (not (ltb_ℤ (pos c) (pos m -ℤ pos n) || ltb_ℤ (pos m -ℤ pos n) (pos 0 -ℤ pos c))))
        (ok true))
      ↔ ((m ≤ n + c) × (n ≤ m + c))
within_iff m n c = ground (arith, -ℤ_parts (pos m) (pos n), -ℤ_parts (pos 0) (pos c))

-- The middle of the times, which rounds down, without the division.
middle_iff :
    (prev next n c : ℕ)
    → prev ≤ next
    → ((prev + (next - prev) / 2 ≤ n + c) × (n ≤ prev + (next - prev) / 2 + c))
      ↔ ((prev + next ≤ 2 * (n + c) + 1) × (2 * n ≤ prev + next + 2 * c))
middle_iff prev next n c le =
    (λ h. (omega (arith, h.0), omega (arith, h.1)), λ h. (omega (arith, h.0), omega (arith, h.1)))

-- Where the node answers with `t` seconds and the service's clock did not go back meanwhile, `CheckTime` is true exactly
-- if twice that time, in nanoseconds, and the sum of the service's times before and after the request are apart by at
-- most twice the cutoff, the cutoff itself included, up to the half nanosecond that the middle is rounded by.
pub check_time_iff :
    (get_time : ℕ → Result ℕ) (max_retries : ℤ) (prev_time next_time cutoff t : ℕ)
    → prev_time ≤ next_time
    → retry get_time 0 max_retries ≡ ok t
    → (check_time get_time max_retries prev_time next_time cutoff ≡ ok true) ↔ (
        (prev_time + next_time ≤ 2 * (t * 1000000000 + cutoff) + 1)
        × (2 * (t * 1000000000) ≤ prev_time + next_time + 2 * cutoff))
unfolding check_time
check_time_iff get_time max_retries prev_time next_time cutoff t le e =
    let within = within_iff (mid_time prev_time next_time) (unix t) cutoff in
    let middle = middle_iff prev_time next_time (unix t) cutoff le in
    rw e (λ h. middle.0 (within.0 h), λ h. within.1 (middle.1 h))
