-- ===== src/Resilience/Retry/Delays.antt =====
-- The delays of `exponentialBackoff` in packages/resilience/src/retry.ts.
use go_like.Prelude.{ℕ, suc, ◌-◌, ◌*◌, ◌^◌, ◌≤◌, min, ◌≡◌, ap, ◌∙◌, ok, arith}
use native.Mathlib.Nat.{pow-suc, pow-zero}
use go_like.Resilience.Limiter.{max_safe_integer}
use go_like.Resilience.Retry.{
  BackoffOptions, Backoff, exponential_backoff, backoff, validate_delay, maximum_timer_delay,
}

-- What the constructor has checked.
record IsValid (options : BackoffOptions) (b : Backoff) : Type 0 where
  same : b.initial_delay_ms ≡ options.initial_delay_ms
  ordered : b.initial_delay_ms ≤ b.max_delay_ms
  bounded : b.max_delay_ms ≤ maximum_timer_delay
  grows : 1 ≤ b.multiplier

exponential_backoff-IsValid :
    (options : BackoffOptions) (b : Backoff)
    → exponential_backoff options ≡ ok b
    → IsValid options b
unfolding exponential_backoff
exponential_backoff-IsValid options b c = ground arith

delay : Backoff → ℕ → ℕ
delay b n = min (b.initial_delay_ms * b.multiplier ^ n) b.max_delay_ms

backoff-delay :
    (b : Backoff) (n : ℕ) → suc n ≤ max_safe_integer → backoff b (suc n) ≡ ok (delay b n)
unfolding backoff delay
backoff-delay b n h = let e : suc n - 1 ≡ n = omega arith in rw e (ground arith)

le-mul : (x m : ℕ) → 1 ≤ m → x ≤ x * m
le-mul x m h = grind arith

delay-le-suc : (b : Backoff) (n : ℕ) → 1 ≤ b.multiplier → delay b n ≤ delay b (suc n)
unfolding delay
delay-le-suc b n h =
    rw (pow-suc b.multiplier n)
      (omega (arith, le-mul (b.initial_delay_ms * b.multiplier ^ n) b.multiplier h))

delay-le : (b : Backoff) (n : ℕ) → delay b n ≤ b.max_delay_ms
unfolding delay
delay-le b n = omega arith

validate_delay-delay :
    (b : Backoff) (n : ℕ)
    → b.max_delay_ms ≤ maximum_timer_delay
    → validate_delay (delay b n) ≡ ok (delay b n)
unfolding validate_delay
validate_delay-delay b n h = ground (arith, delay-le b n)

backoff-first :
    (options : BackoffOptions) (b : Backoff)
    → IsValid options b
    → backoff b 1 ≡ ok options.initial_delay_ms
unfolding delay
backoff-first options b v =
    backoff-delay b 0 (omega arith) ∙ ap ok (rw (pow-zero b.multiplier) (omega (arith, v.same)))

-- With a backoff that the constructor accepts, the delay after every attempt but the last safe
-- number is accepted by the retry loop and no longer than the next one, which is at most the
-- maximum; the first is the initial delay.
pub backoff_delays :
    (options : BackoffOptions) (b : Backoff) (n : ℕ)
    → exponential_backoff options ≡ ok b
    → suc (suc n) ≤ max_safe_integer
    → (d e : ℕ) × (backoff b (suc n) ≡ ok d)
      × (backoff b (suc (suc n)) ≡ ok e)
      × (d ≤ e)
      × (e ≤ b.max_delay_ms)
      × (validate_delay e ≡ ok e)
      × (backoff b 1 ≡ ok options.initial_delay_ms)
backoff_delays options b n c h =
    let v = exponential_backoff-IsValid options b c in
    (
      delay b n,
      delay b (suc n),
      backoff-delay b n (omega arith),
      backoff-delay b (suc n) h,
      delay-le-suc b n v.grows,
      delay-le b (suc n),
      validate_delay-delay b (suc n) v.bounded,
      backoff-first options b v,
    )
