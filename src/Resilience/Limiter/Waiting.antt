-- ===== src/Resilience/Limiter/Waiting.antt =====
-- The delay that packages/resilience/src/limiter.ts reports to a denied call.
use go_like.Prelude.{ℕ, ◌+◌, ◌-◌, ◌*◌, ◌≤◌, ◌<◌, ◌≡◌, arith, true, false, lt→ltb}
use native.Mathlib.Nat.{lt-div-mul-add, div-mul-le_self, le-div_iff_mul-le, div-lt_iff_lt-mul}
use go_like.Resilience.Limiter.{
  Bucket, interval, intervals, refill, consume, next_refill_in, ceil_ms,
}
use go_like.Resilience.Limiter.Refill.{
  IsValid, advance, refill-advance, refill-IsValid, interval_pos,
}

module _ (resolution : ℕ) (positive : 1 ≤ resolution) where
  -- `Math.ceil` loses nothing.
  pub le-ceil_ms : (ticks : ℕ) → ticks ≤ ceil_ms resolution ticks * resolution
  le-ceil_ms ticks = omega (arith, lt-div-mul-add {a = ticks + (resolution - 1)} positive)

  ceil_ms-pos : (ticks : ℕ) → 0 < ticks → 1 ≤ ceil_ms resolution ticks
  ceil_ms-pos ticks h =
      (le-div_iff_mul-le {x = 1} {y = ticks + (resolution - 1)} positive).1 (omega arith)

  ceil_ms-le : (ticks m : ℕ) → ticks ≤ m * resolution → ceil_ms resolution ticks ≤ m
  ceil_ms-le ticks m h = omega (
    arith,
    (div-lt_iff_lt-mul {x = ticks + (resolution - 1)} {y = m + 1} positive).1 (omega arith),
  )

  -- After a refill at `t` less than one interval is left to wait for.
  record Current (b : Bucket) (t : ℕ) : Type 0 where
    started : b.last_refill_at ≤ t
    recent : t - b.last_refill_at < interval resolution b

  refill-Current :
      (b : Bucket) (t : ℕ) → IsValid b → b.last_refill_at ≤ t → Current (refill resolution b t) t
  unfolding advance
  refill-Current b t v h = rw (refill-advance resolution positive b t v) (record {
    started = omega (arith, div-mul-le_self (t - b.last_refill_at) (interval resolution b));
    recent =
        omega
          (arith, lt-div-mul-add {a = t - b.last_refill_at} (interval_pos resolution positive b v));
  })

  next_refill_in-bounds :
      (b : Bucket) (t : ℕ)
      → Current b t
      → (0 < next_refill_in resolution b t)
        × (next_refill_in resolution b t ≤ b.refill_interval_ms)
        × (b.last_refill_at + interval resolution b
            ≤ t + next_refill_in resolution b t * resolution)
  unfolding next_refill_in
  next_refill_in-bounds b t c =
      let rest = interval resolution b - (t - b.last_refill_at) in
      (
        ceil_ms-pos rest (omega (arith, c.recent)),
        ceil_ms-le rest b.refill_interval_ms (omega arith),
        omega (arith, le-ceil_ms rest, c.started),
      )

  -- One whole interval brings a token.
  refill_later :
      (b : Bucket) (t : ℕ)
      → IsValid b
      → b.last_refill_at + interval resolution b ≤ t
      → 0 < (refill resolution b t).available_tokens
  unfolding advance
  refill_later b t v h =
      let some_interval : 1 ≤ intervals resolution b t =
        (le-div_iff_mul-le {x = 1} {y = t - b.last_refill_at}
            (interval_pos resolution positive b v)).1
          (omega arith) in
      rw (refill-advance resolution positive b t v) (grind arith)

  consume-denied :
      (b : Bucket) (t : ℕ)
      → (consume resolution b t).1.allowed ≡ false
      → ((consume resolution b t).0 ≡ refill resolution b t)
        × ((consume resolution b t).1.retry_after_ms
            ≡ next_refill_in resolution (refill resolution b t) t)
  unfolding consume
  consume-denied b t d = ground arith

  consume-allowed :
      (b : Bucket) (t : ℕ)
      → 0 < (refill resolution b t).available_tokens
      → (consume resolution b t).1.allowed ≡ true
  unfolding consume
  consume-allowed b t h = rw (lt→ltb _ _ h)

  refill-refill_interval_ms :
      (b : Bucket) (t : ℕ) → (refill resolution b t).refill_interval_ms ≡ b.refill_interval_ms
  unfolding refill
  refill-refill_interval_ms b t = ground arith

  -- With a clock that does not go back, a denied call is told to wait at least a millisecond and
  -- at most one refill interval, and a call after that wait, with none in between, is allowed.
  pub denied_then_allowed :
      (b : Bucket) (t : ℕ)
      → IsValid b
      → b.last_refill_at ≤ t
      → (consume resolution b t).1.allowed ≡ false
      → let wait = (consume resolution b t).1.retry_after_ms in
        (0 < wait)
        × (wait ≤ b.refill_interval_ms)
        × ((consume resolution (consume resolution b t).0 (t + wait * resolution)).1.allowed ≡ true)
  denied_then_allowed b t v h d =
      let (state, wait) = consume-denied b t d in
      let r = refill resolution b t in
      let (positive_wait, short, reaches) = next_refill_in-bounds r t (refill-Current b t v h) in
      rw (state, wait)
        (
          positive_wait,
          omega (arith, refill-refill_interval_ms b t),
          consume-allowed r _ (refill_later r _ (refill-IsValid resolution positive b t v) reaches),
        )
