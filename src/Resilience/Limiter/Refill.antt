-- ===== src/Resilience/Limiter/Refill.antt =====
-- The lazy refill of packages/resilience/src/limiter.ts.
use go_like.Prelude.{
  ℕ, ◌+◌, ◌-◌, ◌*◌, ◌/◌, ◌≤◌, ◌<◌, min, ◌≡◌, refl, sym, arith, leb, leb→le, Bool-cases, inl, inr,
}
use native.Mathlib.Nat.{mul-add-div_right, div-mul-le_self}
use go_like.Resilience.Limiter.{Bucket, interval, intervals, refill}

-- What construction establishes and every call keeps.
pub record IsValid (b : Bucket) : Type 0 where
  pub some_capacity : 1 ≤ b.capacity
  pub some_tokens : 1 ≤ b.refill_tokens
  pub some_interval : 1 ≤ b.refill_interval_ms
  pub within : b.available_tokens ≤ b.capacity

-- Splitting an elapsed time at a whole number of intervals.
div_split : (i n e f : ℕ) → 0 < i → e ≡ n * i + f → e / i ≡ n + f / i
div_split i n e f h q = rw q (mul-add-div_right h n f)

-- `n` whole intervals of `i` ticks have passed.
unfoldable pub advance : ℕ → ℕ → Bucket → Bucket
advance n i b = record b {
  available_tokens = min b.capacity (b.available_tokens + n * b.refill_tokens);
  last_refill_at = b.last_refill_at + n * i;
}

advance-zero : (n i : ℕ) (b : Bucket) → IsValid b → n ≡ 0 → advance n i b ≡ b
unfolding advance
advance-zero n i b v e = rw e (ground arith)

advance-advance :
    (m n i : ℕ) (b : Bucket)
    → b.available_tokens ≤ b.capacity
    → advance m i (advance n i b) ≡ advance (n + m) i b
unfolding advance
advance-advance m n i b h = ground arith

module _ (resolution : ℕ) (positive : 1 ≤ resolution) where
  pub interval_pos : (b : Bucket) → IsValid b → 0 < interval resolution b
  interval_pos b v = grind arith

  intervals-zero :
      (b : Bucket) (t : ℕ) → IsValid b → t ≤ b.last_refill_at → intervals resolution b t ≡ 0
  intervals-zero b t v h =
      omega
        (arith, div-mul-le_self (t - b.last_refill_at) (interval resolution b), interval_pos b v)

  -- The two early returns of `refill` are the case of no whole interval.
  pub refill-advance :
      (b : Bucket) (t : ℕ)
      → IsValid b
      → refill resolution b t ≡ advance (intervals resolution b t) (interval resolution b) b
  unfolding refill
  refill-advance b t v = elim (Bool-cases (leb t b.last_refill_at)) [
    | inl early ↦ rw early (sym (advance-zero _ _ b v (intervals-zero b t v (leb→le _ _ early))))
    | inr late ↦ rw late (
        unfold advance in
        ground (arith, advance-zero (intervals resolution b t) (interval resolution b) b v))
  ]

  pub refill-IsValid : (b : Bucket) (t : ℕ) → IsValid b → IsValid (refill resolution b t)
  unfolding refill
  refill-IsValid b t v = ground arith

  pub interval-advance :
      (n i : ℕ) (b : Bucket) → interval resolution (advance n i b) ≡ interval resolution b
  unfolding advance
  interval-advance n i b = refl

  pub intervals-advance :
      (b : Bucket) (s t : ℕ)
      → IsValid b
      → s ≤ t
      → intervals resolution b t
        ≡ intervals resolution b s
          + intervals resolution (advance (intervals resolution b s) (interval resolution b) b) t
  unfolding advance
  intervals-advance b s t v h =
      div_split (interval resolution b) (intervals resolution b s) (t - b.last_refill_at) _
        (interval_pos b v)
        (omega (arith, div-mul-le_self (s - b.last_refill_at) (interval resolution b)))

  -- Refilling is path independent: to look at the bucket in between changes nothing.
  pub refill-refill :
      (b : Bucket) (s t : ℕ)
      → IsValid b
      → s ≤ t
      → refill resolution (refill resolution b s) t ≡ refill resolution b t
  unfolding advance
  refill-refill b s t v h =
      let n = intervals resolution b s in
      let i = interval resolution b in
      let w : IsValid (advance n i b) = rw (refill-advance b s v) at (refill-IsValid b s v) in
      rw (refill-advance b s v, refill-advance (advance n i b) t w, refill-advance b t v)
        (rw (interval-advance n i b, intervals-advance b s t v h)
          (advance-advance (intervals resolution (advance n i b) t) n i b v.within))
