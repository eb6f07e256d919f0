-- ===== src/Resilience/Limiter.antt =====
-- packages/resilience/src/limiter.ts: the token bucket of `newTokenBucketLimiter`.
-- An instant is a number of clock ticks, `resolution` of them to the millisecond: the clock
-- reads fractions of a millisecond, and the interval is a whole number of milliseconds.
pub mod Refill
pub mod Rate
pub mod Waiting
use go_like.Prelude.{
  ℕ, ◌+◌, ◌-◌, ◌*◌, ◌/◌, min, Bool, true, false, ◌&&◌, if◌then◌else◌, ltb, leb, Option, none, some,
  Result, ok, throw, range_error, ◌>>=◌, ◌>>◌, require,
}
use go_like.Resilience.Internal.{Context, active_context, monotonic_now}

-- `Number.MAX_SAFE_INTEGER`
abbrev pub max_safe_integer : ℕ
max_safe_integer = 9007199254740991

pub record TokenBucketOptions : Type 0 where
  pub capacity : ℕ
  pub refill_tokens : ℕ
  pub refill_interval_ms : ℕ
  pub initial_tokens : Option ℕ

pub record Bucket : Type 0 where
  pub capacity : ℕ
  pub refill_tokens : ℕ
  pub refill_interval_ms : ℕ
  pub available_tokens : ℕ
  pub last_refill_at : ℕ

pub record RateLimitDecision : Type 0 where
  pub allowed : Bool
  pub retry_after_ms : ℕ

pub record RateLimiterSnapshot : Type 0 where
  pub available_tokens : ℕ
  pub capacity : ℕ
  pub next_refill_in_ms : ℕ

unfoldable pub positive_integer : ℕ → Result ℕ
positive_integer value =
    if leb 1 value && leb value max_safe_integer then ok value else throw range_error

-- `options.initialTokens ?? capacity`
abbrev or_capacity : Option ℕ → ℕ → ℕ
or_capacity none capacity = capacity
or_capacity (some n) capacity = n

-- The validation, and the state in which the limiter starts.
unfoldable pub new_token_bucket_limiter : TokenBucketOptions → Option ℕ → Result Bucket
unfolding positive_integer monotonic_now
new_token_bucket_limiter options clock = do
  capacity ← positive_integer options.capacity
  refill_tokens ← positive_integer options.refill_tokens
  refill_interval_ms ← positive_integer options.refill_interval_ms
  let initial_tokens = or_capacity options.initial_tokens capacity
  require (leb initial_tokens capacity) range_error
  now ← monotonic_now clock
  ok (record {
    capacity = capacity;
    refill_tokens = refill_tokens;
    refill_interval_ms = refill_interval_ms;
    available_tokens = initial_tokens;
    last_refill_at = now;
  })

module _ (resolution : ℕ) where
  -- The refill interval in ticks.
  abbrev pub interval : Bucket → ℕ
  interval b = b.refill_interval_ms * resolution

  -- `Math.floor((observedAt - lastRefillAt) / refillIntervalMs)`
  abbrev pub intervals : Bucket → ℕ → ℕ
  intervals b observed_at = (observed_at - b.last_refill_at) / interval b

  unfoldable pub refill : Bucket → ℕ → Bucket
  refill b observed_at =
      if leb observed_at b.last_refill_at
      then b
      else if ltb (intervals b observed_at) 1
      then b
      else record b {
        available_tokens =
            min b.capacity (b.available_tokens + intervals b observed_at * b.refill_tokens);
        last_refill_at = b.last_refill_at + intervals b observed_at * interval b;
      }

  -- `Math.ceil` of a number of ticks, in milliseconds.
  abbrev pub ceil_ms : ℕ → ℕ
  ceil_ms ticks = (ticks + (resolution - 1)) / resolution

  unfoldable pub next_refill_in : Bucket → ℕ → ℕ
  next_refill_in b observed_at = ceil_ms (interval b - (observed_at - b.last_refill_at))

  -- The part of `allow` behind its two guards.
  unfoldable pub consume : Bucket → ℕ → Bucket × RateLimitDecision
  consume b observed_at =
      let r = refill b observed_at in
      if ltb 0 r.available_tokens
      then (
        record r { available_tokens = r.available_tokens - 1 },
        record { allowed = true; retry_after_ms = 0 },
      )
      else (r, record { allowed = false; retry_after_ms = next_refill_in r observed_at })

  -- The two guards throw before the bucket is touched.
  admitted_at : Context → Option ℕ → Result ℕ
  unfolding active_context monotonic_now
  admitted_at ctx clock = do active_context ctx; monotonic_now clock

  unfoldable pub allow : Bucket → Context → Option ℕ → Bucket × Result RateLimitDecision
  unfolding admitted_at
  allow b ctx clock = elim (admitted_at ctx clock) [
    | ok observed_at ↦ let (b', decision) = consume b observed_at in (b', ok decision)
    | throw e ↦ (b, throw e)
  ]

  unfoldable pub snapshot : Bucket → ℕ → Bucket × RateLimiterSnapshot
  snapshot b observed_at =
      let r = refill b observed_at in
      (
        r,
        record {
          available_tokens = r.available_tokens;
          capacity = r.capacity;
          next_refill_in_ms = next_refill_in r observed_at;
        },
      )
