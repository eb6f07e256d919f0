-- ===== src/Resilience/Retry.antt =====
-- packages/resilience/src/retry.ts: `exponentialBackoff` and `retry`.
-- Delays are whole milliseconds and the multiplier is a whole number; in the source both may have
-- a fraction. The caller's code and the Context are foreign: `Environment` says what they do at
-- each attempt, and the loop takes it as an argument.
pub mod Delays
pub mod Rounds
pub mod Loop
use go_like.Prelude.{
  ℕ, zero, suc, ◌+◌, ◌-◌, ◌*◌, ◌^◌, min, Bool, true, false, ◌&&◌, if◌then◌else◌, leb, ◌==◌, List,
  [], ◌∷◌, Option, none, some, Result, ok, throw, Thrown, type_error, range_error, ◌>>=◌, ◌>>◌,
  require,
}
use go_like.Resilience.Internal.{
  Context, Answer, answered, not_a_boolean, rejected, WaitEnd, active_context, observe,
  wait_for_delay,
}
use go_like.Resilience.Limiter.{max_safe_integer}

abbrev pub maximum_timer_delay : ℕ
maximum_timer_delay = 2147483647

unfoldable pub validate_delay : ℕ → Result ℕ
validate_delay value = if leb value maximum_timer_delay then ok value else throw range_error

pub record BackoffOptions : Type 0 where
  pub initial_delay_ms : ℕ
  pub multiplier : Option ℕ
  pub max_delay_ms : Option ℕ

-- What the closure of `exponentialBackoff` captures.
pub record Backoff : Type 0 where
  pub initial_delay_ms : ℕ
  pub multiplier : ℕ
  pub max_delay_ms : ℕ

abbrev or_else : Option ℕ → ℕ → ℕ
or_else none n = n
or_else (some m) n = m

unfoldable pub exponential_backoff : BackoffOptions → Result Backoff
unfolding validate_delay
exponential_backoff options = do
  initial_delay_ms ← validate_delay options.initial_delay_ms
  let multiplier = or_else options.multiplier 2
  max_delay_ms ← validate_delay (or_else options.max_delay_ms maximum_timer_delay)
  require (leb 1 multiplier) range_error
  require (leb initial_delay_ms max_delay_ms) range_error
  ok (record {
    initial_delay_ms = initial_delay_ms;
    multiplier = multiplier;
    max_delay_ms = max_delay_ms;
  })

unfoldable pub backoff : Backoff → ℕ → Result ℕ
backoff b attempt = do
  require (leb 1 attempt && leb attempt max_safe_integer) range_error
  if b.initial_delay_ms == 0
      then ok 0
      else ok (min (b.initial_delay_ms * b.multiplier ^ (attempt - 1)) b.max_delay_ms)

-- What the caller's backoff function comes to: a finite number that is not negative, some other
-- number, or an exception.
pub data DelayAnswer : Type 0 where
  delays : ℕ → DelayAnswer
  not_a_delay : DelayAnswer
  raises : Thrown → DelayAnswer

-- Everything foreign, by the number of the attempt: what the promises of the operation and of the
-- policy settle with, and whether they ever settle; the backoff, the end of each wait, and the Context as it is read before the attempt, after it, after the policy,
-- before the backoff, after the backoff and at the start of the wait.
pub record Environment : Type 0 where
  pub operation : ℕ → Result ℕ
  pub operation_settles : ℕ → Bool
  pub should_retry : ℕ → Thrown → Answer
  pub policy_settles : ℕ → Bool
  pub backoff : Option (ℕ → DelayAnswer)
  pub wait : ℕ → WaitEnd
  pub before : ℕ → Context
  pub after : ℕ → Context
  pub after_policy : ℕ → Context
  pub before_backoff : ℕ → Context
  pub after_backoff : ℕ → Context
  pub before_wait : ℕ → Context

-- `options.authorization`, which may be any value at run time.
pub data RetryAuthorization : Type 0 where
  idempotent caller_approved unknown : RetryAuthorization

abbrev pub is_authorization : RetryAuthorization → Bool
is_authorization unknown = false
is_authorization _ = true

-- What `retry` tests before the first attempt; an absent backoff counts as callable.
pub record RetryCall : Type 0 where
  pub ctx : Context
  pub operation_callable : Bool
  pub authorization : RetryAuthorization
  pub should_retry_callable : Bool
  pub backoff_callable : Bool

-- The outcome of an attempt: the promise settles, the next attempt follows a delay, or the promise
-- pends with one that never settles.
pub data Next : Type 0 where
  pends : Next
  stop : Result ℕ → Next
  again : ℕ → Next

pub record Run : Type 0 where
  pub result : Option (Result ℕ)
  pub attempts : List ℕ
  pub waited : List ℕ

-- `if (terminal !== null) throw terminal`, where the reading itself may throw.
abbrev pub unless_failed {ℓ} : {A : Type ℓ} → Result (Option Thrown) → Result A → Result A
unless_failed (throw e) next = throw e
unless_failed (ok (some e)) next = throw e
unless_failed (ok none) next = next

-- A predicate that does not approve gives the failure itself.
abbrev approved : Answer → Context → Thrown → Result (Unit {0})
approved (rejected e) ctx failure = unless_failed (observe ctx) (throw e)
approved not_a_boolean ctx failure = unless_failed (observe ctx) (throw type_error)
approved (answered false) ctx failure = unless_failed (observe ctx) (throw failure)
approved (answered true) ctx failure = unless_failed (observe ctx) (ok tt)

abbrev pub observed_delay : DelayAnswer → Context → Result ℕ
observed_delay (raises e) ctx = unless_failed (observe ctx) (throw e)
observed_delay not_a_delay ctx = unless_failed (observe ctx) (throw range_error)
observed_delay (delays d) ctx = unless_failed (observe ctx) (validate_delay d)

abbrev pub chosen_delay : Option (ℕ → DelayAnswer) → ℕ → Context → Result ℕ
chosen_delay none attempt ctx = ok 0
chosen_delay (some f) attempt ctx = observed_delay (f attempt) ctx

module _ (env : Environment) (max_attempts : ℕ) where
  -- The catch block behind the first two tests, up to the end of the wait: the delay.
  unfoldable pub prepare : ℕ → Thrown → Result ℕ
  prepare attempt failure = do
    approved (env.should_retry attempt failure) (env.after_policy attempt) failure
    active_context (env.before_backoff attempt)
    delay_ms ← chosen_delay env.backoff attempt (env.after_backoff attempt)
    wait_for_delay (env.before_wait attempt) delay_ms (env.wait attempt)
    ok delay_ms

  next_of : Result ℕ → Next
  next_of (ok delay) = again delay
  next_of (throw e) = stop (throw e)

  -- The first two tests of the catch block.
  may_continue : ℕ → Thrown → Result (Unit {0})
  may_continue attempt failure =
      unless_failed (observe (env.after attempt))
        (if attempt == max_attempts then throw failure else ok tt)

  after_failure : ℕ → Thrown → Next
  unfolding next_of may_continue
  after_failure attempt failure = elim (may_continue attempt failure) [
    | throw e ↦ stop (throw e)
    | ok _ ↦ if env.policy_settles attempt then next_of (prepare attempt failure) else pends
  ]

  -- One attempt.
  unfoldable pub attempt_once : ℕ → Next
  unfolding after_failure
  attempt_once attempt =
      if env.operation_settles attempt
      then elim (env.operation attempt) [
        | ok value ↦ stop (ok value)
        | throw failure ↦ after_failure attempt failure
      ]
      else pends

  abbrev continue : ℕ → Next → Run → Run
  continue attempt pends rest = record { result = none; attempts = attempt ∷ []; waited = [] }
  continue attempt (stop r) rest = record { result = some r; attempts = attempt ∷ []; waited = [] }
  continue attempt (again delay) rest = record {
    result = rest.result;
    attempts = attempt ∷ rest.attempts;
    waited = delay ∷ rest.waited;
  }

  -- `runAttempt` with fuel; no result means that the promise pends for ever or that the fuel ran out.
  unfoldable pub run_attempt : ℕ → ℕ → Run
  run_attempt zero attempt = record { result = none; attempts = []; waited = [] }
  run_attempt (suc fuel) attempt =
      let rest = run_attempt fuel (attempt + 1) in
      elim (active_context (env.before attempt)) [
        | throw e ↦ record { result = some (throw e); attempts = []; waited = [] }
        | ok _ ↦ continue attempt (attempt_once attempt) rest
      ]

  pub guards : RetryCall → Result (Unit {0})
  unfolding active_context
  guards call = do
    active_context call.ctx
    require call.operation_callable type_error
    require (is_authorization call.authorization) type_error
    require (leb 1 max_attempts && leb max_attempts max_safe_integer) range_error
    require call.should_retry_callable type_error
    require call.backoff_callable type_error

  -- `retry`, with as much fuel as there may be attempts.
  unfoldable pub retry : RetryCall → Run
  unfolding guards run_attempt
  retry call = elim (guards call) [
    | ok _ ↦ run_attempt max_attempts 1
    | throw e ↦ record { result = some (throw e); attempts = []; waited = [] }
  ]
