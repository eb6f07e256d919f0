-- ===== src/Resilience/Internal.antt =====
-- packages/resilience/src/internal.ts: how the policies read a caller's Context and the clock.
-- A Context is foreign code, so a call observes it through the values that its members return.
use go_like.Prelude.{
  ℕ, ◌≡◌, refl, Bool, true, Option, none, some, Result, ok, throw, Thrown, type_error, range_error,
  canceled, ◌>>=◌, ◌>>◌, require, if◌then◌else◌, ◌==◌,
}

-- What `ctx.done()` returns: null, a value that is no AbortSignal, or a signal with its
-- `aborted` flag at the time of reading.
pub data DoneValue : Type 0 where
  null malformed : DoneValue
  signal : Bool → DoneValue

-- What `ctx.err()` does: return null, an Error, some other value, or throw.
pub data ErrValue : Type 0 where
  none_yet not_an_error : ErrValue
  error throws : Thrown → ErrValue

pub record Context : Type 0 where
  pub is_object : Bool
  pub has_methods : Bool
  pub done : DoneValue
  pub err : ErrValue

-- What a caller's predicate, `isFailure` or `shouldRetry`, comes to.
pub data Answer : Type 0 where
  answered : Bool → Answer
  not_a_boolean : Answer
  rejected : Thrown → Answer

-- How the wait of `waitForDelay` ends: the timer fires, or the signal does, at which time the
-- Context is read again.
pub data WaitEnd : Type 0 where
  fires : WaitEnd
  aborts : Context → WaitEnd

pub record ContextState : Type 0 where
  pub err : ErrValue
  pub signal_aborted : Option Bool

check_done : DoneValue → Result (Option Bool)
check_done DoneValue.null = ok none
check_done DoneValue.malformed = throw type_error
check_done (DoneValue.signal aborted) = ok (some aborted)

pub inspect_context : Context → Result ContextState
unfolding check_done
inspect_context ctx = do
  require ctx.is_object type_error
  require ctx.has_methods type_error
  aborted ← check_done ctx.done
  ok (record { err = ctx.err; signal_aborted = aborted })

abort_failure : Option Bool → Option Thrown
abort_failure (some true) = some canceled
abort_failure _ = none

read_err : ErrValue → Option Bool → Result (Option Thrown)
unfolding abort_failure
read_err none_yet aborted = ok (abort_failure aborted)
read_err not_an_error aborted = throw type_error
read_err (error e) aborted = ok (some e)
read_err (throws e) aborted = throw e

pub read_context_failure : ContextState → Result (Option Thrown)
unfolding read_err
read_context_failure state = read_err state.err state.signal_aborted

-- `readContextFailure(inspectContext(ctx))`
unfoldable pub observe : Context → Result (Option Thrown)
unfolding inspect_context read_context_failure
observe ctx = inspect_context ctx >>= read_context_failure

throw_failure : Option Thrown → Result (Unit {0})
throw_failure none = ok tt
throw_failure (some e) = throw e

unfoldable pub active_context : Context → Result (Unit {0})
unfolding observe throw_failure
active_context ctx = observe ctx >>= throw_failure

-- `readContextFailure(state) ?? canceled` becomes the rejection; so does what reading throws.
cancel_delay : Result (Option Thrown) → Result (Unit {0})
cancel_delay (ok none) = throw canceled
cancel_delay (ok (some e)) = throw e
cancel_delay (throw e) = throw e

wait_end : WaitEnd → Result (Unit {0})
unfolding cancel_delay observe
wait_end fires = ok tt
wait_end (aborts ctx) = cancel_delay (observe ctx)

unfoldable pub wait_for_delay : Context → ℕ → WaitEnd → Result (Unit {0})
unfolding active_context wait_end
wait_for_delay ctx delay_ms ending = do
  active_context ctx
  if delay_ms == 0 then ok tt else wait_end ending

-- `performance.now()` in ticks; `none` where it is not finite.
unfoldable pub monotonic_now : Option ℕ → Result ℕ
monotonic_now none = throw range_error
monotonic_now (some now) = ok now

-- A Context that is well formed and not canceled.
abbrev pub background : Context
background = record { is_object = true; has_methods = true; done = DoneValue.null; err = none_yet }

-- A Context whose signal fired before its error could be read.
abbrev pub racing : Context
racing = record {
  is_object = true;
  has_methods = true;
  done = DoneValue.signal true;
  err = none_yet;
}

pub background_active : active_context background ≡ ok tt
unfolding active_context
background_active = refl
