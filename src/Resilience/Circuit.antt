-- ===== src/Resilience/Circuit.antt =====
-- packages/resilience/src/circuit.ts: the breaker of `newCircuitBreaker`.
-- Its mutable variables are the record `Circuit`, and each inner function returns the new one.
-- `execute` waits twice, for the operation and for `isFailure`, and other calls run meanwhile:
-- it is the three steps `begin`, `finish` and `classify`.
-- Instants and the reset timeout are in clock ticks, `resolution` of them to the millisecond.
pub mod Admission
pub mod Counting
pub mod Probes
use go_like.Prelude.{
  ℕ, ◌+◌, ◌-◌, ◌/◌, Bool, true, false, ◌&&◌, if◌then◌else◌, ltb, leb, ◌==◌, Option, none, some,
  Result, ok, throw, Thrown, type_error, range_error, circuit_open, ◌>>=◌, ◌>>◌, require,
}
use go_like.Resilience.Internal.{
  Context, Answer, answered, not_a_boolean, rejected, active_context, observe, monotonic_now,
}
use go_like.Resilience.Limiter.{max_safe_integer}

-- The state that the source calls "open" is `opened`.
pub data CircuitState : Type 0 where
  closed opened half_open : CircuitState

pub data TicketState : Type 0 where
  regular probe : TicketState

-- The ticket of a call admitted in the closed state is `regular`, in the half-open state `probe`.
pub record CircuitTicket : Type 0 where
  pub generation : ℕ
  pub state : TicketState

pub record CircuitBreakerOptions : Type 0 where
  pub failure_threshold : ℕ
  pub reset_timeout : ℕ

pub record Circuit : Type 0 where
  pub state : CircuitState
  pub consecutive_failures : ℕ
  pub opened_at : ℕ
  pub probe_active : Bool
  pub generation : ℕ

pub record CircuitSnapshot : Type 0 where
  pub state : CircuitState
  pub consecutive_failures : ℕ
  pub probe_active : Bool
  pub retry_after_ms : ℕ

abbrev pub fresh : Circuit
fresh = record {
  state = closed;
  consecutive_failures = 0;
  opened_at = 0;
  probe_active = false;
  generation = 0;
}

unfoldable pub new_circuit_breaker : CircuitBreakerOptions → Result Circuit
new_circuit_breaker options = do
  require (leb 1 options.failure_threshold && leb options.failure_threshold max_safe_integer)
      range_error
  ok fresh

abbrev pub is_open : CircuitState → Bool
is_open opened = true
is_open _ = false

-- The rest of `execute` for one admitted call: a result for the caller, or the wait for the
-- answer of `isFailure`.
pub data Progress : Type 0 where
  settled : Result ℕ → Progress
  classifying : Thrown → Progress

abbrev pub is_probe : TicketState → Bool
is_probe probe = true
is_probe regular = false

module _ (options : CircuitBreakerOptions) where
  -- `observedAt - openedAt < resetTimeoutMs`, where the difference may be negative
  unfoldable pub refresh : Circuit → ℕ → Circuit
  refresh c observed_at =
      if is_open c.state && leb (c.opened_at + options.reset_timeout) observed_at
      then record c { state = half_open; probe_active = false; generation = c.generation + 1 }
      else c

  admit_in : CircuitState → Circuit → Circuit × Result CircuitTicket
  admit_in opened c = (c, throw circuit_open)
  admit_in half_open c = if c.probe_active then (c, throw circuit_open) else (
    record c { probe_active = true },
    ok (record { generation = c.generation; state = probe }),
  )
  admit_in closed c = (c, ok (record { generation = c.generation; state = regular }))

  unfoldable pub admit : Circuit → ℕ → Circuit × Result CircuitTicket
  unfolding refresh admit_in
  admit c observed_at = let r = refresh c observed_at in admit_in r.state r

  unfoldable pub open_circuit : Circuit → ℕ → Circuit
  open_circuit c observed_at = record c {
    state = opened;
    opened_at = observed_at;
    probe_active = false;
    generation = c.generation + 1;
  }

  success_of : TicketState → Circuit → Circuit
  success_of probe c = record c {
    state = closed;
    probe_active = false;
    consecutive_failures = 0;
    generation = c.generation + 1;
  }
  success_of regular c = record c { consecutive_failures = 0 }

  unfoldable pub record_success : CircuitTicket → Circuit → Circuit
  unfolding success_of
  record_success ticket c =
      if ticket.generation == c.generation then success_of ticket.state c else c

  -- `openCircuit(monotonicNow())`; a clock that is not finite throws before anything changes.
  open_now : Circuit → Result ℕ → Circuit × Option Thrown
  unfolding open_circuit
  open_now c (ok now) = (open_circuit c now, none)
  open_now c (throw e) = (c, some e)

  failure_of : TicketState → Circuit → Result ℕ → Circuit × Option Thrown
  unfolding open_now
  failure_of probe c now = open_now c now
  failure_of regular c now =
      let c' = record c { consecutive_failures = c.consecutive_failures + 1 } in
      if leb options.failure_threshold c'.consecutive_failures then open_now c' now else (c', none)

  unfoldable pub record_failure : CircuitTicket → Circuit → Option ℕ → Circuit × Option Thrown
  unfolding failure_of monotonic_now
  record_failure ticket c clock =
      if ticket.generation == c.generation
      then failure_of ticket.state c (monotonic_now clock)
      else (c, none)

  unfoldable pub record_neutral : CircuitTicket → Circuit → Circuit
  record_neutral ticket c =
      if (ticket.generation == c.generation) && is_probe ticket.state
      then record c { probe_active = false }
      else c

  -- A clock error takes the place of the failure that was to be thrown.
  abbrev thrown_after : Circuit × Option Thrown → Thrown → Circuit × Result ℕ
  thrown_after (c, none) failure = (c, throw failure)
  thrown_after (c, some clock_error) failure = (c, throw clock_error)

  -- `execute` up to `await operation(ctx)`: the guards, then the admission.
  guards : Context → Bool → Option ℕ → Result ℕ
  unfolding active_context monotonic_now
  guards ctx callable clock = do
    active_context ctx
    require callable type_error
    monotonic_now clock

  unfoldable pub begin : Circuit → Context → Bool → Option ℕ → Circuit × Result CircuitTicket
  unfolding guards
  begin c ctx callable clock = elim (guards ctx callable clock) [
    | ok now ↦ admit c now
    | throw e ↦ (c, throw e)
  ]

  -- `observedContextFailure`, and the branch that releases a canceled probe.
  unless_canceled :
      Result (Option Thrown) → CircuitTicket → Circuit → Circuit × Progress → Circuit × Progress
  unless_canceled (throw e) ticket c next = (record_neutral ticket c, settled (throw e))
  unless_canceled (ok (some e)) ticket c next = (record_neutral ticket c, settled (throw e))
  unless_canceled (ok none) ticket c next = next

  settle_failure : CircuitTicket → Circuit → Option ℕ → Thrown → Circuit × Progress
  settle_failure ticket c clock failure =
      let (c', result) = thrown_after (record_failure ticket c clock) failure in
      (c', settled result)

  -- The operation has settled. `classifies` says whether the options have an `isFailure`.
  unfoldable pub finish :
      CircuitTicket → Circuit → Result ℕ → Context → Bool → Option ℕ → Circuit × Progress
  unfolding unless_canceled settle_failure
  finish ticket c (ok value) ctx classifies clock = (record_success ticket c, settled (ok value))
  finish ticket c (throw failure) ctx classifies clock =
      unless_canceled (observe ctx) ticket c
        (if classifies then (c, classifying failure) else settle_failure ticket c clock failure)

  classified : Answer → CircuitTicket → Circuit → Option ℕ → Thrown → Circuit × Progress
  unfolding settle_failure
  classified (rejected e) ticket c clock failure = settle_failure ticket c clock e
  classified not_a_boolean ticket c clock failure = settle_failure ticket c clock type_error
  classified (answered true) ticket c clock failure = settle_failure ticket c clock failure
  classified (answered false) ticket c clock failure =
      (record_success ticket c, settled (throw failure))

  -- `isFailure` has answered for the failure of the operation.
  unfoldable pub classify :
      CircuitTicket → Circuit → Thrown → Answer → Context → Option ℕ → Circuit × Progress
  unfolding unless_canceled classified
  classify ticket c failure answer ctx clock =
      unless_canceled (observe ctx) ticket c (classified answer ticket c clock failure)

  module _ (resolution : ℕ) where
    -- `Math.max(0, Math.ceil(openedAt + resetTimeoutMs - observedAt))`
    abbrev pub retry_after : Circuit → ℕ → ℕ
    retry_after c observed_at =
        (c.opened_at + options.reset_timeout - observed_at + (resolution - 1)) / resolution

    unfoldable pub snapshot : Circuit → ℕ → Circuit × CircuitSnapshot
    snapshot c observed_at =
        let r = refresh c observed_at in
        (
          r,
          record {
            state = r.state;
            consecutive_failures = r.consecutive_failures;
            probe_active = r.probe_active;
            retry_after_ms = if is_open r.state then retry_after r observed_at else 0;
          },
        )
