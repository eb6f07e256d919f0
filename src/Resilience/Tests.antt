-- ===== src/Resilience/Tests.antt =====
-- packages/resilience at concrete inputs.
use go_like.Prelude.{
  ◌==◌, not, ℕ, zero, suc, ◌+◌, ◌*◌, ◌≤◌, ◌<◌, ◌≡◌, ◌⊎◌, refl, arith, Bool, true, false, List, [],
  ◌∷◌, none, some, Result, ok, throw, canceled, circuit_open, foreign,
}
use go_like.Resilience.Internal.{
  answered, background, racing, observe, active_context, fires, wait_for_delay,
}
use go_like.Resilience.Limiter.{
  Bucket, new_token_bucket_limiter, intervals, refill, consume, next_refill_in, allow,
}
use go_like.Resilience.Limiter.Refill.{IsValid, refill-refill}
use go_like.Resilience.Limiter.Rate.{count_allowed, count_allowed_bound}
use go_like.Resilience.Limiter.Waiting.{denied_then_allowed}
use go_like.Resilience.Circuit.{
  CircuitBreakerOptions, Circuit, CircuitTicket, closed, opened, half_open, regular, probe, fresh,
  admit, begin, finish, classify, snapshot, record_success, record_failure,
}
use go_like.Resilience.Circuit.Admission.{
  Admits, admit_total, stale_ignored, probe_decides, conclude, verdict, snapshot-admit,
}
use go_like.Resilience.Circuit.Counting.{
  trailing, reaches, after_call, sequential, sequential_opens,
}
use go_like.Resilience.Circuit.Probes.{System, Reach, here, next, admits, live_probes}
use go_like.Resilience.Circuit.Probes.Invariant.{initial, Reach-live_probes}
use go_like.Resilience.Retry.{
  Environment, RetryCall, idempotent, BackoffOptions, Backoff, exponential_backoff, backoff,
  validate_delay, guards, retry, delays, attempt_once, prepare,
}
use go_like.Resilience.Retry.Rounds.{Ends}
use go_like.Resilience.Retry.Loop.{first_outcome, Persistent, retry-Ends, retry-first_outcome}
use go_like.Resilience.Retry.Delays.{backoff_delays}

-- Two tokens at most, one every 10 ms, on a clock of four ticks to the millisecond.
abbrev two_tokens : Bucket
two_tokens = record {
  capacity = 2;
  refill_tokens = 1;
  refill_interval_ms = 10;
  available_tokens = 2;
  last_refill_at = 100;
}

abbrev no_tokens : Bucket
no_tokens = record two_tokens { available_tokens = 0 }

new_limiter :
    new_token_bucket_limiter
      (record { capacity = 2; refill_tokens = 1; refill_interval_ms = 10; initial_tokens = none })
      (some 100)
    ≡ ok two_tokens
unfolding new_token_bucket_limiter
new_limiter = refl

allow_denied :
    allow 4 no_tokens background (some 103)
    ≡ (no_tokens, ok (record { allowed = false; retry_after_ms = 10 }))
unfolding allow consume refill next_refill_in
allow_denied = refl

allow_canceled : allow 4 two_tokens racing (some 103) ≡ (two_tokens, throw canceled)
unfolding allow
allow_canceled = refl

two_tokens-IsValid : IsValid two_tokens
two_tokens-IsValid = omega arith

no_tokens-IsValid : IsValid no_tokens
no_tokens-IsValid = omega arith

refill-refill_example : refill 4 (refill 4 no_tokens 155) 190 ≡ refill 4 no_tokens 190
refill-refill_example =
    refill-refill 4 (omega arith) no_tokens 155 190 no_tokens-IsValid (omega arith)

count_allowed_bound_example :
    count_allowed 4 two_tokens (101 ∷ 102 ∷ 103 ∷ 150 ∷ []) ≤ 2 + intervals 4 two_tokens 150 * 1
count_allowed_bound_example =
    count_allowed_bound 4 (omega arith) two_tokens (101 ∷ 102 ∷ 103 ∷ 150 ∷ []) 150
      two_tokens-IsValid (omega arith)

no_token_at_103 : (consume 4 no_tokens 103).1.allowed ≡ false
unfolding consume refill
no_token_at_103 = refl

denied_then_allowed_example :
    let wait = (consume 4 no_tokens 103).1.retry_after_ms in
    (0 < wait)
    × (wait ≤ 10)
    × ((consume 4 (consume 4 no_tokens 103).0 (103 + wait * 4)).1.allowed ≡ true)
denied_then_allowed_example =
    denied_then_allowed 4 (omega arith) no_tokens 103 no_tokens-IsValid (omega arith)
      no_token_at_103

abbrev breaker : CircuitBreakerOptions
breaker = record { failure_threshold = 2; reset_timeout = 50 }

abbrev tripped : Circuit
tripped = record fresh { state = opened; consecutive_failures = 2; opened_at = 7; generation = 1 }

abbrev probing : Circuit
probing = record tripped { state = half_open; probe_active = true; generation = 2 }

abbrev probe_ticket : CircuitTicket
probe_ticket = record { generation = 2; state = probe }

abbrev old_ticket : CircuitTicket
old_ticket = record { generation = 0; state = regular }

admit_refused : admit breaker tripped 56 ≡ (tripped, throw circuit_open)
unfolding admit
admit_refused = refl

admit_probe : admit breaker tripped 57 ≡ (probing, ok probe_ticket)
unfolding admit
admit_probe = refl

admit_total_example :
    (Admits breaker tripped 57
      × (opened ≡ closed)
      × (admit breaker tripped 57 ≡ (tripped, ok (record { generation = 1; state = regular }))))
    ⊎ (Admits breaker tripped 57
        × ((admit breaker tripped 57).1
            ≡ ok (record { generation = (admit breaker tripped 57).0.generation; state = probe }))
        × ((admit breaker tripped 57).0.state ≡ half_open)
        × ((admit breaker tripped 57).0.probe_active ≡ true))
    ⊎ ((¬ Admits breaker tripped 57) × (admit breaker tripped 57 ≡ (tripped, throw circuit_open)))
admit_total_example = admit_total breaker tripped 57

snapshot-admit_example :
    let (c', seen) = snapshot breaker 4 tripped 20 in
    (admit breaker c' (20 + seen.retry_after_ms * 4)).1
    ≡ ok (record { generation = 2; state = probe })
snapshot-admit_example = snapshot-admit breaker 4 tripped 20 (omega arith) refl

stale_ignored_example :
    ((finish breaker old_ticket probing (throw (foreign 3)) background true (some 60)).0 ≡ probing)
    × ((classify breaker old_ticket probing (foreign 3) (answered true) background (some 60)).0
        ≡ probing)
stale_ignored_example =
    stale_ignored breaker probing old_ticket (throw (foreign 3)) (foreign 3) (answered true)
      background true (some 60) (omega arith)

-- The failure of the probe is one that `isFailure` does not count.
probe_decides_example :
    ((admit breaker probing 58).1 ≡ throw circuit_open)
    × ((admit breaker
          (conclude breaker probe_ticket probing
            (throw (foreign 3))
            background
            (some (answered false))
            background
            (some 60))
          61).1
        ≡ ok (record { generation = 3; state = regular }))
unfolding admit verdict observe
probe_decides_example =
    probe_decides breaker tripped probe_ticket 57 58 60 61 (throw (foreign 3)) background background
      (some (answered false)) (λ e. absurd cc) refl

abbrev outcomes : List (ℕ × Bool)
outcomes = (10, false) ∷ (11, true) ∷ (12, false) ∷ (13, false) ∷ (14, true) ∷ []

outcomes_open : (sequential breaker fresh outcomes).state ≡ opened
unfolding sequential after_call admit record_success record_failure
outcomes_open = refl

sequential_opens_example :
    ((reaches 2 0 outcomes ≡ true) × ((sequential breaker fresh outcomes).state ≡ opened))
    ⊎ ((reaches 2 0 outcomes ≡ false)
        × ((sequential breaker fresh outcomes).state ≡ closed)
        × ((sequential breaker fresh outcomes).consecutive_failures ≡ trailing 0 outcomes))
sequential_opens_example =
    sequential_opens breaker fresh 10 outcomes refl (omega arith) (omega arith)

abbrev one_call : System
one_call = record { circuit = fresh; in_flight = old_ticket ∷ [] }

one_call-Reach : Reach breaker (initial breaker) one_call
unfolding begin admit
one_call-Reach = next here (admits (initial breaker) fresh old_ticket background true (some 3) refl)

Reach-live_probes_example :
    (live_probes 0 (old_ticket ∷ []) ≡ 0)
    × (false ≡ true → closed ≡ half_open)
    × (closed ≡ closed → 0 < 2)
Reach-live_probes_example = Reach-live_probes breaker (omega arith) one_call-Reach

-- An operation that fails twice and then gives 40.
abbrev third_time : ℕ → Result ℕ
third_time zero = throw (foreign 0)
third_time (suc zero) = throw (foreign 1)
third_time (suc (suc zero)) = throw (foreign 2)
third_time (suc (suc (suc n))) = ok 40

abbrev patient : Environment
patient = record {
  operation = third_time;
  operation_settles = λ _. true;
  policy_settles = λ _. true;
  should_retry = λ _ _. answered true;
  backoff = some (λ n. delays (n * 5));
  wait = λ _. fires;
  before = λ _. background;
  after = λ _. background;
  after_policy = λ _. background;
  before_backoff = λ _. background;
  after_backoff = λ _. background;
  before_wait = λ _. background;
}

abbrev plain_call : RetryCall
plain_call = record {
  ctx = background;
  operation_callable = true;
  authorization = idempotent;
  should_retry_callable = true;
  backoff_callable = true;
}

retry_third :
    retry patient 4 plain_call
    ≡ record { result = some (ok 40); attempts = 1 ∷ 2 ∷ 3 ∷ []; waited = 5 ∷ 10 ∷ [] }
unfolding retry attempt_once prepare validate_delay wait_for_delay
retry_third = refl

-- A policy that never answers for the second failure.
silent_policy :
    retry (record patient { policy_settles = λ n. not (n == 2) }) 4 plain_call
    ≡ record { result = none; attempts = 1 ∷ 2 ∷ []; waited = 5 ∷ [] }
unfolding retry attempt_once prepare validate_delay wait_for_delay
silent_policy = refl

retry-Ends_example : Ends patient 4 1 (retry patient 4 plain_call)
retry-Ends_example = retry-Ends patient 4 plain_call

background_active : active_context background ≡ ok tt
unfolding active_context
background_active = refl

-- The same operation with no backoff.
abbrev eager : Environment
eager = record patient { backoff = none }

eager-Persistent : Persistent eager
unfolding observe
eager-Persistent = record {
  operation_settles = λ _. refl;
  policy_settles = λ _. refl;
  before = λ _. background_active;
  after = λ _. refl;
  approves = λ _ _. refl;
  after_policy = λ _. refl;
  before_backoff = λ _. background_active;
  delay = λ _. 0;
  chosen = λ _. refl;
  before_wait = λ _. background_active;
  ends = λ _. refl;
}

guards_pass : guards eager 4 plain_call ≡ ok tt
unfolding retry
guards_pass = refl

retry-first_outcome_example : (retry eager 4 plain_call).result ≡ some (first_outcome eager 3 1)
retry-first_outcome_example = retry-first_outcome eager 4 eager-Persistent plain_call guards_pass

abbrev doubling : BackoffOptions
doubling = record { initial_delay_ms = 100; multiplier = none; max_delay_ms = some 1000 }

abbrev doubles : Backoff
doubles = record { initial_delay_ms = 100; multiplier = 2; max_delay_ms = 1000 }

doubling_accepted : exponential_backoff doubling ≡ ok doubles
unfolding exponential_backoff
doubling_accepted = refl

backoff_runs : backoff doubles 3 ≡ ok 400
unfolding backoff
backoff_runs = refl

backoff_delays_example :
    (d e : ℕ) × (backoff doubles 5 ≡ ok d)
    × (backoff doubles 6 ≡ ok e)
    × (d ≤ e)
    × (e ≤ 1000)
    × (validate_delay e ≡ ok e)
    × (backoff doubles 1 ≡ ok 100)
backoff_delays_example = backoff_delays doubling doubles 4 doubling_accepted (omega arith)
