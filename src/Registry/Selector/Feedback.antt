-- ===== src/Registry/Selector/Feedback.antt =====
-- packages/registry/src/selector.ts: the feedback of the power-of-two-choices selector, and histories
-- of selections and completions. A completion runs to its end before the next one starts.
use go_like.Prelude.{
  ℕ, zero, suc, ◌+◌, ◌-◌, Bool, true, ltb, leb, ◌&&◌, ◌||◌, List, [], ◌∷◌, Option, none, some,
  Result, ok, throw, Thrown, type_error, ◌>>=◌, if◌then◌else◌,
}
use go_like.Registry.Selector.Identity.{ServiceInstance}
use go_like.Registry.Selector.Choices.{
  P2cEndpointState, state_at, update_at, Readings, monotonic_now, SelectionDone, P2cSelector,
  select_p2c,
}

pub record Feedback : Type 0 where
  pub failure_threshold : ℕ
  pub cooldown_ms : ℕ

-- `selectorInteger`, of a number or `undefined`
unfoldable pub selector_integer : Option ℕ → ℕ → ℕ → ℕ → Result ℕ
selector_integer none fallback minimum maximum =
    if ltb fallback minimum || ltb maximum fallback then throw type_error else ok fallback
selector_integer (some value) fallback minimum maximum =
    if ltb value minimum || ltb maximum value then throw type_error else ok value

-- `newP2CSelector`: the threshold and the cooldown, 3 and 10 seconds where none is given.
unfoldable pub feedback_options : Option ℕ → Option ℕ → Result Feedback
unfolding selector_integer
feedback_options configured_threshold configured_cooldown = do
  threshold ← selector_integer configured_threshold 3 1 1000
  cooldown ← selector_integer configured_cooldown 10000 1 2147483647
  ok (record { failure_threshold = threshold; cooldown_ms = cooldown })

-- What a completion reads: the failure of the Context, the outcome as selectionOutcomeError gives it
-- (whether it has an error), the clock.
pub record Completion : Type 0 where
  pub failure : Option Thrown
  pub failed : Result Bool
  pub now : Result (Option ℕ)

unfoldable pub next_failures : Bool → P2cEndpointState → ℕ
next_failures failed s = if failed then s.consecutive_failures + 1 else 0

unfoldable pub deadline : Feedback → Bool → Result (Option ℕ) → P2cEndpointState → Result ℕ
unfolding next_failures monotonic_now
deadline f failed now s =
    if failed && leb f.failure_threshold (next_failures failed s)
    then (monotonic_now now >>= λ n. ok (n + f.cooldown_ms))
    else ok s.cooldown_until

unfoldable pub settled : Bool → ℕ → P2cEndpointState → P2cEndpointState
unfolding next_failures
settled failed until s = record {
  in_flight = s.in_flight - 1;
  consecutive_failures = next_failures failed s;
  cooldown_until = if failed then until else 0;
}

unfoldable pub callback_at : List SelectionDone → ℕ → Option SelectionDone
callback_at [] index = none
callback_at (c ∷ cs) zero = some c
callback_at (c ∷ cs) (suc index) = callback_at cs index

unfoldable pub completed_at : List SelectionDone → ℕ → List SelectionDone
completed_at [] index = []
completed_at (c ∷ cs) zero = record c { completed = true } ∷ cs
completed_at (c ∷ cs) (suc index) = c ∷ completed_at cs index

abbrev pub finished : P2cSelector → ℕ → ℕ → Bool → Result ℕ → P2cSelector × Result (Unit {0})
finished s index address failed (throw failure) = (s, throw failure)
finished s index address failed (ok until) = (
  record s {
    heap = update_at s.heap address (settled failed until);
    callbacks = completed_at s.callbacks index;
  },
  ok tt,
)

-- `settle`
unfoldable pub settle :
    Feedback → Completion → P2cSelector → ℕ → ℕ → Bool → P2cSelector × Result (Unit {0})
unfolding deadline settled update_at completed_at state_at
settle f c s index address failed =
    finished s index address failed (deadline f failed c.now (state_at s.heap address))

abbrev pub by_outcome :
    Feedback → Completion → P2cSelector → ℕ → ℕ → Result Bool → P2cSelector × Result (Unit {0})
by_outcome f c s index address (throw failure) = (s, throw failure)
by_outcome f c s index address (ok failed) = settle f c s index address failed

abbrev pub by_context :
    Feedback → Completion → P2cSelector → ℕ → ℕ → Option Thrown → P2cSelector × Result (Unit {0})
by_context f c s index address (some failure) = (s, throw failure)
by_context f c s index address none = by_outcome f c s index address c.failed

abbrev pub by_callback :
    Feedback → Completion → P2cSelector → ℕ → Option SelectionDone → P2cSelector × Result (Unit {0})
by_callback f c s index none = (s, ok tt)
by_callback f c s index (some callback) =
    if callback.completed then (s, ok tt) else by_context f c s index callback.address c.failure

-- `complete`, of the callback at an index
unfoldable pub complete : Feedback → Completion → ℕ → P2cSelector → P2cSelector × Result (Unit {0})
unfolding settle callback_at
complete f c index s = by_callback f c s index (callback_at s.callbacks index)

pub data Call : Type 0 where
  selecting : Readings → List ServiceInstance → Call
  completing : Completion → ℕ → Call

unfoldable pub after : Feedback → Call → P2cSelector → P2cSelector
unfolding select_p2c complete
after f (selecting r instances) s = (select_p2c r instances s).0
after f (completing c index) s = (complete f c index s).0

unfoldable pub after_all : Feedback → List Call → P2cSelector → P2cSelector
unfolding after
after_all f [] s = s
after_all f (call ∷ calls) s = after_all f calls (after f call s)
