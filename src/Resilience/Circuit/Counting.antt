-- ===== src/Resilience/Circuit/Counting.antt =====
-- How packages/resilience/src/circuit.ts counts consecutive failures.
use go_like.Prelude.{
  ℕ, ◌+◌, ◌≤◌, ◌<◌, ◌≡◌, Bool, true, false, if◌then◌else◌, some, ok, throw, arith, List, [], ◌∷◌,
  All, leb, ◌⊎◌, Bool-cases,
}
use go_like.Resilience.Circuit.{
  CircuitBreakerOptions, Circuit, closed, opened, admit, record_success, record_failure,
}

-- The length of the run of failures that a history of outcomes ends in, when a run of `n` precedes
-- it; an outcome is an instant and whether the call succeeded.
unfoldable pub trailing : ℕ → List (ℕ × Bool) → ℕ
trailing n [] = n
trailing n ((_, succeeded) ∷ rest) = trailing (if succeeded then 0 else n + 1) rest

-- Whether some run of failures in the history, counted so, is as long as the threshold.
unfoldable pub reaches : ℕ → ℕ → List (ℕ × Bool) → Bool
reaches threshold n [] = false
reaches threshold n ((_, succeeded) ∷ rest) =
    let n' = if succeeded then 0 else n + 1 in
    let later = reaches threshold n' rest in if leb threshold n' then true else later

module _ (options : CircuitBreakerOptions) where
  -- The effect of one call on the circuit when nothing runs beside it.
  unfoldable pub after_call : Circuit → ℕ × Bool → Circuit
  after_call c (now, succeeded) = elim (admit options c now).1 [
    | ok ticket ↦
        if succeeded
        then record_success options ticket (admit options c now).0
        else (record_failure options ticket (admit options c now).0 (some now)).0
    | throw e ↦ (admit options c now).0
  ]

  unfoldable pub sequential : Circuit → List (ℕ × Bool) → Circuit
  sequential c [] = c
  sequential c (call ∷ rest) = sequential (after_call c call) rest

  -- All instants lie in a window shorter than the reset timeout.
  abbrev pub Within : ℕ → List (ℕ × Bool) → Type 0
  Within start = All (λ call. (start ≤ call.0) × (call.0 < start + options.reset_timeout))

  opened_after_call :
      (c : Circuit) (now start : ℕ) (succeeded : Bool)
      → c.state ≡ opened
      → start ≤ c.opened_at
      → now < start + options.reset_timeout
      → after_call c (now, succeeded) ≡ c
  unfolding after_call admit
  opened_after_call c now start succeeded o h k = ground arith

  opened_stays :
      (c : Circuit) (start : ℕ) (calls : List (ℕ × Bool))
      → c.state ≡ opened
      → start ≤ c.opened_at
      → Within start calls
      → (sequential c calls).state ≡ opened
  unfolding sequential
  opened_stays c start [] o h w = o
  opened_stays c start ((now, s) ∷ rest) o h w =
      ground (arith, opened_after_call c now start s, opened_stays c start rest o h w.1)

  closed_after_call :
      (c : Circuit) (now start : ℕ) (s : Bool)
      → c.state ≡ closed
      → start ≤ now
      → let n' = if s then 0 else c.consecutive_failures + 1 in
        let c' = after_call c (now, s) in
        (leb options.failure_threshold n' ≡ true
          → s ≡ false
          → (c'.state ≡ opened) × (start ≤ c'.opened_at))
        × (leb options.failure_threshold n' ≡ false
            → (c'.state ≡ closed) × (c'.consecutive_failures ≡ n'))
  unfolding after_call admit record_success record_failure
  closed_after_call c now start s o h = ground arith

  sequential_cases :
      (c : Circuit) (start : ℕ) (calls : List (ℕ × Bool))
      → c.state ≡ closed
      → 1 ≤ options.failure_threshold
      → Within start calls
      → (reaches options.failure_threshold c.consecutive_failures calls ≡ true
          → (sequential c calls).state ≡ opened)
        × (reaches options.failure_threshold c.consecutive_failures calls ≡ false
            → ((sequential c calls).state ≡ closed)
              × ((sequential c calls).consecutive_failures ≡ trailing c.consecutive_failures calls))
  unfolding sequential reaches trailing
  sequential_cases c start [] o h w = ground arith
  sequential_cases c start ((now, s) ∷ rest) o h w = ground (
    arith,
    closed_after_call c now start s o w.0.0,
    opened_stays (after_call c (now, s)) start rest,
    sequential_cases (after_call c (now, s)) start rest,
  )

  -- From a closed circuit, calls made one after another within less than a reset timeout open the
  -- circuit exactly when some run of consecutive failures, the ones already counted included,
  -- is as long as the threshold; otherwise it stays closed and its counter is the length of the
  -- run of failures at the end.
  pub sequential_opens :
      (c : Circuit) (start : ℕ) (calls : List (ℕ × Bool))
      → c.state ≡ closed
      → 1 ≤ options.failure_threshold
      → Within start calls
      → ((reaches options.failure_threshold c.consecutive_failures calls ≡ true)
          × ((sequential c calls).state ≡ opened))
        ⊎ ((reaches options.failure_threshold c.consecutive_failures calls ≡ false)
            × ((sequential c calls).state ≡ closed)
            × ((sequential c calls).consecutive_failures ≡ trailing c.consecutive_failures calls))
  sequential_opens c start calls o h w = ground (
    arith,
    sequential_cases c start calls o h w,
    Bool-cases (reaches options.failure_threshold c.consecutive_failures calls),
  )
