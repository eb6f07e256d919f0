-- ===== src/Resilience/Retry/Rounds.antt =====
-- The attempts of `retry` in packages/resilience/src/retry.ts, one after another.
use go_like.Prelude.{
  ℕ, zero, suc, ◌+◌, ◌≤◌, ◌≡◌, ◌≢◌, ◌⊎◌, inl, inr, refl, ap, List, [], ◌∷◌, Option, Bool-cases,
  some, true, false, Result, ok, throw, Thrown, Result-cases, arith, length,
}
use go_like.Resilience.Internal.{answered, active_context}
use go_like.Resilience.Retry.{
  Environment, RetryCall, Next, stop, again, pends, Run, prepare, attempt_once, run_attempt, guards,
}

-- The numbers from `a` on, `k` of them.
unfoldable pub range_from : ℕ → ℕ → List ℕ
range_from zero a = []
range_from (suc k) a = a ∷ range_from k (a + 1)

-- Behind every attempt but the last stand a failure and the policy's consent to retry it.
abbrev pub Approved : Environment → List ℕ → Type 0
Approved env [] = Unit
Approved env (a ∷ []) = Unit
Approved env (a ∷ b ∷ rest) =
    ((failure : Thrown) × (env.operation a ≡ throw failure)
      × (env.should_retry a failure ≡ answered true))
    × Approved env (b ∷ rest)

-- An attempt waits for the promise of the operation, or has failed and waits for that of the policy.
abbrev pub PendsAt : Environment → ℕ → Type 0
PendsAt env a =
    (env.operation_settles a ≡ false)
    ⊎ ((env.policy_settles a ≡ false) × ((failure : Thrown) × (env.operation a ≡ throw failure)))

-- The last attempt waits for a promise that never settles.
abbrev pub Pends : Environment → List ℕ → Type 0
Pends env [] = ⊥
Pends env (a ∷ []) = PendsAt env a
Pends env (a ∷ b ∷ rest) = Pends env (b ∷ rest)

-- A run of attempts numbered from `a` on, `fuel` of them at most.
pub record Ends (env : Environment) (fuel a : ℕ) (r : Run) : Type 0 where
  pub settled : ((x : Result ℕ) × (r.result ≡ some x)) ⊎ Pends env r.attempts
  pub numbered : r.attempts ≡ range_from (length r.attempts) a
  pub few : length r.attempts ≤ fuel
  pub waits : length r.waited ≤ length r.attempts
  pub approved : Approved env r.attempts

module _ (env : Environment) (max_attempts : ℕ) where
  Next-cases :
      (n : Next) → ((x : Result ℕ) × (n ≡ stop x)) ⊎ ((d : ℕ) × (n ≡ again d)) ⊎ (n ≡ pends)
  Next-cases (stop x) = inl (x, refl)
  Next-cases (again d) = inr (inl (d, refl))
  Next-cases pends = inr (inr refl)

  Pends-cons : (a : ℕ) (xs : List ℕ) → Pends env xs → Pends env (a ∷ xs)
  Pends-cons a [] h = absurd h
  Pends-cons a (b ∷ rest) h = h

  settled_later :
      (a : ℕ) (result : Option (Result ℕ)) (xs : List ℕ)
      → ((x : Result ℕ) × (result ≡ some x)) ⊎ Pends env xs
      → ((x : Result ℕ) × (result ≡ some x)) ⊎ Pends env (a ∷ xs)
  settled_later a result xs (inl h) = inl h
  settled_later a result xs (inr h) = inr (Pends-cons a xs h)

  -- What an attempt that pends waits for.
  attempt_pends : (a : ℕ) → attempt_once env max_attempts a ≡ pends → PendsAt env a
  unfolding attempt_once
  attempt_pends a e = elim (Bool-cases (env.operation_settles a)) [
    | inr never ↦ inl never
    | inl settles ↦ elim (Result-cases (env.operation a)) [
      | inl (v, o) ↦ absurd (ground arith)
      | inr (f, o) ↦ inr (ground arith, (f, o))
    ]
  ]

  -- What an attempt that is followed by another one has gone through.
  attempt_again :
      (a d : ℕ)
      → attempt_once env max_attempts a ≡ again d
      → (a ≢ max_attempts)
        × ((failure : Thrown) × (env.operation a ≡ throw failure)
            × (env.should_retry a failure ≡ answered true))
  unfolding attempt_once prepare
  attempt_again a d e = elim (Result-cases (env.operation a)) [
    | inl (v, o) ↦ absurd (ground arith)
    | inr (f, o) ↦ (ground arith, (f, o, ground arith))
  ]

  Approved-cons :
      (a : ℕ) (xs : List ℕ) (failure : Thrown)
      → env.operation a ≡ throw failure
      → env.should_retry a failure ≡ answered true
      → Approved env xs
      → Approved env (a ∷ xs)
  Approved-cons a [] f o p h = tt
  Approved-cons a (b ∷ rest) f o p h = ((f, o, p), h)

  -- One round, given what holds of the rounds behind it.
  round-Ends :
      (fuel a : ℕ)
      → ((d : ℕ)
          → attempt_once env max_attempts a ≡ again d
          → Ends env fuel (a + 1) (run_attempt env max_attempts fuel (a + 1)))
      → Ends env (suc fuel) a (run_attempt env max_attempts (suc fuel) a)
  unfolding run_attempt range_from
  round-Ends fuel a later = elim (Result-cases (active_context (env.before a))) [
    | inr (x, e) ↦
        rw (e, run_attempt)
          (record {
            settled = inl (throw x, refl);
            numbered = refl;
            few = omega arith;
            waits = omega arith;
            approved = tt;
          })
    | inl (_, e) ↦
        rw (e, run_attempt)
          (elim (Next-cases (attempt_once env max_attempts a)) [
            | inl (x, s) ↦ rw s (record {
              settled = inl (x, refl);
              numbered = refl;
              few = omega arith;
              waits = omega arith;
              approved = tt;
            })
            | inr (inr s) ↦ rw s (record {
              settled = inr (attempt_pends a s);
              numbered = refl;
              few = omega arith;
              waits = omega arith;
              approved = tt;
            })
            | inr (inl (d, s)) ↦
                let r = later d s in
                let (_, (f, o, p)) = attempt_again a d s in
                rw s (record {
                  settled =
                      settled_later a (run_attempt env max_attempts fuel (a + 1)).result
                        (run_attempt env max_attempts fuel (a + 1)).attempts r.settled;
                  numbered = ap (◌∷◌ a) r.numbered;
                  few = omega (arith, r.few);
                  waits = omega (arith, r.waits);
                  approved = Approved-cons a _ f o p r.approved;
                })
          ])
  ]

  -- The fuel that is left is what the attempts that are left need.
  pub run_attempt-Ends :
      (fuel a : ℕ)
      → a + fuel ≡ max_attempts
      → Ends env (suc fuel) a (run_attempt env max_attempts (suc fuel) a)
  run_attempt-Ends zero a h =
      round-Ends zero a (λ d s. absurd ((attempt_again a d s).0 (omega arith)))
  run_attempt-Ends (suc fuel) a h =
      round-Ends (suc fuel) a (λ d s. run_attempt-Ends fuel (a + 1) (omega arith))

  pub guards_positive :
      (call : RetryCall) (x : Unit {0}) → guards env max_attempts call ≡ ok x → 1 ≤ max_attempts
  unfolding guards
  guards_positive call x e = ground arith
