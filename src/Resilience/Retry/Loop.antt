-- ===== src/Resilience/Retry/Loop.antt =====
-- The loop of `retry` in packages/resilience/src/retry.ts.
use go_like.Prelude.{
  ℕ, zero, suc, ◌+◌, ◌-◌, ◌≡◌, ◌≢◌, inl, inr, refl, subst, ◌∙◌, none, some, true, Result, ok, throw,
  Thrown, Result-cases, arith,
}
use go_like.Resilience.Internal.{answered, active_context, observe, wait_for_delay, fires}
use go_like.Resilience.Retry.{
  Environment, RetryCall, stop, again, prepare, attempt_once, run_attempt, retry, guards,
  chosen_delay,
}
use go_like.Resilience.Retry.Rounds.{range_from, Ends, run_attempt-Ends, guards_positive}

module _ (env : Environment) (max_attempts : ℕ) where
  -- Whatever the operation, the policy, the backoff and the Context do, `retry` settles, or its last
  -- attempt waits for a promise of the operation, or after a failure for one of the policy, that never
  -- settles. It makes at most `maxAttempts` attempts, numbered from 1 on without a gap, with a delay behind each at most,
  -- and every attempt that another one follows had failed and its failure been approved for a retry
  -- by the policy.
  pub retry-Ends : (call : RetryCall) → Ends env max_attempts 1 (retry env max_attempts call)
  unfolding retry range_from
  retry-Ends call = elim (Result-cases (guards env max_attempts call)) [
    | inr (x, e) ↦
        rw (e, retry)
          (record {
            settled = inl (throw x, refl);
            numbered = refl;
            few = omega arith;
            waits = omega arith;
            approved = tt;
          })
    | inl (x, e) ↦
        rw (e, retry)
          (subst (λ k. Ends env k 1 (run_attempt env max_attempts k 1))
            (omega (arith, guards_positive env max_attempts call x e))
            (run_attempt-Ends env max_attempts (max_attempts - 1) 1
              (omega (arith, guards_positive env max_attempts call x e))))
  ]

-- What the operation gives when it is called until it succeeds, `more` times after the first.
pub first_outcome : Environment → ℕ → ℕ → Result ℕ
first_outcome env zero a = env.operation a
first_outcome env (suc more) a = elim (env.operation a) [
  | ok value ↦ ok value
  | throw failure ↦ first_outcome env more (a + 1)
]

-- The promises settle, the Context stays active at every reading, the policy approves every retry, every delay is
-- valid, and every wait ends with its timer.
pub record Persistent (env : Environment) : Type 0 where
  pub operation_settles : (a : ℕ) → env.operation_settles a ≡ true
  pub policy_settles : (a : ℕ) → env.policy_settles a ≡ true
  pub before : (a : ℕ) → active_context (env.before a) ≡ ok tt
  pub after : (a : ℕ) → observe (env.after a) ≡ ok none
  pub approves : (a : ℕ) (f : Thrown) → env.should_retry a f ≡ answered true
  pub after_policy : (a : ℕ) → observe (env.after_policy a) ≡ ok none
  pub before_backoff : (a : ℕ) → active_context (env.before_backoff a) ≡ ok tt
  pub delay : ℕ → ℕ
  pub chosen : (a : ℕ) → chosen_delay env.backoff a (env.after_backoff a) ≡ ok (delay a)
  pub before_wait : (a : ℕ) → active_context (env.before_wait a) ≡ ok tt
  pub ends : (a : ℕ) → env.wait a ≡ fires

module _ (env : Environment) (max_attempts : ℕ) (p : Persistent env) where
  wait_ends : (a : ℕ) → wait_for_delay (env.before_wait a) (p.delay a) (env.wait a) ≡ ok tt
  unfolding wait_for_delay
  wait_ends a = rw (p.ends a) (simp (p.before_wait a) (ground arith))

  prepare_ok : (a : ℕ) (f : Thrown) → prepare env max_attempts a f ≡ ok (p.delay a)
  unfolding prepare
  prepare_ok a f = simp (p.approves, p.after_policy, p.before_backoff, p.chosen, wait_ends)

  attempt_fails :
      (a : ℕ) (f : Thrown)
      → env.operation a ≡ throw f
      → a ≢ max_attempts
      → attempt_once env max_attempts a ≡ again (p.delay a)
  unfolding attempt_once
  attempt_fails a f o h =
      ground (arith, p.after a, prepare_ok a f, p.operation_settles a, p.policy_settles a)

  attempt_last :
      (a : ℕ) (f : Thrown)
      → env.operation a ≡ throw f
      → a ≡ max_attempts
      → attempt_once env max_attempts a ≡ stop (throw f)
  unfolding attempt_once
  attempt_last a f o h = ground (arith, p.after a, p.operation_settles a)

  attempt_succeeds :
      (a v : ℕ) → env.operation a ≡ ok v → attempt_once env max_attempts a ≡ stop (ok v)
  unfolding attempt_once
  attempt_succeeds a v o = rw (p.operation_settles a, o, attempt_once)

  run_attempt_stops :
      (k a : ℕ) (r : Result ℕ)
      → attempt_once env max_attempts a ≡ stop r
      → (run_attempt env max_attempts (suc k) a).result ≡ some r
  unfolding run_attempt
  run_attempt_stops k a r s = rw (p.before a, run_attempt) (rw s refl)

  run_attempt_again :
      (k a d : ℕ)
      → attempt_once env max_attempts a ≡ again d
      → (run_attempt env max_attempts (suc k) a).result
        ≡ (run_attempt env max_attempts k (a + 1)).result
  unfolding run_attempt
  run_attempt_again k a d s = rw (p.before a, run_attempt) (rw s refl)

  run_attempt-first_outcome :
      (more a : ℕ)
      → a + more ≡ max_attempts
      → (run_attempt env max_attempts (suc more) a).result ≡ some (first_outcome env more a)
  unfolding first_outcome
  run_attempt-first_outcome zero a h = elim (Result-cases (env.operation a)) [
    | inl (v, o) ↦ rw o (run_attempt_stops 0 a (ok v) (attempt_succeeds a v o))
    | inr (f, o) ↦ rw o (run_attempt_stops 0 a (throw f) (attempt_last a f o (omega arith)))
  ]
  run_attempt-first_outcome (suc more) a h = elim (Result-cases (env.operation a)) [
    | inl (v, o) ↦
        rw (o, first_outcome) (run_attempt_stops (suc more) a (ok v) (attempt_succeeds a v o))
    | inr (f, o) ↦
        rw (o, first_outcome)
          (run_attempt_again (suc more) a _ (attempt_fails a f o (omega arith))
            ∙ run_attempt-first_outcome more (a + 1) (omega arith))
  ]

  -- With promises that settle, a Context that stays active, a policy that approves every retry, valid
  -- delays and waits that end, a call of `retry` with valid arguments gives the first success among attempts 1 to
  -- `maxAttempts`, and if there is none the failure of the last of them.
  pub retry-first_outcome :
      (call : RetryCall)
      → guards env max_attempts call ≡ ok tt
      → (retry env max_attempts call).result ≡ some (first_outcome env (max_attempts - 1) 1)
  unfolding retry
  retry-first_outcome call g =
      let e : suc (max_attempts - 1) ≡ max_attempts =
        omega (arith, guards_positive env max_attempts call tt g) in
      rw (g, retry)
        (subst
          (λ k.
            (run_attempt env max_attempts k 1).result
            ≡ some (first_outcome env (max_attempts - 1) 1))
          e (run_attempt-first_outcome (max_attempts - 1) 1 (omega arith)))
