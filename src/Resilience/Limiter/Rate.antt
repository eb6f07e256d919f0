-- ===== src/Resilience/Limiter/Rate.antt =====
-- What the token bucket of packages/resilience/src/limiter.ts promises over many calls.
use go_like.Prelude.{
  ℕ, suc, ◌+◌, ◌*◌, ◌≤◌, ◌≡◌, refl, arith, List, [], ◌∷◌, Bool, true, false, All, if◌then◌else◌,
  ltb, ltb→lt, Bool-cases, inl, inr,
}
use go_like.Resilience.Limiter.{Bucket, intervals, refill, consume}
use go_like.Resilience.Limiter.Refill.{
  IsValid, advance, refill-advance, refill-IsValid, intervals-advance,
}

module _ (resolution : ℕ) where
  -- How many of the calls at the given instants are allowed.
  pub count_allowed : Bucket → List ℕ → ℕ
  count_allowed b [] = 0
  count_allowed b (t ∷ ts) =
      let (b', decision) = consume resolution b t in
      let rest = count_allowed b' ts in if decision.allowed then suc rest else rest

module _ (resolution : ℕ) (positive : 1 ≤ resolution) where
  consume-IsValid : (b : Bucket) (t : ℕ) → IsValid b → IsValid (consume resolution b t).0
  unfolding consume
  consume-IsValid b t v = ground (arith, refill-IsValid resolution positive b t v)

  abbrev allowed_count : Bool → ℕ
  allowed_count true = 1
  allowed_count false = 0

  -- One call: what it spends, and how the intervals up to `end` split at it.
  record Budget (b : Bucket) (t end : ℕ) (b' : Bucket) (allowed : Bool) : Type 0 where
    rate : b'.refill_tokens ≡ b.refill_tokens
    spent :
        b'.available_tokens + allowed_count allowed
        ≤ b.available_tokens + intervals resolution b t * b.refill_tokens
    split : intervals resolution b end ≡ intervals resolution b t + intervals resolution b' end

  refill-Budget :
      (b : Bucket) (t end : ℕ) → IsValid b → t ≤ end → Budget b t end (refill resolution b t) false
  unfolding advance
  refill-Budget b t end v h = rw (refill-advance resolution positive b t v) (record {
    rate = refl;
    spent = omega arith;
    split = intervals-advance resolution positive b t end v h;
  })

  consume-Budget :
      (b : Bucket) (t end : ℕ)
      → IsValid b
      → t ≤ end
      → Budget b t end (consume resolution b t).0 (consume resolution b t).1.allowed
  unfolding consume
  consume-Budget b t end v h =
      let g = refill-Budget b t end v h in
      elim (Bool-cases (ltb 0 (refill resolution b t).available_tokens)) [
        | inl left ↦
            rw (left)
              (record { rate = g.rate; spent = omega (arith, ltb→lt _ _ left); split = g.split })
        | inr empty ↦ rw (empty) g
      ]

  -- No window lets more calls through than the tokens at its start and those that the whole
  -- intervals up to its end bring.
  pub count_allowed_bound :
      (b : Bucket) (ts : List ℕ) (end : ℕ)
      → IsValid b
      → All (λ t. t ≤ end) ts
      → count_allowed resolution b ts
        ≤ b.available_tokens + intervals resolution b end * b.refill_tokens
  unfolding count_allowed
  count_allowed_bound b [] end v h = omega arith
  count_allowed_bound b (t ∷ ts) end v h =
      let g = consume-Budget b t end v h.0 in
      let rest =
        count_allowed_bound (consume resolution b t).0 ts end (consume-IsValid b t v) h.1 in
      let rest' = rw g.rate at rest in rw g.split (ground arith)
