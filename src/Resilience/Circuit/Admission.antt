-- ===== src/Resilience/Circuit/Admission.antt =====
-- When packages/resilience/src/circuit.ts admits a call.
use go_like.Prelude.{
  ℕ, ◌+◌, ◌-◌, ◌*◌, ◌≤◌, ◌≡◌, ◌⊎◌, Bool, true, false, ok, throw, circuit_open, arith, Result,
  Thrown, Option, none, some, ◌≢◌, leb, if◌then◌else◌,
}
use native.Mathlib.Nat.{lt-div-mul-add}
use go_like.Resilience.Internal.{Context, Answer, answered, not_a_boolean, rejected, observe}
use go_like.Resilience.Circuit.{
  CircuitBreakerOptions, Circuit, closed, opened, half_open, regular, probe, admit, snapshot,
  CircuitTicket, settled, classifying, finish, classify, record_success, record_neutral,
  record_failure,
}

-- What an admitted call finds: a closed circuit, an open one whose timeout has elapsed, or a
-- half-open one with no probe running.
abbrev pub Admits : CircuitBreakerOptions → Circuit → ℕ → Type 0
Admits options c now =
    (c.state ≡ closed)
    ⊎ ((c.state ≡ opened) × (c.opened_at + options.reset_timeout ≤ now))
    ⊎ ((c.state ≡ half_open) × (c.probe_active ≡ false))

pub data Verdict : Type 0 where
  closes opens vacates : Verdict

-- What the circuit should make of the end of a probe: a success, and a failure that `isFailure` does
-- not count, close it; any other failure opens it; a Context that has ended leaves its place to
-- another probe.
unfoldable pub verdict :
    Result ℕ → Result (Option Thrown) → Option Answer → Result (Option Thrown) → Verdict
verdict (ok value) seen answer seen_later = closes
verdict (throw e) (ok none) none seen_later = opens
verdict (throw e) (ok none) (some (answered false)) (ok none) = closes
verdict (throw e) (ok none) (some (answered true)) (ok none) = opens
verdict (throw e) (ok none) (some not_a_boolean) (ok none) = opens
verdict (throw e) (ok none) (some (rejected f)) (ok none) = opens
verdict (throw e) (ok none) (some answer) (ok (some f)) = vacates
verdict (throw e) (ok none) (some answer) (throw f) = vacates
verdict (throw e) (ok (some f)) answer seen_later = vacates
verdict (throw e) (throw f) answer seen_later = vacates

module _ (options : CircuitBreakerOptions) where
  -- Exactly the calls of `Admits` are admitted: such a call gets a ticket of the generation that
  -- it leaves, a regular one from a closed circuit and otherwise a probe, whose circuit is then
  -- half-open and marks it as active; every other call throws `circuitOpen` and leaves the circuit
  -- as it was.
  pub admit_total :
      (c : Circuit) (now : ℕ)
      → (Admits options c now
          × (c.state ≡ closed)
          × (admit options c now ≡ (c, ok (record { generation = c.generation; state = regular }))))
        ⊎ (Admits options c now
            × ((admit options c now).1
                ≡ ok (record { generation = (admit options c now).0.generation; state = probe }))
            × ((admit options c now).0.state ≡ half_open)
            × ((admit options c now).0.probe_active ≡ true))
        ⊎ ((¬ Admits options c now) × (admit options c now ≡ (c, throw circuit_open)))
  unfolding admit
  admit_total c now = ground arith

  -- An open circuit that is asked again after the delay that a snapshot of it reports, with no
  -- call in between, admits a probe.
  pub snapshot-admit :
      (resolution : ℕ) (c : Circuit) (now : ℕ)
      → 1 ≤ resolution
      → c.state ≡ opened
      → let (c', seen) = snapshot options resolution c now in
        (admit options c' (now + seen.retry_after_ms * resolution)).1
        ≡ ok (record { generation = c.generation + 1; state = probe })
  unfolding snapshot admit
  snapshot-admit resolution c now positive o = ground (
    arith,
    lt-div-mul-add {a = c.opened_at + options.reset_timeout - now + (resolution - 1)} positive,
  )

  -- A call whose ticket is of another generation than the circuit's changes nothing when it
  -- settles, whatever its outcome, its Context, its classifier and the clock give.
  pub stale_ignored :
      (c : Circuit) (t : CircuitTicket) (outcome : Result ℕ) (failure : Thrown) (answer : Answer)
      (ctx : Context) (has_classifier : Bool) (clock : Option ℕ)
      → t.generation ≢ c.generation
      → ((finish options t c outcome ctx has_classifier clock).0 ≡ c)
        × ((classify options t c failure answer ctx clock).0 ≡ c)
  unfolding finish classify record_success record_neutral record_failure
  stale_ignored c t (ok value) failure answer ctx has_classifier clock h = ground arith
  stale_ignored c t (throw e) failure answer ctx has_classifier clock h = ground arith

  -- A call that has been admitted, up to its end: `isFailure` is asked, with `answer`, where the options
  -- have one.
  unfoldable pub conclude :
      CircuitTicket → Circuit → Result ℕ → Context → Option Answer → Context → Option ℕ → Circuit
  unfolding finish classify
  conclude t c outcome ctx none later clock = (finish options t c outcome ctx false clock).0
  conclude t c outcome ctx (some answer) later clock =
      elim (finish options t c outcome ctx true clock).1 [
        | settled result ↦ (finish options t c outcome ctx true clock).0
        | classifying failure ↦
            (classify options t (finish options t c outcome ctx true clock).0 failure answer later
              clock).0
      ]

  -- What the next call finds behind a probe of this generation.
  abbrev pub next_admission : Verdict → ℕ → ℕ → ℕ → Result CircuitTicket
  next_admission closes generation ended next =
      ok (record { generation = generation + 1; state = regular })
  next_admission vacates generation ended next =
      ok (record { generation = generation; state = probe })
  next_admission opens generation ended next =
      if leb (ended + options.reset_timeout) next
      then ok (record { generation = generation + 2; state = probe })
      else throw circuit_open

  -- What an admission of a circuit that is not closed leaves.
  admitted_probe :
      (c : Circuit) (t : CircuitTicket) (now : ℕ)
      → c.state ≢ closed
      → (admit options c now).1 ≡ ok t
      → let p = (admit options c now).0 in
        (p.state ≡ half_open)
        × (p.probe_active ≡ true)
        × (t.generation ≡ p.generation)
        × (t.state ≡ probe)
  unfolding admit
  admitted_probe c t now o a = ground arith

  rejects :
      (p : Circuit) (during : ℕ)
      → p.state ≡ half_open
      → p.probe_active ≡ true
      → (admit options p during).1 ≡ throw circuit_open
  unfolding admit
  rejects p during h b = ground arith

  admit_by :
      (p : Circuit) (t : CircuitTicket) (outcome : Result ℕ) (ctx later : Context)
      (answer : Option Answer) (ended next : ℕ)
      → p.state ≡ half_open
      → p.probe_active ≡ true
      → t.generation ≡ p.generation
      → t.state ≡ probe
      → (admit options (conclude t p outcome ctx answer later (some ended)) next).1
        ≡ next_admission
            (verdict outcome (observe ctx) answer (observe later))
            t.generation
            ended
            next
  unfolding admit conclude verdict finish classify record_success record_neutral record_failure
  admit_by p t (ok value) ctx later none ended next h b g s = ground arith
  admit_by p t (ok value) ctx later (some answer) ended next h b g s = ground arith
  admit_by p t (throw e) ctx later none ended next h b g s = ground arith
  admit_by p t (throw e) ctx later (some answer) ended next h b g s = ground arith

  -- A call that a circuit which is not closed admits is its probe. Until it ends, every other call
  -- throws `circuitOpen`. With a finite clock at its end, the next call behind it is admitted as a
  -- regular one if the probe succeeded, or failed under an active Context and `isFailure` answered
  -- false under an active Context; after any other failure under active Contexts, it throws until the
  -- reset timeout has passed since the end of the probe, and is a probe then; and it is a probe if the
  -- Context had ended or could not be read.
  pub probe_decides :
      (c : Circuit) (t : CircuitTicket) (now during ended next : ℕ) (outcome : Result ℕ)
      (ctx later : Context) (answer : Option Answer)
      → c.state ≢ closed
      → (admit options c now).1 ≡ ok t
      → let probing = (admit options c now).0 in
        ((admit options probing during).1 ≡ throw circuit_open)
        × ((admit options (conclude t probing outcome ctx answer later (some ended)) next).1
            ≡ next_admission
                (verdict outcome (observe ctx) answer (observe later))
                t.generation
                ended
                next)
  probe_decides c t now during ended next outcome ctx later answer o a =
      let (h, b, g, s) = admitted_probe c t now o a in
      let p = (admit options c now).0 in
      (rejects p during h b, admit_by p t outcome ctx later answer ended next h b g s)
