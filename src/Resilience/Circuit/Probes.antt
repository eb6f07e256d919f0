-- ===== src/Resilience/Circuit/Probes.antt =====
-- packages/resilience/src/circuit.ts with any number of calls in flight: the steps of `execute`
-- interleave in any order.
pub mod Invariant
use go_like.Prelude.{
  ℕ, suc, ◌+◌, ◌≤◌, ◌<◌, ◌≡◌, ◌⊎◌, refl, Bool, true, false, ◌&&◌, if◌then◌else◌, Option, none, some,
  Result, ok, throw, Thrown, arith, List, [], ◌∷◌, ◌++◌, All, leb, ◌==◌,
}
use go_like.Resilience.Internal.{Context, Answer}
use go_like.Resilience.Circuit.{
  CircuitBreakerOptions, Circuit, CircuitTicket, CircuitState, closed, opened, half_open,
  TicketState, regular, probe, Progress, settled, classifying, fresh, refresh, admit, begin, finish,
  classify, snapshot, record_success, record_failure, record_neutral, is_probe,
}

-- The breaker, and the tickets of the calls that have not settled.
pub record System : Type 0 where
  pub circuit : Circuit
  pub in_flight : List CircuitTicket

module _ (options : CircuitBreakerOptions) where
  -- What can happen to the breaker, with a clock that is finite when a failure is recorded.
  pub data Step : System → System → Type 0 where
    -- A call comes in and is admitted.
    admits :
        (s : System) (c : Circuit) (t : CircuitTicket) (ctx : Context) (callable : Bool)
        (clock : Option ℕ)
        → begin options s.circuit ctx callable clock ≡ (c, ok t)
        → Step s (record { circuit = c; in_flight = t ∷ s.in_flight })
    -- A call comes in and is refused.
    refuses :
        (s : System) (c : Circuit) (e : Thrown) (ctx : Context) (callable : Bool) (clock : Option ℕ)
        → begin options s.circuit ctx callable clock ≡ (c, throw e)
        → Step s (record s { circuit = c })
    -- The operation of a call settles, and so does the call.
    finishes :
        (s : System) (before : List CircuitTicket) (t : CircuitTicket) (after : List CircuitTicket)
        (c : Circuit) (outcome result : Result ℕ) (ctx : Context) (classifies : Bool) (now : ℕ)
        → s.in_flight ≡ before ++ t ∷ after
        → finish options t s.circuit outcome ctx classifies (some now) ≡ (c, settled result)
        → Step s (record { circuit = c; in_flight = before ++ after })
    -- The operation of a call fails, and `isFailure` is asked.
    asks :
        (s : System) (t : CircuitTicket) (c : Circuit) (failure : Thrown) (outcome : Result ℕ)
        (ctx : Context) (now : ℕ)
        → finish options t s.circuit outcome ctx true (some now) ≡ (c, classifying failure)
        → Step s (record s { circuit = c })
    -- `isFailure` answers, and the call settles.
    classifies :
        (s : System) (before : List CircuitTicket) (t : CircuitTicket) (after : List CircuitTicket)
        (c : Circuit) (failure : Thrown) (answer : Answer) (result : Result ℕ) (ctx : Context)
        (now : ℕ)
        → s.in_flight ≡ before ++ t ∷ after
        → classify options t s.circuit failure answer ctx (some now) ≡ (c, settled result)
        → Step s (record { circuit = c; in_flight = before ++ after })
    -- Somebody takes a snapshot.
    looks :
        (s : System) (resolution now : ℕ)
        → Step s (record s { circuit = (snapshot options resolution s.circuit now).0 })

  pub data Reach (s : System) : System → Type 0 where
    here : Reach s s
    next : {t u : System} → Reach s t → Step t u → Reach s u

-- The probes in flight that the circuit still listens to.
pub live_probes : ℕ → List CircuitTicket → ℕ
live_probes generation [] = 0
live_probes generation (t ∷ ts) =
    let rest = live_probes generation ts in
    if (t.generation == generation) && is_probe t.state then suc rest else rest

abbrev pub count_of : Bool → ℕ
count_of true = 1
count_of false = 0

-- A ticket is not from the future, and one of the current generation fits the state.
pub record Fits (c : Circuit) (t : CircuitTicket) : Type 0 where
  pub past : t.generation ≤ c.generation
  pub regular_closed : t.state ≡ regular → t.generation ≡ c.generation → c.state ≡ closed
  pub probe_half_open : t.state ≡ probe → t.generation ≡ c.generation → c.state ≡ half_open

pub record Inv (options : CircuitBreakerOptions) (s : System) : Type 0 where
  pub threshold : 1 ≤ options.failure_threshold
  pub tickets : All (Fits s.circuit) s.in_flight
  pub single : live_probes s.circuit.generation s.in_flight ≡ count_of s.circuit.probe_active
  pub probing : s.circuit.probe_active ≡ true → s.circuit.state ≡ half_open
  pub below : s.circuit.state ≡ closed → s.circuit.consecutive_failures < options.failure_threshold
