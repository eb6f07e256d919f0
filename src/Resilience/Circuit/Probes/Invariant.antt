-- ===== src/Resilience/Circuit/Probes/Invariant.antt =====
-- At most one probe: the invariant of packages/resilience/src/circuit.ts under interleaved calls.
use go_like.Prelude.{
  ℕ, ◌≤◌, ◌<◌, ◌≡◌, ◌⊎◌, inl, inr, refl, sym, ap, ◌∙◌, Bool, true, Option, some, Result, ok, throw,
  Thrown, Result-cases, arith, List, [], ◌∷◌, ◌++◌, All,
}
use go_like.Resilience.Internal.{Context, Answer}
use go_like.Resilience.Circuit.{
  CircuitBreakerOptions, Circuit, CircuitTicket, closed, half_open, settled, classifying, fresh,
  refresh, admit, begin, finish, classify, snapshot, record_success, record_failure, record_neutral,
  admit_in, guards,
}
use go_like.Resilience.Circuit.Probes.{
  System, Step, Reach, here, next, admits, refuses, finishes, asks, classifies, looks, live_probes,
  count_of, Fits, Inv,
}

-- Generations do not fall, and a state changes only with a new one.
record Moves (c c' : Circuit) : Type 0 where
  forward : c.generation ≤ c'.generation
  steady : c'.generation ≡ c.generation → c'.state ≡ c.state

Fits-Moves :
    (c c' : Circuit) → Moves c c' → (ts : List CircuitTicket) → All (Fits c) ts → All (Fits c') ts
Fits-Moves c c' m [] f = tt
Fits-Moves c c' m (t ∷ ts) f = (ground arith, Fits-Moves c c' m ts f.1)

live_probes-above :
    (c : Circuit) (g : ℕ) (ts : List CircuitTicket)
    → All (Fits c) ts
    → c.generation < g
    → live_probes g ts ≡ 0
unfolding live_probes
live_probes-above c g [] f h = refl
live_probes-above c g (t ∷ ts) f h = ground (arith, live_probes-above c g ts f.1 h)

live_probes-middle :
    (g : ℕ) (before : List CircuitTicket) (t : CircuitTicket) (after : List CircuitTicket)
    → live_probes g (before ++ t ∷ after) ≡ live_probes g (t ∷ (before ++ after))
unfolding live_probes
live_probes-middle g [] t after = refl
live_probes-middle g (u ∷ us) t after = ground (arith, live_probes-middle g us t after)

All-middle {ℓ κ} :
    {A : Type ℓ} (P : A → Type κ) (before : List A) (t : A) (after : List A)
    → All P (before ++ t ∷ after)
    → All P (t ∷ (before ++ after))
All-middle P [] t after h = h
All-middle P (u ∷ us) t after h =
    let (first, others) = All-middle P us t after h.1 in (first, (h.0, others))

Inv-middle :
    {options : CircuitBreakerOptions} (c : Circuit) (in_flight before : List CircuitTicket)
    (t : CircuitTicket) (after : List CircuitTicket)
    → in_flight ≡ before ++ t ∷ after
    → Inv options (record { circuit = c; in_flight = in_flight })
    → Inv options (record { circuit = c; in_flight = t ∷ (before ++ after) })
Inv-middle c in_flight before t after e v = record {
  threshold = v.threshold;
  tickets = All-middle (Fits c) before t after (rw e at v.tickets);
  single =
      sym (live_probes-middle c.generation before t after)
      ∙ ap (live_probes c.generation) (sym e)
      ∙ v.single;
  probing = v.probing;
  below = v.below;
}

module _ (options : CircuitBreakerOptions) (c : Circuit) (ts : List CircuitTicket) where
  abbrev with_calls : Circuit → List CircuitTicket → System
  with_calls c' us = record { circuit = c'; in_flight = us }

  -- What the cases below need of the calls that stay in flight.
  record Others (c' : Circuit) : Type 0 where
    fits : All (Fits c') ts
    stale : c.generation < c'.generation → live_probes c'.generation ts ≡ 0

  others : (c' : Circuit) → Moves c c' → All (Fits c) ts → Others c'
  others c' m f = record {
    fits = Fits-Moves c c' m ts f;
    stale = live_probes-above c c'.generation ts f;
  }

  refresh-Inv :
      (now : ℕ)
      → Inv options (with_calls c ts)
      → Inv options (with_calls (refresh options c now) ts)
  refresh-Inv now v =
      let m : Moves c (refresh options c now) = unfold refresh in ground arith in
      let o = others (refresh options c now) m v.tickets in unfold refresh in ground (arith, o.fits)

  admit_in-Inv :
      (c' : Circuit) (t : CircuitTicket)
      → admit_in options c.state c ≡ (c', ok t)
      → Inv options (with_calls c ts)
      → Inv options (with_calls c' (t ∷ ts))
  unfolding live_probes
  admit_in-Inv c' t e v =
      let m : Moves c c' = unfold admit_in in ground arith in
      let o = others c' m v.tickets in unfold admit_in in ground (arith, o.fits)

  success-Inv :
      (t : CircuitTicket)
      → Inv options (with_calls c (t ∷ ts))
      → Inv options (with_calls (record_success options t c) ts)
  unfolding live_probes
  success-Inv t v =
      let m : Moves c (record_success options t c) = unfold record_success in ground arith in
      let o = others (record_success options t c) m v.tickets.1 in
      unfold record_success in ground (arith, o.fits)

  neutral-Inv :
      (t : CircuitTicket)
      → Inv options (with_calls c (t ∷ ts))
      → Inv options (with_calls (record_neutral options t c) ts)
  unfolding live_probes
  neutral-Inv t v =
      let m : Moves c (record_neutral options t c) = unfold record_neutral in ground arith in
      let o = others (record_neutral options t c) m v.tickets.1 in
      unfold record_neutral in ground (arith, o.fits)

  failure-Inv :
      (t : CircuitTicket) (now : ℕ)
      → Inv options (with_calls c (t ∷ ts))
      → Inv options (with_calls (record_failure options t c (some now)).0 ts)
  unfolding live_probes
  failure-Inv t now v =
      let m : Moves c (record_failure options t c (some now)).0 =
        unfold record_failure in ground arith in
      let o = others (record_failure options t c (some now)).0 m v.tickets.1 in
      unfold record_failure in ground (arith, o.fits)

module _ (options : CircuitBreakerOptions) (c : Circuit) where
  -- The three ways in which a settled call has changed the circuit.
  abbrev Recorded : CircuitTicket → ℕ → Circuit → Type 0
  Recorded t now c' =
      (c' ≡ record_success options t c)
      ⊎ (c' ≡ record_neutral options t c)
      ⊎ (c' ≡ (record_failure options t c (some now)).0)

  finish-Recorded :
      (t : CircuitTicket) (outcome : Result ℕ) (ctx : Context) (has_classifier : Bool) (now : ℕ)
      (c' : Circuit) (r : Result ℕ)
      → finish options t c outcome ctx has_classifier (some now) ≡ (c', settled r)
      → Recorded t now c'
  unfolding finish
  finish-Recorded t (ok value) ctx has_classifier now c' r e = ground arith
  finish-Recorded t (throw failure) ctx has_classifier now c' r e = ground arith

  classify-Recorded :
      (t : CircuitTicket) (failure : Thrown) (answer : Answer) (ctx : Context) (now : ℕ)
      (c' : Circuit) (r : Result ℕ)
      → classify options t c failure answer ctx (some now) ≡ (c', settled r)
      → Recorded t now c'
  unfolding classify
  classify-Recorded t failure answer ctx now c' r e = ground arith

  finish_asks :
      (t : CircuitTicket) (outcome : Result ℕ) (ctx : Context) (now : ℕ) (c' : Circuit) (e : Thrown)
      → finish options t c outcome ctx true (some now) ≡ (c', classifying e)
      → c' ≡ c
  unfolding finish
  finish_asks t (ok value) ctx now c' e h = ground arith
  finish_asks t (throw failure) ctx now c' e h = ground arith

  Recorded-Inv :
      (t : CircuitTicket) (ts : List CircuitTicket) (now : ℕ) (c' : Circuit)
      → Recorded t now c'
      → Inv options (record { circuit = c; in_flight = t ∷ ts })
      → Inv options (record { circuit = c'; in_flight = ts })
  Recorded-Inv t ts now c' (inl e) v = rw e (success-Inv options c ts t v)
  Recorded-Inv t ts now c' (inr (inl e)) v = rw e (neutral-Inv options c ts t v)
  Recorded-Inv t ts now c' (inr (inr e)) v = rw e (failure-Inv options c ts t now v)

  begin_lem :
      (ctx : Context) (callable : Bool) (clock : Option ℕ)
      → ((now : ℕ) × (begin options c ctx callable clock ≡ admit options c now))
        ⊎ ((x : Thrown) × (begin options c ctx callable clock ≡ (c, throw x)))
  unfolding begin
  begin_lem ctx callable clock = elim (Result-cases (guards options ctx callable clock)) [
    | inl (now, e) ↦ inl (now, rw (e, begin))
    | inr (x, e) ↦ inr (x, rw (e, begin))
  ]

  begin_admits :
      (ctx : Context) (callable : Bool) (clock : Option ℕ) (ts : List CircuitTicket) (c' : Circuit)
      (t : CircuitTicket)
      → begin options c ctx callable clock ≡ (c', ok t)
      → Inv options (record { circuit = c; in_flight = ts })
      → Inv options (record { circuit = c'; in_flight = t ∷ ts })
  begin_admits ctx callable clock ts c' t e v = elim (begin_lem ctx callable clock) [
    | inl (now, b) ↦
        admit_in-Inv options (refresh options c now) ts c' t (unfold admit in sym b ∙ e)
          (refresh-Inv options c ts now v)
    | inr (x, b) ↦ absurd (cc)
  ]

  refused : (r c' : Circuit) (x : Thrown) → admit_in options r.state r ≡ (c', throw x) → c' ≡ r
  unfolding admit_in
  refused r c' x e = ground arith

  begin_refuses :
      (ctx : Context) (callable : Bool) (clock : Option ℕ) (ts : List CircuitTicket) (c' : Circuit)
      (x : Thrown)
      → begin options c ctx callable clock ≡ (c', throw x)
      → Inv options (record { circuit = c; in_flight = ts })
      → Inv options (record { circuit = c'; in_flight = ts })
  begin_refuses ctx callable clock ts c' x e v = elim (begin_lem ctx callable clock) [
    | inl (now, b) ↦
        rw (refused (refresh options c now) c' x (unfold admit in sym b ∙ e))
          (refresh-Inv options c ts now v)
    | inr (y, b) ↦ let same : c' ≡ c = ground arith in rw same v
  ]

module _ (options : CircuitBreakerOptions) where
  -- Every step keeps the invariant.
  pub Step-Inv : {s u : System} → Step options s u → Inv options s → Inv options u
  Step-Inv (admits s c t ctx callable clock e) v =
      begin_admits options s.circuit ctx callable clock s.in_flight c t e v
  Step-Inv (refuses s c x ctx callable clock e) v =
      begin_refuses options s.circuit ctx callable clock s.in_flight c x e v
  Step-Inv (finishes s before t after c outcome result ctx has_classifier now e f) v =
      Recorded-Inv options s.circuit t (before ++ after) now c
        (finish-Recorded options s.circuit t outcome ctx has_classifier now c result f)
        (Inv-middle s.circuit s.in_flight before t after e v)
  Step-Inv (asks s t c failure outcome ctx now f) v =
      rw (finish_asks options s.circuit t outcome ctx now c failure f) v
  Step-Inv (classifies s before t after c failure answer result ctx now e f) v =
      Recorded-Inv options s.circuit t (before ++ after) now c
        (classify-Recorded options s.circuit t failure answer ctx now c result f)
        (Inv-middle s.circuit s.in_flight before t after e v)
  Step-Inv (looks s resolution now) v =
      unfold snapshot in refresh-Inv options s.circuit s.in_flight now v

  pub Reach-Inv : {s u : System} → Inv options s → Reach options s u → Inv options u
  Reach-Inv v here = v
  Reach-Inv v (next r st) = Step-Inv st (Reach-Inv v r)

  abbrev pub initial : System
  initial = record { circuit = fresh; in_flight = [] }

  initial-Inv : 1 ≤ options.failure_threshold → Inv options initial
  unfolding live_probes
  initial-Inv h = record {
    threshold = h;
    tickets = tt;
    single = refl;
    probing = ground arith;
    below = ground arith;
  }

  -- However calls, settlements and snapshots of one breaker interleave, with a clock that is finite
  -- when a failure is recorded: of the probes in flight at most one belongs to the current
  -- generation, and one does exactly while a probe is marked as active, which is only in the
  -- half-open state; a closed circuit has counted fewer failures than the threshold.
  pub Reach-live_probes :
      {s : System}
      → 1 ≤ options.failure_threshold
      → Reach options initial s
      → (live_probes s.circuit.generation s.in_flight ≡ count_of s.circuit.probe_active)
        × (s.circuit.probe_active ≡ true → s.circuit.state ≡ half_open)
        × (s.circuit.state ≡ closed → s.circuit.consecutive_failures < options.failure_threshold)
  Reach-live_probes h r = let v = Reach-Inv (initial-Inv h) r in (v.single, v.probing, v.below)
