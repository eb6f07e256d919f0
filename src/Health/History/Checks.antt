-- ===== src/Health/History/Checks.antt =====
-- packages/health/src/registry.ts: what the report on a kind covers.
use go_like.Prelude.{
  ℕ, ◌≡◌, ◌≢◌, refl, sym, ap, ◌∙◌, inl, inr, arith, Bool, true, ◌&&◌, Bool-cases, Result-cases,
  Option-cases, List, [], ◌∷◌, ◌++◌, map, Option, none, some, Thrown, ◌↔◌, Text, All, same_text,
}
use go_like.Health.{
  ProbeKind, live, ready, same_kind, Registration, Registry, new_probe_registry, names_of,
  register_arguments, register_at, register, handle_at, delete_name, splice, release, unregister,
  has,
}
use go_like.Health.Report.{
  ProbeResult, ProbeReport, ProbeRun, Operation, returns, raises, waits, Event, cancels, resolves,
  rejects, run_probe, run_all, check, selected, settle, every_ok, freeze_report,
}
use go_like.Health.History.{
  Call, registers, unregisters, after, after_all, registered, Once, Inv, registered-append,
  registered-splice, Once-append, Once-delete_name,
}

All-append {ℓ} :
    (P : Registration → Type ℓ) (rs : List Registration) (r : Registration)
    → All P rs
    → P r
    → All P (rs ++ r ∷ [])
All-append P [] r h hr = (hr, tt)
All-append P (x ∷ xs) r h hr = (h.0, All-append P xs r h.1 hr)

All-splice {ℓ} :
    (P : Registration → Type ℓ) (kind : ProbeKind) (name : Text) (rs : List Registration)
    → All P rs
    → All P (splice kind name rs)
unfolding splice
All-splice P kind name [] h = tt
All-splice P kind name (r ∷ rs) h =
    elim (Bool-cases (same_kind r.kind kind && same_text r.name name)) [
      | inl e ↦ rw (e, splice) h.1
      | inr e ↦ rw (e, splice) ((h.0, All-splice P kind name rs h.1))
    ]

register_kind-Inv :
    (s : Registry) (kind : ProbeKind) (name : Text) (timeout probe : ℕ)
    → Inv s
    → Inv (register_at s (record { kind = kind; name = name; timeout_ms = timeout }) probe).0
unfolding register_at
register_kind-Inv s live name timeout probe v = elim (Bool-cases (has name s.live_names)) [
  | inl e ↦ rw (e, register_at) v
  | inr e ↦
      rw (e, register_at)
        (record {
          live_mirror =
              ap (λ ns. ns ++ name ∷ []) v.live_mirror
              ∙ sym (registered-append live s.registrations _);
          ready_mirror = v.ready_mirror ∙ sym (registered-append ready s.registrations _);
          live_once = Once-append name s.live_names v.live_once e;
          ready_once = v.ready_once;
          all_active = All-append (λ r. r.active ≡ true) s.registrations _ v.all_active refl;
        })
]
register_kind-Inv s ready name timeout probe v = elim (Bool-cases (has name s.ready_names)) [
  | inl e ↦ rw (e, register_at) v
  | inr e ↦
      rw (e, register_at)
        (record {
          live_mirror = v.live_mirror ∙ sym (registered-append live s.registrations _);
          ready_mirror =
              ap (λ ns. ns ++ name ∷ []) v.ready_mirror
              ∙ sym (registered-append ready s.registrations _);
          live_once = v.live_once;
          ready_once = Once-append name s.ready_names v.ready_once e;
          all_active = All-append (λ r. r.active ≡ true) s.registrations _ v.all_active refl;
        })
]

release_kind-Inv :
    (n : ℕ) (s : Registry) (kind : ProbeKind) (name : Text) (active : Bool)
    → Inv s
    → Inv (release n (record { kind = kind; name = name; active = active }) s)
unfolding release
release_kind-Inv n s live name active v = record {
  live_mirror =
      ap (delete_name name) v.live_mirror ∙ sym (registered-splice live live name s.registrations);
  ready_mirror = v.ready_mirror ∙ sym (registered-splice ready live name s.registrations);
  live_once = Once-delete_name name s.live_names v.live_once;
  ready_once = v.ready_once;
  all_active = All-splice (λ r. r.active ≡ true) live name s.registrations v.all_active;
}
release_kind-Inv n s ready name active v = record {
  live_mirror = v.live_mirror ∙ sym (registered-splice live ready name s.registrations);
  ready_mirror =
      ap (delete_name name) v.ready_mirror
      ∙ sym (registered-splice ready ready name s.registrations);
  live_once = v.live_once;
  ready_once = Once-delete_name name s.ready_names v.ready_once;
  all_active = All-splice (λ r. r.active ≡ true) ready name s.registrations v.all_active;
}

after-Inv : (call : Call) (s : Registry) → Inv s → Inv (after call s)
unfolding after register unregister
after-Inv (registers kind name callable probe timeout) s v =
    elim (Result-cases (register_arguments kind name callable timeout)) [
      | inl (a, e) ↦
          rw (e, after, register) (register_kind-Inv s a.kind a.name a.timeout_ms probe v)
      | inr (x, e) ↦ rw (e, after, register) v
    ]
after-Inv (unregisters m) s v = elim (Option-cases (handle_at m s.handles)) [
  | inl e ↦ rw (e, after, unregister) v
  | inr (h, e) ↦
      rw (e, after, unregister)
        (elim (Bool-cases h.active) [
          | inl on ↦ rw on (release_kind-Inv m s h.kind h.name h.active v)
          | inr off ↦ rw off v
        ])
]

after_all-Inv : (calls : List Call) (s : Registry) → Inv s → Inv (after_all calls s)
unfolding after_all
after_all-Inv [] s v = v
after_all-Inv (call ∷ calls) s v = after_all-Inv calls (after call s) (after-Inv call s v)

initial-Inv : Inv new_probe_registry
unfolding registered
initial-Inv = record {
  live_mirror = refl;
  ready_mirror = refl;
  live_once = tt;
  ready_once = tt;
  all_active = tt;
}

settle_total :
    (name : Text) (events : List Event)
    → waits events ≢ waits []
    → (c : ProbeResult) × (settle name events ≡ some c) × (c.name ≡ name)
unfolding settle
settle_total name [] h = absurd (h refl)
settle_total name (cancels cause ∷ _) h = (_, refl, refl)
settle_total name (resolves ∷ _) h = (_, refl, refl)
settle_total name (rejects error ∷ _) h = (_, refl, refl)

run_probe_total :
    (name : Text) (run : ProbeRun)
    → run.operation ≢ waits []
    → (c : ProbeResult) × (run_probe name run ≡ some c) × (c.name ≡ name)
unfolding run_probe
run_probe_total name run h = go run.child run.registration run.canceled run.operation h
  where
    go :
        (child registration canceled : Option Thrown) (operation : Operation)
        → operation ≢ waits []
        → (c : ProbeResult) × (run_probe name (record {
          child = child;
          registration = registration;
          canceled = canceled;
          operation = operation;
        })
            ≡ some c)
          × (c.name ≡ name)
    go (some error) registration canceled operation h = (_, refl, refl)
    go none (some error) canceled operation h = (_, refl, refl)
    go none none (some cause) operation h = (_, refl, refl)
    go none none none returns h = (_, refl, refl)
    go none none none (raises error) h = (_, refl, refl)
    go none none none (waits events) h = settle_total name events h

run_all_total :
    (runs : ℕ → ProbeRun) (rs : List Registration)
    → ((p : ℕ) → (runs p).operation ≢ waits [])
    → (cs : List ProbeResult) × (run_all runs rs ≡ some cs)
      × (map (λ c. c.name) cs ≡ map (λ r. r.name) rs)
unfolding run_all
run_all_total runs [] h = ([], refl, refl)
run_all_total runs (r ∷ rs) h =
    let (c, ran, named) = run_probe_total r.name (runs r.probe) (h r.probe) in
    let (cs, all_ran, all_named) = run_all_total runs rs h in
    (c ∷ cs, rw (ran, run_all) (rw (all_ran) refl), rw (named, all_named) refl)

selected-registered :
    (kind : ProbeKind) (rs : List Registration)
    → All (λ r. r.active ≡ true) rs
    → map (λ r. r.name) (selected kind rs) ≡ registered kind rs
unfolding selected registered
selected-registered kind [] h = refl
selected-registered kind (r ∷ rs) h = ground (arith, selected-registered kind rs h.1, h.0)

mirror :
    (kind : ProbeKind) (s : Registry) → Inv s → names_of kind s ≡ registered kind s.registrations
mirror live s v = v.live_mirror
mirror ready s v = v.ready_mirror

once : (kind : ProbeKind) (s : Registry) → Inv s → Once (names_of kind s)
once live s v = v.live_once
once ready s v = v.ready_once

every_ok-All : (cs : List ProbeResult) → (every_ok cs ≡ true) ↔ All (λ c. c.ok ≡ true) cs
unfolding every_ok
every_ok-All [] = (λ _. tt, λ _. refl)
every_ok-All (c ∷ cs) =
    let (to, from) = every_ok-All cs in
    (λ e. (ground arith, to (ground arith)), λ h. ground (arith, h.0, from h.1))

freeze_report-ok :
    (kind : ProbeKind) (cs : List ProbeResult)
    → ((freeze_report kind cs).ok ≡ true) ↔ (All (λ c. c.ok ≡ true) cs × (kind ≡ ready → cs ≢ []))
unfolding freeze_report
freeze_report-ok live cs =
    let (to, from) = every_ok-All cs in
    (λ e. (to (ground arith), λ k. absurd cc), λ h. ground (arith, from h.0))
freeze_report-ok ready [] = (λ e. absurd (ground arith), λ h. absurd (h.1 refl refl))
freeze_report-ok ready (c ∷ cs) =
    let (to, from) = every_ok-All (c ∷ cs) in
    (λ e. (to (ground arith), λ k l. absurd cc), λ h. ground (arith, from h.0))

-- After any calls of a new registry, a check of a kind, each of whose probes ends or is canceled,
-- gives a report with one result for each registered name of the kind, no name twice, in the order
-- of registration; and it is positive exactly if every result is and, for readiness, there is one.
pub check-registered :
    (calls : List Call) (kind : ProbeKind) (runs : ℕ → ProbeRun)
    → ((p : ℕ) → (runs p).operation ≢ waits [])
    → let s = after_all calls new_probe_registry in
      (report : ProbeReport) × (check runs s kind ≡ some report)
      × (map (λ c. c.name) report.checks ≡ names_of kind s)
      × Once (names_of kind s)
      × ((report.ok ≡ true)
          ↔ (All (λ c. c.ok ≡ true) report.checks × (kind ≡ ready → report.checks ≢ [])))
unfolding check
check-registered calls kind runs h =
    let s = after_all calls new_probe_registry in
    let v = after_all-Inv calls new_probe_registry initial-Inv in
    let (cs, ran, named) = run_all_total runs (selected kind s.registrations) h in
    (
      freeze_report kind cs,
      rw (ran, check) refl,
      named ∙ selected-registered kind s.registrations v.all_active ∙ sym (mirror kind s v),
      once kind s v,
      freeze_report-ok kind cs,
    )
