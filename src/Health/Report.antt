-- ===== src/Health/Report.antt =====
-- packages/health/src/registry.ts: running the probes of a kind, and the report on them.
use go_like.Prelude.{
  ℕ, Bool, true, false, ◌&&◌, if◌then◌else◌, List, [], ◌∷◌, Option, none, some, Thrown, Text,
}
use go_like.Health.{ProbeKind, ready, same_kind, Registration, Registry}

pub record ProbeResult : Type 0 where
  pub name : Text
  pub ok : Bool
  pub error : Option Thrown

pub record ProbeReport : Type 0 where
  pub kind : ProbeKind
  pub ok : Bool
  pub checks : List ProbeResult

-- What happens to a probe while it runs: its child Context is canceled with a cause, or its
-- operation resolves or rejects.
pub data Event : Type 0 where
  cancels : Thrown → Event
  resolves : Event
  rejects : Thrown → Event

-- What the call of a probe gives.
pub data Operation : Type 0 where
  returns : Operation
  raises : Thrown → Operation
  waits : List Event → Operation

-- How deriving the child Context and registering its cancellation end, `none` without an error; the
-- cause, if the child is canceled by the time the call of the probe is over; and what that call
-- gives. An error is the one that `normalizeProbeError` makes of it.
pub record ProbeRun : Type 0 where
  pub child : Option Thrown
  pub registration : Option Thrown
  pub canceled : Option Thrown
  pub operation : Operation

failed_result : Text → Thrown → ProbeResult
failed_result name error = record { name = name; ok = false; error = some error }

passed_result : Text → ProbeResult
passed_result name = record { name = name; ok = true; error = none }

-- The first event settles the result: `finishCancellation` runs unless the operation has stopped it,
-- and `finishOperation` publishes only if it stops the cancellation.
unfoldable pub settle : Text → List Event → Option ProbeResult
unfolding failed_result passed_result
settle name [] = none
settle name (cancels cause ∷ _) = some (failed_result name cause)
settle name (resolves ∷ _) = some (passed_result name)
settle name (rejects error ∷ _) = some (failed_result name error)

run_operation : Text → Option Thrown → Operation → Option ProbeResult
unfolding failed_result passed_result settle
run_operation name (some cause) operation = some (failed_result name cause)
run_operation name none returns = some (passed_result name)
run_operation name none (raises error) = some (failed_result name error)
run_operation name none (waits events) = settle name events

observed : Text → Option Thrown → Option Thrown → Operation → Option ProbeResult
unfolding run_operation failed_result
observed name (some error) canceled operation = some (failed_result name error)
observed name none canceled operation = run_operation name canceled operation

-- `runProbe`: nothing as long as no event settles it.
unfoldable pub run_probe : Text → ProbeRun → Option ProbeResult
unfolding observed failed_result
run_probe name run = elim run.child [
  | some error ↦ some (failed_result name error)
  | none ↦ observed name run.registration run.canceled run.operation
]

unfoldable pub every_ok : List ProbeResult → Bool
every_ok [] = true
every_ok (check ∷ checks) = check.ok && every_ok checks

abbrev pub closes_empty : ProbeKind → List ProbeResult → Bool
closes_empty ready [] = false
closes_empty _ _ = true

unfoldable pub freeze_report : ProbeKind → List ProbeResult → ProbeReport
unfolding every_ok
freeze_report kind checks = record {
  kind = kind;
  ok = every_ok checks && closes_empty kind checks;
  checks = checks;
}

-- `check`'s snapshot of the active registrations of a kind
unfoldable pub selected : ProbeKind → List Registration → List Registration
selected kind [] = []
selected kind (r ∷ rs) =
    let rest = selected kind rs in if r.active && same_kind r.kind kind then r ∷ rest else rest

-- `Promise.all`: the results once all are there
unfoldable pub run_all : (ℕ → ProbeRun) → List Registration → Option (List ProbeResult)
unfolding run_probe
run_all runs [] = some []
run_all runs (r ∷ rs) = elim (run_probe r.name (runs r.probe)) [
  | none ↦ none
  | some check ↦ elim (run_all runs rs) [ none ↦ none | some checks ↦ some (check ∷ checks) ]
]

unfoldable pub check : (ℕ → ProbeRun) → Registry → ProbeKind → Option ProbeReport
unfolding selected run_all freeze_report
check runs s kind = elim (run_all runs (selected kind s.registrations)) [
  | none ↦ none
  | some checks ↦ some (freeze_report kind checks)
]
