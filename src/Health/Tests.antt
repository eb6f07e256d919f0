-- ===== src/Health/Tests.antt =====
-- packages/health/src/registry.ts at concrete inputs.
use go_like.Prelude.{
  ℕ, ◌≡◌, ◌≢◌, ◌↔◌, refl, true, false, List, [], ◌∷◌, map, none, some, same_text, All, throw,
  type_error,
}
use go_like.Health.{
  live, ready, new_probe_registry, names_of, register, register_arguments, register_at, has,
  is_public, unregister, handle_at, release, splice, delete_name, deactivate,
}
use go_like.Health.Report.{ProbeReport, ProbeRun, waits, resolves, check}
use go_like.Health.History.{Call, registers, unregisters, after, after_all, Once}
use go_like.Health.History.Handles.{unregister_again}
use go_like.Health.History.Checks.{check-registered}

-- The probe "a" is registered as 0, and "b" as 1; then "a" is taken away and comes back.
abbrev calls : List Call
calls =
    registers (some ready) (some (97 ∷ [])) true 5 none
    ∷ registers (some ready) (some (98 ∷ [])) true 6 none
    ∷ unregisters 0
    ∷ registers (some ready) (some (97 ∷ [])) true 7 none
    ∷ []

abbrev probe_runs : ℕ → ProbeRun
probe_runs p = record {
  child = none;
  registration = none;
  canceled = none;
  operation = waits (resolves ∷ []);
}

names_after : names_of ready (after_all calls new_probe_registry) ≡ (98 ∷ []) ∷ (97 ∷ []) ∷ []
unfolding after_all after register register_arguments register_at has is_public unregister handle_at
    release splice delete_name deactivate same_text
names_after = refl

taken :
    (register (after_all calls new_probe_registry) (some ready) (some (98 ∷ [])) true 8 none).1
    ≡ throw type_error
unfolding after_all after register register_arguments register_at has is_public unregister handle_at
    release splice delete_name deactivate same_text
taken = refl

bad_name : register_arguments (some live) (some (47 ∷ [])) true none ≡ throw type_error
unfolding register_arguments is_public
bad_name = refl

unregistered : (unregister (after_all calls new_probe_registry) 1).1 ≡ true
unfolding after_all after register register_arguments register_at has is_public unregister handle_at
    release splice delete_name deactivate same_text
unregistered = refl

unregister_again_example :
    unregister (after_all calls (unregister (after_all calls new_probe_registry) 1).0) 1
    ≡ (after_all calls (unregister (after_all calls new_probe_registry) 1).0, false)
unregister_again_example =
    unregister_again (after_all calls new_probe_registry) 1 calls unregistered

probe_runs_end : (p : ℕ) → (probe_runs p).operation ≢ waits []
probe_runs_end p e = absurd cc

check-registered_example :
    (report : ProbeReport) × (check probe_runs (after_all calls new_probe_registry) ready
      ≡ some report)
    × (map (λ c. c.name) report.checks ≡ names_of ready (after_all calls new_probe_registry))
    × Once (names_of ready (after_all calls new_probe_registry))
    × ((report.ok ≡ true)
        ↔ (All (λ c. c.ok ≡ true) report.checks × (ready ≡ ready → report.checks ≢ [])))
check-registered_example = check-registered calls ready probe_runs probe_runs_end
