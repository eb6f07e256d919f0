-- ===== src/Context/Tests.antt =====
-- packages/context/src: runs of the model and examples of the theorems.
use go_like.Prelude.{
  ℕ, ◌≡◌, refl, [], ◌∷◌, none, some, arith, Thrown, canceled, foreign, ◌⊎◌, deadline_exceeded, ok,
  throw, range_error, foreign, type_error, false,
}
use go_like.Context.Nodes.{background, local, resolve}
use go_like.Context.World.{
  World, Failure, set_at, resolve_done, resolve_err, resolve_deadline, resolve_value, user_key,
  bound, read_cause, read_parent_failure, cause_from_observed_error,
}
use go_like.Context.Wave.{
  cancel, run_cancellation_wave, settle, end_node, dispatch, admit, run_tasks, cancel_from_parent,
  run_frames, run_callbacks, cleanup, remove_child, listening,
}
use go_like.Context.Derive.{
  new_cancel_context, register_child, listen, add_cleanup, with_cancel, cancel_func,
  cancel_cause_func, with_value, without_cancel, with_deadline, with_timeout, new_timed_context,
  new_own_deadline, start_deadline_timer, armed_timer, set_timer, wake, Clocks, deadline_failure,
  after_func, stop, remove_callback, requested_epoch, behind,
}
use go_like.Context.Settling.{HasFailed}
use go_like.Context.Links.{node_at}
use go_like.Context.Reachable.{
  Reachable, at_start, then_call, no_call, more_calls, no_contexts, perform, deriving_from,
  canceling, canceling_because, binding, detaching, timing, watching, stopping,
}
use go_like.Context.Cancellation.{
  cancel-reaches, Reachable-ended, Leads-ended, IsReached, HasEnded, ReportsSame,
}
use go_like.Context.Deadlines.{with_deadline-earlier}
use go_like.Context.Timers.{wake-due, wakes}

abbrev one : World ℕ
one = perform (deriving_from background) no_contexts

abbrev two : World ℕ
two = perform (binding (local 0) (some 7) 70) one

abbrev three : World ℕ
three = perform (deriving_from (local 1)) two

abbrev four : World ℕ
four = perform (detaching (local 2)) three

abbrev five : World ℕ
five = perform (deriving_from (local 3)) four

one-Reachable : Reachable one
one-Reachable = then_call at_start (deriving_from background) tt

two-Reachable : Reachable two
unfolding perform with_cancel new_cancel_context register_child resolve_done resolve
two-Reachable = then_call one-Reachable (binding (local 0) (some 7) 70) (omega arith)

three-Reachable : Reachable three
unfolding perform with_cancel with_value new_cancel_context register_child resolve_done resolve
three-Reachable = then_call two-Reachable (deriving_from (local 1)) (omega arith)

four-Reachable : Reachable four
unfolding perform with_cancel cancel_cause_func cancel_func cancel run_cancellation_wave settle
    end_node dispatch admit run_tasks cancel_from_parent read_parent_failure
    cause_from_observed_error resolve_err resolve_value run_frames run_callbacks cleanup
    remove_child listening with_value without_cancel new_cancel_context register_child listen
    add_cleanup set_at resolve_done resolve
four-Reachable = then_call three-Reachable (detaching (local 2)) (omega arith)

five-Reachable : Reachable five
unfolding perform with_cancel cancel_cause_func cancel_func cancel run_cancellation_wave settle
    end_node dispatch admit run_tasks cancel_from_parent read_parent_failure
    cause_from_observed_error resolve_err resolve_value run_frames run_callbacks cleanup
    remove_child listening with_value without_cancel new_cancel_context register_child listen
    add_cleanup set_at resolve_done resolve
five-Reachable = then_call four-Reachable (deriving_from (local 3)) (omega arith)

-- The first context is cancelled with a cause: this reaches the third, and stops at the barrier.
abbrev ended : World ℕ
ended = perform (canceling_because 0 (some (foreign 5))) five

ended_below :
    (resolve_err ended (local 1) ≡ some canceled)
    × (resolve_err ended (local 2) ≡ some canceled)
    × (read_cause ended (local 2) ≡ some (foreign 5))
    × (resolve_err ended (local 4) ≡ none)
    × (resolve_value ended (user_key 7) (local 4) ≡ some (bound 70))
unfolding perform with_cancel cancel_cause_func cancel_func cancel run_cancellation_wave settle
    end_node dispatch admit run_tasks cancel_from_parent read_parent_failure
    cause_from_observed_error resolve_err resolve_value run_frames run_callbacks cleanup
    remove_child listening with_value without_cancel new_cancel_context register_child listen
    add_cleanup set_at resolve_done resolve read_cause
ended_below = (refl, refl, refl, refl, refl)

ended-Reachable : Reachable ended
unfolding perform with_cancel cancel_cause_func cancel_func cancel run_cancellation_wave settle
    end_node dispatch admit run_tasks cancel_from_parent read_parent_failure
    cause_from_observed_error resolve_err resolve_value run_frames run_callbacks cleanup
    remove_child listening with_value without_cancel new_cancel_context register_child listen
    add_cleanup set_at resolve_done resolve
ended-Reachable = then_call five-Reachable (canceling_because 0 (some (foreign 5))) (omega arith)

-- A child of a context that has ended is ended from the start.
late_child : resolve_err (perform (deriving_from (local 2)) ended) (local 5) ≡ some canceled
unfolding perform with_cancel cancel_cause_func cancel_func cancel run_cancellation_wave settle
    end_node dispatch admit run_tasks cancel_from_parent read_parent_failure
    cause_from_observed_error resolve_err resolve_value run_frames run_callbacks cleanup
    remove_child listening with_value without_cancel new_cancel_context register_child listen
    add_cleanup set_at resolve_done resolve
late_child = refl

abbrev why : Failure
why = record { err = canceled; cause = foreign 5 }

cancel-reaches_example :
    (IsReached five 0 (local 2)
      → resolve_err five (local 2) ≡ none
      → HasEnded (cancel five 0 why).0 why (local 2))
    × (ReportsSame five (cancel five 0 why).0 (local 2)
        ⊎ (IsReached five 0 (local 2)
            × (resolve_err five (local 2) ≡ none)
            × HasEnded (cancel five 0 why).0 why (local 2)))
unfolding perform with_cancel cancel_cause_func cancel_func cancel run_cancellation_wave settle
    end_node dispatch admit run_tasks cancel_from_parent read_parent_failure
    cause_from_observed_error resolve_err resolve_value run_frames run_callbacks cleanup
    remove_child listening with_value without_cancel new_cancel_context register_child listen
    add_cleanup set_at resolve_done resolve
cancel-reaches_example = cancel-reaches five 0 why (local 2) five-Reachable (omega arith) refl refl

Reachable-ended_example :
    (err cause : Thrown) × ((ended.cells 2).err ≡ some err) × ((ended.cells 2).cause ≡ some cause)
unfolding perform with_cancel cancel_cause_func cancel_func cancel run_cancellation_wave settle
    end_node dispatch admit run_tasks cancel_from_parent read_parent_failure
    cause_from_observed_error resolve_err resolve_value run_frames run_callbacks cleanup
    remove_child listening with_value without_cancel new_cancel_context register_child listen
    add_cleanup set_at resolve_done resolve node_at
Reachable-ended_example = Reachable-ended ended 2 (local 1) none canceled ended-Reachable refl refl

abbrev afterwards : World ℕ
afterwards = perform (canceling 2) ended

Leads-ended_example :
    (resolve_err afterwards (local 1) ≡ some canceled)
    × (read_cause afterwards (local 1) ≡ read_cause ended (local 1))
unfolding perform with_cancel cancel_cause_func cancel_func cancel run_cancellation_wave settle
    end_node dispatch admit run_tasks cancel_from_parent read_parent_failure
    cause_from_observed_error resolve_err resolve_value run_frames run_callbacks cleanup
    remove_child listening with_value without_cancel new_cancel_context register_child listen
    add_cleanup set_at resolve_done resolve read_cause
Leads-ended_example =
    Leads-ended ended afterwards (local 1) canceled ended-Reachable
      (more_calls no_call (canceling 2) (omega arith)) (omega arith) refl

abbrev clocks : Clocks
clocks = record { wall = 1000; monotonic = some 10; set_timeout = none }

abbrev broken_clocks : Clocks
broken_clocks = record { wall = 1000; monotonic = some 10; set_timeout = some (foreign 1) }

abbrev timed : World ℕ
timed = perform (timing background (some 5000) none clocks) no_contexts

timed-Reachable : Reachable timed
timed-Reachable = then_call at_start (timing background (some 5000) none clocks) tt

with_deadline-earlier_example :
    ((with_deadline timed (local 0) (some 9000) none clocks).1 ≡ ok (local 1))
    × (resolve_deadline (with_deadline timed (local 0) (some 9000) none clocks).0 (local 1)
        ≡ some 5000)
unfolding perform with_cancel cancel_cause_func cancel_func cancel run_cancellation_wave settle
    end_node dispatch admit run_tasks cancel_from_parent read_parent_failure
    cause_from_observed_error resolve_err resolve_value run_frames run_callbacks cleanup
    remove_child listening with_value without_cancel new_cancel_context register_child listen
    add_cleanup set_at resolve_done resolve with_deadline new_timed_context new_own_deadline
    start_deadline_timer armed_timer set_timer wake wakes resolve_deadline
with_deadline-earlier_example =
    with_deadline-earlier timed (local 0) 9000 10 none clocks timed-Reachable (omega arith)
      (omega arith) refl refl

wake-due_example :
    (((wakes timed 0 (100 ∷ 4009 ∷ [])).cells 0).err ≡ none)
    × HasFailed
        (wake (wakes timed 0 (100 ∷ 4009 ∷ [])) 0 4010).cells
        (deadline_failure deadline_exceeded)
        0
unfolding perform with_cancel cancel_cause_func cancel_func cancel run_cancellation_wave settle
    end_node dispatch admit run_tasks cancel_from_parent read_parent_failure
    cause_from_observed_error resolve_err resolve_value run_frames run_callbacks cleanup
    remove_child listening with_value without_cancel new_cancel_context register_child listen
    add_cleanup set_at resolve_done resolve with_deadline new_timed_context new_own_deadline
    start_deadline_timer armed_timer set_timer wake wakes resolve_deadline
wake-due_example =
    wake-due timed 0 4010 (100 ∷ 4009 ∷ [])
      (record { target = 4010; delay = 4000; cause = deadline_exceeded }) timed-Reachable
      (omega arith) refl refl (omega arith, (omega arith, tt)) (omega arith)

-- Deadlines that the functions refuse.
refused :
    ((with_deadline one background none none clocks).1 ≡ throw range_error)
    × ((with_deadline one background (some 5000) none broken_clocks).1 ≡ throw (foreign 1))
    × ((with_timeout one background (behind 1001) none clocks).1 ≡ throw range_error)
    × ((with_value one background none 3).1 ≡ throw type_error)
unfolding perform with_cancel cancel_cause_func cancel_func cancel run_cancellation_wave settle
    end_node dispatch admit run_tasks cancel_from_parent read_parent_failure
    cause_from_observed_error resolve_err resolve_value run_frames run_callbacks cleanup
    remove_child listening with_value without_cancel new_cancel_context register_child listen
    add_cleanup set_at resolve_done resolve with_deadline new_timed_context new_own_deadline
    start_deadline_timer armed_timer set_timer wake wakes resolve_deadline with_timeout
    requested_epoch
refused = (refl, refl, refl, refl)

-- A callback is queued by the end of its context; stopping it then prevents nothing.
abbrev watched : World ℕ
watched = perform (canceling 0) (perform (watching (local 0)) one)

admitted_once : (watched.queued ≡ 0 ∷ []) × ((stop watched (some 0) 0).1 ≡ false)
unfolding perform with_cancel cancel_cause_func cancel_func cancel run_cancellation_wave settle
    end_node dispatch admit run_tasks cancel_from_parent read_parent_failure
    cause_from_observed_error resolve_err resolve_value run_frames run_callbacks cleanup
    remove_child listening with_value without_cancel new_cancel_context register_child listen
    add_cleanup set_at resolve_done resolve after_func stop remove_callback
admitted_once = (refl, refl)

stopped_first :
    ((perform
        (canceling 0)
        (perform (stopping (local 0) 0) (perform (watching (local 0)) one))).queued
      ≡ [])
unfolding perform with_cancel cancel_cause_func cancel_func cancel run_cancellation_wave settle
    end_node dispatch admit run_tasks cancel_from_parent read_parent_failure
    cause_from_observed_error resolve_err resolve_value run_frames run_callbacks cleanup
    remove_child listening with_value without_cancel new_cancel_context register_child listen
    add_cleanup set_at resolve_done resolve after_func stop remove_callback
stopped_first = refl
