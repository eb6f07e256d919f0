-- ===== src/Context/Derive.antt =====
-- packages/context/src: the functions that derive contexts (cancel.ts, value.ts, deadline.ts), afterFunc
-- (after-func.ts) and the wake of a deadline timer. Every parent is a context of the package.
use go_like.Prelude.{
  ℕ, suc, ◌+◌, ◌-◌, ◌*◌, min, Bool, true, false, ◌==◌, ltb, leb, if◌then◌else◌, List, [], ◌∷◌, ◌++◌,
  Option, none, some, length, Thrown, type_error, range_error, canceled, deadline_exceeded, Result,
  ok, throw, ◌>>◌, require,
}
use go_like.Context.Nodes.{Context, local, Node, cancel_node, value_node, without_cancel_node}
use go_like.Context.World.{
  World, new_cell, Listener, child, callback, Cleanup, stop_parent, clear_timer, Timer, pending,
  admitted, stopped, set_at, Failure, resolve_done, resolve_deadline, read_parent_failure,
  or_observed,
}
use go_like.Context.Wave.{run_cancellation_wave, cancel, queue_from}

abbrev pub maximum_timer_delay : ℕ
maximum_timer_delay = 2147483647

-- Epochs are counted from the least time value, -maximumTimeClip.
abbrev pub maximum_epoch : ℕ
maximum_epoch = 2 * 8640000000000000

abbrev pub armed : ℕ → ℕ → Thrown → Timer
armed target remaining cause = record {
  target = target;
  delay = min maximum_timer_delay remaining;
  cause = cause;
}

abbrev pub deadline_failure : Thrown → Failure
deadline_failure cause = record { err = deadline_exceeded; cause = cause }

-- What a call meets: Date.now() in epochs, performance.now() where it is finite, and what setTimeout
-- throws, if it throws.
pub record Clocks : Type 0 where
  pub wall : ℕ
  pub monotonic : Option ℕ
  pub set_timeout : Option Thrown

-- Whole milliseconds, forward or back.
pub data Millis : Type 0 where
  ahead behind : ℕ → Millis

-- The deadline that newTimeoutContext computes: the wall clock and the sum must be time values.
unfoldable pub requested_epoch : ℕ → Millis → Result ℕ
requested_epoch wall (ahead n) = do
  require (leb wall maximum_epoch) range_error
  require (leb (wall + n) maximum_epoch) range_error
  ok (wall + n)
requested_epoch wall (behind n) = do
  require (leb wall maximum_epoch) range_error
  require (leb n wall) range_error
  ok (wall - n)

unfoldable pub remove_callback : ℕ → List Listener → List Listener
remove_callback id [] = []
remove_callback id (child c ∷ ls) = child c ∷ remove_callback id ls
remove_callback id (callback k ∷ ls) =
    let rest = remove_callback id ls in if k == id then rest else callback k ∷ rest

module _ {V : Type 0} where
  abbrev pub add_node : World V → Node V → World V
  add_node w node = record w { nodes = node ∷ w.nodes }

  -- A listener on the signal of a cell.
  unfoldable pub listen : World V → ℕ → Listener → World V
  unfolding set_at
  listen w signal l =
      let cell = w.cells signal in
      record w {
        cells = set_at w.cells signal (record cell { listeners = cell.listeners ++ l ∷ [] });
      }

  unfoldable pub add_cleanup : World V → ℕ → Cleanup → World V
  unfolding set_at
  add_cleanup w address c =
      let cell = w.cells address in
      record w {
        cells = set_at w.cells address (record cell { cleanups = cell.cleanups ++ c ∷ [] });
      }

  -- The registration of `cancelFromParent` on the parent's signal. A parent that has ended ends the
  -- child at once, in a wave of its own.
  unfoldable pub register_child : World V → ℕ → Context → Option ℕ → World V
  unfolding listen add_cleanup run_cancellation_wave read_parent_failure
  register_child w address parent none = w
  register_child w address parent (some signal) = elim (w.cells signal).err [
    | some observed ↦ run_cancellation_wave w address (read_parent_failure w parent)
    | none ↦
        add_cleanup (listen w signal (child (record { address = address; parent = parent })))
          address (stop_parent signal)
  ]

  -- The new context is the one whose address is the number of the nodes before.
  unfoldable pub new_cancel_context : World V → Context → Option ℕ → Option ℕ → World V
  unfolding register_child set_at
  new_cancel_context w parent deadline_epoch parent_signal =
      let address = length w.nodes in
      let added = add_node w (cancel_node parent deadline_epoch) in
      register_child (record added { cells = set_at w.cells address new_cell }) address parent
        parent_signal

  abbrev pub newest : World V → Context
  newest w = local (length w.nodes)

  unfoldable pub with_cancel : World V → Context → World V × Context
  unfolding new_cancel_context resolve_done
  with_cancel w parent = (new_cancel_context w parent none (resolve_done w parent), newest w)

  -- The CancelFunc of withCancel, withDeadline and withTimeout
  unfoldable pub cancel_func : World V → ℕ → World V
  unfolding cancel
  cancel_func w address = (cancel w address (record { err = canceled; cause = canceled })).0

  -- The CancelCauseFunc of withCancelCause
  unfoldable pub cancel_cause_func : World V → ℕ → Option Thrown → World V
  unfolding cancel
  cancel_cause_func w address cause =
      (cancel w address (record { err = canceled; cause = or_observed cause canceled })).0

  -- A key that is null or undefined is `none`.
  unfoldable pub with_value : World V → Context → Option ℕ → V → World V × Result Context
  with_value w parent none v = (w, throw type_error)
  with_value w parent (some key) v = (add_node w (value_node parent key v), ok (newest w))

  unfoldable pub without_cancel : World V → Context → World V × Context
  without_cancel w parent = (add_node w (without_cancel_node parent), newest w)

  unfoldable pub set_timer : World V → ℕ → Option Timer → World V
  unfolding set_at
  set_timer w address timer =
      let cell = w.cells address in
      record w { cells = set_at w.cells address (record cell { timer = timer }) }

  -- The first segment of the timer, behind its cleanup; a setTimeout that throws ends the context.
  unfoldable pub armed_timer :
      World V → ℕ → ℕ → ℕ → Thrown → Option Thrown → World V × Option Thrown
  unfolding cancel_func set_timer
  armed_timer w address monotonic remaining cause none =
      (set_timer w address (some (armed (monotonic + remaining) remaining cause)), none)
  armed_timer w address monotonic remaining cause (some thrown) =
      (cancel_func w address, some thrown)

  -- With what it throws, if it throws.
  unfoldable pub start_deadline_timer : World V → ℕ → ℕ → Thrown → Clocks → World V × Option Thrown
  unfolding cancel cancel_func add_cleanup armed_timer
  start_deadline_timer w address requested cause clocks = elim (w.cells address).err [
    | some observed ↦ (w, none)
    | none ↦
        if leb requested clocks.wall
        then ((cancel w address (deadline_failure cause)).0, none)
        else elim clocks.monotonic [
          | none ↦ (cancel_func w address, some range_error)
          | some now ↦
              armed_timer (add_cleanup w address clear_timer) address now (requested - clocks.wall)
                cause clocks.set_timeout
        ]
  ]

  abbrev pub returned : World V × Option Thrown → Context → World V × Result Context
  returned made c = elim made.1 [ none ↦ (made.0, ok c) | some thrown ↦ (made.0, throw thrown) ]

  -- The deadline of a timed context that follows its own deadline.
  unfoldable pub new_own_deadline :
      World V → Context → ℕ → Option Thrown → Clocks → World V × Result Context
  unfolding new_cancel_context resolve_done start_deadline_timer cancel_func
  new_own_deadline w parent requested cause clocks =
      let made = new_cancel_context w parent (some requested) (resolve_done w parent) in
      let address = length w.nodes in
      if leb clocks.wall maximum_epoch
      then returned
          (start_deadline_timer made address requested (or_observed cause deadline_exceeded) clocks)
          (newest w)
      else (cancel_func made address, throw range_error)

  unfoldable pub new_timed_context :
      World V → Context → ℕ → Option ℕ → Option Thrown → Clocks → World V × Result Context
  unfolding new_own_deadline new_cancel_context resolve_done
  new_timed_context w parent requested none cause clocks =
      new_own_deadline w parent requested cause clocks
  new_timed_context w parent requested (some parent_epoch) cause clocks =
      if ltb parent_epoch requested
      then (new_cancel_context w parent none (resolve_done w parent), ok (newest w))
      else new_own_deadline w parent requested cause clocks

  -- `newDeadlineContext`: a Date that is not valid has no time.
  unfoldable pub with_deadline :
      World V → Context → Option ℕ → Option Thrown → Clocks → World V × Result Context
  unfolding new_timed_context resolve_deadline
  with_deadline w parent none cause clocks = (w, throw range_error)
  with_deadline w parent (some requested) cause clocks =
      new_timed_context w parent requested (resolve_deadline w parent) cause clocks

  unfoldable pub with_timeout :
      World V → Context → Millis → Option Thrown → Clocks → World V × Result Context
  unfolding new_timed_context resolve_deadline requested_epoch
  with_timeout w parent timeout cause clocks = elim (requested_epoch clocks.wall timeout) [
    | throw failure ↦ (w, throw failure)
    | ok requested ↦ new_timed_context w parent requested (resolve_deadline w parent) cause clocks
  ]

  -- `wake` of the deadline timer of a context; a timer that was cleared does nothing. The clock is
  -- finite, and setting the timer again does not throw.
  unfoldable pub wake : World V → ℕ → ℕ → World V
  unfolding set_timer cancel
  wake w address now = elim (w.cells address).timer [
    | none ↦ w
    | some timer ↦
        if ltb now timer.target
        then set_timer w address (some (armed timer.target (timer.target - now) timer.cause))
        else (cancel (set_timer w address none) address (deadline_failure timer.cause)).0
  ]

  -- afterFunc: the number of the callback names its registration.
  unfoldable pub after_func : World V → Context → World V
  unfolding listen resolve_done set_at
  after_func w c =
      let id = w.registered in
      let known = record w { once = set_at w.once id pending; registered = suc id } in
      elim (resolve_done w c) [
        | none ↦ known
        | some signal ↦ elim (w.cells signal).err [
          | some observed ↦ queue_from pending id known
          | none ↦ listen known signal (callback id)
        ]
      ]

  abbrev pub silenced : Option ℕ → ℕ → World V → World V
  silenced none id w = w
  silenced (some signal) id w =
      let cell = w.cells signal in
      record w {
        cells =
            set_at w.cells signal (record cell { listeners = remove_callback id cell.listeners });
      }

  -- The StopFunc of a registration with this signal: whether it prevented the admission.
  unfoldable pub stop : World V → Option ℕ → ℕ → World V × Bool
  unfolding set_at remove_callback
  stop w signal id = elim (w.once id) [
    | pending ↦ (silenced signal id (record w { once = set_at w.once id stopped }), true)
    | admitted ↦ (w, false)
    | stopped ↦ (w, false)
  ]
