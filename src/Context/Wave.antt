-- ===== src/Context/Wave.antt =====
-- packages/context/src/cancel.ts: the cancellation wave. Tasks run first in, first out; then the
-- cleanups of each ended node, the node that ended last before the others. The cleanups of the package
-- add no task, so the tasks are drained before the first of them. A program can listen for the abort
-- of a context's signal itself. Such a listener has no part in the model, which is right as long as it
-- does not call the package: a call of a cancel function or a registration inside a wave, with the
-- nested wave that activeCancellationWave and `previous` are for, is not modelled.
use go_like.Prelude.{
  ℕ, zero, suc, ◌+◌, Bool, true, false, ◌==◌, if◌then◌else◌, List, [], ◌∷◌, ◌++◌, none, some,
  length,
}
use go_like.Context.World.{
  World, Cell, Child, Listener, child, callback, Cleanup, stop_parent, clear_timer, OnceState,
  pending, admitted, stopped, set_at, Failure, read_parent_failure,
}

-- The cleanup callbacks of one node.
pub record Frame : Type 0 where
  pub address : ℕ
  pub callbacks : List Cleanup

pub record Wave (V : Type 0) : Type 0 where
  pub world : World V
  pub tasks : List Child
  pub frames : List Frame

abbrev pub ended : Cell → Failure → Cell
ended cell failure = record cell {
  err = some failure.err;
  cause = some failure.cause;
  listeners = [];
  cleanups = [];
}

unfoldable pub remove_child : ℕ → List Listener → List Listener
remove_child address [] = []
remove_child address (callback id ∷ ls) = callback id ∷ remove_child address ls
remove_child address (child c ∷ ls) =
    let rest = remove_child address ls in if c.address == address then rest else child c ∷ rest

unfoldable pub cleanup : ℕ → Cleanup → (ℕ → Cell) → ℕ → Cell
unfolding set_at remove_child
cleanup address (stop_parent signal) cells =
    set_at cells signal
      (record (cells signal) { listeners = remove_child address (cells signal).listeners })
cleanup address clear_timer cells = set_at cells address (record (cells address) { timer = none })

unfoldable pub run_callbacks : ℕ → List Cleanup → (ℕ → Cell) → ℕ → Cell
unfolding cleanup
run_callbacks address [] cells = cells
run_callbacks address (c ∷ cs) cells = run_callbacks address cs (cleanup address c cells)

unfoldable pub run_frames : List Frame → (ℕ → Cell) → ℕ → Cell
unfolding run_callbacks
run_frames [] cells = cells
run_frames (f ∷ fs) cells = run_frames fs (run_callbacks f.address f.callbacks cells)

-- How many listeners stand at the signals of the nodes.
unfoldable pub listening : (ℕ → Cell) → ℕ → ℕ
listening cells zero = 0
listening cells (suc n) = length (cells n).listeners + listening cells n

module _ {V : Type 0} where
  -- The admission of a queued callback by afterFunc.
  abbrev pub queue_from : OnceState → ℕ → World V → World V
  queue_from pending id w = record w {
    once = set_at w.once id admitted;
    queued = w.queued ++ id ∷ [];
  }
  queue_from admitted id w = w
  queue_from stopped id w = w

  -- A child's listener adds its task to the active wave.
  unfoldable pub admit : Wave V → Listener → Wave V
  unfolding set_at
  admit wave (child c) = record wave { tasks = wave.tasks ++ c ∷ [] }
  admit wave (callback id) = record wave { world = queue_from (wave.world.once id) id wave.world }

  -- The dispatch of the abort event: the listeners of the package in the order of their registration.
  -- The listeners of a program are taken not to call the package.
  unfoldable pub dispatch : Wave V → List Listener → Wave V
  unfolding admit
  dispatch wave [] = wave
  dispatch wave (l ∷ ls) = dispatch (admit wave l) ls

  abbrev pub push_frame : ℕ → List Cleanup → Wave V → Wave V
  push_frame address [] wave = wave
  push_frame address (c ∷ cs) wave = record wave {
    frames = record { address = address; callbacks = c ∷ cs } ∷ wave.frames;
  }

  -- `controller.abort` takes all listeners off the signal, each being registered once.
  unfoldable pub end_node : Wave V → ℕ → Failure → Wave V
  unfolding set_at dispatch
  end_node wave address failure =
      let cell = wave.world.cells address in
      let cells = set_at wave.world.cells address (ended cell failure) in
      let aborted =
        dispatch (record wave { world = record wave.world { cells = cells } }) cell.listeners in
      push_frame address cell.cleanups aborted

  unfoldable pub settle : Wave V → ℕ → Failure → Wave V
  unfolding end_node
  settle wave address failure = elim (wave.world.cells address).err [
    | some observed ↦ wave
    | none ↦ end_node wave address failure
  ]

  -- The task that `cancelFromParent` adds.
  unfoldable pub cancel_from_parent : Wave V → Child → Wave V
  unfolding settle read_parent_failure
  cancel_from_parent wave c = settle wave c.address (read_parent_failure wave.world c.parent)

  unfoldable pub run_tasks : ℕ → Wave V → Wave V
  unfolding cancel_from_parent
  run_tasks zero wave = wave
  run_tasks (suc fuel) wave = elim wave.tasks [
    | [] ↦ wave
    | c ∷ rest ↦ run_tasks fuel (cancel_from_parent (record wave { tasks = rest }) c)
  ]

  -- A wave whose first task ends a node, with no wave around it and none inside it. Each listener adds one task at most, so this fuel is enough.
  unfoldable pub run_cancellation_wave : World V → ℕ → Failure → World V
  unfolding settle run_tasks run_frames listening
  run_cancellation_wave w address failure =
      let begun = settle (record { world = w; tasks = []; frames = [] }) address failure in
      let drained = run_tasks (listening w.cells (length w.nodes)) begun in
      record drained.world { cells = run_frames drained.frames drained.world.cells }

  -- `cancel` of a handle, and whether it was the first.
  unfoldable pub cancel : World V → ℕ → Failure → World V × Bool
  unfolding run_cancellation_wave
  cancel w address failure = elim (w.cells address).err [
    | some observed ↦ (w, false)
    | none ↦ (run_cancellation_wave w address failure, true)
  ]
