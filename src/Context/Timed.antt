-- ===== src/Context/Timed.antt =====
-- packages/context/src: what the remaining calls keep: deadlines, timers, values and callbacks.
use go_like.Prelude.{
  ℕ, ◌-◌, ◌<◌, refl, ap, ◌∷◌, Option, none, some, length, inl, inr, arith, Option-cases, Thrown,
  canceled, deadline_exceeded, Bool-cases, ltb, leb, Result-cases,
}
use go_like.Context.Nodes.{Context, Node, value_node, without_cancel_node, IsKnown, resolve-older}
use go_like.Context.World.{World, or_observed, done_turn, resolve_done, resolve_deadline}
use go_like.Context.Wave.{cancel}
use go_like.Context.Derive.{
  cancel_func, with_value, without_cancel, with_deadline, with_timeout, wake, Clocks, Millis,
  set_timer, start_deadline_timer, new_own_deadline, new_timed_context, new_cancel_context,
  maximum_epoch, armed, returned, newest, deadline_failure, requested_epoch,
}
use go_like.Context.Signals.{done_in}
use go_like.Context.Growth.{added_free-IsTree}
use go_like.Context.Registering.{IsWhole}
use go_like.Context.Creating.{new_cancel_context-nodes}
use go_like.Context.Calls.{
  IsLater, IsLater-trans, unchanged, cancel-IsLater, new_cancel_context-IsLater, set_timer-IsLater,
  start_deadline_timer-IsLater,
}

module _ {V : Type 0} where
  returned-IsLater :
      (w : World V) (made : World V × Option Thrown) (c : Context)
      → IsLater w made.0
      → IsLater w (returned made c).0
  returned-IsLater w (after, none) c later = later
  returned-IsLater w (after, some thrown) c later = later

  new_own_deadline-IsLater :
      (w : World V) (parent : Context) (requested : ℕ) (cause : Option Thrown) (clocks : Clocks)
      → IsKnown (length w.nodes) parent
      → IsWhole w
      → IsLater w (new_own_deadline w parent requested cause clocks).0
  unfolding new_own_deadline cancel_func resolve_done
  new_own_deadline-IsLater w parent requested cause clocks known h =
      let a = length w.nodes in
      let made = new_cancel_context w parent (some requested) (done_in w.nodes parent) in
      let first = new_cancel_context-IsLater w parent (some requested) known h in
      let size = ap length (new_cancel_context-nodes w parent (some requested) known h) in
      let why = or_observed cause deadline_exceeded in
      elim (Bool-cases (leb clocks.wall maximum_epoch)) [
        | inl valid ↦
            rw (valid, new_own_deadline)
              (returned-IsLater w (start_deadline_timer made a requested why clocks) (newest w) (
                IsLater-trans w made (start_deadline_timer made a requested why clocks).0 first (
                  start_deadline_timer-IsLater made a requested why clocks (omega (arith, size))
                    first.whole)))
        | inr invalid ↦
            rw (invalid, new_own_deadline)
              (IsLater-trans w made (cancel_func made a) first (
                cancel-IsLater made a (record { err = canceled; cause = canceled }) refl
                  (omega (arith, size)) first.whole))
      ]

  pub new_timed_context-IsLater :
      (w : World V) (parent : Context) (requested : ℕ) (parent_epoch : Option ℕ)
      (cause : Option Thrown) (clocks : Clocks)
      → IsKnown (length w.nodes) parent
      → IsWhole w
      → IsLater w (new_timed_context w parent requested parent_epoch cause clocks).0
  unfolding new_timed_context resolve_done
  new_timed_context-IsLater w parent requested none cause clocks known h =
      new_own_deadline-IsLater w parent requested cause clocks known h
  new_timed_context-IsLater w parent requested (some epoch) cause clocks known h =
      elim (Bool-cases (ltb epoch requested)) [
        | inl sooner ↦
            rw (sooner, new_timed_context) (new_cancel_context-IsLater w parent none known h)
        | inr later ↦
            rw (later, new_timed_context)
              (new_own_deadline-IsLater w parent requested cause clocks known h)
      ]

  pub with_deadline-IsLater :
      (w : World V) (parent : Context) (requested : Option ℕ) (cause : Option Thrown)
      (clocks : Clocks)
      → IsKnown (length w.nodes) parent
      → IsWhole w
      → IsLater w (with_deadline w parent requested cause clocks).0
  unfolding with_deadline
  with_deadline-IsLater w parent none cause clocks known h = unchanged w h
  with_deadline-IsLater w parent (some requested) cause clocks known h =
      new_timed_context-IsLater w parent requested (resolve_deadline w parent) cause clocks known h

  pub with_timeout-IsLater :
      (w : World V) (parent : Context) (timeout : Millis) (cause : Option Thrown) (clocks : Clocks)
      → IsKnown (length w.nodes) parent
      → IsWhole w
      → IsLater w (with_timeout w parent timeout cause clocks).0
  unfolding with_timeout
  with_timeout-IsLater w parent timeout cause clocks known h =
      elim (Result-cases (requested_epoch clocks.wall timeout)) [
        | inl (requested, valid) ↦
            rw (valid, with_timeout)
              (new_timed_context-IsLater w parent requested (resolve_deadline w parent) cause clocks
                known h)
        | inr (e, invalid) ↦ rw (invalid, with_timeout) (unchanged w h)
      ]

  pub wake-IsLater :
      (w : World V) (a now : ℕ) → a < length w.nodes → IsWhole w → IsLater w (wake w a now)
  unfolding wake
  wake-IsLater w a now inside h = elim (Option-cases (w.cells a).timer) [
    | inl cleared ↦ rw (cleared, wake) (unchanged w h)
    | inr (timer, active) ↦ elim (Bool-cases (ltb now timer.target)) [
      | inl early ↦
          rw (active, early, wake)
            (set_timer-IsLater w a (some (armed timer.target (timer.target - now) timer.cause)) h)
      | inr due ↦
          let first = set_timer-IsLater w a none h in
          let bound = first.grows in
          rw (active, due, wake)
            (IsLater-trans w (set_timer w a none)
              (cancel (set_timer w a none) a (deadline_failure timer.cause)).0 first
              (cancel-IsLater (set_timer w a none) a (deadline_failure timer.cause) refl
                (omega (arith, bound)) first.whole))
    ]
  ]

  -- A new node that listens on no signal.
  pub add_node-IsLater :
      (w : World V) (x : Node V)
      → IsWhole (record w { nodes = x ∷ w.nodes })
      → IsLater w (record w { nodes = x ∷ w.nodes })
  add_node-IsLater w x h = record {
    whole = h;
    grows = omega arith;
    lasting = (λ m e inside over. (refl, refl));
    exposes = (λ c known. resolve-older none done_turn w.nodes x c known);
  }

  pub with_value-IsLater :
      (w : World V) (parent : Context) (key : Option ℕ) (v : V)
      → IsKnown (length w.nodes) parent
      → IsWhole w
      → IsLater w (with_value w parent key v).0
  unfolding with_value
  with_value-IsLater w parent none v known h = unchanged w h
  with_value-IsLater w parent (some key) v known h =
      add_node-IsLater w (value_node parent key v)
        (added_free-IsTree w.nodes w.cells (value_node parent key v) known refl h)

  pub without_cancel-IsLater :
      (w : World V) (parent : Context)
      → IsKnown (length w.nodes) parent
      → IsWhole w
      → IsLater w (without_cancel w parent).0
  unfolding without_cancel
  without_cancel-IsLater w parent known h =
      add_node-IsLater w (without_cancel_node parent)
        (added_free-IsTree w.nodes w.cells (without_cancel_node parent) known refl h)
