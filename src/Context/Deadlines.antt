-- ===== src/Context/Deadlines.antt =====
-- packages/context/src/deadline.ts: the deadline that a timed context has, and when its timer ends it.
use go_like.Prelude.{
  ℕ, ◌<◌, ◌≤◌, ◌≡◌, refl, ◌∙◌, ap, subst, min, Option, none, some, length, inl, inr, arith,
  Option-cases, Thrown, deadline_exceeded, Bool-cases, ltb, leb, Result, ok, true, false,
}
use go_like.Context.Nodes.{Context, local, cancel_node, IsKnown, resolve, resolve-newest}
use go_like.Context.World.{World, or_observed, deadline_turn, resolve_deadline, resolve_done}
use go_like.Context.Wave.{cancel}
use go_like.Context.Derive.{
  with_deadline, Clocks, set_timer, add_cleanup, start_deadline_timer, new_own_deadline,
  new_timed_context, new_cancel_context, maximum_epoch, deadline_failure, newest, armed_timer,
  returned,
}
use go_like.Context.Signals.{done_in}
use go_like.Context.Spread.{run_cancellation_wave-IsCanceled}
use go_like.Context.Registering.{IsWhole, start_of_wave}
use go_like.Context.Creating.{new_cancel_context-nodes, new_cancel_context-IsWhole}
use go_like.Context.Reachable.{Reachable, Reachable-IsWhole}

abbrev pub earlier : Option ℕ → ℕ → ℕ
earlier none requested = requested
earlier (some parent_epoch) requested = min parent_epoch requested

leb-true : (a b : ℕ) → a ≤ b → leb a b ≡ true
leb-true a b h = ground arith

least_left : (a b : ℕ) → ltb a b ≡ true → a ≡ min a b
least_left a b h = ground arith

least_right : (a b : ℕ) → ltb a b ≡ false → b ≡ min a b
least_right a b h = ground arith

module _ {V : Type 0} where
  cancel-nodes :
      (w : World V) (n : ℕ) (cause : Thrown)
      → n < length w.nodes
      → IsWhole w
      → (cancel w n (deadline_failure cause)).0.nodes ≡ w.nodes
  unfolding cancel
  cancel-nodes w n cause inside h = elim (Option-cases (w.cells n).err) [
    | inr (e, over) ↦ rw (over, cancel) refl
    | inl still ↦
        rw (still, cancel)
          ((run_cancellation_wave-IsCanceled w n (deadline_failure cause) refl inside still
            (start_of_wave w n h.linked)).same_nodes)
  ]

  -- With a finite performance.now and a setTimeout that does not throw.
  start_deadline_timer-starts :
      (w : World V) (a requested now : ℕ) (cause : Thrown) (clocks : Clocks)
      → clocks.monotonic ≡ some now
      → clocks.set_timeout ≡ none
      → a < length w.nodes
      → IsWhole w
      → ((start_deadline_timer w a requested cause clocks).1 ≡ none)
        × ((start_deadline_timer w a requested cause clocks).0.nodes ≡ w.nodes)
  unfolding start_deadline_timer set_timer add_cleanup armed_timer
  start_deadline_timer-starts w a requested now cause clocks finite sets inside h =
      elim (Option-cases (w.cells a).err) [
        | inr (e, over) ↦ rw (over, start_deadline_timer) (refl, refl)
        | inl still ↦ elim (Bool-cases (leb requested clocks.wall)) [
          | inl past ↦
              rw (still, past, start_deadline_timer) (refl, cancel-nodes w a cause inside h)
          | inr future ↦ rw (still, future, finite, sets, start_deadline_timer) (refl, refl)
        ]
      ]

  returned-ok :
      (made : World V × Option Thrown) (c : Context)
      → made.1 ≡ none
      → returned made c ≡ (made.0, ok c)
  returned-ok (after, none) c e = refl
  returned-ok (after, some thrown) c e = cc e

  -- The newest context over these nodes has this deadline.
  abbrev GivesDeadline : World V → World V × Result Context → ℕ → Type 0
  GivesDeadline w made epoch =
      (made.1 ≡ ok (newest w)) × (resolve_deadline made.0 (newest w) ≡ some epoch)

  own_GivesDeadline :
      (w : World V) (parent : Context) (requested now : ℕ) (cause : Option Thrown) (clocks : Clocks)
      → clocks.monotonic ≡ some now
      → clocks.set_timeout ≡ none
      → IsKnown (length w.nodes) parent
      → clocks.wall ≤ maximum_epoch
      → IsWhole w
      → GivesDeadline w (new_own_deadline w parent requested cause clocks) requested
  unfolding new_own_deadline resolve_done resolve_deadline
  own_GivesDeadline w parent requested now cause clocks finite sets known valid h =
      let made = new_cancel_context w parent (some requested) (done_in w.nodes parent) in
      let nodes = new_cancel_context-nodes w parent (some requested) known h in
      let size = ap length nodes in
      let why = or_observed cause deadline_exceeded in
      let later =
        start_deadline_timer-starts made (length w.nodes) requested now why clocks finite sets
          (omega (arith, size)) (new_cancel_context-IsWhole w parent (some requested) known h) in
      rw
        (
          leb-true clocks.wall maximum_epoch valid,
          new_own_deadline,
          returned-ok (start_deadline_timer made (length w.nodes) requested why clocks) (newest w)
              later.0,
        )
        (
          refl,
          ap (λ ns. resolve none deadline_turn ns (newest w)) (later.1 ∙ nodes)
              ∙ resolve-newest none deadline_turn w.nodes (cancel_node parent (some requested)),
        )

  by_parent :
      (w : World V) (parent : Context) (requested : ℕ) (epoch : Option ℕ) (cause : Option Thrown)
      (clocks : Clocks) (now : ℕ)
      → resolve_deadline w parent ≡ epoch
      → clocks.monotonic ≡ some now
      → clocks.set_timeout ≡ none
      → IsKnown (length w.nodes) parent
      → clocks.wall ≤ maximum_epoch
      → IsWhole w
      → GivesDeadline w
          (new_timed_context w parent requested epoch cause clocks)
          (earlier epoch requested)
  unfolding new_timed_context resolve_done resolve_deadline
  by_parent w parent requested none cause clocks now e finite sets known valid h =
      own_GivesDeadline w parent requested now cause clocks finite sets known valid h
  by_parent w parent requested (some epoch) cause clocks now e finite sets known valid h =
      elim (Bool-cases (ltb epoch requested)) [
        | inl sooner ↦
            let nodes = new_cancel_context-nodes w parent none known h in
            let least : epoch ≡ min epoch requested = least_left epoch requested sooner in
            rw (sooner, new_timed_context)
              (
                refl,
                ap (λ ns. resolve none deadline_turn ns (newest w)) nodes
                    ∙ resolve-newest none deadline_turn w.nodes (cancel_node parent none)
                    ∙ e
                    ∙ ap some least,
              )
        | inr later ↦
            rw (later, new_timed_context)
              (subst (GivesDeadline w (new_own_deadline w parent requested cause clocks))
                (least_right epoch requested later)
                (own_GivesDeadline w parent requested now cause clocks finite sets known valid h))
      ]

  -- In a state that calls lead to, with a valid deadline, a valid wall clock, a finite performance.now
  -- and a setTimeout that does not throw, withDeadline returns a context whose deadline is the earlier
  -- one of the parent's and the requested one.
  pub with_deadline-earlier :
      (w : World V) (parent : Context) (requested now : ℕ) (cause : Option Thrown) (clocks : Clocks)
      → Reachable w
      → IsKnown (length w.nodes) parent
      → clocks.wall ≤ maximum_epoch
      → clocks.monotonic ≡ some now
      → clocks.set_timeout ≡ none
      → let made = with_deadline w parent (some requested) cause clocks in
        (made.1 ≡ ok (local (length w.nodes)))
        × (resolve_deadline made.0 (local (length w.nodes))
            ≡ some (earlier (resolve_deadline w parent) requested))
  unfolding with_deadline
  with_deadline-earlier w parent requested now cause clocks r known valid finite sets =
      by_parent w parent requested (resolve_deadline w parent) cause clocks now refl finite sets
        known valid (Reachable-IsWhole r)
