-- ===== src/Context/Timers.antt =====
-- packages/context/src/deadline.ts: the wakes of a deadline timer.
use go_like.Prelude.{
  ℕ, ◌-◌, ◌<◌, ◌≤◌, ◌≡◌, refl, ◌∙◌, ap, subst, List, [], ◌∷◌, none, some, length, arith, Thrown,
  All, ltb, lt→ltb, false,
}
use go_like.Context.World.{World, Cell, Timer, set_at}
use go_like.Context.Wave.{cancel}
use go_like.Context.Derive.{set_timer, armed, deadline_failure, wake}
use go_like.Context.Signals.{set_at-here}
use go_like.Context.Settling.{HasFailed}
use go_like.Context.Spread.{run_cancellation_wave-IsCanceled}
use go_like.Context.Registering.{IsWhole, start_of_wave}
use go_like.Context.Calls.{set_timer-IsLater}
use go_like.Context.Reachable.{Reachable, Reachable-IsWhole}

ltb-false : (a b : ℕ) → b ≤ a → ltb a b ≡ false
ltb-false a b h = ground arith

module _ {V : Type 0} where
  -- The wakes of the timer of one context, at these monotonic times.
  unfoldable pub wakes : World V → ℕ → List ℕ → World V
  unfolding wake
  wakes w n [] = w
  wakes w n (now ∷ later) = wakes (wake w n now) n later

  -- A context that has not ended, with a timer for this target and cause.
  record IsArmed (w : World V) (n target : ℕ) (cause : Thrown) : Type 0 where
    timer : Timer
    active : (w.cells n).timer ≡ some timer
    to_target : timer.target ≡ target
    with_cause : timer.cause ≡ cause
    still : (w.cells n).err ≡ none
    inside : n < length w.nodes
    whole : IsWhole w

  early_IsArmed :
      (w : World V) (n target now : ℕ) (cause : Thrown)
      → now < target
      → IsArmed w n target cause
      → IsArmed (wake w n now) n target cause
  unfolding wake set_timer
  early_IsArmed w n target now cause early h =
      let t = h.timer in
      let next = armed t.target (t.target - now) t.cause in
      let cell : Cell = record (w.cells n) { timer = some next } in
      let here = set_at-here w.cells n cell in
      let at = h.to_target in
      rw (h.active, lt→ltb now t.target (omega (arith, at)), wake)
        (record {
          timer = next;
          active = ap (λ c. c.timer) here;
          to_target = h.to_target;
          with_cause = h.with_cause;
          still = ap (λ c. c.err) here ∙ h.still;
          inside = h.inside;
          whole = (set_timer-IsLater w n (some next) h.whole).whole;
        })

  early_wakes-IsArmed :
      (w : World V) (n target : ℕ) (nows : List ℕ) (cause : Thrown)
      → All (λ now. now < target) nows
      → IsArmed w n target cause
      → IsArmed (wakes w n nows) n target cause
  unfolding wakes
  early_wakes-IsArmed w n target [] cause early h = h
  early_wakes-IsArmed w n target (now ∷ nows) cause early h =
      early_wakes-IsArmed (wake w n now) n target nows cause early.1
        (early_IsArmed w n target now cause early.0 h)

  cancel_ends :
      (w : World V) (n : ℕ) (cause : Thrown)
      → n < length w.nodes
      → (w.cells n).err ≡ none
      → IsWhole w
      → HasFailed (cancel w n (deadline_failure cause)).0.cells (deadline_failure cause) n
  unfolding cancel
  cancel_ends w n cause inside still h =
      rw (still, cancel)
        ((run_cancellation_wave-IsCanceled w n (deadline_failure cause) refl inside still
          (start_of_wave w n h.linked)).failed)

  due_ends :
      (w : World V) (n target now : ℕ) (cause : Thrown)
      → target ≤ now
      → IsArmed w n target cause
      → HasFailed (wake w n now).cells (deadline_failure cause) n
  unfolding wake set_timer
  due_ends w n target now cause due h =
      let t = h.timer in
      let cell : Cell = record (w.cells n) { timer = none } in
      let idle : World V = record w { cells = set_at w.cells n cell } in
      let here = set_at-here w.cells n cell in
      let at = h.to_target in
      rw (h.active, ltb-false now t.target (omega (arith, at)), wake)
        (subst
          (λ why.
            HasFailed (cancel idle n (deadline_failure t.cause)).0.cells (deadline_failure why) n)
          h.with_cause
          (cancel_ends idle n t.cause h.inside (ap (λ c. c.err) here ∙ h.still)
            (set_timer-IsLater w n none h.whole).whole))

  -- In a state that calls lead to, the timer of a context that has not ended leaves it so at any wakes
  -- before its target, and the first wake at the target or later ends it with `deadlineExceeded` and
  -- the cause of the timer.
  pub wake-due :
      (w : World V) (n now : ℕ) (nows : List ℕ) (timer : Timer)
      → Reachable w
      → n < length w.nodes
      → (w.cells n).err ≡ none
      → (w.cells n).timer ≡ some timer
      → All (λ early. early < timer.target) nows
      → timer.target ≤ now
      → (((wakes w n nows).cells n).err ≡ none)
        × HasFailed (wake (wakes w n nows) n now).cells (deadline_failure timer.cause) n
  wake-due w n now nows timer r inside still active early due =
      let before = early_wakes-IsArmed w n timer.target nows timer.cause early (record {
        timer = timer;
        active = active;
        to_target = refl;
        with_cause = refl;
        still = still;
        inside = inside;
        whole = Reachable-IsWhole r;
      }) in
      (before.still, due_ends (wakes w n nows) n timer.target now timer.cause due before)
