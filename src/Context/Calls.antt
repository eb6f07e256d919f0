-- ===== src/Context/Calls.antt =====
-- packages/context/src: sequences of calls, and what every call keeps.
use go_like.Prelude.{
  ℕ, ◌+◌, ◌-◌, ◌<◌, ◌≤◌, ◌≡◌, refl, ◌∙◌, ap, [], ◌∷◌, ◌++◌, Option, none, some, length, inl, inr,
  arith, Option-cases, Thrown, Bool-cases, leb, canceled,
}
use go_like.Context.Nodes.{Context, cancel_node, resolve-older, IsKnown, IsKnown-mono}
use go_like.Context.World.{
  World, Cell, Cleanup, clear_timer, Timer, set_at, Failure, normalized, done_turn,
}
use go_like.Context.Wave.{run_cancellation_wave, cancel}
use go_like.Context.Derive.{
  set_timer, add_cleanup, start_deadline_timer, new_cancel_context, armed, deadline_failure,
  armed_timer, Clocks, cancel_func,
}
use go_like.Context.Signals.{done_in}
use go_like.Context.Links.{children_of}
use go_like.Context.Tidying.{retouched-IsSame}
use go_like.Context.Growth.{retouched-IsTree}
use go_like.Context.Spread.{run_cancellation_wave-IsCanceled}
use go_like.Context.Registering.{IsWhole, canceled-IsWhole, start_of_wave}
use go_like.Context.Creating.{
  IsLasting, canceled-IsLasting, new_cancel_context-IsWhole, new_cancel_context-IsLasting,
  new_cancel_context-nodes,
}

module _ {V : Type 0} where
  -- What a call makes of a state.
  pub record IsLater (w after : World V) : Type 0 where
    pub whole : IsWhole after
    pub grows : length w.nodes ≤ length after.nodes
    pub lasting : IsLasting w after
    pub exposes :
        (c : Context) → IsKnown (length w.nodes) c → done_in after.nodes c ≡ done_in w.nodes c

  pub IsLater-trans : (a b c : World V) → IsLater a b → IsLater b c → IsLater a c
  IsLater-trans a b c h k = record {
    whole = k.whole;
    grows = (let x = h.grows in let y = k.grows in omega arith);
    lasting = (λ m e inside over.
        let first = h.lasting m e inside over in
        let bound = h.grows in
        let second = k.lasting m e (omega (arith, bound)) (first.0 ∙ over) in
        (second.0 ∙ first.0, second.1 ∙ first.1));
    exposes = (λ x known.
        k.exposes x (IsKnown-mono (length a.nodes) (length b.nodes) x h.grows known)
        ∙ h.exposes x known);
  }

  pub unchanged : (w : World V) → IsWhole w → IsLater w w
  unchanged w h = record {
    whole = h;
    grows = omega arith;
    lasting = (λ m e inside over. (refl, refl));
    exposes = (λ c known. refl);
  }

  pub cancel-IsLater :
      (w : World V) (n : ℕ) (f : Failure)
      → normalized (some f.err) ≡ f.err
      → n < length w.nodes
      → IsWhole w
      → IsLater w (cancel w n f).0
  unfolding cancel
  cancel-IsLater w n f known inside h = elim (Option-cases (w.cells n).err) [
    | inr (e, over) ↦ rw (over, cancel) (unchanged w h)
    | inl still ↦
        let ended =
          run_cancellation_wave-IsCanceled w n f known inside still (start_of_wave w n h.linked) in
        let same = ap length ended.same_nodes in
        rw (still, cancel)
          (record {
            whole =
                canceled-IsWhole w (run_cancellation_wave w n f) n f known h.older h.outcome ended;
            grows = omega (arith, same);
            lasting = canceled-IsLasting w (run_cancellation_wave w n f) n f ended;
            exposes = (λ c k. ap (λ nodes. done_in nodes c) ended.same_nodes);
          })
  ]

  pub new_cancel_context-IsLater :
      (w : World V) (parent : Context) (deadline : Option ℕ)
      → IsKnown (length w.nodes) parent
      → IsWhole w
      → IsLater w (new_cancel_context w parent deadline (done_in w.nodes parent))
  new_cancel_context-IsLater w parent deadline known h =
      let nodes = new_cancel_context-nodes w parent deadline known h in
      let same = ap length nodes in
      record {
        whole = new_cancel_context-IsWhole w parent deadline known h;
        grows = omega (arith, same);
        lasting = new_cancel_context-IsLasting w parent deadline known h;
        exposes = (λ c k.
            ap (λ ns. done_in ns c) nodes
            ∙ resolve-older none done_turn w.nodes (cancel_node parent deadline) c k);
      }

  -- A change of one cell that keeps its error, its cause and its listeners.
  pub retouched-IsLater :
      (w : World V) (s : ℕ) (cell : Cell)
      → cell.err ≡ (w.cells s).err
      → cell.cause ≡ (w.cells s).cause
      → children_of cell.listeners ≡ children_of (w.cells s).listeners
      → IsWhole w
      → IsLater w (record w { cells = set_at w.cells s cell })
  retouched-IsLater w s cell err cause same h = record {
    whole = retouched-IsTree w.nodes w.cells s cell err cause same h;
    grows = omega arith;
    lasting = (λ m e inside over. retouched-IsSame w.cells s cell err cause m);
    exposes = (λ c known. refl);
  }

  pub set_timer-IsLater :
      (w : World V) (a : ℕ) (timer : Option Timer) → IsWhole w → IsLater w (set_timer w a timer)
  unfolding set_timer
  set_timer-IsLater w a timer h =
      retouched-IsLater w a (record (w.cells a) { timer = timer }) refl refl refl h

  add_cleanup-IsLater :
      (w : World V) (a : ℕ) (c : Cleanup) → IsWhole w → IsLater w (add_cleanup w a c)
  unfolding add_cleanup
  add_cleanup-IsLater w a c h =
      retouched-IsLater w a (record (w.cells a) { cleanups = (w.cells a).cleanups ++ c ∷ [] }) refl
        refl refl h

  pub cancel_func-IsLater :
      (w : World V) (n : ℕ) → n < length w.nodes → IsWhole w → IsLater w (cancel_func w n)
  unfolding cancel_func
  cancel_func-IsLater w n inside h =
      cancel-IsLater w n (record { err = canceled; cause = canceled }) refl inside h

  armed_timer-IsLater :
      (w : World V) (a monotonic remaining : ℕ) (cause : Thrown) (thrown : Option Thrown)
      → a < length w.nodes
      → IsWhole w
      → IsLater w (armed_timer w a monotonic remaining cause thrown).0
  unfolding armed_timer
  armed_timer-IsLater w a monotonic remaining cause none inside h =
      set_timer-IsLater w a (some (armed (monotonic + remaining) remaining cause)) h
  armed_timer-IsLater w a monotonic remaining cause (some thrown) inside h =
      cancel_func-IsLater w a inside h

  pub start_deadline_timer-IsLater :
      (w : World V) (a requested : ℕ) (cause : Thrown) (clocks : Clocks)
      → a < length w.nodes
      → IsWhole w
      → IsLater w (start_deadline_timer w a requested cause clocks).0
  unfolding start_deadline_timer
  start_deadline_timer-IsLater w a requested cause clocks inside h =
      elim (Option-cases (w.cells a).err) [
        | inr (e, over) ↦ rw (over, start_deadline_timer) (unchanged w h)
        | inl still ↦ elim (Bool-cases (leb requested clocks.wall)) [
          | inl past ↦
              rw (still, past, start_deadline_timer)
                (cancel-IsLater w a (deadline_failure cause) refl inside h)
          | inr future ↦ elim (Option-cases clocks.monotonic) [
            | inl infinite ↦
                rw (still, future, infinite, start_deadline_timer)
                  (cancel_func-IsLater w a inside h)
            | inr (now, finite) ↦
                let first = add_cleanup-IsLater w a clear_timer h in
                let remaining = requested - clocks.wall in
                let thrown = clocks.set_timeout in
                rw (still, future, finite, start_deadline_timer)
                  (IsLater-trans w (add_cleanup w a clear_timer)
                    (armed_timer (add_cleanup w a clear_timer) a now remaining cause thrown).0 first
                    (armed_timer-IsLater (add_cleanup w a clear_timer) a now remaining cause thrown
                      (let grown = first.grows in omega arith) first.whole))
          ]
        ]
      ]
