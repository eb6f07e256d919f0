-- ===== src/Context/Reachable.antt =====
-- packages/context/src: the states that calls of the package can lead to, each call made when the
-- one before has returned: not from an abort listener of the program, inside a cancellation wave.
use mathlib.Core.List.{append-nil}
use go_like.Prelude.{
  ℕ, suc, ◌<◌, ◌≡◌, refl, ◌∙◌, ap, List, [], ◌∷◌, ◌++◌, Option, none, some, length, inl, inr, arith,
  ◌==◌, Option-cases, Bool-cases, Thrown, canceled,
}
use go_like.Context.Nodes.{Context, IsKnown}
use go_like.Context.World.{
  World, Cell, new_cell, Listener, child, callback, OnceState, pending, admitted, stopped, set_at,
  or_observed, resolve_done,
}
use go_like.Context.Wave.{queue_from}
use go_like.Context.Derive.{
  with_cancel, cancel_func, cancel_cause_func, with_value, without_cancel, with_deadline,
  with_timeout, wake, after_func, stop, Clocks, Millis, listen, remove_callback, silenced,
}
use go_like.Context.Signals.{done_in}
use go_like.Context.Links.{children_of, upstream, node_at}
use go_like.Context.Registering.{IsWhole, children_of-append}
use go_like.Context.Calls.{
  IsLater, IsLater-trans, unchanged, cancel-IsLater, new_cancel_context-IsLater, retouched-IsLater,
}
use go_like.Context.Timed.{
  with_deadline-IsLater, with_timeout-IsLater, wake-IsLater, with_value-IsLater,
  without_cancel-IsLater,
}

callbacks-silent :
    (ls : List Listener) (id : ℕ) → children_of (ls ++ callback id ∷ []) ≡ children_of ls
unfolding children_of
callbacks-silent ls id = children_of-append ls (callback id ∷ []) ∙ append-nil (children_of ls)

removed-children :
    (id : ℕ) (ls : List Listener) → children_of (remove_callback id ls) ≡ children_of ls
unfolding children_of remove_callback
removed-children id [] = refl
removed-children id (child c ∷ ls) = ap (◌∷◌ c) (removed-children id ls)
removed-children id (callback k ∷ ls) = elim (Bool-cases (k == id)) [
  | inl same ↦ rw (same, remove_callback) (removed-children id ls)
  | inr other ↦ rw (other, remove_callback) (removed-children id ls)
]

module _ {V : Type 0} where
  queue_from-IsLater :
      (s : OnceState) (id : ℕ) (w known : World V)
      → IsLater w known
      → IsLater w (queue_from s id known)
  queue_from-IsLater pending id w known h = record {
    whole = h.whole;
    grows = h.grows;
    lasting = h.lasting;
    exposes = h.exposes;
  }
  queue_from-IsLater admitted id w known h = h
  queue_from-IsLater stopped id w known h = h

  after_func-IsLater : (w : World V) (c : Context) → IsWhole w → IsLater w (after_func w c)
  unfolding after_func listen resolve_done
  after_func-IsLater w c h =
      let id = w.registered in
      let known : World V = record w { once = set_at w.once id pending; registered = suc id } in
      let first : IsLater w known = record {
        whole = h;
        grows = omega arith;
        lasting = (λ m e inside over. (refl, refl));
        exposes = (λ x known_here. refl);
      } in
      elim (Option-cases (done_in w.nodes c)) [
        | inl free ↦ rw (free, after_func) first
        | inr (s, exposed) ↦ elim (Option-cases (w.cells s).err) [
          | inr (e, over) ↦
              rw (exposed, after_func) (rw over (queue_from-IsLater pending id w known first))
          | inl still ↦
              let cell : Cell = record (w.cells s) {
                listeners = (w.cells s).listeners ++ callback id ∷ [];
              } in
              rw (exposed, after_func)
                (rw still (
                  IsLater-trans w known (record known { cells = set_at w.cells s cell }) first
                    (retouched-IsLater known s cell refl refl
                      (callbacks-silent (w.cells s).listeners id) h)))
        ]
      ]

  silenced-IsLater :
      (signal : Option ℕ) (id : ℕ) (w : World V) → IsWhole w → IsLater w (silenced signal id w)
  silenced-IsLater none id w h = unchanged w h
  silenced-IsLater (some s) id w h =
      retouched-IsLater w s
        (record (w.cells s) { listeners = remove_callback id (w.cells s).listeners }) refl refl
        (removed-children id (w.cells s).listeners) h

  stop_by :
      (w : World V) (signal : Option ℕ) (id : ℕ) (s : OnceState)
      → w.once id ≡ s
      → IsWhole w
      → IsLater w (stop w signal id).0
  unfolding stop
  stop_by w signal id pending at h =
      let off : World V = record w { once = set_at w.once id stopped } in
      rw (at, stop)
        (IsLater-trans w off (silenced signal id off)
          (record {
            whole = h;
            grows = omega arith;
            lasting = (λ m e inside over. (refl, refl));
            exposes = (λ x known_here. refl);
          })
          (silenced-IsLater signal id off h))
  stop_by w signal id admitted at h = rw (at, stop) (unchanged w h)
  stop_by w signal id stopped at h = rw (at, stop) (unchanged w h)

-- The calls of the package, and the wakes of its timers.
pub data Call (V : Type 0) : Type 0 where
  deriving_from : Context → Call V
  canceling : ℕ → Call V
  canceling_because : ℕ → Option Thrown → Call V
  binding : Context → Option ℕ → V → Call V
  detaching : Context → Call V
  timing : Context → Option ℕ → Option Thrown → Clocks → Call V
  timing_out : Context → Millis → Option Thrown → Clocks → Call V
  waking : ℕ → ℕ → Call V
  watching : Context → Call V
  stopping : Context → ℕ → Call V

module _ {V : Type 0} where
  unfoldable pub perform : Call V → World V → World V
  unfolding with_cancel cancel_func cancel_cause_func with_value without_cancel with_deadline
      with_timeout wake after_func stop resolve_done
  perform (deriving_from c) w = (with_cancel w c).0
  perform (canceling n) w = cancel_func w n
  perform (canceling_because n cause) w = cancel_cause_func w n cause
  perform (binding c key v) w = (with_value w c key v).0
  perform (detaching c) w = (without_cancel w c).0
  perform (timing c requested cause clocks) w = (with_deadline w c requested cause clocks).0
  perform (timing_out c timeout cause clocks) w = (with_timeout w c timeout cause clocks).0
  perform (waking n now) w = wake w n now
  perform (watching c) w = after_func w c
  perform (stopping c id) w = (stop w (resolve_done w c) id).0

  -- A call has contexts that exist.
  abbrev pub IsCall : World V → Call V → Type 0
  IsCall w (deriving_from c) = IsKnown (length w.nodes) c
  IsCall w (canceling n) = n < length w.nodes
  IsCall w (canceling_because n cause) = n < length w.nodes
  IsCall w (binding c key v) = IsKnown (length w.nodes) c
  IsCall w (detaching c) = IsKnown (length w.nodes) c
  IsCall w (timing c requested cause clocks) = IsKnown (length w.nodes) c
  IsCall w (timing_out c timeout cause clocks) = IsKnown (length w.nodes) c
  IsCall w (waking n now) = n < length w.nodes
  IsCall w (watching c) = IsKnown (length w.nodes) c
  IsCall w (stopping c id) = IsKnown (length w.nodes) c

  abbrev pub no_contexts : World V
  no_contexts = record {
    nodes = [];
    cells = (λ n. new_cell);
    once = (λ n. pending);
    registered = 0;
    queued = [];
  }

  -- The states between calls.
  pub data Reachable : World V → Type 0 where
    at_start : Reachable no_contexts
    then_call :
        {w : World V} → Reachable w → (call : Call V) → IsCall w call → Reachable (perform call w)

  pub perform-IsLater :
      (call : Call V) (w : World V) → IsCall w call → IsWhole w → IsLater w (perform call w)
  unfolding perform with_cancel cancel_func cancel_cause_func resolve_done
  perform-IsLater (deriving_from c) w ok h = new_cancel_context-IsLater w c none ok h
  perform-IsLater (canceling n) w ok h =
      cancel-IsLater w n (record { err = canceled; cause = canceled }) refl ok h
  perform-IsLater (canceling_because n cause) w ok h =
      cancel-IsLater w n (record { err = canceled; cause = or_observed cause canceled }) refl ok h
  perform-IsLater (binding c key v) w ok h = with_value-IsLater w c key v ok h
  perform-IsLater (detaching c) w ok h = without_cancel-IsLater w c ok h
  perform-IsLater (timing c requested cause clocks) w ok h =
      with_deadline-IsLater w c requested cause clocks ok h
  perform-IsLater (timing_out c timeout cause clocks) w ok h =
      with_timeout-IsLater w c timeout cause clocks ok h
  perform-IsLater (waking n now) w ok h = wake-IsLater w n now ok h
  perform-IsLater (watching c) w ok h = after_func-IsLater w c h
  perform-IsLater (stopping c id) w ok h = stop_by w (done_in w.nodes c) id (w.once id) refl h

  no_contexts-IsWhole : IsWhole {V = V} no_contexts
  unfolding upstream node_at children_of
  no_contexts-IsWhole = record {
    linked = record { attached = (λ m q up unended. absurd cc); valid = (λ q. tt) };
    older = tt;
    outcome = (λ m. record { known = (λ e at. absurd cc); caused = (λ e at. absurd cc) });
  }

  pub Reachable-IsWhole : {w : World V} → Reachable w → IsWhole w
  Reachable-IsWhole at_start = no_contexts-IsWhole
  Reachable-IsWhole (then_call {w} r call ok) =
      (perform-IsLater call w ok (Reachable-IsWhole r)).whole

  -- What later calls can lead to.
  pub data Leads (w : World V) : World V → Type 0 where
    no_call : Leads w w
    more_calls :
        {after : World V}
        → Leads w after
        → (call : Call V) → IsCall after call
        → Leads w (perform call after)

  pub Leads-IsLater : {w after : World V} → IsWhole w → Leads w after → IsLater w after
  Leads-IsLater {w} h no_call = unchanged w h
  Leads-IsLater {w} h (more_calls {after} run call ok) =
      let before = Leads-IsLater h run in
      IsLater-trans w after (perform call after) before (perform-IsLater call after ok before.whole)
