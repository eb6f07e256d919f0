-- ===== src/Context/Creating.antt =====
-- packages/context/src/cancel.ts: newCancelContext keeps the links, whatever the parent's state is.
use go_like.Prelude.{
  ℕ, suc, ◌<◌, ◌≡◌, refl, sym, ◌∙◌, ap, subst, [], ◌∷◌, ◌++◌, Option, none, some, length, inl, inr,
  arith, Option-cases, Thrown,
}
use go_like.Context.Nodes.{Context, background, cancel_node, IsKnown, IsKnown-mono, resolve-older}
use go_like.Context.World.{
  World, new_cell, Child, child, Cleanup, stop_parent, set_at, Failure, normalized, done_turn,
  read_parent_failure,
}
use go_like.Context.Wave.{run_cancellation_wave}
use go_like.Context.Derive.{register_child, listen, add_cleanup, new_cancel_context}
use go_like.Context.Tidying.{retouched-IsSame}
use go_like.Context.Signals.{done_in, set_at-here, set_at-apart, read_parent_failure-ended}
use go_like.Context.Links.{upstream}
use go_like.Context.Settling.{IsKept, some-not-none}
use go_like.Context.Spread.{IsCanceled, run_cancellation_wave-IsCanceled}
use go_like.Context.Trees.{IsTree, upstream-newest}
use go_like.Context.Growth.{retouched-IsTree, added-IsTree}
use go_like.Context.Registering.{IsWhole, canceled-IsWhole, listen-IsTree}

module _ {V : Type 0} where
  pub add_cleanup-IsWhole :
      (w : World V) (a : ℕ) (c : Cleanup) → IsWhole w → IsWhole (add_cleanup w a c)
  unfolding add_cleanup
  add_cleanup-IsWhole w a c h =
      let cell = record (w.cells a) { cleanups = (w.cells a).cleanups ++ c ∷ [] } in
      retouched-IsTree w.nodes w.cells a cell refl refl refl h

  -- A state in which one new cancel context is still to be registered.
  pub record IsUnregistered (w : World V) (a : ℕ) (parent : Context) : Type 0 where
    pub tree : (c : Child) → c.address ≡ a → IsTree w.nodes w.cells (c ∷ [])
    pub up : upstream w.nodes a ≡ done_in w.nodes parent
    pub known : IsKnown (length w.nodes) parent
    pub inside : a < length w.nodes
    pub still : (w.cells a).err ≡ none

  free_IsWhole :
      (w : World V) (a : ℕ) (parent : Context)
      → IsUnregistered w a parent
      → done_in w.nodes parent ≡ none
      → IsWhole w
  free_IsWhole w a parent h free =
      let tree = h.tree (record { address = a; parent = parent }) refl in
      record {
        linked = record {
          attached = (λ m q up unended. elim (tree.linked.attached m q up unended) [
            | inl waits ↦ inl waits
            | inr (inl here) ↦
                absurd (some-not-none (sym up ∙ ap (upstream w.nodes) (sym here) ∙ h.up ∙ free))
            | inr (inr none_left) ↦ absurd none_left
          ]);
          valid = tree.linked.valid;
        };
        older = tree.older;
        outcome = tree.outcome;
      }

  -- The child of a parent that has ended is ended by a wave of its own, with the parent's end.
  record IsEndedBy (w after : World V) (a : ℕ) : Type 0 where
    failure : Failure
    known : normalized (some failure.err) ≡ failure.err
    canceled : IsCanceled w a failure after

  ended_child :
      (w : World V) (a : ℕ) (parent : Context) (s : ℕ) (e : Thrown)
      → IsUnregistered w a parent
      → done_in w.nodes parent ≡ some s
      → (w.cells s).err ≡ some e
      → IsEndedBy w (run_cancellation_wave w a (read_parent_failure w parent)) a
  ended_child w a parent s e h exposed over =
      let tree = h.tree (record { address = a; parent = background }) refl in
      let cause = (tree.outcome s).caused e over in
      let f : Failure = record { err = e; cause = cause.0 } in
      let known = (tree.outcome s).known e over in
      let read = read_parent_failure-ended w parent s f exposed over cause.1 known in
      subst (λ g. IsEndedBy w (run_cancellation_wave w a g) a) (sym read)
        (record {
          failure = f;
          known = known;
          canceled = run_cancellation_wave-IsCanceled w a f known h.inside h.still tree.linked;
        })

  ended_IsWhole :
      (w : World V) (a : ℕ) (parent : Context) (s : ℕ) (e : Thrown)
      → IsUnregistered w a parent
      → done_in w.nodes parent ≡ some s
      → (w.cells s).err ≡ some e
      → IsWhole (run_cancellation_wave w a (read_parent_failure w parent))
  ended_IsWhole w a parent s e h exposed over =
      let tree = h.tree (record { address = a; parent = background }) refl in
      let by = ended_child w a parent s e h exposed over in
      canceled-IsWhole w (run_cancellation_wave w a (read_parent_failure w parent)) a by.failure
        by.known tree.older tree.outcome by.canceled

  pub register_child-IsWhole :
      (w : World V) (a : ℕ) (parent : Context) (signal : Option ℕ)
      → IsUnregistered w a parent
      → done_in w.nodes parent ≡ signal
      → IsWhole (register_child w a parent signal)
  unfolding register_child listen
  register_child-IsWhole w a parent none h exposed = free_IsWhole w a parent h exposed
  register_child-IsWhole w a parent (some s) h exposed = elim (Option-cases (w.cells s).err) [
    | inr (e, over) ↦ rw (over, register_child) (ended_IsWhole w a parent s e h exposed over)
    | inl still ↦
        rw (still, register_child)
          (add_cleanup-IsWhole (listen w s (child (record { address = a; parent = parent }))) a
            (stop_parent s)
            (listen-IsTree w a parent s still (h.up ∙ exposed) (exposed, h.up ∙ exposed, h.known)
              (h.tree (record { address = a; parent = parent }) refl)))
  ]

  unregistered :
      (w : World V) (parent : Context) (deadline : Option ℕ)
      → IsKnown (length w.nodes) parent
      → IsWhole w
      → IsUnregistered
          (record w {
            nodes = cancel_node parent deadline ∷ w.nodes;
            cells = set_at w.cells (length w.nodes) new_cell;
          })
          (length w.nodes)
          parent
  unregistered w parent deadline known h =
      let a = length w.nodes in
      let x = cancel_node parent deadline in
      record {
        tree = (λ c here. added-IsTree w.nodes w.cells parent deadline c here known h);
        up =
            upstream-newest w.nodes x (known, h.older)
            ∙ sym (resolve-older none done_turn w.nodes x parent known);
        known = IsKnown-mono a (suc a) parent (omega arith) known;
        inside = omega arith;
        still = ap (λ cell. cell.err) (set_at-here w.cells a new_cell);
      }

  pub new_cancel_context-IsWhole :
      (w : World V) (parent : Context) (deadline : Option ℕ)
      → IsKnown (length w.nodes) parent
      → IsWhole w
      → IsWhole (new_cancel_context w parent deadline (done_in w.nodes parent))
  unfolding new_cancel_context
  new_cancel_context-IsWhole w parent deadline known h =
      register_child-IsWhole
        (record w {
          nodes = cancel_node parent deadline ∷ w.nodes;
          cells = set_at w.cells (length w.nodes) new_cell;
        })
        (length w.nodes) parent (done_in w.nodes parent) (unregistered w parent deadline known h)
        (resolve-older none done_turn w.nodes (cancel_node parent deadline) parent known)

  -- What ended nodes have recorded stays.
  abbrev pub IsLasting : World V → World V → Type 0
  IsLasting w after =
      (m : ℕ) (e : Thrown)
      → m < length w.nodes
      → (w.cells m).err ≡ some e
      → IsKept w.cells after.cells m

  pub canceled-IsLasting :
      (w after : World V) (n : ℕ) (f : Failure) → IsCanceled w n f after → IsLasting w after
  canceled-IsLasting w after n f h m e inside over = elim (h.spread m) [
    | inl kept ↦ kept
    | inr gone ↦ absurd (some-not-none (sym over ∙ gone.0))
  ]

  register_child-IsLasting :
      (w : World V) (a : ℕ) (parent : Context) (signal : Option ℕ)
      → IsUnregistered w a parent
      → done_in w.nodes parent ≡ signal
      → IsLasting w (register_child w a parent signal)
  unfolding register_child listen add_cleanup
  register_child-IsLasting w a parent none h exposed m e inside over = (refl, refl)
  register_child-IsLasting w a parent (some s) h exposed m e inside over =
      elim (Option-cases (w.cells s).err) [
        | inr (e', gone) ↦
            let by = ended_child w a parent s e' h exposed gone in
            rw (gone, register_child)
              (canceled-IsLasting w (run_cancellation_wave w a (read_parent_failure w parent)) a
                by.failure by.canceled m e inside over)
        | inl still ↦
            let l = child (record { address = a; parent = parent }) in
            let noted = record (w.cells s) { listeners = (w.cells s).listeners ++ l ∷ [] } in
            let cells = set_at w.cells s noted in
            let cleaned = record (cells a) {
              cleanups = (cells a).cleanups ++ stop_parent s ∷ [];
            } in
            let first = retouched-IsSame w.cells s noted refl refl m in
            let second = retouched-IsSame cells a cleaned refl refl m in
            rw (still, register_child) (second.0 ∙ first.0, second.1 ∙ first.1)
      ]

  pub new_cancel_context-IsLasting :
      (w : World V) (parent : Context) (deadline : Option ℕ)
      → IsKnown (length w.nodes) parent
      → IsWhole w
      → IsLasting w (new_cancel_context w parent deadline (done_in w.nodes parent))
  unfolding new_cancel_context
  new_cancel_context-IsLasting w parent deadline known h m e inside over =
      let a = length w.nodes in
      let x = cancel_node parent deadline in
      let added : World V = record w { nodes = x ∷ w.nodes; cells = set_at w.cells a new_cell } in
      let same = set_at-apart w.cells a m new_cell (λ at. omega arith) in
      let later =
        register_child-IsLasting added a parent (done_in w.nodes parent)
          (unregistered w parent deadline known h)
          (resolve-older none done_turn w.nodes x parent known) m e (omega arith)
          (ap (λ cell. cell.err) same ∙ over) in
      (later.0 ∙ ap (λ cell. cell.err) same, later.1 ∙ ap (λ cell. cell.cause) same)

  register_child-nodes :
      (w : World V) (a : ℕ) (parent : Context) (signal : Option ℕ)
      → IsUnregistered w a parent
      → done_in w.nodes parent ≡ signal
      → (register_child w a parent signal).nodes ≡ w.nodes
  unfolding register_child listen add_cleanup
  register_child-nodes w a parent none h exposed = refl
  register_child-nodes w a parent (some s) h exposed = elim (Option-cases (w.cells s).err) [
    | inr (e', gone) ↦
        rw (gone, register_child) ((ended_child w a parent s e' h exposed gone).canceled.same_nodes)
    | inl still ↦ rw (still, register_child) refl
  ]

  pub new_cancel_context-nodes :
      (w : World V) (parent : Context) (deadline : Option ℕ)
      → IsKnown (length w.nodes) parent
      → IsWhole w
      → (new_cancel_context w parent deadline (done_in w.nodes parent)).nodes
        ≡ cancel_node parent deadline ∷ w.nodes
  unfolding new_cancel_context
  new_cancel_context-nodes w parent deadline known h =
      register_child-nodes
        (record w {
          nodes = cancel_node parent deadline ∷ w.nodes;
          cells = set_at w.cells (length w.nodes) new_cell;
        })
        (length w.nodes) parent (done_in w.nodes parent) (unregistered w parent deadline known h)
        (resolve-older none done_turn w.nodes (cancel_node parent deadline) parent known)
