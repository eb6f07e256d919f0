-- ===== src/Context/Growth.antt =====
-- packages/context/src: a new context, and changes of one cell, keep the links of the others.
use go_like.Prelude.{
  ℕ, ◌≡◌, sym, ◌∙◌, ap, subst, List, [], ◌∷◌, Option, none, some, length, inl, inr, arith, All,
}
use go_like.Context.Nodes.{Context, Node, cancel_node, IsKnown, parent_of}
use go_like.Context.World.{Cell, new_cell, Child, set_at}
use go_like.Context.Signals.{set_at-here, set_at-apart, ℕ-cases}
use go_like.Context.Links.{children_of, IsAmong, upstream, parent_signal}
use go_like.Context.Settling.{IsListener, IsKept, some-not-none}
use go_like.Context.Tidying.{retouched-IsSame, retouched-IsLinked}
use go_like.Context.Trees.{
  IsOutcome, AreOlder, IsTree, upstream-older, upstream-newest, upstream-signal,
  IsListener-all_older,
}

-- The outcome depends on the error and the cause only.
pub IsOutcome-kept :
    (before after : ℕ → Cell) (m : ℕ)
    → IsKept before after m
    → IsOutcome (before m)
    → IsOutcome (after m)
IsOutcome-kept before after m kept h = record {
  known = (λ e at. h.known e (sym kept.0 ∙ at));
  caused = (λ e at. let known = h.caused e (sym kept.0 ∙ at) in (known.0, kept.1 ∙ known.1));
}

new_cell-IsOutcome : IsOutcome new_cell
new_cell-IsOutcome = record { known = (λ e at. absurd cc); caused = (λ e at. absurd cc) }

module _ {V : Type 0} (nodes : List (Node V)) where
  -- Changes of a cell that keep its error, its cause and its children.
  pub retouched-IsTree :
      (cells : ℕ → Cell) (s : ℕ) (cell : Cell)
      → cell.err ≡ (cells s).err
      → cell.cause ≡ (cells s).cause
      → children_of cell.listeners ≡ children_of (cells s).listeners
      → IsTree nodes cells []
      → IsTree nodes (set_at cells s cell) []
  retouched-IsTree cells s cell err cause same h = record {
    linked =
        retouched-IsLinked cells s cell err cause nodes
          (λ m unended among. subst (IsAmong m) (sym same) among)
          (subst (All (IsListener nodes s)) (sym same) (h.linked.valid s)) h.linked;
    older = h.older;
    outcome = (λ m.
        IsOutcome-kept cells (set_at cells s cell) m (retouched-IsSame cells s cell err cause m)
          (h.outcome m));
  }

  -- A node that listens on no signal.
  pub added_free-IsTree :
      (cells : ℕ → Cell) (x : Node V)
      → IsKnown (length nodes) (parent_of x)
      → parent_signal nodes (some x) ≡ none
      → IsTree nodes cells []
      → IsTree (x ∷ nodes) cells []
  added_free-IsTree cells x known free h = record {
    linked = record {
      attached = (λ m q up unended. elim (ℕ-cases m (length nodes)) [
        | inl at ↦ absurd (
            some-not-none (
              sym up
              ∙ ap (upstream (x ∷ nodes)) at
              ∙ upstream-newest nodes x (known, h.older)
              ∙ free))
        | inr other ↦
            h.linked.attached m q (sym (upstream-older nodes x m h.older other) ∙ up) unended
      ]);
      valid = (λ q.
          IsListener-all_older nodes x q (children_of (cells q).listeners) h.older
            (h.linked.valid q));
    };
    older = (known, h.older);
    outcome = h.outcome;
  }

  module _ (cells : ℕ → Cell) where
    abbrev fresh : ℕ → Cell
    fresh = set_at cells (length nodes) new_cell

    fresh-IsOutcome : ((m : ℕ) → IsOutcome (cells m)) → (m : ℕ) → IsOutcome (fresh m)
    fresh-IsOutcome h m = elim (ℕ-cases m (length nodes)) [
      | inl at ↦
          subst IsOutcome (sym (ap fresh at ∙ set_at-here cells (length nodes) new_cell))
            new_cell-IsOutcome
      | inr other ↦ subst IsOutcome (sym (set_at-apart cells (length nodes) m new_cell other)) (h m)
    ]

    fresh-valid :
        (x : Node V) (q : ℕ)
        → AreOlder nodes
        → All (IsListener nodes q) (children_of (cells q).listeners)
        → All (IsListener (x ∷ nodes) q) (children_of (fresh q).listeners)
    unfolding children_of
    fresh-valid x q older h = elim (ℕ-cases q (length nodes)) [
      | inl at ↦
          subst (λ cell. All (IsListener (x ∷ nodes) q) (children_of cell.listeners))
            (sym (ap fresh at ∙ set_at-here cells (length nodes) new_cell)) tt
      | inr other ↦
          subst (λ cell. All (IsListener (x ∷ nodes) q) (children_of cell.listeners))
            (sym (set_at-apart cells (length nodes) q new_cell other))
            (IsListener-all_older nodes x q (children_of (cells q).listeners) older h)
    ]

    -- A new cancel context, while its registration is still to come.
    pub added-IsTree :
        (parent : Context) (deadline : Option ℕ) (c : Child)
        → c.address ≡ length nodes
        → IsKnown (length nodes) parent
        → IsTree nodes cells []
        → IsTree (cancel_node parent deadline ∷ nodes) fresh (c ∷ [])
    added-IsTree parent deadline c here known h = record {
      linked = record {
        attached = (λ m q up unended. elim (ℕ-cases m (length nodes)) [
          | inl at ↦ inr (inl (here ∙ sym at))
          | inr other ↦
              let before =
                sym (upstream-older nodes (cancel_node parent deadline) m h.older other) ∙ up in
              let inside = upstream-signal nodes m q before in
              let same = set_at-apart cells (length nodes) q new_cell (λ e. omega arith) in
              elim (h.linked.attached m q before (
                sym (ap (λ cell. cell.err) (set_at-apart cells (length nodes) m new_cell other))
                ∙ unended)) [
                  | inl waits ↦ inl (
                      subst (λ cell. (cell.err ≡ none) × IsAmong m (children_of cell.listeners))
                        (sym same) waits)
                  | inr none_left ↦ absurd none_left
                ]
        ]);
        valid = (λ q. fresh-valid (cancel_node parent deadline) q h.older (h.linked.valid q));
      };
      older = (known, h.older);
      outcome = fresh-IsOutcome h.outcome;
    }
