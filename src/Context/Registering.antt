-- ===== src/Context/Registering.antt =====
-- packages/context/src/cancel.ts: cancellation and the registration of a child keep the links.
use go_like.Prelude.{
  ℕ, ◌≡◌, refl, sym, ◌∙◌, ap, subst, List, [], ◌∷◌, ◌++◌, none, some, inl, inr, All, some-injective,
}
use go_like.Context.Nodes.{Context, background}
use go_like.Context.World.{
  World, Cell, Child, Listener, child, callback, set_at, Failure, normalized,
}
use go_like.Context.Signals.{set_at-here, set_at-apart, ℕ-cases}
use go_like.Context.Links.{children_of, IsAmong, IsAmong-left, IsAmong-right, All-append, upstream}
use go_like.Context.Settling.{IsListener, IsLinked, IsSpread}
use go_like.Context.Tidying.{retouched-IsSame}
use go_like.Context.Spread.{IsCanceled}
use go_like.Context.Trees.{IsOutcome, AreOlder, IsTree}
use go_like.Context.Growth.{IsOutcome-kept}

pub children_of-append :
    (ls ms : List Listener) → children_of (ls ++ ms) ≡ children_of ls ++ children_of ms
unfolding children_of
children_of-append [] ms = refl
children_of-append (callback id ∷ ls) ms = children_of-append ls ms
children_of-append (child c ∷ ls) ms = ap (◌∷◌ c) (children_of-append ls ms)

module _ {V : Type 0} where
  -- The state between two calls.
  abbrev pub IsWhole : World V → Type 0
  IsWhole w = IsTree w.nodes w.cells []

  spread-IsOutcome :
      (w after : World V) (n : ℕ) (f : Failure) (m : ℕ)
      → normalized (some f.err) ≡ f.err
      → IsOutcome (w.cells m)
      → IsSpread w.nodes f n w.cells after.cells m
      → IsOutcome (after.cells m)
  spread-IsOutcome w after n f m known h (inl kept) = IsOutcome-kept w.cells after.cells m kept h
  spread-IsOutcome w after n f m known h (inr (before, failed, below)) = record {
    known = (λ e at.
        let same = some-injective (sym failed.0 ∙ at) in
        subst (λ t. normalized (some t) ≡ t) same known);
    caused = (λ e at. (f.cause, failed.1));
  }

  pub canceled-IsWhole :
      (w after : World V) (n : ℕ) (f : Failure)
      → normalized (some f.err) ≡ f.err
      → AreOlder w.nodes
      → ((m : ℕ) → IsOutcome (w.cells m))
      → IsCanceled w n f after
      → IsWhole after
  canceled-IsWhole w after n f known older outcome h =
      subst (λ nodes. IsTree nodes after.cells []) (sym h.same_nodes)
        (record {
          linked = h.linked;
          older = older;
          outcome = (λ m. spread-IsOutcome w after n f m known (outcome m) (h.spread m));
        })

  pub start_of_wave :
      (w : World V) (n : ℕ)
      → IsLinked w.nodes w.cells []
      → IsLinked w.nodes w.cells (record { address = n; parent = background } ∷ [])
  start_of_wave w n h = record {
    attached = (λ m q up unended. elim (h.attached m q up unended) [
      | inl waits ↦ inl waits
      | inr none_left ↦ absurd none_left
    ]);
    valid = h.valid;
  }

  -- A child that was waiting for its registration stands at the signal now.
  module _ (w : World V) (a : ℕ) (parent : Context) (s : ℕ) where
    abbrev me : Child
    me = record { address = a; parent = parent }

    abbrev noted : Cell
    noted = record (w.cells s) { listeners = (w.cells s).listeners ++ child me ∷ [] }

    abbrev listened : ℕ → Cell
    listened = set_at w.cells s noted

    noted_here : children_of (listened s).listeners ≡ children_of (w.cells s).listeners ++ me ∷ []
    unfolding children_of
    noted_here =
        ap (λ cell. children_of cell.listeners) (set_at-here w.cells s noted)
        ∙ children_of-append (w.cells s).listeners (child me ∷ [])

    pub listen-IsTree :
        (w.cells s).err ≡ none
        → upstream w.nodes a ≡ some s
        → IsListener w.nodes s me
        → IsTree w.nodes w.cells (me ∷ [])
        → IsTree w.nodes listened []
    listen-IsTree still up_here ok h =
        let same = retouched-IsSame w.cells s noted refl refl in
        record {
          linked = record {
            attached = (λ m q up unended.
                elim (h.linked.attached m q up (sym (same m).0 ∙ unended)) [
                  | inl (q_open, among) ↦ inl (
                    (same q).0 ∙ q_open,
                    elim (ℕ-cases q s) [
                      | inl at ↦
                          subst (λ n. IsAmong m (children_of (listened n).listeners)) (sym at)
                            (subst (IsAmong m) (sym noted_here) (
                              IsAmong-left m (children_of (w.cells s).listeners) (me ∷ []) (
                                subst (λ n. IsAmong m (children_of (w.cells n).listeners)) at
                                  among)))
                      | inr other ↦
                          subst (λ cell. IsAmong m (children_of cell.listeners))
                            (sym (set_at-apart w.cells s q noted other)) among
                    ],
                  )
                  | inr (inl here) ↦
                      let at : q ≡ s =
                        some-injective (sym up ∙ ap (upstream w.nodes) (sym here) ∙ up_here) in
                      inl (
                        (same q).0 ∙ ap (λ n. (w.cells n).err) at ∙ still,
                        subst (λ n. IsAmong m (children_of (listened n).listeners)) (sym at)
                            (subst (IsAmong m) (sym noted_here) (
                              IsAmong-right m (children_of (w.cells s).listeners) (me ∷ [])
                                (inl here))),
                      )
                  | inr (inr none_left) ↦ absurd none_left
                ]);
            valid = (λ q. elim (ℕ-cases q s) [
              | inl at ↦
                  subst (λ n. All (IsListener w.nodes n) (children_of (listened n).listeners))
                    (sym at)
                    (subst (All (IsListener w.nodes s)) (sym noted_here) (
                      All-append (IsListener w.nodes s) (children_of (w.cells s).listeners)
                        (me ∷ []) (h.linked.valid s) (ok, tt)))
              | inr other ↦
                  subst (λ cell. All (IsListener w.nodes q) (children_of cell.listeners))
                    (sym (set_at-apart w.cells s q noted other)) (h.linked.valid q)
            ]);
          };
          older = h.older;
          outcome = (λ m. IsOutcome-kept w.cells listened m (same m) (h.outcome m));
        }
