-- ===== src/Context/Links.antt =====
-- packages/context/src/cancel.ts: which cancel context listens on which signal, and the state of the
-- listeners between the tasks of a wave.
use mathlib.Core.List.{append-nil}
use go_like.Prelude.{
  ℕ, ◌<◌, ◌≤◌, ◌≡◌, refl, sym, ◌∙◌, ap, subst, ◌==◌, ==_iff, Bool-cases, if◌then◌else◌, List, [],
  ◌∷◌, ◌++◌, Option, none, some, length, inl, inr, arith, ◌⊎◌, All,
}
use go_like.Context.Nodes.{Node, cancel_node, value_node, without_cancel_node}
use go_like.Context.World.{World, Child, Listener, child, callback}
use go_like.Context.Wave.{Wave, admit, dispatch, queue_from}
use go_like.Context.World.{OnceState, pending, admitted, stopped}
use go_like.Context.Signals.{done_in}

unfoldable pub children_of : List Listener → List Child
children_of [] = []
children_of (callback id ∷ ls) = children_of ls
children_of (child c ∷ ls) = c ∷ children_of ls

-- A child stands among these.
abbrev pub IsAmong : ℕ → List Child → Type 0
IsAmong m [] = ⊥
IsAmong m (c ∷ cs) = (c.address ≡ m) ⊎ IsAmong m cs

pub IsAmong-left : (m : ℕ) (cs ds : List Child) → IsAmong m cs → IsAmong m (cs ++ ds)
IsAmong-left m [] ds h = absurd h
IsAmong-left m (c ∷ cs) ds (inl e) = inl e
IsAmong-left m (c ∷ cs) ds (inr h) = inr (IsAmong-left m cs ds h)

pub IsAmong-right : (m : ℕ) (cs ds : List Child) → IsAmong m ds → IsAmong m (cs ++ ds)
IsAmong-right m [] ds h = h
IsAmong-right m (c ∷ cs) ds h = inr (IsAmong-right m cs ds h)

pub All-append : (P : Child → Type 0) (cs ds : List Child) → All P cs → All P ds → All P (cs ++ ds)
All-append P [] ds h k = k
All-append P (c ∷ cs) ds h k = (h.0, All-append P cs ds h.1 k)

pub length-children_of : (ls : List Listener) → length (children_of ls) ≤ length ls
unfolding children_of
length-children_of [] = omega arith
length-children_of (callback id ∷ ls) = omega (arith, length-children_of ls)
length-children_of (child c ∷ ls) = omega (arith, length-children_of ls)

append-step : (cs ds : List Child) (c : Child) → (cs ++ c ∷ []) ++ ds ≡ cs ++ c ∷ ds
append-step [] ds c = refl
append-step (x ∷ cs) ds c = ap (◌∷◌ x) (append-step cs ds c)

module _ {V : Type 0} where
  unfoldable pub node_at : List (Node V) → ℕ → Option (Node V)
  node_at [] address = none
  node_at (node ∷ older) address =
      if address == length older then some node else node_at older address

  abbrev pub parent_signal : List (Node V) → Option (Node V) → Option ℕ
  parent_signal nodes (some (cancel_node parent deadline)) = done_in nodes parent
  parent_signal nodes (some (value_node parent key stored)) = none
  parent_signal nodes (some (without_cancel_node parent)) = none
  parent_signal nodes none = none

  -- The signal that a cancel context listens on.
  unfoldable pub upstream : List (Node V) → ℕ → Option ℕ
  unfolding node_at
  upstream nodes address = parent_signal nodes (node_at nodes address)

  -- The cancel contexts that a cancel context reaches, itself among them.
  pub data Below (nodes : List (Node V)) (origin : ℕ) : ℕ → Type 0 where
    itself : Below nodes origin origin
    under : {m q : ℕ} → upstream nodes m ≡ some q → Below nodes origin q → Below nodes origin m

  node_at-inside :
      (nodes : List (Node V)) (a : ℕ) (node : Node V)
      → node_at nodes a ≡ some node
      → a < length nodes
  unfolding node_at
  node_at-inside [] a node e = absurd cc
  node_at-inside (x ∷ older) a node e = elim (Bool-cases (a == length older)) [
    | inl here ↦ let at : a ≡ length older = (==_iff a (length older)).0 here in omega arith
    | inr apart ↦
        let e' : node_at older a ≡ some node =
          subst (λ t. (if t then some x else node_at older a) ≡ some node) apart e in
        omega (arith, node_at-inside older a node e')
  ]

  inside_by :
      (nodes : List (Node V)) (a q : ℕ) (found : Option (Node V))
      → node_at nodes a ≡ found
      → parent_signal nodes found ≡ some q
      → a < length nodes
  inside_by nodes a q (some node) e h = node_at-inside nodes a node e
  inside_by nodes a q none e h = absurd cc

  pub upstream-inside :
      (nodes : List (Node V)) (a q : ℕ) → upstream nodes a ≡ some q → a < length nodes
  unfolding upstream
  upstream-inside nodes a q h = inside_by nodes a q (node_at nodes a) refl h

  -- What the dispatch of an abort event changes: the tasks of the children are added.
  queue_from-cells : (s : OnceState) (id : ℕ) (w : World V) → (queue_from s id w).cells ≡ w.cells
  queue_from-cells pending id w = refl
  queue_from-cells admitted id w = refl
  queue_from-cells stopped id w = refl

  queue_from-nodes : (s : OnceState) (id : ℕ) (w : World V) → (queue_from s id w).nodes ≡ w.nodes
  queue_from-nodes pending id w = refl
  queue_from-nodes admitted id w = refl
  queue_from-nodes stopped id w = refl

  pub dispatch-cells :
      (wave : Wave V) (ls : List Listener) → (dispatch wave ls).world.cells ≡ wave.world.cells
  unfolding dispatch admit
  dispatch-cells wave [] = refl
  dispatch-cells wave (child c ∷ ls) = dispatch-cells (admit wave (child c)) ls
  dispatch-cells wave (callback id ∷ ls) =
      dispatch-cells (admit wave (callback id)) ls
      ∙ queue_from-cells (wave.world.once id) id wave.world

  pub dispatch-nodes :
      (wave : Wave V) (ls : List Listener) → (dispatch wave ls).world.nodes ≡ wave.world.nodes
  unfolding dispatch admit
  dispatch-nodes wave [] = refl
  dispatch-nodes wave (child c ∷ ls) = dispatch-nodes (admit wave (child c)) ls
  dispatch-nodes wave (callback id ∷ ls) =
      dispatch-nodes (admit wave (callback id)) ls
      ∙ queue_from-nodes (wave.world.once id) id wave.world

  pub dispatch-frames :
      (wave : Wave V) (ls : List Listener) → (dispatch wave ls).frames ≡ wave.frames
  unfolding dispatch admit
  dispatch-frames wave [] = refl
  dispatch-frames wave (child c ∷ ls) = dispatch-frames (admit wave (child c)) ls
  dispatch-frames wave (callback id ∷ ls) = dispatch-frames (admit wave (callback id)) ls

  pub dispatch-tasks :
      (wave : Wave V) (ls : List Listener) → (dispatch wave ls).tasks ≡ wave.tasks ++ children_of ls
  unfolding dispatch admit children_of
  dispatch-tasks wave [] = sym (append-nil wave.tasks)
  dispatch-tasks wave (child c ∷ ls) =
      dispatch-tasks (admit wave (child c)) ls ∙ append-step wave.tasks (children_of ls) c
  dispatch-tasks wave (callback id ∷ ls) = dispatch-tasks (admit wave (callback id)) ls
