-- ===== src/Context/Trees.antt =====
-- packages/context/src: the links of a whole state between two calls, and the changes that keep them.
use go_like.Prelude.{
  ℕ, suc, ◌<◌, ◌≡◌, ◌≢◌, refl, sym, ◌∙◌, ap, subst, ◌==◌, ==_iff, ==_refl, Bool-cases,
  if◌then◌else◌, List, [], ◌∷◌, Option, none, some, length, inl, inr, arith, All, Thrown,
  some-injective,
}
use go_like.Context.Nodes.{
  Context, background, todo, local, onward, resolve, settles, resolve-newest, resolve_turn, Node,
  cancel_node, value_node, without_cancel_node, IsKnown, IsKnown-mono, parent_of, resolve-older,
}
use go_like.Context.World.{Cell, Child, normalized, done_turn}
use go_like.Context.Signals.{done_in}
use go_like.Context.Links.{node_at, upstream, upstream-inside, parent_signal}
use go_like.Context.Settling.{IsListener, IsLinked}

-- An end is recorded with a cancellation error and a cause.
pub record IsOutcome (cell : Cell) : Type 0 where
  pub known : (e : Thrown) → cell.err ≡ some e → normalized (some e) ≡ e
  pub caused : (e : Thrown) → cell.err ≡ some e → (cause : Thrown) × (cell.cause ≡ some cause)

-- Each node is newer than its parent.
abbrev pub AreOlder : {V : Type 0} → List (Node V) → Type 0
AreOlder [] = Unit
AreOlder (node ∷ older) = IsKnown (length older) (parent_of node) × AreOlder older

module _ {V : Type 0} where
  -- A tree whose cancel context has these tasks waiting.
  pub record IsTree (nodes : List (Node V)) (cells : ℕ → Cell) (tasks : List Child) : Type 0 where
    pub linked : IsLinked nodes cells tasks
    pub older : AreOlder nodes
    pub outcome : (m : ℕ) → IsOutcome (cells m)

  node_at-IsKnown :
      (nodes : List (Node V)) (m : ℕ) (node : Node V)
      → AreOlder nodes
      → node_at nodes m ≡ some node
      → IsKnown (length nodes) (parent_of node)
  unfolding node_at
  node_at-IsKnown [] m node h e = absurd cc
  node_at-IsKnown (x ∷ older) m node h e = elim (Bool-cases (m == length older)) [
    | inl here ↦
        let same : x ≡ node =
          some-injective
            (subst (λ t. (if t then some x else node_at older m) ≡ some node) here e) in
        IsKnown-mono (length older) (suc (length older)) (parent_of node) (omega arith)
          (subst (λ y. IsKnown (length older) (parent_of y)) same h.0)
    | inr apart ↦
        let later = subst (λ t. (if t then some x else node_at older m) ≡ some node) apart e in
        IsKnown-mono (length older) (suc (length older)) (parent_of node) (omega arith)
          (node_at-IsKnown older m node h.1 later)
  ]

  signal-older :
      (nodes : List (Node V)) (x : Node V) (found : Option (Node V))
      → ((node : Node V) → found ≡ some node → IsKnown (length nodes) (parent_of node))
      → parent_signal (x ∷ nodes) found ≡ parent_signal nodes found
  signal-older nodes x (some (cancel_node p d)) h =
      resolve-older none done_turn nodes x p (h (cancel_node p d) refl)
  signal-older nodes x (some (value_node p k v)) h = refl
  signal-older nodes x (some (without_cancel_node p)) h = refl
  signal-older nodes x none h = refl

  -- A new node leaves the signals on which the others listen.
  pub upstream-older :
      (nodes : List (Node V)) (x : Node V) (m : ℕ)
      → AreOlder nodes
      → m ≢ length nodes
      → upstream (x ∷ nodes) m ≡ upstream nodes m
  unfolding upstream node_at
  upstream-older nodes x m h apart = elim (Bool-cases (m == length nodes)) [
    | inl here ↦ absurd (apart ((==_iff m (length nodes)).0 here))
    | inr other ↦
        rw (other, upstream, node_at)
          (signal-older nodes x (node_at nodes m) (λ node e. node_at-IsKnown nodes m node h e))
  ]

  pub upstream-newest :
      (nodes : List (Node V)) (x : Node V)
      → AreOlder (x ∷ nodes)
      → upstream (x ∷ nodes) (length nodes) ≡ parent_signal nodes (some x)
  unfolding upstream node_at
  upstream-newest nodes x h =
      rw (==_refl (length nodes), upstream, node_at)
        (signal-older nodes x (some x)
          (λ node e. subst (λ y. IsKnown (length nodes) (parent_of y)) (some-injective e) h.0))

  turn-inside :
      (older : List (Node V)) (x : Node V) (q : ℕ)
      → ((c : Context) → done_in older c ≡ some q → q < length older)
      → settles none done_turn older (done_turn (length older) x) ≡ some q
      → q < suc (length older)
  turn-inside older (cancel_node p d) q h e = let same = some-injective e in omega arith
  turn-inside older (value_node p k v) q h e = omega (arith, h p e)
  turn-inside older (without_cancel_node p) q h e = absurd cc

  -- A context exposes the signal of a node that exists.
  pub done_in-inside :
      (nodes : List (Node V)) (c : Context) (q : ℕ) → done_in nodes c ≡ some q → q < length nodes
  unfolding resolve
  done_in-inside nodes background q e = absurd cc
  done_in-inside nodes todo q e = absurd cc
  done_in-inside [] (local a) q e = absurd cc
  done_in-inside (x ∷ older) (local a) q e = elim (Bool-cases (a == length older)) [
    | inl here ↦
        let at = (==_iff a (length older)).0 here in
        turn-inside older x q (λ c h. done_in-inside older c q h)
          (sym (resolve-newest none done_turn older x)
            ∙ ap (λ k. done_in (x ∷ older) (local k)) (sym at)
            ∙ e)
    | inr apart ↦
        let later = sym (resolve_turn none done_turn older x a) ∙ e in
        omega (
          arith,
          done_in-inside older (local a) q (
              subst
                (λ t.
                  settles none done_turn older (if t then done_turn a x else onward (local a))
                  ≡ some q)
                apart later),
        )
  ]

  by_node :
      (nodes : List (Node V)) (found : Option (Node V)) (q : ℕ)
      → parent_signal nodes found ≡ some q
      → q < length nodes
  by_node nodes (some (cancel_node p d)) q e = done_in-inside nodes p q e
  by_node nodes (some (value_node p k v)) q e = absurd cc
  by_node nodes (some (without_cancel_node p)) q e = absurd cc
  by_node nodes none q e = absurd cc

  pub upstream-signal :
      (nodes : List (Node V)) (m q : ℕ) → upstream nodes m ≡ some q → q < length nodes
  unfolding upstream
  upstream-signal nodes m q e = by_node nodes (node_at nodes m) q e

  IsListener-older :
      (nodes : List (Node V)) (x : Node V) (q : ℕ) (c : Child)
      → AreOlder nodes
      → IsListener nodes q c
      → IsListener (x ∷ nodes) q c
  IsListener-older nodes x q c h (exposed, up, known) =
      let inside = upstream-inside nodes c.address q up in
      (
        resolve-older none done_turn nodes x c.parent known ∙ exposed,
        upstream-older nodes x c.address h (λ at. omega arith) ∙ up,
        IsKnown-mono (length nodes) (suc (length nodes)) c.parent (omega arith) known,
      )

  pub IsListener-all_older :
      (nodes : List (Node V)) (x : Node V) (q : ℕ) (cs : List Child)
      → AreOlder nodes
      → All (IsListener nodes q) cs
      → All (IsListener (x ∷ nodes) q) cs
  IsListener-all_older nodes x q [] h k = tt
  IsListener-all_older nodes x q (c ∷ cs) h k =
      (IsListener-older nodes x q c h k.0, IsListener-all_older nodes x q cs h k.1)
