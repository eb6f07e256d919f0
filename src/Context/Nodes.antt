-- ===== src/Context/Nodes.antt =====
-- packages/context/src/internal.ts: the nodes of derived contexts and the walk up their parents. The
-- nodes stand newest first, and the address of a node is the number of older ones.
use go_like.Prelude.{
  ℕ, ◌<◌, ◌≡◌, refl, ◌∙◌, ap, sym, ◌≤◌, Bool, true, false, ◌==◌, ==_refl, Bool-cases, if◌then◌else◌,
  List, [], ◌∷◌, Option, length, inl, inr, arith,
}

pub data Context : Type 0 where
  background todo : Context
  local : ℕ → Context

-- A cancel node with its parent and deadline; its signal and its `readErr` are the cell that the
-- node's address names.
pub data Node (V : Type 0) : Type 0 where
  cancel_node : Context → Option ℕ → Node V
  value_node : Context → ℕ → V → Node V
  without_cancel_node : Context → Node V

abbrev pub parent_of : {V : Type 0} → Node V → Context
parent_of (cancel_node parent deadline) = parent
parent_of (value_node parent key stored) = parent
parent_of (without_cancel_node parent) = parent

-- One turn of a loop over the parents: it returns, or goes on with another context.
pub data Turn (R : Type 0) : Type 0 where
  halt : R → Turn R
  onward : Context → Turn R

module _ {V R : Type 0} (root : R) (step : ℕ → Node V → Turn R) where
  abbrev pub turn_at : ℕ → ℕ → Node V → Turn R
  turn_at address place node =
      if address == place then step address node else onward (local address)

  -- The loop that the four resolvers share. A node is older than its children, so the walk goes on
  -- among the older ones.
  unfoldable pub resolve : List (Node V) → Context → R
  resolve nodes background = root
  resolve nodes todo = root
  resolve [] (local address) = root
  resolve (node ∷ older) (local address) = elim (turn_at address (length older) node) [
    | halt result ↦ result
    | onward next ↦ resolve older next
  ]

  abbrev pub settles : List (Node V) → Turn R → R
  settles older (halt result) = result
  settles older (onward next) = resolve older next

  halted :
      (older : List (Node V)) (turn : Turn R) (test : Bool) (other : Turn R)
      → test ≡ true
      → settles older (if test then turn else other) ≡ settles older turn
  halted older turn test other e = rw e refl

  pub resolve_turn :
      (older : List (Node V)) (node : Node V) (address : ℕ)
      → resolve (node ∷ older) (local address) ≡ settles older (turn_at address (length older) node)
  unfolding resolve
  resolve_turn older node address =
      elim (turn_at address (length older) node)
        as (λ t.
          elim t as (λ _. R) [ halt result ↦ result | onward next ↦ resolve older next ]
          ≡ settles older t) [ halt result ↦ refl | onward next ↦ refl ]

  -- The walk from the newest node begins with that node.
  pub resolve-newest :
      (older : List (Node V)) (node : Node V)
      → resolve (node ∷ older) (local (length older)) ≡ settles older (step (length older) node)
  resolve-newest older node =
      resolve_turn older node (length older)
      ∙ halted older (step (length older) node) (length older == length older)
          (onward (local (length older))) (==_refl (length older))

-- The contexts that exist beside this number of nodes.
abbrev pub IsKnown : ℕ → Context → Type 0
IsKnown size background = Unit
IsKnown size todo = Unit
IsKnown size (local address) = address < size

pub IsKnown-mono : (m n : ℕ) (c : Context) → m ≤ n → IsKnown m c → IsKnown n c
IsKnown-mono m n background h k = tt
IsKnown-mono m n todo h k = tt
IsKnown-mono m n (local address) h k = omega arith

==_apart : (a b : ℕ) → a < b → (a == b) ≡ false
==_apart a b h = ground arith

-- What a context that exists resolves to stays when a node is added.
pub resolve-older :
    {V R : Type 0} (root : R) (step : ℕ → Node V → Turn R) (nodes : List (Node V)) (node : Node V)
    (c : Context)
    → IsKnown (length nodes) c
    → resolve root step (node ∷ nodes) c ≡ resolve root step nodes c
unfolding resolve
resolve-older root step nodes node background h = refl
resolve-older root step nodes node todo h = refl
resolve-older root step nodes node (local address) h =
    rw (==_apart address (length nodes) h, resolve) refl

abbrev pub turn_map : {R S : Type 0} → (R → S) → Turn R → Turn S
turn_map f (halt result) = halt (f result)
turn_map f (onward next) = onward next

module _ {V R S : Type 0} (f : R → S) (root : R) (step : ℕ → Node V → Turn R)
    (step' : ℕ → Node V → Turn S)
    (same : (a : ℕ) (node : Node V) → step' a node ≡ turn_map f (step a node)) where
  turn_at-map :
      (address place : ℕ) (node : Node V)
      → turn_at (f root) step' address place node
        ≡ turn_map f (turn_at root step address place node)
  turn_at-map address place node = elim (Bool-cases (address == place)) [
    | inl e ↦ rw e (same address node)
    | inr e ↦ rw e refl
  ]

  settles-map :
      (older : List (Node V)) (t : Turn R)
      → ((c : Context) → resolve (f root) step' older c ≡ f (resolve root step older c))
      → settles (f root) step' older (turn_map f t) ≡ f (settles root step older t)
  settles-map older (halt r) h = refl
  settles-map older (onward c) h = h c

  -- Two walks whose turns agree up to a function agree up to it.
  pub resolve-map :
      (nodes : List (Node V)) (c : Context)
      → resolve (f root) step' nodes c ≡ f (resolve root step nodes c)
  unfolding resolve
  resolve-map nodes background = refl
  resolve-map nodes todo = refl
  resolve-map [] (local address) = refl
  resolve-map (node ∷ older) (local address) =
      resolve_turn (f root) step' older node address
      ∙ ap (settles (f root) step' older) (turn_at-map address (length older) node)
      ∙ settles-map older (turn_at root step address (length older) node) (resolve-map older)
      ∙ ap f (sym (resolve_turn root step older node address))
