-- ===== src/Context/World.antt =====
-- packages/context/src/internal.ts and cancel.ts: the state of contexts, and what a context answers.
-- The mutable variables of a cancel context and its signal stand in a cell under the node's address.
use go_like.Prelude.{
  ℕ, ◌==◌, if◌then◌else◌, List, [], Option, none, some, Thrown, canceled, deadline_exceeded,
}
use go_like.Context.Nodes.{
  Context, Node, cancel_node, value_node, without_cancel_node, Turn, halt, onward, resolve,
}

-- A registered `cancelFromParent`: the child, and the parent that it reads.
pub record Child : Type 0 where
  pub address : ℕ
  pub parent : Context

-- An abort listener of a signal: a child's, or the admission of a user's callback.
pub data Listener : Type 0 where
  child : Child → Listener
  callback : ℕ → Listener

-- Cleanup work of a cancel context: stopParent, which takes its listener off a signal, and the stop of
-- the deadline timer.
pub data Cleanup : Type 0 where
  stop_parent : ℕ → Cleanup
  clear_timer : Cleanup

-- An armed timer segment: the monotonic target, the delay and the cause of the deadline.
pub record Timer : Type 0 where
  pub target : ℕ
  pub delay : ℕ
  pub cause : Thrown

-- The signal is aborted exactly when `err` is set.
pub record Cell : Type 0 where
  pub err : Option Thrown
  pub cause : Option Thrown
  pub listeners : List Listener
  pub cleanups : List Cleanup
  pub timer : Option Timer

abbrev pub new_cell : Cell
new_cell = record { err = none; cause = none; listeners = []; cleanups = []; timer = none }

pub data OnceState : Type 0 where
  pending admitted stopped : OnceState

-- The nodes, the cells, the states of the callbacks registered by afterFunc, how many these are, and
-- the callbacks that have been queued.
pub record World (V : Type 0) : Type 0 where
  pub nodes : List (Node V)
  pub cells : ℕ → Cell
  pub once : ℕ → OnceState
  pub registered : ℕ
  pub queued : List ℕ

unfoldable pub set_at : {A : Type 0} → (ℕ → A) → ℕ → A → ℕ → A
set_at f address value place = if place == address then value else f place

-- The private `cancelContextKey` equals no user's key.
pub data Key : Type 0 where
  cancel_context_key : Key
  user_key : ℕ → Key

pub data Value (V : Type 0) : Type 0 where
  carrier : ℕ → Value V
  bound : V → Value V

abbrev pub or_observed : Option Thrown → Thrown → Thrown
or_observed (some cause) observed = cause
or_observed none observed = observed

-- The error and the cause with which a parent's end reaches a child.
pub record Failure : Type 0 where
  pub err : Thrown
  pub cause : Thrown

abbrev pub normalized : Option Thrown → Thrown
normalized (some deadline_exceeded) = deadline_exceeded
normalized _ = canceled

module _ {V : Type 0} where
  abbrev pub deadline_turn : ℕ → Node V → Turn (Option ℕ)
  deadline_turn address (cancel_node parent (some epoch)) = halt (some epoch)
  deadline_turn address (cancel_node parent none) = onward parent
  deadline_turn address (value_node parent key stored) = onward parent
  deadline_turn address (without_cancel_node parent) = halt none

  abbrev pub done_turn : ℕ → Node V → Turn (Option ℕ)
  done_turn address (cancel_node parent deadline) = halt (some address)
  done_turn address (value_node parent key stored) = onward parent
  done_turn address (without_cancel_node parent) = halt none

  abbrev pub err_turn : (ℕ → Cell) → ℕ → Node V → Turn (Option Thrown)
  err_turn cells address (cancel_node parent deadline) = halt ((cells address).err)
  err_turn cells address (value_node parent key stored) = onward parent
  err_turn cells address (without_cancel_node parent) = halt none

  abbrev pub value_turn : Key → ℕ → Node V → Turn (Option (Value V))
  value_turn (user_key k) address (value_node parent key v) =
      if key == k then halt (some (bound v)) else onward parent
  value_turn cancel_context_key address (value_node parent key v) = onward parent
  value_turn cancel_context_key address (cancel_node parent deadline) =
      halt (some (carrier address))
  value_turn (user_key k) address (cancel_node parent deadline) = onward parent
  value_turn cancel_context_key address (without_cancel_node parent) = halt none
  value_turn (user_key k) address (without_cancel_node parent) = onward parent

  unfoldable pub resolve_deadline : World V → Context → Option ℕ
  unfolding resolve
  resolve_deadline w = resolve none deadline_turn w.nodes

  unfoldable pub resolve_done : World V → Context → Option ℕ
  unfolding resolve
  resolve_done w = resolve none done_turn w.nodes

  unfoldable pub resolve_err : World V → Context → Option Thrown
  unfolding resolve
  resolve_err w = resolve none (err_turn w.cells) w.nodes

  unfoldable pub resolve_value : World V → Key → Context → Option (Value V)
  unfolding resolve
  resolve_value w key = resolve none (value_turn key) w.nodes

  abbrev read_by : (ℕ → Cell) → Option (Value V) → Thrown → Thrown
  read_by cells (some (carrier address)) observed = or_observed ((cells address).cause) observed
  read_by cells (some (bound v)) observed = observed
  read_by cells none observed = observed

  unfoldable pub cause_from_observed_error : World V → Context → Thrown → Thrown
  unfolding resolve_value
  cause_from_observed_error w c = read_by w.cells (resolve_value w cancel_context_key c)

  unfoldable pub read_cause : World V → Context → Option Thrown
  unfolding resolve_err cause_from_observed_error
  read_cause w c = elim (resolve_err w c) [
    | none ↦ none
    | some observed ↦ some (cause_from_observed_error w c observed)
  ]

  unfoldable pub read_parent_failure : World V → Context → Failure
  unfolding resolve_err cause_from_observed_error
  read_parent_failure w c = elim (resolve_err w c) [
    | none ↦ record { err = canceled; cause = canceled }
    | some observed ↦ record {
      err = normalized (some observed);
      cause = cause_from_observed_error w c observed;
    }
  ]
