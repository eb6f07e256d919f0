-- ===== src/Context/Signals.antt =====
-- packages/context/src/internal.ts: what contexts answer, in terms of the signal that they expose, and
-- the signal that a cancel context listens on.
use go_like.Prelude.{
  ℕ, ◌≡◌, refl, ◌∙◌, ap, false, ◌==◌, ==_refl, List, Option, none, some, inl, inr, arith, ◌⊎◌,
  Thrown, ◌≢◌, Option-cases,
}
use go_like.Context.Nodes.{
  Context, Node, cancel_node, value_node, without_cancel_node, turn_map, resolve, resolve-map,
}
use go_like.Context.World.{
  World, Cell, set_at, Failure, Value, carrier, cancel_context_key, value_turn, done_turn, err_turn,
  resolve_err, resolve_value, normalized, read_parent_failure, read_cause,
  cause_from_observed_error, or_observed,
}

pub set_at-here : {A : Type 0} (f : ℕ → A) (n : ℕ) (a : A) → set_at f n a n ≡ a
unfolding set_at
set_at-here f n a = rw (==_refl n) refl

==_other : (a b : ℕ) → a ≢ b → (a == b) ≡ false
==_other a b h = ground arith

pub set_at-apart : {A : Type 0} (f : ℕ → A) (n m : ℕ) (a : A) → m ≢ n → set_at f n a m ≡ f m
unfolding set_at
set_at-apart f n m a h = rw (==_other m n h) refl

pub ℕ-cases : (m n : ℕ) → (m ≡ n) ⊎ (m ≢ n)
ℕ-cases m n = ground arith

abbrev pub err_of : (ℕ → Cell) → Option ℕ → Option Thrown
err_of cells none = none
err_of cells (some signal) = (cells signal).err

abbrev pub cause_by : Option Thrown → Option Thrown → Option Thrown
cause_by none cause = none
cause_by (some observed) cause = some (or_observed cause observed)

abbrev pub cause_of : (ℕ → Cell) → Option ℕ → Option Thrown
cause_of cells none = none
cause_of cells (some signal) = cause_by (cells signal).err (cells signal).cause

module _ {V : Type 0} where
  abbrev pub done_in : List (Node V) → Context → Option ℕ
  done_in nodes = resolve none done_turn nodes

  err_turn-map :
      (cells : ℕ → Cell) (a : ℕ) (node : Node V)
      → err_turn cells a node ≡ turn_map (err_of cells) (done_turn a node)
  err_turn-map cells a (cancel_node p d) = refl
  err_turn-map cells a (value_node p k v) = refl
  err_turn-map cells a (without_cancel_node p) = refl

  -- The error of a context is that of the cell whose signal it exposes.
  pub resolve_err-done :
      (w : World V) (c : Context) → resolve_err w c ≡ err_of w.cells (done_in w.nodes c)
  unfolding resolve_err
  resolve_err-done w c =
      resolve-map (err_of w.cells) none done_turn (err_turn w.cells) (err_turn-map w.cells) w.nodes
        c

  abbrev pub carried : Option ℕ → Option (Value V)
  carried none = none
  carried (some address) = some (carrier address)

  value_turn-map :
      (a : ℕ) (node : Node V)
      → value_turn cancel_context_key a node ≡ turn_map carried (done_turn a node)
  value_turn-map a (cancel_node p d) = refl
  value_turn-map a (value_node p k v) = refl
  value_turn-map a (without_cancel_node p) = refl

  -- The private key finds the cancel node whose signal the context exposes.
  pub resolve_value-carrier :
      (w : World V) (c : Context)
      → resolve_value w cancel_context_key c ≡ carried (done_in w.nodes c)
  unfolding resolve_value
  resolve_value-carrier w c =
      resolve-map carried none done_turn (value_turn cancel_context_key) value_turn-map w.nodes c

  cause_from_observed_error-ended :
      (w : World V) (c : Context) (signal : ℕ) (observed cause : Thrown)
      → done_in w.nodes c ≡ some signal
      → (w.cells signal).cause ≡ some cause
      → cause_from_observed_error w c observed ≡ cause
  unfolding cause_from_observed_error
  cause_from_observed_error-ended w c signal observed cause exposed e =
      rw (resolve_value-carrier w c, cause_from_observed_error) (rw exposed (rw e refl))

  -- A child of a context whose signal has ended reads the error and the cause that the cell has.
  pub read_parent_failure-ended :
      (w : World V) (c : Context) (signal : ℕ) (f : Failure)
      → done_in w.nodes c ≡ some signal
      → (w.cells signal).err ≡ some f.err
      → (w.cells signal).cause ≡ some f.cause
      → normalized (some f.err) ≡ f.err
      → read_parent_failure w c ≡ f
  unfolding read_parent_failure
  read_parent_failure-ended w c signal f exposed err cause known =
      let err_here : resolve_err w c ≡ some f.err =
        resolve_err-done w c ∙ ap (err_of w.cells) exposed ∙ err in
      rw (err_here, read_parent_failure)
        (rw (cause_from_observed_error-ended w c signal f.err f.cause exposed cause)
          (rw known refl))

  -- The cause of a context is that of the cell whose signal it exposes.
  pub read_cause-done :
      (w : World V) (c : Context) → read_cause w c ≡ cause_of w.cells (done_in w.nodes c)
  unfolding read_cause cause_from_observed_error
  read_cause-done w c = elim (Option-cases (done_in w.nodes c)) [
    | inl free ↦
        let quiet : resolve_err w c ≡ none = resolve_err-done w c ∙ ap (err_of w.cells) free in
        rw (quiet, free, read_cause) refl
    | inr (s, exposed) ↦
        let read = resolve_err-done w c ∙ ap (err_of w.cells) exposed in
        let found = resolve_value-carrier w c ∙ ap carried exposed in
        elim (Option-cases (w.cells s).err) [
          | inl still ↦ rw (read ∙ still, read_cause) (rw exposed (rw still refl))
          | inr (e, over) ↦
              rw (read ∙ over, read_cause)
                (rw (found, cause_from_observed_error) (rw exposed (rw over refl)))
        ]
  ]
