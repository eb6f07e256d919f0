-- ===== src/Context/Cancellation.antt =====
-- packages/context/src: what cancellation does to the contexts, as err() and cause() show it, in
-- programs whose own abort listeners on the signals of contexts do not call the package.
use go_like.Prelude.{
  ℕ, ◌<◌, ◌≡◌, refl, sym, ◌∙◌, ap, subst, List, [], Option, none, some, length, inl, inr, ◌⊎◌,
  Option-cases, some-injective, Thrown,
}
use go_like.Context.Nodes.{Context, Node, cancel_node, IsKnown}
use go_like.Context.World.{World, Cell, Failure, normalized, resolve_err, read_cause, resolve_done}
use go_like.Context.Wave.{run_cancellation_wave, cancel}
use go_like.Context.Signals.{done_in, err_of, cause_by, cause_of, resolve_err-done, read_cause-done}
use go_like.Context.Links.{Below, itself, under, upstream, node_at, parent_signal}
use go_like.Context.Settling.{IsKept, HasFailed, IsLinked, some-not-none}
use go_like.Context.Spread.{IsCanceled, run_cancellation_wave-IsCanceled}
use go_like.Context.Registering.{IsWhole, start_of_wave}
use go_like.Context.Trees.{done_in-inside}
use go_like.Context.Calls.{IsLater}
use go_like.Context.Reachable.{Reachable, Reachable-IsWhole, Leads, Leads-IsLater}

-- What a context reports, from the cell of its signal.
cause_after :
    (before after : ℕ → Cell) (signal : Option ℕ)
    → ((m : ℕ) → signal ≡ some m → IsKept before after m)
    → (err_of after signal ≡ err_of before signal)
      × (cause_of after signal ≡ cause_of before signal)
cause_after before after none h = (refl, refl)
cause_after before after (some m) h =
    let kept = h m refl in
    (kept.0, ap (λ e. cause_by e (after m).cause) kept.0 ∙ ap (cause_by (before m).err) kept.1)

failed_cause :
    (cells : ℕ → Cell) (m : ℕ) (f : Failure)
    → HasFailed cells f m
    → cause_of cells (some m) ≡ some f.cause
failed_cause cells m f h = ap (λ e. cause_by e (cells m).cause) h.0 ∙ ap (cause_by (some f.err)) h.1

module _ {V : Type 0} where
  Below-failed :
      (w after : World V) (n m : ℕ) (f : Failure)
      → IsLinked w.nodes w.cells []
      → IsCanceled w n f after
      → Below w.nodes n m
      → (w.cells m).err ≡ none
      → HasFailed after.cells f m
  Below-failed w after n m f h done itself still = done.failed
  Below-failed w after n _ f h done (under {m} {q} up below) still =
      elim (h.attached m q up still) [
        | inr none_left ↦ absurd none_left
        | inl (q_still, among) ↦
            let q_failed = Below-failed w after n q f h done below q_still in
            elim (done.spread m) [
              | inr gone ↦ gone.1
              | inl kept ↦ elim (done.linked.attached m q up (kept.0 ∙ still)) [
                | inr none_left ↦ absurd none_left
                | inl waits ↦ absurd (some-not-none (sym q_failed.0 ∙ waits.0))
              ]
            ]
      ]

  -- The context exposes the signal of a cancel context that a cancellation reaches.
  abbrev pub IsReached : World V → ℕ → Context → Type 0
  IsReached w n c = (m : ℕ) × (resolve_done w c ≡ some m) × Below w.nodes n m

  abbrev pub HasEnded : World V → Failure → Context → Type 0
  HasEnded w f c = (resolve_err w c ≡ some f.err) × (read_cause w c ≡ some f.cause)

  abbrev pub ReportsSame : World V → World V → Context → Type 0
  ReportsSame w after c =
      (resolve_err after c ≡ resolve_err w c) × (read_cause after c ≡ read_cause w c)

  module _ (w after : World V) (n : ℕ) (f : Failure) (h : IsWhole w)
      (done : IsCanceled w n f after) where
    same_signal : (c : Context) → done_in after.nodes c ≡ done_in w.nodes c
    same_signal c = ap (λ nodes. done_in nodes c) done.same_nodes

    ends_by :
        (c : Context) (m : ℕ)
        → done_in w.nodes c ≡ some m
        → HasFailed after.cells f m
        → HasEnded after f c
    ends_by c m exposed failed =
        let signal = same_signal c ∙ exposed in
        (
          resolve_err-done after c ∙ ap (err_of after.cells) signal ∙ failed.0,
          read_cause-done after c
              ∙ ap (cause_of after.cells) signal
              ∙ failed_cause after.cells m f failed,
        )

    same_by :
        (c : Context)
        → ((m : ℕ) → done_in w.nodes c ≡ some m → IsKept w.cells after.cells m)
        → ReportsSame w after c
    same_by c kept =
        let reports = cause_after w.cells after.cells (done_in w.nodes c) kept in
        (
          resolve_err-done after c
              ∙ ap (err_of after.cells) (same_signal c)
              ∙ reports.0
              ∙ sym (resolve_err-done w c),
          read_cause-done after c
              ∙ ap (cause_of after.cells) (same_signal c)
              ∙ reports.1
              ∙ sym (read_cause-done w c),
        )

    still_at :
        (c : Context) (m : ℕ)
        → done_in w.nodes c ≡ some m
        → resolve_err w c ≡ none
        → (w.cells m).err ≡ none
    still_at c m exposed quiet =
        sym (ap (err_of w.cells) exposed) ∙ sym (resolve_err-done w c) ∙ quiet

    ends_or_same :
        (c : Context)
        → ReportsSame w after c ⊎ (IsReached w n c × (resolve_err w c ≡ none) × HasEnded after f c)
    unfolding resolve_done
    ends_or_same c = elim (Option-cases (done_in w.nodes c)) [
      | inl free ↦ inl (same_by c (λ m e. absurd (some-not-none (sym e ∙ free))))
      | inr (m, exposed) ↦ elim (done.spread m) [
        | inl kept ↦ inl (
            same_by c
              (λ k e. subst (IsKept w.cells after.cells) (some-injective (sym exposed ∙ e)) kept))
        | inr (still, failed, below) ↦ inr (
          (m, exposed, below),
          (resolve_err-done w c ∙ ap (err_of w.cells) exposed ∙ still),
          ends_by c m exposed failed,
        )
      ]
    ]

    reached_ends : (c : Context) → IsReached w n c → resolve_err w c ≡ none → HasEnded after f c
    unfolding resolve_done
    reached_ends c (m, exposed, below) quiet =
        ends_by c m exposed
          (Below-failed w after n m f h.linked done below (still_at c m exposed quiet))

  -- As long as no abort listener of the program calls the package: from a state between calls, a
  -- cancellation of a cancel context that has not ended, with an error that is `canceled` or
  -- `deadlineExceeded`, ends with its error and its cause each context that had not ended and exposes
  -- the signal of a cancel context below; every other context reports the same error and cause as
  -- before.
  pub cancel-reaches :
      (w : World V) (n : ℕ) (f : Failure) (c : Context)
      → Reachable w
      → n < length w.nodes
      → (w.cells n).err ≡ none
      → normalized (some f.err) ≡ f.err
      → let after = (cancel w n f).0 in
        (IsReached w n c → resolve_err w c ≡ none → HasEnded after f c)
        × (ReportsSame w after c
            ⊎ (IsReached w n c × (resolve_err w c ≡ none) × HasEnded after f c))
  unfolding cancel
  cancel-reaches w n f c r inside still known =
      let whole = Reachable-IsWhole r in
      let done =
        run_cancellation_wave-IsCanceled w n f known inside still
          (start_of_wave w n whole.linked) in
      rw (still, cancel)
        (
          reached_ends w (run_cancellation_wave w n f) n f whole done c,
          ends_or_same w (run_cancellation_wave w n f) n f whole done c,
        )

  upstream_of :
      (nodes : List (Node V)) (m s : ℕ) (parent : Context) (deadline : Option ℕ)
      → node_at nodes m ≡ some (cancel_node parent deadline)
      → done_in nodes parent ≡ some s
      → upstream nodes m ≡ some s
  unfolding upstream
  upstream_of nodes m s parent deadline at exposed = ap (parent_signal nodes) at ∙ exposed

  -- As long as no abort listener of the program calls the package: in every state between calls, a
  -- cancel context whose parent has ended has ended too, and has a cause.
  pub Reachable-ended :
      (w : World V) (m : ℕ) (parent : Context) (deadline : Option ℕ) (e : Thrown)
      → Reachable w
      → node_at w.nodes m ≡ some (cancel_node parent deadline)
      → resolve_err w parent ≡ some e
      → (err cause : Thrown) × ((w.cells m).err ≡ some err) × ((w.cells m).cause ≡ some cause)
  Reachable-ended w m parent deadline e r at ended = elim (Option-cases (done_in w.nodes parent)) [
    | inl free ↦
        absurd (some-not-none (sym ended ∙ resolve_err-done w parent ∙ ap (err_of w.cells) free))
    | inr (s, exposed) ↦
        let whole = Reachable-IsWhole r in
        let s_ended = sym (ap (err_of w.cells) exposed) ∙ sym (resolve_err-done w parent) ∙ ended in
        elim (Option-cases (w.cells m).err) [
          | inr (e', over) ↦
              let caused = (whole.outcome m).caused e' over in (e', caused.0, over, caused.1)
          | inl still ↦
              elim (whole.linked.attached m s (upstream_of w.nodes m s parent deadline at exposed)
                still) [
                  | inr none_left ↦ absurd none_left
                  | inl waits ↦ absurd (some-not-none (sym s_ended ∙ waits.0))
                ]
        ]
  ]

  lasting_by :
      (w after : World V) (c : Context) (e : Thrown) (signal : Option ℕ)
      → IsLater w after
      → done_in w.nodes c ≡ signal
      → ((m : ℕ) → signal ≡ some m → m < length w.nodes)
      → IsKnown (length w.nodes) c
      → resolve_err w c ≡ some e
      → ReportsSame w after c
  lasting_by w after c e none later exposed inside known ended =
      absurd (some-not-none (sym ended ∙ resolve_err-done w c ∙ ap (err_of w.cells) exposed))
  lasting_by w after c e (some s) later exposed inside known ended =
      let over = sym (ap (err_of w.cells) exposed) ∙ sym (resolve_err-done w c) ∙ ended in
      let kept = later.lasting s e (inside s refl) over in
      let reports =
        cause_after w.cells after.cells (some s)
          (λ m at. subst (IsKept w.cells after.cells) (some-injective at) kept) in
      let signal = later.exposes c known ∙ exposed in
      (
        resolve_err-done after c
            ∙ ap (err_of after.cells) signal
            ∙ reports.0
            ∙ ap (err_of w.cells) (sym exposed)
            ∙ sym (resolve_err-done w c),
        read_cause-done after c
            ∙ ap (cause_of after.cells) signal
            ∙ reports.1
            ∙ ap (cause_of w.cells) (sym exposed)
            ∙ sym (read_cause-done w c),
      )

  -- Whatever calls follow, a context that has ended keeps its error and its cause.
  pub Leads-ended :
      (w after : World V) (c : Context) (e : Thrown)
      → Reachable w
      → Leads w after
      → IsKnown (length w.nodes) c
      → resolve_err w c ≡ some e
      → (resolve_err after c ≡ some e) × (read_cause after c ≡ read_cause w c)
  Leads-ended w after c e r run known ended =
      let later = Leads-IsLater (Reachable-IsWhole r) run in
      let same =
        lasting_by w after c e (done_in w.nodes c) later refl
          (λ m at. done_in-inside w.nodes c m at) known ended in
      (same.0 ∙ ended, same.1)
