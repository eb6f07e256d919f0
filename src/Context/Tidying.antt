-- ===== src/Context/Tidying.antt =====
-- packages/context/src/cancel.ts: changes of one cell that leave its error, as those of the cleanups.
use go_like.Prelude.{
  ℕ, ◌≡◌, refl, sym, ◌∙◌, ap, subst, List, [], ◌∷◌, none, inl, inr, ◌≢◌, All, Bool-cases, ◌==◌,
  ==_iff,
}
use go_like.Context.Nodes.{Node}
use go_like.Context.World.{
  Cleanup, stop_parent, clear_timer, Cell, Child, Listener, child, callback, set_at,
}
use go_like.Context.Wave.{Frame, cleanup, remove_child, run_callbacks, run_frames}
use go_like.Context.Signals.{set_at-here, set_at-apart, ℕ-cases}
use go_like.Context.Links.{children_of, IsAmong}
use go_like.Context.Settling.{IsListener, IsLinked, IsKept}

removed-IsAmong :
    (m a : ℕ) (ls : List Listener)
    → m ≢ a
    → IsAmong m (children_of ls)
    → IsAmong m (children_of (remove_child a ls))
unfolding children_of remove_child
removed-IsAmong m a [] apart h = h
removed-IsAmong m a (callback id ∷ ls) apart h = removed-IsAmong m a ls apart h
removed-IsAmong m a (child c ∷ ls) apart h = elim (Bool-cases (c.address == a)) [
  | inl at ↦
      rw (at, remove_child)
        (elim h [
          | inl here ↦ absurd (apart (sym here ∙ (==_iff c.address a).0 at))
          | inr later ↦ removed-IsAmong m a ls apart later
        ])
  | inr other ↦
      rw (other, remove_child)
        (elim h [ inl here ↦ inl here | inr later ↦ inr (removed-IsAmong m a ls apart later) ])
]

removed-All :
    (P : Child → Type 0) (a : ℕ) (ls : List Listener)
    → All P (children_of ls)
    → All P (children_of (remove_child a ls))
unfolding children_of remove_child
removed-All P a [] h = tt
removed-All P a (callback id ∷ ls) h = removed-All P a ls h
removed-All P a (child c ∷ ls) h = elim (Bool-cases (c.address == a)) [
  | inl at ↦ rw (at, remove_child) (removed-All P a ls h.1)
  | inr other ↦ rw (other, remove_child) (h.0, removed-All P a ls h.1)
]

-- The error and the cause of each cell stay.
abbrev pub IsSame : (ℕ → Cell) → (ℕ → Cell) → Type 0
IsSame before after = (m : ℕ) → IsKept before after m

module _ (cells : ℕ → Cell) (s : ℕ) (cell : Cell) (err : cell.err ≡ (cells s).err)
    (cause : cell.cause ≡ (cells s).cause) where
  pub retouched-IsSame : IsSame cells (set_at cells s cell)
  retouched-IsSame m = elim (ℕ-cases m s) [
    | inl at ↦
        let here : set_at cells s cell m ≡ cell =
          ap (set_at cells s cell) at ∙ set_at-here cells s cell in
        (
          ap (λ c. c.err) here ∙ err ∙ ap (λ n. (cells n).err) (sym at),
          ap (λ c. c.cause) here ∙ cause ∙ ap (λ n. (cells n).cause) (sym at),
        )
    | inr other ↦
        let same = set_at-apart cells s m cell other in
        (ap (λ c. c.err) same, ap (λ c. c.cause) same)
  ]

  module _ {V : Type 0} (nodes : List (Node V)) where
    -- A change of a cell that keeps the children waiting keeps the links.
    pub retouched-IsLinked :
        ((m : ℕ)
          → (cells m).err ≡ none
          → IsAmong m (children_of (cells s).listeners)
          → IsAmong m (children_of cell.listeners))
        → All (IsListener nodes s) (children_of cell.listeners)
        → IsLinked nodes cells []
        → IsLinked nodes (set_at cells s cell) []
    retouched-IsLinked waits valid h = record {
      attached = (λ m q up unended.
          let open_before = sym (retouched-IsSame m).0 ∙ unended in
          elim (h.attached m q up open_before) [
            | inr none_left ↦ absurd none_left
            | inl (q_open, among) ↦ inl (
              (retouched-IsSame q).0 ∙ q_open,
              elim (ℕ-cases q s) [
                | inl at ↦
                    subst (λ c. IsAmong m (children_of c.listeners))
                      (sym (ap (set_at cells s cell) at ∙ set_at-here cells s cell))
                      (waits m open_before
                        (subst (λ n. IsAmong m (children_of (cells n).listeners)) at among))
                | inr other ↦
                    subst (λ c. IsAmong m (children_of c.listeners))
                      (sym (set_at-apart cells s q cell other)) among
              ],
            )
          ]);
      valid = (λ q. elim (ℕ-cases q s) [
        | inl at ↦
            subst (λ c. All (IsListener nodes q) (children_of c.listeners))
              (sym (ap (set_at cells s cell) at ∙ set_at-here cells s cell))
              (subst (λ n. All (IsListener nodes n) (children_of cell.listeners)) (sym at) valid)
        | inr other ↦
            subst (λ c. All (IsListener nodes q) (children_of c.listeners))
              (sym (set_at-apart cells s q cell other)) (h.valid q)
      ]);
    }

-- A cleanup of an ended node changes no error, and takes off no listener that is needed.
module _ {V : Type 0} (nodes : List (Node V)) where
  abbrev pub IsTidy : (ℕ → Cell) → (ℕ → Cell) → Type 0
  IsTidy before after = IsSame before after × IsLinked nodes after []

  pub IsSame-trans : (a b c : ℕ → Cell) → IsSame a b → IsSame b c → IsSame a c
  IsSame-trans a b c h k m = ((k m).0 ∙ (h m).0, (k m).1 ∙ (h m).1)

  cleanup-IsTidy :
      (a : ℕ) (c : Cleanup) (cells : ℕ → Cell)
      → (cells a).err ≢ none
      → IsLinked nodes cells []
      → IsTidy cells (cleanup a c cells)
  unfolding cleanup
  cleanup-IsTidy a (stop_parent s) cells over h =
      let cell = record (cells s) { listeners = remove_child a (cells s).listeners } in
      (
        retouched-IsSame cells s cell refl refl,
        retouched-IsLinked cells s cell refl refl nodes
            (λ m unended among.
              removed-IsAmong m a (cells s).listeners
                (λ at. over (ap (λ n. (cells n).err) (sym at) ∙ unended)) among)
            (removed-All (IsListener nodes s) a (cells s).listeners (h.valid s)) h,
      )
  cleanup-IsTidy a clear_timer cells over h =
      let cell = record (cells a) { timer = none } in
      (
        retouched-IsSame cells a cell refl refl,
        retouched-IsLinked cells a cell refl refl nodes (λ m unended among. among) (h.valid a) h,
      )

  run_callbacks-IsTidy :
      (a : ℕ) (cs : List Cleanup) (cells : ℕ → Cell)
      → (cells a).err ≢ none
      → IsLinked nodes cells []
      → IsTidy cells (run_callbacks a cs cells)
  unfolding run_callbacks
  run_callbacks-IsTidy a [] cells over h = ((λ m. (refl, refl)), h)
  run_callbacks-IsTidy a (c ∷ cs) cells over h =
      let first = cleanup-IsTidy a c cells over h in
      let rest =
        run_callbacks-IsTidy a cs (cleanup a c cells) (λ e. over (sym (first.0 a).0 ∙ e)) first.1 in
      (
        IsSame-trans cells (cleanup a c cells) (run_callbacks a cs (cleanup a c cells)) first.0
            rest.0,
        rest.1,
      )

  over_yet :
      (before after : ℕ → Cell) (frames : List Frame)
      → IsSame before after
      → All (λ frame. (before frame.address).err ≢ none) frames
      → All (λ frame. (after frame.address).err ≢ none) frames
  over_yet before after [] same h = tt
  over_yet before after (f ∷ fs) same h =
      ((λ e. h.0 (sym (same f.address).0 ∙ e)), over_yet before after fs same h.1)

  pub run_frames-IsTidy :
      (frames : List Frame) (cells : ℕ → Cell)
      → All (λ frame. (cells frame.address).err ≢ none) frames
      → IsLinked nodes cells []
      → IsTidy cells (run_frames frames cells)
  unfolding run_frames
  run_frames-IsTidy [] cells over h = ((λ m. (refl, refl)), h)
  run_frames-IsTidy (f ∷ fs) cells over h =
      let first = run_callbacks-IsTidy f.address f.callbacks cells over.0 h in
      let after = run_callbacks f.address f.callbacks cells in
      let rest = run_frames-IsTidy fs after (over_yet cells after fs first.0 over.1) first.1 in
      (IsSame-trans cells after (run_frames fs after) first.0 rest.0, rest.1)
