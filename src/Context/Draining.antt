-- ===== src/Context/Draining.antt =====
-- packages/context/src/cancel.ts: a wave runs to its end, its cleanups included.
use go_like.Prelude.{
  ℕ, zero, suc, ◌+◌, ◌<◌, ◌≤◌, ◌≡◌, refl, sym, ◌∙◌, ap, subst, List, [], ◌∷◌, some, length, inl,
  inr, arith, ◌⊎◌, All, Option-cases, length-append,
}
use go_like.Context.Nodes.{Node}
use go_like.Context.World.{Cell, Child, set_at, Failure, normalized}
use go_like.Context.Wave.{Wave, ended, settle, end_node, listening, run_tasks, cancel_from_parent}
use go_like.Context.Signals.{done_in, set_at-here, set_at-apart, ℕ-cases, read_parent_failure-ended}
use go_like.Context.Links.{children_of, length-children_of}
use go_like.Context.Settling.{
  IsLinked, IsTask, IsWave, settle-IsWave, end_node-cells, end_node-tasks,
}

listening-beyond :
    (cells : ℕ → Cell) (n size : ℕ) (cell : Cell)
    → size ≤ n
    → listening (set_at cells n cell) size ≡ listening cells size
unfolding listening
listening-beyond cells n zero cell h = refl
listening-beyond cells n (suc k) cell h =
    rw (set_at-apart cells n k cell (λ e. omega arith))
      (ap (λ t. length (cells k).listeners + t) (listening-beyond cells n k cell (omega arith)))

-- What one cell adds to the count of listeners.
listening-set :
    (cells : ℕ → Cell) (n size : ℕ) (cell : Cell)
    → n < size
    → listening (set_at cells n cell) size + length (cells n).listeners
      ≡ listening cells size + length cell.listeners
unfolding listening
listening-set cells n zero cell h = absurd (omega arith)
listening-set cells n (suc k) cell h = elim (ℕ-cases n k) [
  | inl at ↦
      let here : set_at cells n cell k ≡ cell =
        ap (set_at cells n cell) (sym at) ∙ set_at-here cells n cell in
      let others = listening-beyond cells n k cell (omega arith) in
      rw (here, others, at) (omega arith)
  | inr other ↦
      let later = listening-set cells n k cell (omega arith) in
      rw (set_at-apart cells n k cell (λ e. other (sym e))) (omega (arith, later))
]

module _ {V : Type 0} (nodes : List (Node V)) (f : Failure) where
  unfoldable pub pending_work : Wave V → ℕ
  pending_work wave = length wave.tasks + listening wave.world.cells (length nodes)

  end_node-pending_work :
      (wave : Wave V) (a : ℕ)
      → a < length nodes
      → pending_work (end_node wave a f) ≤ pending_work wave
  unfolding pending_work
  end_node-pending_work wave a inside =
      let cells = wave.world.cells in
      let ls = (cells a).listeners in
      let emptied = listening-set cells a (length nodes) (ended (cells a) f) inside in
      let size = length-append wave.tasks (children_of ls) in
      let fewer = length-children_of ls in
      rw (end_node-cells nodes wave a f, end_node-tasks nodes wave a f)
        (omega (arith, emptied, size, fewer))

  pub settle-pending_work :
      (wave : Wave V) (a : ℕ)
      → a < length nodes
      → pending_work (settle wave a f) ≤ pending_work wave
  unfolding settle
  settle-pending_work wave a inside = elim (Option-cases (wave.world.cells a).err) [
    | inl still ↦ rw (still, settle) (end_node-pending_work wave a inside)
    | inr (e, over) ↦ rw (over, settle) (omega arith)
  ]

  unfoldable pub IsDrained : ℕ → (ℕ → Cell) → Wave V → Type 0
  IsDrained origin before wave = IsWave nodes f origin before wave [] × (wave.tasks ≡ [])

  -- A task reads from its parent the error and the cause of the wave.
  task_failure :
      (origin : ℕ) (wave : Wave V) (c : Child)
      → normalized (some f.err) ≡ f.err
      → wave.world.nodes ≡ nodes
      → IsTask nodes f origin wave.world.cells c
      → cancel_from_parent wave c ≡ settle wave c.address f
  unfolding cancel_from_parent
  task_failure origin wave c known same h = ap (settle wave c.address) (
      read_parent_failure-ended wave.world c.parent h.signal f
        (ap (λ ns. done_in ns c.parent) same ∙ h.exposed) h.failed.0 h.failed.1 known)

  next_IsWave :
      (origin : ℕ) (before : ℕ → Cell) (wave : Wave V) (c : Child) (rest : List Child)
      → normalized (some f.err) ≡ f.err
      → wave.tasks ≡ c ∷ rest
      → IsWave nodes f origin before wave wave.tasks
      → let next = cancel_from_parent (record wave { tasks = rest }) c in
        IsWave nodes f origin before next next.tasks × (suc (pending_work next) ≤ pending_work wave)
  unfolding pending_work
  next_IsWave origin before wave c rest known e h =
      let tasks = subst (All (IsTask nodes f origin wave.world.cells)) e h.rest in
      let shorter : Wave V = record wave { tasks = rest } in
      let same = task_failure origin shorter c known h.same_nodes tasks.0 in
      let kept = settle-IsWave nodes f origin before shorter c tasks.0.reached (record {
        same_nodes = h.same_nodes;
        linked = subst (IsLinked nodes wave.world.cells) e h.linked;
        rest = tasks.1;
        spread = h.spread;
        over = h.over;
      }) in
      let less = settle-pending_work shorter c.address tasks.0.inside in
      let size = ap length e in
      (
        subst (λ next. IsWave nodes f origin before next next.tasks) (sym same) kept,
        subst (λ next. suc (pending_work next) ≤ pending_work wave) (sym same)
            (omega (arith, less, size)),
      )

  no_tasks : (tasks : List Child) → length tasks ≤ 0 → tasks ≡ []
  no_tasks [] h = refl
  no_tasks (c ∷ cs) h = absurd (omega arith)

  List-cases :
      (tasks : List Child) → (tasks ≡ []) ⊎ ((c : Child) × (rest : List Child) × (tasks ≡ c ∷ rest))
  List-cases [] = inl refl
  List-cases (c ∷ rest) = inr (c, rest, refl)

  -- The fuel is enough: no task is left, and each cell is as it was or ended by the wave.
  pub run_tasks-drains :
      (origin : ℕ) (before : ℕ → Cell) (fuel : ℕ) (wave : Wave V)
      → normalized (some f.err) ≡ f.err
      → pending_work wave ≤ fuel
      → IsWave nodes f origin before wave wave.tasks
      → IsDrained origin before (run_tasks fuel wave)
  unfolding run_tasks IsDrained pending_work
  run_tasks-drains origin before zero wave known enough h =
      let none_left = no_tasks wave.tasks (omega arith) in
      (subst (IsWave nodes f origin before wave) none_left h, none_left)
  run_tasks-drains origin before (suc fuel) wave known enough h = elim (List-cases wave.tasks) [
    | inl none_left ↦
        rw (none_left, run_tasks) (subst (IsWave nodes f origin before wave) none_left h, none_left)
    | inr (c, rest, e) ↦
        let next = next_IsWave origin before wave c rest known e h in
        rw (e, run_tasks)
          (run_tasks-drains origin before fuel (cancel_from_parent (record wave { tasks = rest }) c)
            known (omega (arith, next.1)) next.0)
  ]
