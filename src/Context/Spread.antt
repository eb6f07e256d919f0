-- ===== src/Context/Spread.antt =====
-- packages/context/src/cancel.ts: how far a cancellation goes.
use go_like.Prelude.{
  ℕ, ◌<◌, ◌≡◌, refl, sym, ◌∙◌, ap, subst, [], ◌∷◌, none, some, length, inl, inr, arith,
}
use go_like.Context.Nodes.{background}
use go_like.Context.World.{World, Cell, Child, Failure, normalized}
use go_like.Context.Wave.{
  Wave, ended, settle, listening, run_tasks, run_frames, run_cancellation_wave,
}
use go_like.Context.Signals.{set_at-here}
use go_like.Context.Links.{itself}
use go_like.Context.Settling.{IsLinked, HasFailed, IsSpread, IsWave, settle-IsWave, end_node-cells}
use go_like.Context.Draining.{pending_work, settle-pending_work, IsDrained, run_tasks-drains}
use go_like.Context.Tidying.{IsSame, run_frames-IsTidy}

module _ {V : Type 0} (w : World V) (n : ℕ) (f : Failure) where
  abbrev start : Wave V
  start = record { world = w; tasks = []; frames = [] }

  abbrev origin_task : Child
  origin_task = record { address = n; parent = background }

  -- What holds before the wave, with its first task waiting.
  abbrev pub IsStart : Type 0
  IsStart = IsLinked w.nodes w.cells (origin_task ∷ [])

  pub record IsCanceled (after : World V) : Type 0 where
    pub same_nodes : after.nodes ≡ w.nodes
    pub linked : IsLinked w.nodes after.cells []
    pub spread : (m : ℕ) → IsSpread w.nodes f n w.cells after.cells m
    pub failed : HasFailed after.cells f n

  start-IsWave : IsStart → IsWave w.nodes f n w.cells start (origin_task ∷ [])
  start-IsWave h = record {
    same_nodes = refl;
    linked = h;
    rest = tt;
    spread = (λ m. inl (refl, refl));
    over = tt;
  }

  abbrev begun : Wave V
  begun = settle start n f

  abbrev drained : Wave V
  drained = run_tasks (listening w.cells (length w.nodes)) begun

  IsSpread-kept :
      (cells cells' : ℕ → Cell) (m : ℕ)
      → IsSame cells cells'
      → IsSpread w.nodes f n w.cells cells m
      → IsSpread w.nodes f n w.cells cells' m
  IsSpread-kept cells cells' m same (inl kept) = inl ((same m).0 ∙ kept.0, (same m).1 ∙ kept.1)
  IsSpread-kept cells cells' m same (inr (before, failed, below)) =
      inr (before, ((same m).0 ∙ failed.0, (same m).1 ∙ failed.1), below)

  module _ (known : normalized (some f.err) ≡ f.err) (inside : n < length w.nodes)
      (still : (w.cells n).err ≡ none) where
    begun_failed : HasFailed begun.world.cells f n
    unfolding settle
    begun_failed =
        rw (still, settle)
          (subst (λ cells. HasFailed cells f n) (sym (end_node-cells w.nodes start n f))
            (let here = set_at-here w.cells n (ended (w.cells n) f) in
              (ap (λ cell. cell.err) here, ap (λ cell. cell.cause) here)))

    drains :
        (before : ℕ → Cell)
        → IsWave w.nodes f n before begun begun.tasks
        → IsDrained w.nodes f n before drained
    unfolding pending_work
    drains before h =
        let enough = settle-pending_work w.nodes f start n inside in
        run_tasks-drains w.nodes f n before (listening w.cells (length w.nodes)) begun known
          (omega (arith, enough)) h

    begun-IsWave : IsStart → IsWave w.nodes f n w.cells begun begun.tasks
    begun-IsWave h = settle-IsWave w.nodes f n w.cells start origin_task itself (start-IsWave h)

    -- The wave seen from behind its first task, which has ended the origin.
    drained_failed : IsStart → HasFailed drained.world.cells f n
    unfolding IsDrained
    drained_failed h =
        let wave = begun-IsWave h in
        let later =
          (drains begun.world.cells (record {
            same_nodes = wave.same_nodes;
            linked = wave.linked;
            rest = wave.rest;
            spread = (λ m. inl (refl, refl));
            over = wave.over;
          })).0 in
        elim (later.spread n) [
          | inl kept ↦ (kept.0 ∙ begun_failed.0, kept.1 ∙ begun_failed.1)
          | inr gone ↦ gone.1
        ]

    pub run_cancellation_wave-IsCanceled : IsStart → IsCanceled (run_cancellation_wave w n f)
    unfolding run_cancellation_wave IsDrained
    run_cancellation_wave-IsCanceled h =
        let wave = (drains w.cells (begun-IsWave h)).0 in
        let tidy =
          run_frames-IsTidy w.nodes drained.frames drained.world.cells wave.over wave.linked in
        let failed = drained_failed h in
        record {
          same_nodes = wave.same_nodes;
          linked = tidy.1;
          spread = (λ m.
              IsSpread-kept drained.world.cells (run_frames drained.frames drained.world.cells) m
                tidy.0 (wave.spread m));
          failed = ((tidy.0 n).0 ∙ failed.0, (tidy.0 n).1 ∙ failed.1);
        }
