-- ===== src/Context/Settling.antt =====
-- packages/context/src/cancel.ts: what one task of a wave keeps true.
use go_like.Prelude.{
  ℕ, ◌<◌, ◌≡◌, refl, sym, ◌∙◌, ap, subst, List, [], ◌∷◌, ◌++◌, none, some, length, inl, inr, ◌⊎◌,
  ◌≢◌, All, Option-cases, Thrown,
}
use go_like.Context.Nodes.{Node, IsKnown}
use go_like.Context.World.{Cleanup, Cell, Child, set_at, Failure}
use go_like.Context.Wave.{Wave, Frame, ended, push_frame, end_node, settle, dispatch}
use go_like.Context.Signals.{done_in, set_at-here, set_at-apart, ℕ-cases}
use go_like.Context.Links.{
  children_of, IsAmong, IsAmong-left, IsAmong-right, All-append, upstream, Below, under,
  upstream-inside, dispatch-cells, dispatch-nodes, dispatch-tasks, dispatch-frames,
}

pub some-not-none : {A : Type 0} {a : A} → some a ≢ none
some-not-none e = cc

abbrev pub HasFailed : (ℕ → Cell) → Failure → ℕ → Type 0
HasFailed cells f m = ((cells m).err ≡ some f.err) × ((cells m).cause ≡ some f.cause)

abbrev pub IsKept : (ℕ → Cell) → (ℕ → Cell) → ℕ → Type 0
IsKept before after m = ((after m).err ≡ (before m).err) × ((after m).cause ≡ (before m).cause)

module _ {V : Type 0} (nodes : List (Node V)) where
  abbrev pub IsListener : ℕ → Child → Type 0
  IsListener signal c =
      (done_in nodes c.parent ≡ some signal)
      × (upstream nodes c.address ≡ some signal)
      × IsKnown (length nodes) c.parent

  -- A cancel context that has not ended listens on a signal that is not aborted, or a task for it
  -- is waiting.
  abbrev pub IsWaiting : (ℕ → Cell) → List Child → ℕ → ℕ → Type 0
  IsWaiting cells tasks m q =
      (((cells q).err ≡ none) × IsAmong m (children_of (cells q).listeners)) ⊎ IsAmong m tasks

  pub record IsLinked (cells : ℕ → Cell) (tasks : List Child) : Type 0 where
    pub attached :
        (m q : ℕ) → upstream nodes m ≡ some q → (cells m).err ≡ none → IsWaiting cells tasks m q
    pub valid : (q : ℕ) → All (IsListener q) (children_of (cells q).listeners)

  -- A task of a wave that started at `origin`.
  pub record IsTask (f : Failure) (origin : ℕ) (cells : ℕ → Cell) (c : Child) : Type 0 where
    pub signal : ℕ
    pub exposed : done_in nodes c.parent ≡ some signal
    pub failed : HasFailed cells f signal
    pub reached : Below nodes origin c.address
    pub inside : c.address < length nodes

  -- What the wave has done so far: it leaves a cell alone, or ends a cancel context that is reached.
  abbrev pub IsSpread : Failure → ℕ → (ℕ → Cell) → (ℕ → Cell) → ℕ → Type 0
  IsSpread f origin before after m =
      IsKept before after m ⊎ (((before m).err ≡ none) × HasFailed after f m × Below nodes origin m)

  pub record IsWave (f : Failure) (origin : ℕ) (before : ℕ → Cell) (wave : Wave V)
      (tasks : List Child) : Type 0 where
    pub same_nodes : wave.world.nodes ≡ nodes
    pub linked : IsLinked wave.world.cells tasks
    pub rest : All (IsTask f origin wave.world.cells) wave.tasks
    pub spread : (m : ℕ) → IsSpread f origin before wave.world.cells m
    pub over : All (λ frame. (wave.world.cells frame.address).err ≢ none) wave.frames

  module _ (cells : ℕ → Cell) (a : ℕ) (f : Failure) (still : (cells a).err ≡ none) where
    abbrev after : ℕ → Cell
    after = set_at cells a (ended (cells a) f)

    abbrev woken : List Child
    woken = children_of (cells a).listeners

    after-HasFailed : HasFailed after f a
    after-HasFailed =
        let here = set_at-here cells a (ended (cells a) f) in
        (ap (λ cell. cell.err) here, ap (λ cell. cell.cause) here)

    after-apart : (m : ℕ) → m ≢ a → after m ≡ cells m
    after-apart m h = set_at-apart cells a m (ended (cells a) f) h

    ended_apart : (e : Thrown) (q : ℕ) → (cells q).err ≡ some e → q ≢ a
    ended_apart e q h at = absurd (some-not-none (sym h ∙ ap (λ n. (cells n).err) at ∙ still))

    open_apart : (m : ℕ) → (after m).err ≡ none → m ≢ a
    open_apart m h at =
        absurd (some-not-none (sym after-HasFailed.0 ∙ ap (λ n. (after n).err) (sym at) ∙ h))

    -- Ending a node keeps the links: the children that waited on its signal are tasks now.
    IsWaiting-after :
        (tasks : List Child) (c : Child) (m q : ℕ)
        → c.address ≡ a
        → m ≢ a
        → IsWaiting cells (c ∷ tasks) m q
        → IsWaiting after (tasks ++ woken) m q
    IsWaiting-after tasks c m q e apart (inl waits) = elim (ℕ-cases q a) [
      | inl at ↦ inr (
          IsAmong-right m tasks woken
            (subst (λ n. IsAmong m (children_of (cells n).listeners)) at waits.1))
      | inr other ↦ inl (
          subst (λ cell. (cell.err ≡ none) × IsAmong m (children_of cell.listeners))
            (sym (after-apart q other)) waits)
    ]
    IsWaiting-after tasks c m q e apart (inr (inl at)) = absurd (apart (sym at ∙ e))
    IsWaiting-after tasks c m q e apart (inr (inr h)) = inr (IsAmong-left m tasks woken h)

    after-valid :
        (q : ℕ)
        → All (IsListener q) (children_of (cells q).listeners)
        → All (IsListener q) (children_of (after q).listeners)
    unfolding children_of
    after-valid q h = elim (ℕ-cases q a) [
      | inl at ↦
          subst (λ cell. All (IsListener q) (children_of cell.listeners))
            (sym (ap after at ∙ set_at-here cells a (ended (cells a) f))) tt
      | inr other ↦
          subst (λ cell. All (IsListener q) (children_of cell.listeners))
            (sym (after-apart q other)) h
    ]

    after-IsLinked :
        (tasks : List Child) (c : Child)
        → c.address ≡ a
        → IsLinked cells (c ∷ tasks)
        → IsLinked after (tasks ++ woken)
    after-IsLinked tasks c e h = record {
      attached = (λ m q up unended.
          let apart = open_apart m unended in
          IsWaiting-after tasks c m q e apart
            (h.attached m q up (sym (ap (λ cell. cell.err) (after-apart m apart)) ∙ unended)));
      valid = (λ q. after-valid q (h.valid q));
    }

    after-IsTask :
        (origin : ℕ) (cs : List Child)
        → All (IsTask f origin cells) cs
        → All (IsTask f origin after) cs
    after-IsTask origin [] h = tt
    after-IsTask origin (c ∷ cs) h =
        let apart = ended_apart f.err h.0.signal h.0.failed.0 in
        (
          record {
            signal = h.0.signal;
            exposed = h.0.exposed;
            failed =
                subst (λ cell. (cell.err ≡ some f.err) × (cell.cause ≡ some f.cause))
                  (sym (after-apart h.0.signal apart)) h.0.failed;
            reached = h.0.reached;
            inside = h.0.inside;
          },
          after-IsTask origin cs h.1,
        )

    woken-IsTask :
        (origin : ℕ) (cs : List Child)
        → Below nodes origin a
        → All (IsListener a) cs
        → All (IsTask f origin after) cs
    woken-IsTask origin [] below h = tt
    woken-IsTask origin (c ∷ cs) below h = (
      record {
        signal = a;
        exposed = h.0.0;
        failed = after-HasFailed;
        reached = under h.0.1 below;
        inside = upstream-inside nodes c.address a h.0.1;
      },
      woken-IsTask origin cs below h.1,
    )

    after-IsSpread :
        (origin : ℕ) (before : ℕ → Cell) (m : ℕ)
        → Below nodes origin a
        → ((n : ℕ) → IsSpread f origin before cells n)
        → IsSpread f origin before after m
    after-IsSpread origin before m below h = elim (ℕ-cases m a) [
      | inr other ↦
          subst
            (λ cell.
              ((cell.err ≡ (before m).err) × (cell.cause ≡ (before m).cause))
              ⊎ (((before m).err ≡ none)
                  × ((cell.err ≡ some f.err) × (cell.cause ≡ some f.cause))
                  × Below nodes origin m))
            (sym (after-apart m other)) (h m)
      | inl at ↦ elim (h a) [
        | inl kept ↦ inr (
          ap (λ n. (before n).err) at ∙ sym kept.0 ∙ still,
          subst (HasFailed after f) (sym at) after-HasFailed,
          subst (Below nodes origin) (sym at) below,
        )
        | inr gone ↦ absurd (some-not-none (sym gone.1.0 ∙ still))
      ]
    ]

  push_frame-world :
      (a : ℕ) (cs : List Cleanup) (wave : Wave V) → (push_frame a cs wave).world ≡ wave.world
  push_frame-world a [] wave = refl
  push_frame-world a (c ∷ cs) wave = refl

  push_frame-tasks :
      (a : ℕ) (cs : List Cleanup) (wave : Wave V) → (push_frame a cs wave).tasks ≡ wave.tasks
  push_frame-tasks a [] wave = refl
  push_frame-tasks a (c ∷ cs) wave = refl

  push_frame-over :
      (a : ℕ) (cs : List Cleanup) (wave : Wave V) (P : Frame → Type 0)
      → ((ks : List Cleanup) → P (record { address = a; callbacks = ks }))
      → All P wave.frames
      → All P (push_frame a cs wave).frames
  push_frame-over a [] wave P h k = k
  push_frame-over a (c ∷ cs) wave P h k = (h (c ∷ cs), k)

  module _ (wave : Wave V) (a : ℕ) (f : Failure) where
    abbrev begun : Wave V
    begun = record wave {
      world = record wave.world {
        cells = set_at wave.world.cells a (ended (wave.world.cells a) f);
      };
    }

    pub end_node-world :
        (end_node wave a f).world ≡ (dispatch begun (wave.world.cells a).listeners).world
    unfolding end_node
    end_node-world = push_frame-world a (wave.world.cells a).cleanups _

    pub end_node-cells :
        (end_node wave a f).world.cells ≡ set_at wave.world.cells a (ended (wave.world.cells a) f)
    end_node-cells =
        ap (λ w. w.cells) end_node-world ∙ dispatch-cells begun (wave.world.cells a).listeners

    pub end_node-nodes : (end_node wave a f).world.nodes ≡ wave.world.nodes
    end_node-nodes =
        ap (λ w. w.nodes) end_node-world ∙ dispatch-nodes begun (wave.world.cells a).listeners

    pub end_node-tasks :
        (end_node wave a f).tasks ≡ wave.tasks ++ children_of (wave.world.cells a).listeners
    unfolding end_node
    end_node-tasks =
        push_frame-tasks a (wave.world.cells a).cleanups _
        ∙ dispatch-tasks begun (wave.world.cells a).listeners

    abbrev Stays : (ℕ → Cell) → Frame → Type 0
    Stays cells frame = (cells frame.address).err ≢ none

    Stays-set_at :
        (cells : ℕ → Cell) (frame : Frame)
        → Stays cells frame
        → Stays (set_at cells a (ended (cells a) f)) frame
    Stays-set_at cells frame h e = elim (ℕ-cases frame.address a) [
      | inl at ↦ some-not-none (
          sym (ap (λ cell. cell.err) (set_at-here cells a (ended (cells a) f)))
          ∙ ap (λ n. (set_at cells a (ended (cells a) f) n).err) (sym at)
          ∙ e)
      | inr other ↦ h (
          sym (ap (λ cell. cell.err) (set_at-apart cells a frame.address (ended (cells a) f) other))
          ∙ e)
    ]

    Stays-all :
        (cells : ℕ → Cell) (frames : List Frame)
        → All (Stays cells) frames
        → All (Stays (set_at cells a (ended (cells a) f))) frames
    Stays-all cells [] h = tt
    Stays-all cells (frame ∷ frames) h = (Stays-set_at cells frame h.0, Stays-all cells frames h.1)

    end_node-over :
        All (Stays wave.world.cells) wave.frames
        → All (Stays (end_node wave a f).world.cells) (end_node wave a f).frames
    unfolding end_node
    end_node-over h =
        let cells = wave.world.cells in
        let aborted = dispatch begun (cells a).listeners in
        subst (λ known. All (Stays known) (push_frame a (cells a).cleanups aborted).frames)
          (sym end_node-cells)
          (push_frame-over a (cells a).cleanups aborted (Stays (set_at cells a (ended (cells a) f)))
            (λ ks e.
              some-not-none
                (sym (ap (λ cell. cell.err) (set_at-here cells a (ended (cells a) f))) ∙ e))
            (subst (λ frames. All (Stays (set_at cells a (ended (cells a) f))) frames)
              (sym (dispatch-frames begun (cells a).listeners)) (Stays-all cells wave.frames h)))

  -- A task that ends a node keeps the state of the wave.
  end_node-IsWave :
      (f : Failure) (origin : ℕ) (before : ℕ → Cell) (wave : Wave V) (c : Child)
      → (wave.world.cells c.address).err ≡ none
      → Below nodes origin c.address
      → IsWave f origin before wave (c ∷ wave.tasks)
      → IsWave f origin before (end_node wave c.address f) (end_node wave c.address f).tasks
  end_node-IsWave f origin before wave c still below h =
      let cells = wave.world.cells in
      let a = c.address in
      let same = sym (end_node-cells wave a f) in
      let woken = children_of (cells a).listeners in
      record {
        same_nodes = end_node-nodes wave a f ∙ h.same_nodes;
        linked =
            subst (λ known. IsLinked known (end_node wave a f).tasks) same
              (subst (IsLinked (set_at cells a (ended (cells a) f))) (sym (end_node-tasks wave a f))
                (after-IsLinked cells a f still wave.tasks c refl h.linked));
        rest =
            subst (λ known. All (IsTask f origin known) (end_node wave a f).tasks) same
              (subst (All (IsTask f origin (set_at cells a (ended (cells a) f))))
                (sym (end_node-tasks wave a f))
                (All-append _ wave.tasks woken
                  (after-IsTask cells a f still origin wave.tasks h.rest)
                  (woken-IsTask cells a f still origin woken below (h.linked.valid a))));
        spread = (λ m.
            subst (λ known. IsSpread f origin before known m) same
              (after-IsSpread cells a f still origin before m below h.spread));
        over = end_node-over wave a f h.over;
      }

  -- A node that has ended already is left alone.
  over-IsWave :
      (f : Failure) (origin : ℕ) (before : ℕ → Cell) (wave : Wave V) (c : Child) (e : Thrown)
      → (wave.world.cells c.address).err ≡ some e
      → IsWave f origin before wave (c ∷ wave.tasks)
      → IsWave f origin before wave wave.tasks
  over-IsWave f origin before wave c e ended_now h = record {
    same_nodes = h.same_nodes;
    linked = record {
      attached = (λ m q up unended. elim (h.linked.attached m q up unended) [
        | inl waits ↦ inl waits
        | inr (inl at) ↦
            absurd (some-not-none (sym ended_now ∙ ap (λ n. (wave.world.cells n).err) at ∙ unended))
        | inr (inr later) ↦ inr later
      ]);
      valid = h.linked.valid;
    };
    rest = h.rest;
    spread = h.spread;
    over = h.over;
  }

  pub settle-IsWave :
      (f : Failure) (origin : ℕ) (before : ℕ → Cell) (wave : Wave V) (c : Child)
      → Below nodes origin c.address
      → IsWave f origin before wave (c ∷ wave.tasks)
      → IsWave f origin before (settle wave c.address f) (settle wave c.address f).tasks
  unfolding settle
  settle-IsWave f origin before wave c below h =
      elim (Option-cases (wave.world.cells c.address).err) [
        | inl still ↦ rw (still, settle) (end_node-IsWave f origin before wave c still below h)
        | inr (e, ended_now) ↦
            rw (ended_now, settle) (over-IsWave f origin before wave c e ended_now h)
      ]
