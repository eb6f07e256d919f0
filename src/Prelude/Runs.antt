-- ===== src/Prelude/Runs.antt =====
-- Calls of one stateful function, one after another.
use Prim.Native.Nat.{ℕ, zero, suc}
use mathlib.Core.Path.{◌≡◌, refl}
use mathlib.Core.List.{List, [], ◌∷◌, ◌++◌, map}
use go_like.Prelude.Lists.{length}
use go_like.Prelude.Results.{Result, ok}

module _ {S A : Type 0} (call : S → S × Result A) where
  -- Calls that return these values and lead from one state to another.
  pub data Run : S → List A → S → Type 0 where
    none_left : (s : S) → Run s [] s
    turn :
        (s s1 s2 : S) (a : A) (later : List A)
        → call s ≡ (s1, ok a)
        → Run s1 later s2
        → Run s (a ∷ later) s2

  pub Run-append :
      (s s1 s2 : S) (first later : List A)
      → Run s first s1
      → Run s1 later s2
      → Run s (first ++ later) s2
  Run-append s s1 s2 _ later (none_left _) rest = rest
  Run-append s s1 s2 _ later (turn _ sm _ a more step run) rest =
      turn s sm s2 a (more ++ later) step (Run-append sm s1 s2 more later run rest)

  -- What a number of calls gives, and the state behind them.
  unfoldable pub outcomes : ℕ → S → S × List (Result A)
  outcomes zero s = (s, [])
  outcomes (suc n) s =
      let (s', result) = call s in let (end, results) = outcomes n s' in (end, result ∷ results)

  pub outcomes-Run :
      (s s' : S) (values : List A)
      → Run s values s'
      → outcomes (length values) s ≡ (s', map ok values)
  unfolding outcomes
  outcomes-Run s s' _ (none_left _) = refl
  outcomes-Run s s' _ (turn _ s1 _ a later step run) =
      rw (step, outcomes) (rw (outcomes-Run s1 s' later run) refl)
