-- ===== src/Prelude/Splits.antt =====
-- `split` and `join` of JavaScript strings, by one code point.
use Prim.Native.Nat.{ℕ}
use mathlib.Core.Path.{◌≡◌, refl, ap, ◌∙◌}
use mathlib.Core.Logic.{◌≢◌}
use mathlib.Core.Bool.{Bool, true, false}
use mathlib.Core.List.{List, [], ◌∷◌, ◌++◌}
use native.Mathlib.Omega.{arith}
use go_like.Prelude.Tests.{◌==◌, if◌then◌else◌, ==_iff, ==_refl}
use go_like.Prelude.Lists.{All}
use go_like.Prelude.Texts.{Text}

-- `text.slice(0, -1)`
unfoldable pub without_last : Text → Text
without_last [] = []
without_last (c ∷ []) = []
without_last (c ∷ d ∷ cs) = c ∷ without_last (d ∷ cs)

pub without_last-append : (xs : Text) (c : ℕ) → without_last (xs ++ c ∷ []) ≡ xs
unfolding without_last
without_last-append [] c = refl
without_last-append (x ∷ []) c = refl
without_last-append (x ∷ y ∷ ys) c = ap (◌∷◌ x) (without_last-append (y ∷ ys) c)

-- `text.endsWith` of one code point
unfoldable pub ends_with : ℕ → Text → Bool
ends_with c [] = false
ends_with c (x ∷ []) = x == c
ends_with c (x ∷ y ∷ ys) = ends_with c (y ∷ ys)

pub ends_with-append : (c : ℕ) (xs : Text) → ends_with c (xs ++ c ∷ []) ≡ true
unfolding ends_with
ends_with-append c [] = ==_refl c
ends_with-append c (x ∷ []) = ==_refl c
ends_with-append c (x ∷ y ∷ ys) = ends_with-append c (y ∷ ys)

abbrev pub prefix_first : ℕ → List Text → List Text
prefix_first x [] = (x ∷ []) ∷ []
prefix_first x (w ∷ ws) = (x ∷ w) ∷ ws

-- `text.split(separator)`
unfoldable pub split : ℕ → Text → List Text
split c [] = [] ∷ []
split c (x ∷ xs) = let rest = split c xs in if x == c then [] ∷ rest else prefix_first x rest

-- `parts.join(separator)`
unfoldable pub join : ℕ → List Text → Text
join c [] = []
join c (w ∷ []) = w
join c (w ∷ v ∷ ws) = w ++ (c ∷ join c (v ∷ ws))

-- The separator is no code point of a text.
abbrev pub Free : ℕ → Text → Type 0
Free c = All (λ x. x ≢ c)

split-Free : (c : ℕ) (w : Text) → Free c w → split c w ≡ w ∷ []
unfolding split
split-Free c [] h = refl
split-Free c (x ∷ xs) h = ground (arith, split-Free c xs h.1, h.0, ==_iff x c)

split-append : (c : ℕ) (w rest : Text) → Free c w → split c (w ++ (c ∷ rest)) ≡ w ∷ split c rest
unfolding split
split-append c [] rest h = ground (arith, ==_refl c)
split-append c (x ∷ xs) rest h = ground (arith, split-append c xs rest h.1, h.0, ==_iff x c)

-- Splitting undoes joining, for a nonempty list of texts without the separator.
pub split-join :
    (c : ℕ) (w : Text) (ws : List Text) → All (Free c) (w ∷ ws) → split c (join c (w ∷ ws)) ≡ w ∷ ws
unfolding join
split-join c w [] h = split-Free c w h.0
split-join c w (v ∷ vs) h =
    split-append c w (join c (v ∷ vs)) h.0 ∙ ap (◌∷◌ w) (split-join c v vs h.1)
