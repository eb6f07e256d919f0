-- ===== src/Prelude/Assoc.antt =====
-- Maps with text keys as lists of pairs in insertion order.
use mathlib.Core.Path.{◌≡◌, refl, subst}
use mathlib.Core.List.{List, [], ◌∷◌}
use mathlib.Core.Option.{Option, none, some}
use native.Mathlib.Omega.{arith}
use mathlib.Core.Logic.{inl, inr}
use go_like.Prelude.Lists.{All}
use go_like.Prelude.Tests.{if◌then◌else◌, Bool-cases, some-injective}
use go_like.Prelude.Texts.{Text, same_text, same_text_iff}

module _ {ℓ} {A : Type ℓ} where
  unfoldable pub lookup : Text → List (Text × A) → Option A
  lookup key [] = none
  lookup key ((k, a) ∷ rest) =
      let found = lookup key rest in if same_text k key then some a else found

  unfoldable pub remove : Text → List (Text × A) → List (Text × A)
  remove key [] = []
  remove key ((k, a) ∷ rest) =
      let others = remove key rest in if same_text k key then others else (k, a) ∷ others

  unfoldable pub assign : Text → A → List (Text × A) → List (Text × A)
  assign key new [] = (key, new) ∷ []
  assign key new ((k, a) ∷ rest) =
      let others = assign key new rest in
      if same_text k key then (key, new) ∷ rest else (k, a) ∷ others

  pub lookup-remove :
      (k j : Text) (xs : List (Text × A))
      → lookup k (remove j xs) ≡ (if same_text j k then none else lookup k xs)
  unfolding lookup remove
  lookup-remove k j [] = ground arith
  lookup-remove k j ((i, a) ∷ rest) =
      ground
        (arith, lookup-remove k j rest, same_text_iff i j, same_text_iff i k, same_text_iff j k)

  pub lookup-assign :
      (k j : Text) (new : A) (xs : List (Text × A))
      → lookup k (assign j new xs) ≡ (if same_text j k then some new else lookup k xs)
  unfolding lookup assign
  lookup-assign k j new [] = refl
  lookup-assign k j new ((i, a) ∷ rest) =
      ground
        (arith, lookup-assign k j new rest, same_text_iff i j, same_text_iff i k, same_text_iff j k)

-- What holds of every value holds of one that is found, and stays when one is assigned.
pub lookup-All {ℓ} :
    {A : Type ℓ} (P : A → Type 0) (key : Text) (xs : List (Text × A)) (a : A)
    → All (λ p. P p.1) xs
    → lookup key xs ≡ some a
    → P a
unfolding lookup
lookup-All P key [] a h e = absurd cc
lookup-All P key ((k, b) ∷ xs) a h e = elim (Bool-cases (same_text k key)) [
  | inl same ↦ subst P (some-injective (rw (same, lookup) at e)) h.0
  | inr other ↦ lookup-All P key xs a h.1 (rw (other, lookup) at e)
]

pub assign-All {ℓ} :
    {A : Type ℓ} (P : A → Type 0) (key : Text) (a : A) (xs : List (Text × A))
    → P a
    → All (λ p. P p.1) xs
    → All (λ p. P p.1) (assign key a xs)
unfolding assign
assign-All P key a [] h k = (h, tt)
assign-All P key a ((j, b) ∷ xs) h k = elim (Bool-cases (same_text j key)) [
  | inl same ↦ rw (same, assign) (h, k.1)
  | inr other ↦ rw (other, assign) (k.0, assign-All P key a xs h k.1)
]
