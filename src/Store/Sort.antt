-- ===== src/Store/Sort.antt =====
-- `Array.prototype.sort` by a text key: a stable sort, here by insertion from the right.
use go_like.Prelude.{
  ◌≡◌, ◌≢◌, inl, inr, Bool-cases, arith, Bool, true, false, if◌then◌else◌, List, [], ◌∷◌, Text, All,
}
use mathlib.Core.List.{Perm}
use mathlib.Core.List.Perm
use go_like.Store.Keys.{Comparison, less, greater, compare_store_keys, compare-cases, compare_trans}

abbrev is_greater : Comparison → Bool
is_greater greater = true
is_greater _ = false

module _ {ℓ} {A : Type ℓ} (key : A → Text) where
  -- Before the first element with a key that is not less.
  unfoldable pub insert : A → List A → List A
  insert a [] = a ∷ []
  insert a (x ∷ xs) =
      if is_greater (compare_store_keys (key a) (key x)) then x ∷ insert a xs else a ∷ x ∷ xs

  unfoldable pub sort : List A → List A
  unfolding insert
  sort [] = []
  sort (x ∷ xs) = insert x (sort xs)

  pub insert-perm : (a : A) (xs : List A) → Perm (insert a xs) (a ∷ xs)
  unfolding insert
  insert-perm a [] = Perm.refl _
  insert-perm a (x ∷ xs) =
      let swapped = Perm.trans (Perm.cons x (insert-perm a xs)) (Perm.swap a x xs) in
      ground (arith, swapped, Perm.refl (a ∷ x ∷ xs))

  pub sort-perm : (xs : List A) → Perm (sort xs) xs
  unfolding sort
  sort-perm [] = Perm.refl _
  sort-perm (x ∷ xs) = Perm.trans (insert-perm x (sort xs)) (Perm.cons x (sort-perm xs))

  -- Keys that rise strictly along the list.
  abbrev pub Above : Text → List A → Type 0
  Above k xs = All (λ x. compare_store_keys k (key x) ≡ less) xs

  abbrev pub Sorted : List A → Type 0
  Sorted [] = Unit
  Sorted (x ∷ xs) = Above (key x) xs × Sorted xs

  -- No key stands twice.
  abbrev pub Distinct : List A → Type 0
  Distinct [] = Unit
  Distinct (x ∷ xs) = All (λ y. key x ≢ key y) xs × Distinct xs

  insert-All {κ} : (P : A → Type κ) (a : A) (xs : List A) → P a → All P xs → All P (insert a xs)
  unfolding insert
  insert-All P a [] h hs = (h, tt)
  insert-All P a (x ∷ xs) h hs =
      elim (Bool-cases (is_greater (compare_store_keys (key a) (key x)))) [
        | inl e ↦ rw (e, insert) ((hs.0, insert-All P a xs h hs.1))
        | inr e ↦ rw (e, insert) ((h, hs))
      ]

  pub sort-All {κ} : (P : A → Type κ) (xs : List A) → All P xs → All P (sort xs)
  unfolding sort
  sort-All P [] h = tt
  sort-All P (x ∷ xs) h = insert-All P x (sort xs) h.0 (sort-All P xs h.1)

  Above-less : (j k : Text) (xs : List A) → compare_store_keys j k ≡ less → Above k xs → Above j xs
  Above-less j k [] h hs = tt
  Above-less j k (x ∷ xs) h hs = (compare_trans j k (key x) h hs.0, Above-less j k xs h hs.1)

  insert-Sorted :
      (a : A) (xs : List A) → Sorted xs → All (λ x. key a ≢ key x) xs → Sorted (insert a xs)
  unfolding insert
  insert-Sorted a [] s d = (tt, tt)
  insert-Sorted a (x ∷ xs) s d = elim (compare-cases (key a) (key x)) [
    | inl e ↦ rw (e, insert) (((e, Above-less (key a) (key x) xs e s.0), s))
    | inr (inl e) ↦ absurd (d.0 e)
    | inr (inr (e, f)) ↦
        rw (e, insert)
          ((
            insert-All (λ y. compare_store_keys (key x) (key y) ≡ less) a xs f s.0,
            insert-Sorted a xs s.1 d.1,
          ))
  ]

  -- Sorting a list without equal keys gives strictly rising ones.
  pub sort-Sorted : (xs : List A) → Distinct xs → Sorted (sort xs)
  unfolding sort
  sort-Sorted [] d = tt
  sort-Sorted (x ∷ xs) d =
      insert-Sorted x (sort xs) (sort-Sorted xs d.1) (sort-All (λ y. key x ≢ key y) xs d.0)
