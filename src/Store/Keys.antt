-- ===== src/Store/Keys.antt =====
-- packages/store/src/snapshot.ts: `compareStoreKeys`, and the sorting by it.
use go_like.Prelude.{◌≡◌, ◌∙◌, ap, ◌⊎◌, inl, inr, refl, arith, ltb, if◌then◌else◌, [], ◌∷◌, Text}

-- The results -1, 0 and 1.
pub data Comparison : Type 0 where
  less same greater : Comparison

-- The loop reads both keys code point by code point, as far as both go.
unfoldable pub compare_store_keys : Text → Text → Comparison
compare_store_keys [] [] = same
compare_store_keys [] (y ∷ ys) = less
compare_store_keys (x ∷ xs) [] = greater
compare_store_keys (x ∷ xs) (y ∷ ys) =
    let rest = compare_store_keys xs ys in
    if ltb x y then less else if ltb y x then greater else rest

abbrev pub flip : Comparison → Comparison
flip less = greater
flip same = same
flip greater = less

pub compare_flip : (xs ys : Text) → compare_store_keys ys xs ≡ flip (compare_store_keys xs ys)
unfolding compare_store_keys
compare_flip [] [] = refl
compare_flip [] (y ∷ ys) = refl
compare_flip (x ∷ xs) [] = refl
compare_flip (x ∷ xs) (y ∷ ys) = ground (arith, compare_flip xs ys)

pub compare-same : (xs ys : Text) → compare_store_keys xs ys ≡ same → xs ≡ ys
unfolding compare_store_keys
compare-same [] [] h = refl
compare-same [] (y ∷ ys) h = ground arith
compare-same (x ∷ xs) [] h = ground arith
compare-same (x ∷ xs) (y ∷ ys) h = ground (arith, compare-same xs ys)

pub compare_refl : (xs : Text) → compare_store_keys xs xs ≡ same
unfolding compare_store_keys
compare_refl [] = refl
compare_refl (x ∷ xs) = ground (arith, compare_refl xs)

pub compare_trans :
    (xs ys zs : Text)
    → compare_store_keys xs ys ≡ less
    → compare_store_keys ys zs ≡ less
    → compare_store_keys xs zs ≡ less
unfolding compare_store_keys
compare_trans [] [] zs h k = ground arith
compare_trans [] (y ∷ ys) [] h k = ground arith
compare_trans [] (y ∷ ys) (z ∷ zs) h k = refl
compare_trans (x ∷ xs) [] zs h k = ground arith
compare_trans (x ∷ xs) (y ∷ ys) [] h k = ground arith
compare_trans (x ∷ xs) (y ∷ ys) (z ∷ zs) h k = ground (arith, compare_trans xs ys zs)

pub compare-cases :
    (xs ys : Text)
    → (compare_store_keys xs ys ≡ less)
      ⊎ (xs ≡ ys)
      ⊎ ((compare_store_keys xs ys ≡ greater) × (compare_store_keys ys xs ≡ less))
compare-cases xs ys = go (compare_store_keys xs ys) refl
  where
    go :
        (c : Comparison)
        → compare_store_keys xs ys ≡ c
        → (compare_store_keys xs ys ≡ less)
          ⊎ (xs ≡ ys)
          ⊎ ((compare_store_keys xs ys ≡ greater) × (compare_store_keys ys xs ≡ less))
    go less e = inl e
    go same e = inr (inl (compare-same xs ys e))
    go greater e = inr (inr (e, compare_flip xs ys ∙ ap flip e))
