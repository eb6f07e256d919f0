-- ===== src/Registry/Selector/Recency.antt =====
-- packages/registry/src/selector.ts: which domains `rememberSelection` keeps.
use mathlib.Core.List.{append_assoc}
use go_like.Prelude.{
  suc, ◌-◌, ◌≤◌, ◌<◌, ◌≡◌, ◌≢◌, ◌⊎◌, refl, sym, ap, ◌∙◌, subst, arith, true, false, ltb, leb, List,
  [], ◌∷◌, ◌++◌, Text, All, same_text, same_text_iff, length, length-append, drop, Bool-cases, inl,
  inr, remove, assign,
}
use go_like.Registry.Selector.Domains.{maximum_selection_domains, evicted, remember_selection}
use go_like.Registry.Selector.Rotation.{drop-append}

module _ {ℓ} {A : Type ℓ} where
  -- The selections of domains one after another, remembered.
  unfoldable pub remembered : List (Text × A) → List (Text × A) → List (Text × A)
  unfolding remember_selection
  remembered kept [] = kept
  remembered kept ((domain, a) ∷ later) = remembered (remember_selection kept domain a) later

  -- The same without a bound: each domain once, by its last selection.
  unfoldable pub in_order : List (Text × A) → List (Text × A) → List (Text × A)
  unfolding remove
  in_order all [] = all
  in_order all ((domain, a) ∷ later) = in_order (remove domain all ++ (domain, a) ∷ []) later

  abbrev Absent : Text → List (Text × A) → Type 0
  Absent d = All (λ p. p.0 ≢ d)

  abbrev Single : List (Text × A) → Type 0
  Single [] = Unit
  Single (p ∷ ps) = Absent p.0 ps × Single ps

  remove-Absent : (d : Text) (xs : List (Text × A)) → Absent d (remove d xs)
  unfolding remove
  remove-Absent d [] = tt
  remove-Absent d ((k, a) ∷ xs) = elim (Bool-cases (same_text k d)) [
    | inl same ↦ rw (same, remove) (remove-Absent d xs)
    | inr other ↦
        rw (other, remove)
          ((λ e. ground (arith, other, (same_text_iff k d).1 e)), remove-Absent d xs)
  ]

  assign-Absent :
      (d : Text) (a : A) (xs : List (Text × A)) → Absent d xs → assign d a xs ≡ xs ++ (d, a) ∷ []
  unfolding assign
  assign-Absent d a [] h = refl
  assign-Absent d a ((k, b) ∷ xs) h =
      let other : same_text k d ≡ false = ground (arith, h.0, same_text_iff k d) in
      rw (other, assign) (ap (◌∷◌ (k, b)) (assign-Absent d a xs h.1))

  remove-append :
      (d : Text) (xs ys : List (Text × A)) → remove d (xs ++ ys) ≡ remove d xs ++ remove d ys
  unfolding remove
  remove-append d [] ys = refl
  remove-append d ((k, a) ∷ xs) ys = elim (Bool-cases (same_text k d)) [
    | inl same ↦ rw (same, remove) (remove-append d xs ys)
    | inr other ↦ rw (other, remove) (ap (◌∷◌ (k, a)) (remove-append d xs ys))
  ]

  pub remove-All :
      (d : Text) (P : Text × A → Type 0) (xs : List (Text × A)) → All P xs → All P (remove d xs)
  unfolding remove
  remove-All d P [] h = tt
  remove-All d P ((k, a) ∷ xs) h = elim (Bool-cases (same_text k d)) [
    | inl same ↦ rw (same, remove) (remove-All d P xs h.1)
    | inr other ↦ rw (other, remove) (h.0, remove-All d P xs h.1)
  ]

  remove-Single : (d : Text) (xs : List (Text × A)) → Single xs → Single (remove d xs)
  unfolding remove
  remove-Single d [] h = tt
  remove-Single d ((k, a) ∷ xs) h = elim (Bool-cases (same_text k d)) [
    | inl same ↦ rw (same, remove) (remove-Single d xs h.1)
    | inr other ↦ rw (other, remove) (remove-All d (λ p. p.0 ≢ k) xs h.0, remove-Single d xs h.1)
  ]

  length-remove : (d : Text) (xs : List (Text × A)) → length (remove d xs) ≤ length xs
  unfolding remove
  length-remove d [] = omega arith
  length-remove d ((k, a) ∷ xs) = ground (arith, length-remove d xs)

  remove-Absent_same : (d : Text) (xs : List (Text × A)) → Absent d xs → remove d xs ≡ xs
  unfolding remove
  remove-Absent_same d [] h = refl
  remove-Absent_same d ((k, a) ∷ xs) h =
      let other : same_text k d ≡ false = ground (arith, h.0, same_text_iff k d) in
      rw (other, remove) (ap (◌∷◌ (k, a)) (remove-Absent_same d xs h.1))

  -- A key stands at most once.
  remove-Single-length :
      (d : Text) (xs : List (Text × A)) → Single xs → length xs ≤ suc (length (remove d xs))
  unfolding remove
  remove-Single-length d [] h = omega arith
  remove-Single-length d ((k, a) ∷ xs) h = elim (Bool-cases (same_text k d)) [
    | inl same ↦
        let absent : Absent d xs = subst (λ t. Absent t xs) ((same_text_iff k d).0 same) h.0 in
        rw (same, remove) (omega (arith, ap length (remove-Absent_same d xs absent)))
    | inr other ↦ rw (other, remove) (omega (arith, remove-Single-length d xs h.1))
  ]

  Absent-append :
      (xs : List (Text × A)) (k d : Text) (a : A)
      → Absent k xs
      → d ≢ k
      → Absent k (xs ++ (d, a) ∷ [])
  Absent-append [] k d a h other = (other, tt)
  Absent-append (p ∷ xs) k d a h other = (h.0, Absent-append xs k d a h.1 other)

  Single-append :
      (xs : List (Text × A)) (d : Text) (a : A)
      → Single xs
      → Absent d xs
      → Single (xs ++ (d, a) ∷ [])
  Single-append [] d a h k = (tt, tt)
  Single-append (p ∷ xs) d a h k =
      (Absent-append xs p.0 d a h.0 (λ e. k.0 (sym e)), Single-append xs d a h.1 k.1)

  -- The kept selections are the end of all of them, and all while there is room.
  record IsEnd (all kept : List (Text × A)) : Type ℓ where
    gone : List (Text × A)
    split : all ≡ gone ++ kept
    bound : length kept ≤ 1024
    full : (gone ≡ []) ⊎ (length kept ≡ 1024)
    single : Single kept

  evicted-room : (xs : List (Text × A)) → length xs < 1024 → evicted xs ≡ xs
  unfolding evicted
  evicted-room [] h = refl
  evicted-room (x ∷ xs) h =
      let few : leb maximum_selection_domains (length (x ∷ xs)) ≡ false = ground arith in
      rw (few, evicted) refl

  full-remove :
      (gone kept : List (Text × A)) (d : Text) (a : A)
      → length (remove d kept) < 1024
      → Single kept
      → (gone ≡ []) ⊎ (length kept ≡ 1024)
      → (remove d gone ≡ []) ⊎ (length (remove d kept ++ (d, a) ∷ []) ≡ 1024)
  unfolding remove
  full-remove gone kept d a room single (inl nothing) = inl (ap (remove d) nothing)
  full-remove gone kept d a room single (inr full) = inr (
      omega
        (arith, length-append (remove d kept) ((d, a) ∷ []), remove-Single-length d kept single))

  -- Where there is room without the domain.
  IsEnd-room :
      (all kept : List (Text × A)) (d : Text) (a : A)
      → IsEnd all kept
      → length (remove d kept) < 1024
      → IsEnd (remove d all ++ (d, a) ∷ []) (remember_selection kept d a)
  unfolding remember_selection evicted
  IsEnd-room all kept d a h room =
      let same : remember_selection kept d a ≡ remove d kept ++ (d, a) ∷ [] =
        ap (assign d a) (evicted-room (remove d kept) room)
        ∙ assign-Absent d a (remove d kept) (remove-Absent d kept) in
      subst (IsEnd (remove d all ++ (d, a) ∷ [])) (sym same) (record {
        gone = remove d h.gone;
        split =
            ap (λ l. remove d l ++ (d, a) ∷ []) h.split
            ∙ ap (λ l. l ++ (d, a) ∷ []) (remove-append d h.gone kept)
            ∙ append_assoc (remove d h.gone) (remove d kept) ((d, a) ∷ []);
        bound = omega (arith, length-append (remove d kept) ((d, a) ∷ []));
        full = full-remove h.gone kept d a room h.single h.full;
        single =
            Single-append (remove d kept) d a (remove-Single d kept h.single)
              (remove-Absent d kept);
      })

  evicted-many :
      (x : Text × A) (xs : List (Text × A)) → 1024 ≤ length (x ∷ xs) → evicted (x ∷ xs) ≡ xs
  unfolding evicted
  evicted-many x xs h =
      let many : leb maximum_selection_domains (length (x ∷ xs)) ≡ true = ground arith in
      rw (many, evicted) refl

  nonempty :
      (xs : List (Text × A))
      → 1024 ≤ length xs
      → (x : Text × A) × (rest : List (Text × A)) × (xs ≡ x ∷ rest)
  nonempty [] h = absurd (omega arith)
  nonempty (x ∷ xs) h = (x, xs, refl)

  -- Where there is none, the oldest goes.
  IsEnd-evicts :
      (all kept rest : List (Text × A)) (oldest : Text × A) (d : Text) (a : A)
      → IsEnd all kept
      → remove d kept ≡ oldest ∷ rest
      → 1024 ≤ length (remove d kept)
      → IsEnd (remove d all ++ (d, a) ∷ []) (remember_selection kept d a)
  unfolding remember_selection
  IsEnd-evicts all kept rest oldest d a h kept_others many =
      let absent : Absent d (oldest ∷ rest) = subst (Absent d) kept_others (remove-Absent d kept) in
      let alone : Single (oldest ∷ rest) =
        subst Single kept_others (remove-Single d kept h.single) in
      let same : remember_selection kept d a ≡ rest ++ (d, a) ∷ [] =
        ap (λ l. assign d a (evicted l)) kept_others
        ∙ ap (assign d a) (evicted-many oldest rest (omega (arith, ap length kept_others)))
        ∙ assign-Absent d a rest absent.1 in
      let size : length rest ≡ 1023 =
        omega (arith, ap length kept_others, length-remove d kept, h.bound) in
      subst (IsEnd (remove d all ++ (d, a) ∷ [])) (sym same) (record {
        gone = remove d h.gone ++ oldest ∷ [];
        split =
            ap (λ l. remove d l ++ (d, a) ∷ []) h.split
            ∙ ap (λ l. l ++ (d, a) ∷ []) (remove-append d h.gone kept)
            ∙ ap (λ l. (remove d h.gone ++ l) ++ (d, a) ∷ []) kept_others
            ∙ simp append_assoc;
        bound = omega (arith, length-append rest ((d, a) ∷ []));
        full = inr (omega (arith, length-append rest ((d, a) ∷ [])));
        single = Single-append rest d a alone.1 absent.1;
      })

  IsEnd-remember :
      (all kept : List (Text × A)) (d : Text) (a : A)
      → IsEnd all kept
      → IsEnd (remove d all ++ (d, a) ∷ []) (remember_selection kept d a)
  IsEnd-remember all kept d a h = elim (Bool-cases (ltb (length (remove d kept)) 1024)) [
    | inl room ↦ IsEnd-room all kept d a h (ground arith)
    | inr many ↦
        let (oldest, rest, others) = nonempty (remove d kept) (ground arith) in
        IsEnd-evicts all kept rest oldest d a h others (ground arith)
  ]

  IsEnd-remembered :
      (later all kept : List (Text × A))
      → IsEnd all kept
      → IsEnd (in_order all later) (remembered kept later)
  unfolding in_order remembered
  IsEnd-remembered [] all kept h = h
  IsEnd-remembered ((d, a) ∷ later) all kept h =
      IsEnd-remembered later (remove d all ++ (d, a) ∷ []) (remember_selection kept d a)
        (IsEnd-remember all kept d a h)

  length-gone :
      (all gone kept : List (Text × A))
      → all ≡ gone ++ kept
      → length kept ≤ 1024
      → (gone ≡ []) ⊎ (length kept ≡ 1024)
      → length all - 1024 ≡ length gone
  length-gone all gone kept split bound (inl nothing) =
      omega (arith, ap length split, length-append gone kept, ap length nothing)
  length-gone all gone kept split bound (inr full) =
      omega (arith, ap length split, length-append gone kept)

  IsEnd-drop : (all kept : List (Text × A)) → IsEnd all kept → kept ≡ drop (length all - 1024) all
  IsEnd-drop all kept h = sym (
      ap (drop (length all - 1024)) h.split
      ∙ ap (λ n. drop n (h.gone ++ kept)) (length-gone all h.gone kept h.split h.bound h.full)
      ∙ drop-append h.gone kept)

  -- The memory holds the last 1024 domains, by their last selections, and nothing else.
  pub remembered-in_order :
      (selections : List (Text × A))
      → remembered [] selections
        ≡ drop (length (in_order [] selections) - 1024) (in_order [] selections)
  remembered-in_order selections = IsEnd-drop (in_order [] selections) (remembered [] selections) (
      IsEnd-remembered selections [] []
        (record { gone = []; split = refl; bound = omega arith; full = inl refl; single = tt }))
