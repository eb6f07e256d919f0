-- ===== src/Registry/Selector/Slots.antt =====
-- packages/registry/src/selector.ts: whole cycles of the weighted round-robin selector.
use native.Mathlib.Nat.{mod-eq_of_lt, mod_self}
use go_like.Prelude.{
  ℕ, suc, ◌+◌, ◌%◌, ◌≤◌, ◌<◌, ◌≡◌, ◌≢◌, refl, ap, ◌∙◌, subst, arith, true, false, ltb, List, [],
  ◌∷◌, ◌++◌, none, some, ok, Text, All, same_text, same_text_iff, same_text_refl, length,
  length-append, drop, lookup,
}
use go_like.Registry.Selector.Identity.{endpoint_identity}
use go_like.Registry.Selector.Domains.{remember_selection}
use go_like.Registry.Selector.Strategies.{
  item_at, WeightedEndpoint, WeightedCursor, first_slot, slot_after, next_weighted_choice, Cursors,
  take_slot,
}
use go_like.Registry.Selector.Rotation.{item_at-drop, drop-next, All-middle}

abbrev pub identity_at : WeightedEndpoint → Text
identity_at w = endpoint_identity w.endpoint

abbrev pub ApartSlots : List WeightedEndpoint → Type 0
ApartSlots [] = Unit
ApartSlots (w ∷ ws) = All (λ v. identity_at w ≢ identity_at v) ws × ApartSlots ws

abbrev OtherSlots : WeightedEndpoint → List WeightedEndpoint → Type 0
OtherSlots w = All (λ b. identity_at b ≢ identity_at w)

ApartSlots-OtherSlots :
    (bs : List WeightedEndpoint) (e : WeightedEndpoint) (cs : List WeightedEndpoint)
    → ApartSlots (bs ++ (e ∷ cs))
    → OtherSlots e bs
ApartSlots-OtherSlots [] e cs h = tt
ApartSlots-OtherSlots (b ∷ bs) e cs h =
    (All-middle _ bs e cs h.0, ApartSlots-OtherSlots bs e cs h.1)

abbrev pub cursor_at : WeightedEndpoint → ℕ → WeightedCursor
cursor_at w k = record { identity = identity_at w; slot = k }

-- The loop reaches the candidate of the cursor.
slot_after-within :
    (first : WeightedEndpoint) (rest : List WeightedEndpoint) (index k : ℕ)
    (bs : List WeightedEndpoint) (w : WeightedEndpoint) (cs : List WeightedEndpoint)
    → OtherSlots w bs
    → k + 1 < w.weight
    → slot_after first rest (cursor_at w k) index (bs ++ (w ∷ cs)) ≡ (w, cursor_at w (k + 1))
unfolding slot_after
slot_after-within first rest index k [] w cs h room =
    let inside : ltb (k + 1) w.weight ≡ true = ground arith in
    rw (same_text_refl (identity_at w), slot_after) (rw inside refl)
slot_after-within first rest index k (b ∷ bs) w cs h room =
    let other : same_text (identity_at b) (identity_at w) ≡ false =
      ground (arith, h.0, same_text_iff (identity_at b) (identity_at w)) in
    rw (other, slot_after) (slot_after-within first rest (suc index) k bs w cs h.1 room)

slot_after-over :
    (first : WeightedEndpoint) (rest : List WeightedEndpoint) (index k : ℕ)
    (bs : List WeightedEndpoint) (w : WeightedEndpoint) (cs : List WeightedEndpoint)
    → OtherSlots w bs
    → w.weight ≤ k + 1
    → slot_after first rest (cursor_at w k) index (bs ++ (w ∷ cs))
      ≡ first_slot (item_at first rest (suc (index + length bs) % length (first ∷ rest)))
unfolding slot_after
slot_after-over first rest index k [] w cs h full =
    let over : ltb (k + 1) w.weight ≡ false = ground arith in
    rw (same_text_refl (identity_at w), slot_after)
      (rw over
        (ap (λ i. first_slot (item_at first rest (suc i % length (first ∷ rest)))) (omega arith)))
slot_after-over first rest index k (b ∷ bs) w cs h full =
    let other : same_text (identity_at b) (identity_at w) ≡ false =
      ground (arith, h.0, same_text_iff (identity_at b) (identity_at w)) in
    rw (other, slot_after)
      (slot_after-over first rest (suc index) k bs w cs h.1 full
        ∙ ap (λ i. first_slot (item_at first rest (suc i % length (first ∷ rest)))) (omega arith))

module _ (d : Text) (x : WeightedEndpoint) (xs : List WeightedEndpoint)
    (apart : ApartSlots (x ∷ xs)) where
  other_slots :
      (bs : List WeightedEndpoint) (w : WeightedEndpoint) (cs : List WeightedEndpoint)
      → x ∷ xs ≡ bs ++ (w ∷ cs)
      → OtherSlots w bs
  other_slots bs w cs split = ApartSlots-OtherSlots bs w cs (subst ApartSlots split apart)

  abbrev pub Stands : Cursors → WeightedEndpoint → ℕ → Type 0
  Stands s w k = lookup d s ≡ some (cursor_at w k)

  -- A selection that leaves the cursor at a slot of an endpoint.
  abbrev pub Selects : Cursors → WeightedEndpoint → ℕ → Type 0
  Selects s w k = take_slot s d (x ∷ xs) ≡ (remember_selection s d (cursor_at w k), ok w.endpoint)

  take_slot-choice :
      (s : Cursors) (w v : WeightedEndpoint) (k j : ℕ)
      → Stands s w k
      → slot_after x xs (cursor_at w k) 0 (x ∷ xs) ≡ (v, cursor_at v j)
      → Selects s v j
  unfolding take_slot next_weighted_choice
  take_slot-choice s w v k j stands choice = rw (stands, take_slot) (rw choice refl)

  pub Selects-within :
      (s : Cursors) (bs : List WeightedEndpoint) (w : WeightedEndpoint) (cs : List WeightedEndpoint)
      (k : ℕ)
      → x ∷ xs ≡ bs ++ (w ∷ cs)
      → k + 1 < w.weight
      → Stands s w k
      → Selects s w (k + 1)
  Selects-within s bs w cs k split room stands = take_slot-choice s w w k (k + 1) stands (
      ap (slot_after x xs (cursor_at w k) 0) split
      ∙ slot_after-within x xs 0 k bs w cs (other_slots bs w cs split) room)

  pub Selects-next :
      (s : Cursors) (bs : List WeightedEndpoint) (w v : WeightedEndpoint)
      (cs : List WeightedEndpoint) (k : ℕ)
      → x ∷ xs ≡ bs ++ (w ∷ v ∷ cs)
      → w.weight ≤ k + 1
      → Stands s w k
      → Selects s v 0
  Selects-next s bs w v cs k split full stands =
      let size : length (x ∷ xs) ≡ length bs + suc (suc (length cs)) =
        ap length split ∙ length-append bs (w ∷ v ∷ cs) in
      let index : suc (0 + length bs) % length (x ∷ xs) ≡ suc (length bs) =
        mod-eq_of_lt (omega arith) ∙ omega arith in
      take_slot-choice s w v k 0 stands (
        ap (slot_after x xs (cursor_at w k) 0) split
        ∙ slot_after-over x xs 0 k bs w (v ∷ cs) (other_slots bs w (v ∷ cs) split) full
        ∙ ap first_slot (
            item_at-drop x xs _ v cs (
              ap (λ i. drop i (x ∷ xs)) index
              ∙ ap (drop (suc (length bs))) split
              ∙ drop-next bs w (v ∷ cs))))

  pub Selects-wrap :
      (s : Cursors) (bs : List WeightedEndpoint) (w : WeightedEndpoint) (k : ℕ)
      → x ∷ xs ≡ bs ++ (w ∷ [])
      → w.weight ≤ k + 1
      → Stands s w k
      → Selects s x 0
  Selects-wrap s bs w k split full stands =
      let size : length (x ∷ xs) ≡ suc (length bs) =
        ap length split ∙ length-append bs (w ∷ []) ∙ omega arith in
      let index : suc (0 + length bs) % length (x ∷ xs) ≡ 0 =
        ap (λ k. k % length (x ∷ xs)) (omega arith) ∙ mod_self (length (x ∷ xs)) in
      take_slot-choice s w x k 0 stands (
        ap (slot_after x xs (cursor_at w k) 0) split
        ∙ slot_after-over x xs 0 k bs w [] (other_slots bs w [] split) full
        ∙ ap first_slot (item_at-drop x xs _ x xs (ap (λ i. drop i (x ∷ xs)) index)))

  pub Selects-fresh : (s : Cursors) → lookup d s ≡ none → Selects s x 0
  unfolding take_slot next_weighted_choice
  Selects-fresh s nothing = rw (nothing, take_slot) refl
