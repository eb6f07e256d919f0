-- ===== src/Registry/Selector/Rotation.antt =====
-- packages/registry/src/selector.ts: successive selections of the round-robin selector.
use native.Mathlib.Nat.{mod-eq_of_lt, mod_self}
use go_like.Prelude.{
  ℕ, zero, suc, ◌+◌, ◌%◌, ◌<◌, ◌≡◌, ◌≢◌, refl, ap, ◌∙◌, subst, arith, true, false, ◌==◌, List, [],
  ◌∷◌, ◌++◌, some, ok, Text, All, same_text, same_text_iff, same_text_refl, length, length-append,
  take, drop, Option-cases, inl, inr, lookup, Run,
}
use go_like.Registry.Selector.Identity.{ServiceEndpoint, endpoint_identity}
use go_like.Registry.Selector.Domains.{remember_selection}
use go_like.Registry.Selector.Strategies.{
  item_from, item_at, index_after, next_endpoint_index, Selections, take_turn,
}

module _ {ℓ} {A : Type ℓ} where
  item_from-before :
      (position index : ℕ) (selected : A) (xs : List A)
      → index < position
      → item_from position index selected xs ≡ selected
  unfolding item_from
  item_from-before position index selected [] h = refl
  item_from-before position index selected (x ∷ xs) h =
      let other : position == index ≡ false = ground arith in
      rw (other, item_from) (item_from-before (suc position) index selected xs (omega arith))

  item_from-drop :
      (k position : ℕ) (selected y : A) (xs rest : List A)
      → drop k xs ≡ y ∷ rest
      → item_from position (position + k) selected xs ≡ y
  unfolding item_from
  item_from-drop zero position selected y [] rest h = absurd cc
  item_from-drop zero position selected y (x ∷ xs) rest h =
      let here : position == position + 0 ≡ true = ground arith in
      rw (here, item_from) (item_from-before (suc position) (position + 0) x xs (omega arith) ∙ cc)
  item_from-drop (suc k) position selected y [] rest h = absurd cc
  item_from-drop (suc k) position selected y (x ∷ xs) rest h =
      let other : position == position + suc k ≡ false = ground arith in
      let next : suc position + k ≡ position + suc k = omega arith in
      rw (other, item_from)
        (subst (λ i. item_from (suc position) i selected xs ≡ y) next
          (item_from-drop k (suc position) selected y xs rest h))

  pub item_at-drop :
      (x : A) (xs : List A) (index : ℕ) (y : A) (rest : List A)
      → drop index (x ∷ xs) ≡ y ∷ rest
      → item_at x xs index ≡ y
  unfolding item_at
  item_at-drop x xs zero y rest h = item_from-before 1 0 x xs (omega arith) ∙ cc
  item_at-drop x xs (suc k) y rest h =
      subst (λ i. item_from 1 i x xs ≡ y) (omega arith) (item_from-drop k 1 x y xs rest h)

  pub drop-append : (bs cs : List A) → drop (length bs) (bs ++ cs) ≡ cs
  drop-append [] cs = refl
  drop-append (b ∷ bs) cs = drop-append bs cs

  pub take-append : (bs cs : List A) → take (length bs) (bs ++ cs) ≡ bs
  take-append [] cs = refl
  take-append (b ∷ bs) cs = ap (◌∷◌ b) (take-append bs cs)

  pub drop-next : (bs : List A) (e : A) (cs : List A) → drop (suc (length bs)) (bs ++ (e ∷ cs)) ≡ cs
  drop-next [] e cs = refl
  drop-next (b ∷ bs) e cs = drop-next bs e cs

  pub All-middle {κ} :
      (P : A → Type κ) (bs : List A) (e : A) (cs : List A) → All P (bs ++ (e ∷ cs)) → P e
  All-middle P [] e cs h = h.0
  All-middle P (b ∷ bs) e cs h = All-middle P bs e cs h.1

  abbrev pub last_from : A → List A → A
  last_from e [] = e
  last_from e (f ∷ more) = last_from f more

  pub last_split :
      (e : A) (cs : List A) → (front : List A) × (e ∷ cs ≡ front ++ (last_from e cs ∷ []))
  last_split e [] = ([], refl)
  last_split e (f ∷ cs) = let (front, same) = last_split f cs in (e ∷ front, ap (◌∷◌ e) same)

-- No two endpoints with one identity.
abbrev pub Apart : List ServiceEndpoint → Type 0
Apart [] = Unit
Apart (e ∷ es) = All (λ f. endpoint_identity e ≢ endpoint_identity f) es × Apart es

-- Endpoints in front of one that have another identity.
abbrev pub Others : ServiceEndpoint → List ServiceEndpoint → Type 0
Others e = All (λ b. endpoint_identity b ≢ endpoint_identity e)

pub Apart-Others :
    (bs : List ServiceEndpoint) (e : ServiceEndpoint) (cs : List ServiceEndpoint)
    → Apart (bs ++ (e ∷ cs))
    → Others e bs
Apart-Others [] e cs h = tt
Apart-Others (b ∷ bs) e cs h = (All-middle _ bs e cs h.0, Apart-Others bs e cs h.1)

pub index_after-middle :
    (count index : ℕ) (bs : List ServiceEndpoint) (e : ServiceEndpoint) (cs : List ServiceEndpoint)
    → Others e bs
    → index_after count index (endpoint_identity e) (bs ++ (e ∷ cs))
      ≡ suc (index + length bs) % count
unfolding index_after
index_after-middle count index [] e cs h =
    rw (same_text_refl (endpoint_identity e), index_after) (ap (λ k. suc k % count) (omega arith))
index_after-middle count index (b ∷ bs) e cs h =
    let other : same_text (endpoint_identity b) (endpoint_identity e) ≡ false =
      ground (arith, h.0, same_text_iff (endpoint_identity b) (endpoint_identity e)) in
    rw (other, index_after)
      (index_after-middle count (suc index) bs e cs h.1 ∙ ap (λ k. suc k % count) (omega arith))

module _ (d : Text) where
  -- The turn behind the endpoint that had the last one.
  pub take_turn-next :
      (s : Selections) (x : ServiceEndpoint) (xs bs : List ServiceEndpoint) (e f : ServiceEndpoint)
      (more : List ServiceEndpoint)
      → x ∷ xs ≡ bs ++ (e ∷ f ∷ more)
      → Others e bs
      → lookup d s ≡ some (endpoint_identity e)
      → take_turn s d (x ∷ xs) ≡ (remember_selection s d (endpoint_identity f), ok f)
  unfolding take_turn next_endpoint_index
  take_turn-next s x xs bs e f more split others last =
      let size : length (x ∷ xs) ≡ length bs + suc (suc (length more)) =
        ap length split ∙ length-append bs (e ∷ f ∷ more) in
      let index : index_after (length (x ∷ xs)) 0 (endpoint_identity e) (x ∷ xs) ≡ suc (length bs) =
        ap (index_after (length (x ∷ xs)) 0 (endpoint_identity e)) split
        ∙ index_after-middle (length (x ∷ xs)) 0 bs e (f ∷ more) others
        ∙ mod-eq_of_lt (omega arith)
        ∙ omega arith in
      let item : item_at x xs (index_after (length (x ∷ xs)) 0 (endpoint_identity e) (x ∷ xs)) ≡ f =
        item_at-drop x xs _ f more (
          ap (λ i. drop i (x ∷ xs)) index
          ∙ ap (drop (suc (length bs))) split
          ∙ drop-next bs e (f ∷ more)) in
      rw (last, take_turn) (ap (λ y. (remember_selection s d (endpoint_identity y), ok y)) item)

  -- The turn behind the last endpoint is the first one's.
  pub take_turn-wrap :
      (s : Selections) (x : ServiceEndpoint) (xs bs : List ServiceEndpoint) (e : ServiceEndpoint)
      → x ∷ xs ≡ bs ++ (e ∷ [])
      → Others e bs
      → lookup d s ≡ some (endpoint_identity e)
      → take_turn s d (x ∷ xs) ≡ (remember_selection s d (endpoint_identity x), ok x)
  unfolding take_turn next_endpoint_index
  take_turn-wrap s x xs bs e split others last =
      let size : length (x ∷ xs) ≡ suc (length bs) =
        ap length split ∙ length-append bs (e ∷ []) ∙ omega arith in
      let index : index_after (length (x ∷ xs)) 0 (endpoint_identity e) (x ∷ xs) ≡ 0 =
        ap (index_after (length (x ∷ xs)) 0 (endpoint_identity e)) split
        ∙ index_after-middle (length (x ∷ xs)) 0 bs e [] others
        ∙ ap (λ k. k % length (x ∷ xs)) (omega arith)
        ∙ mod_self (length (x ∷ xs)) in
      rw (last, take_turn)
        (ap (λ y. (remember_selection s d (endpoint_identity y), ok y))
          (item_at-drop x xs _ x xs (ap (λ i. drop i (x ∷ xs)) index)))

  -- Without a memory of an endpoint that is still there, the first one has the turn.
  index_after-absent :
      (count index : ℕ) (p : Text) (es : List ServiceEndpoint)
      → All (λ e. endpoint_identity e ≢ p) es
      → index_after count index p es ≡ 0
  unfolding index_after
  index_after-absent count index p [] h = refl
  index_after-absent count index p (e ∷ es) h =
      let other : same_text (endpoint_identity e) p ≡ false =
        ground (arith, h.0, same_text_iff (endpoint_identity e) p) in
      rw (other, index_after) (index_after-absent count (suc index) p es h.1)

  abbrev pub Forgotten : Selections → List ServiceEndpoint → Type 0
  Forgotten s es = (p : Text) → lookup d s ≡ some p → All (λ e. endpoint_identity e ≢ p) es

  pub take_turn-first :
      (s : Selections) (x : ServiceEndpoint) (xs : List ServiceEndpoint)
      → Forgotten s (x ∷ xs)
      → take_turn s d (x ∷ xs) ≡ (remember_selection s d (endpoint_identity x), ok x)
  unfolding take_turn next_endpoint_index
  take_turn-first s x xs h = elim (Option-cases (lookup d s)) [
    | inl nothing ↦
        rw (nothing, take_turn)
          (ap (λ y. (remember_selection s d (endpoint_identity y), ok y))
            (item_at-drop x xs 0 x xs refl))
    | inr (p, last) ↦
        rw (last, take_turn)
          (ap (λ y. (remember_selection s d (endpoint_identity y), ok y))
            (item_at-drop x xs _ x xs (
              ap (λ i. drop i (x ∷ xs))
                (index_after-absent (length (x ∷ xs)) 0 p (x ∷ xs) (h p last)))))
  ]

  -- Turns that select these endpoints one after another.
  abbrev pub Turns : List ServiceEndpoint → Selections → List ServiceEndpoint → Selections → Type 0
  Turns es = Run (λ s. take_turn s d es)
