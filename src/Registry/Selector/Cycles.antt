-- ===== src/Registry/Selector/Cycles.antt =====
-- packages/registry/src/selector.ts: the weights of the weighted round-robin selector, kept.
use mathlib.Core.List.{append_assoc, append-nil}
use go_like.Prelude.{
  ℕ, zero, suc, ◌+◌, ◌≤◌, ◌≡◌, ◌≢◌, ◌⊎◌, refl, sym, ap, ◌∙◌, subst, arith, List, [], ◌∷◌, ◌++◌, map,
  none, some, ok, bind_ok, ok-injective, Text, All, length, inl, inr, lookup, Run, none_left, turn,
  Run-append, outcomes, outcomes-Run,
}
use go_like.Registry.Selector.Identity.{
  ServiceInstance, ServiceEndpoint, service_endpoints, endpoint_identity,
}
use go_like.Registry.Selector.Domains.{
  selection_domain, remember_selection, lookup-remember_selection,
}
use go_like.Registry.Selector.Strategies.{
  WeightedEndpoint, Weighed, weighs, no_number, thrown, checked_weight, weighted_endpoints, Cursors,
  take_slot, take_checked, select_weighted,
}
use go_like.Registry.Selector.Rotation.{last_from, last_split, Apart}
use go_like.Registry.Selector.Slots.{
  ApartSlots, cursor_at, Stands, Selects, Selects-within, Selects-next, Selects-wrap, Selects-fresh,
}

abbrev pub repeated : ℕ → ServiceEndpoint → List ServiceEndpoint
repeated zero e = []
repeated (suc n) e = e ∷ repeated n e

-- Each endpoint as often as it weighs.
abbrev pub cycle : List WeightedEndpoint → List ServiceEndpoint
cycle [] = []
cycle (w ∷ ws) = repeated w.weight w.endpoint ++ cycle ws

abbrev pub cycles : ℕ → List WeightedEndpoint → List ServiceEndpoint
cycles zero ws = []
cycles (suc n) ws = cycle ws ++ cycles n ws

abbrev pub IsWeighted : WeightedEndpoint → Type 0
IsWeighted w = 1 ≤ w.weight

module _ (d : Text) (x : WeightedEndpoint) (xs : List WeightedEndpoint)
    (apart : ApartSlots (x ∷ xs)) where
  abbrev Slots : Cursors → List ServiceEndpoint → Cursors → Type 0
  Slots = Run (λ s. take_slot s d (x ∷ xs))

  abbrev Steps : Cursors → WeightedEndpoint → ℕ → Type 0
  Steps s w k = Selects d x xs apart s w k

  abbrev Rests : Cursors → WeightedEndpoint → ℕ → Type 0
  Rests s w k = Stands d x xs apart s w k

  -- The slots that an endpoint has left.
  Slots-rest :
      (m k : ℕ) (s : Cursors) (bs : List WeightedEndpoint) (w : WeightedEndpoint)
      (cs : List WeightedEndpoint)
      → x ∷ xs ≡ bs ++ (w ∷ cs)
      → k + 1 + m ≡ w.weight
      → Rests s w k
      → (s' : Cursors) × Slots s (repeated m w.endpoint) s' × Rests s' w (k + m)
  Slots-rest zero k s bs w cs split room rests =
      (s, none_left s, rests ∙ ap (λ j. some (cursor_at w j)) (omega arith))
  Slots-rest (suc m) k s bs w cs split room rests =
      let s1 = remember_selection s d (cursor_at w (k + 1)) in
      let step = Selects-within d x xs apart s bs w cs k split (omega arith) rests in
      let (s2, run, end) =
        Slots-rest m (k + 1) s1 bs w cs split (omega arith)
          (lookup-remember_selection s d (cursor_at w (k + 1))) in
      (
        s2,
        turn s s1 s2 w.endpoint (repeated m w.endpoint) step run,
        end ∙ ap (λ j. some (cursor_at w j)) (omega arith),
      )

  -- All slots of an endpoint whose first one comes next.
  Slots-all :
      (n : ℕ) (s : Cursors) (bs : List WeightedEndpoint) (w : WeightedEndpoint)
      (cs : List WeightedEndpoint)
      → x ∷ xs ≡ bs ++ (w ∷ cs)
      → n ≡ w.weight
      → 1 ≤ n
      → Steps s w 0
      → (s' : Cursors) × Slots s (repeated n w.endpoint) s'
        × ((k : ℕ) × Rests s' w k × (w.weight ≤ k + 1))
  Slots-all zero s bs w cs split same positive step = absurd (omega arith)
  Slots-all (suc m) s bs w cs split same positive step =
      let s1 = remember_selection s d (cursor_at w 0) in
      let (s2, run, end) =
        Slots-rest m 0 s1 bs w cs split (omega arith)
          (lookup-remember_selection s d (cursor_at w 0)) in
      (s2, turn s s1 s2 w.endpoint (repeated m w.endpoint) step run, (0 + m, end, omega arith))

  Slots-through :
      (cs : List WeightedEndpoint) (s : Cursors) (bs : List WeightedEndpoint) (w : WeightedEndpoint)
      → x ∷ xs ≡ bs ++ (w ∷ cs)
      → All IsWeighted (w ∷ cs)
      → Steps s w 0
      → (s' : Cursors) × Slots s (cycle (w ∷ cs)) s'
        × ((k : ℕ) × Rests s' (last_from w cs) k × ((last_from w cs).weight ≤ k + 1))
  Slots-through [] s bs w split h step =
      let (s1, run, end) = Slots-all w.weight s bs w [] split refl h.0 step in
      (s1, subst (λ m. Slots s m s1) (sym (append-nil (repeated w.weight w.endpoint))) run, end)
  Slots-through (v ∷ cs) s bs w split h step =
      let (s1, run, (k, rests, full)) = Slots-all w.weight s bs w (v ∷ cs) split refl h.0 step in
      let (s2, later, end) =
        Slots-through cs s1 (bs ++ w ∷ []) v (split ∙ sym (append_assoc bs (w ∷ []) (v ∷ cs))) h.1
          (Selects-next d x xs apart s1 bs w v cs k split full rests) in
      (s2, Run-append _ s s1 s2 (repeated w.weight w.endpoint) (cycle (v ∷ cs)) run later, end)

  -- No selection yet, or the last one was the last slot of the last endpoint.
  abbrev IsRound : Cursors → Type 0
  IsRound s =
      (lookup d s ≡ none)
      ⊎ ((k : ℕ) × Rests s (last_from x xs) k × ((last_from x xs).weight ≤ k + 1))

  Steps-first : (s : Cursors) → IsRound s → Steps s x 0
  Steps-first s (inl nothing) = Selects-fresh d x xs apart s nothing
  Steps-first s (inr (k, rests, full)) =
      let (front, whole) = last_split x xs in
      Selects-wrap d x xs apart s front (last_from x xs) k whole full rests

  Slots-cycles :
      (n : ℕ) (s : Cursors)
      → All IsWeighted (x ∷ xs)
      → IsRound s
      → (s' : Cursors) × Slots s (cycles n (x ∷ xs)) s'
  Slots-cycles zero s h round = (s, none_left s)
  Slots-cycles (suc n) s h round =
      let (s1, run, end) = Slots-through xs s [] x refl h (Steps-first s round) in
      let (s2, later) = Slots-cycles n s1 h (inr end) in
      (s2, Run-append _ s s1 s2 (cycle (x ∷ xs)) (cycles n (x ∷ xs)) run later)

checked_weight-positive : (given : Weighed) (w : ℕ) → checked_weight given ≡ ok w → 1 ≤ w
checked_weight-positive (weighs n) w e = ground arith
checked_weight-positive no_number w e = absurd cc
checked_weight-positive (thrown failure) w e = absurd cc

-- What holds of the endpoints holds of the weighted ones, and every weight is positive.
weighted_endpoints-All :
    (weight : ServiceEndpoint → Weighed) (P : ServiceEndpoint → Type 0) (es : List ServiceEndpoint)
    (ws : List WeightedEndpoint)
    → weighted_endpoints weight es ≡ ok ws
    → All P es
    → All (λ w. P w.endpoint) ws
unfolding weighted_endpoints
weighted_endpoints-All weight P [] ws e h = subst (All (λ w. P w.endpoint)) (ok-injective e) tt
weighted_endpoints-All weight P (x ∷ es) ws e h =
    let (n, _, e1) = bind_ok (checked_weight (weight x)) _ e in
    let (more, e2, e3) = bind_ok (weighted_endpoints weight es) _ e1 in
    subst (All (λ w. P w.endpoint)) (ok-injective e3)
      (h.0, weighted_endpoints-All weight P es more e2 h.1)

weighted_endpoints-ApartSlots :
    (weight : ServiceEndpoint → Weighed) (es : List ServiceEndpoint) (ws : List WeightedEndpoint)
    → weighted_endpoints weight es ≡ ok ws
    → Apart es
    → ApartSlots ws × All IsWeighted ws
unfolding weighted_endpoints
weighted_endpoints-ApartSlots weight [] ws e h =
    subst (λ l. ApartSlots l × All IsWeighted l) (ok-injective e) (tt, tt)
weighted_endpoints-ApartSlots weight (x ∷ es) ws e h =
    let (n, first, e1) = bind_ok (checked_weight (weight x)) _ e in
    let (more, e2, e3) = bind_ok (weighted_endpoints weight es) _ e1 in
    let (apart, positive) = weighted_endpoints-ApartSlots weight es more e2 h.1 in
    subst (λ l. ApartSlots l × All IsWeighted l) (ok-injective e3)
      (
        (
          weighted_endpoints-All weight (λ f. endpoint_identity x ≢ endpoint_identity f) es more e2
              h.0,
          apart,
        ),
        (checked_weight-positive (weight x) n first, positive),
      )

cycles-nil : (n : ℕ) → cycles n [] ≡ []
cycles-nil zero = refl
cycles-nil (suc n) = cycles-nil n

no_cycles :
    (d : Text) (s : Cursors) (es : List ServiceEndpoint)
    → es ≡ []
    → (outcomes (λ c. take_slot c d []) (length es) s).1 ≡ map ok es
unfolding outcomes
no_cycles d s [] same = refl
no_cycles d s (e ∷ es) same = absurd cc

whole_cycles :
    (d : Text) (ws : List WeightedEndpoint) (s : Cursors) (n : ℕ)
    → ApartSlots ws
    → All IsWeighted ws
    → lookup d s ≡ none
    → (outcomes (λ c. take_slot c d ws) (length (cycles n ws)) s).1 ≡ map ok (cycles n ws)
whole_cycles d [] s n apart positive nothing = no_cycles d s (cycles n []) (cycles-nil n)
whole_cycles d (x ∷ xs) s n apart positive nothing =
    let (s', run) = Slots-cycles d x xs apart n s positive (inl nothing) in
    ap (λ o. o.1) (outcomes-Run (λ c. take_slot c d (x ∷ xs)) s s' (cycles n (x ∷ xs)) run)

-- From a domain without a cursor, any number of cycles selects each endpoint as often in a row as
-- it weighs, in order, cycle after cycle.
pub selects_weighted-cycles :
    (weight : ServiceEndpoint → Weighed) (instances : List ServiceInstance)
    (ws : List WeightedEndpoint) (s : Cursors) (n : ℕ)
    → weighted_endpoints weight (service_endpoints instances) ≡ ok ws
    → Apart (service_endpoints instances)
    → lookup (selection_domain instances) s ≡ none
    → (outcomes (select_weighted weight none instances) (length (cycles n ws)) s).1
      ≡ map ok (cycles n ws)
unfolding select_weighted take_checked
selects_weighted-cycles weight instances ws s n e h nothing =
    let d = selection_domain instances in
    let (apart, positive) =
      weighted_endpoints-ApartSlots weight (service_endpoints instances) ws e h in
    ap (λ r. (outcomes (λ c. take_checked c d r) (length (cycles n ws)) s).1) e
    ∙ whole_cycles d ws s n apart positive nothing
