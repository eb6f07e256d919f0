-- ===== src/Registry/Selector/Eligible.antt =====
-- packages/registry/src/selector.ts: which endpoint the power-of-two-choices selector chooses.
use go_like.Prelude.{
  ℕ, suc, ◌≤◌, ◌<◌, ◌≡◌, ◌≢◌, ◌⊎◌, refl, sym, ap, subst, arith, true, false, ltb, leb, ◌==◌, List,
  [], ◌∷◌, ok, bind_ok, ok-injective, All, Bool-cases, inl, inr, if◌then◌else◌,
}
use go_like.Registry.Selector.Identity.{ServiceEndpoint}
use go_like.Registry.Selector.Strategies.{item_from, item_at, Sample, random_sample}
use go_like.Registry.Selector.Choices.{
  Heap, Domain, Readings, endpoint_in_flight, endpoint_cooldown, earliest_cooldown_endpoint,
  endpoints_from_samples, sampled_p2c_endpoint, eligible_p2c_endpoints, choose_eligible,
  p2c_endpoint,
}

abbrev pub Among : ServiceEndpoint → List ServiceEndpoint → Type 0
Among a [] = ⊥
Among a (x ∷ xs) = (a ≡ x) ⊎ Among a xs

All-Among :
    (P : ServiceEndpoint → Type 0) (xs : List ServiceEndpoint)
    → ((x : ServiceEndpoint) → Among x xs → P x)
    → All P xs
All-Among P [] h = tt
All-Among P (x ∷ xs) h = (h x (inl refl), All-Among P xs (λ y k. h y (inr k)))

not_empty : {e : ServiceEndpoint} {es : List ServiceEndpoint} → (e ∷ es) ≢ []
not_empty h = cc

item_from-All {ℓ} :
    {A : Type ℓ} (P : A → Type 0) (position index : ℕ) (selected : A) (xs : List A)
    → P selected
    → All P xs
    → P (item_from position index selected xs)
unfolding item_from
item_from-All P position index selected [] h k = h
item_from-All P position index selected (x ∷ xs) h k = elim (Bool-cases (position == index)) [
  | inl here ↦ rw (here, item_from) (item_from-All P (suc position) index x xs k.0 k.1)
  | inr other ↦ rw (other, item_from) (item_from-All P (suc position) index selected xs h k.1)
]

item_at-All {ℓ} :
    {A : Type ℓ} (P : A → Type 0) (x : A) (xs : List A) (index : ℕ)
    → All P (x ∷ xs)
    → P (item_at x xs index)
unfolding item_at
item_at-All P x xs index h = item_from-All P 1 index x xs h.0 h.1

below_both : {m n k : ℕ} → m ≤ n → ltb n k ≡ true → m ≤ k
below_both h e = ground arith

not_above : {m n k : ℕ} → m ≤ n → ltb k n ≡ false → m ≤ k
not_above h e = ground arith

module _ (heap : Heap) (domain : Domain) where
  -- The endpoint may be chosen at an instant.
  abbrev IsRested : ℕ → List ServiceEndpoint → ServiceEndpoint → Type 0
  IsRested now es e = (endpoint_cooldown heap domain e ≤ now) × Among e es

  abbrev Resting : ℕ → List ServiceEndpoint → Type 0
  Resting now = All (λ e. now < endpoint_cooldown heap domain e)

  weakened :
      (now : ℕ) (e : ServiceEndpoint) (es ds : List ServiceEndpoint)
      → All (IsRested now es) ds
      → All (IsRested now (e ∷ es)) ds
  weakened now e es [] h = tt
  weakened now e es (d ∷ ds) h = ((h.0.0, inr h.0.1), weakened now e es ds h.1)

  eligible-IsRested :
      (now : ℕ) (es : List ServiceEndpoint)
      → All (IsRested now es) (eligible_p2c_endpoints heap domain now es)
  unfolding eligible_p2c_endpoints
  eligible-IsRested now [] = tt
  eligible-IsRested now (e ∷ es) = elim (Bool-cases (leb (endpoint_cooldown heap domain e) now)) [
    | inl rested ↦
        rw (rested, eligible_p2c_endpoints)
          ((ground arith, inl refl), weakened now e es _ (eligible-IsRested now es))
    | inr resting ↦
        rw (resting, eligible_p2c_endpoints) (weakened now e es _ (eligible-IsRested now es))
  ]

  eligible-Resting :
      (now : ℕ) (es : List ServiceEndpoint)
      → eligible_p2c_endpoints heap domain now es ≡ []
      → Resting now es
  unfolding eligible_p2c_endpoints
  eligible-Resting now [] h = tt
  eligible-Resting now (e ∷ es) h = elim (Bool-cases (leb (endpoint_cooldown heap domain e) now)) [
    | inl rested ↦ absurd (not_empty (rw (rested, eligible_p2c_endpoints) at h))
    | inr resting ↦
        (ground arith, eligible-Resting now es (rw (resting, eligible_p2c_endpoints) at h))
  ]

  -- The earliest end of a cooldown.
  earliest-All :
      (P : ServiceEndpoint → Type 0) (e : ServiceEndpoint) (es : List ServiceEndpoint)
      → All P (e ∷ es)
      → P (earliest_cooldown_endpoint heap domain e es)
  unfolding earliest_cooldown_endpoint
  earliest-All P e [] h = h.0
  earliest-All P e (c ∷ cs) h =
      elim (Bool-cases (ltb (endpoint_cooldown heap domain c) (endpoint_cooldown heap domain e))) [
        | inl earlier ↦ rw (earlier, earliest_cooldown_endpoint) (earliest-All P c cs h.1)
        | inr later ↦ rw (later, earliest_cooldown_endpoint) (earliest-All P e cs (h.0, h.1.1))
      ]

  abbrev NoLater : ServiceEndpoint → List ServiceEndpoint → Type 0
  NoLater e = All (λ f. endpoint_cooldown heap domain e ≤ endpoint_cooldown heap domain f)

  NoLater-trans :
      (d e : ServiceEndpoint) (es : List ServiceEndpoint)
      → endpoint_cooldown heap domain d ≤ endpoint_cooldown heap domain e
      → NoLater e es
      → NoLater d es
  NoLater-trans d e [] h k = tt
  NoLater-trans d e (f ∷ fs) h k = (omega (arith, k.0), NoLater-trans d e fs h k.1)

  earliest-NoLater :
      (e : ServiceEndpoint) (es : List ServiceEndpoint)
      → NoLater (earliest_cooldown_endpoint heap domain e es) (e ∷ es)
  unfolding earliest_cooldown_endpoint
  earliest-NoLater e [] = (omega arith, tt)
  earliest-NoLater e (c ∷ cs) =
      elim (Bool-cases (ltb (endpoint_cooldown heap domain c) (endpoint_cooldown heap domain e))) [
        | inl earlier ↦
            let h = earliest-NoLater c cs in
            let whole : NoLater (earliest_cooldown_endpoint heap domain c cs) (e ∷ c ∷ cs) =
              (below_both (h.0) earlier, h) in
            subst (λ d. NoLater d (e ∷ c ∷ cs))
              (sym
                (ap (λ b. earliest_cooldown_endpoint heap domain (if b then c else e) cs) earlier))
              whole
        | inr later ↦
            let h = earliest-NoLater e cs in
            let whole : NoLater (earliest_cooldown_endpoint heap domain e cs) (e ∷ c ∷ cs) =
              (h.0, (not_above (h.0) later, h.1)) in
            subst (λ d. NoLater d (e ∷ c ∷ cs))
              (sym (ap (λ b. earliest_cooldown_endpoint heap domain (if b then c else e) cs) later))
              whole
      ]

  sampled-All :
      (P : ServiceEndpoint → Type 0) (x : ServiceEndpoint) (xs : List ServiceEndpoint)
      (s t : Sample)
      → All P (x ∷ xs)
      → P (sampled_p2c_endpoint heap domain x xs s t)
  unfolding sampled_p2c_endpoint endpoints_from_samples
  sampled-All P x xs s t h =
      let pair = endpoints_from_samples x xs s t in
      elim (Bool-cases (
        ltb (endpoint_in_flight heap domain pair.second)
          (endpoint_in_flight heap domain pair.first))) [
            | inl less ↦ rw (less, sampled_p2c_endpoint) (item_at-All P x xs _ h)
            | inr more ↦ rw (more, sampled_p2c_endpoint) (item_at-All P x xs _ h)
          ]

  -- A chosen endpoint is one of the snapshot and out of its cooldown; or all are in theirs, and it is
  -- the one whose cooldown ends first.
  abbrev pub IsChoice : ℕ → List ServiceEndpoint → ServiceEndpoint → Type 0
  IsChoice now es e = IsRested now es e ⊎ (Resting now es × NoLater e es × Among e es)

  choose_eligible-IsChoice :
      (r : Readings) (e : ServiceEndpoint) (es eligible : List ServiceEndpoint) (now : ℕ)
      (c : ServiceEndpoint)
      → eligible_p2c_endpoints heap domain now (e ∷ es) ≡ eligible
      → choose_eligible heap domain r e es eligible ≡ ok c
      → IsChoice now (e ∷ es) c
  unfolding choose_eligible
  choose_eligible-IsChoice r e es [] now c h k = subst (IsChoice now (e ∷ es)) (ok-injective k) (
      inr (
        eligible-Resting now (e ∷ es) h,
        earliest-NoLater e es,
        earliest-All (λ f. Among f (e ∷ es)) e es
            (All-Among (λ f. Among f (e ∷ es)) (e ∷ es) (λ x m. m)),
      ))
  choose_eligible-IsChoice r e es (only ∷ []) now c h k =
      subst (IsChoice now (e ∷ es)) (ok-injective k)
        (inl (subst (All (IsRested now (e ∷ es))) h (eligible-IsRested now (e ∷ es))).0)
  choose_eligible-IsChoice r e es (x ∷ y ∷ more) now c h k =
      let (s, _, k1) = bind_ok (random_sample r.first_sample) _ k in
      let (t, _, k2) = bind_ok (random_sample r.second_sample) _ k1 in
      subst (IsChoice now (e ∷ es)) (ok-injective k2) (
        inl (
          sampled-All (IsRested now (e ∷ es)) x (y ∷ more) s t
            (subst (All (IsRested now (e ∷ es))) h (eligible-IsRested now (e ∷ es)))))

  -- An endpoint that the selector chooses is out of its cooldown if any of the snapshot is, and has
  -- the earliest end of a cooldown if none is.
  pub p2c_endpoint-IsChoice :
      (r : Readings) (e : ServiceEndpoint) (es : List ServiceEndpoint) (now : ℕ)
      (c : ServiceEndpoint)
      → p2c_endpoint heap domain r e es now ≡ ok c
      → IsChoice now (e ∷ es) c
  unfolding p2c_endpoint
  p2c_endpoint-IsChoice r e es now c h =
      choose_eligible-IsChoice r e es (eligible_p2c_endpoints heap domain now (e ∷ es)) now c refl h
