-- ===== src/Registry/Selector/Fairness.antt =====
-- packages/registry/src/selector.ts: as many round-robin selections as there are endpoints.
use mathlib.Core.List.{append_assoc, append-nil}
use go_like.Prelude.{
  ℕ, ◌≤◌, ◌≡◌, ◌≢◌, ◌⊎◌, refl, sym, ap, ◌∙◌, subst, arith, List, [], ◌∷◌, ◌++◌, map, none, some, ok,
  Text, All, same_text, same_text_iff, length, length-append, length-drop, length-take, take, drop,
  Bool-cases, Option-cases, inl, inr, lookup, none_left, turn, Run-append, outcomes, outcomes-Run,
}
use go_like.Registry.Selector.Identity.{
  ServiceInstance, ServiceEndpoint, service_endpoints, endpoint_identity,
}
use go_like.Registry.Selector.Domains.{
  selection_domain, remember_selection, lookup-remember_selection,
}
use go_like.Registry.Selector.Strategies.{Selections, take_turn, select_round_robin}
use go_like.Registry.Selector.Rotation.{
  drop-append, take-append, last_from, last_split, Apart, Others, Apart-Others, take_turn-next,
  take_turn-wrap, take_turn-first, Turns,
}

module _ (d : Text) (x : ServiceEndpoint) (xs : List ServiceEndpoint) (apart : Apart (x ∷ xs)) where
  behind_head : {b : ServiceEndpoint} {bs : List ServiceEndpoint} → x ∷ xs ≡ b ∷ bs → xs ≡ bs
  behind_head h = cc

  shift :
      (bs : List ServiceEndpoint) (e : ServiceEndpoint) (cs : List ServiceEndpoint)
      → bs ++ (e ∷ cs) ≡ (bs ++ e ∷ []) ++ cs
  shift bs e cs = sym (append_assoc bs (e ∷ []) cs)

  Others-split :
      (bs : List ServiceEndpoint) (e : ServiceEndpoint) (cs : List ServiceEndpoint)
      → x ∷ xs ≡ bs ++ (e ∷ cs)
      → Others e bs
  Others-split bs e cs split = Apart-Others bs e cs (subst Apart split apart)

  -- The endpoints behind the one that had the last turn have theirs, in order.
  Turns-behind :
      (later bs : List ServiceEndpoint) (e : ServiceEndpoint) (more : List ServiceEndpoint)
      (s : Selections)
      → x ∷ xs ≡ bs ++ (e ∷ (later ++ more))
      → lookup d s ≡ some (endpoint_identity e)
      → (s' : Selections) × Turns d (x ∷ xs) s later s'
        × (lookup d s' ≡ some (endpoint_identity (last_from e later)))
  Turns-behind [] bs e more s split last = (s, none_left s, last)
  Turns-behind (f ∷ later) bs e more s split last =
      let s1 = remember_selection s d (endpoint_identity f) in
      let step =
        take_turn-next d s x xs bs e f (later ++ more) split (Others-split bs e _ split) last in
      let (s2, run, known) =
        Turns-behind later (bs ++ e ∷ []) f more s1 (split ∙ shift bs e (f ∷ (later ++ more)))
          (lookup-remember_selection s d (endpoint_identity f)) in
      (s2, turn s s1 s2 f later step run, known)

  -- From the first endpoint through all of a prefix.
  Turns-prefix :
      (later more : List ServiceEndpoint) (s : Selections)
      → xs ≡ later ++ more
      → take_turn s d (x ∷ xs) ≡ (remember_selection s d (endpoint_identity x), ok x)
      → (s' : Selections) × Turns d (x ∷ xs) s (x ∷ later) s'
  Turns-prefix later more s split step =
      let s1 = remember_selection s d (endpoint_identity x) in
      let (s2, run, _) =
        Turns-behind later [] x more s1 (ap (◌∷◌ x) split)
          (lookup-remember_selection s d (endpoint_identity x)) in
      (s2, turn s s1 s2 x later step run)

  Turns-front :
      (bs : List ServiceEndpoint) (e : ServiceEndpoint) (cs : List ServiceEndpoint) (s : Selections)
      → x ∷ xs ≡ bs ++ (e ∷ cs)
      → take_turn s d (x ∷ xs) ≡ (remember_selection s d (endpoint_identity x), ok x)
      → (s' : Selections) × Turns d (x ∷ xs) s (bs ++ e ∷ []) s'
  Turns-front [] e cs s split step =
      let (s', run) = Turns-prefix [] xs s refl step in
      let same : x ≡ e = cc in (s', subst (λ y. Turns d (x ∷ xs) s (y ∷ []) s') same run)
  Turns-front (b ∷ bs) e cs s split step =
      let same : x ≡ b = cc in
      let (s', run) = Turns-prefix (bs ++ e ∷ []) cs s (behind_head split ∙ shift bs e cs) step in
      (s', subst (λ y. Turns d (x ∷ xs) s (y ∷ (bs ++ e ∷ [])) s') same run)

  -- Where an endpoint that is still there had the last turn.
  Turns-around :
      (bs : List ServiceEndpoint) (e : ServiceEndpoint) (cs : List ServiceEndpoint) (s : Selections)
      → x ∷ xs ≡ bs ++ (e ∷ cs)
      → lookup d s ≡ some (endpoint_identity e)
      → (s' : Selections) × Turns d (x ∷ xs) s (cs ++ (bs ++ e ∷ [])) s'
  Turns-around bs e cs s split last =
      let (s1, run, known) =
        Turns-behind cs bs e [] s (split ∙ ap (λ m. bs ++ (e ∷ m)) (sym (append-nil cs))) last in
      let (front, same) = last_split e cs in
      let whole : x ∷ xs ≡ (bs ++ front) ++ (last_from e cs ∷ []) =
        split ∙ ap (λ m. bs ++ m) same ∙ sym (append_assoc bs front (last_from e cs ∷ [])) in
      let step =
        take_turn-wrap d s1 x xs (bs ++ front) (last_from e cs) whole
          (Others-split (bs ++ front) _ [] whole) known in
      let (s2, again) = Turns-front bs e cs s1 split step in
      (s2, Run-append _ s s1 s2 cs (bs ++ e ∷ []) run again)

-- Where an identity stands in a list of endpoints, if it does.
found :
    (p : Text) (es : List ServiceEndpoint)
    → All (λ e. endpoint_identity e ≢ p) es
      ⊎ ((bs : List ServiceEndpoint) × (e : ServiceEndpoint) × (cs : List ServiceEndpoint) × (es
            ≡ bs ++ (e ∷ cs))
          × (endpoint_identity e ≡ p))
found p [] = inl tt
found p (e ∷ es) = elim (Bool-cases (same_text (endpoint_identity e) p)) [
  | inl here ↦ inr ([], e, es, refl, (same_text_iff (endpoint_identity e) p).0 here)
  | inr other ↦ elim (found p es) [
    | inl absent ↦
        inl ((λ h. ground (arith, other, (same_text_iff (endpoint_identity e) p).1 h)), absent)
    | inr (bs, f, cs, split, same) ↦ inr (e ∷ bs, f, cs, ap (◌∷◌ e) split, same)
  ]
]

parts :
    (bs cs : List ServiceEndpoint)
    → drop (length bs) (bs ++ cs) ++ take (length bs) (bs ++ cs) ≡ cs ++ bs
parts bs cs = rw (drop-append bs cs, take-append bs cs) refl

length-rotated :
    (i : ℕ) (es : List ServiceEndpoint)
    → i ≤ length es
    → length (drop i es ++ take i es) ≡ length es
length-rotated i es h =
    omega (arith, length-append (drop i es) (take i es), length-drop i es, length-take i es)

abbrev Rotated : Text → List ServiceEndpoint → Selections → Type 0
Rotated d es s =
    (i : ℕ) × (i ≤ length es) × (s' : Selections) × Turns d es s (drop i es ++ take i es) s'

rotate :
    (d : Text) (es bs cs : List ServiceEndpoint) (s s' : Selections)
    → es ≡ bs ++ cs
    → Turns d es s (cs ++ bs) s'
    → Rotated d es s
rotate d es bs cs s s' split run = (
  length bs,
  omega (arith, ap length split, length-append bs cs),
  s',
  subst (λ m. Turns d es s m s')
      (sym (ap (λ m. drop (length bs) m ++ take (length bs) m) split ∙ parts bs cs)) run,
)

Turns-Rotated : (d : Text) (es : List ServiceEndpoint) (s : Selections) → Apart es → Rotated d es s
Turns-Rotated d [] s h = rotate d [] [] [] s s refl (none_left s)
Turns-Rotated d (x ∷ xs) s h = elim (Option-cases (lookup d s)) [
  | inl nothing ↦
      let (s', run) =
        Turns-prefix d x xs h xs [] s (sym (append-nil xs))
          (take_turn-first d s x xs (λ p e. absurd (cc))) in
      rotate d (x ∷ xs) [] (x ∷ xs) s s' refl
        (subst (λ m. Turns d (x ∷ xs) s m s') (sym (append-nil (x ∷ xs))) run)
  | inr (p, last) ↦ elim (found p (x ∷ xs)) [
    | inl absent ↦
        let (s', run) = Turns-prefix d x xs h xs [] s (sym (append-nil xs)) (
          take_turn-first d s x xs
            (λ q e. subst (λ t. All (λ f. endpoint_identity f ≢ t) (x ∷ xs)) (cc) absent)) in
        rotate d (x ∷ xs) [] (x ∷ xs) s s' refl
          (subst (λ m. Turns d (x ∷ xs) s m s') (sym (append-nil (x ∷ xs))) run)
    | inr (bs, e, cs, split, same) ↦
        let (s', run) = Turns-around d x xs h bs e cs s split (last ∙ ap some (sym same)) in
        rotate d (x ∷ xs) (bs ++ e ∷ []) cs s s' (split ∙ sym (append_assoc bs (e ∷ []) cs)) run
  ]
]

-- As many selections as there are endpoints, from any memory, go once round them in order.
pub selects-rotation :
    (instances : List ServiceInstance) (s : Selections)
    → Apart (service_endpoints instances)
    → (i : ℕ) × (i ≤ length (service_endpoints instances))
      × ((outcomes (select_round_robin none instances) (length (service_endpoints instances)) s).1
          ≡ map ok (drop i (service_endpoints instances) ++ take i (service_endpoints instances)))
unfolding select_round_robin
selects-rotation instances s h =
    let es = service_endpoints instances in
    let (i, bound, s', run) = Turns-Rotated (selection_domain instances) es s h in
    (
      i,
      bound,
      ap (λ n. (outcomes (select_round_robin none instances) n s).1)
            (sym (length-rotated i es bound))
          ∙ ap (λ o. o.1)
              (outcomes-Run (select_round_robin none instances) s s' (drop i es ++ take i es) run),
    )
