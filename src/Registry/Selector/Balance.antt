-- ===== src/Registry/Selector/Balance.antt =====
-- packages/registry/src/selector.ts: the number of selections in flight, after any calls.
use go_like.Prelude.{
  lookup-All, assign-All, ℕ, zero, suc, ◌+◌, ◌-◌, ◌≤◌, ◌<◌, ◌≡◌, refl, sym, ap, ◌∙◌, subst, arith,
  Bool, true, false, leb, ◌==◌, ◌&&◌, not, List, [], ◌∷◌, ◌++◌, Option, none, some, Result, ok,
  throw, Thrown, Text, All, length, length-append, Bool-cases, Option-cases, inl, inr,
  if◌then◌else◌, lookup, remove, assign,
}
use go_like.Registry.Selector.Identity.{
  ServiceInstance, ServiceEndpoint, service_endpoints, endpoint_identity,
}
use go_like.Registry.Selector.Domains.{selection_domain, evicted, remember_selection}
use go_like.Registry.Selector.Recency.{remove-All}
use go_like.Registry.Selector.Choices.{
  P2cEndpointState, new_endpoint_state, Heap, state_at, update_at, Domain, Readings, retained,
  SelectedState, state_for, selected_p2c_state, SelectionDone, P2cSelector, new_p2c_selector,
  domain_or_new, begins, admit_selection, admitted, take_choice, select_p2c,
}
use go_like.Registry.Selector.Feedback.{
  Feedback, Completion, settled, deadline, callback_at, completed_at, finished, settle, by_outcome,
  by_context, by_callback, complete, Call, selecting, completing, after, after_all,
}

abbrev pub open_at : ℕ → List SelectionDone → ℕ
open_at address [] = 0
open_at address (c ∷ cs) =
    (if not c.completed && (c.address == address) then 1 else 0) + open_at address cs

abbrev flying : Heap → ℕ → ℕ
flying heap address = (state_at heap address).in_flight

flying-update :
    (heap : Heap) (a b : ℕ) (change : P2cEndpointState → P2cEndpointState)
    → (change new_endpoint_state).in_flight ≡ 0
    → flying (update_at heap a change) b
      ≡ (if a == b then (change (state_at heap b)).in_flight else flying heap b)
unfolding state_at update_at
flying-update [] a b change h = ground (arith, h)
flying-update (s ∷ ss) zero zero change h = ground arith
flying-update (s ∷ ss) zero (suc b) change h = ground arith
flying-update (s ∷ ss) (suc a) zero change h = ground arith
flying-update (s ∷ ss) (suc a) (suc b) change h = flying-update ss a b change h ∙ ground arith

flying-begins :
    (heap : Heap) (a b : ℕ)
    → a < length heap
    → flying (update_at heap a begins) b ≡ (if a == b then 1 else 0) + flying heap b
unfolding state_at update_at begins
flying-begins [] a b h = absurd (omega arith)
flying-begins (s ∷ ss) zero zero h = omega arith
flying-begins (s ∷ ss) zero (suc b) h = ground arith
flying-begins (s ∷ ss) (suc a) zero h = ground arith
flying-begins (s ∷ ss) (suc a) (suc b) h = flying-begins ss a b (omega arith) ∙ ground arith

flying-new : (heap : Heap) (b : ℕ) → flying (heap ++ new_endpoint_state ∷ []) b ≡ flying heap b
unfolding state_at
flying-new [] zero = refl
flying-new [] (suc b) = refl
flying-new (s ∷ ss) zero = refl
flying-new (s ∷ ss) (suc b) = flying-new ss b

length-update :
    (heap : Heap) (a : ℕ) (change : P2cEndpointState → P2cEndpointState)
    → length (update_at heap a change) ≡ length heap
unfolding update_at
length-update [] a change = refl
length-update (s ∷ ss) zero change = refl
length-update (s ∷ ss) (suc a) change = ap suc (length-update ss a change)

open_at-completed :
    (cs : List SelectionDone) (index a b : ℕ)
    → callback_at cs index ≡ some (record { address = a; completed = false })
    → open_at b cs ≡ (if a == b then 1 else 0) + open_at b (completed_at cs index)
unfolding callback_at completed_at
open_at-completed [] index a b h = absurd cc
open_at-completed (c ∷ cs) zero a b h =
    let same : c ≡ record { address = a; completed = false } = cc in rw same (ground arith)
open_at-completed (c ∷ cs) (suc index) a b h = omega (arith, open_at-completed cs index a b h)

-- Addresses within the heap.
abbrev Within : ℕ → Domain → Type 0
Within n = All (λ p. p.1 < n)

evicted-All {ℓ} :
    {A : Type ℓ} (P : Text × A → Type 0) (xs : List (Text × A)) → All P xs → All P (evicted xs)
unfolding evicted
evicted-All P [] h = tt
evicted-All P ((k, a) ∷ xs) h = elim (Bool-cases (leb 1024 (length ((k, a) ∷ xs)))) [
  | inl many ↦ rw (many, evicted) h.1
  | inr few ↦ rw (few, evicted) h
]

remember_selection-All {ℓ} :
    {A : Type ℓ} (P : A → Type 0) (xs : List (Text × A)) (key : Text) (a : A)
    → P a
    → All (λ p. P p.1) xs
    → All (λ p. P p.1) (remember_selection xs key a)
unfolding remember_selection
remember_selection-All P xs key a h k =
    assign-All P key a (evicted (remove key xs)) h
      (evicted-All (λ p. P p.1) (remove key xs) (remove-All key (λ p. P p.1) xs k))

retained-Within :
    (n : ℕ) (domain active : Domain) (es : List ServiceEndpoint)
    → Within n domain
    → Within n active
    → Within n (retained domain active es)
unfolding retained
retained-Within n domain active [] h k = k
retained-Within n domain active (e ∷ es) h k =
    elim (Option-cases (lookup (endpoint_identity e) domain)) [
      | inl nothing ↦ rw (nothing, retained) (retained-Within n domain active es h k)
      | inr (a, found) ↦
          rw (found, retained)
            (retained-Within n domain (assign (endpoint_identity e) a active) es h (
              assign-All (λ b. b < n) (endpoint_identity e) a active
                (lookup-All (λ b. b < n) (endpoint_identity e) domain a h found) k))
    ]

-- Each endpoint state counts the callbacks that hold it and have not completed, and the domains have
-- addresses of the heap only.
record IsBalanced (s : P2cSelector) : Type 0 where
  counts : (b : ℕ) → flying s.heap b ≡ open_at b s.callbacks
  within : All (λ p. Within (length s.heap) p.1) s.domains

Within-mono : (m n : ℕ) (domain : Domain) → m ≤ n → Within m domain → Within n domain
Within-mono m n [] h k = tt
Within-mono m n (p ∷ ps) h k = (omega (arith, k.0), Within-mono m n ps h k.1)

domains_mono :
    (m n : ℕ) (domains : List (Text × Domain))
    → m ≤ n
    → All (λ p. Within m p.1) domains
    → All (λ p. Within n p.1) domains
domains_mono m n [] h k = tt
domains_mono m n (p ∷ ps) h k = (Within-mono m n p.1 h k.0, domains_mono m n ps h k.1)

-- What `selectedP2CState` leaves.
record IsState (heap : Heap) (state : SelectedState) : Type 0 where
  same : (b : ℕ) → flying state.heap b ≡ flying heap b
  grown : length heap ≤ length state.heap
  inside : state.address < length state.heap
  active_inside : Within (length state.heap) state.active

state_for-IsState :
    (heap : Heap) (active : Domain) (identity : Text) (found : Option ℕ)
    → Within (length heap) active
    → ((a : ℕ) → found ≡ some a → a < length heap)
    → IsState heap (state_for heap active identity found)
state_for-IsState heap active identity (some a) h k = record {
  same = (λ b. refl);
  grown = omega arith;
  inside = k a refl;
  active_inside = h;
}
state_for-IsState heap active identity none h k =
    let size : length (heap ++ new_endpoint_state ∷ []) ≡ suc (length heap) =
      length-append heap (new_endpoint_state ∷ []) ∙ omega arith in
    record {
      same = flying-new heap;
      grown = omega arith;
      inside = omega arith;
      active_inside =
          assign-All (λ b. b < length (heap ++ new_endpoint_state ∷ [])) identity (length heap)
            active (omega arith) (Within-mono (length heap) _ active (omega arith) h);
    }

selected_p2c_state-IsState :
    (heap : Heap) (domain : Domain) (es : List ServiceEndpoint) (e : ServiceEndpoint)
    → Within (length heap) domain
    → IsState heap (selected_p2c_state heap domain es e)
unfolding selected_p2c_state
selected_p2c_state-IsState heap domain es e h =
    let active = retained domain [] es in
    let inside = retained-Within (length heap) domain [] es h tt in
    state_for-IsState heap active (endpoint_identity e) (lookup (endpoint_identity e) active) inside
      (λ a found. lookup-All (λ b. b < length heap) (endpoint_identity e) active a inside found)

admit_selection-IsBalanced :
    (s : P2cSelector) (name : Text) (es : List ServiceEndpoint) (domain : Domain)
    (e : ServiceEndpoint)
    → IsBalanced s
    → Within (length s.heap) domain
    → IsBalanced (admit_selection s name es domain e)
unfolding admit_selection
admit_selection-IsBalanced s name es domain e h inside =
    let state = selected_p2c_state s.heap domain es e in
    let k = selected_p2c_state-IsState s.heap domain es e inside in
    let size = length-update state.heap state.address begins in
    record {
      counts = (λ b.
          flying-begins state.heap state.address b k.inside
          ∙ ap (λ n. (if state.address == b then 1 else 0) + n) (k.same b ∙ h.counts b));
      within =
          subst (λ n. All (λ p. Within n p.1) (remember_selection s.domains name state.active))
            (sym size)
            (remember_selection-All (Within (length state.heap)) s.domains name state.active
              k.active_inside
              (domains_mono (length s.heap) (length state.heap) s.domains k.grown h.within));
    }

domain_or_new-Within :
    (n : ℕ) (found : Option Domain)
    → ((d : Domain) → found ≡ some d → Within n d)
    → Within n (domain_or_new found)
domain_or_new-Within n none h = tt
domain_or_new-Within n (some d) h = h d refl

admitted-IsBalanced :
    (s : P2cSelector) (name : Text) (es : List ServiceEndpoint) (domain : Domain)
    (chosen : Result ServiceEndpoint)
    → IsBalanced s
    → Within (length s.heap) domain
    → IsBalanced (admitted s name es domain chosen).0
admitted-IsBalanced s name es domain (throw failure) h k = h
admitted-IsBalanced s name es domain (ok e) h k = admit_selection-IsBalanced s name es domain e h k

take_choice-IsBalanced :
    (r : Readings) (s : P2cSelector) (name : Text) (es : List ServiceEndpoint)
    → IsBalanced s
    → IsBalanced (take_choice r s name es).0
unfolding take_choice
take_choice-IsBalanced r s name [] h = h
take_choice-IsBalanced r s name (e ∷ es) h =
    admitted-IsBalanced s name (e ∷ es) (domain_or_new (lookup name s.domains)) _ h (
      domain_or_new-Within (length s.heap) (lookup name s.domains)
        (λ d found. lookup-All (Within (length s.heap)) name s.domains d h.within found))

select_p2c-IsBalanced :
    (r : Readings) (instances : List ServiceInstance) (s : P2cSelector)
    → IsBalanced s
    → IsBalanced (select_p2c r instances s).0
unfolding select_p2c
select_p2c-IsBalanced r instances s h = elim (Option-cases r.failure) [
  | inl active ↦
      rw (active, select_p2c)
        (take_choice-IsBalanced r s (selection_domain instances) (service_endpoints instances) h)
  | inr (failure, canceled) ↦ rw (canceled, select_p2c) h
]

one_less :
    (here : Bool) {before now : ℕ}
    → before ≡ (if here then 1 else 0) + now
    → (if here then before - 1 else before) ≡ now
one_less true e = omega arith
one_less false e = omega arith

finished-IsBalanced :
    (s : P2cSelector) (index a : ℕ) (failed : Bool) (until : Result ℕ)
    → IsBalanced s
    → callback_at s.callbacks index ≡ some (record { address = a; completed = false })
    → IsBalanced (finished s index a failed until).0
unfolding settled
finished-IsBalanced s index a failed (throw failure) h k = h
finished-IsBalanced s index a failed (ok until) h k =
    let size = length-update s.heap a (settled failed until) in
    record {
      counts = (λ b.
          flying-update s.heap a b (settled failed until) refl
          ∙ one_less (a == b) (h.counts b ∙ open_at-completed s.callbacks index a b k));
      within = subst (λ n. All (λ p. Within n p.1) s.domains) (sym size) h.within;
    }

by_context-IsBalanced :
    (f : Feedback) (c : Completion) (s : P2cSelector) (index a : ℕ) (failure : Option Thrown)
    (failed : Result Bool)
    → c.failed ≡ failed
    → IsBalanced s
    → callback_at s.callbacks index ≡ some (record { address = a; completed = false })
    → IsBalanced (by_context f c s index a failure).0
unfolding settle
by_context-IsBalanced f c s index a (some failure) failed e h k = h
by_context-IsBalanced f c s index a none (throw failure) e h k =
    subst (λ o. IsBalanced (by_outcome f c s index a o).0) (sym e) h
by_context-IsBalanced f c s index a none (ok failed) e h k =
    subst (λ o. IsBalanced (by_outcome f c s index a o).0) (sym e)
      (finished-IsBalanced s index a failed (deadline f failed c.now (state_at s.heap a)) h k)

by_callback-IsBalanced :
    (f : Feedback) (c : Completion) (s : P2cSelector) (index : ℕ) (found : Option SelectionDone)
    → callback_at s.callbacks index ≡ found
    → IsBalanced s
    → IsBalanced (by_callback f c s index found).0
by_callback-IsBalanced f c s index none e h = h
by_callback-IsBalanced f c s index (some callback) e h = elim (Bool-cases callback.completed) [
  | inl over ↦ rw over h
  | inr open_yet ↦ rw open_yet (
      by_context-IsBalanced f c s index callback.address c.failure c.failed refl h
        (e ∙ ap (λ t. some (record { address = callback.address; completed = t })) open_yet))
]

after-IsBalanced :
    (f : Feedback) (call : Call) (s : P2cSelector) → IsBalanced s → IsBalanced (after f call s)
unfolding after complete
after-IsBalanced f (selecting r instances) s h = select_p2c-IsBalanced r instances s h
after-IsBalanced f (completing c index) s h =
    by_callback-IsBalanced f c s index (callback_at s.callbacks index) refl h

after_all-IsBalanced :
    (f : Feedback) (calls : List Call) (s : P2cSelector)
    → IsBalanced s
    → IsBalanced (after_all f calls s)
unfolding after_all
after_all-IsBalanced f [] s h = h
after_all-IsBalanced f (call ∷ calls) s h =
    after_all-IsBalanced f calls (after f call s) (after-IsBalanced f call s h)

-- After any calls of a new selector, each endpoint state has as many selections in flight as there
-- are callbacks that hold it and have not completed.
pub after_all-counts :
    (f : Feedback) (calls : List Call) (address : ℕ)
    → (state_at (after_all f calls new_p2c_selector).heap address).in_flight
      ≡ open_at address (after_all f calls new_p2c_selector).callbacks
unfolding state_at
after_all-counts f calls address =
    (after_all-IsBalanced f calls new_p2c_selector
        (record { counts = (λ b. refl); within = tt })).counts
      address
