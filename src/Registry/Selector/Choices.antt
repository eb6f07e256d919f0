-- ===== src/Registry/Selector/Choices.antt =====
-- packages/registry/src/selector.ts: the power-of-two-choices selector and its feedback. The state
-- objects of endpoints, which a domain and the callbacks of its selections share, stand in a heap,
-- and a domain maps the identity of an endpoint to an address.
use go_like.Prelude.{
  ℕ, zero, suc, ◌+◌, ◌-◌, Bool, false, ltb, leb, List, [], ◌∷◌, ◌++◌, Option, none, some, Result,
  ok, throw, Thrown, type_error, no_available_endpoint, ◌>>=◌, Text, length, if◌then◌else◌, lookup,
  assign,
}
use go_like.Registry.Selector.Identity.{
  ServiceInstance, ServiceEndpoint, service_endpoints, endpoint_identity,
}
use go_like.Registry.Selector.Domains.{selection_domain, remember_selection}
use go_like.Registry.Selector.Strategies.{item_at, Sample, random_sample, sampled_index}

pub record P2cEndpointState : Type 0 where
  pub in_flight : ℕ
  pub consecutive_failures : ℕ
  pub cooldown_until : ℕ

abbrev pub new_endpoint_state : P2cEndpointState
new_endpoint_state = record { in_flight = 0; consecutive_failures = 0; cooldown_until = 0 }

abbrev pub Heap : Type 0
Heap = List P2cEndpointState

unfoldable pub state_at : Heap → ℕ → P2cEndpointState
state_at [] address = new_endpoint_state
state_at (s ∷ ss) zero = s
state_at (s ∷ ss) (suc address) = state_at ss address

unfoldable pub update_at : Heap → ℕ → (P2cEndpointState → P2cEndpointState) → Heap
update_at [] address change = []
update_at (s ∷ ss) zero change = change s ∷ ss
update_at (s ∷ ss) (suc address) change = s ∷ update_at ss address change

abbrev pub Domain : Type 0
Domain = List (Text × ℕ)

abbrev in_flight_of : Heap → Option ℕ → ℕ
in_flight_of heap none = 0
in_flight_of heap (some address) = (state_at heap address).in_flight

abbrev cooldown_of : Heap → Option ℕ → ℕ
cooldown_of heap none = 0
cooldown_of heap (some address) = (state_at heap address).cooldown_until

unfoldable pub endpoint_in_flight : Heap → Domain → ServiceEndpoint → ℕ
unfolding state_at lookup endpoint_identity
endpoint_in_flight heap domain e = in_flight_of heap (lookup (endpoint_identity e) domain)

unfoldable pub endpoint_cooldown : Heap → Domain → ServiceEndpoint → ℕ
unfolding state_at lookup endpoint_identity
endpoint_cooldown heap domain e = cooldown_of heap (lookup (endpoint_identity e) domain)

unfoldable pub earliest_cooldown_endpoint :
    Heap → Domain → ServiceEndpoint → List ServiceEndpoint → ServiceEndpoint
unfolding endpoint_cooldown
earliest_cooldown_endpoint heap domain selected [] = selected
earliest_cooldown_endpoint heap domain selected (candidate ∷ rest) =
    earliest_cooldown_endpoint heap domain
      (if ltb (endpoint_cooldown heap domain candidate) (endpoint_cooldown heap domain selected)
        then candidate
        else selected)
      rest

unfoldable pub second_index : ℕ → ℕ → ℕ
second_index first_index second_base =
    if leb first_index second_base then second_base + 1 else second_base

pub record EndpointPair : Type 0 where
  pub first : ServiceEndpoint
  pub second : ServiceEndpoint

unfoldable pub endpoints_from_samples :
    ServiceEndpoint → List ServiceEndpoint → Sample → Sample → EndpointPair
unfolding item_at sampled_index second_index
endpoints_from_samples e es first_sample second_sample =
    let first_index = sampled_index first_sample (length (e ∷ es)) in
    let second_base = sampled_index second_sample (length (e ∷ es) - 1) in
    record {
      first = item_at e es first_index;
      second = item_at e es (second_index first_index second_base);
    }

unfoldable pub sampled_p2c_endpoint :
    Heap → Domain → ServiceEndpoint → List ServiceEndpoint → Sample → Sample → ServiceEndpoint
unfolding endpoints_from_samples endpoint_in_flight
sampled_p2c_endpoint heap domain e es first_sample second_sample =
    let sampled = endpoints_from_samples e es first_sample second_sample in
    if ltb (endpoint_in_flight heap domain sampled.second)
      (endpoint_in_flight heap domain sampled.first)
    then sampled.second
    else sampled.first

unfoldable pub eligible_p2c_endpoints :
    Heap → Domain → ℕ → List ServiceEndpoint → List ServiceEndpoint
unfolding endpoint_cooldown
eligible_p2c_endpoints heap domain now [] = []
eligible_p2c_endpoints heap domain now (e ∷ es) =
    let rest = eligible_p2c_endpoints heap domain now es in
    if leb (endpoint_cooldown heap domain e) now then e ∷ rest else rest

-- What a selection reads from outside: the failure of the Context, the clock, two samples.
pub record Readings : Type 0 where
  pub failure : Option Thrown
  pub now : Result (Option ℕ)
  pub first_sample : Result (Option Sample)
  pub second_sample : Result (Option Sample)

unfoldable pub monotonic_now : Result (Option ℕ) → Result ℕ
monotonic_now (throw failure) = throw failure
monotonic_now (ok none) = throw type_error
monotonic_now (ok (some now)) = ok now

-- The eligible endpoints are the same whenever p2cEndpoint reads them, since the random source leaves
-- the selector alone.
unfoldable pub choose_eligible :
    Heap
    → Domain
    → Readings
    → ServiceEndpoint
    → List ServiceEndpoint
    → List ServiceEndpoint
    → Result ServiceEndpoint
unfolding earliest_cooldown_endpoint sampled_p2c_endpoint random_sample
choose_eligible heap domain r e es [] = ok (earliest_cooldown_endpoint heap domain e es)
choose_eligible heap domain r e es (only ∷ []) = ok only
choose_eligible heap domain r e es (x ∷ y ∷ more) = do
  first ← random_sample r.first_sample
  second ← random_sample r.second_sample
  ok (sampled_p2c_endpoint heap domain x (y ∷ more) first second)

unfoldable pub p2c_endpoint :
    Heap → Domain → Readings → ServiceEndpoint → List ServiceEndpoint → ℕ → Result ServiceEndpoint
unfolding choose_eligible eligible_p2c_endpoints
p2c_endpoint heap domain r e es now =
    choose_eligible heap domain r e es (eligible_p2c_endpoints heap domain now (e ∷ es))

-- `selectedP2CState`: the states of current endpoints, and that of the selected one.
abbrev pub retain : Option ℕ → Text → Domain → Domain
retain none identity active = active
retain (some address) identity active = assign identity address active

unfoldable pub retained : Domain → Domain → List ServiceEndpoint → Domain
unfolding lookup assign endpoint_identity
retained domain active [] = active
retained domain active (e ∷ es) =
    retained domain (retain (lookup (endpoint_identity e) domain) (endpoint_identity e) active) es

pub record SelectedState : Type 0 where
  pub heap : Heap
  pub active : Domain
  pub address : ℕ

abbrev pub state_for : Heap → Domain → Text → Option ℕ → SelectedState
state_for heap active identity (some address) = record {
  heap = heap;
  active = active;
  address = address;
}
state_for heap active identity none = record {
  heap = heap ++ new_endpoint_state ∷ [];
  active = assign identity (length heap) active;
  address = length heap;
}

unfoldable pub selected_p2c_state :
    Heap → Domain → List ServiceEndpoint → ServiceEndpoint → SelectedState
unfolding retained lookup assign endpoint_identity
selected_p2c_state heap domain endpoints selected =
    let active = retained domain [] endpoints in
    state_for heap active (endpoint_identity selected) (lookup (endpoint_identity selected) active)

-- A feedback callback: the state that it holds, and whether it has completed.
pub record SelectionDone : Type 0 where
  pub address : ℕ
  pub completed : Bool

pub record P2cSelector : Type 0 where
  pub heap : Heap
  pub domains : List (Text × Domain)
  pub callbacks : List SelectionDone

abbrev pub new_p2c_selector : P2cSelector
new_p2c_selector = record { heap = []; domains = []; callbacks = [] }

abbrev pub domain_or_new : Option Domain → Domain
domain_or_new none = []
domain_or_new (some domain) = domain

unfoldable pub begins : P2cEndpointState → P2cEndpointState
begins s = record s { in_flight = s.in_flight + 1 }

unfoldable pub admit_selection :
    P2cSelector → Text → List ServiceEndpoint → Domain → ServiceEndpoint → P2cSelector
unfolding selected_p2c_state update_at begins remember_selection
admit_selection s name endpoints domain selected =
    let state = selected_p2c_state s.heap domain endpoints selected in
    record {
      heap = update_at state.heap state.address begins;
      domains = remember_selection s.domains name state.active;
      callbacks = record { address = state.address; completed = false } ∷ s.callbacks;
    }

abbrev pub admitted :
    P2cSelector
    → Text
    → List ServiceEndpoint
    → Domain
    → Result ServiceEndpoint
    → P2cSelector × Result ServiceEndpoint
admitted s name endpoints domain (throw failure) = (s, throw failure)
admitted s name endpoints domain (ok selected) =
    (admit_selection s name endpoints domain selected, ok selected)

unfoldable pub take_choice :
    Readings → P2cSelector → Text → List ServiceEndpoint → P2cSelector × Result ServiceEndpoint
unfolding p2c_endpoint monotonic_now admit_selection lookup
take_choice r s name [] = (s, throw no_available_endpoint)
take_choice r s name (e ∷ es) =
    let domain = domain_or_new (lookup name s.domains) in
    admitted s name (e ∷ es) domain
      (monotonic_now r.now >>= λ now. p2c_endpoint s.heap domain r e es now)

-- `select` of `newP2CSelector`
unfoldable pub select_p2c :
    Readings → List ServiceInstance → P2cSelector → P2cSelector × Result ServiceEndpoint
unfolding take_choice selection_domain service_endpoints
select_p2c r instances s = elim r.failure [
  | some failure ↦ (s, throw failure)
  | none ↦ take_choice r s (selection_domain instances) (service_endpoints instances)
]
