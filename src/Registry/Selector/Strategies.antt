-- ===== src/Registry/Selector/Strategies.antt =====
-- packages/registry/src/selector.ts: the random, round-robin and weighted round-robin selectors. The
-- failure of the Context is an argument of a selection, `none` where it is active.
use go_like.Prelude.{
  ℕ, suc, ◌+◌, ◌*◌, ◌/◌, ◌%◌, ltb, leb, ◌==◌, ◌&&◌, List, [], ◌∷◌, Option, none, some, Result, ok,
  throw, Thrown, type_error, no_available_endpoint, ◌>>=◌, Text, same_text, length, if◌then◌else◌,
  lookup,
}
use go_like.Registry.Selector.Identity.{
  ServiceInstance, ServiceEndpoint, service_endpoints, endpoint_identity,
}
use go_like.Registry.Selector.Domains.{selection_domain, remember_selection}

-- `itemAt`: the reduction keeps the item at the index, and the first one if there is none.
module _ {ℓ} {A : Type ℓ} where
  unfoldable pub item_from : ℕ → ℕ → A → List A → A
  item_from position index selected [] = selected
  item_from position index selected (candidate ∷ rest) =
      item_from (suc position) index (if position == index then candidate else selected) rest

  unfoldable pub item_at : A → List A → ℕ → A
  unfolding item_from
  item_at first rest index = item_from 1 index first rest

-- `nextEndpointIndex`
unfoldable pub index_after : ℕ → ℕ → Text → List ServiceEndpoint → ℕ
unfolding endpoint_identity
index_after count index previous [] = 0
index_after count index previous (e ∷ es) =
    let later = index_after count (suc index) previous es in
    if same_text (endpoint_identity e) previous then suc index % count else later

unfoldable pub next_endpoint_index : List ServiceEndpoint → Option Text → ℕ
unfolding index_after
next_endpoint_index endpoints none = 0
next_endpoint_index endpoints (some previous) = index_after (length endpoints) 0 previous endpoints

abbrev pub Selections : Type 0
Selections = List (Text × Text)

unfoldable pub take_turn :
    Selections → Text → List ServiceEndpoint → Selections × Result ServiceEndpoint
unfolding item_at next_endpoint_index remember_selection endpoint_identity lookup
take_turn selections domain [] = (selections, throw no_available_endpoint)
take_turn selections domain (e ∷ es) =
    let endpoint = item_at e es (next_endpoint_index (e ∷ es) (lookup domain selections)) in
    (remember_selection selections domain (endpoint_identity endpoint), ok endpoint)

-- `select` of `newRoundRobinSelector`
unfoldable pub select_round_robin :
    Option Thrown → List ServiceInstance → Selections → Selections × Result ServiceEndpoint
unfolding take_turn selection_domain service_endpoints
select_round_robin (some failure) instances selections = (selections, throw failure)
select_round_robin none instances selections =
    take_turn selections (selection_domain instances) (service_endpoints instances)

-- A random sample is the fraction of two numbers; a source gives one, or `none` where it returns no
-- number that is finite and at least 0, or throws.
pub record Sample : Type 0 where
  pub numerator : ℕ
  pub denominator : ℕ

unfoldable pub sampled_index : Sample → ℕ → ℕ
sampled_index s count = s.numerator * count / s.denominator

unfoldable pub random_sample : Result (Option Sample) → Result Sample
random_sample (throw failure) = throw failure
random_sample (ok none) = throw type_error
random_sample (ok (some s)) = if ltb s.numerator s.denominator then ok s else throw type_error

-- `select` of `newRandomSelector`
unfoldable pub pick_sampled : Result (Option Sample) → List ServiceEndpoint → Result ServiceEndpoint
unfolding random_sample sampled_index item_at
pick_sampled random [] = throw no_available_endpoint
pick_sampled random (e ∷ es) = do
  sample ← random_sample random
  ok (item_at e es (sampled_index sample (length (e ∷ es))))

unfoldable pub select_random :
    Option Thrown → Result (Option Sample) → List ServiceInstance → Result ServiceEndpoint
unfolding pick_sampled service_endpoints
select_random (some failure) random instances = throw failure
select_random none random instances = pick_sampled random (service_endpoints instances)

pub record WeightedEndpoint : Type 0 where
  pub endpoint : ServiceEndpoint
  pub weight : ℕ

pub record WeightedCursor : Type 0 where
  pub identity : Text
  pub slot : ℕ

-- What the weight callback gives for an endpoint: a number, something else, or a throw.
pub data Weighed : Type 0 where
  weighs : ℕ → Weighed
  no_number : Weighed
  thrown : Thrown → Weighed

abbrev pub max_safe_weight : ℕ
max_safe_weight = 9007199254740991

abbrev pub checked_weight : Weighed → Result ℕ
checked_weight (weighs w) = if leb 1 w && leb w max_safe_weight then ok w else throw type_error
checked_weight no_number = throw type_error
checked_weight (thrown failure) = throw failure

unfoldable pub weighted_endpoints :
    (ServiceEndpoint → Weighed) → List ServiceEndpoint → Result (List WeightedEndpoint)
weighted_endpoints weight [] = ok []
weighted_endpoints weight (e ∷ es) = do
  w ← checked_weight (weight e)
  rest ← weighted_endpoints weight es
  ok (record { endpoint = e; weight = w } ∷ rest)

abbrev pub first_slot : WeightedEndpoint → WeightedEndpoint × WeightedCursor
first_slot w = (w, record { identity = endpoint_identity w.endpoint; slot = 0 })

-- The loop of `nextWeightedChoice` over the candidates from an index on.
unfoldable pub slot_after :
    WeightedEndpoint
    → List WeightedEndpoint
    → WeightedCursor
    → ℕ
    → List WeightedEndpoint
    → WeightedEndpoint × WeightedCursor
unfolding endpoint_identity item_at
slot_after first rest previous index [] = first_slot first
slot_after first rest previous index (w ∷ ws) =
    let later = slot_after first rest previous (suc index) ws in
    if same_text (endpoint_identity w.endpoint) previous.identity
    then (if ltb (previous.slot + 1) w.weight
        then (w, record { identity = previous.identity; slot = previous.slot + 1 })
        else first_slot (item_at first rest (suc index % length (first ∷ rest))))
    else later

unfoldable pub next_weighted_choice :
    WeightedEndpoint
    → List WeightedEndpoint
    → Option WeightedCursor
    → WeightedEndpoint × WeightedCursor
unfolding slot_after
next_weighted_choice first rest none = first_slot first
next_weighted_choice first rest (some previous) = slot_after first rest previous 0 (first ∷ rest)

abbrev pub Cursors : Type 0
Cursors = List (Text × WeightedCursor)

unfoldable pub take_slot : Cursors → Text → List WeightedEndpoint → Cursors × Result ServiceEndpoint
unfolding next_weighted_choice remember_selection lookup
take_slot cursors domain [] = (cursors, throw no_available_endpoint)
take_slot cursors domain (w ∷ ws) =
    let (choice, cursor) = next_weighted_choice w ws (lookup domain cursors) in
    (remember_selection cursors domain cursor, ok choice.endpoint)

unfoldable pub take_checked :
    Cursors → Text → Result (List WeightedEndpoint) → Cursors × Result ServiceEndpoint
unfolding take_slot
take_checked cursors domain (throw failure) = (cursors, throw failure)
take_checked cursors domain (ok weighted) = take_slot cursors domain weighted

-- `select` of `newWeightedRoundRobinSelector`
unfoldable pub select_weighted :
    (ServiceEndpoint → Weighed)
    → Option Thrown
    → List ServiceInstance
    → Cursors
    → Cursors × Result ServiceEndpoint
unfolding weighted_endpoints take_checked selection_domain service_endpoints
select_weighted weight (some failure) instances cursors = (cursors, throw failure)
select_weighted weight none instances cursors =
    take_checked cursors (selection_domain instances)
      (weighted_endpoints weight (service_endpoints instances))
