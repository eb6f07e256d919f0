-- ===== src/Registry/Selector/Tests.antt =====
-- packages/registry/src/selector.ts at concrete inputs.
use go_like.Prelude.{
  ℕ, ◌+◌, ◌≤◌, ◌≡◌, ◌≢◌, false, same_text_iff, refl, arith, List, [], ◌∷◌, ◌++◌, map, none, some,
  ok, throw, true, type_error, no_available_endpoint, Text, length, take, drop, same_text, lookup,
  remove, outcomes,
}
use go_like.Registry.Selector.Identity.{
  ServiceInstance, ServiceEndpoint, endpoints_at, service_endpoints, decimal_digits, decimal,
  code_units, counted, endpoint_identity, endpoint_identity-injective,
}
use go_like.Registry.Selector.Domains.{filter_version}
use go_like.Registry.Selector.Strategies.{
  item_from, item_at, take_turn, select_round_robin, Weighed, weighs, weighted_endpoints,
  select_random, select_weighted, pick_sampled, random_sample, sampled_index,
}
use go_like.Registry.Selector.Choices.{
  Heap, state_at, Domain, Readings, endpoint_cooldown, eligible_p2c_endpoints, choose_eligible,
  p2c_endpoint, new_p2c_selector,
}
use go_like.Registry.Selector.Feedback.{
  Feedback, selector_integer, feedback_options, Call, selecting, completing, after_all,
}
use go_like.Registry.Selector.Eligible.{IsChoice, p2c_endpoint-IsChoice}
use go_like.Registry.Selector.Balance.{open_at, after_all-counts}
use go_like.Registry.Selector.Rotation.{Apart}
use go_like.Registry.Selector.Fairness.{selects-rotation}
use go_like.Registry.Selector.Cycles.{cycles, selects_weighted-cycles}
use go_like.Registry.Selector.Recency.{remembered, in_order, remembered-in_order}

abbrev node : ServiceInstance
node = record {
  id = 49 ∷ [];
  name = 104 ∷ [];
  version = 118 ∷ [];
  metadata = [];
  endpoints = (97 ∷ []) ∷ (98 ∷ []) ∷ [];
}

abbrev other_node : ServiceInstance
other_node = record {
  id = 50 ∷ [];
  name = 104 ∷ [];
  version = 119 ∷ [];
  metadata = [];
  endpoints = (97 ∷ []) ∷ [];
}

abbrev endpoint_a : ServiceEndpoint
endpoint_a = record { instance_of = node; url = 97 ∷ [] }

abbrev endpoint_b : ServiceEndpoint
endpoint_b = record { instance_of = node; url = 98 ∷ [] }

abbrev endpoint_c : ServiceEndpoint
endpoint_c = record { instance_of = other_node; url = 97 ∷ [] }

abbrev nodes : List ServiceInstance
nodes = node ∷ other_node ∷ []

no_nodes : select_round_robin none [] [] ≡ ([], throw no_available_endpoint)
unfolding select_round_robin take_turn service_endpoints
no_nodes = refl

only_version : filter_version (119 ∷ []) nodes ≡ other_node ∷ []
unfolding filter_version same_text
only_version = refl

-- A third of the way through three endpoints.
second_sampled :
    select_random none (ok (some (record { numerator = 1; denominator = 3 }))) nodes ≡ ok endpoint_b
unfolding select_random pick_sampled random_sample sampled_index item_at item_from service_endpoints
    endpoints_at
second_sampled = refl

endpoint_identity-injective_example :
    (endpoint_c.instance_of.name ≡ endpoint_c.instance_of.name)
    × (endpoint_c.instance_of.version ≡ endpoint_c.instance_of.version)
    × (endpoint_c.instance_of.id ≡ endpoint_c.instance_of.id)
    × (endpoint_c.url ≡ endpoint_c.url)
endpoint_identity-injective_example = endpoint_identity-injective endpoint_c endpoint_c refl

told_apart :
    (d e : ServiceEndpoint)
    → same_text (endpoint_identity d) (endpoint_identity e) ≡ false
    → endpoint_identity d ≢ endpoint_identity e
told_apart d e h =
    λ same. ground (arith, h, same_text_iff (endpoint_identity d) (endpoint_identity e))

nodes-Apart : Apart (service_endpoints nodes)
unfolding service_endpoints endpoints_at endpoint_identity counted decimal decimal_digits code_units
    same_text
nodes-Apart = (
  (told_apart endpoint_a endpoint_b refl, (told_apart endpoint_a endpoint_c refl, tt)),
  ((told_apart endpoint_b endpoint_c refl, tt), (tt, tt)),
)

selects-rotation_example :
    (i : ℕ) × (i ≤ 3)
    × ((outcomes (select_round_robin none nodes) 3 []).1
        ≡ map ok (
            drop i (endpoint_a ∷ endpoint_b ∷ endpoint_c ∷ [])
            ++ take i (endpoint_a ∷ endpoint_b ∷ endpoint_c ∷ [])))
unfolding service_endpoints endpoints_at endpoint_identity counted decimal decimal_digits code_units
selects-rotation_example = selects-rotation nodes [] nodes-Apart

abbrev by_url : ServiceEndpoint → Weighed
by_url e = weighs (length e.url + 1)

selects_weighted-cycles_example :
    (outcomes (select_weighted by_url none nodes) 12 []).1
    ≡ map ok (
        cycles 2 (
          record { endpoint = endpoint_a; weight = 2 }
          ∷ record { endpoint = endpoint_b; weight = 2 }
          ∷ record { endpoint = endpoint_c; weight = 2 }
          ∷ []))
unfolding service_endpoints endpoints_at endpoint_identity counted decimal decimal_digits code_units
    weighted_endpoints lookup
selects_weighted-cycles_example = selects_weighted-cycles by_url nodes _ [] 2 refl nodes-Apart refl

abbrev asked : List (Text × ℕ)
asked = ((97 ∷ []), 1) ∷ ((98 ∷ []), 2) ∷ ((97 ∷ []), 3) ∷ []

remembered-in_order_example : remembered [] asked ≡ ((98 ∷ []), 2) ∷ ((97 ∷ []), 3) ∷ []
unfolding in_order remove same_text
remembered-in_order_example = remembered-in_order asked

abbrev feedback : Feedback
feedback = record { failure_threshold = 1; cooldown_ms = 100 }

default_options :
    feedback_options none none ≡ ok (record { failure_threshold = 3; cooldown_ms = 10000 })
unfolding feedback_options selector_integer
default_options = refl

zero_threshold : feedback_options (some 0) none ≡ throw type_error
unfolding feedback_options selector_integer
zero_threshold = refl

abbrev readings : Readings
readings = record {
  failure = none;
  now = ok (some 5);
  first_sample = ok (some (record { numerator = 0; denominator = 1 }));
  second_sample = ok (some (record { numerator = 1; denominator = 2 }));
}

-- Two selections, of which the first fails.
abbrev calls : List Call
calls =
    selecting readings nodes
    ∷ selecting readings nodes
    ∷ completing (record { failure = none; failed = ok true; now = ok (some 7) }) 1
    ∷ []

after_all-counts_example :
    (state_at (after_all feedback calls new_p2c_selector).heap 0).in_flight
    ≡ open_at 0 (after_all feedback calls new_p2c_selector).callbacks
after_all-counts_example = after_all-counts feedback calls 0

-- The first endpoint rests.
abbrev rested : Heap
rested = record { in_flight = 0; consecutive_failures = 1; cooldown_until = 50 } ∷ []

abbrev resting_domain : Domain
resting_domain = (endpoint_identity endpoint_a, 0) ∷ []

p2c_endpoint-IsChoice_example :
    IsChoice rested resting_domain 5 (endpoint_a ∷ endpoint_b ∷ []) endpoint_b
unfolding p2c_endpoint choose_eligible eligible_p2c_endpoints endpoint_cooldown state_at lookup
    same_text endpoint_identity counted decimal decimal_digits code_units
p2c_endpoint-IsChoice_example =
    p2c_endpoint-IsChoice rested resting_domain readings endpoint_a (endpoint_b ∷ []) 5 endpoint_b
      refl
