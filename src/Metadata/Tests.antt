-- ===== src/Metadata/Tests.antt =====
-- packages/metadata/src/index.ts: runs of the model and examples of the theorems. Keys are short texts
-- of code points; lower-casing is that of ASCII letters.
use go_like.Prelude.{
  ◌≡◌, refl, [], ◌∷◌, none, some, ok, throw, type_error, lookup, assign, same_text, starts_with,
}
use go_like.Context.Nodes.{background, local, resolve}
use go_like.Context.World.{World, resolve_value}
use go_like.Context.Derive.{with_value}
use go_like.Context.Reachable.{no_contexts}
use go_like.Registry.Selector.Domains.{compare_code_points}
use go_like.Registry.Mdns.Cache.{utf16}
use go_like.Registry.Mdns.Names.{lower}
use go_like.Metadata.Snapshots.{
  Metadata, single, several, normalize_key, metadata_value, copied_values, snapshot_values,
  update_builder, insert_entry, freeze_builder, builder_from_input, new_metadata, append, set,
}
use go_like.Metadata.Lookups.{IsDistinct}
use go_like.Metadata.Carried.{
  Stored, context_metadata, from_client_context, from_server_context, new_client_context,
  new_server_context, PropagationRules, has_text, has_prefix, matches_propagation_rule, propagate,
  propagate_to_client_context, propagation_rules, propagation_rule_list,
}
use go_like.Metadata.Propagation.{Propagates, propagate-Propagates}

abbrev request : Metadata
request = ((97 ∷ []), (1 ∷ []) ∷ []) ∷ ((98 ∷ []), (2 ∷ []) ∷ (3 ∷ []) ∷ []) ∷ []

-- Keys that differ in case only are one key; the snapshot is sorted.
made :
    new_metadata lower (
      (some (98 ∷ []), single (some (2 ∷ [])))
      ∷ (some (65 ∷ []), single (some (1 ∷ [])))
      ∷ (some (66 ∷ []), several (some (3 ∷ []) ∷ []))
      ∷ [])
    ≡ ok request
unfolding new_metadata builder_from_input normalize_key snapshot_values metadata_value copied_values
    update_builder freeze_builder insert_entry lookup assign same_text compare_code_points utf16
    lower
made = refl

refused :
    (set lower request (some []) (some (1 ∷ [])) ≡ throw type_error)
    × (append lower request (some (97 ∷ [])) (several (none ∷ [])) ≡ throw type_error)
unfolding set append normalize_key snapshot_values copied_values metadata_value
refused = (refl, refl)

request-IsDistinct : IsDistinct request
unfolding lookup same_text
request-IsDistinct = (refl, (refl, tt))

abbrev patch : Metadata
patch = ((97 ∷ []), (7 ∷ []) ∷ []) ∷ ((99 ∷ []), (5 ∷ []) ∷ []) ∷ []

patch-IsDistinct : IsDistinct patch
unfolding lookup same_text
patch-IsDistinct = (refl, (refl, tt))

abbrev served : World Stored
served = (new_server_context no_contexts background request).0

abbrev calling : World Stored
calling = (new_client_context served (local 0) patch).0

abbrev letters : PropagationRules
letters = record { exact = (97 ∷ []) ∷ []; prefix = (98 ∷ []) ∷ [] }

-- The client's own value stays under `a`, and `b` comes from the server.
propagate-Propagates_example :
    Propagates calling
      (local 1)
      (propagate calling (local 1) letters)
      (98 ∷ [])
      (some ((2 ∷ []) ∷ (3 ∷ []) ∷ []))
unfolding from_server_context from_client_context context_metadata resolve_value resolve
    new_server_context new_client_context with_value lookup same_text matches_propagation_rule
    has_text has_prefix starts_with
propagate-Propagates_example =
    propagate-Propagates calling (local 1) letters request (98 ∷ []) refl request-IsDistinct
      patch-IsDistinct

unchanged_without_rules :
    propagate_to_client_context lower calling (local 1) none (some []) ≡ (calling, ok (local 1))
unfolding propagate_to_client_context propagation_rules propagation_rule_list propagate
unchanged_without_rules = refl
