-- ===== src/Metadata/Carried.antt =====
-- packages/metadata/src/index.ts: client and server metadata on contexts, and propagation.
use go_like.Prelude.{
  ℕ, Bool, true, false, not, ◌&&◌, ◌||◌, if◌then◌else◌, List, [], ◌∷◌, Option, none, some, Result,
  ok, throw, ◌>>=◌, type_error, Text, same_text, starts_with, lookup,
}
use go_like.Context.Nodes.{Context}
use go_like.Context.World.{World, user_key, Value, bound, carrier, resolve_value}
use go_like.Context.Derive.{with_value}
use go_like.Metadata.Snapshots.{
  Metadata, Builder, normalize_key, metadata_value, update_builder, freeze_builder,
  builder_from_metadata, set, merge,
}

-- What a context carries: a snapshot of the package, or a value of somebody else.
pub data Stored : Type 0 where
  branded : Metadata → Stored
  foreign_value : ℕ → Stored

-- The private keys of the two domains.
abbrev pub client_context_key : ℕ
client_context_key = 0

abbrev pub server_context_key : ℕ
server_context_key = 1

abbrev pub metadata_in : Option (Value Stored) → Option Metadata
metadata_in (some (bound (branded metadata))) = some metadata
metadata_in (some (bound (foreign_value n))) = none
metadata_in (some (carrier address)) = none
metadata_in none = none

unfoldable pub context_metadata : World Stored → ℕ → Context → Option Metadata
unfolding resolve_value
context_metadata w key c = metadata_in (resolve_value w (user_key key) c)

unfoldable pub from_client_context : World Stored → Context → Option Metadata
unfolding context_metadata
from_client_context w = context_metadata w client_context_key

unfoldable pub from_server_context : World Stored → Context → Option Metadata
unfolding context_metadata
from_server_context w = context_metadata w server_context_key

-- A clone of a snapshot has the same entries.
unfoldable pub new_client_context :
    World Stored → Context → Metadata → World Stored × Result Context
unfolding with_value
new_client_context w c metadata = with_value w c (some client_context_key) (branded metadata)

unfoldable pub new_server_context :
    World Stored → Context → Metadata → World Stored × Result Context
unfolding with_value
new_server_context w c metadata = with_value w c (some server_context_key) (branded metadata)

abbrev metadata_or_new : Option Metadata → Metadata
metadata_or_new none = []
metadata_or_new (some metadata) = metadata

-- The key/value pairs, and one key left over, which is an error before any other.
unfoldable pub set_pairs :
    (Text → Text) → Metadata → List (Option Text × Option Text) → Result Metadata
unfolding set normalize_key metadata_value
set_pairs lower metadata [] = ok metadata
set_pairs lower metadata ((key, value) ∷ rest) = do
  name ← normalize_key lower key
  v ← metadata_value value
  m ← set lower metadata (some name) (some v)
  set_pairs lower m rest

unfoldable pub append_to_client_context :
    (Text → Text)
    → World Stored
    → Context
    → List (Option Text × Option Text)
    → Bool
    → World Stored × Result Context
unfolding set_pairs from_client_context new_client_context
append_to_client_context lower w c pairs true = (w, throw type_error)
append_to_client_context lower w c pairs false =
    elim (set_pairs lower (metadata_or_new (from_client_context w c)) pairs) [
      | throw failure ↦ (w, throw failure)
      | ok metadata ↦ new_client_context w c metadata
    ]

unfoldable pub merge_to_client_context :
    World Stored → Context → Metadata → World Stored × Result Context
unfolding merge from_client_context new_client_context
merge_to_client_context w c patch =
    new_client_context w c (merge (metadata_or_new (from_client_context w c)) patch)

pub record PropagationRules : Type 0 where
  pub exact : List Text
  pub prefix : List Text

-- A list that is undefined is `none`.
unfoldable pub propagation_rule_list :
    (Text → Text) → Option (List (Option Text)) → Result (List Text)
unfolding normalize_key
propagation_rule_list lower none = ok []
propagation_rule_list lower (some []) = ok []
propagation_rule_list lower (some (rule ∷ rest)) = do
  first ← normalize_key lower rule
  others ← propagation_rule_list lower (some rest)
  ok (first ∷ others)

unfoldable pub propagation_rules :
    (Text → Text)
    → Option (List (Option Text))
    → Option (List (Option Text))
    → Result PropagationRules
unfolding propagation_rule_list
propagation_rules lower exact prefix = do
  e ← propagation_rule_list lower exact
  p ← propagation_rule_list lower prefix
  ok (record { exact = e; prefix = p })

unfoldable pub has_text : Text → List Text → Bool
unfolding same_text
has_text key [] = false
has_text key (t ∷ ts) = same_text t key || has_text key ts

unfoldable pub has_prefix : Text → List Text → Bool
unfolding starts_with
has_prefix key [] = false
has_prefix key (p ∷ ps) = starts_with key p || has_prefix key ps

unfoldable pub matches_propagation_rule : Text → PropagationRules → Bool
unfolding has_text has_prefix
matches_propagation_rule key rules = has_text key rules.exact || has_prefix key rules.prefix

abbrev pub is_some : Option (List Text) → Bool
is_some none = false
is_some (some found) = true

-- The loop over the server's keys: the builder, and whether something was propagated.
unfoldable pub propagate_entries : PropagationRules → Metadata → Builder → Bool → Builder × Bool
unfolding matches_propagation_rule update_builder lookup
propagate_entries rules [] builder propagated = (builder, propagated)
propagate_entries rules ((key, values) ∷ rest) builder propagated =
    let skip = is_some (lookup key builder) || not (matches_propagation_rule key rules) in
    propagate_entries rules rest (if skip then builder else update_builder builder key values true)
      (if skip then propagated else true)

abbrev pub client_builder : Option Metadata → Builder
client_builder none = []
client_builder (some client) = builder_from_metadata client

abbrev pub is_empty : List Text → Bool
is_empty [] = true
is_empty (rule ∷ rest) = false

abbrev pub has_no_rules : PropagationRules → Bool
has_no_rules rules = is_empty rules.exact && is_empty rules.prefix

unfoldable pub propagate : World Stored → Context → PropagationRules → World Stored × Result Context
unfolding from_client_context from_server_context propagate_entries freeze_builder
    new_client_context builder_from_metadata
propagate w c rules = if has_no_rules rules then (w, ok c) else elim (from_server_context w c) [
  | none ↦ (w, ok c)
  | some server ↦
      let (builder, propagated) =
        propagate_entries rules server (client_builder (from_client_context w c)) false in
      if propagated then new_client_context w c (freeze_builder builder) else (w, ok c)
]

-- propagateToClientContext: rules that are refused throw.
unfoldable pub propagate_to_client_context :
    (Text → Text)
    → World Stored
    → Context
    → Option (List (Option Text))
    → Option (List (Option Text))
    → World Stored × Result Context
unfolding propagation_rules propagate
propagate_to_client_context lower w c exact prefix = elim (propagation_rules lower exact prefix) [
  | throw failure ↦ (w, throw failure)
  | ok rules ↦ propagate w c rules
]
