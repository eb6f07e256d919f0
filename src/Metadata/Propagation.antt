-- ===== src/Metadata/Propagation.antt =====
-- packages/metadata/src/index.ts: what propagation leaves in the client metadata of a context.
use go_like.Prelude.{
  ◌≡◌, refl, sym, ◌∙◌, ap, subst, Bool, true, false, not, ◌&&◌, ◌||◌, if◌then◌else◌, Bool-cases,
  List, [], ◌∷◌, Option, none, some, Result, ok, Text, same_text, same_text_iff, lookup, assign,
  lookup-assign, inl, inr, length,
}
use go_like.Context.Nodes.{Context, local, resolve-newest, value_node}
use go_like.Context.World.{World, user_key, value_turn, resolve_value}
use go_like.Context.Derive.{with_value}
use go_like.Metadata.Snapshots.{Metadata, Builder, update_builder, freeze_builder}
use go_like.Metadata.Lookups.{
  IsDistinct, or_else, or_else-none, lookup-freeze_builder, lookup-builder_from_metadata,
}
use go_like.Metadata.Carried.{
  Stored, branded, metadata_in, context_metadata, from_client_context, from_server_context,
  new_client_context, PropagationRules, matches_propagation_rule, is_some, propagate_entries,
  client_builder, has_no_rules, is_empty, has_text, has_prefix, propagate,
}

-- What the server's metadata passes on under a key.
abbrev pub passed : PropagationRules → Text → Option (List Text) → Option (List Text)
passed rules k found = if matches_propagation_rule k rules then found else none

passed-none : (rules : PropagationRules) (k : Text) → none ≡ passed rules k none
passed-none rules k = elim (Bool-cases (matches_propagation_rule k rules)) [
  | inl selected ↦ rw selected refl
  | inr left_out ↦ rw left_out refl
]

chosen :
    (b : Builder) (key : Text) (values : List Text) (k : Text) (skip : Bool)
    → lookup k (if skip then b else assign key values b)
      ≡ (if skip then lookup k b else (if same_text key k then some values else lookup k b))
chosen b key values k true = refl
chosen b key values k false = lookup-assign k key values b

here_chosen :
    (found : Option (List Text)) (selected : Bool) (values : List Text)
    → (if is_some found || not selected then found else some values)
      ≡ or_else found (if selected then some values else none)
here_chosen none true values = refl
here_chosen none false values = refl
here_chosen (some found) selected values = refl

elsewhere_chosen :
    (found : Option (List Text)) (skip : Bool)
    → (if skip then found else found) ≡ or_else found none
elsewhere_chosen found true = sym (or_else-none found)
elsewhere_chosen found false = sym (or_else-none found)

abbrev skips : PropagationRules → Builder → Text → Bool
skips rules b key = is_some (lookup key b) || not (matches_propagation_rule key rules)

entry_lookup :
    (rules : PropagationRules) (b : Builder) (key : Text) (values : List Text) (k : Text)
    → lookup k (if skips rules b key then b else update_builder b key values true)
      ≡ or_else (lookup k b) (if same_text key k then passed rules k (some values) else none)
unfolding update_builder
entry_lookup rules b key values k =
    chosen b key values k (skips rules b key) ∙ elim (Bool-cases (same_text key k)) [
      | inl equal ↦
          let at : key ≡ k = (same_text_iff key k).0 equal in
          rw equal (
            subst
              (λ j.
                (if skips rules b j then lookup k b else some values)
                ≡ or_else (lookup k b) (passed rules k (some values)))
              (sym at) (here_chosen (lookup k b) (matches_propagation_rule k rules) values))
      | inr other ↦ rw other (elsewhere_chosen (lookup k b) (skips rules b key))
    ]

or_else-found :
    (rules : PropagationRules) (key k : Text) (values : List Text) (rest : Metadata)
    (found : Option (List Text))
    → lookup key rest ≡ none
    → or_else
        (or_else found (if same_text key k then passed rules k (some values) else none))
        (passed rules k (lookup k rest))
      ≡ or_else found (passed rules k (if same_text key k then some values else lookup k rest))
or_else-found rules key k values rest (some found) h = refl
or_else-found rules key k values rest none h = elim (Bool-cases (same_text key k)) [
  | inr other ↦ rw other refl
  | inl equal ↦
      let absent : lookup k rest ≡ none =
        ap (λ t. lookup t rest) (sym ((same_text_iff key k).0 equal)) ∙ h in
      rw (equal, absent)
        (elim (Bool-cases (matches_propagation_rule k rules)) [
          | inl selected ↦ rw selected refl
          | inr left_out ↦ rw left_out refl
        ])
]

-- The loop keeps what the builder has, and adds what the rules select.
lookup-propagate_entries :
    (rules : PropagationRules) (server : Metadata) (b : Builder) (flag : Bool) (k : Text)
    → IsDistinct server
    → lookup k (propagate_entries rules server b flag).0
      ≡ or_else (lookup k b) (passed rules k (lookup k server))
unfolding propagate_entries lookup
lookup-propagate_entries rules [] b flag k h =
    sym (or_else-none (lookup k b)) ∙ ap (or_else (lookup k b)) (passed-none rules k)
lookup-propagate_entries rules ((key, values) ∷ rest) b flag k h =
    let next = if skips rules b key then b else update_builder b key values true in
    lookup-propagate_entries rules rest next (if skips rules b key then flag else true) k h.1
    ∙ ap (λ o. or_else o (passed rules k (lookup k rest))) (entry_lookup rules b key values k)
    ∙ or_else-found rules key k values rest (lookup k b) h.0

-- Nothing propagated, the builder is as it was.
flagged :
    (rules : PropagationRules) (server : Metadata) (b : Builder)
    → (propagate_entries rules server b true).1 ≡ true
unfolding propagate_entries
flagged rules [] b = refl
flagged rules ((key, values) ∷ rest) b = elim (Bool-cases (skips rules b key)) [
  | inl skipped ↦ rw (skipped, propagate_entries) (flagged rules rest b)
  | inr taken ↦
      rw (taken, propagate_entries) (flagged rules rest (update_builder b key values true))
]

unflagged :
    (rules : PropagationRules) (server : Metadata) (b : Builder)
    → (propagate_entries rules server b false).1 ≡ false
    → (propagate_entries rules server b false).0 ≡ b
unfolding propagate_entries
unflagged rules [] b h = refl
unflagged rules ((key, values) ∷ rest) b h = elim (Bool-cases (skips rules b key)) [
  | inl skipped ↦
      rw (skipped, propagate_entries)
        (unflagged rules rest b (rw (skipped, propagate_entries) at h))
  | inr taken ↦
      let up = flagged rules rest (update_builder b key values true) in
      let down = rw (taken, propagate_entries) at h in absurd cc
]

-- What a domain has under a key.
abbrev pub found_in : Text → Option Metadata → Option (List Text)
found_in k none = none
found_in k (some metadata) = lookup k metadata

abbrev pub AreDistinct : Option Metadata → Type 0
AreDistinct none = Unit
AreDistinct (some metadata) = IsDistinct metadata

-- A new client context carries its snapshot, and the server metadata of its parent.
client_of_new :
    (w : World Stored) (c : Context) (m : Metadata)
    → from_client_context (new_client_context w c m).0 (local (length w.nodes)) ≡ some m
unfolding from_client_context context_metadata new_client_context with_value resolve_value
client_of_new w c m =
    ap metadata_in
      (resolve-newest none (value_turn (user_key 0)) w.nodes (value_node c 0 (branded m)))

server_of_new :
    (w : World Stored) (c : Context) (m : Metadata)
    → from_server_context (new_client_context w c m).0 (local (length w.nodes))
      ≡ from_server_context w c
unfolding from_server_context context_metadata new_client_context with_value resolve_value
server_of_new w c m =
    ap metadata_in
      (resolve-newest none (value_turn (user_key 1)) w.nodes (value_node c 0 (branded m)))

-- The context that propagation returns has this under a key of its client metadata, and the server
-- metadata that the first one has.
abbrev pub Propagates :
    World Stored → Context → World Stored × Result Context → Text → Option (List Text) → Type 0
Propagates w c made k found =
    (c' : Context) × (made.1 ≡ ok c')
    × (found_in k (from_client_context made.0 c') ≡ found)
    × (from_server_context made.0 c' ≡ from_server_context w c)

lookup-client_builder :
    (k : Text) (client : Option Metadata)
    → AreDistinct client
    → lookup k (client_builder client) ≡ found_in k client
unfolding lookup
lookup-client_builder k none h = refl
lookup-client_builder k (some m) h = lookup-builder_from_metadata k m h

empty_rules :
    (k : Text) (exact prefix : List Text)
    → is_empty exact && is_empty prefix ≡ true
    → has_text k exact || has_prefix k prefix ≡ false
unfolding has_text has_prefix
empty_rules k [] [] h = refl
empty_rules k [] (p ∷ ps) h = absurd cc
empty_rules k (e ∷ es) prefix h = absurd cc

no_rule_matches :
    (rules : PropagationRules) (k : Text)
    → has_no_rules rules ≡ true
    → matches_propagation_rule k rules ≡ false
unfolding matches_propagation_rule
no_rule_matches rules k h = empty_rules k rules.exact rules.prefix h

-- Propagation in a context with server metadata returns a context whose client metadata has, under
-- every key, the values that the client metadata had, and otherwise those of the server metadata if a
-- rule selects the key; the server metadata stays. The metadata are snapshots with each key once.
pub propagate-Propagates :
    (w : World Stored) (c : Context) (rules : PropagationRules) (server : Metadata) (k : Text)
    → from_server_context w c ≡ some server
    → IsDistinct server
    → AreDistinct (from_client_context w c)
    → Propagates w c
        (propagate w c rules)
        k
        (or_else (found_in k (from_client_context w c)) (passed rules k (lookup k server)))
unfolding propagate
propagate-Propagates w c rules server k carried distinct clients =
    let client = from_client_context w c in
    let b = client_builder client in
    let done = propagate_entries rules server b false in
    let known = lookup-client_builder k client clients in
    let finds : lookup k done.0 ≡ or_else (found_in k client) (passed rules k (lookup k server)) =
      lookup-propagate_entries rules server b false k distinct
      ∙ ap (λ o. or_else o (passed rules k (lookup k server))) known in
    elim (Bool-cases (has_no_rules rules)) [
      | inl none_given ↦
          rw (none_given, propagate)
            (
              c,
              refl,
              (rw (no_rule_matches rules k none_given) (sym (or_else-none (found_in k client)))),
              refl,
            )
      | inr given ↦
          rw (given, carried, propagate)
            (elim (Bool-cases done.1) [
              | inl propagated ↦ rw propagated (
                local (length w.nodes),
                refl,
                ap (found_in k) (client_of_new w c (freeze_builder done.0))
                    ∙ lookup-freeze_builder k done.0
                    ∙ finds,
                server_of_new w c (freeze_builder done.0) ∙ carried,
              )
              | inr nothing ↦ rw nothing (
                c,
                refl,
                sym known ∙ ap (lookup k) (sym (unflagged rules server b nothing)) ∙ finds,
                carried,
              )
            ])
    ]
