-- ===== src/Metadata/Snapshots.antt =====
-- packages/metadata/src/index.ts: snapshots of multi-valued metadata, from validated input to the
-- operations on them. An argument that is no snapshot of the package passes `new_metadata` first.
use go_like.Prelude.{
  Bool, true, false, if◌then◌else◌, List, [], ◌∷◌, ◌++◌, Option, none, some, Result, ok, throw,
  ◌>>=◌, type_error, Text, lookup, assign, remove,
}
use go_like.Registry.Selector.Domains.{Order, behind, compare_code_points}
use go_like.Registry.Mdns.Cache.{utf16}

-- A snapshot: sorted keys with their values. That a record lists keys which are array indices first
-- is left out.
abbrev pub Metadata : Type 0
Metadata = List (Text × List Text)

-- The entries of a builder, a map in the order of insertion.
abbrev pub Builder : Type 0
Builder = List (Text × List Text)

-- What stands at a key of an input record: a string, a dense array, or something else. A string that
-- is not well formed, or an element that is no string, is `none`.
pub data MetadataValue : Type 0 where
  single : Option Text → MetadataValue
  several : List (Option Text) → MetadataValue
  other_value : MetadataValue

-- `toLowerCase` is the Unicode mapping of the language.
module _ (to_lower_case : Text → Text) where
  unfoldable pub normalize_key : Option Text → Result Text
  normalize_key none = throw type_error
  normalize_key (some []) = throw type_error
  normalize_key (some (c ∷ cs)) = ok (to_lower_case (c ∷ cs))

unfoldable pub metadata_value : Option Text → Result Text
metadata_value none = throw type_error
metadata_value (some value) = ok value

unfoldable pub copied_values : List (Option Text) → Result (List Text)
unfolding metadata_value
copied_values [] = ok []
copied_values (v ∷ vs) = do first ← metadata_value v; rest ← copied_values vs; ok (first ∷ rest)

unfoldable pub snapshot_values : MetadataValue → Result (List Text)
unfolding metadata_value copied_values
snapshot_values (single value) = metadata_value value >>= λ v. ok (v ∷ [])
snapshot_values (several elements) = copied_values elements
snapshot_values other_value = throw type_error

abbrev pub current_values : Option (List Text) → List Text
current_values none = []
current_values (some current) = current

unfoldable pub update_builder : Builder → Text → List Text → Bool → Builder
unfolding lookup assign
update_builder builder key values true = assign key values builder
update_builder builder key values false =
    assign key (current_values (lookup key builder) ++ values) builder

-- `keys.sort()` compares the code units of the keys.
abbrev pub goes_on : Order → Bool
goes_on behind = true
goes_on _ = false

unfoldable pub insert_entry : Text × List Text → Metadata → Metadata
unfolding compare_code_points utf16
insert_entry entry [] = entry ∷ []
insert_entry entry (e ∷ es) =
    let rest = insert_entry entry es in
    if goes_on (compare_code_points (utf16 entry.0) (utf16 e.0)) then e ∷ rest else entry ∷ e ∷ es

unfoldable pub freeze_builder : Builder → Metadata
unfolding insert_entry
freeze_builder [] = []
freeze_builder (entry ∷ entries) = insert_entry entry (freeze_builder entries)

unfoldable pub copy_entries : Metadata → Builder → Builder
unfolding update_builder
copy_entries [] builder = builder
copy_entries ((key, values) ∷ rest) builder =
    copy_entries rest (update_builder builder key values true)

unfoldable pub builder_from_metadata : Metadata → Builder
unfolding copy_entries
builder_from_metadata metadata = copy_entries metadata []

-- Object.hasOwn and the empty array of an absent key
unfoldable pub values_at : Metadata → Text → List Text
unfolding lookup
values_at metadata name = current_values (lookup name metadata)

module _ (to_lower_case : Text → Text) where
  -- `builderFromInput`: the own properties of a plain record in their order.
  unfoldable pub builder_from_input : List (Option Text × MetadataValue) → Builder → Result Builder
  unfolding normalize_key snapshot_values update_builder
  builder_from_input [] builder = ok builder
  builder_from_input ((raw, value) ∷ rest) builder = do
    key ← normalize_key to_lower_case raw
    values ← snapshot_values value
    builder_from_input rest (update_builder builder key values false)

  unfoldable pub new_metadata : List (Option Text × MetadataValue) → Result Metadata
  unfolding builder_from_input freeze_builder
  new_metadata input = builder_from_input input [] >>= λ b. ok (freeze_builder b)

  unfoldable pub values : Metadata → Option Text → Result (List Text)
  unfolding normalize_key values_at
  values metadata key = normalize_key to_lower_case key >>= λ name. ok (values_at metadata name)

  abbrev first_value : List Text → Option Text
  first_value [] = none
  first_value (v ∷ vs) = some v

  unfoldable pub get : Metadata → Option Text → Result (Option Text)
  unfolding values
  get metadata key = values metadata key >>= λ found. ok (first_value found)

  unfoldable pub append : Metadata → Option Text → MetadataValue → Result Metadata
  unfolding normalize_key snapshot_values update_builder freeze_builder builder_from_metadata
  append metadata key value = do
    name ← normalize_key to_lower_case key
    added ← snapshot_values value
    ok (freeze_builder (update_builder (builder_from_metadata metadata) name added false))

  unfoldable pub set : Metadata → Option Text → Option Text → Result Metadata
  unfolding normalize_key metadata_value update_builder freeze_builder builder_from_metadata
  set metadata key value = do
    name ← normalize_key to_lower_case key
    v ← metadata_value value
    ok (freeze_builder (update_builder (builder_from_metadata metadata) name (v ∷ []) true))

  unfoldable pub remove_key : Metadata → Option Text → Result Metadata
  unfolding normalize_key freeze_builder builder_from_metadata remove
  remove_key metadata key = do
    name ← normalize_key to_lower_case key
    ok (freeze_builder (remove name (builder_from_metadata metadata)))

unfoldable pub merge : Metadata → Metadata → Metadata
unfolding copy_entries builder_from_metadata freeze_builder
merge metadata patch = freeze_builder (copy_entries patch (builder_from_metadata metadata))
