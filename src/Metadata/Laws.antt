-- ===== src/Metadata/Laws.antt =====
-- packages/metadata/src/index.ts: what the operations return, as the values of every key show it.
use go_like.Prelude.{
  ◌≡◌, Bool, true, false, List, [], ◌∷◌, ◌++◌, Option, Result, ok, ok-injective, bind_ok, subst,
  Text, lookup,
}
use go_like.Metadata.Snapshots.{
  Metadata, MetadataValue, Builder, normalize_key, snapshot_values, update_builder,
  builder_from_metadata, current_values, builder_from_input, new_metadata,
}
use go_like.Metadata.Lookups.{IsDistinct, IsSnapshot, freeze_builder-IsSnapshot, assign-IsDistinct}

update_builder-IsDistinct :
    (b : Builder) (key : Text) (values : List Text) (replace : Bool)
    → IsDistinct b
    → IsDistinct (update_builder b key values replace)
unfolding update_builder
update_builder-IsDistinct b key values true h = assign-IsDistinct key values b h
update_builder-IsDistinct b key values false h =
    assign-IsDistinct key (current_values (lookup key b) ++ values) b h

-- A snapshot is returned, in which this is found under a key.
abbrev pub IsResult : Result Metadata → Text → Option (List Text) → Type 0
IsResult result k found = (m : Metadata) × (result ≡ ok m) × IsSnapshot m × (lookup k m ≡ found)

module _ (m : Metadata) (h : IsDistinct m) where
  abbrev copied : Builder
  copied = builder_from_metadata m

built-IsDistinct :
    (lower : Text → Text) (input : List (Option Text × MetadataValue)) (b built : Builder)
    → IsDistinct b
    → builder_from_input lower input b ≡ ok built
    → IsDistinct built
unfolding builder_from_input
built-IsDistinct lower [] b built h e = subst IsDistinct (ok-injective e) h
built-IsDistinct lower ((raw, value) ∷ rest) b built h e =
    let named = bind_ok (normalize_key lower raw) _ e in
    let valued = bind_ok (snapshot_values value) _ named.2 in
    built-IsDistinct lower rest (update_builder b named.0 valued.0 false) built
      (update_builder-IsDistinct b named.0 valued.0 false h) valued.2

-- What newMetadata returns is a snapshot.
new_metadata-IsSnapshot :
    (lower : Text → Text) (input : List (Option Text × MetadataValue)) (m : Metadata)
    → new_metadata lower input ≡ ok m
    → IsSnapshot m
unfolding new_metadata
new_metadata-IsSnapshot lower input m e =
    let built = bind_ok (builder_from_input lower input []) _ e in
    subst IsSnapshot (ok-injective built.2)
      (freeze_builder-IsSnapshot built.0 (built-IsDistinct lower input [] built.0 tt built.1))
