-- ===== src/Metadata/Lookups.antt =====
-- packages/metadata/src/index.ts: what is found in a builder and in the snapshot of it.
use go_like.Prelude.{
  ◌≡◌, ◌≢◌, true, refl, sym, ◌∙◌, ap, Bool, false, Bool-cases, if◌then◌else◌, List, [], ◌∷◌, Option,
  none, some, inl, inr, arith, Text, same_text, same_text_iff, lookup, assign, remove,
  lookup-assign, lookup-remove,
}
use go_like.Registry.Selector.Domains.{Order, before, same, behind, compare_code_points}
use go_like.Registry.Mdns.Cache.{utf16}
use go_like.Metadata.Snapshots.{
  Metadata, Builder, goes_on, update_builder, insert_entry, freeze_builder, copy_entries,
  builder_from_metadata,
}

-- Each key stands once.
abbrev pub IsDistinct : Builder → Type 0
IsDistinct [] = Unit
IsDistinct (e ∷ es) = (lookup e.0 es ≡ none) × IsDistinct es

compare_refl : (t : Text) → compare_code_points t t ≡ same
unfolding compare_code_points
compare_refl [] = refl
compare_refl (x ∷ xs) = ground (arith, compare_refl xs)

apart_behind :
    (k j : Text) → compare_code_points (utf16 k) (utf16 j) ≡ behind → same_text k j ≡ false
apart_behind k j h = elim (Bool-cases (same_text k j)) [
  | inr other ↦ other
  | inl equal ↦
      let at = (same_text_iff k j).0 equal in let twice = compare_refl (utf16 j) in absurd cc
]

same_swapped : (k j : Text) (b : Bool) → same_text k j ≡ b → same_text j k ≡ b
same_swapped k j b h = ground (arith, same_text_iff k j, same_text_iff j k)

-- An inserted entry is found under its key, and the others are found as before.
lookup-insert_entry :
    (k key : Text) (values : List Text) (es : Metadata)
    → lookup k (insert_entry (key, values) es)
      ≡ (if same_text key k then some values else lookup k es)
unfolding lookup insert_entry
lookup-insert_entry k key values [] = refl
lookup-insert_entry k key values ((j, v) ∷ es) = ground (
  arith,
  lookup-insert_entry k key values es,
  apart_behind key j,
  same_text_iff key k,
  same_text_iff j k,
  same_text_iff key j,
)

pub lookup-freeze_builder : (k : Text) (b : Builder) → lookup k (freeze_builder b) ≡ lookup k b
unfolding lookup freeze_builder
lookup-freeze_builder k [] = refl
lookup-freeze_builder k ((key, values) ∷ rest) =
    lookup-insert_entry k key values (freeze_builder rest)
    ∙ ap (λ found. if same_text key k then some values else found) (lookup-freeze_builder k rest)

insert_entry-IsDistinct :
    (key : Text) (values : List Text) (es : Metadata)
    → lookup key es ≡ none
    → IsDistinct es
    → IsDistinct (insert_entry (key, values) es)
unfolding lookup insert_entry
insert_entry-IsDistinct key values [] h k = (refl, tt)
insert_entry-IsDistinct key values ((j, v) ∷ es) h k =
    let found = lookup-insert_entry j key values es in
    let later = insert_entry-IsDistinct key values es in
    ground (arith, found, later, h, k, apart_behind key j, same_text_iff key j, same_text_iff j key)

freeze_builder-IsDistinct : (b : Builder) → IsDistinct b → IsDistinct (freeze_builder b)
unfolding freeze_builder
freeze_builder-IsDistinct [] h = tt
freeze_builder-IsDistinct ((key, values) ∷ rest) h =
    insert_entry-IsDistinct key values (freeze_builder rest) (lookup-freeze_builder key rest ∙ h.0)
      (freeze_builder-IsDistinct rest h.1)

-- No key stands behind a greater one, by code units.
abbrev pub IsSorted : Metadata → Type 0
IsSorted [] = Unit
IsSorted (e ∷ []) = Unit
IsSorted (e ∷ f ∷ es) = (compare_code_points (utf16 e.0) (utf16 f.0) ≢ behind) × IsSorted (f ∷ es)

abbrev pub IsSnapshot : Metadata → Type 0
IsSnapshot m = IsSorted m × IsDistinct m

compare_swap : (s t : Text) → compare_code_points s t ≡ behind → compare_code_points t s ≢ behind
unfolding compare_code_points
compare_swap [] [] h k = absurd cc
compare_swap [] (y ∷ ys) h k = absurd cc
compare_swap (x ∷ xs) [] h k = absurd cc
compare_swap (x ∷ xs) (y ∷ ys) h k = ground (arith, compare_swap xs ys)

goes_on_behind : (o : Order) → goes_on o ≡ true → o ≡ behind
goes_on_behind behind h = refl
goes_on_behind same h = absurd cc
goes_on_behind before h = absurd cc

stays_in_front : (o : Order) → goes_on o ≡ false → o ≢ behind
stays_in_front behind h e = absurd cc
stays_in_front same h e = absurd cc
stays_in_front before h e = absurd cc

behind_first :
    (first : Text × List Text) (key : Text) (values : List Text) (es : Metadata)
    → compare_code_points (utf16 first.0) (utf16 key) ≢ behind
    → IsSorted (first ∷ es)
    → IsSorted (first ∷ insert_entry (key, values) es)
unfolding insert_entry
behind_first first key values [] front h = (front, tt)
behind_first first key values (e ∷ es) front h =
    elim (Bool-cases (goes_on (compare_code_points (utf16 key) (utf16 e.0)))) [
      | inl on ↦
          rw (on, insert_entry)
            (
              h.0,
              behind_first e key values es
                  (compare_swap (utf16 key) (utf16 e.0) (goes_on_behind _ on)) h.1,
            )
      | inr off ↦ rw (off, insert_entry) (front, (stays_in_front _ off, h.1))
    ]

insert_entry-IsSorted :
    (key : Text) (values : List Text) (es : Metadata)
    → IsSorted es
    → IsSorted (insert_entry (key, values) es)
unfolding insert_entry
insert_entry-IsSorted key values [] h = tt
insert_entry-IsSorted key values (e ∷ es) h =
    elim (Bool-cases (goes_on (compare_code_points (utf16 key) (utf16 e.0)))) [
      | inl on ↦
          rw (on, insert_entry)
            (behind_first e key values es
              (compare_swap (utf16 key) (utf16 e.0) (goes_on_behind _ on)) h)
      | inr off ↦ rw (off, insert_entry) (stays_in_front _ off, h)
    ]

freeze_builder-IsSorted : (b : Builder) → IsSorted (freeze_builder b)
unfolding freeze_builder
freeze_builder-IsSorted [] = tt
freeze_builder-IsSorted ((key, values) ∷ rest) =
    insert_entry-IsSorted key values (freeze_builder rest) (freeze_builder-IsSorted rest)

-- A frozen builder is a snapshot.
pub freeze_builder-IsSnapshot : (b : Builder) → IsDistinct b → IsSnapshot (freeze_builder b)
freeze_builder-IsSnapshot b h = (freeze_builder-IsSorted b, freeze_builder-IsDistinct b h)

pub assign-IsDistinct :
    (key : Text) (values : List Text) (b : Builder)
    → IsDistinct b
    → IsDistinct (assign key values b)
unfolding assign lookup
assign-IsDistinct key values [] h = (refl, tt)
assign-IsDistinct key values ((j, v) ∷ rest) h = elim (Bool-cases (same_text j key)) [
  | inl here ↦
      rw (here, assign) (ap (λ t. lookup t rest) (sym ((same_text_iff j key).0 here)) ∙ h.0, h.1)
  | inr other ↦
      rw (other, assign)
        (
          lookup-assign j key values rest
              ∙ ap (λ t. if t then some values else lookup j rest) (same_swapped j key false other)
              ∙ h.0,
          assign-IsDistinct key values rest h.1,
        )
]

pub remove-IsDistinct : (key : Text) (b : Builder) → IsDistinct b → IsDistinct (remove key b)
unfolding remove
remove-IsDistinct key [] h = tt
remove-IsDistinct key ((j, v) ∷ rest) h = elim (Bool-cases (same_text j key)) [
  | inl here ↦ rw (here, remove) (remove-IsDistinct key rest h.1)
  | inr other ↦
      rw (other, remove)
        (
          lookup-remove j key rest
              ∙ ap (λ t. if t then none else lookup j rest) (same_swapped j key false other)
              ∙ h.0,
          remove-IsDistinct key rest h.1,
        )
]

-- The entries of a snapshot win over those of the builder.
abbrev pub or_else : Option (List Text) → Option (List Text) → Option (List Text)
or_else (some found) rest = some found
or_else none rest = rest

pub lookup-copy_entries :
    (k : Text) (m : Metadata) (b : Builder)
    → IsDistinct m
    → lookup k (copy_entries m b) ≡ or_else (lookup k m) (lookup k b)
unfolding lookup copy_entries update_builder
lookup-copy_entries k [] b h = refl
lookup-copy_entries k ((key, values) ∷ rest) b h =
    let later = lookup-copy_entries k rest (assign key values b) h.1 in
    let first = lookup-assign k key values b in
    elim (Bool-cases (same_text key k)) [
      | inl here ↦
          let absent : lookup k rest ≡ none =
            ap (λ t. lookup t rest) (sym ((same_text_iff key k).0 here)) ∙ h.0 in
          rw (here, lookup)
            (later
              ∙ ap (λ o. or_else o (lookup k (assign key values b))) absent
              ∙ first
              ∙ ap (λ t. if t then some values else lookup k b) here)
      | inr other ↦
          rw (other, lookup)
            (later
              ∙ ap (or_else (lookup k rest))
                  (first ∙ ap (λ t. if t then some values else lookup k b) other))
    ]

pub copy_entries-IsDistinct :
    (m : Metadata) (b : Builder) → IsDistinct b → IsDistinct (copy_entries m b)
unfolding copy_entries update_builder
copy_entries-IsDistinct [] b h = h
copy_entries-IsDistinct ((key, values) ∷ rest) b h =
    copy_entries-IsDistinct rest (assign key values b) (assign-IsDistinct key values b h)

pub or_else-none : (o : Option (List Text)) → or_else o none ≡ o
or_else-none none = refl
or_else-none (some found) = refl

pub lookup-builder_from_metadata :
    (k : Text) (m : Metadata) → IsDistinct m → lookup k (builder_from_metadata m) ≡ lookup k m
unfolding builder_from_metadata lookup
lookup-builder_from_metadata k m h = lookup-copy_entries k m [] h ∙ or_else-none (lookup k m)

pub builder_from_metadata-IsDistinct : (m : Metadata) → IsDistinct (builder_from_metadata m)
unfolding builder_from_metadata
builder_from_metadata-IsDistinct m = copy_entries-IsDistinct m [] tt
