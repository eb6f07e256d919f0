-- ===== src/Store/Memory/Pages.antt =====
-- packages/store/memory/src/store.ts: what following the cursors of `list` gives.
use mathlib.Core.List.{append-nil}
use go_like.Prelude.{
  All, ◌≢◌, starts_with, same_text, same_text_iff, ℕ, zero, suc, ◌+◌, ◌-◌, ◌≤◌, ◌<◌, min, ◌≡◌, inl,
  inr, refl, sym, ap, ◌∙◌, arith, ltb, List, [], ◌∷◌, ◌++◌, Option, none, some, ok, throw, Text,
  same_text_refl, length, take, drop, take-append-drop, length-take, length-drop, drop-drop,
  drop_all, Bool-cases, ltb→lt,
}
use go_like.Resilience.Limiter.{max_safe_integer}
use mathlib.Core.List.{Perm}
use go_like.Store.Sort.{sort, Sorted, Distinct, sort-Sorted, sort-perm}
use go_like.Store.Memory.Table.{Unique}
use go_like.Store.{ListOptions, Cursor, encoded, StoreRecord, list_options, snapshot_list_options}
use go_like.Store.Memory.{MemoryStore, get, expired_keys, purge_expired, timestamp}
use go_like.Store.Memory.Operations.{has_prefix, page, list_page, list_at, list}

get-Absent : (key : Text) (rs : List StoreRecord) → get key rs ≡ none → All (λ r. key ≢ r.key) rs
unfolding get
get-Absent key [] h = tt
get-Absent key (r ∷ rs) h = elim (Bool-cases (same_text r.key key)) [
  | inl e ↦ absurd (ground arith)
  | inr n ↦ (
    λ e. ground (arith, same_text_refl key, same_text_iff r.key key),
    get-Absent key rs (ground arith),
  )
]

has_prefix-All :
    (P : StoreRecord → Type 0) (prefix : Text) (rs : List StoreRecord)
    → All P rs
    → All P (has_prefix prefix rs)
unfolding has_prefix
has_prefix-All P prefix [] h = tt
has_prefix-All P prefix (r ∷ rs) h = elim (Bool-cases (starts_with r.key prefix)) [
  | inl e ↦ rw (e, has_prefix) ((h.0, has_prefix-All P prefix rs h.1))
  | inr e ↦ rw (e, has_prefix) (has_prefix-All P prefix rs h.1)
]

has_prefix-Distinct :
    (prefix : Text) (rs : List StoreRecord)
    → Unique rs
    → Distinct (λ r. r.key) (has_prefix prefix rs)
unfolding has_prefix
has_prefix-Distinct prefix [] u = tt
has_prefix-Distinct prefix (r ∷ rs) u = elim (Bool-cases (starts_with r.key prefix)) [
  | inl e ↦
      rw (e, has_prefix)
        ((
          has_prefix-All (λ y. r.key ≢ y.key) prefix rs (get-Absent r.key rs u.0),
          has_prefix-Distinct prefix rs u.1,
        ))
  | inr e ↦ rw (e, has_prefix) (has_prefix-Distinct prefix rs u.1)
]

-- The matching records in the order of their keys.
abbrev pub matching : MemoryStore → Text → List StoreRecord
matching s prefix = sort (λ r. r.key) (has_prefix prefix s.records)

-- A limit that the options accept.
abbrev pub Accepted : Option ℕ → Type 0
Accepted none = Unit
Accepted (some n) = (1 ≤ n) × (n ≤ max_safe_integer)

snapshot-Accepted :
    (prefix : Text) (limit : Option ℕ) (cursor : Option Cursor)
    → Accepted limit
    → snapshot_list_options (record { prefix = prefix; limit = limit; cursor = cursor })
      ≡ ok (record { prefix = prefix; limit = limit; cursor = cursor })
unfolding snapshot_list_options
snapshot-Accepted prefix none cursor a = refl
snapshot-Accepted prefix (some n) cursor a = ground arith

timestamp_in_range : (now : ℕ) → now ≤ max_safe_integer → timestamp (some now) ≡ ok now
unfolding timestamp
timestamp_in_range now h = ground arith

-- How a page that starts at an offset joins what follows it.
data Joins (revision : ℕ) (prefix : Text) (limit : Option ℕ) (offset : ℕ) (all : List StoreRecord)
    : Type 0 where
  last :
      (page revision prefix limit offset all).cursor ≡ none
      → (page revision prefix limit offset all).records ≡ drop offset all
      → Joins revision prefix limit offset all
  more :
      (next : ℕ)
      → (page revision prefix limit offset all).cursor ≡ some (encoded revision prefix next)
      → offset < next
      → next ≤ length all
      → (page revision prefix limit offset all).records ++ drop next all ≡ drop offset all
      → Joins revision prefix limit offset all

take_all : (n : ℕ) (xs : List StoreRecord) → length xs ≤ n → take n xs ≡ xs
take_all n xs h =
    sym (append-nil (take n xs))
    ∙ ap (◌++◌ (take n xs)) (sym (drop_all n xs h))
    ∙ take-append-drop n xs

page_joins :
    (count offset : ℕ) (all : List StoreRecord)
    → length (take count (drop offset all)) ≡ count
    → take count (drop offset all) ++ drop (offset + length (take count (drop offset all))) all
      ≡ drop offset all
page_joins count offset all e =
    ap (λ k. take count (drop offset all) ++ drop (offset + k) all) e
    ∙ ap (◌++◌ (take count (drop offset all))) (sym (drop-drop count offset all))
    ∙ take-append-drop count (drop offset all)

page-Joins :
    (revision : ℕ) (prefix : Text) (limit : Option ℕ) (offset : ℕ) (all : List StoreRecord)
    → Accepted limit
    → offset ≤ length all
    → Joins revision prefix limit offset all
unfolding page
page-Joins revision prefix none offset all a h =
    let size = length-take (length all - offset) (drop offset all) in
    let rest = length-drop offset all in
    last (ground (arith, size, rest)) (take_all _ _ (omega arith))
page-Joins revision prefix (some n) offset all a h =
    let count = min n (length all - offset) in
    let size = length-take count (drop offset all) in
    let rest = length-drop offset all in
    elim (Bool-cases (ltb (offset + length (take count (drop offset all))) (length all))) [
      | inl left ↦
          more (offset + length (take count (drop offset all))) (rw left)
            (omega (arith, ltb→lt _ _ left)) (omega (arith, ltb→lt _ _ left))
            (page_joins count offset all (omega arith))
      | inr done ↦ last (rw done) (take_all _ _ (ground (arith, size, rest)))
    ]

module _ (s : MemoryStore) (prefix : Text) (limit : Option ℕ) (now : ℕ) where
  -- The calls of one walk differ in their cursors only.
  abbrev pub only : Option Cursor → List (ListOptions → ListOptions)
  only cursor = (λ _. record { prefix = prefix; limit = limit; cursor = cursor }) ∷ []

  -- The records of all pages, from one cursor on; nothing if a page fails or the fuel runs out.
  pub walk : ℕ → Option Cursor → Option (List StoreRecord)
  walk zero cursor = none
  walk (suc fuel) cursor = elim (list s none (only cursor) (some now)).1 [
    | throw e ↦ none
    | ok p ↦ elim p.cursor [
      | none ↦ some p.records
      | some c ↦ elim (walk fuel (some c)) [ none ↦ none | some rest ↦ some (p.records ++ rest) ]
    ]
  ]

  module _ (nothing_expired : expired_keys now s.records ≡ []) (accepted : Accepted limit)
      (in_range : now ≤ max_safe_integer) where
    list_first :
        (list s none (only none) (some now)).1
        ≡ ok (page s.revision prefix limit 0 (matching s prefix))
    unfolding list list_at list_options list_page purge_expired
    list_first =
        rw (snapshot-Accepted prefix limit none accepted, list)
          (rw (timestamp_in_range now in_range, list)
            (rw (nothing_expired, list_at, purge_expired) (ground arith)))

    list_next :
        (offset : ℕ)
        → offset ≤ length (matching s prefix)
        → (list s none (only (some (encoded s.revision prefix offset))) (some now)).1
          ≡ ok (page s.revision prefix limit offset (matching s prefix))
    unfolding list list_at list_options list_page purge_expired
    list_next offset h =
        rw (snapshot-Accepted prefix limit (some (encoded s.revision prefix offset)) accepted, list)
          (rw (timestamp_in_range now in_range, list)
            (rw (nothing_expired, list_at, purge_expired) (ground (arith, same_text_refl prefix))))

    walk_from :
        (fuel offset : ℕ) (cursor : Option Cursor)
        → (list s none (only cursor) (some now)).1
          ≡ ok (page s.revision prefix limit offset (matching s prefix))
        → offset ≤ length (matching s prefix)
        → length (matching s prefix) < offset + fuel
        → walk fuel cursor ≡ some (drop offset (matching s prefix))
    unfolding walk
    walk_from zero offset cursor e h f = absurd (omega arith)
    walk_from (suc fuel) offset cursor e h f =
        elim (page-Joins s.revision prefix limit offset (matching s prefix) accepted h) [
          | last c r ↦ rw (e, walk) (rw (c, r))
          | more next c forward inside joined ↦
              let rest =
                walk_from fuel next (some (encoded s.revision prefix next)) (list_next next inside)
                  inside (omega arith) in
              rw (e, walk) (rw (c, rest) (ap some joined))
        ]

    walk-matching : walk (suc (length (matching s prefix))) none ≡ some (matching s prefix)
    walk-matching = walk_from _ 0 none list_first (omega arith) (omega arith)

    -- In a store without two records of one key, in which nothing has expired and nothing changes
    -- meanwhile, following the cursors of `list` from the first page to the last gives, with any
    -- accepted limit, exactly the records whose keys have the prefix, each once and by strictly
    -- rising keys; one call more than there are such records is enough.
    pub walk-Sorted :
        Unique s.records
        → (all : List StoreRecord) × (walk (suc (length all)) none ≡ some all)
          × Sorted (λ r. r.key) all
          × Perm all (has_prefix prefix s.records)
    walk-Sorted u = (
      matching s prefix,
      walk-matching,
      sort-Sorted (λ r. r.key) _ (has_prefix-Distinct prefix s.records u),
      sort-perm (λ r. r.key) (has_prefix prefix s.records),
    )
