-- ===== src/Cache/Memory/History.antt =====
-- packages/cache/memory/src/cache.ts: what a cache answers after a history of calls.
use go_like.Prelude.{
  ℕ, ◌≤◌, ◌≡◌, refl, sym, ap, true, false, ◌>>=◌, ◌∙◌, leb, leb→le, same_text→eq, arith, Bool-cases,
  Result-cases, Bool, ltb, if◌then◌else◌, List, [], ◌∷◌, Option, none, some, Option-cases, ok,
  throw, Thrown, Text, same_text, lookup, lookup-remove, lookup-assign, All, inl, inr,
}
use go_like.Cache.Memory.{timestamp}
use go_like.Cache.{PutOptions}
use go_like.Resilience.Limiter.{max_safe_integer}
use go_like.Cache.Memory.{
  MemoryEntry, Entries, cache_key, get, put, delete, active_entry, active_in, get_arguments,
  put_arguments, value_of,
}

-- A call with what it reads from outside.
pub data Call : Type 0 where
  gets : Option Thrown → Option Text → Option ℕ → Call
  puts :
      Option Thrown
      → Option Text
      → Option (List ℕ)
      → List (PutOptions → PutOptions)
      → Option ℕ
      → Call
  deletes : Option Thrown → Option Text → Call

unfoldable pub after : Call → Entries → Entries
after (gets ctx key clock) entries = (get entries ctx key clock).0
after (puts ctx key value options clock) entries = (put entries ctx key value options clock).0
after (deletes ctx key) entries = (delete entries ctx key).0

unfoldable pub after_all : List Call → Entries → Entries
after_all [] entries = entries
after_all (call ∷ calls) entries = after_all calls (after call entries)

-- The entry that the last accepted put or delete of a key leaves; a get leaves what it finds.
unfoldable pub left_by : Text → Call → Option MemoryEntry → Option MemoryEntry
left_by key (gets _ _ _) found = found
left_by key (puts ctx k value options clock) found =
    elim (put_arguments ctx k value options clock) [
      | ok (selected, entry) ↦ if same_text selected key then some entry else found
      | throw _ ↦ found
    ]
left_by key (deletes ctx k) found = elim (get_arguments ctx k) [
  | ok selected ↦ if same_text selected key then none else found
  | throw _ ↦ found
]

unfoldable pub latest : Text → List Call → Option MemoryEntry → Option MemoryEntry
latest key [] found = found
latest key (call ∷ calls) found = latest key calls (left_by key call found)

-- What an entry shows at an instant.
abbrev shown_until : ℕ → Option ℕ → List ℕ → Option (List ℕ)
shown_until now none value = some value
shown_until now (some expires_at) value = if ltb now expires_at then some value else none

abbrev pub shown : ℕ → Option MemoryEntry → Option (List ℕ)
shown now none = none
shown now (some entry) = shown_until now entry.expires_at entry.value

-- No get reads a clock that is ahead of an instant.
abbrev pub Past : ℕ → Call → Type 0
Past now (gets _ _ (some t)) = t ≤ now
Past now _ = Unit

shown_expired :
    (now : ℕ) (entry : MemoryEntry) (x : ℕ)
    → entry.expires_at ≡ some x
    → x ≤ now
    → shown now (some entry) ≡ none
shown_expired now entry x e h = rw e (ground arith)

active_in-shown :
    (now t : ℕ) (key k : Text) (entries : Entries) (entry : MemoryEntry) (lifetime : Option ℕ)
    → t ≤ now
    → lookup key entries ≡ some entry
    → entry.expires_at ≡ lifetime
    → shown now (lookup k (active_in entries key (some t) entry lifetime).0)
      ≡ shown now (lookup k entries)
unfolding active_in timestamp
active_in-shown now t key k entries entry none h l e = refl
active_in-shown now t key k entries entry (some x) h l e =
    elim (Bool-cases (leb t max_safe_integer)) [
      | inr bad ↦ rw (bad, active_in) refl
      | inl safe ↦
          rw (safe, active_in)
            (elim (Bool-cases (leb x t)) [
              | inr lives ↦ rw (lives, active_in) refl
              | inl gone ↦
                  rw (gone, active_in)
                    (rw (lookup-remove k key entries) (elim (Bool-cases (same_text key k)) [
                      | inr differs ↦ rw differs refl
                      | inl same ↦
                          rw (same, sym (same_text→eq key k same), l)
                            (sym (shown_expired now entry x e (omega (arith, leb→le x t gone))))
                    ]))
            ])
    ]

active_entry-shown :
    (now t : ℕ) (key k : Text) (entries : Entries)
    → t ≤ now
    → shown now (lookup k (active_entry entries key (some t)).0) ≡ shown now (lookup k entries)
unfolding active_entry
active_entry-shown now t key k entries h = elim (Option-cases (lookup key entries)) [
  | inl missing ↦ rw (missing, active_entry) refl
  | inr (entry, found) ↦
      rw (found, active_entry)
        (active_in-shown now t key k entries entry entry.expires_at h found refl)
]

no_clock : (key : Text) (entries : Entries) → (active_entry entries key none).0 ≡ entries
unfolding active_entry active_in timestamp
no_clock key entries = elim (Option-cases (lookup key entries)) [
  | inl missing ↦ rw (missing, active_entry) refl
  | inr (entry, found) ↦ rw (found, active_entry) (go entry entry.expires_at)
]
  where
    go :
        (entry : MemoryEntry) (lifetime : Option ℕ)
        → (active_in entries key none entry lifetime).0 ≡ entries
    go entry none = refl
    go entry (some x) = refl

after-shown :
    (now : ℕ) (k : Text) (call : Call) (entries : Entries)
    → Past now call
    → shown now (lookup k (after call entries)) ≡ shown now (left_by k call (lookup k entries))
unfolding after left_by get put delete
after-shown now k (gets ctx key (some t)) entries h = elim (Result-cases (get_arguments ctx key)) [
  | inl (selected, e) ↦ rw (e, after, get) (active_entry-shown now t selected k entries h)
  | inr (x, e) ↦ rw (e, after, get) refl
]
after-shown now k (gets ctx key none) entries h = elim (Result-cases (get_arguments ctx key)) [
  | inl (selected, e) ↦
      rw (e, after, get) (ap (λ es. shown now (lookup k es)) (no_clock selected entries))
  | inr (x, e) ↦ rw (e, after, get) refl
]
after-shown now k (puts ctx key value options clock) entries h =
    elim (Result-cases (put_arguments ctx key value options clock)) [
      | inl ((selected, entry), e) ↦
          rw (e, after, put, left_by) (rw (lookup-assign k selected entry entries) refl)
      | inr (x, e) ↦ rw (e, after, put, left_by) refl
    ]
after-shown now k (deletes ctx key) entries h = elim (Result-cases (get_arguments ctx key)) [
  | inl (selected, e) ↦ rw (e, after, delete, left_by) (rw (lookup-remove k selected entries) refl)
  | inr (x, e) ↦ rw (e, after, delete, left_by) refl
]

if-shown :
    (now : ℕ) (b : Bool) (new found found' : Option MemoryEntry)
    → shown now found ≡ shown now found'
    → shown now (if b then new else found) ≡ shown now (if b then new else found')
if-shown now true new found found' h = refl
if-shown now false new found found' h = h

left_by-shown :
    (now : ℕ) (k : Text) (call : Call) (found found' : Option MemoryEntry)
    → shown now found ≡ shown now found'
    → shown now (left_by k call found) ≡ shown now (left_by k call found')
unfolding left_by
left_by-shown now k (gets _ _ _) found found' h = h
left_by-shown now k (puts ctx key value options clock) found found' h =
    elim (Result-cases (put_arguments ctx key value options clock)) [
      | inl ((selected, entry), e) ↦
          rw (e, left_by) (if-shown now (same_text selected k) (some entry) found found' h)
      | inr (x, e) ↦ rw (e, left_by) h
    ]
left_by-shown now k (deletes ctx key) found found' h = elim (Result-cases (get_arguments ctx key)) [
  | inl (selected, e) ↦ rw (e, left_by) (if-shown now (same_text selected k) none found found' h)
  | inr (x, e) ↦ rw (e, left_by) h
]

latest-shown :
    (now : ℕ) (k : Text) (calls : List Call) (found found' : Option MemoryEntry)
    → shown now found ≡ shown now found'
    → shown now (latest k calls found) ≡ shown now (latest k calls found')
unfolding latest
latest-shown now k [] found found' h = h
latest-shown now k (call ∷ calls) found found' h =
    latest-shown now k calls (left_by k call found) (left_by k call found')
      (left_by-shown now k call found found' h)

after_all-shown :
    (now : ℕ) (k : Text) (calls : List Call) (entries : Entries)
    → All (Past now) calls
    → shown now (lookup k (after_all calls entries)) ≡ shown now (latest k calls (lookup k entries))
unfolding after_all latest
after_all-shown now k [] entries h = refl
after_all-shown now k (call ∷ calls) entries h =
    after_all-shown now k calls (after call entries) h.1
    ∙ latest-shown now k calls _ _ (after-shown now k call entries h.0)

active_in-value :
    (now : ℕ) (k : Text) (entries : Entries) (entry : MemoryEntry) (lifetime : Option ℕ)
    → now ≤ max_safe_integer
    → ((active_in entries k (some now) entry lifetime).1 >>= λ found. ok (value_of found))
      ≡ ok (shown_until now lifetime entry.value)
unfolding active_in timestamp
active_in-value now k entries entry none safe = refl
active_in-value now k entries entry (some x) safe = ground arith

get-shown :
    (now : ℕ) (k : Text) (entries : Entries)
    → cache_key (some k) ≡ ok k
    → now ≤ max_safe_integer
    → (get entries none (some k) (some now)).1 ≡ ok (shown now (lookup k entries))
unfolding get get_arguments active_entry active_in timestamp
get-shown now k entries h safe = elim (Option-cases (lookup k entries)) [
  | inl missing ↦ rw (h, get, get_arguments) (rw (missing, active_entry) refl)
  | inr (entry, found) ↦
      rw (h, get, get_arguments)
        (rw (found, active_entry) (active_in-value now k entries entry entry.expires_at safe))
]

-- A get at a safe instant `now`, by a live Context and with a valid key, after any calls whose gets
-- read no later clock, gives the value of the last accepted put of that key (or, if no accepted put or
-- delete came, of the entry at the start), unless a delete came after it or its lifetime is over.
pub get-latest :
    (now : ℕ) (key : Text) (calls : List Call) (entries : Entries)
    → cache_key (some key) ≡ ok key
    → now ≤ max_safe_integer
    → All (Past now) calls
    → (get (after_all calls entries) none (some key) (some now)).1
      ≡ ok (shown now (latest key calls (lookup key entries)))
get-latest now key calls entries accepted safe past =
    get-shown now key (after_all calls entries) accepted safe
    ∙ ap ok (after_all-shown now key calls entries past)
