-- ===== src/Store/Snapshots.antt =====
-- packages/store/src/snapshot.ts: the snapshots of a provider's records and pages, and the list
-- option builders of packages/store/src/options.ts.
use go_like.Prelude.{
  ℕ, ◌≡◌, ◌≢◌, refl, subst, arith, All, inl, inr, Bool-cases, Result-cases, Bool, true, false, not,
  ◌||◌, ltb, if◌then◌else◌, List, [], ◌∷◌, Option, none, some, Result, ok, throw, Thrown,
  type_error, range_error, ◌>>=◌, ◌>>◌, require, Text, same_text, same_text_iff,
}
use go_like.Resilience.Limiter.{max_safe_integer}
use go_like.Store.Sort.{sort, Sorted, Distinct, sort-Sorted}
use go_like.Store.{
  Revision, decimal, other, Cursor, ListOptions, StoreRecord, StorePage, exact_string,
  positive_integer, StoreRecordInput,
}

-- The reducers that `prefix`, `limit` and `cursor` return for values that they accept.
prefix : Option Text → Result (ListOptions → ListOptions)
unfolding exact_string
prefix value = do
  captured ← exact_string value false
  ok (λ options. record options { prefix = captured })

-- A cursor is never the empty text: `encoded` is not, and `foreign_text` stands for one that is not.
cursor : Option Cursor → Result (ListOptions → ListOptions)
cursor none = throw type_error
cursor (some captured) = ok (λ options. record options { cursor = some captured })

limit : ℕ → Result (ListOptions → ListOptions)
unfolding positive_integer
limit count = do
  captured ← positive_integer count
  ok (λ options. record options { limit = some captured })

-- `snapshotStoreRecordInput`: the bytes, the metadata sorted by key, then the key.
abbrev exact_value : Option (List ℕ) → Result (List ℕ)
exact_value none = throw type_error
exact_value (some bytes) = ok bytes

exact_entries : List (Option Text × Option Text) → Result (List (Text × Text))
exact_entries [] = ok []
exact_entries ((k, v) ∷ rest) = do
  key ← exact_string k false
  value ← exact_string v false
  entries ← exact_entries rest
  ok ((key, value) ∷ entries)

pub record Input : Type 0 where
  pub key : Text
  pub value : List ℕ
  pub metadata : List (Text × Text)

unfoldable pub snapshot_store_record_input : StoreRecordInput → Result Input
unfolding exact_entries
snapshot_store_record_input input = do
  value ← exact_value input.value
  entries ← exact_entries input.metadata
  key ← exact_string input.key true
  ok (record { key = key; value = value; metadata = sort (λ e. e.0) entries })

-- What a provider hands to `snapshotStoreRecord`; `none` is a field of another type.
pub record StoreRecordCandidate : Type 0 where
  pub key : Option Text
  pub value : Option (List ℕ)
  pub metadata : Option (List (Option Text × Option Text))
  pub revision : Option Revision
  pub expires_at : Option (Option ℕ)

-- `expiresAt`: absent, a whole number, or another value
exact_expiry : Option (Option ℕ) → Result (Option ℕ)
exact_expiry none = throw range_error
exact_expiry (some none) = ok none
exact_expiry (some (some t)) = if ltb max_safe_integer t then throw range_error else ok (some t)

snapshot_metadata : Option (List (Option Text × Option Text)) → Result (List (Text × Text))
unfolding exact_entries
snapshot_metadata none = throw type_error
snapshot_metadata (some entries) = do copied ← exact_entries entries; ok (sort (λ e. e.0) copied)

present_revision : Option Revision → Result Revision
present_revision none = throw type_error
present_revision (some (decimal n)) = ok (decimal n)
present_revision (some (other [])) = throw type_error
present_revision (some (other (c ∷ cs))) = ok (other (c ∷ cs))

unfoldable pub snapshot_store_record : StoreRecordCandidate → Result StoreRecord
unfolding snapshot_metadata exact_expiry present_revision
snapshot_store_record candidate = do
  value ← exact_value candidate.value
  expires_at ← exact_expiry candidate.expires_at
  key ← exact_string candidate.key true
  metadata ← snapshot_metadata candidate.metadata
  revision ← present_revision candidate.revision
  ok (record {
    key = key;
    value = value;
    metadata = metadata;
    revision = revision;
    expires_at = expires_at;
  })

-- `keys.has`
unfoldable pub has : Text → List Text → Bool
has key [] = false
has key (k ∷ ks) = same_text k key || has key ks

-- The loop of `snapshotStorePage` over the records, with the keys seen.
unfoldable pub snapshot_records : List Text → List StoreRecordCandidate → Result (List StoreRecord)
unfolding snapshot_store_record has
snapshot_records keys [] = ok []
snapshot_records keys (candidate ∷ candidates) = do
  snapshot ← snapshot_store_record candidate
  require (not (has snapshot.key keys)) type_error
  rest ← snapshot_records (snapshot.key ∷ keys) candidates
  ok (snapshot ∷ rest)

unfoldable pub snapshot_store_page : List StoreRecordCandidate → Option Cursor → Result StorePage
unfolding snapshot_records
snapshot_store_page candidates cursor = do
  records ← snapshot_records [] candidates
  ok (record { records = sort (λ r. r.key) records; cursor = cursor })

-- What the loop accepts: no record has a key seen before it.
data Accepts (keys : List Text) : Result (List StoreRecord) → Type 0 where
  accepts :
      (rs : List StoreRecord)
      → All (λ r. has r.key keys ≡ false) rs
      → Distinct (λ r. r.key) rs
      → Accepts keys (ok rs)
  refuses : (e : Thrown) → Accepts keys (throw e)

snapshot_records-Accepts :
    (keys : List Text) (candidates : List StoreRecordCandidate)
    → Accepts keys (snapshot_records keys candidates)
unfolding snapshot_records has
snapshot_records-Accepts keys [] = accepts [] tt tt
snapshot_records-Accepts keys (candidate ∷ candidates) =
    elim (Result-cases (snapshot_store_record candidate)) [
      | inr (e, failed) ↦ rw (failed, snapshot_records) (refuses e)
      | inl (r, taken) ↦
          rw (taken, snapshot_records)
            (elim (Bool-cases (has r.key keys)) [
              | inl seen ↦ rw seen (refuses type_error)
              | inr new ↦ rw new (
                  go r new (snapshot_records (r.key ∷ keys) candidates)
                    (snapshot_records-Accepts (r.key ∷ keys) candidates))
            ])
    ]
  where
    older :
        (r : StoreRecord) (rs : List StoreRecord)
        → All (λ x. has x.key (r.key ∷ keys) ≡ false) rs
        → All (λ x. has x.key keys ≡ false) rs × All (λ x. r.key ≢ x.key) rs
    older r [] h = (tt, tt)
    older r (x ∷ xs) h = (
      (ground (arith, h.0), (older r xs h.1).0),
      ((λ e. ground (arith, h.0, same_text_iff r.key x.key)), (older r xs h.1).1),
    )

    go :
        (r : StoreRecord)
        → has r.key keys ≡ false
        → (rest : Result (List StoreRecord)) → Accepts (r.key ∷ keys) rest
        → Accepts keys (rest >>= λ rs. ok (r ∷ rs))
    go r new (ok rs) (accepts _ unseen distinct) =
        accepts (r ∷ rs) (new, (older r rs unseen).0) ((older r rs unseen).1, distinct)
    go r new (throw e) (refuses _) = refuses e

-- A page that `snapshotStorePage` returns has strictly rising keys, whatever records the provider
-- hands to it and in whatever order, and the cursor that it was given.
pub snapshot_store_page-Sorted :
    (candidates : List StoreRecordCandidate) (cursor : Option Cursor) (p : StorePage)
    → snapshot_store_page candidates cursor ≡ ok p
    → Sorted (λ r. r.key) p.records × (p.cursor ≡ cursor)
unfolding snapshot_store_page
snapshot_store_page-Sorted candidates cursor p h =
    go (snapshot_records [] candidates) refl (snapshot_records-Accepts [] candidates)
  where
    go :
        (r : Result (List StoreRecord))
        → snapshot_records [] candidates ≡ r
        → Accepts [] r
        → Sorted (λ r. r.key) p.records × (p.cursor ≡ cursor)
    go (ok rs) e (accepts _ _ distinct) =
        let taken : ok (record { records = sort (λ r. r.key) rs; cursor = cursor }) ≡ ok p =
          rw e at h in
        let same : record { records = sort (λ r. r.key) rs; cursor = cursor } ≡ p = cc in
        subst (λ q. Sorted (λ r. r.key) q.records × (q.cursor ≡ cursor)) same
          (sort-Sorted (λ r. r.key) rs distinct, refl)
    go (throw x) e (refuses _) = let failed : throw x ≡ ok p = rw e at h in absurd cc
