-- ===== src/Store/Tests.antt =====
-- packages/store and packages/store/memory at concrete inputs.
use go_like.Prelude.{
  List, ℕ, suc, ◌≡◌, refl, arith, true, false, [], ◌∷◌, Option, none, some, ok, throw, conflict,
  type_error, length, same_text,
}
use go_like.Store.{
  decimal, StoreRecord, WriteOptions, expires_in, if_absent, if_revision, write_options,
  snapshot_write_options,
}
use go_like.Store.Sort.{Sorted}
use mathlib.Core.List.{Perm}
use go_like.Store.Snapshots.{
  Input, StoreRecordCandidate, snapshot_store_page, snapshot_records, snapshot_store_record, has,
  snapshot_store_page-Sorted,
}
use go_like.Store.{StorePage, exact_string}
use go_like.Store.Keys.{compare_store_keys}
use go_like.Store.Sort.{sort, insert}
use go_like.Store.Memory.{
  MemoryStore, get, expired_keys, delete_keys, set_record, is_expired, is_expired_at, next_revision,
  admits_revision,
}
use go_like.Store.Memory.Operations.{has_prefix, read_at, write_at, delete_at}
use go_like.Store.Memory.Refinement.{Inv, Reads, Writes, read_at-Reads, write_at-Writes}
use go_like.Store.Memory.Deletion.{Deletes, delete_at-Deletes}
use go_like.Store.Memory.Pages.{walk, walk-Sorted}

abbrev record_at : ℕ → ℕ → Option ℕ → StoreRecord
record_at key revision expires_at = record {
  key = 97 ∷ key ∷ [];
  value = 1 ∷ 2 ∷ [];
  metadata = [];
  revision = decimal revision;
  expires_at = expires_at;
}

-- Two records, the one under "ac" expires at 50.
abbrev two_records : MemoryStore
two_records = record { records = record_at 99 1 (some 50) ∷ record_at 98 2 none ∷ []; revision = 2 }

abbrev new_input : Input
new_input = record { key = 97 ∷ 99 ∷ []; value = 7 ∷ []; metadata = [] }

abbrev if_new : WriteOptions
if_new = record { expires_in_ms = none; if_absent = true; if_revision = none }

two_records-Inv : Inv two_records
unfolding get same_text
two_records-Inv = record {
  unique = (refl, (refl, tt));
  issued = ((1, refl, omega arith), ((2, refl, omega arith), tt));
  bounded = omega arith;
}

-- At 49 the record under "ac" is still there, and at 50 it is gone.
write_conflict : write_at two_records new_input if_new 49 none ≡ (two_records, throw conflict)
unfolding write_at expired_keys is_expired is_expired_at get same_text admits_revision
write_conflict = refl

write_stored : write_at two_records new_input if_new 50 none ≡ (
  record {
    records = record_at 98 2 none ∷ record (record_at 99 3 none) { value = 7 ∷ [] } ∷ [];
    revision = 3;
  },
  ok (record (record_at 99 3 none) { value = 7 ∷ [] }),
)
unfolding write_at expired_keys is_expired is_expired_at get same_text admits_revision next_revision
    delete_keys set_record
write_stored = refl

both_conditions :
    write_options (if_revision (decimal 1) ∷ (λ o. record o { if_absent = true }) ∷ [])
    ≡ throw type_error
unfolding write_options snapshot_write_options if_revision
both_conditions = refl

last_condition :
    write_options (if_absent ∷ if_revision (decimal 1) ∷ expires_in 5 ∷ [])
    ≡ ok (record { expires_in_ms = some 5; if_absent = false; if_revision = some (decimal 1) })
unfolding write_options snapshot_write_options if_revision if_absent expires_in
last_condition = refl

read_at-Reads_example : Reads two_records 60 (97 ∷ 98 ∷ []) (read_at two_records (97 ∷ 98 ∷ []) 60)
read_at-Reads_example = read_at-Reads two_records (97 ∷ 98 ∷ []) 60 two_records-Inv

write_at-Writes_example :
    Writes two_records new_input if_new 50 none (write_at two_records new_input if_new 50 none)
write_at-Writes_example = write_at-Writes two_records 50 two_records-Inv new_input if_new none

delete_at-Deletes_example :
    Deletes two_records 60
      (97 ∷ 98 ∷ [])
      (record { if_revision = some (decimal 2) })
      (delete_at two_records (97 ∷ 98 ∷ []) (record { if_revision = some (decimal 2) }) 60)
delete_at-Deletes_example =
    delete_at-Deletes two_records 60 two_records-Inv (97 ∷ 98 ∷ [])
      (record { if_revision = some (decimal 2) })

none_expired : expired_keys 49 two_records.records ≡ []
unfolding expired_keys is_expired_at
none_expired = refl

walk-Sorted_example :
    (all : List StoreRecord) × (walk two_records (97 ∷ []) (some 1) 49 (suc (length all)) none
      ≡ some all)
    × Sorted (λ r. r.key) all
    × Perm all (has_prefix (97 ∷ []) two_records.records)
walk-Sorted_example =
    walk-Sorted two_records (97 ∷ []) (some 1) 49 none_expired (omega arith) (omega arith)
      two_records-Inv.unique

abbrev candidate_at : ℕ → StoreRecordCandidate
candidate_at key = record {
  key = some (key ∷ []);
  value = some [];
  metadata = some [];
  revision = some (decimal 1);
  expires_at = some none;
}

abbrev snapshot_at : ℕ → StoreRecord
snapshot_at key = record {
  key = key ∷ [];
  value = [];
  metadata = [];
  revision = decimal 1;
  expires_at = none;
}

abbrev sorted_page : StorePage
sorted_page = record { records = snapshot_at 97 ∷ snapshot_at 98 ∷ []; cursor = none }

page_taken : snapshot_store_page (candidate_at 98 ∷ candidate_at 97 ∷ []) none ≡ ok sorted_page
unfolding snapshot_store_page snapshot_records snapshot_store_record exact_string has sort insert
    compare_store_keys same_text
page_taken = refl

snapshot_store_page-Sorted_example :
    Sorted (λ r. r.key) sorted_page.records × (sorted_page.cursor ≡ none)
snapshot_store_page-Sorted_example =
    snapshot_store_page-Sorted (candidate_at 98 ∷ candidate_at 97 ∷ []) none sorted_page page_taken
