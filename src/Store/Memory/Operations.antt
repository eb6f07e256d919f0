-- ===== src/Store/Memory/Operations.antt =====
-- packages/store/memory/src/store.ts: the four operations of `newMemoryStoreAtRevision`.
use go_like.Prelude.{
  ℕ, ◌+◌, ◌-◌, min, Bool, true, false, not, ◌||◌, if◌then◌else◌, ltb, leb, ◌==◌, List, [], ◌∷◌,
  Option, none, some, Result, ok, throw, Thrown, type_error, range_error, conflict, ◌>>=◌, ◌>>◌,
  require, Text, same_text, starts_with, length, take, drop,
}
use go_like.Store.Sort.{sort}
use go_like.Store.{
  decimal, WriteOptions, DeleteOptions, ListOptions, Cursor, encoded, foreign_text, StoreRecord,
  StoreRecordInput, StorePage, exact_string, write_options, delete_options, list_options,
}
use go_like.Store.Snapshots.{Input, snapshot_store_record_input}
use go_like.Store.Memory.{
  MemoryStore, maximum_revision, check_context, timestamp, expiry, get, delete_key, delete_keys,
  set_record, expired_keys, next_revision, purge_expired, visible, admits_revision, admits_absent,
  commit,
}

unfoldable pub new_memory_store_at_revision : ℕ → Result MemoryStore
new_memory_store_at_revision seeded =
    if leb seeded maximum_revision
    then ok (record { records = []; revision = seeded })
    else throw range_error

-- `read`, once its arguments are checked.
unfoldable pub read_at : MemoryStore → Text → ℕ → MemoryStore × Result (Option StoreRecord)
read_at s key now =
    commit s
      do purged ← purge_expired (expired_keys now s.records) s; ok (purged, get key purged.records)

read_arguments : Option Thrown → Option Text → Option ℕ → Result (Text × ℕ)
unfolding exact_string timestamp
read_arguments ctx key clock = do
  check_context ctx
  selected_key ← exact_string key true
  now ← timestamp clock
  ok (selected_key, now)

unfoldable pub read :
    MemoryStore → Option Thrown → Option Text → Option ℕ → MemoryStore × Result (Option StoreRecord)
unfolding read_arguments
read s ctx key clock = elim (read_arguments ctx key clock) [
  | ok (selected_key, now) ↦ read_at s selected_key now
  | throw e ↦ (s, throw e)
]

-- The record that a write stores.
abbrev pub written : Input → ℕ → Option ℕ → StoreRecord
written input revision expires_at = record {
  key = input.key;
  value = input.value;
  metadata = input.metadata;
  revision = decimal revision;
  expires_at = expires_at;
}

-- `write`, once its arguments are checked.
unfoldable pub write_at :
    MemoryStore → Input → WriteOptions → ℕ → Option ℕ → MemoryStore × Result StoreRecord
write_at s input resolved now expires_at = commit s do
  let expired = expired_keys now s.records
  let current = visible input.key expired s.records
  require (admits_absent resolved.if_absent current) conflict
  require (admits_revision resolved.if_revision current) conflict
  candidate ← next_revision s
  let new = written input candidate expires_at
  ok (
    record { records = set_record new (delete_keys expired s.records); revision = candidate },
    new,
  )

write_arguments :
    Option Thrown
    → StoreRecordInput
    → List (WriteOptions → WriteOptions)
    → Option ℕ
    → Result (Input × WriteOptions × ℕ × Option ℕ)
unfolding snapshot_store_record_input write_options timestamp expiry
write_arguments ctx value options clock = do
  check_context ctx
  input ← snapshot_store_record_input value
  resolved ← write_options options
  now ← timestamp clock
  expires_at ← expiry now resolved.expires_in_ms
  ok (input, resolved, now, expires_at)

unfoldable pub write :
    MemoryStore
    → Option Thrown
    → StoreRecordInput
    → List (WriteOptions → WriteOptions)
    → Option ℕ
    → MemoryStore × Result StoreRecord
unfolding write_arguments
write s ctx value options clock = elim (write_arguments ctx value options clock) [
  | ok (input, resolved, now, expires_at) ↦ write_at s input resolved now expires_at
  | throw e ↦ (s, throw e)
]

remove_current : MemoryStore → Text → List Text → Option StoreRecord → Result (MemoryStore × Bool)
remove_current s key expired none = do purged ← purge_expired expired s; ok (purged, false)
remove_current s key expired (some _) = do
  candidate ← next_revision s
  ok (
    record { records = delete_key key (delete_keys expired s.records); revision = candidate },
    true,
  )

-- `delete`, once its arguments are checked.
unfoldable pub delete_at : MemoryStore → Text → DeleteOptions → ℕ → MemoryStore × Result Bool
unfolding remove_current
delete_at s key resolved now = commit s do
  let expired = expired_keys now s.records
  let current = visible key expired s.records
  require (admits_revision resolved.if_revision current) conflict
  remove_current s key expired current

delete_arguments :
    Option Thrown
    → Option Text
    → List (DeleteOptions → DeleteOptions)
    → Option ℕ
    → Result (Text × DeleteOptions × ℕ)
unfolding exact_string delete_options timestamp
delete_arguments ctx key options clock = do
  check_context ctx
  selected_key ← exact_string key true
  resolved ← delete_options options
  now ← timestamp clock
  ok (selected_key, resolved, now)

unfoldable pub delete :
    MemoryStore
    → Option Thrown
    → Option Text
    → List (DeleteOptions → DeleteOptions)
    → Option ℕ
    → MemoryStore × Result Bool
unfolding delete_arguments
delete s ctx key options clock = elim (delete_arguments ctx key options clock) [
  | ok (selected_key, resolved, now) ↦ delete_at s selected_key resolved now
  | throw e ↦ (s, throw e)
]

unfoldable pub has_prefix : Text → List StoreRecord → List StoreRecord
has_prefix prefix [] = []
has_prefix prefix (r ∷ rs) =
    let rest = has_prefix prefix rs in if starts_with r.key prefix then r ∷ rest else rest

pub record DecodedCursor : Type 0 where
  pub revision : ℕ
  pub prefix : Text
  pub offset : ℕ

-- `decodeCursor` inverts the JSON text that `encodeCursor` writes, and rejects any other.
decode_cursor : Option Cursor → Result (Option DecodedCursor)
decode_cursor none = ok none
decode_cursor (some (encoded revision prefix offset)) =
    ok (some (record { revision = revision; prefix = prefix; offset = offset }))
decode_cursor (some foreign_text) = throw type_error

-- `decoded !== null && (decoded.revision !== revision || decoded.prefix !== resolved.prefix)`
abbrev is_stale : Option DecodedCursor → ℕ → Text → Bool
is_stale none revision prefix = false
is_stale (some d) revision prefix = not (d.revision == revision) || not (same_text d.prefix prefix)

abbrev offset_of : Option DecodedCursor → ℕ
offset_of none = 0
offset_of (some d) = d.offset

abbrev count_of : Option ℕ → ℕ → ℕ
count_of none left = left
count_of (some limit) left = min limit left

-- The page of the sorted matching records from an offset on.
unfoldable pub page : ℕ → Text → Option ℕ → ℕ → List StoreRecord → StorePage
page revision prefix limit offset matching =
    let records = take (count_of limit (length matching - offset)) (drop offset matching) in
    let next_offset = offset + length records in
    record {
      records = records;
      cursor =
          if ltb next_offset (length matching)
          then some (encoded revision prefix next_offset)
          else none;
    }

-- The part of `list` behind the purge: an error does not undo that.
unfoldable pub list_page : MemoryStore → ListOptions → Option DecodedCursor → Result StorePage
unfolding has_prefix page
list_page s resolved decoded = do
  require (not (is_stale decoded s.revision resolved.prefix)) type_error
  let matching = sort (λ r. r.key) (has_prefix resolved.prefix s.records)
  let offset = offset_of decoded
  require (leb offset (length matching)) type_error
  ok (page s.revision resolved.prefix resolved.limit offset matching)

unfoldable pub list_at :
    MemoryStore → ListOptions → Option DecodedCursor → ℕ → MemoryStore × Result StorePage
list_at s resolved decoded now = elim (purge_expired (expired_keys now s.records) s) [
  | ok purged ↦ (purged, list_page purged resolved decoded)
  | throw e ↦ (s, throw e)
]

list_arguments :
    Option Thrown
    → List (ListOptions → ListOptions)
    → Option ℕ
    → Result (ListOptions × Option DecodedCursor × ℕ)
unfolding list_options decode_cursor timestamp
list_arguments ctx options clock = do
  check_context ctx
  resolved ← list_options options
  decoded ← decode_cursor resolved.cursor
  now ← timestamp clock
  ok (resolved, decoded, now)

unfoldable pub list :
    MemoryStore
    → Option Thrown
    → List (ListOptions → ListOptions)
    → Option ℕ
    → MemoryStore × Result StorePage
unfolding list_arguments
list s ctx options clock = elim (list_arguments ctx options clock) [
  | ok (resolved, decoded, now) ↦ list_at s resolved decoded now
  | throw e ↦ (s, throw e)
]
