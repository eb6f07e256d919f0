-- ===== src/Store/Memory.antt =====
-- packages/store/memory/src/store.ts: the process-local Store.
-- The Map of records is a list in insertion order, and a call returns the new state with what its
-- promise gives. The failure of the caller's Context and the reading of the clock are arguments.
pub mod Table
pub mod Operations
pub mod Options
pub mod Refinement
pub mod Deletion
pub mod Pages
use go_like.Prelude.{
  ℕ, suc, ◌+◌, ◌-◌, min, Bool, true, false, ◌&&◌, ◌||◌, not, if◌then◌else◌, ltb, leb, ◌==◌, List,
  [], ◌∷◌, map, Option, none, some, Result, ok, throw, Thrown, type_error, range_error, conflict,
  ◌>>=◌, ◌>>◌, require, Text, same_text, starts_with, length, take, drop,
}
use go_like.Resilience.Limiter.{max_safe_integer}
use go_like.Store.{
  Revision, decimal, other, WriteOptions, DeleteOptions, ListOptions, Cursor, encoded, foreign_text,
  StoreRecord, StoreRecordInput, StorePage, exact_string, write_options, delete_options,
  list_options,
}

pub record MemoryStore : Type 0 where
  pub records : List StoreRecord
  pub revision : ℕ

abbrev pub maximum_revision : ℕ
maximum_revision = 9007199254740991

abbrev pub maximum_ttl_milliseconds : ℕ
maximum_ttl_milliseconds = 2147483647

-- `checkContext`, where the argument is the error that it throws, if any.
abbrev pub check_context : Option Thrown → Result (Unit {0})
check_context none = ok tt
check_context (some e) = throw e

-- `none` is a reading that is no non-negative integer.
unfoldable pub timestamp : Option ℕ → Result ℕ
timestamp none = throw range_error
timestamp (some now) = if leb now max_safe_integer then ok now else throw range_error

unfoldable pub expiry : ℕ → Option ℕ → Result (Option ℕ)
expiry now none = ok none
expiry now (some duration) = do
  require (leb duration maximum_ttl_milliseconds) range_error
  require (leb (now + duration) max_safe_integer) range_error
  ok (some (now + duration))

unfoldable pub is_expired_at : ℕ → Option ℕ → Bool
is_expired_at now none = false
is_expired_at now (some t) = leb t now

-- `records.get`, `records.delete` and `records.set`
unfoldable pub get : Text → List StoreRecord → Option StoreRecord
get key [] = none
get key (r ∷ rs) = let rest = get key rs in if same_text r.key key then some r else rest

unfoldable pub delete_key : Text → List StoreRecord → List StoreRecord
delete_key key [] = []
delete_key key (r ∷ rs) =
    let rest = delete_key key rs in if same_text r.key key then rest else r ∷ rest

unfoldable pub set_record : StoreRecord → List StoreRecord → List StoreRecord
set_record new [] = new ∷ []
set_record new (r ∷ rs) =
    let rest = set_record new rs in if same_text r.key new.key then new ∷ rs else r ∷ rest

unfoldable pub expired_keys : ℕ → List StoreRecord → List Text
expired_keys now [] = []
expired_keys now (r ∷ rs) =
    let rest = expired_keys now rs in if is_expired_at now r.expires_at then r.key ∷ rest else rest

-- `expired.includes(key)`
unfoldable pub is_expired : Text → List Text → Bool
is_expired key [] = false
is_expired key (k ∷ ks) = same_text k key || is_expired key ks

-- `for (const key of expired) records.delete(key)`
unfoldable pub delete_keys : List Text → List StoreRecord → List StoreRecord
unfolding delete_key
delete_keys [] records = records
delete_keys (k ∷ ks) records = delete_keys ks (delete_key k records)

unfoldable pub next_revision : MemoryStore → Result ℕ
next_revision s = if leb maximum_revision s.revision then throw range_error else ok (s.revision + 1)

unfoldable pub purge_expired : List Text → MemoryStore → Result MemoryStore
unfolding next_revision delete_keys
purge_expired [] s = ok s
purge_expired (k ∷ ks) s = do
  candidate ← next_revision s
  ok (record { records = delete_keys (k ∷ ks) s.records; revision = candidate })

-- The record that an operation sees under a key.
abbrev pub visible : Text → List Text → List StoreRecord → Option StoreRecord
visible key expired records = if is_expired key expired then none else get key records

same_revision : Revision → Revision → Bool
same_revision (decimal a) (decimal b) = a == b
same_revision (other a) (other b) = same_text a b
same_revision _ _ = false

-- `resolved.ifRevision !== null && current?.revision !== resolved.ifRevision`, negated
unfoldable pub admits_revision : Option Revision → Option StoreRecord → Bool
unfolding same_revision
admits_revision none current = true
admits_revision (some expected) none = false
admits_revision (some expected) (some current) = same_revision current.revision expected

abbrev pub admits_absent : Bool → Option StoreRecord → Bool
admits_absent true (some _) = false
admits_absent _ _ = true

-- A call that throws before it changes anything leaves the store as it was.
abbrev pub commit {ℓ} :
    {A : Type ℓ} → MemoryStore → Result (MemoryStore × A) → MemoryStore × Result A
commit s (ok (s', a)) = (s', ok a)
commit s (throw e) = (s, throw e)
