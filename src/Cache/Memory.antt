-- ===== src/Cache/Memory.antt =====
-- packages/cache/memory/src/cache.ts: the process-local Cache.
-- A call takes the failure of the caller's Context and the reading of the clock, and returns the
-- new entries with what its promise gives.
pub mod History
pub mod Options
use go_like.Prelude.{
  ℕ, ◌+◌, Bool, true, ◌||◌, ltb, leb, if◌then◌else◌, List, [], ◌∷◌, Option, none, some, Result, ok,
  throw, Thrown, range_error, type_error, ◌>>=◌, ◌>>◌, require, Text, length, lookup, remove,
  assign,
}
use go_like.Store.{exact_string}
use go_like.Cache.{PutOptions, put_options}
use go_like.Resilience.Limiter.{max_safe_integer}

pub record MemoryEntry : Type 0 where
  pub value : List ℕ
  pub expires_at : Option ℕ

abbrev pub Entries : Type 0
Entries = List (Text × MemoryEntry)

abbrev pub maximum_ttl : ℕ
maximum_ttl = 2147483647

abbrev pub maximum_key_bytes : ℕ
maximum_key_bytes = 4096

abbrev pub maximum_value_bytes : ℕ
maximum_value_bytes = 16777216

-- `contextFailure`, of what `err()` and `cause(ctx)` give
abbrev context_failure : Option Thrown → Option Thrown → Option Thrown
context_failure none cause = none
context_failure (some failure) none = some failure
context_failure (some failure) (some cause) = some cause

-- `checkContext`, by what `contextFailure` gives
abbrev pub check_context : Option Thrown → Result (Unit {0})
check_context none = ok tt
check_context (some failure) = throw failure

-- `none` is a reading that is no non-negative integer.
unfoldable pub timestamp : Option ℕ → Result ℕ
timestamp none = throw range_error
timestamp (some now) = if leb now max_safe_integer then ok now else throw range_error

-- `Encoder.encode(value).byteLength`
abbrev bytes_of : ℕ → ℕ
bytes_of code_point =
    if ltb code_point 128
    then 1
    else if ltb code_point 2048
    then 2
    else if ltb code_point 65536
    then 3
    else 4

unfoldable pub byte_length : Text → ℕ
byte_length [] = 0
byte_length (c ∷ cs) = bytes_of c + byte_length cs

unfoldable pub cache_key : Option Text → Result Text
unfolding exact_string byte_length
cache_key value = do
  key ← exact_string value true
  require (leb (byte_length key) maximum_key_bytes) range_error
  ok key

-- `none` is a value that is no Uint8Array.
unfoldable pub cache_value : Option (List ℕ) → Result (List ℕ)
cache_value none = throw type_error
cache_value (some bytes) = do require (leb (length bytes) maximum_value_bytes) range_error; ok bytes

-- The clock is read for an entry that has a lifetime only.
unfoldable pub expiry : Option ℕ → Option ℕ → Result (Option ℕ)
unfolding timestamp
expiry clock none = ok none
expiry clock (some duration) = do
  require (leb 1 duration) range_error
  require (leb duration maximum_ttl) range_error
  now ← timestamp clock
  require (leb (now + duration) max_safe_integer) range_error
  ok (some (now + duration))

-- `activeEntry`, by the entry found under the key.
unfoldable pub active_in :
    Entries → Text → Option ℕ → MemoryEntry → Option ℕ → Entries × Result (Option MemoryEntry)
unfolding timestamp
active_in entries key clock entry none = (entries, ok (some entry))
active_in entries key clock entry (some expires_at) = elim (timestamp clock) [
  | ok now ↦
      if leb expires_at now then (remove key entries, ok none) else (entries, ok (some entry))
  | throw e ↦ (entries, throw e)
]

unfoldable pub active_entry : Entries → Text → Option ℕ → Entries × Result (Option MemoryEntry)
unfolding active_in
active_entry entries key clock = elim (lookup key entries) [
  | none ↦ (entries, ok none)
  | some entry ↦ active_in entries key clock entry entry.expires_at
]

abbrev pub value_of : Option MemoryEntry → Option (List ℕ)
value_of none = none
value_of (some entry) = some entry.value

unfoldable pub get_arguments : Option Thrown → Option Text → Result Text
unfolding cache_key
get_arguments ctx key = do check_context ctx; cache_key key

unfoldable pub get :
    Entries → Option Thrown → Option Text → Option ℕ → Entries × Result (Option (List ℕ))
unfolding get_arguments active_entry
get entries ctx key clock = elim (get_arguments ctx key) [
  | throw e ↦ (entries, throw e)
  | ok selected_key ↦
      let (after, found) = active_entry entries selected_key clock in
      (after, found >>= λ entry. ok (value_of entry))
]

unfoldable pub put_arguments :
    Option Thrown
    → Option Text
    → Option (List ℕ)
    → List (PutOptions → PutOptions)
    → Option ℕ
    → Result (Text × MemoryEntry)
unfolding cache_key cache_value put_options expiry
put_arguments ctx key value options clock = do
  check_context ctx
  selected_key ← cache_key key
  selected_value ← cache_value value
  resolved ← put_options options
  expires_at ← expiry clock resolved.expires_in_ms
  ok (selected_key, record { value = selected_value; expires_at = expires_at })

unfoldable pub put :
    Entries
    → Option Thrown
    → Option Text
    → Option (List ℕ)
    → List (PutOptions → PutOptions)
    → Option ℕ
    → Entries × Result (Unit {0})
unfolding put_arguments
put entries ctx key value options clock = elim (put_arguments ctx key value options clock) [
  | ok (selected_key, entry) ↦ (assign selected_key entry entries, ok tt)
  | throw e ↦ (entries, throw e)
]

unfoldable pub delete : Entries → Option Thrown → Option Text → Entries × Result (Unit {0})
unfolding get_arguments
delete entries ctx key = elim (get_arguments ctx key) [
  | ok selected_key ↦ (remove selected_key entries, ok tt)
  | throw e ↦ (entries, throw e)
]
