-- ===== src/Store.antt =====
-- packages/store/src: keys, records and options of the provider-neutral Store.
-- An option is a function on the options, and a value that is no well-formed string is `none`.
pub mod Keys
pub mod Sort
pub mod Snapshots
pub mod Memory
mod Tests
use go_like.Prelude.{
  ℕ, ◌<◌, Bool, true, false, ◌&&◌, ◌||◌, not, if◌then◌else◌, ltb, leb, List, [], ◌∷◌, Option, none,
  some, Result, ok, throw, type_error, range_error, ◌>>=◌, ◌>>◌, require, Text, same_text,
}
use go_like.Resilience.Limiter.{max_safe_integer}

abbrev is_empty : Text → Bool
is_empty [] = true
is_empty _ = false

unfoldable pub exact_string : Option Text → Bool → Result Text
exact_string none non_empty = throw type_error
exact_string (some text) non_empty =
    if non_empty && is_empty text then throw type_error else ok text

unfoldable pub positive_integer : ℕ → Result ℕ
positive_integer value =
    if ltb value 1 || ltb max_safe_integer value then throw range_error else ok value

-- A revision is the decimal text of a number where the provider has made it; a caller may pass
-- any other text too.
pub data Revision : Type 0 where
  decimal : ℕ → Revision
  other : Text → Revision

pub record WriteOptions : Type 0 where
  pub expires_in_ms : Option ℕ
  pub if_absent : Bool
  pub if_revision : Option Revision

pub record DeleteOptions : Type 0 where
  pub if_revision : Option Revision

-- The cursors that a provider makes, or any other text.
pub data Cursor : Type 0 where
  encoded : ℕ → Text → ℕ → Cursor
  foreign_text : Cursor

pub record ListOptions : Type 0 where
  pub prefix : Text
  pub limit : Option ℕ
  pub cursor : Option Cursor

abbrev default_write_options : WriteOptions
default_write_options = record { expires_in_ms = none; if_absent = false; if_revision = none }

-- `exactString` of a revision: the decimal text of a number is not empty.
exact_revision : Option Revision → Result (Option Revision)
exact_revision none = ok none
exact_revision (some (decimal n)) = ok (some (decimal n))
exact_revision (some (other [])) = throw type_error
exact_revision (some (other (c ∷ cs))) = ok (some (other (c ∷ cs)))

abbrev is_some {ℓ} : {A : Type ℓ} → Option A → Bool
is_some none = false
is_some (some _) = true

optional_positive : Option ℕ → Result (Option ℕ)
unfolding positive_integer
optional_positive none = ok none
optional_positive (some n) = do m ← positive_integer n; ok (some m)

unfoldable pub snapshot_write_options : WriteOptions → Result WriteOptions
unfolding exact_revision optional_positive
snapshot_write_options value = do
  revision ← exact_revision value.if_revision
  require (not (value.if_absent && is_some revision)) type_error
  expires ← optional_positive value.expires_in_ms
  ok (record { expires_in_ms = expires; if_absent = value.if_absent; if_revision = revision })

unfoldable pub snapshot_delete_options : DeleteOptions → Result DeleteOptions
unfolding exact_revision
snapshot_delete_options value = do
  revision ← exact_revision value.if_revision
  ok (record { if_revision = revision })

-- The prefix and the cursor are well-formed strings by their types.
unfoldable pub snapshot_list_options : ListOptions → Result ListOptions
unfolding optional_positive
snapshot_list_options value = do
  limit ← optional_positive value.limit
  ok (record { prefix = value.prefix; limit = limit; cursor = value.cursor })

-- The reducers that the option builders return.
unfoldable pub expires_in : ℕ → WriteOptions → WriteOptions
expires_in captured options = record options { expires_in_ms = some captured }

unfoldable pub if_absent : WriteOptions → WriteOptions
if_absent options = record options { if_absent = true; if_revision = none }

unfoldable pub if_revision : Revision → WriteOptions → WriteOptions
if_revision captured options = record options { if_absent = false; if_revision = some captured }

reduce_write_options : WriteOptions → List (WriteOptions → WriteOptions) → Result WriteOptions
reduce_write_options candidate [] = ok candidate
reduce_write_options candidate (option ∷ rest) = do
  next ← snapshot_write_options (option candidate)
  reduce_write_options next rest

unfoldable pub write_options : List (WriteOptions → WriteOptions) → Result WriteOptions
unfolding reduce_write_options
write_options = reduce_write_options default_write_options

reduce_delete_options : DeleteOptions → List (DeleteOptions → DeleteOptions) → Result DeleteOptions
reduce_delete_options candidate [] = ok candidate
reduce_delete_options candidate (option ∷ rest) = do
  next ← snapshot_delete_options (option candidate)
  reduce_delete_options next rest

unfoldable pub delete_options : List (DeleteOptions → DeleteOptions) → Result DeleteOptions
unfolding reduce_delete_options
delete_options = reduce_delete_options (record { if_revision = none })

reduce_list_options : ListOptions → List (ListOptions → ListOptions) → Result ListOptions
reduce_list_options candidate [] = ok candidate
reduce_list_options candidate (option ∷ rest) = do
  next ← snapshot_list_options (option candidate)
  reduce_list_options next rest

unfoldable pub list_options : List (ListOptions → ListOptions) → Result ListOptions
unfolding reduce_list_options
list_options = reduce_list_options (record { prefix = []; limit = none; cursor = none })

-- A record, its bytes copied.
pub record StoreRecord : Type 0 where
  pub key : Text
  pub value : List ℕ
  pub metadata : List (Text × Text)
  pub revision : Revision
  pub expires_at : Option ℕ

-- What a caller hands to `write`: `value` is `none` if it is no byte array.
pub record StoreRecordInput : Type 0 where
  pub key : Option Text
  pub value : Option (List ℕ)
  pub metadata : List (Option Text × Option Text)

pub record StorePage : Type 0 where
  pub records : List StoreRecord
  pub cursor : Option Cursor
