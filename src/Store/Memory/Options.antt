-- ===== src/Store/Memory/Options.antt =====
-- packages/store/memory/src/store.ts: the construction options. A clock is known by a number, and
-- `none` is a value that is no function.
use go_like.Prelude.{ℕ, List, [], ◌∷◌, Option, none, some, Result, ok, throw, type_error, ◌>>=◌}
use go_like.Store.Memory.{MemoryStore}
use go_like.Store.Memory.Operations.{new_memory_store_at_revision}

pub record MemoryStoreOptions : Type 0 where
  pub clock : Option ℕ

abbrev standard_now : ℕ
standard_now = 0

unfoldable pub require_clock : Option ℕ → Result ℕ
require_clock none = throw type_error
require_clock (some clock) = ok clock

unfoldable pub snapshot_options : MemoryStoreOptions → Result MemoryStoreOptions
unfolding require_clock
snapshot_options value = do clock ← require_clock value.clock; ok (record { clock = some clock })

-- `clock`: the reducer for a clock that is a function
unfoldable pub select_clock : Option ℕ → Result (MemoryStoreOptions → MemoryStoreOptions)
unfolding require_clock
select_clock value = do captured ← require_clock value; ok (λ _. record { clock = some captured })

reduce_options :
    MemoryStoreOptions → List (MemoryStoreOptions → MemoryStoreOptions) → Result MemoryStoreOptions
unfolding snapshot_options
reduce_options candidate [] = ok candidate
reduce_options candidate (option ∷ options) = do
  next ← snapshot_options (option candidate)
  reduce_options next options

unfoldable pub memory_store_options :
    List (MemoryStoreOptions → MemoryStoreOptions) → Result MemoryStoreOptions
unfolding reduce_options
memory_store_options = reduce_options (record { clock = some standard_now })

-- `newMemoryStore`: the clock and the state that its Store starts with
unfoldable pub new_memory_store :
    List (MemoryStoreOptions → MemoryStoreOptions) → Result (Option ℕ × MemoryStore)
unfolding memory_store_options
new_memory_store options = do
  selected ← memory_store_options options
  s ← new_memory_store_at_revision 0
  ok (selected.clock, s)
