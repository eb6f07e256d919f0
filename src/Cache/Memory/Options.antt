-- ===== src/Cache/Memory/Options.antt =====
-- packages/cache/memory/src/options.ts: the construction options. A clock is known by a number, and
-- `none` is a value that is no function.
use go_like.Prelude.{ℕ, List, [], ◌∷◌, Option, none, some, Result, ok, throw, type_error, ◌>>=◌}
use go_like.Cache.Memory.{Entries}

pub record MemoryCacheOptions : Type 0 where
  pub clock : Option ℕ

abbrev standard_now : ℕ
standard_now = 0

unfoldable pub require_clock : Option ℕ → Result ℕ
require_clock none = throw type_error
require_clock (some clock) = ok clock

unfoldable pub snapshot_options : MemoryCacheOptions → Result MemoryCacheOptions
unfolding require_clock
snapshot_options value = do clock ← require_clock value.clock; ok (record { clock = some clock })

-- `clock`: the reducer for a clock that is a function
unfoldable pub select_clock : Option ℕ → Result (MemoryCacheOptions → MemoryCacheOptions)
unfolding require_clock
select_clock value = do captured ← require_clock value; ok (λ _. record { clock = some captured })

reduce_options :
    MemoryCacheOptions → List (MemoryCacheOptions → MemoryCacheOptions) → Result MemoryCacheOptions
unfolding snapshot_options
reduce_options candidate [] = ok candidate
reduce_options candidate (option ∷ options) = do
  next ← snapshot_options (option candidate)
  reduce_options next options

unfoldable pub memory_cache_options :
    List (MemoryCacheOptions → MemoryCacheOptions) → Result MemoryCacheOptions
unfolding reduce_options
memory_cache_options = reduce_options (record { clock = some standard_now })

-- `newMemoryCache`: the clock and the entries that its Cache starts with
unfoldable pub new_memory_cache :
    List (MemoryCacheOptions → MemoryCacheOptions) → Result (Option ℕ × Entries)
unfolding memory_cache_options
new_memory_cache options = do selected ← memory_cache_options options; ok (selected.clock, [])
