-- ===== src/Cache.antt =====
-- packages/cache/src: the options of a put. packages/cache/memory/src is in Cache/Memory.
pub mod Memory
mod Tests
use go_like.Prelude.{
  ℕ, ltb, ◌||◌, if◌then◌else◌, List, [], ◌∷◌, Option, none, some, Result, ok, throw, range_error,
  ◌>>=◌,
}
use go_like.Resilience.Limiter.{max_safe_integer}

-- `positiveDuration`
unfoldable pub positive_duration : ℕ → Result ℕ
positive_duration value =
    if ltb value 1 || ltb max_safe_integer value then throw range_error else ok value

pub record PutOptions : Type 0 where
  pub expires_in_ms : Option ℕ

abbrev pub default_put_options : PutOptions
default_put_options = record { expires_in_ms = none }

optional_duration : Option ℕ → Result (Option ℕ)
unfolding positive_duration
optional_duration none = ok none
optional_duration (some value) = do duration ← positive_duration value; ok (some duration)

unfoldable pub snapshot_put_options : PutOptions → Result PutOptions
unfolding optional_duration
snapshot_put_options value = do
  duration ← optional_duration value.expires_in_ms
  ok (record { expires_in_ms = duration })

-- The reducer that `expiresIn` returns for a duration that it accepts.
unfoldable pub expires_in : ℕ → Result (PutOptions → PutOptions)
unfolding positive_duration
expires_in value_ms = do
  captured ← positive_duration value_ms
  ok (λ _. record { expires_in_ms = some captured })

reduce_put_options : PutOptions → List (PutOptions → PutOptions) → Result PutOptions
unfolding snapshot_put_options
reduce_put_options candidate [] = ok candidate
reduce_put_options candidate (option ∷ options) = do
  next ← snapshot_put_options (option candidate)
  reduce_put_options next options

unfoldable pub put_options : List (PutOptions → PutOptions) → Result PutOptions
unfolding reduce_put_options
put_options options = reduce_put_options default_put_options options
