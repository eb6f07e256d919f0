-- ===== src/Cache/Tests.antt =====
-- packages/cache and packages/cache/memory at concrete inputs.
use go_like.Prelude.{
  ◌≡◌, refl, arith, List, [], ◌∷◌, none, some, ok, throw, range_error, lookup, assign,
}
use go_like.Store.{exact_string}
use go_like.Cache.Memory.{timestamp}
use go_like.Cache.{put_options, snapshot_put_options, PutOptions}
use go_like.Cache.Memory.{byte_length, cache_key, cache_value, expiry, get, put, put_arguments}
use go_like.Cache.Memory.History.{Call, gets, puts, deletes, after_all, latest, shown, get-latest}

abbrev five_ms : PutOptions → PutOptions
five_ms _ = record { expires_in_ms = some 5 }

-- A put at 10 that lives until 15, a get at 11, and a delete of another key.
abbrev calls : List Call
calls =
    puts none (some (107 ∷ [])) (some (1 ∷ 2 ∷ [])) (five_ms ∷ []) (some 10)
    ∷ gets none (some (107 ∷ [])) (some 11)
    ∷ deletes none (some (108 ∷ []))
    ∷ []

accepted_key : cache_key (some (107 ∷ [])) ≡ ok (107 ∷ [])
unfolding cache_key exact_string byte_length
accepted_key = refl

put_expires : expiry (some 10) (some 5) ≡ ok (some 15)
unfolding expiry timestamp
put_expires = refl

too_long : expiry (some 10) (some 2147483648) ≡ throw range_error
unfolding expiry timestamp
too_long = refl

put_accepted :
    put [] none (some (107 ∷ [])) (some (1 ∷ 2 ∷ [])) (five_ms ∷ []) (some 10)
    ≡ ((107 ∷ [], record { value = 1 ∷ 2 ∷ []; expires_at = some 15 }) ∷ [], ok tt)
unfolding put put_arguments cache_key exact_string byte_length cache_value put_options
    snapshot_put_options expiry timestamp assign
put_accepted = refl

get-latest_example :
    (get (after_all calls []) none (some (107 ∷ [])) (some 14)).1
    ≡ ok (shown 14 (latest (107 ∷ []) calls (lookup (107 ∷ []) [])))
get-latest_example =
    get-latest 14 (107 ∷ []) calls [] accepted_key (omega arith) (tt, (omega arith, (tt, tt)))
