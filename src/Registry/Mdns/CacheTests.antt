-- ===== src/Registry/Mdns/CacheTests.antt =====
-- packages/registry/mdns/src/cache.ts at concrete inputs. The payload of an instance is its version.
use go_like.Prelude.{
  ◌≡◌, refl, List, [], ◌∷◌, ◌++◌, some, ok, registry_protocol, Text, same_text, lookup, assign,
}
use go_like.Registry.Selector.Identity.{ServiceInstance}
use go_like.Registry.Mdns.Cache.{
  Identities, logical_from, logical, changed, said_goodbye, entered, by_ttl, observed, observe_at,
  Observation, observe_arguments, observe, unexpired, expire_each, expire, insert_name, Call,
  observing, after_all,
}
use go_like.Registry.Mdns.CacheLaws.{observe-restored}
use go_like.Registry.Mdns.CacheExpiry.{Current, expire-Current}

abbrev identity : ServiceInstance → Text
identity i = i.name ++ i.id

abbrev payload : ServiceInstance → Text
payload i = i.version

abbrev old : ServiceInstance
old = record { id = 49 ∷ []; name = 104 ∷ []; version = 118 ∷ []; metadata = []; endpoints = [] }

abbrev new : ServiceInstance
new = record { id = 49 ∷ []; name = 104 ∷ []; version = 119 ∷ []; metadata = []; endpoints = [] }

abbrev seen : Identities
seen = ((104 ∷ 49 ∷ []), ((97 ∷ []), record { instance_of = old; expires_at = 9000 }) ∷ []) ∷ []

-- Another publisher announces another content.
abbrev collision : Observation identity payload
collision = record { publisher = 98 ∷ []; value = ok new; ttl_seconds = some 5; now_ms = some 1000 }

observe-restored_example : (observe identity payload collision seen).0 ≡ seen
unfolding observe observe_arguments observe_at observed by_ttl entered logical logical_from lookup
    assign same_text
observe-restored_example = observe-restored identity payload collision seen registry_protocol refl

-- A goodbye leaves the record for a second.
abbrev goodbye : Observation identity payload
goodbye = record { publisher = 97 ∷ []; value = ok old; ttl_seconds = some 0; now_ms = some 2000 }

goodbye_second :
    (observe identity payload goodbye seen).0
    ≡ ((104 ∷ 49 ∷ []), ((97 ∷ []), record { instance_of = old; expires_at = 3000 }) ∷ []) ∷ []
unfolding observe observe_arguments observe_at observed by_ttl said_goodbye logical logical_from
    lookup assign same_text
goodbye_second = refl

expired_name_given : expire identity payload (some 9000) seen ≡ ([], ok ((104 ∷ []) ∷ []))
unfolding expire expire_each logical logical_from unexpired changed insert_name
expired_name_given = refl

abbrev announced : List (Call identity payload)
announced =
    observing
      (record { publisher = 97 ∷ []; value = ok old; ttl_seconds = some 9; now_ms = some 0 })
    ∷ observing collision
    ∷ []

expire-Current_example :
    ((names : List Text) × ((expire identity payload
          (some 9000)
          (after_all identity payload announced [])).1
        ≡ ok names))
    × Current 9000 (expire identity payload (some 9000) (after_all identity payload announced [])).0
expire-Current_example = expire-Current identity payload announced 9000
