-- ===== src/Registry/Mdns/Cache.antt =====
-- packages/registry/mdns/src/cache.ts. identityPreimage and canonicalPayload, which call
-- JSON.stringify, are parameters.
use go_like.Prelude.{
  ℕ, ◌+◌, ◌*◌, ◌-◌, ◌/◌, ◌%◌, min, Bool, true, false, not, ◌||◌, ltb, leb, ◌==◌, if◌then◌else◌,
  List, [], ◌∷◌, Option, none, some, Result, ok, throw, type_error, range_error, registry_protocol,
  ◌>>=◌, ◌>>◌, require, Text, same_text, lookup, remove, assign,
}
use go_like.Registry.Selector.Identity.{ServiceInstance}
use go_like.Registry.Selector.Domains.{before, same, behind, compare_code_points}

pub record PublisherRecord : Type 0 where
  pub instance_of : ServiceInstance
  pub expires_at : ℕ

abbrev pub Publishers : Type 0
Publishers = List (Text × PublisherRecord)

abbrev pub Identities : Type 0
Identities = List (Text × Publishers)

-- A reading of the clock is `none` where it is no finite number from 0 on.
abbrev pub timestamp : Option ℕ → Result ℕ
timestamp none = throw range_error
timestamp (some now) = ok now

-- A TTL is `none` where it is no integer from 0 on.
abbrev pub checked_ttl : Option ℕ → Result ℕ
checked_ttl none = throw range_error
checked_ttl (some ttl) = if ltb 4294967 ttl then throw range_error else ok ttl

abbrev pub is_empty_text : Text → Bool
is_empty_text [] = true
is_empty_text (c ∷ cs) = false

-- The code units of a text, by which `sort` compares.
unfoldable pub utf16 : Text → Text
utf16 [] = []
utf16 (c ∷ cs) =
    let rest = utf16 cs in
    if ltb 65535 c
    then (55296 + (c - 65536) / 1024) ∷ (56320 + (c - 65536) % 1024) ∷ rest
    else c ∷ rest

-- A name enters the sorted names, in which it stands once.
unfoldable pub insert_name : Text → List Text → List Text
unfolding utf16 compare_code_points
insert_name name [] = name ∷ []
insert_name name (n ∷ ns) =
    let rest = insert_name name ns in
    elim (compare_code_points (utf16 name) (utf16 n)) [
      | before ↦ name ∷ n ∷ ns
      | same ↦ n ∷ ns
      | behind ↦ n ∷ rest
    ]

unfoldable pub unexpired : ℕ → Publishers → Publishers
unexpired now [] = []
unexpired now ((publisher, r) ∷ rest) =
    let others = unexpired now rest in
    if leb r.expires_at now then others else (publisher, r) ∷ others

abbrev pub expired_in : Text → Publishers → Identities → Identities
expired_in identity [] rest = rest
expired_in identity (r ∷ rs) rest = (identity, r ∷ rs) ∷ rest

abbrev pub records_or_new : Option Publishers → Publishers
records_or_new none = []
records_or_new (some records) = records

abbrev pub created : Option Publishers → Bool
created none = true
created (some records) = false

abbrev pub has_size_zero : Publishers → Bool
has_size_zero [] = true
has_size_zero (r ∷ rs) = false

abbrev pub put_back : Text → Option PublisherRecord → Publishers → Publishers
put_back publisher none records = remove publisher records
put_back publisher (some previous) records = assign publisher previous records

unfoldable pub rolled_back : Text → Bool → Publishers → Identities → Identities
unfolding remove assign
rolled_back identity new records identities =
    if new || has_size_zero records
    then remove identity identities
    else assign identity records identities

module _ (identity_preimage canonical_payload : ServiceInstance → Text) where
  -- The loop of `logical`, with the variables `instance` and `content`.
  unfoldable pub logical_from :
      Option ServiceInstance → Option Text → Publishers → Result (Option ServiceInstance)
  logical_from instance_found content [] = ok instance_found
  logical_from instance_found none ((publisher, r) ∷ rest) =
      logical_from (some r.instance_of) (some (canonical_payload r.instance_of)) rest
  logical_from instance_found (some content) ((publisher, r) ∷ rest) =
      let later = logical_from (some r.instance_of) (some (canonical_payload r.instance_of)) rest in
      if same_text (canonical_payload r.instance_of) content then later else throw registry_protocol

  unfoldable pub logical : Publishers → Result (Option ServiceInstance)
  unfolding logical_from
  logical records = logical_from none none records

  unfoldable pub changed : Option ServiceInstance → Option ServiceInstance → Bool
  changed none none = false
  changed none (some later) = true
  changed (some earlier) none = true
  changed (some earlier) (some later) =
      not (same_text (canonical_payload earlier) (canonical_payload later))

  unfoldable pub said_goodbye :
      Text
      → Text
      → ServiceInstance
      → ℕ
      → Publishers
      → Identities
      → Option PublisherRecord
      → Identities
  unfolding assign
  said_goodbye identity publisher i now records identities none = identities
  said_goodbye identity publisher i now records identities (some previous) =
      if same_text (canonical_payload previous.instance_of) (canonical_payload i)
      then assign identity
          (assign publisher (record previous { expires_at = min previous.expires_at (now + 1000) })
            records)
          identities
      else identities

  -- `observe` behind the first call of `logical`, for a TTL of 0 and for another one.
  unfoldable pub entered :
      Text
      → Text
      → ServiceInstance
      → ℕ
      → Option Publishers
      → Option ServiceInstance
      → Identities
      → Result (Option ServiceInstance)
      → Identities × Result (List Text)
  unfolding assign rolled_back lookup changed
  entered identity publisher i until found earlier identities (ok later) = (
    assign identity
        (assign publisher (record { instance_of = i; expires_at = until }) (records_or_new found))
        identities,
    ok (if changed earlier later then i.name ∷ [] else []),
  )
  entered identity publisher i until found earlier identities (throw failure) =
      let records =
        assign publisher (record { instance_of = i; expires_at = until }) (records_or_new found) in
      (
        rolled_back identity (created found)
            (put_back publisher (lookup publisher (records_or_new found)) records)
            (assign identity records identities),
        throw failure,
      )

  -- Behind the first call of `logical`, by whether the TTL is 0.
  unfoldable pub by_ttl :
      Text
      → Text
      → ServiceInstance
      → ℕ
      → ℕ
      → Option Publishers
      → Option ServiceInstance
      → Identities
      → Bool
      → Identities × Result (List Text)
  unfolding entered said_goodbye logical assign lookup
  by_ttl identity publisher i ttl now found earlier identities true = (
    said_goodbye identity publisher i now (records_or_new found) identities
        (lookup publisher (records_or_new found)),
    ok [],
  )
  by_ttl identity publisher i ttl now found earlier identities false =
      let new : PublisherRecord = record { instance_of = i; expires_at = now + ttl * 1000 } in
      entered identity publisher i (now + ttl * 1000) found earlier identities
        (logical (assign publisher new (records_or_new found)))

  unfoldable pub observed :
      Text
      → Text
      → ServiceInstance
      → ℕ
      → ℕ
      → Option Publishers
      → Identities
      → Result (Option ServiceInstance)
      → Identities × Result (List Text)
  unfolding by_ttl
  observed identity publisher i ttl now found identities (throw failure) =
      (identities, throw failure)
  observed identity publisher i ttl now found identities (ok earlier) =
      by_ttl identity publisher i ttl now found earlier identities (ttl == 0)

  unfoldable pub observe_at :
      Text → ServiceInstance → ℕ → ℕ → Identities → Identities × Result (List Text)
  unfolding observed logical lookup
  observe_at publisher i ttl now identities =
      let found = lookup (identity_preimage i) identities in
      observed (identity_preimage i) publisher i ttl now found identities
        (logical (records_or_new found))

  pub record Observation : Type 0 where
    pub publisher : Text
    pub value : Result ServiceInstance
    pub ttl_seconds : Option ℕ
    pub now_ms : Option ℕ

  pub record Arguments : Type 0 where
    pub ttl : ℕ
    pub now : ℕ
    pub snapshot : ServiceInstance

  unfoldable pub observe_arguments : Observation → Result Arguments
  observe_arguments o = do
    require (not (is_empty_text o.publisher)) type_error
    ttl ← checked_ttl o.ttl_seconds
    now ← timestamp o.now_ms
    snapshot ← o.value
    ok (record { ttl = ttl; now = now; snapshot = snapshot })

  abbrev pub observe_with : Text → Identities → Result Arguments → Identities × Result (List Text)
  observe_with publisher identities (throw failure) = (identities, throw failure)
  observe_with publisher identities (ok a) = observe_at publisher a.snapshot a.ttl a.now identities

  unfoldable pub observe : Observation → Identities → Identities × Result (List Text)
  unfolding observe_arguments observe_at
  observe o identities = observe_with o.publisher identities (observe_arguments o)

  abbrev pub add_name : Option ServiceInstance → Option ServiceInstance → List Text → List Text
  add_name none later names = names
  add_name (some earlier) later names =
      if changed (some earlier) later then insert_name earlier.name names else names

  -- The loop of `expire`: where it throws, the identities behind stay as they are.
  abbrev pub expired_name :
      Option ServiceInstance
      → Result (Option ServiceInstance)
      → Text
      → Publishers
      → Identities
      → Identities × Result (List Text)
      → Identities × Result (List Text)
  expired_name earlier (throw failure) identity kept rest later =
      (expired_in identity kept rest, throw failure)
  expired_name earlier (ok now_left) identity kept rest (others, throw failure) =
      (expired_in identity kept others, throw failure)
  expired_name earlier (ok now_left) identity kept rest (others, ok names) =
      (expired_in identity kept others, ok (add_name earlier now_left names))

  abbrev pub expired_from :
      Result (Option ServiceInstance)
      → Result (Option ServiceInstance)
      → Text
      → Publishers
      → Publishers
      → Identities
      → Identities × Result (List Text)
      → Identities × Result (List Text)
  expired_from (throw failure) left identity records kept rest later =
      ((identity, records) ∷ rest, throw failure)
  expired_from (ok earlier) left identity records kept rest later =
      expired_name earlier left identity kept rest later

  unfoldable pub expire_each : ℕ → Identities → Identities × Result (List Text)
  unfolding logical unexpired changed insert_name
  expire_each now [] = ([], ok [])
  expire_each now ((identity, records) ∷ rest) =
      let later = expire_each now rest in
      expired_from (logical records) (logical (unexpired now records)) identity records
        (unexpired now records) rest later

  abbrev pub expire_with : Identities → Result ℕ → Identities × Result (List Text)
  expire_with identities (throw failure) = (identities, throw failure)
  expire_with identities (ok now) = expire_each now identities

  unfoldable pub expire : Option ℕ → Identities → Identities × Result (List Text)
  unfolding expire_each
  expire now_ms identities = expire_with identities (timestamp now_ms)

  abbrev pub named_instance :
      Text → Option ServiceInstance → List ServiceInstance → List ServiceInstance
  named_instance name none rest = rest
  named_instance name (some i) rest = if same_text i.name name then i ∷ rest else rest

  -- What `instances` hands to snapshotServiceInstances.
  unfoldable pub instances_named : Text → Identities → Result (List ServiceInstance)
  unfolding logical
  instances_named name [] = ok []
  instances_named name ((identity, records) ∷ rest) = do
    found ← logical records
    others ← instances_named name rest
    ok (named_instance name found others)

  unfoldable pub instances : Text → Identities → Result (List ServiceInstance)
  unfolding instances_named
  instances name identities =
      if is_empty_text name then throw type_error else instances_named name identities

  pub data Call : Type 0 where
    observing : Observation → Call
    expiring : Option ℕ → Call
    closing : Call

  unfoldable pub after : Call → Identities → Identities
  unfolding observe expire
  after (observing o) identities = (observe o identities).0
  after (expiring now) identities = (expire now identities).0
  after closing identities = []

  unfoldable pub after_all : List Call → Identities → Identities
  unfolding after
  after_all [] identities = identities
  after_all (call ∷ calls) identities = after_all calls (after call identities)
