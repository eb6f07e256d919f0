-- ===== src/Registry/Mdns/CacheExpiry.antt =====
-- packages/registry/mdns/src/cache.ts: `expire` after any calls.
use go_like.Prelude.{
  ℕ, ◌+◌, ◌*◌, ◌<◌, ◌≡◌, ◌≢◌, refl, sym, ◌∙◌, subst, arith, Bool, true, false, leb, ◌==◌, List, [],
  ◌∷◌, Option, none, some, Result, ok, throw, Thrown, Result-cases, Text, All, same_text,
  same_text_iff, lookup, assign, lookup-All, assign-All, Bool-cases, inl, inr,
}
use go_like.Registry.Selector.Identity.{ServiceInstance}
use go_like.Registry.Mdns.Cache.{
  PublisherRecord, Publishers, Identities, records_or_new, unexpired, expired_in, logical_from,
  logical, said_goodbye, entered, by_ttl, observed, observe_at, Observation, observe_arguments,
  observe, expired_name, expire_each, expire, Call, observing, expiring, closing, after, after_all,
}
use go_like.Registry.Mdns.CacheLaws.{entered-restored}

-- No record is due.
abbrev pub Current : ℕ → Identities → Type 0
Current now = All (λ p. All (λ q. now < q.1.expires_at) p.1)

thrown_ok {ℓ} : {A : Type ℓ} {e : Thrown} {a : A} → throw e ≢ ok a
thrown_ok h = cc

unexpired-Current : (now : ℕ) (rs : Publishers) → All (λ q. now < q.1.expires_at) (unexpired now rs)
unfolding unexpired
unexpired-Current now [] = tt
unexpired-Current now ((p, r) ∷ rs) = elim (Bool-cases (leb r.expires_at now)) [
  | inl due ↦ rw (due, unexpired) (unexpired-Current now rs)
  | inr later ↦ rw (later, unexpired) (ground arith, unexpired-Current now rs)
]

unexpired-All :
    (P : Text × PublisherRecord → Type 0) (now : ℕ) (rs : Publishers)
    → All P rs
    → All P (unexpired now rs)
unfolding unexpired
unexpired-All P now [] h = tt
unexpired-All P now ((p, r) ∷ rs) h = elim (Bool-cases (leb r.expires_at now)) [
  | inl due ↦ rw (due, unexpired) (unexpired-All P now rs h.1)
  | inr later ↦ rw (later, unexpired) (h.0, unexpired-All P now rs h.1)
]

expired_in-All :
    (P : Publishers → Type 0) (identity : Text) (kept : Publishers) (rest : Identities)
    → P kept
    → All (λ p. P p.1) rest
    → All (λ p. P p.1) (expired_in identity kept rest)
expired_in-All P identity [] rest h k = k
expired_in-All P identity (r ∷ rs) rest h k = (h, k)

module _ (identity_preimage canonical_payload : ServiceInstance → Text) where
  abbrev Agreed : Text → Publishers → Type 0
  Agreed content = All (λ p. canonical_payload p.1.instance_of ≡ content)

  -- The publishers of one identity agree on its content.
  abbrev IsCoherent : Publishers → Type 0
  IsCoherent records = (content : Text) × Agreed content records

  abbrev Coherent : Identities → Type 0
  Coherent = All (λ p. IsCoherent p.1)

  logical_from-Agreed :
      (found : Option ServiceInstance) (content : Text) (rs : Publishers)
      → Agreed content rs
      → (o : Option ServiceInstance) × (logical_from identity_preimage canonical_payload found
            (some content)
            rs
          ≡ ok o)
  unfolding logical_from
  logical_from-Agreed found content [] h = (found, refl)
  logical_from-Agreed found content ((p, r) ∷ rs) h =
      let agreed = subst (λ c. Agreed c rs) (sym h.0) h.1 in
      let (o, e) =
        logical_from-Agreed (some r.instance_of) (canonical_payload r.instance_of) rs agreed in
      (o, rw ((same_text_iff (canonical_payload r.instance_of) content).1 h.0, logical_from) e)

  logical-IsCoherent :
      (rs : Publishers)
      → IsCoherent rs
      → (o : Option ServiceInstance) × (logical identity_preimage canonical_payload rs ≡ ok o)
  unfolding logical logical_from
  logical-IsCoherent [] h = (none, refl)
  logical-IsCoherent ((p, r) ∷ rs) (content, h) =
      logical_from-Agreed (some r.instance_of) (canonical_payload r.instance_of) rs
        (subst (λ c. Agreed c rs) (sym h.0) h.1)

  Agreed-logical_from :
      (found : Option ServiceInstance) (content : Text) (rs : Publishers)
      (o : Option ServiceInstance)
      → logical_from identity_preimage canonical_payload found (some content) rs ≡ ok o
      → Agreed content rs
  unfolding logical_from
  Agreed-logical_from found content [] o e = tt
  Agreed-logical_from found content ((p, r) ∷ rs) o e =
      elim (Bool-cases (same_text (canonical_payload r.instance_of) content)) [
        | inl agreed ↦
            let equal = (same_text_iff (canonical_payload r.instance_of) content).0 agreed in
            let later =
              Agreed-logical_from (some r.instance_of) (canonical_payload r.instance_of) rs o
                (rw (agreed, logical_from) at e) in
            (equal, subst (λ c. Agreed c rs) equal later)
        | inr other ↦ absurd (thrown_ok (rw (other, logical_from) at e))
      ]

  IsCoherent-logical :
      (rs : Publishers) (o : Option ServiceInstance)
      → logical identity_preimage canonical_payload rs ≡ ok o
      → IsCoherent rs
  unfolding logical logical_from
  IsCoherent-logical [] o e = ([], tt)
  IsCoherent-logical ((p, r) ∷ rs) o e = (
    canonical_payload r.instance_of,
    (refl, Agreed-logical_from (some r.instance_of) (canonical_payload r.instance_of) rs o e),
  )

  -- What `expire` does to a coherent cache.
  Expired : ℕ → Identities → Identities × Result (List Text) → Type 0
  Expired now s (s', result) =
      ((names : List Text) × (result ≡ ok names)) × Current now s' × Coherent s'

  Expired-step :
      (now : ℕ) (identity : Text) (records : Publishers) (rest : Identities)
      (earlier left : Option ServiceInstance) (later : Identities × Result (List Text))
      → IsCoherent records
      → Expired now rest later
      → Expired now ((identity, records) ∷ rest) (
          expired_name identity_preimage canonical_payload earlier
            (ok left)
            identity
            (unexpired now records)
            rest
            later)
  unfolding Expired
  Expired-step now identity records rest earlier left (s', throw failure) (content, h)
        ((names, e), k, c) =
      absurd cc
  Expired-step now identity records rest earlier left (s', ok names) (content, h) (_, k, c) = (
    (_, refl),
    expired_in-All (All (λ q. now < q.1.expires_at)) identity (unexpired now records) s'
        (unexpired-Current now records) k,
    expired_in-All IsCoherent identity (unexpired now records) s'
        (content, unexpired-All _ now records h) c,
  )

  expire_each-Expired :
      (now : ℕ) (s : Identities)
      → Coherent s
      → Expired now s (expire_each identity_preimage canonical_payload now s)
  unfolding Expired expire_each
  expire_each-Expired now [] h = (([], refl), tt, tt)
  expire_each-Expired now ((identity, records) ∷ rest) h =
      let (content, agreed) = h.0 in
      let (earlier, e) = logical-IsCoherent records h.0 in
      let (left, l) =
        logical-IsCoherent (unexpired now records) (content, unexpired-All _ now records agreed) in
      let step =
        Expired-step now identity records rest earlier left _ h.0
          (expire_each-Expired now rest h.1) in
      rw (e, expire_each) (rw l step)

  records_or_new-IsCoherent :
      (s : Identities) (found : Option Publishers)
      → ((records : Publishers) → found ≡ some records → IsCoherent records)
      → IsCoherent (records_or_new found)
  records_or_new-IsCoherent s none h = ([], tt)
  records_or_new-IsCoherent s (some records) h = h records refl

  said_goodbye-Coherent :
      (identity publisher : Text) (i : ServiceInstance) (now : ℕ) (records : Publishers)
      (s : Identities) (previous : Option PublisherRecord)
      → Coherent s
      → IsCoherent records
      → lookup publisher records ≡ previous
      → Coherent (
          said_goodbye identity_preimage canonical_payload identity publisher i now records s
            previous)
  unfolding said_goodbye
  said_goodbye-Coherent identity publisher i now records s none h k e = h
  said_goodbye-Coherent identity publisher i now records s (some previous) h (content, k) e =
      elim (Bool-cases (same_text (canonical_payload previous.instance_of) (canonical_payload i))) [
        | inr other ↦ rw (other, said_goodbye) h
        | inl agreed ↦
            let payload =
              lookup-All (λ r. canonical_payload r.instance_of ≡ content) publisher records previous
                k e in
            rw (agreed, said_goodbye)
              (assign-All IsCoherent identity _ s
                (
                  content,
                  assign-All (λ r. canonical_payload r.instance_of ≡ content) publisher _ records
                      payload k,
                )
                h)
      ]

  entered-Coherent :
      (identity publisher : Text) (i : ServiceInstance) (until : ℕ) (found : Option Publishers)
      (earlier : Option ServiceInstance) (s : Identities) (result : Result (Option ServiceInstance))
      → Coherent s
      → lookup identity s ≡ found
      → logical identity_preimage canonical_payload
          (assign publisher (record { instance_of = i; expires_at = until }) (records_or_new found))
        ≡ result
      → Coherent
          (entered identity_preimage canonical_payload identity publisher i until found earlier s
            result).0
  unfolding entered
  entered-Coherent identity publisher i until found earlier s (ok later) h e l =
      assign-All IsCoherent identity _ s (IsCoherent-logical _ later l) h
  entered-Coherent identity publisher i until found earlier s (throw failure) h e l =
      subst Coherent
        (sym (
          entered-restored identity_preimage canonical_payload identity publisher i until found
            earlier s (throw failure) failure e l refl))
        h

  by_ttl-Coherent :
      (identity publisher : Text) (i : ServiceInstance) (ttl now : ℕ) (found : Option Publishers)
      (earlier : Option ServiceInstance) (s : Identities) (goodbye : Bool)
      → Coherent s
      → lookup identity s ≡ found
      → Coherent
          (by_ttl identity_preimage canonical_payload identity publisher i ttl now found earlier s
            goodbye).0
  unfolding by_ttl
  by_ttl-Coherent identity publisher i ttl now found earlier s true h e =
      said_goodbye-Coherent identity publisher i now (records_or_new found) s _ h
        (records_or_new-IsCoherent s found
          (λ records known. lookup-All IsCoherent identity s records h (e ∙ known)))
        refl
  by_ttl-Coherent identity publisher i ttl now found earlier s false h e =
      entered-Coherent identity publisher i (now + ttl * 1000) found earlier s _ h e refl

  observed-Coherent :
      (identity publisher : Text) (i : ServiceInstance) (ttl now : ℕ) (found : Option Publishers)
      (s : Identities) (result : Result (Option ServiceInstance))
      → Coherent s
      → lookup identity s ≡ found
      → Coherent
          (observed identity_preimage canonical_payload identity publisher i ttl now found s
            result).0
  unfolding observed
  observed-Coherent identity publisher i ttl now found s (throw failure) h e = h
  observed-Coherent identity publisher i ttl now found s (ok earlier) h e =
      by_ttl-Coherent identity publisher i ttl now found earlier s (ttl == 0) h e

  observe-Coherent :
      (o : Observation identity_preimage canonical_payload) (s : Identities)
      → Coherent s
      → Coherent (observe identity_preimage canonical_payload o s).0
  unfolding observe observe_at
  observe-Coherent o s h =
      elim (Result-cases (observe_arguments identity_preimage canonical_payload o)) [
        | inr (thrown, refused) ↦ rw (refused, observe) h
        | inl (a, accepted) ↦
            rw (accepted, observe)
              (observed-Coherent (identity_preimage a.snapshot) o.publisher a.snapshot a.ttl a.now _
                s _ h refl)
      ]

  after-Coherent :
      (call : Call identity_preimage canonical_payload) (s : Identities)
      → Coherent s
      → Coherent (after identity_preimage canonical_payload call s)
  unfolding after expire Expired
  after-Coherent (observing o) s h = observe-Coherent o s h
  after-Coherent (expiring none) s h = h
  after-Coherent (expiring (some now)) s h = (expire_each-Expired now s h).2
  after-Coherent closing s h = tt

  after_all-Coherent :
      (calls : List (Call identity_preimage canonical_payload)) (s : Identities)
      → Coherent s
      → Coherent (after_all identity_preimage canonical_payload calls s)
  unfolding after_all
  after_all-Coherent [] s h = h
  after_all-Coherent (call ∷ calls) s h =
      after_all-Coherent calls (after identity_preimage canonical_payload call s)
        (after-Coherent call s h)

  -- After any calls of a new cache, `expire` at an instant returns, and leaves no record that is due.
  pub expire-Current :
      (calls : List (Call identity_preimage canonical_payload)) (now : ℕ)
      → ((names : List Text) × ((expire identity_preimage canonical_payload
              (some now)
              (after_all identity_preimage canonical_payload calls [])).1
            ≡ ok names))
        × Current now
            (expire identity_preimage canonical_payload
              (some now)
              (after_all identity_preimage canonical_payload calls [])).0
  unfolding expire Expired
  expire-Current calls now =
      let (returned, current, _) =
        expire_each-Expired now (after_all identity_preimage canonical_payload calls [])
          (after_all-Coherent calls [] tt) in
      (returned, current)
