-- ===== src/Registry/Mdns/CacheLaws.antt =====
-- packages/registry/mdns/src/cache.ts: failed observations, and expiry after any calls.
use go_like.Prelude.{
  some-injective, ℕ, ◌+◌, ◌*◌, ◌≡◌, ◌≢◌, refl, ap, ◌∙◌, Bool, true, false, ◌==◌, List, [], ◌∷◌,
  Option, none, some, Result, ok, throw, Thrown, Result-cases, Text, same_text, same_text_iff,
  same_text_refl, lookup, remove, assign, Bool-cases, inl, inr,
}
use go_like.Registry.Selector.Identity.{ServiceInstance}
use go_like.Registry.Mdns.Cache.{
  PublisherRecord, Publishers, Identities, records_or_new, put_back, rolled_back, has_size_zero,
  logical_from, logical, entered, by_ttl, observed, observe_at, Observation, observe_arguments,
  observe,
}

module _ {ℓ} {A : Type ℓ} where
  some-none : {a : A} → some a ≢ none
  some-none e = cc

  head_eq :
      {j k : Text} {a b : A} {xs : List (Text × A)} → j ≡ k → a ≡ b → (k, b) ∷ xs ≡ (j, a) ∷ xs
  head_eq e f = cc

  assign-assign :
      (key : Text) (a b : A) (xs : List (Text × A))
      → lookup key xs ≡ some a
      → assign key a (assign key b xs) ≡ xs
  unfolding assign lookup
  assign-assign key a b [] h = absurd cc
  assign-assign key a b ((k, c) ∷ xs) h = elim (Bool-cases (same_text k key)) [
    | inl here ↦
        let value : c ≡ a = some-injective (rw (here, lookup) at h) in
        let name : k ≡ key = (same_text_iff k key).0 here in
        rw (here, assign) (rw (same_text_refl key) (head_eq name value))
    | inr other ↦
        rw (other, assign)
          (rw other (ap (◌∷◌ (k, c)) (assign-assign key a b xs (rw (other, lookup) at h))))
  ]

  remove-assign :
      (key : Text) (b : A) (xs : List (Text × A))
      → lookup key xs ≡ none
      → remove key (assign key b xs) ≡ xs
  unfolding assign lookup remove
  remove-assign key b [] h = rw (same_text_refl key, remove) refl
  remove-assign key b ((k, c) ∷ xs) h = elim (Bool-cases (same_text k key)) [
    | inl here ↦ absurd (some-none (rw (here, lookup) at h))
    | inr other ↦
        rw (other, assign)
          (rw other (ap (◌∷◌ (k, c)) (remove-assign key b xs (rw (other, lookup) at h))))
  ]

put_back-assign :
    (publisher : Text) (new : PublisherRecord) (records : Publishers)
    (previous : Option PublisherRecord)
    → lookup publisher records ≡ previous
    → put_back publisher previous (assign publisher new records) ≡ records
put_back-assign publisher new records none h = remove-assign publisher new records h
put_back-assign publisher new records (some previous) h =
    assign-assign publisher previous new records h

rolled_back-assign :
    (identity : Text) (records changed_records : Publishers) (identities : Identities)
    → lookup identity identities ≡ some records
    → has_size_zero records ≡ false
    → rolled_back identity false records (assign identity changed_records identities) ≡ identities
unfolding rolled_back
rolled_back-assign identity records changed_records identities h e =
    rw (e, rolled_back) (assign-assign identity records changed_records identities h)

module _ (identity_preimage canonical_payload : ServiceInstance → Text) where
  single-logical :
      (publisher : Text) (new : PublisherRecord) (failure : Thrown)
      → logical identity_preimage canonical_payload (assign publisher new []) ≢ throw failure
  unfolding logical logical_from assign
  single-logical publisher new failure e = cc

  pub entered-restored :
      (identity publisher : Text) (i : ServiceInstance) (until : ℕ) (found : Option Publishers)
      (earlier : Option ServiceInstance) (identities : Identities)
      (result : Result (Option ServiceInstance)) (failure : Thrown)
      → lookup identity identities ≡ found
      → logical identity_preimage canonical_payload
          (assign publisher (record { instance_of = i; expires_at = until }) (records_or_new found))
        ≡ result
      → (entered identity_preimage canonical_payload identity publisher i until found earlier
          identities result).1
        ≡ throw failure
      → (entered identity_preimage canonical_payload identity publisher i until found earlier
          identities result).0
        ≡ identities
  unfolding entered
  entered-restored identity publisher i until found earlier identities (ok later) failure h l e =
      absurd cc
  entered-restored identity publisher i until none earlier identities (throw thrown) failure h l e =
      absurd (single-logical publisher _ thrown l)
  entered-restored identity publisher i until (some []) earlier identities (throw thrown) failure h
        l e =
      absurd (single-logical publisher _ thrown l)
  entered-restored identity publisher i until (some (r ∷ rs)) earlier identities (throw thrown)
        failure h l e =
      let new : PublisherRecord = record { instance_of = i; expires_at = until } in
      let restored = put_back-assign publisher new (r ∷ rs) (lookup publisher (r ∷ rs)) refl in
      ap
        (λ records.
          rolled_back identity false records
            (assign identity (assign publisher new (r ∷ rs)) identities))
        restored
      ∙ rolled_back-assign identity (r ∷ rs) (assign publisher new (r ∷ rs)) identities h refl

  by_ttl-restored :
      (identity publisher : Text) (i : ServiceInstance) (ttl now : ℕ) (found : Option Publishers)
      (earlier : Option ServiceInstance) (identities : Identities) (goodbye : Bool)
      (failure : Thrown)
      → lookup identity identities ≡ found
      → (by_ttl identity_preimage canonical_payload identity publisher i ttl now found earlier
          identities goodbye).1
        ≡ throw failure
      → (by_ttl identity_preimage canonical_payload identity publisher i ttl now found earlier
          identities goodbye).0
        ≡ identities
  unfolding by_ttl
  by_ttl-restored identity publisher i ttl now found earlier identities true failure h e = absurd cc
  by_ttl-restored identity publisher i ttl now found earlier identities false failure h e =
      entered-restored identity publisher i (now + ttl * 1000) found earlier identities _ failure h
        refl e

  observed-restored :
      (identity publisher : Text) (i : ServiceInstance) (ttl now : ℕ) (found : Option Publishers)
      (identities : Identities) (result : Result (Option ServiceInstance)) (failure : Thrown)
      → lookup identity identities ≡ found
      → (observed identity_preimage canonical_payload identity publisher i ttl now found identities
          result).1
        ≡ throw failure
      → (observed identity_preimage canonical_payload identity publisher i ttl now found identities
          result).0
        ≡ identities
  unfolding observed
  observed-restored identity publisher i ttl now found identities (throw thrown) failure h e = refl
  observed-restored identity publisher i ttl now found identities (ok earlier) failure h e =
      by_ttl-restored identity publisher i ttl now found earlier identities (ttl == 0) failure h e

  -- An observation that throws leaves the cache as it was.
  pub observe-restored :
      (o : Observation identity_preimage canonical_payload) (identities : Identities)
      (failure : Thrown)
      → (observe identity_preimage canonical_payload o identities).1 ≡ throw failure
      → (observe identity_preimage canonical_payload o identities).0 ≡ identities
  unfolding observe observe_at
  observe-restored o identities failure e =
      elim (Result-cases (observe_arguments identity_preimage canonical_payload o)) [
        | inr (thrown, refused) ↦ rw (refused, observe) refl
        | inl (a, accepted) ↦
            rw (accepted, observe)
              (observed-restored (identity_preimage a.snapshot) o.publisher a.snapshot a.ttl a.now _
                identities _ failure refl (rw (accepted, observe) at e))
      ]
