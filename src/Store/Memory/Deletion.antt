-- ===== src/Store/Memory/Deletion.antt =====
-- packages/store/memory/src/store.ts: `delete` against the abstract Store.
use go_like.Prelude.{
  ℕ, ◌+◌, ◌≤◌, ◌<◌, ◌≡◌, refl, arith, Bool, true, false, if◌then◌else◌, none, some, Result, ok,
  throw, range_error, conflict, Text, same_text, Bool-cases, Option-cases, inl, inr, ◌>>=◌,
}
use go_like.Store.{StoreRecord, DeleteOptions}
use go_like.Store.Memory.{
  MemoryStore, maximum_revision, get, delete_key, delete_keys, expired_keys, admits_revision,
  commit,
}
use go_like.Store.Memory.Table.{
  alive, get-delete_key, get-purged, visible-alive, alive-alive, delete_keys-Unique,
  delete_key-Unique,
}
use go_like.Store.Memory.Operations.{delete_at}
use go_like.Store.Memory.Refinement.{
  Inv, SameView, view, Purge, purged, exhausted, purge_expired-Purge, Purge-Inv, Purge-SameView,
  Issued-mono, Issued-delete_key, Issued-delete_keys, next_revision-cases,
}

-- What a delete does, by the record that it finds: a wrong revision is a conflict with no change;
-- with no record it says so and the store shows what it showed, or it cannot purge; otherwise the
-- key is gone and every other key keeps what it showed, unless the revisions are exhausted.
pub data Deletes (s : MemoryStore) (now : ℕ) (key : Text) (resolved : DeleteOptions)
    : MemoryStore × Result Bool → Type 0 where
  conflicts :
      admits_revision resolved.if_revision (view s now key) ≡ false
      → Deletes s now key resolved (s, throw conflict)
  missing :
      admits_revision resolved.if_revision (view s now key) ≡ true
      → view s now key ≡ none
      → (s' : MemoryStore) → Inv s'
      → SameView now s s'
      → Deletes s now key resolved (s', ok false)
  no_revision :
      admits_revision resolved.if_revision (view s now key) ≡ true
      → s.revision ≡ maximum_revision
      → Deletes s now key resolved (s, throw range_error)
  deletes :
      admits_revision resolved.if_revision (view s now key) ≡ true
      → (found : StoreRecord) → view s now key ≡ some found
      → (s' : MemoryStore) → Inv s'
      → s'.revision ≡ s.revision + 1
      → ((later : ℕ) (k : Text)
          → now ≤ later
          → view s' later k ≡ (if same_text key k then none else view s later k))
      → Deletes s now key resolved (s', ok true)

module _ (s : MemoryStore) (now : ℕ) (v : Inv s) where
  delete_store :
      (key : Text)
      → s.revision < maximum_revision
      → Inv (record {
        records = delete_key key (delete_keys (expired_keys now s.records) s.records);
        revision = s.revision + 1;
      })
  delete_store key h =
      let rest = delete_keys (expired_keys now s.records) s.records in
      record {
        unique =
            delete_key-Unique key rest
              (delete_keys-Unique (expired_keys now s.records) s.records v.unique);
        issued = Issued-delete_key (s.revision + 1) key rest (
            Issued-delete_keys (s.revision + 1) (expired_keys now s.records) s.records
              (Issued-mono s.revision (s.revision + 1) s.records (omega arith) v.issued));
        bounded = omega arith;
      }

  delete_view :
      (key : Text) (later : ℕ) (k : Text)
      → now ≤ later
      → alive later (get k (delete_key key (delete_keys (expired_keys now s.records) s.records)))
        ≡ (if same_text key k then none else view s later k)
  delete_view key later k h =
      rw (get-delete_key, get-purged k now s.records v.unique)
        (ground (arith, alive-alive now later (get k s.records) h))

  delete_missing :
      (key : Text) (resolved : DeleteOptions) (r : Result MemoryStore)
      → admits_revision resolved.if_revision (view s now key) ≡ true
      → view s now key ≡ none
      → Purge s (expired_keys now s.records) r
      → Deletes s now key resolved (commit s (r >>= λ p. ok (p, false)))
  delete_missing key resolved (ok s') right gone (purged _ e h b) =
      missing right gone s' (Purge-Inv {s = s} {s' = s'} now v e h b) (Purge-SameView s s' now v e)
  delete_missing key resolved (throw x) right gone (exhausted some_expired e) =
      Deletes.no_revision right e

  -- A delete on a valid store does what `Deletes` says.
  pub delete_at-Deletes :
      (key : Text) (resolved : DeleteOptions)
      → Deletes s now key resolved (delete_at s key resolved now)
  unfolding delete_at
  delete_at-Deletes key resolved =
      rw (visible-alive key now s.records v.unique)
        (elim (Bool-cases (admits_revision resolved.if_revision (view s now key))) [
          | inr wrong ↦ rw wrong (conflicts wrong)
          | inl right ↦ rw right (elim (Option-cases (view s now key)) [
            | inl gone ↦ rw gone (
                delete_missing key resolved _ right gone
                  (purge_expired-Purge s (expired_keys now s.records) v.bounded))
            | inr (found, here) ↦ rw here (elim (next_revision-cases s now v) [
              | inl (e, full) ↦ rw e (Deletes.no_revision right full)
              | inr (e, room) ↦
                  rw e (deletes right found here _ (delete_store key room) refl (delete_view key))
            ])
          ])
        ])
