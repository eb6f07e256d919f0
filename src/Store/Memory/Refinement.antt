-- ===== src/Store/Memory/Refinement.antt =====
-- packages/store/memory/src/store.ts against an abstract Store: at each instant, a function from
-- keys to the records that have not expired.
use go_like.Prelude.{
  ℕ, ◌+◌, ◌≤◌, ◌<◌, ◌≡◌, ◌≢◌, ◌⊎◌, inl, inr, refl, arith, true, false, ◌&&◌, if◌then◌else◌, leb,
  List, [], ◌∷◌, Option, some, Result, ok, throw, range_error, conflict, ◌>>=◌, Text, same_text,
  Bool-cases,
}
use go_like.Store.{decimal, StoreRecord, WriteOptions}
use go_like.Store.Snapshots.{Input}
use go_like.Store.Memory.{
  MemoryStore, maximum_revision, get, delete_key, delete_keys, set_record, expired_keys,
  next_revision, purge_expired, admits_revision, admits_absent, commit,
}
use go_like.Store.Memory.Table.{
  Unique, alive, get-set_record, get-purged, visible-alive, alive-alive, delete_keys-Unique,
  set_record-Unique,
}
use go_like.Store.Memory.Operations.{read_at, write_at, written}

-- The abstract Store.
abbrev pub view : MemoryStore → ℕ → Text → Option StoreRecord
view s now key = alive now (get key s.records)

-- Every revision has been given out: it is the text of a number up to the store's.
abbrev pub Issued : ℕ → List StoreRecord → Type 0
Issued n [] = Unit
Issued n (r ∷ rs) = ((m : ℕ) × (r.revision ≡ decimal m) × (m ≤ n)) × Issued n rs

pub record Inv (s : MemoryStore) : Type 0 where
  pub unique : Unique s.records
  pub issued : Issued s.revision s.records
  pub bounded : s.revision ≤ maximum_revision

-- From the instant `now` on the two stores show the same records.
abbrev pub SameView : ℕ → MemoryStore → MemoryStore → Type 0
SameView now s s' = (later : ℕ) (key : Text) → now ≤ later → view s' later key ≡ view s later key

-- How a purge of some keys ends: with a new revision if there was something to delete, or with the
-- error of an exhausted revision.
pub data Purge (s : MemoryStore) (ks : List Text) : Result MemoryStore → Type 0 where
  purged :
      (s' : MemoryStore)
      → s'.records ≡ delete_keys ks s.records
      → s.revision ≤ s'.revision
      → s'.revision ≤ maximum_revision
      → Purge s ks (ok s')
  exhausted : ks ≢ [] → s.revision ≡ maximum_revision → Purge s ks (throw range_error)

pub purge_expired-Purge :
    (s : MemoryStore) (ks : List Text)
    → s.revision ≤ maximum_revision
    → Purge s ks (purge_expired ks s)
unfolding purge_expired
purge_expired-Purge s [] b = purged s refl (omega arith) b
purge_expired-Purge s (k ∷ ks) b = elim (Bool-cases (leb maximum_revision s.revision)) [
  | inl full ↦ rw full (exhausted (λ e. cc) (ground arith))
  | inr room ↦ rw room (purged _ refl (omega arith) (ground arith))
]

pub Issued-mono : (m n : ℕ) (rs : List StoreRecord) → m ≤ n → Issued m rs → Issued n rs
Issued-mono m n [] h i = tt
Issued-mono m n (r ∷ rs) h ((k, e, l), rest) = ((k, e, omega arith), Issued-mono m n rs h rest)

pub Issued-delete_key :
    (n : ℕ) (k : Text) (rs : List StoreRecord) → Issued n rs → Issued n (delete_key k rs)
unfolding delete_key
Issued-delete_key n k [] i = tt
Issued-delete_key n k (r ∷ rs) i = ground (arith, Issued-delete_key n k rs i.1)

pub Issued-delete_keys :
    (n : ℕ) (ks : List Text) (rs : List StoreRecord) → Issued n rs → Issued n (delete_keys ks rs)
unfolding delete_keys
Issued-delete_keys n [] rs i = i
Issued-delete_keys n (k ∷ ks) rs i =
    Issued-delete_keys n ks (delete_key k rs) (Issued-delete_key n k rs i)

Issued-set_record :
    (n m : ℕ) (new : StoreRecord) (rs : List StoreRecord)
    → new.revision ≡ decimal m
    → m ≤ n
    → Issued n rs
    → Issued n (set_record new rs)
unfolding set_record
Issued-set_record n m new [] e h i = ((m, e, h), tt)
Issued-set_record n m new (r ∷ rs) e h i = elim (Bool-cases (same_text r.key new.key)) [
  | inl here ↦ rw here ((m, e, h), i.1)
  | inr there ↦ rw there (i.0, Issued-set_record n m new rs e h i.1)
]

pub Purge-Inv :
    {s s' : MemoryStore} (now : ℕ)
    → Inv s
    → s'.records ≡ delete_keys (expired_keys now s.records) s.records
    → s.revision ≤ s'.revision
    → s'.revision ≤ maximum_revision
    → Inv s'
Purge-Inv {s} {s'} now v e h b = record {
  unique = rw e (delete_keys-Unique (expired_keys now s.records) s.records v.unique);
  issued = rw e (
      Issued-delete_keys s'.revision (expired_keys now s.records) s.records
        (Issued-mono s.revision s'.revision s.records h v.issued));
  bounded = b;
}

pub Purge-SameView :
    (s s' : MemoryStore) (now : ℕ)
    → Inv s
    → s'.records ≡ delete_keys (expired_keys now s.records) s.records
    → SameView now s s'
Purge-SameView s s' now v e later key h =
    rw (e, get-purged key now s.records v.unique) (alive-alive now later (get key s.records) h)

-- What a read does: it gives the record of the view, and from then on the store shows what it
-- showed; or the error of an exhausted revision, if there is something to purge.
pub data Reads (s : MemoryStore) (now : ℕ) (key : Text)
    : MemoryStore × Result (Option StoreRecord) → Type 0 where
  reads :
      (s' : MemoryStore) → Inv s' → SameView now s s' → Reads s now key (s', ok (view s now key))
  cannot_purge :
      expired_keys now s.records ≢ []
      → s.revision ≡ maximum_revision
      → Reads s now key (s, throw range_error)

-- A read of a valid store does what `Reads` says, and leaves a valid store.
pub read_at-Reads :
    (s : MemoryStore) (key : Text) (now : ℕ) → Inv s → Reads s now key (read_at s key now)
unfolding read_at
read_at-Reads s key now v =
    go (purge_expired (expired_keys now s.records) s)
      (purge_expired-Purge s (expired_keys now s.records) v.bounded)
  where
    go :
        (r : Result MemoryStore)
        → Purge s (expired_keys now s.records) r
        → Reads s now key (commit s (r >>= λ p. ok (p, get key p.records)))
    go (ok s') (purged _ e h b) =
        let found : get key s'.records ≡ view s now key =
          rw e (get-purged key now s.records v.unique) in
        rw found (reads s' (Purge-Inv {s = s} {s' = s'} now v e h b) (Purge-SameView s s' now v e))
    go (throw x) (exhausted some_expired e) = cannot_purge some_expired e

-- What a write does, by the record that it finds: a condition that does not hold is a conflict, and
-- an exhausted revision an error, both with no change; otherwise it stores the record under the
-- next revision, and every other key keeps what it showed.
pub data Writes (s : MemoryStore) (input : Input) (resolved : WriteOptions) (now : ℕ)
    (expires_at : Option ℕ) : MemoryStore × Result StoreRecord → Type 0 where
  conflicts :
      admits_absent resolved.if_absent (view s now input.key)
          && admits_revision resolved.if_revision (view s now input.key)
        ≡ false
      → Writes s input resolved now expires_at (s, throw conflict)
  no_revision :
      admits_absent resolved.if_absent (view s now input.key)
          && admits_revision resolved.if_revision (view s now input.key)
        ≡ true
      → s.revision ≡ maximum_revision
      → Writes s input resolved now expires_at (s, throw range_error)
  stores :
      admits_absent resolved.if_absent (view s now input.key)
          && admits_revision resolved.if_revision (view s now input.key)
        ≡ true
      → (s' : MemoryStore) (new : StoreRecord) → new ≡ written input (s.revision + 1) expires_at
      → Inv s'
      → s'.revision ≡ s.revision + 1
      → ((later : ℕ) (key : Text)
          → now ≤ later
          → view s' later key
            ≡ (if same_text input.key key then alive later (some new) else view s later key))
      → Writes s input resolved now expires_at (s', ok new)

module _ (s : MemoryStore) (now : ℕ) (v : Inv s) where
  store_write :
      (new : StoreRecord)
      → new.revision ≡ decimal (s.revision + 1)
      → s.revision < maximum_revision
      → Inv (record {
        records = set_record new (delete_keys (expired_keys now s.records) s.records);
        revision = s.revision + 1;
      })
  store_write new e h =
      let rest = delete_keys (expired_keys now s.records) s.records in
      record {
        unique =
            set_record-Unique new rest
              (delete_keys-Unique (expired_keys now s.records) s.records v.unique);
        issued = Issued-set_record (s.revision + 1) (s.revision + 1) new rest e (omega arith) (
            Issued-delete_keys (s.revision + 1) (expired_keys now s.records) s.records
              (Issued-mono s.revision (s.revision + 1) s.records (omega arith) v.issued));
        bounded = omega arith;
      }

  view_write :
      (new : StoreRecord) (later : ℕ) (key : Text)
      → now ≤ later
      → alive later (get key (set_record new (delete_keys (expired_keys now s.records) s.records)))
        ≡ (if same_text new.key key then alive later (some new) else view s later key)
  view_write new later key h =
      rw (get-set_record, get-purged key now s.records v.unique)
        (ground (arith, alive-alive now later (get key s.records) h))

  pub next_revision-cases :
      ((next_revision s ≡ throw range_error) × (s.revision ≡ maximum_revision))
      ⊎ ((next_revision s ≡ ok (s.revision + 1)) × (s.revision < maximum_revision))
  unfolding next_revision
  next_revision-cases = ground (arith, v.bounded)

  -- A write to a valid store does what `Writes` says.
  pub write_at-Writes :
      (input : Input) (resolved : WriteOptions) (expires_at : Option ℕ)
      → Writes s input resolved now expires_at (write_at s input resolved now expires_at)
  unfolding write_at
  write_at-Writes input resolved expires_at =
      let found = view s now input.key in
      rw (visible-alive input.key now s.records v.unique)
        (elim (Bool-cases (admits_absent resolved.if_absent found)) [
          | inr taken ↦ rw taken (conflicts (rw taken))
          | inl free ↦ rw free (elim (Bool-cases (admits_revision resolved.if_revision found)) [
            | inr wrong ↦ rw wrong (conflicts (rw (free, wrong)))
            | inl right ↦ rw right (elim next_revision-cases [
              | inl (e, full) ↦ rw e (Writes.no_revision (rw (free, right)) full)
              | inr (e, room) ↦
                  let new = written input (s.revision + 1) expires_at in
                  rw e (
                    stores (rw (free, right)) _ new refl (store_write new refl room) refl
                      (view_write new))
            ])
          ])
        ])
