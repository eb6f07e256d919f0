-- ===== src/Store/Memory/Table.antt =====
-- The Map of records of packages/store/memory/src/store.ts, as its operations see it.
use go_like.Prelude.{
  ℕ, ◌≤◌, ◌≡◌, refl, arith, Bool, true, false, ltb, not, if◌then◌else◌, List, [], ◌∷◌, Option, none,
  some, Text, same_text, same_text_iff,
}
use go_like.Store.{StoreRecord}
use go_like.Store.Memory.{
  is_expired_at, get, delete_key, delete_keys, set_record, expired_keys, is_expired, visible,
}

-- No key stands twice.
abbrev pub Unique : List StoreRecord → Type 0
Unique [] = Unit
Unique (r ∷ rs) = (get r.key rs ≡ none) × Unique rs

-- A record lives as long as the instant at which it expires lies ahead.
abbrev pub lives : ℕ → Option ℕ → Bool
lives now none = true
lives now (some expires_at) = ltb now expires_at

-- What is left of a record at an instant.
abbrev pub alive : ℕ → Option StoreRecord → Option StoreRecord
alive now none = none
alive now (some r) = if lives now r.expires_at then some r else none

pub get-delete_key :
    (k j : Text) (rs : List StoreRecord)
    → get k (delete_key j rs) ≡ (if same_text j k then none else get k rs)
unfolding get delete_key
get-delete_key k j [] = ground arith
get-delete_key k j (r ∷ rs) =
    ground (
      arith,
      get-delete_key k j rs,
      same_text_iff r.key j,
      same_text_iff r.key k,
      same_text_iff j k,
    )

pub get-set_record :
    (k : Text) (n : StoreRecord) (rs : List StoreRecord)
    → get k (set_record n rs) ≡ (if same_text n.key k then some n else get k rs)
unfolding get set_record
get-set_record k n [] = refl
get-set_record k n (r ∷ rs) = ground (
  arith,
  get-set_record k n rs,
  same_text_iff r.key n.key,
  same_text_iff r.key k,
  same_text_iff n.key k,
)

pub get-delete_keys :
    (k : Text) (ks : List Text) (rs : List StoreRecord)
    → get k (delete_keys ks rs) ≡ (if is_expired k ks then none else get k rs)
unfolding delete_keys is_expired
get-delete_keys k [] rs = refl
get-delete_keys k (j ∷ ks) rs =
    ground (arith, get-delete_keys k ks (delete_key j rs), get-delete_key k j rs)

pub delete_key-Unique : (j : Text) (rs : List StoreRecord) → Unique rs → Unique (delete_key j rs)
unfolding delete_key
delete_key-Unique j [] u = tt
delete_key-Unique j (r ∷ rs) u =
    ground (arith, get-delete_key r.key j rs, delete_key-Unique j rs u.1)

pub delete_keys-Unique :
    (ks : List Text) (rs : List StoreRecord) → Unique rs → Unique (delete_keys ks rs)
unfolding delete_keys
delete_keys-Unique [] rs u = u
delete_keys-Unique (j ∷ ks) rs u =
    delete_keys-Unique ks (delete_key j rs) (delete_key-Unique j rs u)

pub set_record-Unique :
    (n : StoreRecord) (rs : List StoreRecord) → Unique rs → Unique (set_record n rs)
unfolding set_record get
set_record-Unique n [] u = (refl, tt)
set_record-Unique n (r ∷ rs) u = ground (
  arith,
  get-set_record r.key n rs,
  set_record-Unique n rs u.1,
  same_text_iff r.key n.key,
  same_text_iff n.key r.key,
)

lives-not :
    (now : ℕ) (expires_at : Option ℕ) → lives now expires_at ≡ not (is_expired_at now expires_at)
unfolding is_expired_at
lives-not now none = refl
lives-not now (some t) = ground arith

is_expired_absent :
    (k : Text) (now : ℕ) (rs : List StoreRecord)
    → get k rs ≡ none
    → is_expired k (expired_keys now rs) ≡ false
unfolding get expired_keys is_expired
is_expired_absent k now [] h = refl
is_expired_absent k now (r ∷ rs) h = ground (arith, is_expired_absent k now rs)

-- The test by the list of expired keys finds the record that is alive.
pub visible-alive :
    (k : Text) (now : ℕ) (rs : List StoreRecord)
    → Unique rs
    → visible k (expired_keys now rs) rs ≡ alive now (get k rs)
unfolding get expired_keys is_expired
visible-alive k now [] u = refl
visible-alive k now (r ∷ rs) u = ground (
  arith,
  visible-alive k now rs u.1,
  is_expired_absent k now rs,
  same_text_iff r.key k,
  lives-not now r.expires_at,
)

-- Deleting the expired records leaves the others.
pub get-purged :
    (k : Text) (now : ℕ) (rs : List StoreRecord)
    → Unique rs
    → get k (delete_keys (expired_keys now rs) rs) ≡ alive now (get k rs)
get-purged k now rs u = rw (get-delete_keys, visible-alive k now rs u)

-- What has expired stays expired.
pub alive-alive :
    (now later : ℕ) (o : Option StoreRecord)
    → now ≤ later
    → alive later (alive now o) ≡ alive later o
unfolding is_expired_at
alive-alive now later none h = refl
alive-alive now later (some r) h = ground arith
