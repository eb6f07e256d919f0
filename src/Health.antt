-- ===== src/Health.antt =====
-- packages/health/src/registry.ts: named liveness and readiness probes.
-- The registry, its two sets of names and the unregister functions that it has handed out are one
-- state; a set is a list without repetitions, and an unregister function is a number.
pub mod Report
pub mod History
mod Tests
use go_like.Prelude.{
  ℕ, zero, suc, Bool, true, false, not, ◌&&◌, ◌||◌, leb, ltb, ◌==◌, if◌then◌else◌, List, [], ◌∷◌,
  ◌++◌, Option, none, some, Result, ok, throw, Thrown, type_error, range_error, ◌>>=◌, ◌>>◌,
  require, Text, same_text, length,
}

pub data ProbeKind : Type 0 where
  live ready : ProbeKind

abbrev pub same_kind : ProbeKind → ProbeKind → Bool
same_kind live live = true
same_kind ready ready = true
same_kind _ _ = false

-- A probe is known by a number.
pub record Registration : Type 0 where
  pub kind : ProbeKind
  pub name : Text
  pub probe : ℕ
  pub timeout_ms : ℕ
  pub active : Bool

-- What an unregister function captures, with its `active` variable.
pub record Unregister : Type 0 where
  pub kind : ProbeKind
  pub name : Text
  pub active : Bool

pub record Registry : Type 0 where
  pub registrations : List Registration
  pub live_names : List Text
  pub ready_names : List Text
  pub handles : List Unregister

abbrev pub new_probe_registry : Registry
new_probe_registry = record { registrations = []; live_names = []; ready_names = []; handles = [] }

abbrev default_timeout_ms : ℕ
default_timeout_ms = 1000

assert_kind : Option ProbeKind → Result ProbeKind
assert_kind none = throw type_error
assert_kind (some kind) = ok kind

-- `/^[A-Za-z0-9._-]+$/`
abbrev between : ℕ → ℕ → ℕ → Bool
between low high c = leb low c && leb c high

unfoldable pub is_public : Text → Bool
is_public [] = true
is_public (c ∷ cs) =
    (between 65 90 c || between 97 122 c || between 48 57 c || c == 46 || c == 95 || c == 45)
    && is_public cs

assert_name : Option Text → Result Text
unfolding is_public
assert_name none = throw type_error
assert_name (some []) = throw type_error
assert_name (some (c ∷ cs)) = if is_public (c ∷ cs) then ok (c ∷ cs) else throw type_error

-- `timeoutMs`: absent, a finite number that is not negative, or another value
assert_timeout : Option (Option ℕ) → Result ℕ
assert_timeout none = ok default_timeout_ms
assert_timeout (some none) = throw range_error
assert_timeout (some (some timeout)) = ok timeout

unfoldable pub has : Text → List Text → Bool
has name [] = false
has name (n ∷ ns) = same_text n name || has name ns

-- `Set.prototype.delete`
unfoldable pub delete_name : Text → List Text → List Text
delete_name name [] = []
delete_name name (n ∷ ns) =
    let rest = delete_name name ns in if same_text n name then ns else n ∷ rest

abbrev pub names_of : ProbeKind → Registry → List Text
names_of live s = s.live_names
names_of ready s = s.ready_names

abbrev pub set_names : ProbeKind → List Text → Registry → Registry
set_names live names s = record s { live_names = names }
set_names ready names s = record s { ready_names = names }

pub record Arguments : Type 0 where
  pub kind : ProbeKind
  pub name : Text
  pub timeout_ms : ℕ

unfoldable pub register_arguments :
    Option ProbeKind → Option Text → Bool → Option (Option ℕ) → Result Arguments
unfolding assert_kind assert_name assert_timeout
register_arguments kind name callable timeout = do
  selected_kind ← assert_kind kind
  selected_name ← assert_name name
  require callable type_error
  timeout_ms ← assert_timeout timeout
  ok (record { kind = selected_kind; name = selected_name; timeout_ms = timeout_ms })

-- `register` behind its checks: the registry and the number of the unregister function.
unfoldable pub register_at : Registry → Arguments → ℕ → Registry × Result ℕ
unfolding has
register_at s a probe = if has a.name (names_of a.kind s) then (s, throw type_error) else (
  set_names a.kind (names_of a.kind s ++ a.name ∷ []) (record s {
    registrations =
        s.registrations
        ++ record {
          kind = a.kind;
          name = a.name;
          probe = probe;
          timeout_ms = a.timeout_ms;
          active = true;
        }
          ∷ [];
    handles = s.handles ++ record { kind = a.kind; name = a.name; active = true } ∷ [];
  }),
  ok (length s.handles),
)

unfoldable pub register :
    Registry → Option ProbeKind → Option Text → Bool → ℕ → Option (Option ℕ) → Registry × Result ℕ
unfolding register_arguments register_at
register s kind name callable probe timeout = elim (register_arguments kind name callable timeout) [
  | ok a ↦ register_at s a probe
  | throw e ↦ (s, throw e)
]

unfoldable pub handle_at : ℕ → List Unregister → Option Unregister
handle_at n [] = none
handle_at zero (h ∷ hs) = some h
handle_at (suc n) (h ∷ hs) = handle_at n hs

unfoldable pub deactivate : ℕ → List Unregister → List Unregister
deactivate n [] = []
deactivate zero (h ∷ hs) = record h { active = false } ∷ hs
deactivate (suc n) (h ∷ hs) = h ∷ deactivate n hs

-- `findIndex` and `splice`: without the first registration of a kind and a name
unfoldable pub splice : ProbeKind → Text → List Registration → List Registration
splice kind name [] = []
splice kind name (r ∷ rs) =
    let rest = splice kind name rs in
    if same_kind r.kind kind && same_text r.name name then rs else r ∷ rest

-- A call of an active unregister function.
unfoldable pub release : ℕ → Unregister → Registry → Registry
unfolding splice delete_name deactivate
release n h s = set_names h.kind (delete_name h.name (names_of h.kind s)) (record s {
  registrations = splice h.kind h.name s.registrations;
  handles = deactivate n s.handles;
})

-- A number that no unregister function has changes nothing.
unfoldable pub unregister : Registry → ℕ → Registry × Bool
unfolding handle_at release
unregister s n = elim (handle_at n s.handles) [
  | none ↦ (s, false)
  | some h ↦ if h.active then (release n h s, true) else (s, false)
]
