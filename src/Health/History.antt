-- ===== src/Health/History.antt =====
-- packages/health/src/registry.ts: what holds after any sequence of calls of a registry.
pub mod Handles
pub mod Checks
use go_like.Prelude.{
  ℕ, ◌≡◌, ◌↔◌, refl, ap, sym, ◌∙◌, inl, inr, arith, Bool, true, false, ◌&&◌, ◌||◌, if◌then◌else◌,
  Bool-cases, Result-cases, Option-cases, List, [], ◌∷◌, ◌++◌, Option, none, some, Result, Text,
  same_text, same_text_iff, same_text_refl, All,
}
use go_like.Health.{
  ProbeKind, live, ready, same_kind, Registration, Unregister, Registry, Arguments,
  new_probe_registry, has, delete_name, names_of, register_arguments, register_at, register,
  handle_at, splice, release, unregister,
}

pub data Call : Type 0 where
  registers : Option ProbeKind → Option Text → Bool → ℕ → Option (Option ℕ) → Call
  unregisters : ℕ → Call

unfoldable pub after : Call → Registry → Registry
after (registers kind name callable probe timeout) s =
    (register s kind name callable probe timeout).0
after (unregisters n) s = (unregister s n).0

unfoldable pub after_all : List Call → Registry → Registry
after_all [] s = s
after_all (call ∷ calls) s = after_all calls (after call s)

-- The names of a kind, in the order of registration.
unfoldable pub registered : ProbeKind → List Registration → List Text
registered kind [] = []
registered kind (r ∷ rs) =
    let rest = registered kind rs in if same_kind r.kind kind then r.name ∷ rest else rest

abbrev pub Once : List Text → Type 0
Once [] = Unit
Once (n ∷ ns) = (has n ns ≡ false) × Once ns

-- The sets of names are those of the registrations, none stands twice in one of them, and the
-- registrations are active.
pub record Inv (s : Registry) : Type 0 where
  pub live_mirror : s.live_names ≡ registered live s.registrations
  pub ready_mirror : s.ready_names ≡ registered ready s.registrations
  pub live_once : Once s.live_names
  pub ready_once : Once s.ready_names
  pub all_active : All (λ r. r.active ≡ true) s.registrations

same_kind_iff : (a b : ProbeKind) → (same_kind a b ≡ true) ↔ (a ≡ b)
same_kind_iff live live = (λ _. refl, λ _. refl)
same_kind_iff ready ready = (λ _. refl, λ _. refl)
same_kind_iff live ready = (λ e. absurd cc, λ e. absurd cc)
same_kind_iff ready live = (λ e. absurd cc, λ e. absurd cc)

registered-append :
    (kind : ProbeKind) (rs : List Registration) (r : Registration)
    → registered kind (rs ++ r ∷ [])
      ≡ (if same_kind r.kind kind then registered kind rs ++ r.name ∷ [] else registered kind rs)
unfolding registered
registered-append kind [] r = refl
registered-append kind (x ∷ xs) r = ground (arith, registered-append kind xs r)

registered-splice :
    (k kind : ProbeKind) (name : Text) (rs : List Registration)
    → registered k (splice kind name rs)
      ≡ (if same_kind kind k then delete_name name (registered k rs) else registered k rs)
unfolding registered splice delete_name
registered-splice k kind name [] = ground arith
registered-splice k kind name (r ∷ rs) = ground (
  arith,
  registered-splice k kind name rs,
  same_kind_iff r.kind kind,
  same_kind_iff r.kind k,
  same_kind_iff kind k,
)

has-append : (m n : Text) (ns : List Text) → has m (ns ++ n ∷ []) ≡ (has m ns || same_text n m)
unfolding has
has-append m n [] = ground arith
has-append m n (x ∷ xs) = ground (arith, has-append m n xs)

Once-append : (n : Text) (ns : List Text) → Once ns → has n ns ≡ false → Once (ns ++ n ∷ [])
unfolding has
Once-append n [] o h = (refl, tt)
Once-append n (x ∷ xs) o h = (
  ground (arith, has-append x n xs, same_text_iff n x, same_text_iff x n),
  Once-append n xs o.1 (ground arith),
)

has-delete_name :
    (m n : Text) (ns : List Text) → has m ns ≡ false → has m (delete_name n ns) ≡ false
unfolding has delete_name
has-delete_name m n [] h = refl
has-delete_name m n (x ∷ xs) h = ground (arith, has-delete_name m n xs)

Once-delete_name : (n : Text) (ns : List Text) → Once ns → Once (delete_name n ns)
unfolding delete_name
Once-delete_name n [] o = tt
Once-delete_name n (x ∷ xs) o = elim (Bool-cases (same_text x n)) [
  | inl e ↦ rw (e, delete_name) o.1
  | inr e ↦ rw (e, delete_name) ((has-delete_name x n xs o.0, Once-delete_name n xs o.1))
]
