-- ===== src/Health/History/Handles.antt =====
-- packages/health/src/registry.ts: the unregister functions.
use go_like.Prelude.{
  ℕ, zero, suc, ◌≡◌, sym, subst, refl, inl, inr, arith, true, false, Bool-cases, Result-cases,
  Option-cases, List, [], ◌∷◌, ◌++◌, some, Text,
}
use go_like.Health.{
  ProbeKind, live, ready, Unregister, Registry, Arguments, names_of, set_names, register_arguments,
  register_at, register, handle_at, deactivate, release, unregister, has,
}
use go_like.Health.History.{Call, registers, unregisters, after, after_all}

-- The unregister function of a number has been used.
pub record UsedUp (n : ℕ) (handles : List Unregister) : Type 0 where
  pub handle : Unregister
  pub there : handle_at n handles ≡ some handle
  pub inactive : handle.active ≡ false

handle_at-append :
    (n : ℕ) (hs : List Unregister) (new h : Unregister)
    → handle_at n hs ≡ some h
    → handle_at n (hs ++ new ∷ []) ≡ some h
unfolding handle_at
handle_at-append n [] new h e = absurd cc
handle_at-append zero (x ∷ xs) new h e = e
handle_at-append (suc n) (x ∷ xs) new h e = handle_at-append n xs new h e

deactivate-UsedUp : (n m : ℕ) (hs : List Unregister) → UsedUp n hs → UsedUp n (deactivate m hs)
unfolding handle_at deactivate
deactivate-UsedUp n m [] u = u
deactivate-UsedUp zero zero (x ∷ xs) u = record {
  handle = record x { active = false };
  there = refl;
  inactive = refl;
}
deactivate-UsedUp zero (suc m) (x ∷ xs) u = record {
  handle = u.handle;
  there = u.there;
  inactive = u.inactive;
}
deactivate-UsedUp (suc n) zero (x ∷ xs) u = record {
  handle = u.handle;
  there = u.there;
  inactive = u.inactive;
}
deactivate-UsedUp (suc n) (suc m) (x ∷ xs) u =
    let rest =
      deactivate-UsedUp n m xs
        (record { handle = u.handle; there = u.there; inactive = u.inactive }) in
    record { handle = rest.handle; there = rest.there; inactive = rest.inactive }

deactivated :
    (n : ℕ) (hs : List Unregister) (h : Unregister)
    → handle_at n hs ≡ some h
    → UsedUp n (deactivate n hs)
unfolding handle_at deactivate
deactivated n [] h e = absurd cc
deactivated zero (x ∷ xs) h e = record {
  handle = record x { active = false };
  there = refl;
  inactive = refl;
}
deactivated (suc n) (x ∷ xs) h e =
    let rest = deactivated n xs h e in
    record { handle = rest.handle; there = rest.there; inactive = rest.inactive }

handles-set_names :
    (kind : ProbeKind) (names : List Text) (s : Registry)
    → (set_names kind names s).handles ≡ s.handles
handles-set_names live names s = refl
handles-set_names ready names s = refl

register_at-UsedUp :
    (n : ℕ) (s : Registry) (a : Arguments) (probe : ℕ)
    → UsedUp n s.handles
    → UsedUp n (register_at s a probe).0.handles
unfolding register_at
register_at-UsedUp n s a probe u = elim (Bool-cases (has a.name (names_of a.kind s))) [
  | inl e ↦ rw (e, register_at) u
  | inr e ↦
      rw (e, register_at)
        (subst (UsedUp n) (sym (handles-set_names a.kind _ _)) (record {
          handle = u.handle;
          there = handle_at-append n s.handles _ u.handle u.there;
          inactive = u.inactive;
        }))
]

release-handles :
    (n : ℕ) (h : Unregister) (s : Registry) → (release n h s).handles ≡ deactivate n s.handles
unfolding release
release-handles n h s = handles-set_names h.kind _ _

after-UsedUp :
    (n : ℕ) (call : Call) (s : Registry) → UsedUp n s.handles → UsedUp n (after call s).handles
unfolding after register unregister
after-UsedUp n (registers kind name callable probe timeout) s u =
    elim (Result-cases (register_arguments kind name callable timeout)) [
      | inl (a, e) ↦ rw (e, after, register) (register_at-UsedUp n s a probe u)
      | inr (x, e) ↦ rw (e, after, register) u
    ]
after-UsedUp n (unregisters m) s u = elim (Option-cases (handle_at m s.handles)) [
  | inl e ↦ rw (e, after, unregister) u
  | inr (h, e) ↦
      rw (e, after, unregister)
        (elim (Bool-cases h.active) [
          | inl on ↦
              rw on
                (subst (UsedUp n) (sym (release-handles m h s)) (deactivate-UsedUp n m s.handles u))
          | inr off ↦ rw off u
        ])
]

after_all-UsedUp :
    (n : ℕ) (calls : List Call) (s : Registry)
    → UsedUp n s.handles
    → UsedUp n (after_all calls s).handles
unfolding after_all
after_all-UsedUp n [] s u = u
after_all-UsedUp n (call ∷ calls) s u =
    after_all-UsedUp n calls (after call s) (after-UsedUp n call s u)

refused :
    (s : Registry) (n : ℕ) (h : Unregister)
    → handle_at n s.handles ≡ some h
    → h.active ≡ false
    → (unregister s n).1 ≡ false
unfolding unregister
refused s n h e off = rw (e, unregister) (rw off refl)

unregister-UsedUp :
    (s : Registry) (n : ℕ) → (unregister s n).1 ≡ true → UsedUp n (unregister s n).0.handles
unfolding unregister
unregister-UsedUp s n t = elim (Option-cases (handle_at n s.handles)) [
  | inl e ↦ absurd (ground arith)
  | inr (h, e) ↦
      rw (e, unregister)
        (elim (Bool-cases h.active) [
          | inl on ↦
              rw on (subst (UsedUp n) (sym (release-handles n h s)) (deactivated n s.handles h e))
          | inr off ↦ absurd (let f = refused s n h e off in cc)
        ])
]

-- An unregister function that has returned true returns false ever after and changes nothing,
-- whatever calls come in between; so it never takes away a later registration of its name.
pub unregister_again :
    (s : Registry) (n : ℕ) (calls : List Call)
    → (unregister s n).1 ≡ true
    → unregister (after_all calls (unregister s n).0) n
      ≡ (after_all calls (unregister s n).0, false)
unfolding unregister
unregister_again s n calls t =
    let u = after_all-UsedUp n calls (unregister s n).0 (unregister-UsedUp s n t) in
    rw (u.there, unregister) (rw u.inactive refl)
