-- ===== src/Registry/Selector/Domains.antt =====
-- packages/registry/src/selector.ts and snapshot.ts: the service domain of a snapshot, the filters,
-- and the bounded memory of selections by domain.
use go_like.Prelude.{
  ℕ, ◌≡◌, ap, ◌∙◌, Bool, true, false, ltb, leb, List, [], ◌∷◌, ◌++◌, Option, none, some, Text,
  same_text, same_text_refl, length, if◌then◌else◌, lookup, remove, assign, lookup-assign,
}
use go_like.Registry.Selector.Identity.{ServiceInstance, counted, service_tuple_identity}

-- `compareCodePoints`, as -1, 0 and 1
pub data Order : Type 0 where
  before same behind : Order

unfoldable pub compare_code_points : Text → Text → Order
compare_code_points [] [] = same
compare_code_points [] (y ∷ ys) = before
compare_code_points (x ∷ xs) [] = behind
compare_code_points (x ∷ xs) (y ∷ ys) =
    let rest = compare_code_points xs ys in
    if ltb x y then before else if ltb y x then behind else rest

unfoldable pub compare_service_tuples : ServiceInstance → ServiceInstance → Order
unfolding compare_code_points
compare_service_tuples left right = elim (compare_code_points left.name right.name) [
  | same ↦ compare_code_points left.version right.version
  | before ↦ before
  | behind ↦ behind
]

-- The map from the identity of a tuple to the last instance of it.
unfoldable pub unique_tuples :
    List (Text × ServiceInstance) → List ServiceInstance → List (Text × ServiceInstance)
unfolding assign service_tuple_identity
unique_tuples unique [] = unique
unique_tuples unique (i ∷ is) = unique_tuples (assign (service_tuple_identity i) i unique) is

unfoldable pub values : List (Text × ServiceInstance) → List ServiceInstance
values [] = []
values ((k, i) ∷ rest) = i ∷ values rest

abbrev is_behind : Order → Bool
is_behind behind = true
is_behind _ = false

-- `sort(compareServiceTuples)`, which is stable
unfoldable pub insert_tuple : ServiceInstance → List ServiceInstance → List ServiceInstance
unfolding compare_service_tuples
insert_tuple i [] = i ∷ []
insert_tuple i (j ∷ js) =
    let rest = insert_tuple i js in
    if is_behind (compare_service_tuples i j) then j ∷ rest else i ∷ j ∷ js

unfoldable pub sort_tuples : List ServiceInstance → List ServiceInstance
unfolding insert_tuple
sort_tuples [] = []
sort_tuples (i ∷ is) = insert_tuple i (sort_tuples is)

unfoldable pub joined_identities : List ServiceInstance → Text
unfolding counted service_tuple_identity
joined_identities [] = []
joined_identities (i ∷ is) = counted (service_tuple_identity i) ++ joined_identities is

unfoldable pub selection_domain : List ServiceInstance → Text
unfolding unique_tuples values sort_tuples joined_identities
selection_domain instances = joined_identities (sort_tuples (values (unique_tuples [] instances)))

-- `filterVersion` and `filterLabel`
unfoldable pub filter_version : Text → List ServiceInstance → List ServiceInstance
filter_version version [] = []
filter_version version (i ∷ is) =
    let rest = filter_version version is in if same_text i.version version then i ∷ rest else rest

abbrev pub has_label : Text → Option Text → Bool
has_label value none = false
has_label value (some found) = same_text found value

unfoldable pub filter_label : Text → Text → List ServiceInstance → List ServiceInstance
unfolding lookup
filter_label key value [] = []
filter_label key value (i ∷ is) =
    let rest = filter_label key value is in
    if has_label value (lookup key i.metadata) then i ∷ rest else rest

abbrev pub maximum_selection_domains : ℕ
maximum_selection_domains = 1024

module _ {ℓ} {A : Type ℓ} where
  -- The oldest domain goes when the map is full.
  unfoldable pub evicted : List (Text × A) → List (Text × A)
  evicted [] = []
  evicted ((k, a) ∷ rest) =
      if leb maximum_selection_domains (length ((k, a) ∷ rest)) then rest else (k, a) ∷ rest

  unfoldable pub remember_selection : List (Text × A) → Text → A → List (Text × A)
  unfolding remove evicted
  remember_selection selections domain selection =
      assign domain selection (evicted (remove domain selections))

  pub lookup-remember_selection :
      (selections : List (Text × A)) (domain : Text) (selection : A)
      → lookup domain (remember_selection selections domain selection) ≡ some selection
  unfolding remember_selection
  lookup-remember_selection selections domain selection =
      lookup-assign domain domain selection (evicted (remove domain selections))
      ∙ ap (λ b. if b then some selection else lookup domain (evicted (remove domain selections)))
          (same_text_refl domain)
