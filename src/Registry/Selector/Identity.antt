-- ===== src/Registry/Selector/Identity.antt =====
-- packages/registry/src/selector.ts: service endpoints and the identities that tell them apart. A
-- string is a list of code points, and `length` counts the code units of it.
use mathlib.Core.List.{append_assoc, append-nil}
use go_like.Prelude.{
  ℕ, zero, suc, ◌+◌, ◌-◌, ◌*◌, ◌/◌, ◌%◌, ◌<◌, ◌≡◌, refl, sym, ap, ◌∙◌, arith, ltb, List, [], ◌∷◌,
  ◌++◌, Text, Bool-cases, inl, inr, if◌then◌else◌, Free,
}

pub record ServiceInstance : Type 0 where
  pub id : Text
  pub name : Text
  pub version : Text
  pub metadata : List (Text × Text)
  pub endpoints : List Text

pub record ServiceEndpoint : Type 0 where
  pub instance_of : ServiceInstance
  pub url : Text

unfoldable pub endpoints_at : ServiceInstance → List Text → List ServiceEndpoint
endpoints_at i [] = []
endpoints_at i (url ∷ urls) = record { instance_of = i; url = url } ∷ endpoints_at i urls

unfoldable pub service_endpoints : List ServiceInstance → List ServiceEndpoint
unfolding endpoints_at
service_endpoints [] = []
service_endpoints (i ∷ is) = endpoints_at i i.endpoints ++ service_endpoints is

-- The decimal of a number, by as many digits at most as the fuel; a number has fewer digits than
-- its successor counts.
unfoldable pub decimal_digits : ℕ → ℕ → Text
decimal_digits zero n = []
decimal_digits (suc fuel) n =
    let front = decimal_digits fuel (n / 10) in
    if ltb n 10 then (48 + n) ∷ [] else front ++ (48 + n % 10) ∷ []

unfoldable pub decimal : ℕ → Text
unfolding decimal_digits
decimal n = decimal_digits (suc n) n

-- `text.length`
unfoldable pub code_units : Text → ℕ
code_units [] = 0
code_units (c ∷ cs) = (if ltb 65535 c then 2 else 1) + code_units cs

-- `` `${text.length}:${text}` ``
unfoldable pub counted : Text → Text
unfolding decimal code_units
counted text = decimal (code_units text) ++ (58 ∷ text)

unfoldable pub service_tuple_identity : ServiceInstance → Text
unfolding counted
service_tuple_identity i = counted i.name ++ counted i.version

unfoldable pub endpoint_identity : ServiceEndpoint → Text
unfolding counted
endpoint_identity e =
    counted e.instance_of.name
    ++ (counted e.instance_of.version ++ (counted e.instance_of.id ++ counted e.url))

-- Reading a decimal.
number_of : ℕ → Text → ℕ
number_of n [] = n
number_of n (c ∷ cs) = number_of (n * 10 + (c - 48)) cs

number_of-append : (n : ℕ) (xs ys : Text) → number_of n (xs ++ ys) ≡ number_of (number_of n xs) ys
unfolding number_of
number_of-append n [] ys = refl
number_of-append n (x ∷ xs) ys = number_of-append (n * 10 + (x - 48)) xs ys

number_of-decimal_digits : (fuel n : ℕ) → n < fuel → number_of 0 (decimal_digits fuel n) ≡ n
unfolding number_of decimal_digits
number_of-decimal_digits zero n h = absurd (omega arith)
number_of-decimal_digits (suc fuel) n h = elim (Bool-cases (ltb n 10)) [
  | inl small ↦ rw (small, decimal_digits) (omega arith)
  | inr large ↦
      rw (large, decimal_digits)
        (number_of-append 0 (decimal_digits fuel (n / 10)) _
          ∙ omega (arith, number_of-decimal_digits fuel (n / 10) (ground arith)))
]

Free-append : (c : ℕ) (xs ys : Text) → Free c xs → Free c ys → Free c (xs ++ ys)
Free-append c [] ys h k = k
Free-append c (x ∷ xs) ys h k = (h.0, Free-append c xs ys h.1 k)

decimal_digits-Free : (fuel n : ℕ) → Free 58 (decimal_digits fuel n)
unfolding decimal_digits
decimal_digits-Free zero n = tt
decimal_digits-Free (suc fuel) n = elim (Bool-cases (ltb n 10)) [
  | inl small ↦ rw (small, decimal_digits) ((λ e. ground arith), tt)
  | inr large ↦
      rw (large, decimal_digits)
        (Free-append 58 (decimal_digits fuel (n / 10)) _ (decimal_digits-Free fuel (n / 10))
          ((λ e. omega arith), tt))
]

decimal-injective : (m n : ℕ) → decimal m ≡ decimal n → m ≡ n
unfolding decimal
decimal-injective m n e =
    sym (number_of-decimal_digits (suc m) m (omega arith))
    ∙ ap (number_of 0) e
    ∙ number_of-decimal_digits (suc n) n (omega arith)

-- Texts without a separator, in front of one, are told apart from what is behind.
Free-cut :
    (c : ℕ) (xs ys rest more : Text)
    → Free c xs
    → Free c ys
    → xs ++ (c ∷ rest) ≡ ys ++ (c ∷ more)
    → (xs ≡ ys) × (rest ≡ more)
Free-cut c [] [] rest more h k e = (refl, cc)
Free-cut c [] (y ∷ ys) rest more h k e = absurd (k.0 (sym cc))
Free-cut c (x ∷ xs) [] rest more h k e = absurd (h.0 cc)
Free-cut c (x ∷ xs) (y ∷ ys) rest more h k e =
    let (tails, behind) = Free-cut c xs ys rest more h.1 k.1 cc in (cc, behind)

-- Texts of as many code units, in front of anything.
code_units-cut :
    (xs ys rest more : Text)
    → code_units xs ≡ code_units ys
    → xs ++ rest ≡ ys ++ more
    → (xs ≡ ys) × (rest ≡ more)
unfolding code_units
code_units-cut [] [] rest more n e = (refl, e)
code_units-cut [] (y ∷ ys) rest more n e = absurd (ground arith)
code_units-cut (x ∷ xs) [] rest more n e = absurd (ground arith)
code_units-cut (x ∷ xs) (y ∷ ys) rest more n e =
    let heads : x ≡ y = cc in
    let (tails, behind) = code_units-cut xs ys rest more (ground (arith, heads)) cc in (cc, behind)

pub counted-cut :
    (xs ys rest more : Text) → counted xs ++ rest ≡ counted ys ++ more → (xs ≡ ys) × (rest ≡ more)
unfolding counted decimal
counted-cut xs ys rest more e =
    let m = code_units xs in
    let n = code_units ys in
    let e' : decimal m ++ (58 ∷ (xs ++ rest)) ≡ decimal n ++ (58 ∷ (ys ++ more)) =
      sym (append_assoc (decimal m) (58 ∷ xs) rest) ∙ e ∙ append_assoc (decimal n) (58 ∷ ys) more in
    let (sizes, behind) =
      Free-cut 58 (decimal m) (decimal n) (xs ++ rest) (ys ++ more) (decimal_digits-Free (suc m) m)
        (decimal_digits-Free (suc n) n) e' in
    code_units-cut xs ys rest more (decimal-injective m n sizes) behind

-- Endpoints with one identity have the same name, version, id and URL, whatever text they hold.
pub endpoint_identity-injective :
    (d e : ServiceEndpoint)
    → endpoint_identity d ≡ endpoint_identity e
    → (d.instance_of.name ≡ e.instance_of.name)
      × (d.instance_of.version ≡ e.instance_of.version)
      × (d.instance_of.id ≡ e.instance_of.id)
      × (d.url ≡ e.url)
unfolding endpoint_identity
endpoint_identity-injective d e h =
    let (names, h1) = counted-cut d.instance_of.name e.instance_of.name _ _ h in
    let (versions, h2) = counted-cut d.instance_of.version e.instance_of.version _ _ h1 in
    let (ids, h3) = counted-cut d.instance_of.id e.instance_of.id _ _ h2 in
    let (urls, _) =
      counted-cut d.url e.url [] []
        (append-nil (counted d.url) ∙ h3 ∙ sym (append-nil (counted e.url))) in
    (names, versions, ids, urls)
