-- ===== src/Render/Params/Resolve.antt =====
-- render.go, resolve: when it succeeds, and what it returns then.
use oam_kubernetes_runtime.Base.{
  GoString, ◌==◌, ==_iff, Bool, true, not, Bool-cases, Option-cases, Option, none, some, List, [],
  ◌∷◌, Map, lookup, insert, lookup-insert, has_key, if◌then◌else◌, Result, ok, err, ◌>>=◌,
  >>=-eq-ok, err-ne-ok, ◌≡◌, refl, inl, inr, arith, All, all, any, all_congr, subst, ◌∙◌, ap, ◌||◌,
  ◌&&◌, is_ok, ok_inj, has_key-insert,
}
use oam_kubernetes_runtime.Api.{IntOrString, ComponentParameter, ComponentParameterValue}
use oam_kubernetes_runtime.Render.Params.{
  Parameter, ParamError, is_required, supported, set_values, set_paths, values, resolve,
}

-- The value of the last entry of that name.
pub last_value : GoString → List ComponentParameterValue → Option IntOrString
last_value n [] = none
last_value n (v ∷ cpv) = elim (last_value n cpv) [
  | some x ↦ some x
  | none ↦ if v.name == n then some v.value else none
]

-- The field paths of the last parameter of that name.
pub last_paths : GoString → List ComponentParameter → List GoString → List GoString
last_paths n [] paths = paths
last_paths n (p ∷ cp) paths = last_paths n cp (if p.name == n then p.field_paths else paths)

abbrev pub parameter_of : GoString → List ComponentParameter → Option IntOrString → Option Parameter
parameter_of n cp none = none
parameter_of n cp (some v) = some (record { name = n; value = v; field_paths = last_paths n cp [] })

pub find_parameter : GoString → List Parameter → Option Parameter
find_parameter n [] = none
find_parameter n (p ∷ ps) = if p.name == n then some p else find_parameter n ps

with_values : GoString → Option IntOrString → Map Parameter → Option Parameter
with_values n none m = lookup n m
with_values n (some v) m = some (record { name = n; value = v; field_paths = [] })

lookup-set_values :
    (known : Map Bool) (n : GoString) (cpv : List ComponentParameterValue) (m m' : Map Parameter)
    → set_values known cpv m ≡ ok m'
    → lookup n m' ≡ with_values n (last_value n cpv) m
unfolding set_values last_value with_values
lookup-set_values known n [] m m' h = ground arith
lookup-set_values known n (v ∷ cpv) m m' h = ground (
  arith,
  lookup-set_values known n cpv
      (insert v.name (record { name = v.name; value = v.value; field_paths = [] }) m) m',
  lookup-insert v.name n (record { name = v.name; value = v.value; field_paths = [] }) m,
  ==_iff v.name n,
)

with_paths : GoString → List ComponentParameter → Option Parameter → Option Parameter
with_paths n cp none = none
with_paths n cp (some q) = some (record q { field_paths = last_paths n cp q.field_paths })

lookup-set_paths :
    (n : GoString) (cp : List ComponentParameter) (m m' : Map Parameter)
    → set_paths cp m ≡ ok m'
    → lookup n m' ≡ with_paths n cp (lookup n m)
unfolding set_paths last_paths with_paths
lookup-set_paths n [] m m' h = ground arith
lookup-set_paths n (p ∷ cp) m m' h = elim (Option-cases (lookup p.name m)) [
  | inl e ↦ elim (Bool-cases (is_required p)) [
    | inl r ↦ absurd (err-ne-ok _ _ (rw (e, r, set_paths) at h))
    | inr r ↦
        lookup-set_paths n cp m m' (rw (e, r, set_paths) at h) ∙ ground (arith, e, ==_iff p.name n)
  ]
  | inr (q, e) ↦
      lookup-set_paths n cp _ m' (rw (e, set_paths) at h)
      ∙ ground (
        arith,
        e,
        ==_iff p.name n,
        lookup-insert p.name n (record q { field_paths = p.field_paths }) m,
      )
]

-- Every parameter stands in the map under its own name.
abbrev IsKeyed : Map Parameter → Type 0
IsKeyed m = All (λ kv. kv.1.name ≡ kv.0) m

insert-IsKeyed :
    (p : Parameter) (k : GoString) (m : Map Parameter)
    → p.name ≡ k
    → IsKeyed m
    → IsKeyed (insert k p m)
unfolding insert
insert-IsKeyed p k [] e h = (e, tt)
insert-IsKeyed p k ((j, w) ∷ m) e h = elim (Bool-cases (j == k)) [
  | inl same ↦ rw same (e, h.1)
  | inr other ↦ rw other (h.0, insert-IsKeyed p k m e h.1)
]

lookup-IsKeyed :
    (n : GoString) (m : Map Parameter) (q : Parameter)
    → IsKeyed m
    → lookup n m ≡ some q
    → q.name ≡ n
unfolding lookup
lookup-IsKeyed n [] q h e = cc
lookup-IsKeyed n ((j, w) ∷ m) q h e = ground (arith, ==_iff j n, lookup-IsKeyed n m q h.1)

set_values-IsKeyed :
    (known : Map Bool) (cpv : List ComponentParameterValue) (m m' : Map Parameter)
    → set_values known cpv m ≡ ok m'
    → IsKeyed m
    → IsKeyed m'
unfolding set_values
set_values-IsKeyed known [] m m' h k = subst IsKeyed (ok_inj h) k
set_values-IsKeyed known (v ∷ cpv) m m' h k = elim (Bool-cases (has_key v.name known)) [
  | inl e ↦
      set_values-IsKeyed known cpv _ m' (rw (e, set_values) at h) (insert-IsKeyed _ v.name m refl k)
  | inr e ↦ absurd (err-ne-ok _ _ (rw (e, set_values) at h))
]

set_paths-IsKeyed :
    (cp : List ComponentParameter) (m m' : Map Parameter)
    → set_paths cp m ≡ ok m'
    → IsKeyed m
    → IsKeyed m'
unfolding set_paths
set_paths-IsKeyed [] m m' h k = subst IsKeyed (ok_inj h) k
set_paths-IsKeyed (p ∷ cp) m m' h k = elim (Option-cases (lookup p.name m)) [
  | inl e ↦ elim (Bool-cases (is_required p)) [
    | inl r ↦ absurd (err-ne-ok _ _ (rw (e, r, set_paths) at h))
    | inr r ↦ set_paths-IsKeyed cp m m' (rw (e, r, set_paths) at h) k
  ]
  | inr (q, e) ↦
      set_paths-IsKeyed cp _ m' (rw (e, set_paths) at h)
        (insert-IsKeyed _ p.name m (lookup-IsKeyed p.name m q k e) k)
]

find_parameter-values :
    (n : GoString) (m : Map Parameter) → IsKeyed m → find_parameter n (values m) ≡ lookup n m
unfolding find_parameter values lookup
find_parameter-values n [] h = refl
find_parameter-values n ((j, q) ∷ m) h = ground (arith, find_parameter-values n m h.1)

parameter_of-with :
    (n : GoString) (cp : List ComponentParameter) (v : Option IntOrString)
    → with_paths n cp (with_values n v []) ≡ parameter_of n cp v
unfolding with_paths with_values lookup
parameter_of-with n cp none = refl
parameter_of-with n cp (some v) = refl

-- What a successful call returns: under each name that was supplied its last value, with the field
-- paths of the last parameter of that name; under any other name nothing.
pub find_parameter-resolve :
    (cp : List ComponentParameter) (cpv : List ComponentParameterValue) (ps : List Parameter)
    → resolve cp cpv ≡ ok ps
    → (n : GoString) → find_parameter n ps ≡ parameter_of n cp (last_value n cpv)
unfolding resolve
find_parameter-resolve cp cpv ps h n =
    let (set, e, h') = >>=-eq-ok (set_values (supported [] cp) cpv []) _ h in
    let (set', e', h'') = >>=-eq-ok (set_paths cp set) _ h' in
    let keyed = set_paths-IsKeyed cp set set' e' (set_values-IsKeyed _ cpv [] set e tt) in
    rw (← ok_inj h'') (
      find_parameter-values n set' keyed
      ∙ lookup-set_paths n cp set set' e'
      ∙ ap (with_paths n cp) (lookup-set_values _ n cpv [] set e)
      ∙ parameter_of-with n cp (last_value n cpv))

pub is_declared : List ComponentParameter → GoString → Bool
is_declared cp n = any (λ p. p.name == n) cp

pub is_supplied : List ComponentParameterValue → GoString → Bool
is_supplied cpv n = any (λ v. v.name == n) cpv

has_key-supported :
    (m : Map Bool) (cp : List ComponentParameter) (n : GoString)
    → has_key n (supported m cp) ≡ (is_declared cp n || has_key n m)
unfolding supported is_declared any
has_key-supported m [] n = refl
has_key-supported m (p ∷ cp) n =
    ground (arith, has_key-supported (insert p.name true m) cp n, has_key-insert p.name n true m)

has_key-supported_nil :
    (cp : List ComponentParameter) (n : GoString) → has_key n (supported [] cp) ≡ is_declared cp n
unfolding has_key lookup
has_key-supported_nil cp n = ground (arith, has_key-supported [] cp n)

set_values-is_ok :
    (known : Map Bool) (cpv : List ComponentParameterValue) (m : Map Parameter)
    → is_ok (set_values known cpv m) ≡ all (λ v. has_key v.name known) cpv
unfolding set_values all
set_values-is_ok known [] m = refl
set_values-is_ok known (v ∷ cpv) m = ground (
  arith,
  set_values-is_ok known cpv
      (insert v.name (record { name = v.name; value = v.value; field_paths = [] }) m),
)

has_key-set_values :
    (known : Map Bool) (n : GoString) (cpv : List ComponentParameterValue) (m m' : Map Parameter)
    → set_values known cpv m ≡ ok m'
    → has_key n m' ≡ (is_supplied cpv n || has_key n m)
unfolding set_values is_supplied any
has_key-set_values known n [] m m' h = ground arith
has_key-set_values known n (v ∷ cpv) m m' h = ground (
  arith,
  has_key-insert v.name n (record { name = v.name; value = v.value; field_paths = [] }) m,
  has_key-set_values known n cpv
      (insert v.name (record { name = v.name; value = v.value; field_paths = [] }) m) m',
)

has_key-set_values_nil :
    (known : Map Bool) (n : GoString) (cpv : List ComponentParameterValue) (m : Map Parameter)
    → set_values known cpv [] ≡ ok m
    → has_key n m ≡ is_supplied cpv n
unfolding has_key lookup
has_key-set_values_nil known n cpv m h = ground (arith, has_key-set_values known n cpv [] m h)

needed : Map Parameter → ComponentParameter → Bool
needed m p = not (is_required p) || has_key p.name m

has_key-overwrite :
    (k : GoString) (p : ComponentParameter) (q r : Parameter) (m : Map Parameter)
    → lookup k m ≡ some q
    → needed (insert k r m) p ≡ needed m p
unfolding needed has_key
has_key-overwrite k p q r m e = ground (arith, lookup-insert k p.name r m, ==_iff k p.name)

set_paths-is_ok :
    (cp : List ComponentParameter) (m : Map Parameter) → is_ok (set_paths cp m) ≡ all (needed m) cp
unfolding set_paths all needed has_key
set_paths-is_ok [] m = refl
set_paths-is_ok (p ∷ cp) m = elim (Option-cases (lookup p.name m)) [
  | inl e ↦ ground (arith, e, set_paths-is_ok cp m)
  | inr (q, e) ↦
      let same =
        all_congr _ (needed m)
          (λ x. has_key-overwrite p.name x q (record q { field_paths = p.field_paths }) m e) cp in
      ground (
        arith,
        e,
        set_paths-is_ok cp (insert p.name (record q { field_paths = p.field_paths }) m),
        same,
      )
]

needed_supplied :
    (cpv : List ComponentParameterValue) (m : Map Parameter)
    → ((n : GoString) → has_key n m ≡ is_supplied cpv n)
    → (p : ComponentParameter) → needed m p ≡ (not (is_required p) || is_supplied cpv p.name)
unfolding needed
needed_supplied cpv m h p = rw (h p.name)

-- The call succeeds exactly if every value supplied is of a declared parameter and every required
-- parameter is supplied.
pub resolve-is_ok :
    (cp : List ComponentParameter) (cpv : List ComponentParameterValue)
    → is_ok (resolve cp cpv) ≡ (
        all (λ v. is_declared cp v.name) cpv
        && all (λ p. not (is_required p) || is_supplied cpv p.name) cp)
unfolding resolve
resolve-is_ok cp cpv = resolve_by (set_values (supported [] cp) cpv []) refl
  where
    known : all (λ v. has_key v.name (supported [] cp)) cpv ≡ all (λ v. is_declared cp v.name) cpv
    known = all_congr _ _ (λ v. has_key-supported_nil cp v.name) cpv

    resolve_by :
        (r : Result ParamError (Map Parameter))
        → set_values (supported [] cp) cpv [] ≡ r
        → is_ok (r >>= λ set. set_paths cp set >>= λ set'. ok (values set')) ≡ (
            all (λ v. is_declared cp v.name) cpv
            && all (λ p. not (is_required p) || is_supplied cpv p.name) cp)
    resolve_by (err e) h = ground (arith, h, set_values-is_ok (supported [] cp) cpv [], known)
    resolve_by (ok m) h = ground (
      arith,
      h,
      set_values-is_ok (supported [] cp) cpv [],
      known,
      set_paths-is_ok cp m,
      all_congr (needed m) _
          (needed_supplied cpv m (λ n. has_key-set_values_nil (supported [] cp) n cpv m h)) cp,
    )
