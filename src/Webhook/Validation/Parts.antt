-- ===== src/Webhook/Validation/Parts.antt =====
-- validating_handler.go and helper.go: what each validator of a component asks.
use oam_kubernetes_runtime.Base.{
  GoString, codes, ◌==◌, ==_iff, is_empty, has_prefix, contains, Bool, true, false, not, ◌&&◌, ◌||◌,
  Bool-cases, List, [], ◌∷◌, ◌++◌, any, All, drop, Map, insert, lookup, has_key, has_key-insert,
  if◌then◌else◌, ◌≡◌, ◌≢◌, ◌↔◌, ◌⊎◌, refl, arith, inl, inr,
}
use oam_kubernetes_runtime.Api.{ComponentParameter, ComponentParameterValue}
use oam_kubernetes_runtime.Webhook.Validation.{
  ValidatingTrait, ValidatingComponent, ValidationError, trait_name, trait_properties, missing_gvk,
  content_not_nil, trait_object_errors, validate_trait_object, validate_revision_name,
  workload_name_path, target_params, check_values, check_params, is_version_enabled,
  workload_name_errors, validate_workload_name_for_versioning,
}

-- A parameter of that name has a path to the workload's name.
pub sets_name : List ComponentParameter → GoString → Bool
sets_name cp n =
    any (λ p. p.name == n && any (λ fp. contains fp workload_name_path) p.field_paths) cp

has_key-target_params :
    (n : GoString) (cp : List ComponentParameter) (targets : Map Bool)
    → has_key n (target_params targets cp) ≡ (sets_name cp n || has_key n targets)
unfolding target_params sets_name any
has_key-target_params n [] targets = refl
has_key-target_params n (p ∷ cp) targets =
    elim (Bool-cases (any (λ fp. contains fp workload_name_path) p.field_paths)) [
      | inl e ↦ rw e (
          ground (
            arith,
            has_key-target_params n cp (insert p.name true targets),
            has_key-insert p.name n true targets,
          ))
      | inr e ↦ rw e (ground (arith, has_key-target_params n cp targets))
    ]

-- The parameters are accepted exactly if no value is for a parameter that sets the workload's name.
pub check_params-sets_name :
    (cp : List ComponentParameter) (cpv : List ComponentParameterValue)
    → (check_params cp cpv).0 ≡ not (any (λ v. sets_name cp v.name) cpv)
unfolding check_params check_values any has_key lookup
check_params-sets_name cp [] = refl
check_params-sets_name cp (v ∷ cpv) =
    ground (arith, check_params-sets_name cp cpv, has_key-target_params v.name cp [])

pub prefix_drop :
    (a g : GoString) → ((has_prefix a (codes "*.") && g == drop 2 a) ≡ true) ↔ (a ≡ codes "*." ++ g)
unfolding has_prefix
prefix_drop [] g = (λ h. cc, λ h. cc)
prefix_drop (x ∷ []) g = (λ h. ground (arith, h), λ h. cc)
prefix_drop (x ∷ y ∷ s) g = (λ h. ground (arith, h, ==_iff g s), λ h. ground (arith, h, ==_iff g s))

pub append_nil_iff : {A : Type 0} (xs ys : List A) → ((xs ++ ys) ≡ []) ↔ ((xs ≡ []) × (ys ≡ []))
append_nil_iff [] ys = (λ h. (refl, h), λ h. h.1)
append_nil_iff (x ∷ xs) ys = (λ h. absurd (cons_ne_nil _ _ h), λ h. absurd (cons_ne_nil _ _ h.0))
  where
    cons_ne_nil : {A : Type 0} (x : A) (xs : List A) → (x ∷ xs) ≢ []
    cons_ne_nil x xs h = cc

is_empty_iff : (s : GoString) → (is_empty s ≡ true) ↔ (s ≡ [])
is_empty_iff [] = (λ h. refl, λ h. refl)
is_empty_iff (c ∷ s) = (λ h. cc, λ h. cc)

-- What the validators of the traits' objects, of the names and of versioning ask.
abbrev pub IsObject : ValidatingTrait → Type 0
IsObject t =
    (content_not_nil (codes "name") t.trait_content.content ≡ false)
    × (content_not_nil (codes "properties") t.trait_content.content ≡ false)
    × (t.trait_content.api_version ≢ [])
    × (t.trait_content.kind ≢ [])

abbrev pub IsNamedOnce : ValidatingComponent → Type 0
IsNamedOnce c = (c.component_name ≡ []) ⊎ (c.revision_name ≡ [])

abbrev pub IsUnnamed : ValidatingComponent → Type 0
IsUnnamed c =
    (any (λ v. sets_name c.parameters v.name) c.parameter_values ≡ false)
    × (c.workload_content.name ≡ [])

if_nil_iff : (b : Bool) (e : ValidationError) → ((if b then e ∷ [] else []) ≡ []) ↔ (b ≡ false)
if_nil_iff true e = (λ h. cc, λ h. cc)
if_nil_iff false e = (λ h. refl, λ h. refl)

typed_iff :
    (v k : GoString)
    → ((if is_empty v || is_empty k then missing_gvk ∷ [] else []) ≡ []) ↔ ((v ≢ []) × (k ≢ []))
typed_iff [] k = (λ h. cc, λ h. absurd (h.0 refl))
typed_iff (x ∷ v) [] = (λ h. cc, λ h. absurd (h.1 refl))
typed_iff (x ∷ v) (y ∷ k) = (λ h. ((λ e. cc), (λ e. cc)), λ h. refl)

trait_object_errors-nil :
    (ts : List ValidatingTrait) → (trait_object_errors ts ≡ []) ↔ All IsObject ts
unfolding trait_object_errors
trait_object_errors-nil [] = (λ h. tt, λ h. refl)
trait_object_errors-nil (t ∷ ts) =
    let u = t.trait_content in
    let name = if content_not_nil (codes "name") u.content then trait_name ∷ [] else [] in
    let properties =
      if content_not_nil (codes "properties") u.content then trait_properties ∷ [] else [] in
    let gvk = if is_empty u.api_version || is_empty u.kind then missing_gvk ∷ [] else [] in
    let one = append_nil_iff name (properties ++ (gvk ++ trait_object_errors ts)) in
    let two = append_nil_iff properties (gvk ++ trait_object_errors ts) in
    let three = append_nil_iff gvk (trait_object_errors ts) in
    (
      λ h.
          let (a, h') = one.0 h in
          let (b, h'') = two.0 h' in
          let (c, rest) = three.0 h'' in
          (
            (
              (if_nil_iff _ trait_name).0 a,
              (if_nil_iff _ trait_properties).0 b,
              ((typed_iff u.api_version u.kind).0 c).0,
              ((typed_iff u.api_version u.kind).0 c).1,
            ),
            (trait_object_errors-nil ts).0 rest,
          ),
      λ h. one.1 (
        (if_nil_iff _ trait_name).1 h.0.0,
        two.1 (
          (if_nil_iff _ trait_properties).1 h.0.1,
          three.1 (
            (typed_iff u.api_version u.kind).1 (h.0.2, h.0.3),
            (trait_object_errors-nil ts).1 h.1,
          ),
        ),
      ),
    )

pub validate_trait_object-nil :
    (cs : List ValidatingComponent)
    → (validate_trait_object cs ≡ []) ↔ All (λ c. All IsObject c.validating_traits) cs
unfolding validate_trait_object
validate_trait_object-nil [] = (λ h. tt, λ h. refl)
validate_trait_object-nil (c ∷ cs) =
    let both =
      append_nil_iff (trait_object_errors c.validating_traits) (validate_trait_object cs) in
    (
      λ h.
          let (a, b) = both.0 h in
          ((trait_object_errors-nil c.validating_traits).0 a, (validate_trait_object-nil cs).0 b),
      λ h. both.1 (
        (trait_object_errors-nil c.validating_traits).1 h.0,
        (validate_trait_object-nil cs).1 h.1,
      ),
    )

pub validate_revision_name-nil :
    (cs : List ValidatingComponent) → (validate_revision_name cs ≡ []) ↔ All IsNamedOnce cs
unfolding validate_revision_name
validate_revision_name-nil [] = (λ h. tt, λ h. refl)
validate_revision_name-nil (c ∷ cs) = (
  λ h. ground (
    arith,
    h,
    validate_revision_name-nil cs,
    is_empty_iff c.component_name,
    is_empty_iff c.revision_name,
  ),
  λ h. ground (
    arith,
    h,
    validate_revision_name-nil cs,
    is_empty_iff c.component_name,
    is_empty_iff c.revision_name,
  ),
)

workload_name_errors-nil : (c : ValidatingComponent) → (workload_name_errors c ≡ []) ↔ IsUnnamed c
unfolding workload_name_errors
workload_name_errors-nil c = (
  λ h. ground (
    arith,
    h,
    check_params-sets_name c.parameters c.parameter_values,
    is_empty_iff c.workload_content.name,
  ),
  λ h. ground (
    arith,
    h,
    check_params-sets_name c.parameters c.parameter_values,
    is_empty_iff c.workload_content.name,
  ),
)

pub validate_workload_name_for_versioning-nil :
    (cs : List ValidatingComponent)
    → (validate_workload_name_for_versioning cs ≡ [])
      ↔ All (λ c. is_version_enabled c.validating_traits ≡ true → IsUnnamed c) cs
unfolding validate_workload_name_for_versioning
validate_workload_name_for_versioning-nil [] = (λ h. tt, λ h. refl)
validate_workload_name_for_versioning-nil (c ∷ cs) =
    elim (Bool-cases (is_version_enabled c.validating_traits)) [
      | inl e ↦
          let both =
            append_nil_iff (workload_name_errors c) (validate_workload_name_for_versioning cs) in
          rw e (
            λ h.
                let (a, b) = both.0 h in
                (
                  (λ _. (workload_name_errors-nil c).0 a),
                  (validate_workload_name_for_versioning-nil cs).0 b,
                ),
            λ h. both.1 (
              (workload_name_errors-nil c).1 (h.0 refl),
              (validate_workload_name_for_versioning-nil cs).1 h.1,
            ),
          )
      | inr e ↦ rw e (
        λ h.
            ((λ k. absurd (ground (arith, k))), (validate_workload_name_for_versioning-nil cs).0 h),
        λ h. (validate_workload_name_for_versioning-nil cs).1 h.1,
      )
    ]
