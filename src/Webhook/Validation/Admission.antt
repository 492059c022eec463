-- ===== src/Webhook/Validation/Admission.antt =====
-- validating_handler.go: which application configurations are admitted.
use oam_kubernetes_runtime.Base.{
  GoString, codes, ==_iff, true, ◌||◌, Bool-cases, List, [], ◌∷◌, ◌++◌, any, All, Any, is_nil, ◌≡◌,
  ◌↔◌, ◌⊎◌, refl, arith, inl, inr,
}
use oam_kubernetes_runtime.Api.{TraitDefinition, WorkloadDefinition}
use oam_kubernetes_runtime.Webhook.Validation.{
  ValidatingTrait, ValidatingComponent, ValidationError, validate_trait_object,
  validate_revision_name, is_version_enabled, validate_workload_name_for_versioning, applies,
  is_appliable, unappliable_traits, validate_trait_appliable_to_workload, first_errors,
  handle_validators,
}
use oam_kubernetes_runtime.Webhook.Validation.Parts.{
  prefix_drop, append_nil_iff, IsObject, IsNamedOnce, IsUnnamed, validate_trait_object-nil,
  validate_revision_name-nil, validate_workload_name_for_versioning-nil,
}

module _ (parse_group : GoString → GoString) where
  -- What an entry of a definition's list of workloads may say.
  Names : WorkloadDefinition → GoString → Type 0
  Names wd a =
      (a ≡ codes "*")
      ⊎ (a ≡ codes "*." ++ parse_group wd.reference.name)
      ⊎ (a ≡ wd.reference.name)
      ⊎ (a ≡ wd.name)

  pub Appliable : WorkloadDefinition → TraitDefinition → Type 0
  unfolding Names
  Appliable wd td = (td.applies_to_workloads ≡ []) ⊎ Any (Names wd) td.applies_to_workloads

  applies-Names :
      (wd : WorkloadDefinition) (a : GoString) → (applies parse_group wd a ≡ true) ↔ Names wd a
  unfolding applies Names
  applies-Names wd a = (
    λ h. ground (
      arith,
      h,
      ==_iff a (codes "*"),
      prefix_drop a (parse_group wd.reference.name),
      ==_iff wd.reference.name a,
      ==_iff wd.name a,
    ),
    λ h. ground (
      arith,
      h,
      ==_iff a (codes "*"),
      prefix_drop a (parse_group wd.reference.name),
      ==_iff wd.reference.name a,
      ==_iff wd.name a,
    ),
  )

  any-applies-Names :
      (wd : WorkloadDefinition) (xs : List GoString)
      → (any (applies parse_group wd) xs ≡ true) ↔ Any (Names wd) xs
  unfolding any
  any-applies-Names wd [] = (λ h. cc, λ h. absurd h)
  any-applies-Names wd (a ∷ xs) = (
    λ h. ground (arith, h, applies-Names wd a, any-applies-Names wd xs),
    λ h. ground (arith, h, applies-Names wd a, any-applies-Names wd xs),
  )

  is_appliable-Appliable :
      (wd : WorkloadDefinition) (td : TraitDefinition)
      → (is_appliable parse_group wd td ≡ true) ↔ Appliable wd td
  unfolding is_appliable Appliable
  is_appliable-Appliable wd td = by_list td.applies_to_workloads
    where
      by_list :
          (xs : List GoString)
          → ((is_nil xs || any (applies parse_group wd) xs) ≡ true)
            ↔ ((xs ≡ []) ⊎ Any (Names wd) xs)
      by_list [] = (λ h. inl refl, λ h. refl)
      by_list (a ∷ xs) = (
        λ h. inr ((any-applies-Names wd (a ∷ xs)).0 h),
        λ h. elim h [ inl e ↦ cc | inr k ↦ (any-applies-Names wd (a ∷ xs)).1 k ],
      )

  unappliable_traits-nil :
      (c : ValidatingComponent) (ts : List ValidatingTrait)
      → (unappliable_traits parse_group c ts ≡ [])
        ↔ All (λ t. Appliable c.workload_definition t.trait_definition) ts
  unfolding unappliable_traits
  unappliable_traits-nil c [] = (λ h. tt, λ h. refl)
  unappliable_traits-nil c (t ∷ ts) =
      elim (Bool-cases (is_appliable parse_group c.workload_definition t.trait_definition)) [
        | inl e ↦ rw e (
          λ h. (
            (is_appliable-Appliable c.workload_definition t.trait_definition).0 e,
            (unappliable_traits-nil c ts).0 h,
          ),
          λ h. (unappliable_traits-nil c ts).1 h.1,
        )
        | inr e ↦ rw e (
          λ h. cc,
          λ h. absurd (
              ground (
                arith,
                e,
                (is_appliable-Appliable c.workload_definition t.trait_definition).1 h.0,
              )),
        )
      ]

  validate_trait_appliable_to_workload-nil :
      (cs : List ValidatingComponent)
      → (validate_trait_appliable_to_workload parse_group cs ≡ [])
        ↔ All
            (λ c. All (λ t. Appliable c.workload_definition t.trait_definition) c.validating_traits)
            cs
  unfolding validate_trait_appliable_to_workload
  validate_trait_appliable_to_workload-nil [] = (λ h. tt, λ h. refl)
  validate_trait_appliable_to_workload-nil (c ∷ cs) =
      let both =
        append_nil_iff (unappliable_traits parse_group c c.validating_traits)
          (validate_trait_appliable_to_workload parse_group cs) in
      (
        λ h.
            let (a, b) = both.0 h in
            (
              (unappliable_traits-nil c c.validating_traits).0 a,
              (validate_trait_appliable_to_workload-nil cs).0 b,
            ),
        λ h. both.1 (
          (unappliable_traits-nil c c.validating_traits).1 h.0,
          (validate_trait_appliable_to_workload-nil cs).1 h.1,
        ),
      )

  first_errors-nil :
      (rest : List (List ValidationError)) (e : List ValidationError)
      → (first_errors (e ∷ rest) ≡ []) ↔ ((e ≡ []) × (first_errors rest ≡ []))
  unfolding first_errors
  first_errors-nil rest [] = (λ h. (refl, h), λ h. h.1)
  first_errors-nil rest (x ∷ e) = (λ h. cc, λ h. cc)

  no_errors : first_errors [] ≡ []
  unfolding first_errors
  no_errors = refl

  -- What the four validators ask of a component.
  pub Valid : ValidatingComponent → Type 0
  unfolding Appliable
  Valid c =
      All IsObject c.validating_traits
      × IsNamedOnce c
      × (is_version_enabled c.validating_traits ≡ true → IsUnnamed c)
      × All (λ t. Appliable c.workload_definition t.trait_definition) c.validating_traits

  All-Valid :
      (cs : List ValidatingComponent)
      → All Valid cs ↔ (
          All (λ c. All IsObject c.validating_traits) cs
          × All IsNamedOnce cs
          × All (λ c. is_version_enabled c.validating_traits ≡ true → IsUnnamed c) cs
          × All
              (λ c.
                All (λ t. Appliable c.workload_definition t.trait_definition) c.validating_traits)
              cs)
  unfolding Valid
  All-Valid [] = (λ h. (tt, tt, tt, tt), λ h. tt)
  All-Valid (c ∷ cs) = (
    λ h.
        let (a, b, d, e) = (All-Valid cs).0 h.1 in ((h.0.0, a), (h.0.1, b), (h.0.2, d), (h.0.3, e)),
    λ h. ((h.0.0, h.1.0, h.2.0, h.3.0), (All-Valid cs).1 (h.0.1, h.1.1, h.2.1, h.3.1)),
  )

  -- A configuration is admitted exactly if each component is valid: its traits have been mutated to
  -- objects with a type and apply to its workload, it is named by a component or a revision and
  -- not both, and if it is versioned neither its workload nor a parameter value sets a name.
  pub handle_validators-Valid :
      (cs : List ValidatingComponent) → (handle_validators parse_group cs ≡ []) ↔ All Valid cs
  unfolding handle_validators
  handle_validators-Valid cs =
      let objects = validate_trait_object cs in
      let names = validate_revision_name cs in
      let versioning = validate_workload_name_for_versioning cs in
      let traits = validate_trait_appliable_to_workload parse_group cs in
      let one = first_errors-nil (names ∷ versioning ∷ traits ∷ []) objects in
      let two = first_errors-nil (versioning ∷ traits ∷ []) names in
      let three = first_errors-nil (traits ∷ []) versioning in
      let four = first_errors-nil [] traits in
      (
        λ h. (All-Valid cs).1 (
          (validate_trait_object-nil cs).0 (one.0 h).0,
          (validate_revision_name-nil cs).0 (two.0 (one.0 h).1).0,
          (validate_workload_name_for_versioning-nil cs).0 (three.0 (two.0 (one.0 h).1).1).0,
          (validate_trait_appliable_to_workload-nil cs).0
              (four.0 (three.0 (two.0 (one.0 h).1).1).1).0,
        ),
        λ h.
            let (a, b, c, d) = (All-Valid cs).0 h in
            one.1 (
              (validate_trait_object-nil cs).1 a,
              two.1 (
                (validate_revision_name-nil cs).1 b,
                three.1 (
                  (validate_workload_name_for_versioning-nil cs).1 c,
                  four.1 ((validate_trait_appliable_to_workload-nil cs).1 d, no_errors),
                ),
              ),
            ),
      )
