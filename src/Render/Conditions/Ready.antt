-- ===== src/Render/Conditions/Ready.antt =====
-- render.go, checkConditions and getDataInput against a description of what they test.
use oam_kubernetes_runtime.Base.{
  GoString, ◌==◌, ==_iff, ==_refl, Bool, true, false, Option, none, some, List, [], ◌∷◌, Result, ok,
  err, ◌≡◌, refl, ◌≢◌, ◌↔◌, inl, inr, arith, All, ap, subst, subst₂, sym, ◌∙◌, ok_inj, Option-cases,
}
use oam_kubernetes_runtime.Api.{ConditionRequirement}
use oam_kubernetes_runtime.Api.Value.{Value, null, bool, number, str, slice, object, Unstructured}
use oam_kubernetes_runtime.Api.Fieldpath.{Got, found, missing, failed, Fieldpath, Reader}
use oam_kubernetes_runtime.Render.Conditions.{
  condition_equal, condition_not_equal, condition_not_empty, check_operator, DagSource, ready,
  get_check_val, get_expect_val, check_condition, check_conditions, match_value, match_raw,
  of_match, read_source, is_trivial, get_data_input,
}

-- What an operator asks of the expected and the actual value.
abbrev pub Holds : GoString → GoString → GoString → Type 0
Holds op expect val =
    (op ≡ condition_equal → expect ≡ val)
    × (op ≡ condition_not_equal → expect ≢ val)
    × (op ≡ condition_not_empty → val ≢ [])

operators_differ :
    ((condition_not_equal == condition_equal) ≡ false)
    × ((condition_not_empty == condition_equal) ≡ false)
    × ((condition_not_empty == condition_not_equal) ≡ false)
unfolding ◌==◌
operators_differ = (refl, refl, refl)

equal-none :
    (expect val : GoString) → check_operator condition_equal expect val ≡ none → expect ≡ val
unfolding check_operator
equal-none expect val h = ground (arith, ==_refl condition_equal, ==_iff expect val)

not_equal-none :
    (expect val : GoString) → check_operator condition_not_equal expect val ≡ none → expect ≢ val
unfolding check_operator
not_equal-none expect val h e =
    ground (arith, ==_refl condition_not_equal, operators_differ.0, ==_iff expect val)

not_empty-none :
    (expect val : GoString) → check_operator condition_not_empty expect val ≡ none → val ≢ []
unfolding check_operator
not_empty-none expect val h e =
    ground (arith, ==_refl condition_not_empty, operators_differ.1, operators_differ.2)

check_operator-Holds :
    (op expect val : GoString) → (check_operator op expect val ≡ none) ↔ Holds op expect val
unfolding check_operator
check_operator-Holds op expect val = (
  λ h. (
    λ e. equal-none expect val (subst (λ o. check_operator o expect val ≡ none) e h),
    λ e. not_equal-none expect val (subst (λ o. check_operator o expect val ≡ none) e h),
    λ e. not_empty-none expect val (subst (λ o. check_operator o expect val ≡ none) e h),
  ),
  λ h. ground (
    arith,
    ==_iff op condition_equal,
    ==_iff op condition_not_equal,
    ==_iff op condition_not_empty,
    ==_iff expect val,
  ),
)

module _ (fp : Fieldpath) (paved : Unstructured) (val : Option GoString) (ac : Unstructured) where
  -- Both values can be had, and the operator holds between them.
  abbrev pub Satisfied : ConditionRequirement → Type 0
  Satisfied m =
      (check : GoString) × (expect : GoString) × (get_check_val fp m paved val ≡ ok check)
      × (get_expect_val fp m ac ≡ ok expect)
      × Holds m.operator expect check

  check_condition-Satisfied :
      (m : ConditionRequirement) → (check_condition fp m paved val ac ≡ none) ↔ Satisfied m
  unfolding check_condition
  check_condition-Satisfied m = by_check (get_check_val fp m paved val) refl
    where
      by_expect :
          (check : GoString) (e : Result GoString GoString)
          → get_check_val fp m paved val ≡ ok check
          → get_expect_val fp m ac ≡ e
          → (check_condition fp m paved val ac ≡ none) ↔ Satisfied m
      by_expect check (err x) p q =
          (λ h. absurd (ground (arith, p, q)), λ h. absurd (ground (arith, q, h.3)))
      by_expect check (ok expect) p q = (
        λ h. (
          check,
          expect,
          p,
          q,
          (check_operator-Holds m.operator expect check).0 (rw (p, q, check_condition) at h),
        ),
        λ h.
            rw (p, q, check_condition)
              ((check_operator-Holds m.operator expect check).1 (cast p q h)),
      )
        where
          cast :
              get_check_val fp m paved val ≡ ok check
              → get_expect_val fp m ac ≡ ok expect
              → Satisfied m
              → Holds m.operator expect check
          cast p q h = subst₂ (Holds m.operator) (ok_inj (sym h.3 ∙ q)) (ok_inj (sym h.2 ∙ p)) h.4

      by_check :
          (c : Result GoString GoString)
          → get_check_val fp m paved val ≡ c
          → (check_condition fp m paved val ac ≡ none) ↔ Satisfied m
      by_check (err x) p = (λ h. absurd (ground (arith, p)), λ h. absurd (ground (arith, p, h.2)))
      by_check (ok check) p = by_expect check (get_expect_val fp m ac) p refl

  -- The conditions pass exactly if each of them holds.
  pub check_conditions-Satisfied :
      (conds : List ConditionRequirement)
      → ((check_conditions fp conds paved val ac).0 ≡ true) ↔ All Satisfied conds
  unfolding check_conditions
  check_conditions-Satisfied [] = (λ h. tt, λ h. refl)
  check_conditions-Satisfied (m ∷ conds) = elim (Option-cases (check_condition fp m paved val ac)) [
    | inl e ↦ (
      λ h. (
        (check_condition-Satisfied m).0 e,
        (check_conditions-Satisfied conds).0 (rw (e, check_conditions) at h),
      ),
      λ h. rw (e, check_conditions) ((check_conditions-Satisfied conds).1 h.1),
    )
    | inr (r, e) ↦ (
      λ h. absurd (ground (arith, e)),
      λ h. absurd (ground (arith, e, (check_condition-Satisfied m).1 h.0)),
    )
  ]

ready_inj : {a b : Value} → ready a ≡ ready b → a ≡ b
ready_inj h = cc

found_inj : {A : Type 0} {a b : A} → found a ≡ found b → a ≡ b
found_inj h = cc

module _ (fp : Fieldpath) (u ac : Unstructured) where
  -- What the conditions ask of the value that was read: of a string, that it is not empty where
  -- there is no condition, and that the conditions hold of it; of any other value, that the
  -- conditions hold, which then must name a field path.
  abbrev pub Accepts : List ConditionRequirement → Value → Type 0
  Accepts conds (str s) = (conds ≡ [] → s ≢ []) × All (Satisfied fp u (some s) ac) conds
  Accepts conds v = All (Satisfied fp u none ac) conds

  match_value-Accepts :
      (conds : List ConditionRequirement) (s : GoString)
      → ((match_value fp conds s u ac).0 ≡ true) ↔ Accepts conds (str s)
  unfolding match_value
  match_value-Accepts [] [] = (λ h. absurd (cc), λ h. absurd (h.0 refl refl))
  match_value-Accepts [] (x ∷ s) = (λ h. (λ _ e. cc, tt), λ h. refl)
  match_value-Accepts (m ∷ conds) s =
      let same = check_conditions-Satisfied fp u (some s) ac (m ∷ conds) in
      (λ h. (λ e. absurd (cc), same.0 h), λ h. same.1 h.1)

  match_raw-Accepts :
      (conds : List ConditionRequirement) (v : Value)
      → ((match_raw fp conds v u ac).0 ≡ true) ↔ Accepts conds v
  unfolding match_raw
  match_raw-Accepts conds (str s) = match_value-Accepts conds s
  match_raw-Accepts conds null = check_conditions-Satisfied fp u none ac conds
  match_raw-Accepts conds (bool b) = check_conditions-Satisfied fp u none ac conds
  match_raw-Accepts conds (number n) = check_conditions-Satisfied fp u none ac conds
  match_raw-Accepts conds (slice l) = check_conditions-Satisfied fp u none ac conds
  match_raw-Accepts conds (object o) = check_conditions-Satisfied fp u none ac conds

  of_match-ready :
      (raw v : Value) (r : Bool × GoString)
      → (of_match fp raw r ≡ ready v) ↔ ((r.0 ≡ true) × (raw ≡ v))
  unfolding of_match
  of_match-ready raw v (true, t) = (λ h. (refl, ready_inj h), λ h. ap ready h.1)
  of_match-ready raw v (false, t) = (λ h. absurd (cc), λ h. absurd (cc))

  read_source-ready :
      (s : DagSource) (v : Value)
      → (read_source fp s u ac ≡ ready v)
        ↔ ((fp.get_value u s.object_ref.field_path ≡ found v) × Accepts s.conditions v)
  unfolding read_source
  read_source-ready s v = by_value (fp.get_value u s.object_ref.field_path) refl
    where
      by_value :
          (g : Got Value)
          → fp.get_value u s.object_ref.field_path ≡ g
          → (read_source fp s u ac ≡ ready v)
            ↔ ((fp.get_value u s.object_ref.field_path ≡ found v) × Accepts s.conditions v)
      by_value missing e = (λ h. absurd (ground (arith, e)), λ h. absurd (ground (arith, e, h.0)))
      by_value (failed t) e =
          (λ h. absurd (ground (arith, e)), λ h. absurd (ground (arith, e, h.0)))
      by_value (found raw) e = (
        λ h.
            let (passed, same) =
              (of_match-ready raw v (match_raw fp s.conditions raw u ac)).0
                (rw (e, read_source) at h) in
            (
              e ∙ ap found same,
              subst (Accepts s.conditions) same ((match_raw-Accepts s.conditions raw).0 passed),
            ),
        λ h.
            let same = found_inj (sym e ∙ h.0) in
            rw (e, read_source)
              ((of_match-ready raw v (match_raw fp s.conditions raw u ac)).1 (
                (match_raw-Accepts s.conditions raw).1
                    (subst (Accepts s.conditions) (sym same) h.1),
                same,
              )),
      )

-- A source that asks for something is ready with a value exactly if its object is found, the value
-- stands at its field path, and the conditions accept it.
pub get_data_input-ready :
    (fp : Fieldpath) (client : Reader) (s : DagSource) (ac : Unstructured) (v : Value)
    → is_trivial s ≡ false
    → let ref = s.object_ref in
      (get_data_input fp client s ac false ≡ ready v) ↔ (
        (u : Unstructured) × (client.get ref.api_version ref.kind ref.namespace ref.name ≡ found u)
        × (fp.get_value u ref.field_path ≡ found v)
        × Accepts fp u ac s.conditions v)
unfolding get_data_input
get_data_input-ready fp client s ac v asks =
    by_object
      (client.get s.object_ref.api_version s.object_ref.kind s.object_ref.namespace
        s.object_ref.name)
      refl
  where
    open s use {object_ref as ref}

    by_object :
        (g : Got Unstructured)
        → client.get ref.api_version ref.kind ref.namespace ref.name ≡ g
        → (get_data_input fp client s ac false ≡ ready v) ↔ (
            (u : Unstructured) × (client.get ref.api_version ref.kind ref.namespace ref.name
              ≡ found u)
            × (fp.get_value u ref.field_path ≡ found v)
            × Accepts fp u ac s.conditions v)
    by_object missing e =
        (λ h. absurd (ground (arith, asks, e)), λ h. absurd (ground (arith, e, h.1)))
    by_object (failed t) e =
        (λ h. absurd (ground (arith, asks, e)), λ h. absurd (ground (arith, e, h.1)))
    by_object (found u) e = (
      λ h.
          let (at, accepts) =
            (read_source-ready fp u ac s v).0 (rw (asks, e, get_data_input) at h) in
          (u, e, at, accepts),
      λ h.
          let same = found_inj (sym h.1 ∙ e) in
          rw (asks, e, get_data_input)
            ((read_source-ready fp u ac s v).1 (
              subst
                (λ w. (fp.get_value w ref.field_path ≡ found v) × Accepts fp w ac s.conditions v)
                same (h.2, h.3))),
    )
