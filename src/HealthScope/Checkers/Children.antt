-- ===== src/HealthScope/Checkers/Children.antt =====
-- healthscope.go, updateChildResourcesCondition: a containerized workload is as healthy as its
-- Deployment and its Service.
use oam_kubernetes_runtime.Base.{
  GoString, codes, ◌==◌, ==_iff, Bool, true, false, not, ◌&&◌, Bool-cases, Option, none, some, List,
  [], ◌∷◌, any, all, All, length, nat_eq, ok, is_ok, ok_inj, err-ne-ok, ◌≡◌, ◌≢◌, ◌↔◌, refl, sym,
  ap, ◌∙◌, arith, inl, inr,
}
use oam_kubernetes_runtime.Api.{TypedReference}
use oam_kubernetes_runtime.HealthScope.{WorkloadHealthCondition, status_healthy, status_unhealthy}
use oam_kubernetes_runtime.HealthScope.Checkers.{
  check_deployment_health, sub_conditions, merge_sub_conditions, update_child_resources_condition,
}
use oam_kubernetes_runtime.HealthScope.Objects.{HealthClient}

-- A child that is called a Deployment, and is not one of apps/v1.
pub is_misplaced : TypedReference → Bool
is_misplaced ref = ref.kind == codes "Deployment" && not (ref.api_version == codes "apps/v1")

is_some : Option WorkloadHealthCondition → Bool
is_some none = false
is_some (some r) = true

is_ok-merge_sub_conditions :
    (scs : List (Option WorkloadHealthCondition)) (r : WorkloadHealthCondition)
    → is_ok (merge_sub_conditions scs r) ≡ all is_some scs
unfolding merge_sub_conditions is_some all
is_ok-merge_sub_conditions [] r = refl
is_ok-merge_sub_conditions (none ∷ scs) r = refl
is_ok-merge_sub_conditions (some sc ∷ scs) r = is_ok-merge_sub_conditions scs _

-- The workload becomes healthy exactly if it was and each child is.
pub IsHealthyChild : Option WorkloadHealthCondition → Type 0
IsHealthyChild o =
    (sc : WorkloadHealthCondition) × (o ≡ some sc) × (sc.health_status ≡ status_healthy)

unhealthy-ne-healthy : status_unhealthy ≢ status_healthy
unhealthy-ne-healthy h = cc

some_inj : {A : Type 0} {a b : A} → ◌≡◌ {A = Option A} (some a) (some b) → a ≡ b
some_inj h = cc

merge_sub_conditions-healthy :
    (scs : List (Option WorkloadHealthCondition)) (r r' : WorkloadHealthCondition)
    → merge_sub_conditions scs r ≡ ok r'
    → (r'.health_status ≡ status_healthy)
      ↔ ((r.health_status ≡ status_healthy) × All IsHealthyChild scs)
unfolding merge_sub_conditions IsHealthyChild
merge_sub_conditions-healthy [] r r' e = (
  λ h. (ap (λ x. x.health_status) (ok_inj e) ∙ h, tt),
  λ h. ap (λ x. x.health_status) (sym (ok_inj e)) ∙ h.0,
)
merge_sub_conditions-healthy (none ∷ scs) r r' e = absurd (err-ne-ok _ _ e)
merge_sub_conditions-healthy (some sc ∷ scs) r r' e =
    elim (Bool-cases (sc.health_status == status_healthy)) [
      | inl h ↦
          let rest = merge_sub_conditions-healthy scs _ r' (rw (h, merge_sub_conditions) at e) in
          (
            λ k.
                let (a, b) = rest.0 k in
                (a, ((sc, refl, (==_iff sc.health_status status_healthy).0 h), b)),
            λ k. rest.1 (k.0, k.1.1),
          )
      | inr h ↦
          let rest = merge_sub_conditions-healthy scs _ r' (rw (h, merge_sub_conditions) at e) in
          (λ k. absurd (unhealthy-ne-healthy (rest.0 k).0), λ k. absurd (ne sc h k.1.0))
    ]
  where
    ne :
        (sc : WorkloadHealthCondition)
        → (sc.health_status == status_healthy) ≡ false
        → ¬ IsHealthyChild (some sc)
    ne sc h (sc', same, k) = absurd (
        ground (
          arith,
          h,
          (==_iff sc.health_status status_healthy).1
              (ap (λ x. x.health_status) (some_inj same) ∙ k),
        ))

module _ (cl : HealthClient) (namespace : GoString) where
  is_some-check_deployment_health :
      (ref : TypedReference)
      → (ref.kind == codes "Deployment") ≡ true
      → is_some (check_deployment_health cl namespace ref) ≡ not (is_misplaced ref)
  unfolding is_some check_deployment_health is_misplaced
  is_some-check_deployment_health ref e = ground (arith, e)

  all_some-sub_conditions :
      (refs : List TypedReference)
      → all is_some (sub_conditions cl namespace refs) ≡ not (any is_misplaced refs)
  unfolding sub_conditions any all is_some is_misplaced
  all_some-sub_conditions [] = refl
  all_some-sub_conditions (ref ∷ refs) =
      ground (arith, all_some-sub_conditions refs, is_some-check_deployment_health ref)

  -- The check of the children panics exactly if there are two of them and one is called a
  -- Deployment without being one of apps/v1.
  pub update_child_resources_condition-is_ok :
      (r : WorkloadHealthCondition) (ref : TypedReference) (refs : List TypedReference)
      → is_ok (update_child_resources_condition cl namespace r ref refs)
        ≡ not (nat_eq (length refs) 2 && any is_misplaced refs)
  unfolding update_child_resources_condition
  update_child_resources_condition-is_ok r ref refs = elim (Bool-cases (nat_eq (length refs) 2)) [
    | inl e ↦
        rw (e, update_child_resources_condition)
          (is_ok-merge_sub_conditions (sub_conditions cl namespace refs) r
            ∙ all_some-sub_conditions refs)
    | inr e ↦ rw (e, update_child_resources_condition) refl
  ]

  -- Without a panic a workload that was healthy so far stays healthy exactly if it has two children
  -- and every Deployment and Service among them is healthy.
  pub update_child_resources_condition-healthy :
      (r r' : WorkloadHealthCondition) (ref : TypedReference) (refs : List TypedReference)
      → r.health_status ≡ status_healthy
      → update_child_resources_condition cl namespace r ref refs ≡ ok r'
      → (r'.health_status ≡ status_healthy)
        ↔ ((length refs ≡ 2) × All IsHealthyChild (sub_conditions cl namespace refs))
  unfolding update_child_resources_condition
  update_child_resources_condition-healthy r r' ref refs healthy e =
      elim (Bool-cases (nat_eq (length refs) 2)) [
        | inl two ↦
            let merged =
              merge_sub_conditions-healthy (sub_conditions cl namespace refs) r r'
                (rw (two, update_child_resources_condition) at e) in
            (λ h. (ground (arith, two), (merged.0 h).1), λ h. merged.1 (healthy, h.1))
        | inr other ↦
            let same = ok_inj (rw (other, update_child_resources_condition) at e) in
            (
              λ h. absurd (unhealthy-ne-healthy (ap (λ x. x.health_status) same ∙ h)),
              λ h. absurd (ground (arith, other, h.0)),
            )
      ]
