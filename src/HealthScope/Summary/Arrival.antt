-- ===== src/HealthScope/Summary/Arrival.antt =====
-- healthscope_controller.go: what the counts of a health scope add up to.
use mathlib.Core.List.{Permᴰ}
use oam_kubernetes_runtime.Base.{
  ℕ, suc, ◌+◌, ◌==◌, ==_iff, ◌||◌, Bool-cases, List, [], ◌∷◌, length, if◌then◌else◌, ltb, Result,
  ok, >>=-eq-ok, ok_inj, All, ◌≡◌, ◌≢◌, ◌↔◌, refl, sym, ap, ◌∙◌, arith, inl, inr,
}
use oam_kubernetes_runtime.Api.{TypedReference}
use oam_kubernetes_runtime.HealthScope.{
  WorkloadHealthCondition, Panic, status_healthy, status_unhealthy,
}
use oam_kubernetes_runtime.HealthScope.Summary.{Steps, Counts, tick, count, scope_condition}
use oam_kubernetes_runtime.HealthScope.Summary.Order.{conditions, received-perm}

counted : Counts → ℕ
counted n = n.healthy + (n.unhealthy + n.unknown)

counted-tick : (n : Counts) (hc : WorkloadHealthCondition) → counted (tick n hc) ≡ suc (counted n)
unfolding counted tick
counted-tick n hc = ground arith

counted-count :
    (n : Counts) (hcs : List WorkloadHealthCondition)
    → counted (count n hcs) ≡ counted n + length hcs
unfolding count
counted-count n [] = omega arith
counted-count n (hc ∷ hcs) = omega (arith, counted-count (tick n hc) hcs, counted-tick n hc)

pub IsHealthy : WorkloadHealthCondition → Type 0
IsHealthy hc = hc.health_status ≡ status_healthy

bad : Counts → ℕ
bad n = n.unhealthy + n.unknown

bad-tick :
    (n : Counts) (hc : WorkloadHealthCondition)
    → (bad (tick n hc) ≡ 0) ↔ ((bad n ≡ 0) × IsHealthy hc)
unfolding bad tick IsHealthy
bad-tick n hc = elim (Bool-cases (hc.health_status == status_healthy)) [
  | inl e ↦ rw e (λ h. (h, (==_iff hc.health_status status_healthy).0 e), λ h. h.0)
  | inr e ↦ elim (Bool-cases (hc.health_status == status_unhealthy)) [
    | inl u ↦
        rw (e, u)
          (
            λ h. absurd (omega (arith, h)),
            λ h. absurd (ground (arith, e, (==_iff hc.health_status status_healthy).1 h.1)),
          )
    | inr u ↦
        rw (e, u)
          (
            λ h. absurd (omega (arith, h)),
            λ h. absurd (ground (arith, e, (==_iff hc.health_status status_healthy).1 h.1)),
          )
  ]
]

bad-count :
    (n : Counts) (hcs : List WorkloadHealthCondition)
    → (bad (count n hcs) ≡ 0) ↔ ((bad n ≡ 0) × All IsHealthy hcs)
unfolding count
bad-count n [] = (λ h. (h, tt), λ h. h.0)
bad-count n (hc ∷ hcs) = (
  λ h.
      let (t, rest) = (bad-count (tick n hc) hcs).0 h in
      let (b, now) = (bad-tick n hc).0 t in (b, (now, rest)),
  λ h. (bad-count (tick n hc) hcs).1 ((bad-tick n hc).1 (h.0, h.1.0), h.1.1),
)

length-perm : {xs ys : List WorkloadHealthCondition} → Permᴰ xs ys → length xs ≡ length ys
length-perm Permᴰ.nil = refl
length-perm (Permᴰ.cons e p) = ap suc (length-perm p)
length-perm (Permᴰ.swap e f) = refl
length-perm (Permᴰ.trans p q) = length-perm p ∙ length-perm q

module _ (condition : TypedReference → Result Panic WorkloadHealthCondition) where
  length-conditions :
      (refs : List TypedReference) (hcs : List WorkloadHealthCondition)
      → conditions condition refs ≡ ok hcs
      → length hcs ≡ length refs
  unfolding conditions
  length-conditions [] hcs e = ap length (sym (ok_inj e))
  length-conditions (ref ∷ refs) hcs e =
      let (c, at, e') = >>=-eq-ok (condition ref) _ e in
      let (cs, at', e'') = >>=-eq-ok (conditions condition refs) _ e' in
      ap length (sym (ok_inj e'')) ∙ ap suc (length-conditions refs cs at')

  unhealthy-ne-healthy : status_unhealthy ≢ status_healthy
  unhealthy-ne-healthy h = cc

  healthy_if_none_bad :
      (n : Counts)
      → ((if ltb 0 n.unhealthy || ltb 0 n.unknown then status_unhealthy else status_healthy)
          ≡ status_healthy)
        ↔ (bad n ≡ 0)
  unfolding bad
  healthy_if_none_bad n = elim (Bool-cases (ltb 0 n.unhealthy || ltb 0 n.unknown)) [
    | inl e ↦ rw e (λ h. absurd (unhealthy-ne-healthy h), λ h. absurd (ground (arith, e, h)))
    | inr e ↦ rw e (λ h. ground (arith, e), λ h. refl)
  ]

  no_counts : bad (record { healthy = 0; unhealthy = 0; unknown = 0 }) ≡ 0
  unfolding bad
  no_counts = omega arith

  -- When every workload has been heard of, each is counted once, so that the total is the sum of
  -- the counts, and the scope is healthy exactly if each workload is.
  pub scope_condition-counts :
      (refs : List TypedReference) (received : List WorkloadHealthCondition)
      → Steps condition
          (record { pending = refs; received = [] })
          (record { pending = []; received = received })
      → let c = scope_condition refs received in
        (c.healthy_workloads + (c.unhealthy_workloads + c.unknown_workloads) ≡ c.total)
        × ((c.health_status ≡ status_healthy) ↔ All IsHealthy received)
  unfolding scope_condition counted
  scope_condition-counts refs received steps =
      let (hcs, k, p) = received-perm condition steps refl in
      let n = count (record { healthy = 0; unhealthy = 0; unknown = 0 }) received in
      let every = bad-count (record { healthy = 0; unhealthy = 0; unknown = 0 }) received in
      (
        omega (
          arith,
          counted-count (record { healthy = 0; unhealthy = 0; unknown = 0 }) received,
          length-perm p,
          length-conditions refs hcs k,
        ),
        (
          λ h. (every.0 ((healthy_if_none_bad n).0 h)).1,
          λ h. (healthy_if_none_bad n).1 (every.1 (no_counts, h)),
        ),
      )
