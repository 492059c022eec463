-- ===== src/HealthScope/Summary/Order.antt =====
-- healthscope_controller.go: the order in which the conditions arrive does not matter.
use mathlib.Core.List.{Permᴰ}
use mathlib.Core.List.Permᴰ
use oam_kubernetes_runtime.Base.{
  suc, ◌==◌, Bool, true, false, ◌||◌, List, [], ◌∷◌, ◌++◌, append_assoc, append-nil, length,
  if◌then◌else◌, ltb, Result, ok, ◌>>=◌, >>=-eq-ok, ok_inj, ◌≡◌, refl, sym, ap, ap₂, subst, ◌∙◌,
}
use oam_kubernetes_runtime.Api.{TypedReference}
use oam_kubernetes_runtime.HealthScope.{
  WorkloadHealthCondition, ScopeHealthCondition, Panic, status_healthy, status_unhealthy,
}
use oam_kubernetes_runtime.HealthScope.Summary.{
  State, send, Steps, none_left, step, Counts, tick, count, scope_condition,
}

bump : Bool → Bool → Counts → Counts
bump h u n =
    if h
    then record n { healthy = suc n.healthy }
    else if u
    then record n { unhealthy = suc n.unhealthy }
    else record n { unknown = suc n.unknown }

bump_comm : (h u h' u' : Bool) (n : Counts) → bump h u (bump h' u' n) ≡ bump h' u' (bump h u n)
unfolding bump
bump_comm true u true u' n = refl
bump_comm true u false true n = refl
bump_comm true u false false n = refl
bump_comm false true true u' n = refl
bump_comm false true false true n = refl
bump_comm false true false false n = refl
bump_comm false false true u' n = refl
bump_comm false false false true n = refl
bump_comm false false false false n = refl

tick_comm : (n : Counts) (a b : WorkloadHealthCondition) → tick (tick n a) b ≡ tick (tick n b) a
unfolding tick bump
tick_comm n a b =
    bump_comm (b.health_status == status_healthy) (b.health_status == status_unhealthy)
      (a.health_status == status_healthy) (a.health_status == status_unhealthy) n

count-perm :
    {xs ys : List WorkloadHealthCondition} → Permᴰ xs ys → (n : Counts) → count n xs ≡ count n ys
unfolding count
count-perm Permᴰ.nil n = refl
count-perm (Permᴰ.cons {b = b} {l₁ = l} e p) n =
    ap (λ x. count (tick n x) l) e ∙ count-perm p (tick n b)
count-perm (Permᴰ.swap {a} {b} {l = l} e f) n =
    ap (λ m. count m l) (tick_comm n a b ∙ ap₂ (λ x y. tick (tick n x) y) f e)
count-perm (Permᴰ.trans p q) n = count-perm p n ∙ count-perm q n

module _ (condition : TypedReference → Result Panic WorkloadHealthCondition) where
  -- The conditions in the order of the references.
  unfoldable pub conditions : List TypedReference → Result Panic (List WorkloadHealthCondition)
  conditions [] = ok []
  conditions (ref ∷ refs) = condition ref >>= λ hc. conditions refs >>= λ hcs. ok (hc ∷ hcs)

  conditions-insert :
      (before after : List TypedReference) (ref : TypedReference) (hc : WorkloadHealthCondition)
      (hcs : List WorkloadHealthCondition)
      → condition ref ≡ ok hc
      → conditions (before ++ after) ≡ ok hcs
      → (all : List WorkloadHealthCondition) × (conditions (before ++ ref ∷ after) ≡ ok all)
        × Permᴰ all (hc ∷ hcs)
  unfolding conditions
  conditions-insert [] after ref hc hcs e k = (hc ∷ hcs, rw (e, k) refl, Permᴰ.refl (hc ∷ hcs))
  conditions-insert (r ∷ before) after ref hc hcs e k =
      let (c, at, k') = >>=-eq-ok (condition r) _ k in
      let (cs, at', k'') = >>=-eq-ok (conditions (before ++ after)) _ k' in
      let (all, found, p) = conditions-insert before after ref hc cs e at' in
      (
        c ∷ all,
        rw (at, found) refl,
        Permᴰ.trans (Permᴰ.cons refl p) (
            Permᴰ.trans (Permᴰ.swap refl refl)
              (Permᴰ.cons refl (subst (λ x. Permᴰ (c ∷ cs) x) (ok_inj k'') (Permᴰ.refl (c ∷ cs))))),
      )

  -- A run to the end receives, after what it had, the conditions of the pending workloads in some
  -- order.
  pub received-perm :
      {s t : State}
      → Steps condition s t
      → t.pending ≡ []
      → (hcs : List WorkloadHealthCondition) × (conditions s.pending ≡ ok hcs)
        × Permᴰ (s.received ++ hcs) t.received
  unfolding conditions
  received-perm (none_left s) e = (
    [],
    rw e refl,
    subst (λ x. Permᴰ x s.received) (sym (append-nil s.received)) (Permᴰ.refl s.received),
  )
  received-perm (step {u = u} (send before after ref received hc at) steps) e =
      let (hcs, k, p) = received-perm steps e in
      let (all, found, q) = conditions-insert before after ref hc hcs at k in
      (
        all,
        found,
        Permᴰ.trans (Permᴰ.append_left received q)
            (subst (λ x. Permᴰ x u.received) (append_assoc received (hc ∷ []) hcs) p),
      )

  -- The condition of a scope does not depend on the order in which the conditions of its workloads
  -- arrive: every run to the end gives the one that the references' own order gives.
  pub scope_condition-order :
      (refs : List TypedReference) (received : List WorkloadHealthCondition)
      → Steps condition
          (record { pending = refs; received = [] })
          (record { pending = []; received = received })
      → (hcs : List WorkloadHealthCondition) × (conditions refs ≡ ok hcs)
        × (scope_condition refs received ≡ scope_condition refs hcs)
  unfolding scope_condition
  scope_condition-order refs received steps =
      let (hcs, k, p) = received-perm steps refl in
      (hcs, k, ap scope_condition_of (sym (count-perm p _)))
    where
      scope_condition_of : Counts → ScopeHealthCondition
      scope_condition_of n = record {
        health_status =
            if ltb 0 n.unhealthy || ltb 0 n.unknown then status_unhealthy else status_healthy;
        total = length refs;
        healthy_workloads = n.healthy;
        unhealthy_workloads = n.unhealthy;
        unknown_workloads = n.unknown;
      }
