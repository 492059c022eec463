-- ===== src/Apply/Scopes/Steady.antt =====
-- apply.go, dereferenceScope where nothing has changed.
use oam_kubernetes_runtime.Base.{
  GoString, ◌==◌, ==_iff, ==_refl, true, false, any, List, [], ◌∷◌, map, ok, ◌≡◌, refl, sym, subst,
  ◌∙◌, arith, inl, inr, All, Mem,
}
use oam_kubernetes_runtime.Api.{TypedReference, WorkloadScope, WorkloadStatus}
use oam_kubernetes_runtime.Api.Value.{Unstructured}
use oam_kubernetes_runtime.Workload.{Workload, status, scope_status, reference_to}
use oam_kubernetes_runtime.Apply.Scopes.{
  ScopeClient, refers_to, remove_from, find_dereferenced_scopes, to_be_dereferenced,
  dereference_scope,
}

refers_to_refl : (u : Unstructured) → refers_to (reference_to u) u ≡ true
unfolding refers_to
refers_to_refl u = ground (arith, ==_refl u.api_version, ==_refl u.kind, ==_refl u.name)

==_comm : (s t : GoString) → (s == t) ≡ (t == s)
==_comm s t = ground (arith, ==_iff s t, ==_iff t s)

refers_to_comm : (u v : Unstructured) → refers_to (reference_to u) v ≡ refers_to (reference_to v) u
unfolding refers_to
refers_to_comm u v =
    ground
      (arith, ==_comm u.api_version v.api_version, ==_comm u.kind v.kind, ==_comm u.name v.name)

any-Mem :
    (r : TypedReference) (u : Unstructured) (us : List Unstructured)
    → refers_to r u ≡ true
    → Mem u us
    → any (refers_to r) us ≡ true
unfolding any
any-Mem r u [] h m = absurd m
any-Mem r u (v ∷ us) h (inl e) = rw (← e) (rw h refl)
any-Mem r u (v ∷ us) h (inr m) = ground (arith, any-Mem r u us h m)

-- The scopes of a workload's status are all found among its scopes.
find_dereferenced_scopes-scope_status :
    (us scopes : List Unstructured)
    → ((u : Unstructured) → Mem u us → Mem u scopes)
    → find_dereferenced_scopes (map scope_status us) scopes ≡ []
unfolding find_dereferenced_scopes scope_status
find_dereferenced_scopes-scope_status [] scopes h = refl
find_dereferenced_scopes-scope_status (u ∷ us) scopes h =
    rw (any-Mem (reference_to u) u scopes (refers_to_refl u) (h u (inl refl)))
      (find_dereferenced_scopes-scope_status us scopes (λ v m. h v (inr m)))

to_be_dereferenced_other :
    (st : WorkloadStatus) (ws : List Workload) (scopes : List WorkloadScope)
    → All (λ v. refers_to st.reference v.workload ≡ false) ws
    → to_be_dereferenced st ws scopes ≡ scopes
unfolding to_be_dereferenced
to_be_dereferenced_other st [] scopes h = refl
to_be_dereferenced_other st (v ∷ ws) scopes h = rw h.0 (to_be_dereferenced_other st ws scopes h.1)

-- No two workloads have the same type and name.
abbrev pub DistinctReferences : List Workload → Type 0
DistinctReferences [] = Unit
DistinctReferences (w ∷ ws) =
    All (λ v. refers_to (reference_to w.workload) v.workload ≡ false) ws × DistinctReferences ws

to_be_dereferenced-status :
    (ws : List Workload) (w : Workload) (scopes : List WorkloadScope)
    → DistinctReferences ws
    → Mem w ws
    → to_be_dereferenced (status w) ws scopes ≡ []
unfolding to_be_dereferenced status
to_be_dereferenced-status [] w scopes d m = absurd m
to_be_dereferenced-status (v ∷ ws) w scopes d (inl e) =
    subst (λ u. to_be_dereferenced (status w) (u ∷ ws) scopes ≡ []) e
      (rw (refers_to_refl w.workload) (
        to_be_dereferenced_other (status w) ws _ (
          subst (λ u. All (λ v. refers_to (reference_to u.workload) v.workload ≡ false) ws) (sym e)
            d.0)
        ∙ find_dereferenced_scopes-scope_status w.scopes w.scopes (λ u m. m)))
to_be_dereferenced-status (v ∷ ws) w scopes d (inr m) = to_be_dereferenced-status ws w _ d.1 m

module _ {W : Type 0} (cl : ScopeClient W) where
  untouched :
      (ns : GoString) (ws all : List Workload) (w : W)
      → ((v : Workload) → Mem v ws → Mem v all)
      → DistinctReferences all
      → dereference_scope cl ns (map status ws) all w ≡ ok w
  unfolding dereference_scope remove_from
  untouched ns [] all w sub d = refl
  untouched ns (v ∷ ws) all w sub d =
      rw (to_be_dereferenced-status all v (status v).scopes d (sub v (inl refl)))
        (untouched ns ws all w (λ u m. sub u (inr m)) d)

  -- In a steady state the scopes are left alone: where the statuses are those of the workloads that
  -- were applied, which differ in type or name, nothing is read or written.
  pub dereference_scope-status :
      (ns : GoString) (ws : List Workload) (w : W)
      → DistinctReferences ws
      → dereference_scope cl ns (map status ws) ws w ≡ ok w
  dereference_scope-status ns ws w d = untouched ns ws ws w (λ v m. m) d
