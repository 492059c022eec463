-- ===== src/Apply/Scopes/Removal.antt =====
-- apply.go, applyScopeRemoval and dereferenceAllScopes: how the cluster changes.
use oam_kubernetes_runtime.Base.{
  GoString, is_empty, false, Bool-cases, if◌then◌else◌, Option, none, some, Option-cases, List, [],
  ◌∷◌, Result, ok, err, err-ne-ok, ok_inj, >>=-eq-ok, Result-cases, All, ◌⊎◌, inl, inr, ◌≡◌, refl,
  sym, ap, subst, ◌∙◌, arith, ℕ,
}
use mathlib.Core.List.{Permᴰ}
use oam_kubernetes_runtime.Api.{TypedReference, WorkloadScope, WorkloadStatus, ScopeDefinition}
use oam_kubernetes_runtime.Api.Value.{
  Value, null, bool, number, str, object, Values, slice, Unstructured,
}
use oam_kubernetes_runtime.Api.Fieldpath.{Got, found, missing, failed}
use oam_kubernetes_runtime.Util.Definitions.{fetch_scope_definition}
use oam_kubernetes_runtime.Apply.Scopes.{
  ScopeClient, ScopeError, get_scope_definition, get_scope_workload_refs_path, items, values_of,
  as_slice, ref_index, remove_ref, swap_remove, refs_path, change_refs, write_refs,
  apply_scope_removal, remove_from, dereference_all_scopes,
}
use oam_kubernetes_runtime.Apply.Scopes.Index.{IsRefTo, none_ne_some, ref_index-none}
use oam_kubernetes_runtime.Apply.Scopes.Refs.{remove_ref-perm}

Got-cases :
    {A : Type 0} (g : Got A)
    → ((a : A) × (g ≡ found a)) ⊎ ((g ≡ missing) ⊎ ((m : GoString) × (g ≡ failed m)))
Got-cases (found a) = inl (a, refl)
Got-cases missing = inr (inl refl)
Got-cases (failed m) = inr (inr (m, refl))

as_slice-eq-ok :
    (v : Value) (refs : List Value)
    → as_slice v ≡ ok refs
    → (vs : Values) × (v ≡ slice vs) × (items vs ≡ refs)
unfolding as_slice
as_slice-eq-ok (slice vs) refs h = (vs, refl, ok_inj h)
as_slice-eq-ok null refs h = absurd (err-ne-ok _ _ h)
as_slice-eq-ok (bool b) refs h = absurd (err-ne-ok _ _ h)
as_slice-eq-ok (number n) refs h = absurd (err-ne-ok _ _ h)
as_slice-eq-ok (str t) refs h = absurd (err-ne-ok _ _ h)
as_slice-eq-ok (object o) refs h = absurd (err-ne-ok _ _ h)

-- Where nothing is to be removed, no entry is a reference to the workload.
remove_ref-none :
    (r : TypedReference) (refs : List Value)
    → remove_ref r refs ≡ ok none
    → All (λ v. ¬ IsRefTo r v) refs
unfolding remove_ref
remove_ref-none r refs h = let (i, at, h') = >>=-eq-ok (ref_index r refs) _ h in absent i at h'
  where
    absent :
        (i : Option ℕ)
        → ref_index r refs ≡ ok i
        → ◌≡◌ {A = Result ScopeError (Option (List Value))}
            (ok (elim i [ none ↦ none | some n ↦ some (swap_remove n refs) ]))
            (ok none)
        → All (λ v. ¬ IsRefTo r v) refs
    absent none at e = ref_index-none r refs at
    absent (some n) at e = absurd (none_ne_some (sym (ok_inj e)))

module _ {W : Type 0} (cl : ScopeClient W) where
  -- The scope is not in the cluster.
  unfoldable pub IsGone : W → GoString → WorkloadScope → Type 0
  IsGone w ns s = cl.get w s.reference.api_version s.reference.kind ns s.reference.name ≡ missing

  -- No entry is a reference to the workload, and nothing is written; or the scope is written with
  -- one reference to it less in the list and the other entries kept, in some order.
  abbrev pub IsShortened : W → Unstructured → GoString → TypedReference → List Value → W → Type 0
  IsShortened w scope path r refs w' =
      (All (λ v. ¬ IsRefTo r v) refs × (w' ≡ w))
      ⊎ ((v : Value) × (kept : List Value) × (scope' : Unstructured) × IsRefTo r v
          × Permᴰ refs (v ∷ kept)
          × (cl.fieldpath.set_value scope path (slice (values_of kept)) ≡ ok scope')
          × (cl.update w scope' ≡ some w'))

  -- The same of the list at the path that the scope's definition names.
  abbrev pub IsUnlisted : W → Unstructured → TypedReference → W → Type 0
  IsUnlisted w scope r w' =
      (d : ScopeDefinition) × (refs : Values) × (fetch_scope_definition cl.definitions scope
        ≡ found d)
      × (¬ (d.workload_refs_path ≡ []))
      × (cl.fieldpath.get_value scope d.workload_refs_path ≡ found (slice refs))
      × IsShortened w scope d.workload_refs_path r (items refs) w'

  -- The scope is gone and nothing changes, or the workload is taken out of it.
  abbrev pub IsLeft : GoString → TypedReference → WorkloadScope → W → W → Type 0
  IsLeft ns r s w w' =
      (IsGone w ns s × (w' ≡ w))
      ⊎ ((scope : Unstructured) × (cl.get w s.reference.api_version s.reference.kind ns
              s.reference.name
            ≡ found scope)
          × IsUnlisted w scope r w')

  -- The workload is taken out of the scopes, one after the other.
  abbrev pub AreLeft : GoString → TypedReference → List WorkloadScope → W → W → Type 0
  AreLeft ns r [] w w' = w ≡ w'
  AreLeft ns r (s ∷ ss) w w' = (v : W) × IsLeft ns r s w v × AreLeft ns r ss v w'

  -- The workloads are taken out of the scopes of their statuses, one after the other.
  abbrev pub AllLeft : GoString → List WorkloadStatus → W → W → Type 0
  AllLeft ns [] w w' = w ≡ w'
  AllLeft ns (st ∷ sts) w w' = (v : W) × AreLeft ns st.reference st.scopes w v × AllLeft ns sts v w'

  write_refs-eq-ok :
      (w w' : W) (s : Unstructured) (path : GoString) (refs : List Value)
      → write_refs cl w s path (some refs) ≡ ok w'
      → (s' : Unstructured) × (cl.fieldpath.set_value s path (slice (values_of refs)) ≡ ok s')
        × (cl.update w s' ≡ some w')
  unfolding write_refs
  write_refs-eq-ok w w' s path refs h =
      elim (Result-cases (cl.fieldpath.set_value s path (slice (values_of refs)))) [
        | inr (e, f) ↦ absurd (err-ne-ok _ _ (rw (f, write_refs) at h))
        | inl (s', f) ↦ elim (Option-cases (cl.update w s')) [
          | inl u ↦ absurd (err-ne-ok _ _ (rw (f, u, write_refs) at h))
          | inr (v, u) ↦ (s', f, u ∙ ap some (ok_inj (rw (f, u, write_refs) at h)))
        ]
      ]

  write_refs-IsShortened :
      (w w' : W) (scope : Unstructured) (path : GoString) (r : TypedReference) (refs : List Value)
      (new : Option (List Value))
      → remove_ref r refs ≡ ok new
      → write_refs cl w scope path new ≡ ok w'
      → IsShortened w scope path r refs w'
  unfolding write_refs
  write_refs-IsShortened w w' scope path r refs none change e =
      inl (remove_ref-none r refs change, sym (ok_inj e))
  write_refs-IsShortened w w' scope path r refs (some kept) change e =
      let (v, is, perm) = remove_ref-perm r refs kept change in
      let (scope', set, update) = write_refs-eq-ok w w' scope path kept e in
      inr (v, kept, scope', is, perm, set, update)

  change_refs-IsUnlisted :
      (w w' : W) (scope : Unstructured) (r : TypedReference) (d : ScopeDefinition)
      → fetch_scope_definition cl.definitions scope ≡ found d
      → ¬ (d.workload_refs_path ≡ [])
      → change_refs cl w scope d.workload_refs_path (remove_ref r) ≡ ok w'
      → IsUnlisted w scope r w'
  unfolding change_refs
  change_refs-IsUnlisted w w' scope r d defined named h =
      elim (Got-cases (cl.fieldpath.get_value scope d.workload_refs_path)) [
        | inr (inl e) ↦ absurd (err-ne-ok _ _ (rw (e, change_refs) at h))
        | inr (inr (m, e)) ↦ absurd (err-ne-ok _ _ (rw (e, change_refs) at h))
        | inl (v, e) ↦
            let (refs, is_slice, h1) = >>=-eq-ok (as_slice v) _ (rw (e, change_refs) at h) in
            let (vs, same, listed) = as_slice-eq-ok v refs is_slice in
            let (new, change, h2) = >>=-eq-ok (remove_ref r refs) _ h1 in
            let path = d.workload_refs_path in
            (
              d,
              vs,
              defined,
              named,
              e ∙ ap found same,
              subst (λ us. IsShortened w scope path r us w') (sym listed)
                  (write_refs-IsShortened w w' scope path r refs new change h2),
            )
      ]

  refs_path-IsUnlisted :
      (w w' : W) (scope : Unstructured) (r : TypedReference) (g : Got ScopeDefinition)
      → fetch_scope_definition cl.definitions scope ≡ g
      → ◌≡◌ {A = Result ScopeError W}
          (elim (refs_path g) [
            | none ↦ err get_scope_definition
            | some path ↦
                if is_empty path
                then err get_scope_workload_refs_path
                else change_refs cl w scope path (remove_ref r)
          ])
          (ok w')
      → IsUnlisted w scope r w'
  unfolding refs_path
  refs_path-IsUnlisted w w' scope r missing defined h = absurd (err-ne-ok _ _ h)
  refs_path-IsUnlisted w w' scope r (failed m) defined h = absurd (err-ne-ok _ _ h)
  refs_path-IsUnlisted w w' scope r (found d) defined h =
      elim (Bool-cases (is_empty d.workload_refs_path)) [
        | inl e ↦ absurd (err-ne-ok _ _ (rw e at h))
        | inr e ↦ change_refs-IsUnlisted w w' scope r d defined (not_empty e) (rw e at h)
      ]
    where
      not_empty : {p : GoString} → is_empty p ≡ false → ¬ (p ≡ [])
      not_empty e same = absurd (ground (arith, ap is_empty same, e))

  apply_scope_removal-IsLeft :
      (w w' : W) (ns : GoString) (r : TypedReference) (s : WorkloadScope)
      → apply_scope_removal cl w ns r s ≡ ok w'
      → IsLeft ns r s w w'
  unfolding IsGone apply_scope_removal
  apply_scope_removal-IsLeft w w' ns r s h =
      let t = s.reference in
      elim (Got-cases (cl.get w t.api_version t.kind ns t.name)) [
        | inr (inl e) ↦ inl (e, sym (ok_inj (rw (e, apply_scope_removal) at h)))
        | inr (inr (m, e)) ↦ absurd (err-ne-ok _ _ (rw (e, apply_scope_removal) at h))
        | inl (scope, e) ↦
            inr (
              scope,
              e,
              refs_path-IsUnlisted w w' scope r _ refl (rw (e, apply_scope_removal) at h),
            )
      ]

  remove_from-AreLeft :
      (w w' : W) (ns : GoString) (r : TypedReference) (ss : List WorkloadScope)
      → remove_from cl ns r ss w ≡ ok w'
      → AreLeft ns r ss w w'
  unfolding remove_from
  remove_from-AreLeft w w' ns r [] h = ok_inj h
  remove_from-AreLeft w w' ns r (s ∷ ss) h =
      let (v, one, rest) = >>=-eq-ok (apply_scope_removal cl w ns r s) _ h in
      (v, apply_scope_removal-IsLeft w v ns r s one, remove_from-AreLeft v w' ns r ss rest)

  pub dereference_all_scopes-AllLeft :
      (w w' : W) (ns : GoString) (sts : List WorkloadStatus)
      → dereference_all_scopes cl ns sts w ≡ ok w'
      → AllLeft ns sts w w'
  unfolding dereference_all_scopes
  dereference_all_scopes-AllLeft w w' ns [] h = ok_inj h
  dereference_all_scopes-AllLeft w w' ns (st ∷ sts) h =
      let (v, one, rest) = >>=-eq-ok (remove_from cl ns st.reference st.scopes w) _ h in
      (
        v,
        remove_from-AreLeft w v ns st.reference st.scopes one,
        dereference_all_scopes-AllLeft v w' ns sts rest,
      )
