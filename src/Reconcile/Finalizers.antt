-- ===== src/Reconcile/Finalizers.antt =====
-- applicationconfiguration.go, registerFinalizers: a configuration with scopes gets the finalizer
-- that removes its workloads from the scopes.
use oam_kubernetes_runtime.Base.{
  GoString, codes, Bool, true, false, not, ◌&&◌, is_nil, any, if◌then◌else◌, ◌≡◌, arith,
}
use oam_kubernetes_runtime.Api.{ObjectMeta, ApplicationConfiguration}

abbrev pub workload_scope_finalizer : GoString
workload_scope_finalizer = codes "scope.finalizer.core.oam.dev"

-- FinalizerExists, AddFinalizer and RemoveFinalizer of crossplane-runtime's package meta.
pub record Finalizers : Type 0 where
  pub finalizer_exists : ObjectMeta → GoString → Bool
  pub add_finalizer : ObjectMeta → GoString → ObjectMeta
  pub remove_finalizer : ObjectMeta → GoString → ObjectMeta
  pub exists-add : (m : ObjectMeta) (f : GoString) → finalizer_exists (add_finalizer m f) f ≡ true
  pub exists-remove :
      (m : ObjectMeta) (f : GoString) → finalizer_exists (remove_finalizer m f) f ≡ false

unfoldable pub has_scope : ApplicationConfiguration → Bool
has_scope ac = any (λ c. not (is_nil c.scopes)) ac.components

module _ (f : Finalizers) where
  -- The configuration afterwards, and whether a finalizer was new.
  unfoldable pub register_finalizers : ApplicationConfiguration → ApplicationConfiguration × Bool
  register_finalizers ac =
      if not (f.finalizer_exists ac.metadata workload_scope_finalizer) && has_scope ac
      then (record ac { metadata = f.add_finalizer ac.metadata workload_scope_finalizer }, true)
      else (ac, false)

  -- A second registration changes nothing and reports nothing new, so the reconciliation goes on;
  -- and afterwards a configuration with scopes has the finalizer.
  pub register_finalizers_again :
      (ac : ApplicationConfiguration)
      → let ac' = (register_finalizers ac).0 in
        (register_finalizers ac' ≡ (ac', false))
        × (has_scope ac ≡ true → f.finalizer_exists ac'.metadata workload_scope_finalizer ≡ true)
  unfolding register_finalizers has_scope
  register_finalizers_again ac = ground (arith, f.exists-add ac.metadata workload_scope_finalizer)
