-- ===== src/Reconcile/Gc.antt =====
-- applicationconfiguration.go, eligible and IsRevisionWorkload: which objects are garbage.
pub mod Safety
use oam_kubernetes_runtime.Base.{
  GoString, codes, ◌==◌, has_prefix, Bool, true, false, not, ◌&&◌, any, none, List, [], ◌∷◌, ◌++◌,
  if◌then◌else◌,
}
use oam_kubernetes_runtime.Api.{TypedReference, WorkloadTrait, WorkloadStatus}
use oam_kubernetes_runtime.Api.Value.{Unstructured, object, end}
use oam_kubernetes_runtime.Workload.{Workload, Trait, reference_to}

-- Equality of references as keys of a map: the UID counts.
unfoldable pub ref_eq : TypedReference → TypedReference → Bool
ref_eq a b =
    a.api_version == b.api_version && a.kind == b.kind && a.name == b.name && a.uid == b.uid

abbrev pub trait_refs : List Trait → List TypedReference
trait_refs [] = []
trait_refs (t ∷ ts) = reference_to t.object ∷ trait_refs ts

-- The keys of `applied`.
unfoldable pub applied_refs : List Workload → List TypedReference
applied_refs [] = []
applied_refs (w ∷ ws) = reference_to w.workload ∷ (trait_refs w.traits ++ applied_refs ws)

unfoldable pub is_applied : List TypedReference → TypedReference → Bool
is_applied applied r = any (ref_eq r) applied

unfoldable pub is_revision_workload : WorkloadStatus → Bool
is_revision_workload st = has_prefix st.reference.name (st.component_name ++ codes "-")

-- The object that is handed to the deletion.
abbrev pub bare : GoString → TypedReference → Unstructured
bare namespace r = record {
  api_version = r.api_version;
  kind = r.kind;
  name = r.name;
  namespace = namespace;
  uid = [];
  labels = none;
  annotations = none;
  content = object end;
}

eligible_traits : GoString → List TypedReference → List WorkloadTrait → List Unstructured
eligible_traits namespace applied [] = []
eligible_traits namespace applied (ts ∷ traits) =
    let rest = eligible_traits namespace applied traits in
    if not (is_applied applied ts.reference) then bare namespace ts.reference ∷ rest else rest

eligible_statuses : GoString → List TypedReference → List WorkloadStatus → List Unstructured
eligible_statuses namespace applied [] = []
eligible_statuses namespace applied (s ∷ ss) =
    let rest =
      eligible_traits namespace applied s.traits ++ eligible_statuses namespace applied ss in
    if not (is_applied applied s.reference) && not (is_revision_workload s)
    then bare namespace s.reference ∷ rest
    else rest

unfoldable pub eligible : GoString → List WorkloadStatus → List Workload → List Unstructured
unfolding eligible_statuses eligible_traits
eligible namespace ss ws = eligible_statuses namespace (applied_refs ws) ss
