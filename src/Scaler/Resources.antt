-- ===== src/Scaler/Resources.antt =====
-- pkg/oam/util/helper.go, FetchWorkload, FetchWorkloadChildResources and fetchChildResources: the
-- workload of a trait and the resources that it owns.
use oam_kubernetes_runtime.Base.{
  ℕ, GoString, codes, ◌==◌, is_empty, ◌||◌, List, [], ◌∷◌, ◌++◌, if◌then◌else◌, Result, ok, err,
  ◌>>=◌,
}
use oam_kubernetes_runtime.Api.{TypedReference, ChildResourceKind, WorkloadDefinition}
use oam_kubernetes_runtime.Util.Definitions.{DefinitionReader, fetch_workload_definition}
use oam_kubernetes_runtime.Api.Fieldpath.{Got, found, missing, failed}
use oam_kubernetes_runtime.Api.Value.{Unstructured}

-- apis/core/v1alpha2/core_trait_types.go, ManualScalerTrait with its metadata
pub record ManualScalerTrait : Type 0 where
  pub name : GoString
  pub namespace : GoString
  pub uid : GoString
  pub replica_count : ℕ
  pub workload_reference : TypedReference

-- An object with the UIDs of its owner references.
pub record Resource : Type 0 where
  pub object : Unstructured
  pub owners : List GoString

-- The client: an object by API version, kind, namespace and name; what it reads of definitions; and the
-- list of a child kind in a namespace.
pub record ResourceClient (W : Type 0) : Type 0 where
  pub get : GoString → GoString → GoString → GoString → W → Got Resource
  pub definitions : W → DefinitionReader
  pub list : ChildResourceKind → GoString → W → Result GoString (List Resource)

fetched : Got Resource → Result GoString Resource
fetched (found r) = ok r
fetched missing = err (codes "not found")
fetched (failed e) = err e

-- One entry for each owner reference to the workload.
owned_by : GoString → Resource → List GoString → List Resource
owned_by uid r [] = []
owned_by uid r (owner ∷ owners) =
    let rest = owned_by uid r owners in if owner == uid then r ∷ rest else rest

owned_items : GoString → List Resource → List Resource
unfolding owned_by
owned_items uid [] = []
owned_items uid (r ∷ rs) = owned_by uid r r.owners ++ owned_items uid rs

module _ {W : Type 0} (cl : ResourceClient W) where
  -- FetchWorkload
  unfoldable pub fetch_workload : ManualScalerTrait → W → Result GoString Resource
  unfolding fetched
  fetch_workload tr w =
      let ref = tr.workload_reference in
      if is_empty ref.kind || is_empty ref.api_version || is_empty ref.name
      then err (codes "no workload reference")
      else fetched (cl.get ref.api_version ref.kind tr.namespace ref.name w)

  -- fetchChildResources
  unfoldable pub fetch_child_resources :
      Resource → List ChildResourceKind → W → Result GoString (List Resource)
  unfolding owned_items
  fetch_child_resources workload [] w = ok []
  fetch_child_resources workload (wcr ∷ wcrl) w =
      cl.list wcr workload.object.namespace w >>= λ items.
      fetch_child_resources workload wcrl w >>= λ rest.
      ok (owned_items workload.object.uid items ++ rest)

  children_of : Resource → W → Got WorkloadDefinition → Result GoString (List Resource)
  unfolding fetch_child_resources
  children_of workload w (found definition) =
      fetch_child_resources workload definition.child_resource_kinds w
  children_of workload w missing = ok []
  children_of workload w (failed e) = err e

  -- FetchWorkloadChildResources: a workload without a definition has no children.
  unfoldable pub fetch_workload_child_resources : Resource → W → Result GoString (List Resource)
  unfolding children_of
  fetch_workload_child_resources workload w =
      children_of workload w (fetch_workload_definition (cl.definitions w) workload.object)
