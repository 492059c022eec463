-- ===== src/Scaler/Tests.antt =====
-- A trait whose workload is a Deployment without children. The cluster is the list of the names of the
-- resources that were patched.
use oam_kubernetes_runtime.Base.{
  Any, GoString, codes, ◌==◌, false, none, some, List, [], ◌∷◌, ok, if◌then◌else◌, ◌≡◌, ◌↔◌, refl,
}
use oam_kubernetes_runtime.Api.Fieldpath.{found, missing}
use oam_kubernetes_runtime.Samples.{sample_object, sample_reference}
use oam_kubernetes_runtime.Util.Definitions.{DefinitionReader, fetch_workload_definition}
use oam_kubernetes_runtime.Scaler.Resources.{
  ManualScalerTrait, Resource, fetch_workload, fetch_workload_child_resources,
}
use oam_kubernetes_runtime.Scaler.{
  primitive, Document, locate_replica_field, Client, scale_resources, or_workload, reconcile_trait,
}
use oam_kubernetes_runtime.Scaler.Outcomes.{
  done, HasReplicas, AllScaled, scale_resources-done, reconcile_trait-unscaled,
}

abbrev sample_trait : ManualScalerTrait
sample_trait = record {
  name = codes "scaler";
  namespace = codes "default";
  uid = codes "t1";
  replica_count = 3;
  workload_reference = sample_reference (codes "web");
}

abbrev deployment : Resource
deployment = record { object = sample_object (codes "web"); owners = [] }

-- Deployments have replicas, or nothing has.
abbrev deployments : Document
deployments api_version kind path =
    if kind == codes "Deployment" then ok (some (primitive (codes "integer"))) else ok none

abbrev nothing : Document
nothing api_version kind path = ok none

abbrev no_definitions : DefinitionReader
no_definitions = record {
  parse_group_version = λ s. ok (codes "apps", codes "v1");
  rest_mapping = λ g k v. found (codes "deployments");
  definition_namespace = [];
  get_trait_definition = λ n. missing;
  get_workload_definition = λ n. missing;
  get_scope_definition = λ n. missing;
}

abbrev logging : Document → Client (List GoString)
logging document = record {
  resources = record {
    get = λ _ _ _ _ _. found deployment;
    definitions = λ _. no_definitions;
    list = λ _ _ _. ok [];
  };
  get_trait = λ _ _ _. found sample_trait;
  open_api = λ _. ok document;
  add_owner = λ uid r. record r { owners = uid ∷ r.owners };
  set_replicas = λ n r. ok r;
  patch = λ _ r w. ok (r.object.name ∷ w);
  patch_condition = λ _ _ w. ok (codes "condition" ∷ w);
}

runs :
    scale_resources (logging deployments) sample_trait (deployment ∷ []) []
    ≡ done (logging deployments) (codes "web" ∷ [])
unfolding scale_resources locate_replica_field ◌==◌
runs = refl

scale_resources-done_example :
    (scale_resources (logging deployments) sample_trait (deployment ∷ []) []
      ≡ done (logging deployments) (codes "web" ∷ []))
    ↔ ((document : Document) × ((logging deployments).open_api [] ≡ ok document)
        × Any (HasReplicas document) (deployment ∷ [])
        × AllScaled
            (logging deployments)
            sample_trait
            document
            (deployment ∷ [])
            []
            (codes "web" ∷ []))
scale_resources-done_example =
    scale_resources-done (logging deployments) sample_trait (deployment ∷ []) [] (codes "web" ∷ [])

fetches : fetch_workload (logging nothing).resources sample_trait [] ≡ ok deployment
unfolding fetch_workload
fetches = refl

no_children : fetch_workload_child_resources (logging nothing).resources deployment [] ≡ ok []
unfolding fetch_workload_child_resources fetch_workload_definition
no_children = refl

no_replicas : locate_replica_field nothing deployment ≡ false
unfolding locate_replica_field
no_replicas = refl

reconcile_trait-unscaled_example :
    reconcile_trait (logging nothing) sample_trait []
    ≡ done (logging nothing) (codes "condition" ∷ codes "condition" ∷ [])
unfolding or_workload
reconcile_trait-unscaled_example =
    reconcile_trait-unscaled (logging nothing) sample_trait deployment [] nothing []
      (codes "condition" ∷ []) (codes "condition" ∷ codes "condition" ∷ []) fetches no_children refl
      (no_replicas, tt) refl refl
