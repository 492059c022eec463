-- ===== src/Scaler.antt =====
-- pkg/controller/v1alpha2/core/traits/manualscalertrait/manualscalertrait_controller.go: the trait that
-- sets the number of replicas of a workload's resources. W is the state of the cluster; logs and
-- events are left out.
pub mod Resources
pub mod Outcomes
pub mod Tests
use oam_kubernetes_runtime.Base.{
  ℕ, GoString, codes, ◌==◌, Bool, true, false, Option, none, some, List, [], ◌∷◌, ◌++◌,
  if◌then◌else◌, Result, ok, err,
}
use oam_kubernetes_runtime.Api.{Condition, reconcile_success, reconcile_error}
use oam_kubernetes_runtime.Api.Fieldpath.{Got, found, missing, failed}
use oam_kubernetes_runtime.Scaler.Resources.{
  ManualScalerTrait, Resource, ResourceClient, fetch_workload, fetch_workload_child_resources,
}

-- A field of a schema: a primitive of some type, or another.
pub data FieldSchema : Type 0 where
  primitive : GoString → FieldSchema
  composite : FieldSchema

-- The OpenAPI document: the schema of a field of the objects of an API version and a kind, which may
-- be missing.
abbrev pub Document : Type 0
Document = GoString → GoString → List GoString → Result GoString (Option FieldSchema)

is_integer : Result GoString (Option FieldSchema) → Bool
is_integer (err e) = false
is_integer (ok none) = false
is_integer (ok (some composite)) = false
is_integer (ok (some (primitive t))) = t == codes "integer"

-- locateReplicaField
unfoldable pub locate_replica_field : Document → Resource → Bool
unfolding is_integer
locate_replica_field document res =
    is_integer
      (document res.object.api_version res.object.kind (codes "spec" ∷ codes "replicas" ∷ []))

-- The client. set_replicas is SetNestedField at spec.replicas, add_owner AddOwnerReference of the
-- trait's UID, and open_api the schema of the API server as a document.
pub record Client (W : Type 0) : Type 0 where
  pub resources : ResourceClient W
  pub get_trait : GoString → GoString → W → Got ManualScalerTrait
  pub open_api : W → Result GoString Document
  pub add_owner : GoString → Resource → Resource
  pub set_replicas : ℕ → Resource → Result GoString Resource
  pub patch : GoString → Resource → W → Result GoString W
  pub patch_condition : ManualScalerTrait → Condition → W → Result GoString W

-- What is returned: whether to repeat after a wait, and the error.
pub record Outcome (W : Type 0) : Type 0 where
  pub wait : Bool
  pub failure : Option GoString
  pub world : W

abbrev wrap : GoString → GoString → GoString
wrap text e = text ++ (codes ": " ++ e)

module _ {W : Type 0} (cl : Client W) where
  -- PatchCondition at the end of a function that returns `wait`
  unfoldable pub conditioned : Bool → W → Result GoString W → Outcome W
  conditioned wait w (ok w') = record { wait = wait; failure = none; world = w' }
  conditioned wait w (err e) = record {
    wait = wait;
    failure = some (wrap (codes "cannot apply status") e);
    world = w;
  }

  -- return util.ReconcileWaitResult, util.PatchCondition(..., ReconcileError(...))
  unfoldable pub fail : ManualScalerTrait → GoString → W → Outcome W
  unfolding conditioned
  fail tr e w = conditioned true w (cl.patch_condition tr (reconcile_error e) w)

  -- The scaling of one resource: the error with its text, or the cluster afterwards.
  unfoldable pub scale_resource : ManualScalerTrait → Resource → W → Result GoString W
  scale_resource tr res w = elim (cl.set_replicas tr.replica_count (cl.add_owner tr.uid res)) [
    | err e ↦ err (wrap (codes "cannot patch the resource for scale") e)
    | ok res' ↦ elim (cl.patch tr.uid res' w) [
      | err e ↦ err (wrap (codes "cannot scale the resource") e)
      | ok w' ↦ ok w'
    ]
  ]

  -- The loop over the resources, with the flag whether one was found.
  unfoldable pub scale_loop : ManualScalerTrait → Document → Bool → List Resource → W → Outcome W
  unfolding scale_resource fail
  scale_loop tr document located [] w =
      if located
      then record { wait = false; failure = none; world = w }
      else fail tr (codes "cannot scale the resource") w
  scale_loop tr document located (res ∷ rest) w = elim (locate_replica_field document res) [
    | false ↦ scale_loop tr document located rest w
    | true ↦ elim (scale_resource tr res w) [
      | err e ↦ fail tr e w
      | ok w' ↦ scale_loop tr document true rest w'
    ]
  ]

  scale_with : ManualScalerTrait → List Resource → W → Result GoString Document → Outcome W
  unfolding scale_loop
  scale_with tr resources w (err e) = fail tr (wrap (codes "failed to query openAPI") e) w
  scale_with tr resources w (ok document) = scale_loop tr document false resources w

  -- scaleResources
  unfoldable pub scale_resources : ManualScalerTrait → List Resource → W → Outcome W
  unfolding scale_with
  scale_resources tr resources w = scale_with tr resources w (cl.open_api w)

  -- if err != nil { return result, err }, or else the condition of success
  unfoldable pub report : ManualScalerTrait → Outcome W → Outcome W
  unfolding conditioned
  report tr o = elim o.failure [
    | some e ↦ o
    | none ↦ conditioned false o.world (cl.patch_condition tr reconcile_success o.world)
  ]

  unfoldable pub or_workload : Resource → List Resource → List Resource
  or_workload workload [] = workload ∷ []
  or_workload workload (r ∷ rs) = r ∷ rs

  reconcile_children :
      ManualScalerTrait → Resource → W → Result GoString (List Resource) → Outcome W
  unfolding or_workload report scale_resources
  reconcile_children tr workload w (err e) =
      fail tr (codes "failed to fetch workload child resources") w
  reconcile_children tr workload w (ok children) =
      report tr (scale_resources tr (or_workload workload children) w)

  reconcile_fetched : ManualScalerTrait → W → Result GoString Resource → Outcome W
  unfolding reconcile_children
  reconcile_fetched tr w (err e) =
      fail tr (wrap (codes "cannot find the workload that the trait is referencing to") e) w
  reconcile_fetched tr w (ok workload) =
      reconcile_children tr workload w (fetch_workload_child_resources cl.resources workload w)

  unfoldable pub reconcile_trait : ManualScalerTrait → W → Outcome W
  unfolding reconcile_fetched
  reconcile_trait tr w = reconcile_fetched tr w (fetch_workload cl.resources tr w)

  reconcile_got : W → Got ManualScalerTrait → Outcome W
  unfolding reconcile_trait
  reconcile_got w (found tr) = reconcile_trait tr w
  reconcile_got w missing = record { wait = false; failure = none; world = w }
  reconcile_got w (failed e) = record { wait = false; failure = some e; world = w }

  -- Reconcile
  unfoldable pub reconcile : GoString → GoString → W → Outcome W
  unfolding reconcile_got
  reconcile namespace name w = reconcile_got w (cl.get_trait namespace name w)
