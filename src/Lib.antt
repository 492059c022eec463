-- ===== src/Lib.antt =====
-- OAM Kubernetes runtime: a model of the controllers that turn application configurations into
-- Kubernetes objects, and of the webhooks that admit them.
--
-- The program. The component handler (pkg/controller/v1alpha2/applicationconfiguration/component.go)
-- cuts a ControllerRevision whenever a Component changes and puts the application configurations
-- that name it on the queue. The reconciler of application configurations renders each component into a
-- workload and traits (render.go, dag.go), decides which of them wait for data of others, applies them
-- and their scopes (apply.go), collects what is no longer rendered and writes the status
-- (applicationconfiguration.go). The health scope controller
-- (pkg/controller/v1alpha2/core/scopes/healthscope) checks the workloads of a scope concurrently. The
-- controller of ContainerizedWorkloads
-- (pkg/controller/v1alpha2/core/workloads/containerizedworkload) turns a workload into a Deployment,
-- ConfigMaps and a Service, and the one of ManualScalerTraits
-- (pkg/controller/v1alpha2/core/traits/manualscalertrait) sets the replicas of a workload's resources. The
-- webhooks (pkg/webhook/v1alpha2/applicationconfiguration and component) complete configurations and
-- components on admission and validate them.
--
-- The files.
--   Base and its children: lists, texts, maps, sorting, decimal numbers and results, with the lemmas
--     that the components share.
--   Api, Api/Value, Api/Fieldpath: the types of apis/core/v1alpha2/core_types.go with the Kubernetes
--     metadata that the code reads, objects of any kind, and what is used of the package fieldpath and
--     of the client.
--   Revision: component.go. construct_revision_name is ConstructRevisionName and so on; on_event is the
--     handler. Revision/Names, Live, Cleanup, Published, Stable and Queue hold its
--     theorems.
--   Render/Params, Conditions, Dependency, Naming: resolve, checkConditions with getDataInput,
--     handleDependency with its helpers, and the names of workloads and traits, of render.go.
--     Render/Naming/Recorded says which trait the statuses have a name of.
--   Render/Components: Render, renderComponent, renderTrait, renderScope and renderWorkload of render.go
--     with GetComponent of pkg/oam/util/helper.go. Its children Labelled, Workloads, Traits and Origin,
--     and Render/Naming/Kept, hold the theorem on the labels of what is rendered.
--   Reconcile/Controller: Reconcile and updateStatus of applicationconfiguration.go. reconcile_ac is what
--     comes after the object was read, run_live a pass over a configuration that is not being deleted,
--     attempt the part of it that may fail and settle its end. Children: Kept, Recorded and Written for the
--     status, and Collected for the garbage.
--   Workload, Reconcile/Gc, Status, Once, Finalizers: the types, the garbage collector, the fields of
--     the status, applyOnceOnly and the finalizer of applicationconfiguration.go.
--   Apply, Apply/Scopes, Apply/Patch, Apply/Data: apply.go. W is the state of the cluster; a ScopeClient and a
--     DataClient say what the client's calls do to it. Apply/Scopes/Removal and Apply/Finalization follow
--     a workload out of its scopes.
--   HealthScope/Peers, Objects, Checkers, Summary: healthscope.go, standard.go and healthscope_controller.go.
--     The goroutines of GetScopeHealthStatus are steps of a relation: any pending one may send next.
--     HealthScope/Controller is Reconcile, given what they sent and the time that they took.
--   Containerized: Types are those of apis/core/v1alpha2/core_workload_types.go, Kube those of
--     Kubernetes; Translate/Paths, Parts and Objects are translate.go; Render and Controller are
--     containerizedworkload_controller_helper.go and containerizedworkload_controller.go. Translate/Files,
--     Selection, Sources, Cleanup and Recreated hold the theorems.
--   Scaler, Scaler/Resources: manualscalertrait_controller.go, and the search for a trait's workload and its
--     children in pkg/oam/util/helper.go. Scaler/Outcomes holds the theorems.
--   Webhook/Validation: validating_handler.go and checkParams of helper.go.
--   Webhook/Content, Mutation, Component: JSON objects and their accessors; mutating_handler.go of the
--     application configurations; mutating_handler.go and validating_handler.go of the components.
--   Webhook/Preparation: PrepareForValidation of helper.go and Handle of validating_handler.go. Its children
--     Admittance and Completed hold the theorems.
--   Util, Util/Definitions: labels and annotations, and the reading of definitions, of
--     pkg/oam/util/helper.go and pkg/oam/labels.go.
--   Samples and the modules called Tests: concrete objects, and each theorem at some of them.
--
-- How the code is read. Strings are lists of bytes, and an int64 or int32 is the 64-bit pattern of its
-- value; additions wrap. A map is an association list in which a key stands once: Go's order of
-- iteration, which is random, is that of the list. A nil slice and an empty one are the same, a nil
-- map or pointer is none. strings.TrimSpace and ToLower are their ASCII parts. A panic is a result of its
-- own. Error values keep what distinguishes them; the texts around a wrapped error are left out in
-- rendering and applying. Objects that Go changes in place are returned. The state of the cluster is a
-- parameter: what the API server answers a read, and whether it grants a write.
--
-- Bounds. A number is printed in at most 20 rounds, which is enough for 64 bits; no other function has
-- fuel. A time to wait is in nanoseconds. The limit of revisions is not negative.
--
-- Parameters. encoding/json, gjson, jsonpatch, the package fieldpath, the accessors of the package
-- unstructured, ctrl.SetControllerReference, the OpenAPI document of the API server, the finalizers
-- of the package meta, schema.ParseGroupResource, the discovery mapper, the hooks of the reconciler
-- (whose renderer, applicator and collector are interfaces in the code and parameters of Reconcile
-- here), the client and its Applicators, ComputeHash, and any sort that sorts.
--
-- Not modelled: the timeouts of health checks, decoding and answering admission requests beyond Handle's
-- verdict, events and logs, the discovery mapper, generated code, the legacy conversion, test doubles and
-- the set-up of the manager.
pub mod Base
pub mod Api
pub mod Revision
pub mod Render
pub mod Workload
pub mod Apply
pub mod HealthScope
pub mod Containerized
pub mod Scaler
pub mod Webhook
pub mod Reconcile
pub mod Util
pub mod Samples
