-- ===== src/Util/Definitions.antt =====
-- pkg/oam/util/helper.go: how the definition of a trait, workload or scope is found, by the label that
-- names it or else by the resource that the discovery mapper knows for its kind.
use oam_kubernetes_runtime.Base.{
  GoString, codes, is_empty, not, [], Option, none, some, ◌++◌, Map, if◌then◌else◌, Result, ok, err,
}
use oam_kubernetes_runtime.Api.{
  NamespacedName, TraitDefinition, WorkloadDefinition, ScopeDefinition,
}
use oam_kubernetes_runtime.Api.Value.{Unstructured}
use oam_kubernetes_runtime.Api.Fieldpath.{Got, found, missing, failed}
use oam_kubernetes_runtime.Util.{trait_type_label, workload_type_label}
use oam_kubernetes_runtime.Util.Merge.{lookup?}

-- schema.ParseGroupVersion, the mapper's resource of a group, kind and version, the environment's
-- namespace of definitions, and the client.
pub record DefinitionReader : Type 0 where
  pub parse_group_version : GoString → Result GoString (GoString × GoString)
  pub rest_mapping : GoString → GoString → GoString → Got GoString
  pub definition_namespace : GoString
  pub get_trait_definition : NamespacedName → Got TraitDefinition
  pub get_workload_definition : NamespacedName → Got WorkloadDefinition
  pub get_scope_definition : NamespacedName → Got ScopeDefinition

-- The name by a label, where one is asked for.
unfoldable pub labelled_name : GoString → Option (Map GoString) → Option GoString
labelled_name type_label labels =
    if not (is_empty type_label) then lookup? type_label labels else none

module _ (d : DefinitionReader) where
  mapped_name : GoString → Got GoString → Got GoString
  mapped_name group (found resource) = found (resource ++ (codes "." ++ group))
  mapped_name group missing = missing
  mapped_name group (failed e) = failed e

  kind_name : GoString → Result GoString (GoString × GoString) → Got GoString
  unfolding mapped_name
  kind_name kind (err e) = failed e
  kind_name kind (ok gv) = mapped_name gv.0 (d.rest_mapping gv.0 kind gv.1)

  -- GetDefinitionName
  unfoldable pub get_definition_name : Unstructured → GoString → Got GoString
  unfolding labelled_name kind_name
  get_definition_name u type_label = elim (labelled_name type_label u.labels) [
    | some name ↦ found name
    | none ↦ kind_name u.kind (d.parse_group_version u.api_version)
  ]

  -- GenNamespacedDefinitionName
  unfoldable pub gen_namespaced_definition_name : GoString → NamespacedName
  gen_namespaced_definition_name dn =
      if not (is_empty d.definition_namespace)
      then record { namespace = d.definition_namespace; name = dn }
      else record { namespace = []; name = dn }

  -- The definition of a name
  unfoldable pub fetch_named : {A : Type 0} → (NamespacedName → Got A) → Got GoString → Got A
  unfolding gen_namespaced_definition_name
  fetch_named get (found name) = get (gen_namespaced_definition_name name)
  fetch_named get missing = missing
  fetch_named get (failed e) = failed e

  -- FetchScopeDefinition
  unfoldable pub fetch_scope_definition : Unstructured → Got ScopeDefinition
  unfolding fetch_named get_definition_name
  fetch_scope_definition scope = fetch_named d.get_scope_definition (get_definition_name scope [])

  -- FetchTraitDefinition
  unfoldable pub fetch_trait_definition : Unstructured → Got TraitDefinition
  unfolding fetch_named get_definition_name
  fetch_trait_definition trait =
      fetch_named d.get_trait_definition (get_definition_name trait trait_type_label)

  -- FetchWorkloadDefinition
  unfoldable pub fetch_workload_definition : Unstructured → Got WorkloadDefinition
  unfolding fetch_named get_definition_name
  fetch_workload_definition workload =
      fetch_named d.get_workload_definition (get_definition_name workload workload_type_label)
