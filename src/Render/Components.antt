-- ===== src/Render/Components.antt =====
-- render.go, Render, renderComponent, renderTrait, renderScope and renderWorkload, with GetComponent
-- and GetDummyTraitDefinition of pkg/oam/util/helper.go: an application configuration is rendered into
-- workloads with their traits and scopes. Objects that are shared are passed on, the graph of data
-- sources among them.
pub mod Labelled
pub mod Workloads
pub mod Traits
pub mod Origin
pub mod Tests
use oam_kubernetes_runtime.Base.{
  ℕ, GoString, codes, is_empty, Bool, false, not, Option, none, some, List, [], ◌∷◌, ◌++◌, map, Map,
  insert, print_int64, if◌then◌else◌, Result, ok, err, ◌>>=◌,
}
use oam_kubernetes_runtime.Api.{
  IntOrString, int_val, str_val, TypedReference, NamespacedName, Component, Revision,
  ComponentTrait, ComponentScope, TraitDefinition, ApplicationConfiguration,
  ApplicationConfigurationComponent, UnsatisfiedDependency,
}
use oam_kubernetes_runtime.Api.Value.{Value, Unstructured}
use oam_kubernetes_runtime.Api.Fieldpath.{Got, found, missing, failed, Fault, Fieldpath, Reader}
use oam_kubernetes_runtime.Util.{
  label_app_name, label_app_component, label_app_component_revision, label_oam_resource_type,
  annotation_app_generation, resource_type_trait, resource_type_workload, add_labels,
  add_annotations, pass_label_and_annotation,
}
use oam_kubernetes_runtime.Util.Definitions.{DefinitionReader, fetch_trait_definition}
use oam_kubernetes_runtime.Workload.{Workload, Trait, reference_to, dummy}
use oam_kubernetes_runtime.Revision.{
  Cluster, ControllerRevision, unpack_revision_data, extract_component_name,
}
use oam_kubernetes_runtime.Render.Params.{Parameter, ParamError, resolve}
use oam_kubernetes_runtime.Render.Naming.{
  NameError, is_revision_enabled, set_workload_instance_name, get_existing_workload, get_trait_name,
  set_trait_properties,
}
use oam_kubernetes_runtime.Render.Dependency.{Dag, add_data_outputs_to_dag, handle_dependency}

pub data RenderError : Type 0 where
  get_component_revision controller_revision_data get_component_error : GoString → RenderError
  resolve_params : ParamError → RenderError
  unmarshal_workload_error unmarshal_trait_error : GoString → RenderError
  set_param : GoString → RenderError
  get_trait_definition : RenderError
  name_error : NameError → RenderError
  set_workload_ref : RenderError
  get_scope : GoString → RenderError
  convert_configuration : GoString → RenderError
  dependency : Fault → RenderError

-- What rendering is given: the client's answers, the library calls on objects, and the hash of a
-- trait. set_owner sets the owner reference to the configuration; ref_value is a reference as JSON.
pub record Renderer : Type 0 where
  pub cluster : Cluster
  pub get_component_object : NamespacedName → Option Component
  pub reader : Reader
  pub fieldpath : Fieldpath
  pub unmarshal_object : GoString → Result GoString Unstructured
  pub set_string : Unstructured → GoString → GoString → Result GoString Unstructured
  pub set_number : Unstructured → GoString → ℕ → Result GoString Unstructured
  pub definitions : DefinitionReader
  pub compute_hash : ComponentTrait → GoString
  pub set_owner : ApplicationConfiguration → Unstructured → Unstructured
  pub ref_value : TypedReference → Value
  pub object2unstructured : ApplicationConfiguration → Result GoString Unstructured

unfoldable pub lift : {E A : Type 0} → (E → RenderError) → Result E A → Result RenderError A
lift f (ok a) = ok a
lift f (err e) = err (f e)

unfoldable pub or_error : {A : Type 0} → RenderError → Option A → Result RenderError A
or_error e none = err e
or_error e (some a) = ok a

abbrev pub latest_name : Option Revision → GoString
latest_name none = []
latest_name (some rev) = rev.name

-- GetDummyTraitDefinition
unfoldable pub get_dummy_trait_definition : Unstructured → TraitDefinition
get_dummy_trait_definition u = record {
  name = dummy;
  reference = record { name = dummy; version = [] };
  revision_enabled = false;
  workload_ref_path = [];
  applies_to_workloads = [];
}

module _ (r : Renderer) where
  -- GetComponent: the component and the name of its revision.
  unfoldable pub get_component :
      ApplicationConfigurationComponent → GoString → Result RenderError (Component × GoString)
  unfolding or_error
  get_component acc namespace =
      if not (is_empty acc.revision_name)
      then (or_error (get_component_revision acc.revision_name)
            (r.cluster.get_revision (record { namespace = namespace; name = acc.revision_name }))
          >>= λ rev.
              or_error (controller_revision_data acc.revision_name)
                (unpack_revision_data r.cluster rev)
              >>= λ c. ok (c, acc.revision_name))
      else (or_error (get_component_error acc.component_name)
            (r.get_component_object (record { namespace = namespace; name = acc.component_name }))
          >>= λ c. ok (c, latest_name c.status.latest_revision))

  unfoldable pub set_path : IntOrString → Unstructured → GoString → Result GoString Unstructured
  set_path (str_val s) w path = r.set_string w path s
  set_path (int_val n) w path = r.set_number w path n

  unfoldable pub set_field_paths :
      Parameter → List GoString → Unstructured → Result RenderError Unstructured
  unfolding lift set_path
  set_field_paths p [] w = ok w
  set_field_paths p (path ∷ paths) w =
      lift (λ _. set_param p.name) (set_path p.value w path) >>= λ w'. set_field_paths p paths w'

  unfoldable pub set_parameters : List Parameter → Unstructured → Result RenderError Unstructured
  unfolding set_field_paths
  set_parameters [] w = ok w
  set_parameters (p ∷ ps) w = set_field_paths p p.field_paths w >>= λ w'. set_parameters ps w'

  -- renderWorkload
  unfoldable pub render_workload : GoString → List Parameter → Result RenderError Unstructured
  unfolding set_parameters lift
  render_workload raw ps =
      lift unmarshal_workload_error (r.unmarshal_object raw) >>= λ w. set_parameters ps w

  -- A trait without a definition gets the dummy one.
  unfoldable pub definition_of :
      Unstructured → Got TraitDefinition → Result RenderError TraitDefinition
  unfolding get_dummy_trait_definition
  definition_of t (found definition) = ok definition
  definition_of t missing = ok (get_dummy_trait_definition t)
  definition_of t (failed e) = err get_trait_definition

  module _ (ac : ApplicationConfiguration) where
    -- compInfoLabels with a type of resource, and compInfoAnnotations
    abbrev pub comp_info_labels : GoString → GoString → GoString → Map GoString
    comp_info_labels component revision type =
        (label_app_name, ac.metadata.name)
        ∷ (label_app_component, component)
        ∷ (label_app_component_revision, revision)
        ∷ (label_oam_resource_type, type)
        ∷ []

    abbrev pub comp_info_annotations : Map GoString
    comp_info_annotations = (annotation_app_generation, print_int64 ac.metadata.generation) ∷ []

    -- The labels and annotations of an object: of its component, then those of the configuration.
    unfoldable pub with_origin : Map GoString → Unstructured → Unstructured
    with_origin labels o =
        pass_label_and_annotation ac.metadata.labels ac.metadata.annotations
          (add_annotations (add_labels o labels) comp_info_annotations)

    -- renderTrait
    unfoldable pub render_trait :
        GoString → ComponentTrait → Dag → Result RenderError (Unstructured × TraitDefinition × Dag)
    unfolding lift definition_of
    render_trait component ct dag =
        lift unmarshal_trait_error (r.unmarshal_object ct.trait) >>= λ t.
        definition_of t (fetch_trait_definition r.definitions t) >>= λ definition.
        let name = get_trait_name r.compute_hash ac component ct t definition in
        let t' = set_trait_properties (r.set_owner ac) t name ac.metadata.namespace in
        ok (t', definition, add_data_outputs_to_dag dag ct.data_outputs t')

    abbrev pub new_trait : Unstructured → TraitDefinition → Trait
    new_trait t definition = record {
      object = t;
      has_dep = false;
      definition = definition;
      data_outputs = [];
      data_inputs = [];
    }

    -- The first loop over the traits.
    unfoldable pub render_traits :
        GoString → GoString → List ComponentTrait → Dag → Result RenderError (List Trait × Dag)
    unfolding render_trait with_origin
    render_traits component revision [] dag = ok ([], dag)
    render_traits component revision (ct ∷ cts) dag =
        render_trait component ct dag >>= λ (t, definition, dag').
        let labels = comp_info_labels component revision resource_type_trait in
        render_traits component revision cts dag' >>= λ (rest, dag'').
        ok (new_trait (with_origin labels t) definition ∷ rest, dag'')

    -- The second loop: the reference to the workload, where a definition asks for it.
    unfoldable pub set_ref : TypedReference → Trait → Result RenderError Trait
    unfolding lift
    set_ref ref t =
        if is_empty t.definition.workload_ref_path
        then ok t
        else (lift (λ _. set_workload_ref)
              (r.fieldpath.set_value t.object t.definition.workload_ref_path (r.ref_value ref))
            >>= λ o. ok (record t { object = o }))

    unfoldable pub set_workload_refs : TypedReference → List Trait → Result RenderError (List Trait)
    unfolding set_ref
    set_workload_refs ref [] = ok []
    set_workload_refs ref (t ∷ ts) =
        set_ref ref t >>= λ t'. set_workload_refs ref ts >>= λ rest. ok (t' ∷ rest)

    -- renderScope
    unfoldable pub render_scope : ComponentScope → Result RenderError Unstructured
    render_scope cs =
        let ref = cs.scope_reference in
        elim (r.reader.get ref.api_version ref.kind ac.metadata.namespace ref.name) [
          | found u ↦ ok u
          | missing ↦ err (get_scope ref.name)
          | failed _ ↦ err (get_scope ref.name)
        ]

    unfoldable pub render_scopes : List ComponentScope → Result RenderError (List Unstructured)
    unfolding render_scope
    render_scopes [] = ok []
    render_scopes (cs ∷ css) = render_scope cs >>= λ s. render_scopes css >>= λ rest. ok (s ∷ rest)

    -- The name by which a component is known: a revision's name has it.
    unfoldable pub named_component :
        ApplicationConfigurationComponent → ApplicationConfigurationComponent
    named_component acc =
        if not (is_empty acc.revision_name)
        then record acc { component_name = extract_component_name acc.revision_name }
        else acc

    -- The workload with its labels, its owner and its namespace, before it has a name.
    unfoldable pub base_workload :
        GoString → GoString → Component → List Parameter → Result RenderError Unstructured
    unfolding render_workload with_origin
    base_workload component revision c ps = render_workload c.spec.workload ps >>= λ w.
        let labels = comp_info_labels component revision resource_type_workload in
        ok (record (r.set_owner ac (with_origin labels w)) { namespace = ac.metadata.namespace })

    -- renderComponent
    unfoldable pub render_component :
        ApplicationConfigurationComponent → Dag → Result RenderError (Workload × Dag)
    unfolding lift render_traits set_workload_refs render_scopes base_workload
    render_component given dag =
        let acc = named_component given in
        get_component acc ac.metadata.namespace >>= λ (c, revision).
        lift resolve_params (resolve c.spec.parameters acc.parameter_values) >>= λ ps.
        base_workload acc.component_name revision c ps >>= λ w.
        render_traits acc.component_name revision acc.traits dag >>= λ (traits, dag').
        lift name_error (get_existing_workload r.reader ac c w) >>= λ existing.
        let definitions = map (λ t. t.definition) traits in
        lift name_error (set_workload_instance_name r.fieldpath definitions w c existing) >>= λ w'.
        set_workload_refs (reference_to w') traits >>= λ traits'.
        render_scopes acc.scopes >>= λ scopes. ok (
          record {
            component_name = acc.component_name;
            component_revision_name = revision;
            workload = w';
            has_dep = false;
            traits = traits';
            revision_enabled = is_revision_enabled definitions;
            scopes = scopes;
            data_outputs = [];
            data_inputs = [];
          },
          add_data_outputs_to_dag dag' acc.data_outputs w',
        )

    unfoldable pub render_components :
        List ApplicationConfigurationComponent → Dag → Result RenderError (List Workload × Dag)
    unfolding render_component
    render_components [] dag = ok ([], dag)
    render_components (acc ∷ accs) dag = render_component acc dag >>= λ (w, dag').
        render_components accs dag' >>= λ (rest, dag''). ok (w ∷ rest, dag'')

    -- The loop over the rendered workloads and their components.
    unfoldable pub handle_dependencies :
        List Workload
        → List ApplicationConfigurationComponent
        → Dag
        → Result RenderError (List Workload × List UnsatisfiedDependency)
    unfolding lift
    handle_dependencies [] accs dag = ok ([], [])
    handle_dependencies (w ∷ ws) [] dag = ok ([], [])
    handle_dependencies (w ∷ ws) (acc ∷ accs) dag =
        lift convert_configuration (r.object2unstructured ac) >>= λ uac.
        lift dependency (handle_dependency r.fieldpath r.reader uac w acc dag) >>= λ (uds, w').
        handle_dependencies ws accs dag >>= λ (rest, more). ok (w' ∷ rest, uds ++ more)

    -- Render
    unfoldable pub render : Result RenderError (List Workload × List UnsatisfiedDependency)
    unfolding render_components handle_dependencies
    render =
        render_components ac.components [] >>= λ (ws, dag). handle_dependencies ws ac.components dag
