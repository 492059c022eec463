-- ===== src/Render/Components/Tests.antt =====
-- render.go, renderComponent: the theorem on its labels at a component with a trait.
use oam_kubernetes_runtime.Base.{
  GoString, ◌≢◌, codes, true, none, some, [], ◌∷◌, ok, ok_inj, IsOk, refl, sym, ap, subst,
}
use oam_kubernetes_runtime.Api.{
  TraitDefinition, ApplicationConfiguration, ApplicationConfigurationComponent,
}
use oam_kubernetes_runtime.Api.Value.{str, Unstructured}
use oam_kubernetes_runtime.Api.Fieldpath.{Got, found, missing, failed, Fieldpath}
use oam_kubernetes_runtime.Samples.{
  sample_object, sample_component, sample_item, sample_configuration,
}
use oam_kubernetes_runtime.Util.Definitions.{
  fetch_named, get_definition_name, fetch_trait_definition,
}
use oam_kubernetes_runtime.Util.{
  trait_type_label, add_labels, add_annotations, pass_label_and_annotation,
}
use oam_kubernetes_runtime.Util.Merge.{IsMap?}
use oam_kubernetes_runtime.Revision.{Cluster}
use oam_kubernetes_runtime.Render.Params.{resolve, set_values, set_paths, values}
use oam_kubernetes_runtime.Render.Naming.{set_workload_instance_name, get_existing_workload}
use oam_kubernetes_runtime.Render.Components.{
  Renderer, get_component, lift, named_component, render_component,
}
use oam_kubernetes_runtime.Render.Components.Labelled.{Documented, RefsOutsideMetadata}
use oam_kubernetes_runtime.Render.Components.Origin.{IsRendered, render_component-IsRendered}

abbrev cluster : Cluster
cluster = record {
  get_revision = λ n. none;
  list_revisions = λ n. none;
  list_app_configs = none;
  create_ok = λ r. true;
  update_status_ok = λ c. true;
  delete_ok = λ r. true;
  unmarshal = λ b. none;
}

-- A fieldpath package for which every field of an object is its name.
abbrev by_name : Fieldpath
by_name = record {
  get_value = λ u p. found (str u.name);
  get_string = λ u p. ok u.name;
  set_value = λ u p v. ok (record u { content = v });
}

-- Traits have no definition.
abbrev pub renderer : Renderer
renderer = record {
  cluster = cluster;
  get_component_object = λ n. some (sample_component n.name);
  reader = record { get = λ v k ns n. missing };
  fieldpath = by_name;
  unmarshal_object = λ raw. ok (sample_object raw);
  set_string = λ u p s. ok u;
  set_number = λ u p n. ok u;
  definitions = record {
    parse_group_version = λ s. ok (codes "apps", codes "v1");
    rest_mapping = λ g k v. missing;
    definition_namespace = [];
    get_trait_definition = λ n. missing;
    get_workload_definition = λ n. missing;
    get_scope_definition = λ n. missing;
  };
  compute_hash = λ ct. codes "5c8";
  set_owner = λ ac u. u;
  ref_value = λ ref. str ref.name;
  object2unstructured = λ ac. ok (sample_object ac.metadata.name);
}

renderer-Documented : Documented renderer
renderer-Documented = record {
  unmarshal-IsMap = λ raw u h. subst (λ (w : Unstructured). IsMap? w.labels) (ok_inj h) tt;
  set_string-IsMap = λ u u' p s m h. subst (λ (w : Unstructured). IsMap? w.labels) (ok_inj h) m;
  set_number-IsMap = λ u u' p n m h. subst (λ (w : Unstructured). IsMap? w.labels) (ok_inj h) m;
  labels-set_owner = λ ac u. refl;
  set_name-keeps = λ u u' v h. (
    ap (λ (w : Unstructured). w.labels) (sym (ok_inj h)),
    ap (λ (w : Unstructured). w.namespace) (sym (ok_inj h)),
  );
  set_value-keeps = λ u u' p v outside h. (
    ap (λ (w : Unstructured). w.labels) (sym (ok_inj h)),
    ap (λ (w : Unstructured). w.namespace) (sym (ok_inj h)),
  );
}

fetch_none :
    (d : TraitDefinition) (name : Got GoString)
    → fetch_named renderer.definitions renderer.definitions.get_trait_definition name ≢ found d
unfolding fetch_named
fetch_none d (found n) h = absurd cc
fetch_none d missing h = absurd cc
fetch_none d (failed e) h = absurd cc

no_definitions : RefsOutsideMetadata renderer
unfolding fetch_trait_definition
no_definitions u d h =
    absurd (fetch_none d (get_definition_name renderer.definitions u trait_type_label) h)

abbrev web : ApplicationConfigurationComponent
web = record (sample_item (codes "web") []) {
  traits = record { trait = codes "scaler"; data_outputs = []; data_inputs = [] } ∷ [];
}

abbrev app : ApplicationConfiguration
app = sample_configuration (web ∷ []) []

abbrev rendered : IsOk (render_component renderer app web [])
unfolding render_component lift get_component named_component resolve set_values set_paths values
    get_existing_workload set_workload_instance_name pass_label_and_annotation add_annotations
    add_labels fetch_trait_definition
rendered = (_, refl)

render_component-IsRendered_example :
    IsRendered renderer renderer-Documented app tt web rendered.0.0
render_component-IsRendered_example =
    render_component-IsRendered renderer renderer-Documented app tt no_definitions web [] rendered.0
      rendered.1
