-- ===== src/Render/Components/Labelled.antt =====
-- render.go, renderComponent: the labels by which the controllers find the objects again.
use oam_kubernetes_runtime.Base.{
  ℕ, GoString, codes, ◌==◌, has_prefix, false, some, lookup, ok, ◌≡◌, refl, ap, ◌∙◌,
}
use oam_kubernetes_runtime.Api.{TraitDefinition, ApplicationConfiguration}
use oam_kubernetes_runtime.Api.Value.{Value, Unstructured}
use oam_kubernetes_runtime.Api.Fieldpath.{found}
use oam_kubernetes_runtime.Util.{
  label_app_name, label_app_component, label_app_component_revision, label_oam_resource_type,
  merge_map_override_with_dst, add_labels, add_annotations, pass_label_and_annotation,
}
use oam_kubernetes_runtime.Util.Definitions.{fetch_trait_definition}
use oam_kubernetes_runtime.Util.Merge.{
  IsMap, IsMap?, lookup?, first_of, lookup-merge_map_override_with_dst, IsMap-merge,
}
use oam_kubernetes_runtime.Render.Naming.{instance_name_path}
use oam_kubernetes_runtime.Render.Components.{Renderer, comp_info_labels, with_origin}

-- What the libraries document of an object that they change: JSON objects have each key once; the
-- owner and the name of an object are not its labels and namespace; a value at a path outside the
-- metadata leaves these alone.
pub record Documented (r : Renderer) : Type 0 where
  pub unmarshal-IsMap :
      (raw : GoString) (u : Unstructured) → r.unmarshal_object raw ≡ ok u → IsMap? u.labels
  pub set_string-IsMap :
      (u u' : Unstructured) (path s : GoString)
      → IsMap? u.labels
      → r.set_string u path s ≡ ok u'
      → IsMap? u'.labels
  pub set_number-IsMap :
      (u u' : Unstructured) (path : GoString) (n : ℕ)
      → IsMap? u.labels
      → r.set_number u path n ≡ ok u'
      → IsMap? u'.labels
  pub labels-set_owner :
      (ac : ApplicationConfiguration) (u : Unstructured) → (r.set_owner ac u).labels ≡ u.labels
  pub set_name-keeps :
      (u u' : Unstructured) (v : Value)
      → r.fieldpath.set_value u instance_name_path v ≡ ok u'
      → (u'.labels ≡ u.labels) × (u'.namespace ≡ u.namespace)
  pub set_value-keeps :
      (u u' : Unstructured) (path : GoString) (v : Value)
      → has_prefix path (codes "metadata") ≡ false
      → r.fieldpath.set_value u path v ≡ ok u'
      → (u'.labels ≡ u.labels) × (u'.namespace ≡ u.namespace)

-- No definition asks for the reference to the workload in the metadata of a trait.
abbrev pub RefsOutsideMetadata : Renderer → Type 0
RefsOutsideMetadata r =
    (u : Unstructured) (d : TraitDefinition)
    → fetch_trait_definition r.definitions u ≡ found d
    → has_prefix d.workload_ref_path (codes "metadata") ≡ false

-- The labels of where an object comes from, and its namespace.
abbrev pub HasOrigin :
    ApplicationConfiguration → GoString → GoString → GoString → Unstructured → Type 0
HasOrigin ac component revision type u =
    (lookup? label_app_name u.labels ≡ some ac.metadata.name)
    × (lookup? label_app_component u.labels ≡ some component)
    × (lookup? label_app_component_revision u.labels ≡ some revision)
    × (lookup? label_oam_resource_type u.labels ≡ some type)
    × (u.namespace ≡ ac.metadata.namespace)

module _ (r : Renderer) (ac : ApplicationConfiguration) (component revision type : GoString) where
  comp_info_labels-IsMap : IsMap (comp_info_labels r ac component revision type)
  unfolding lookup ◌==◌
  comp_info_labels-IsMap = (refl, (refl, (refl, (refl, tt))))

  -- The labels of the component are not overridden by those of the object or the configuration.
  with_origin-label :
      (o : Unstructured) (k v : GoString)
      → IsMap? ac.metadata.labels
      → IsMap? o.labels
      → lookup k (comp_info_labels r ac component revision type) ≡ some v
      → lookup? k (with_origin r ac (comp_info_labels r ac component revision type) o).labels
        ≡ some v
  unfolding with_origin add_labels add_annotations pass_label_and_annotation
  with_origin-label o k v hac ho h =
      let labels = comp_info_labels r ac component revision type in
      lookup-merge_map_override_with_dst ac.metadata.labels
        (merge_map_override_with_dst o.labels (some labels)) k hac
        (IsMap-merge o.labels (some labels) ho comp_info_labels-IsMap)
      ∙ ap (λ x. first_of x (lookup? k ac.metadata.labels))
          (lookup-merge_map_override_with_dst o.labels (some labels) k ho comp_info_labels-IsMap
            ∙ ap (λ x. first_of x (lookup? k o.labels)) h)

  pub with_origin-HasOrigin :
      (o : Unstructured)
      → IsMap? ac.metadata.labels
      → IsMap? o.labels
      → (u : Unstructured)
      → u.labels ≡ (with_origin r ac (comp_info_labels r ac component revision type) o).labels
      → u.namespace ≡ ac.metadata.namespace
      → HasOrigin ac component revision type u
  unfolding lookup ◌==◌
  with_origin-HasOrigin o hac ho u same ns = (
    ap (lookup? label_app_name) same ∙ with_origin-label o label_app_name _ hac ho refl,
    ap (lookup? label_app_component) same ∙ with_origin-label o label_app_component _ hac ho refl,
    ap (lookup? label_app_component_revision) same
        ∙ with_origin-label o label_app_component_revision _ hac ho refl,
    ap (lookup? label_oam_resource_type) same
        ∙ with_origin-label o label_oam_resource_type _ hac ho refl,
    ns,
  )

  pub HasOrigin-same :
      (u u' : Unstructured)
      → (u'.labels ≡ u.labels) × (u'.namespace ≡ u.namespace)
      → HasOrigin ac component revision type u
      → HasOrigin ac component revision type u'
  HasOrigin-same u u' (labels, ns) (a, b, c, d, e) = (
    ap (lookup? label_app_name) labels ∙ a,
    ap (lookup? label_app_component) labels ∙ b,
    ap (lookup? label_app_component_revision) labels ∙ c,
    ap (lookup? label_oam_resource_type) labels ∙ d,
    ns ∙ e,
  )
