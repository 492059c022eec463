-- ===== src/Webhook/Mutation.antt =====
-- pkg/webhook/v1alpha2/applicationconfiguration/mutating_handler.go: a trait that names its
-- TraitDefinition becomes an object of the definition's kind.
pub mod Admitted
pub mod Repeated
pub mod Tests
use oam_kubernetes_runtime.Base.{
  GoString, codes, Bool, true, false, Option, none, some, List, [], ◌∷◌, Map, if◌then◌else◌, Result,
  ok, err, ◌>>=◌,
}
use oam_kubernetes_runtime.Api.{
  ApplicationConfiguration, ApplicationConfigurationComponent, ComponentTrait, TraitDefinition,
}
use oam_kubernetes_runtime.Api.Value.{
  Value, null, bool, number, str, slice, object, Fields, Unstructured,
}
use oam_kubernetes_runtime.Util.{trait_type_label, merge_map_override_with_dst}
use oam_kubernetes_runtime.Webhook.Content.{
  get_field, set_field, delete_field, is_nil_value, Accessors, ContentJson, group_version_text,
}

abbrev pub trait_type_field : GoString
trait_type_field = codes "name"

abbrev pub trait_spec_field : GoString
trait_spec_field = codes "properties"

-- How an admission request fails: with an error, or with a panic at an index out of range.
pub data AdmissionError : Type 0 where
  error : GoString → AdmissionError
  panic : AdmissionError

-- What is read of a CustomResourceDefinition; the versions are their names.
pub record CustomResourceDefinition : Type 0 where
  pub group : GoString
  pub versions : List GoString
  pub kind : GoString

-- The client's answers by name.
pub record DefinitionClient : Type 0 where
  pub get_trait_definition : GoString → Result GoString TraitDefinition
  pub get_crd : GoString → Result GoString CustomResourceDefinition

unfoldable pub answered : {A : Type 0} → Result GoString A → Result AdmissionError A
answered (ok a) = ok a
answered (err e) = err (error e)

-- customResourceDefinition.Spec.Versions[0].Name
unfoldable pub first_version : List GoString → Result AdmissionError GoString
first_version [] = err panic
first_version (v ∷ vs) = ok v

-- The content without its type, its properties under "spec".
unfoldable pub move_properties : Fields → Fields
move_properties o =
    let o' = delete_field trait_type_field o in
    if is_nil_value (get_field trait_spec_field o')
    then o'
    else delete_field trait_spec_field (set_field (codes "spec") (get_field trait_spec_field o') o')

module _ (js : ContentJson) (acc : Accessors) (cl : DefinitionClient) where
  -- The content of the trait, of a type whose definition was read.
  unfoldable pub typed_content : GoString → CustomResourceDefinition → GoString → Fields → Fields
  unfolding move_properties
  typed_content trait_type crd version o =
      let o' =
        acc.set_kind crd.kind
          (acc.set_api_version (group_version_text crd.group version) (move_properties o)) in
      acc.set_labels
        (merge_map_override_with_dst (acc.view o').labels
          (some ((trait_type_label, trait_type) ∷ [])))
        o'

  unfoldable pub mutate_typed : GoString → Fields → Result AdmissionError (Option GoString)
  unfolding answered first_version typed_content
  mutate_typed trait_type o = answered (cl.get_trait_definition trait_type) >>= λ definition.
      answered (cl.get_crd definition.reference.name) >>= λ crd.
      first_version crd.versions >>= λ version.
      answered (js.marshal (typed_content trait_type crd version o)) >>= λ raw. ok (some raw)

  mutate_value : Value → Fields → Result AdmissionError (Option GoString)
  unfolding mutate_typed
  mutate_value null o = ok none
  mutate_value (str trait_type) o = mutate_typed trait_type o
  mutate_value (bool _) o = err (error (codes "name of trait should be string"))
  mutate_value (number _) o = err (error (codes "name of trait should be string"))
  mutate_value (slice _) o = err (error (codes "name of trait should be string"))
  mutate_value (object _) o = err (error (codes "name of trait should be string"))

  -- mutateTrait: the new raw content, if it was mutated.
  unfoldable pub mutate_trait : Fields → Result AdmissionError (Option GoString)
  unfolding mutate_value
  mutate_trait o = mutate_value (get_field trait_type_field o) o

  with_raw : ComponentTrait → Option GoString → ComponentTrait
  with_raw tr none = tr
  with_raw tr (some raw) = record tr { trait = raw }

  -- The loop over the traits of a component.
  unfoldable pub mutate_traits : List ComponentTrait → Result AdmissionError (List ComponentTrait)
  unfolding mutate_trait answered with_raw
  mutate_traits [] = ok []
  mutate_traits (tr ∷ trs) = answered (js.unmarshal tr.trait) >>= λ o.
      mutate_trait o >>= λ changed. mutate_traits trs >>= λ rest. ok (with_raw tr changed ∷ rest)

  unfoldable pub mutate_components :
      List ApplicationConfigurationComponent
      → Result AdmissionError (List ApplicationConfigurationComponent)
  unfolding mutate_traits
  mutate_components [] = ok []
  mutate_components (c ∷ cs) = mutate_traits c.traits >>= λ traits.
      mutate_components cs >>= λ rest. ok (record c { traits = traits } ∷ rest)

  -- Mutate
  unfoldable pub mutate : ApplicationConfiguration → Result AdmissionError ApplicationConfiguration
  unfolding mutate_components
  mutate ac =
      mutate_components ac.components >>= λ components. ok (record ac { components = components })
