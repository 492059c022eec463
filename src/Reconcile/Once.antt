-- ===== src/Reconcile/Once.antt =====
-- applicationconfiguration.go, applyOnceOnly: whether an apply is aborted since nothing changed.
use oam_kubernetes_runtime.Base.{
  GoString, ◌==◌, ==_iff, not, ◌||◌, if◌then◌else◌, ◌≡◌, ◌↔◌, ◌⊎◌, arith,
}
use oam_kubernetes_runtime.Api.Value.{Unstructured}
use oam_kubernetes_runtime.Util.{
  index, label_app_name, label_app_component, label_app_component_revision, label_oam_resource_type,
  annotation_app_generation, resource_type_trait, resource_type_workload,
}

pub data OnceResult : Type 0 where
  proceed generation_unchanged : OnceResult

-- The option on the object in the cluster and the object to apply.
unfoldable pub apply_once_only : Unstructured → Unstructured → OnceResult
apply_once_only c d =
    if index d.labels label_oam_resource_type == resource_type_workload
      || index d.labels label_oam_resource_type == resource_type_trait
    then (if not (
          index c.annotations annotation_app_generation
          == index d.annotations annotation_app_generation)
        then proceed
        else if not (
              index c.labels label_app_component_revision
              == index d.labels label_app_component_revision)
            || not (index c.labels label_app_component == index d.labels label_app_component)
            || not (index c.labels label_app_name == index d.labels label_app_name)
        then proceed
        else generation_unchanged)
    else proceed

-- The application's generation, its name, the component and its revision are the same.
abbrev pub SameOrigin : Unstructured → Unstructured → Type 0
SameOrigin c d =
    (index c.annotations annotation_app_generation ≡ index d.annotations annotation_app_generation)
    × (index c.labels label_app_component_revision ≡ index d.labels label_app_component_revision)
    × (index c.labels label_app_component ≡ index d.labels label_app_component)
    × (index c.labels label_app_name ≡ index d.labels label_app_name)

-- The tests of the option, on texts.
once_tests :
    (t g g' r r' c c' n n' : GoString)
    → (if t == resource_type_workload || t == resource_type_trait
        then (if not (g == g')
            then proceed
            else if not (r == r') || not (c == c') || not (n == n')
            then proceed
            else generation_unchanged)
        else proceed)
      ≡ generation_unchanged
    → ((t ≡ resource_type_workload) ⊎ (t ≡ resource_type_trait))
      × ((g ≡ g') × (r ≡ r') × (c ≡ c') × (n ≡ n'))
once_tests t g g' r r' c c' n n' h = ground (
  arith,
  ==_iff t resource_type_workload,
  ==_iff t resource_type_trait,
  ==_iff g g',
  ==_iff r r',
  ==_iff c c',
  ==_iff n n',
)

tests_once :
    (t g g' r r' c c' n n' : GoString)
    → (t ≡ resource_type_workload) ⊎ (t ≡ resource_type_trait)
    → (g ≡ g') × (r ≡ r') × (c ≡ c') × (n ≡ n')
    → (if t == resource_type_workload || t == resource_type_trait
        then (if not (g == g')
            then proceed
            else if not (r == r') || not (c == c') || not (n == n')
            then proceed
            else generation_unchanged)
        else proceed)
      ≡ generation_unchanged
tests_once t g g' r r' c c' n n' m same = ground (
  arith,
  ==_iff t resource_type_workload,
  ==_iff t resource_type_trait,
  ==_iff g g',
  ==_iff r r',
  ==_iff c c',
  ==_iff n n',
)

-- Exactly if the object to apply is marked as a workload or a trait, and the one in the cluster
-- stems from the same generation of the same application, component and revision, it is skipped.
pub apply_once_only-unchanged :
    (c d : Unstructured)
    → (apply_once_only c d ≡ generation_unchanged) ↔ (
        ((index d.labels label_oam_resource_type ≡ resource_type_workload)
          ⊎ (index d.labels label_oam_resource_type ≡ resource_type_trait))
        × SameOrigin c d)
unfolding apply_once_only
apply_once_only-unchanged c d = (
  once_tests (index d.labels label_oam_resource_type)
      (index c.annotations annotation_app_generation)
      (index d.annotations annotation_app_generation) (index c.labels label_app_component_revision)
      (index d.labels label_app_component_revision) (index c.labels label_app_component)
      (index d.labels label_app_component) (index c.labels label_app_name)
      (index d.labels label_app_name),
  λ h.
      tests_once (index d.labels label_oam_resource_type)
        (index c.annotations annotation_app_generation)
        (index d.annotations annotation_app_generation)
        (index c.labels label_app_component_revision) (index d.labels label_app_component_revision)
        (index c.labels label_app_component) (index d.labels label_app_component)
        (index c.labels label_app_name) (index d.labels label_app_name) h.0 h.1,
)
