-- ===== src/Util.antt =====
-- pkg/oam/util/helper.go and pkg/oam/labels.go: labels and annotations, and names of traits.
pub mod Merge
pub mod Definitions
use oam_kubernetes_runtime.Base.{
  GoString, codes, ◌==◌, is_empty, to_lower, Bool, true, false, not, Option, none, some, List, [],
  ◌∷◌, ◌++◌, Map, lookup, insert, has_key, if◌then◌else◌,
}
use oam_kubernetes_runtime.Api.{ComponentTrait}
use oam_kubernetes_runtime.Api.Value.{Unstructured}

abbrev pub trait_type_label : GoString
trait_type_label = codes "trait.oam.dev/type"

abbrev pub workload_type_label : GoString
workload_type_label = codes "workload.oam.dev/type"

abbrev pub label_app_name : GoString
label_app_name = codes "app.oam.dev/name"

abbrev pub label_app_component : GoString
label_app_component = codes "app.oam.dev/component"

abbrev pub label_app_component_revision : GoString
label_app_component_revision = codes "app.oam.dev/revision"

abbrev pub label_oam_resource_type : GoString
label_oam_resource_type = codes "app.oam.dev/resourceType"

abbrev pub annotation_app_generation : GoString
annotation_app_generation = codes "app.oam.dev/generation"

abbrev pub resource_type_trait : GoString
resource_type_trait = codes "TRAIT"

abbrev pub resource_type_workload : GoString
resource_type_workload = codes "WORKLOAD"

-- m[k] of a map that may be nil: the empty string where the key is missing.
unfoldable pub index : Option (Map GoString) → GoString → GoString
index none k = []
index (some m) k = elim (lookup k m) [ none ↦ [] | some v ↦ v ]

copy_all : Map GoString → Map GoString → Map GoString
copy_all [] r = r
copy_all ((k, v) ∷ m) r = copy_all m (insert k v r)

copy_missing : Map GoString → Map GoString → Map GoString
copy_missing [] r = r
copy_missing ((k, v) ∷ m) r = copy_missing m (if has_key k r then r else insert k v r)

entries : Option (Map GoString) → Map GoString
entries none = []
entries (some m) = m

-- MergeMapOverrideWithDst: two maps, either of which may be nil.
unfoldable pub merge_map_override_with_dst :
    Option (Map GoString) → Option (Map GoString) → Option (Map GoString)
unfolding copy_all copy_missing entries
merge_map_override_with_dst none none = none
merge_map_override_with_dst src dst = some (copy_missing (entries src) (copy_all (entries dst) []))

-- AddLabels
unfoldable pub add_labels : Unstructured → Map GoString → Unstructured
add_labels o labels = record o { labels = merge_map_override_with_dst o.labels (some labels) }

-- AddAnnotations
unfoldable pub add_annotations : Unstructured → Map GoString → Unstructured
add_annotations o annos = record o {
  annotations = merge_map_override_with_dst o.annotations (some annos);
}

-- PassLabelAndAnnotation, from the parent's labels and annotations.
unfoldable pub pass_label_and_annotation :
    Option (Map GoString) → Option (Map GoString) → Unstructured → Unstructured
pass_label_and_annotation labels annotations o = record o {
  labels = merge_map_override_with_dst labels o.labels;
  annotations = merge_map_override_with_dst annotations o.annotations;
}

-- GenTraitName; ComputeHash, which prints the trait by a library, is a parameter.
unfoldable pub gen_trait_name :
    (ComponentTrait → GoString) → GoString → ComponentTrait → GoString → GoString
gen_trait_name compute_hash component_name ct trait_type =
    component_name ++ (codes "-" ++ (middle ++ (codes "-" ++ compute_hash ct)))
  where
    middle : GoString
    middle = if is_empty trait_type then codes "trait" else to_lower trait_type
