-- ===== src/Webhook/Content.antt =====
-- The content of an object under admission, a map[string]interface{}, and what the webhooks use of
-- encoding/json, of apimachinery's unstructured.Unstructured and of the discovery mapper: parameters.
use oam_kubernetes_runtime.Base.{
  GoString, codes, ◌==◌, ==_iff, is_empty, Bool, true, false, Option, [], ◌∷◌, Map, ◌++◌,
  if◌then◌else◌, Result, ok, ◌≡◌, refl, arith,
}
use oam_kubernetes_runtime.Api.Value.{
  Value, null, bool, number, str, slice, object, Fields, end, field, Unstructured,
}

-- content[k], which is nil where the key is missing
unfoldable pub get_field : GoString → Fields → Value
get_field k end = null
get_field k (field j v o) = if j == k then v else get_field k o

-- content[k] = v
unfoldable pub set_field : GoString → Value → Fields → Fields
set_field k v end = field k v end
set_field k v (field j u o) = if j == k then field k v o else field j u (set_field k v o)

-- delete(content, k)
unfoldable pub delete_field : GoString → Fields → Fields
delete_field k end = end
delete_field k (field j u o) =
    let rest = delete_field k o in if j == k then rest else field j u rest

abbrev pub is_nil_value : Value → Bool
is_nil_value null = true
is_nil_value (bool _) = false
is_nil_value (number _) = false
is_nil_value (str _) = false
is_nil_value (slice _) = false
is_nil_value (object _) = false

pub get_field-delete_field :
    (k j : GoString) (o : Fields)
    → get_field j (delete_field k o) ≡ (if k == j then null else get_field j o)
unfolding get_field delete_field
get_field-delete_field k j end = ground arith
get_field-delete_field k j (field i u o) =
    ground (arith, ==_iff k j, ==_iff i k, ==_iff i j, get_field-delete_field k j o)

pub get_field-set_field :
    (k j : GoString) (v : Value) (o : Fields)
    → get_field j (set_field k v o) ≡ (if k == j then v else get_field j o)
unfolding get_field set_field
get_field-set_field k j v end = refl
get_field-set_field k j v (field i u o) =
    ground (arith, ==_iff k j, ==_iff i k, ==_iff i j, get_field-set_field k j v o)

abbrev pub api_version_key : GoString
api_version_key = codes "apiVersion"

abbrev pub kind_key : GoString
kind_key = codes "kind"

abbrev pub metadata_key : GoString
metadata_key = codes "metadata"

-- The getters and setters of unstructured.Unstructured on a content. `view` is the object that the
-- getters show.
pub record Accessors : Type 0 where
  pub view : Fields → Unstructured
  pub set_api_version : GoString → Fields → Fields
  pub set_kind : GoString → Fields → Fields
  pub set_namespace : GoString → Fields → Fields
  pub set_labels : Option (Map GoString) → Fields → Fields
  pub set_annotations : Option (Map GoString) → Fields → Fields

-- What the package documents of them: each sets its own field.
pub record Documented (acc : Accessors) : Type 0 where
  pub content-view : (o : Fields) → (acc.view o).content ≡ object o
  pub api_version-set :
      (v : GoString) (o : Fields) → (acc.view (acc.set_api_version v o)).api_version ≡ v
  pub kind-set : (v : GoString) (o : Fields) → (acc.view (acc.set_kind v o)).kind ≡ v
  pub api_version-set_kind :
      (v : GoString) (o : Fields)
      → (acc.view (acc.set_kind v o)).api_version ≡ (acc.view o).api_version
  pub api_version-set_namespace :
      (v : GoString) (o : Fields)
      → (acc.view (acc.set_namespace v o)).api_version ≡ (acc.view o).api_version
  pub kind-set_namespace :
      (v : GoString) (o : Fields) → (acc.view (acc.set_namespace v o)).kind ≡ (acc.view o).kind
  pub api_version-set_labels :
      (m : Option (Map GoString)) (o : Fields)
      → (acc.view (acc.set_labels m o)).api_version ≡ (acc.view o).api_version
  pub kind-set_labels :
      (m : Option (Map GoString)) (o : Fields)
      → (acc.view (acc.set_labels m o)).kind ≡ (acc.view o).kind
  pub api_version-set_annotations :
      (m : Option (Map GoString)) (o : Fields)
      → (acc.view (acc.set_annotations m o)).api_version ≡ (acc.view o).api_version
  pub kind-set_annotations :
      (m : Option (Map GoString)) (o : Fields)
      → (acc.view (acc.set_annotations m o)).kind ≡ (acc.view o).kind
  pub field-set_api_version :
      (k v : GoString) (o : Fields)
      → (k == api_version_key) ≡ false
      → get_field k (acc.set_api_version v o) ≡ get_field k o
  pub field-set_kind :
      (k v : GoString) (o : Fields)
      → (k == kind_key) ≡ false
      → get_field k (acc.set_kind v o) ≡ get_field k o
  pub field-set_namespace :
      (k v : GoString) (o : Fields)
      → (k == metadata_key) ≡ false
      → get_field k (acc.set_namespace v o) ≡ get_field k o
  pub field-set_labels :
      (k : GoString) (m : Option (Map GoString)) (o : Fields)
      → (k == metadata_key) ≡ false
      → get_field k (acc.set_labels m o) ≡ get_field k o
  pub field-set_annotations :
      (k : GoString) (m : Option (Map GoString)) (o : Fields)
      → (k == metadata_key) ≡ false
      → get_field k (acc.set_annotations m o) ≡ get_field k o

-- json.Unmarshal into a map, where JSON's null is the nil map, and json.Marshal of one
pub record ContentJson : Type 0 where
  pub unmarshal : GoString → Result GoString Fields
  pub marshal : Fields → Result GoString GoString

-- metav1.GroupVersion and GroupVersionKind
pub record GroupVersionKind : Type 0 where
  pub group : GoString
  pub version : GoString
  pub kind : GoString

-- GroupVersion.String
unfoldable pub group_version_text : GoString → GoString → GoString
group_version_text group version =
    if is_empty group then version else group ++ (codes "/" ++ version)

-- What encoding/json documents of a content that it writes and reads again, as far as the webhooks
-- rely on it: the same keys have a value, and the type of the object is the same.
pub record RoundTrip (js : ContentJson) (acc : Accessors) : Type 0 where
  pub read : Fields → Fields
  pub unmarshal-marshal :
      (o : Fields) (raw : GoString) → js.marshal o ≡ ok raw → js.unmarshal raw ≡ ok (read o)
  pub nil-read :
      (k : GoString) (o : Fields)
      → is_nil_value (get_field k (read o)) ≡ is_nil_value (get_field k o)
  pub api_version-read : (o : Fields) → (acc.view (read o)).api_version ≡ (acc.view o).api_version
  pub kind-read : (o : Fields) → (acc.view (read o)).kind ≡ (acc.view o).kind

pub null_of_nil : (v : Value) → is_nil_value v ≡ true → v ≡ null
null_of_nil null h = refl
null_of_nil (bool _) h = cc
null_of_nil (number _) h = cc
null_of_nil (str _) h = cc
null_of_nil (slice _) h = cc
null_of_nil (object _) h = cc

pub group_version_text_full :
    (group version : GoString)
    → is_empty version ≡ false
    → is_empty (group_version_text group version) ≡ false
unfolding group_version_text
group_version_text_full [] version h = h
group_version_text_full (x ∷ group) version h = refl
