-- ===== src/Webhook/Samples.antt =====
-- Getters and setters of contents, and JSON of two texts, for the tests of the webhooks.
use oam_kubernetes_runtime.Base.{
  GoString, codes, ◌==◌, ==_iff, ==_refl, false, Bool-cases, none, [], if◌then◌else◌, Result, ok,
  err, ok_inj, err-ne-ok, ◌≡◌, refl, sym, ap, ◌∙◌, inl, inr, ℕ_discrete,
}
use oam_kubernetes_runtime.Api.Value.{
  Value, null, bool, number, str, slice, object, Fields, end, field, Unstructured,
}
use oam_kubernetes_runtime.Webhook.Content.{
  get_field, set_field, get_field-set_field, api_version_key, kind_key, metadata_key, Accessors,
  Documented, ContentJson, RoundTrip,
}

abbrev text_of : Value → GoString
text_of null = []
text_of (bool _) = []
text_of (number _) = []
text_of (str s) = s
text_of (slice _) = []
text_of (object _) = []

abbrev view_of : Fields → Unstructured
view_of o = record {
  api_version = text_of (get_field api_version_key o);
  kind = text_of (get_field kind_key o);
  name = [];
  namespace = [];
  uid = [];
  labels = none;
  annotations = none;
  content = object o;
}

-- The metadata are the namespace that was set, or nothing.
abbrev pub plain : Accessors
plain = record {
  view = view_of;
  set_api_version = λ v o. set_field api_version_key (str v) o;
  set_kind = λ v o. set_field kind_key (str v) o;
  set_namespace = λ v o. set_field metadata_key (object (field (codes "namespace") (str v) end)) o;
  set_labels = λ m o. o;
  set_annotations = λ m o. o;
}

get-set_self : (k : GoString) (v : Value) (o : Fields) → get_field k (set_field k v o) ≡ v
get-set_self k v o = rw (get_field-set_field k k v o, ==_refl k) refl

get-set_other :
    (k j : GoString) (v : Value) (o : Fields)
    → (j == k) ≡ false
    → get_field j (set_field k v o) ≡ get_field j o
get-set_other k j v o h = rw (get_field-set_field k j v o, differ) refl
  where
    differ : (k == j) ≡ false
    differ = elim (Bool-cases (k == j)) [
      | inl e ↦ e ∙ sym ((==_iff j k).1 (sym ((==_iff k j).0 e))) ∙ h
      | inr e ↦ e
    ]

kind-ne-api_version : (kind_key == api_version_key) ≡ false
unfolding ◌==◌
kind-ne-api_version = refl

api_version-ne-kind : (api_version_key == kind_key) ≡ false
unfolding ◌==◌
api_version-ne-kind = refl

api_version-ne-metadata : (api_version_key == metadata_key) ≡ false
unfolding ◌==◌
api_version-ne-metadata = refl

kind-ne-metadata : (kind_key == metadata_key) ≡ false
unfolding ◌==◌
kind-ne-metadata = refl

pub plain-Documented : Documented plain
plain-Documented = record {
  content-view = λ o. refl;
  api_version-set = λ v o. ap text_of (get-set_self api_version_key (str v) o);
  kind-set = λ v o. ap text_of (get-set_self kind_key (str v) o);
  api_version-set_kind =
      λ v o. ap text_of (get-set_other kind_key api_version_key (str v) o api_version-ne-kind);
  api_version-set_namespace =
      λ v o. ap text_of (get-set_other metadata_key api_version_key _ o api_version-ne-metadata);
  kind-set_namespace = λ v o. ap text_of (get-set_other metadata_key kind_key _ o kind-ne-metadata);
  api_version-set_labels = λ m o. refl;
  kind-set_labels = λ m o. refl;
  api_version-set_annotations = λ m o. refl;
  kind-set_annotations = λ m o. refl;
  field-set_api_version = λ k v o h. get-set_other api_version_key k (str v) o h;
  field-set_kind = λ k v o h. get-set_other kind_key k (str v) o h;
  field-set_namespace = λ k v o h. get-set_other metadata_key k _ o h;
  field-set_labels = λ k m o h. refl;
  field-set_annotations = λ k m o h. refl;
}

pub Fields-discrete : Discrete Fields
Fields-discrete = hlevel (ℕ_discrete)

module _ (source written : Fields) where
  unfoldable pub marshal_if : (o : Fields) → Dec (o ≡ written) → Result GoString GoString
  marshal_if o (yes p) = ok (codes "written")
  marshal_if o (no p) = err (codes "not written here")

  -- JSON of which one text can be written, and that and another can be read.
  abbrev pub two_texts : ContentJson
  two_texts = record {
    unmarshal = λ s. if s == codes "written" then ok written else ok source;
    marshal = λ o. marshal_if o (Fields-discrete o written);
  }

  marshal_if-ok :
      (o : Fields) (d : Dec (o ≡ written)) (raw : GoString)
      → marshal_if o d ≡ ok raw
      → (o ≡ written) × (raw ≡ codes "written")
  unfolding marshal_if
  marshal_if-ok o (yes p) raw h = (p, sym (ok_inj h))
  marshal_if-ok o (no p) raw h = absurd (err-ne-ok _ raw h)

  two_texts-read :
      (o : Fields) (raw : GoString)
      → marshal_if o (Fields-discrete o written) ≡ ok raw
      → two_texts.unmarshal raw ≡ ok o
  two_texts-read o raw h =
      let (same, text) = marshal_if-ok o (Fields-discrete o written) raw h in
      rw (text, ==_refl (codes "written"), same) refl

  pub two_texts-RoundTrip : RoundTrip two_texts plain
  two_texts-RoundTrip = record {
    read = λ o. o;
    unmarshal-marshal = two_texts-read;
    nil-read = λ k o. refl;
    api_version-read = λ o. refl;
    kind-read = λ o. refl;
  }

  -- The content that can be written is.
  pub two_texts-marshal : two_texts.marshal written ≡ ok (codes "written")
  unfolding marshal_if
  two_texts-marshal = written_as (Fields-discrete written written)
    where
      written_as : (d : Dec (written ≡ written)) → marshal_if written d ≡ ok (codes "written")
      written_as (yes p) = refl
      written_as (no p) = absurd (p refl)
