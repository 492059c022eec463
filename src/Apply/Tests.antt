-- ===== src/Apply/Tests.antt =====
-- apply.go: the theorems on scopes, quoting and finalization at concrete objects.
use mathlib.Core.List.{Permᴰ}
use oam_kubernetes_runtime.Base.{
  codes, ◌==◌, true, false, some, none, Option, List, [], ◌∷◌, ◌++◌, any, drop_last, All, ◌⊎◌, ◌≡◌,
  refl, ok,
}
use oam_kubernetes_runtime.Api.{TypedReference, ApplicationConfiguration}
use oam_kubernetes_runtime.Api.Value.{Value, slice, Unstructured}
use oam_kubernetes_runtime.Api.Fieldpath.{found, missing}
use oam_kubernetes_runtime.Workload.{Workload, status}
use oam_kubernetes_runtime.Samples.{
  sample_object, sample_reference, sample_status, sample_workload, sample_configuration,
}
use oam_kubernetes_runtime.Reconcile.Finalizers.{workload_scope_finalizer}
use oam_kubernetes_runtime.Reconcile.Tests.{listed}
use oam_kubernetes_runtime.Apply.{apply, finalize}
use oam_kubernetes_runtime.Apply.Waiting.{AgreeOn, apply_same}
use oam_kubernetes_runtime.Apply.Scopes.{
  ScopeClient, as_map, field_is, is_ref, ref_index, ref_value, apply_scope_removal, add_ref,
  swap_remove, remove_ref, remove_from, dereference_scope, dereference_all_scopes, refers_to,
  values_of, items, as_slice, refs_path,
}
use oam_kubernetes_runtime.Apply.Scopes.Refs.{remove_ref-perm}
use oam_kubernetes_runtime.Apply.Scopes.Index.{IsRefTo}
use oam_kubernetes_runtime.Apply.Scopes.Steady.{dereference_scope-status, DistinctReferences}
use oam_kubernetes_runtime.Apply.Data.{DataClient}
use oam_kubernetes_runtime.Apply.Patch.{done, refused}
use oam_kubernetes_runtime.Apply.Finalization.{finalize-Removed}
use oam_kubernetes_runtime.Apply.Scopes.Removal.{IsGone, AllLeft}
use oam_kubernetes_runtime.Util.Definitions.{fetch_scope_definition}

abbrev web : TypedReference
web = sample_reference (codes "web")

abbrev members : List Value
members =
    ref_value web
    ∷ ref_value (sample_reference (codes "db"))
    ∷ ref_value (sample_reference (codes "cache"))
    ∷ []

adds :
    add_ref (sample_reference (codes "new")) members
    ≡ ok (some (members ++ (ref_value (sample_reference (codes "new")) ∷ [])))
unfolding add_ref ref_index as_map is_ref field_is ◌==◌
adds = refl

abbrev others : List Value
others =
    ref_value (sample_reference (codes "cache")) ∷ ref_value (sample_reference (codes "db")) ∷ []

removes : remove_ref web members ≡ ok (some others)
unfolding remove_ref swap_remove ref_index as_map is_ref field_is ◌==◌ drop_last
removes = refl

remove_ref-perm_example : (v : Value) × IsRefTo web v × Permᴰ members (v ∷ others)
remove_ref-perm_example = remove_ref-perm web members others removes

-- A cluster whose state is its only scope, if that exists.
abbrev scope_client : ScopeClient (Option Unstructured)
scope_client = record {
  get = λ w v k ns n. elim w [ none ↦ missing | some u ↦ found u ];
  update = λ w u. some (some u);
  definitions = record {
    parse_group_version = λ v. ok (codes "core.oam.dev", codes "v1alpha2");
    rest_mapping = λ g k v. found (codes "healthscopes");
    definition_namespace = [];
    get_trait_definition = λ n. missing;
    get_workload_definition = λ n. missing;
    get_scope_definition = λ n. found (record {
      name = n.name;
      reference = record { name = n.name; version = [] };
      workload_refs_path = codes "spec.workloadRefs";
    });
  };
  fieldpath = record {
    get_value = λ u p. found u.content;
    get_string = λ u p. ok u.name;
    set_value = λ u p v. ok (record u { content = v });
  };
}

abbrev workloads : List Workload
workloads =
    sample_workload (codes "web") [] (sample_object (codes "health") ∷ [])
    ∷ sample_workload (codes "db") [] []
    ∷ []

distinct : DistinctReferences workloads
unfolding refers_to ◌==◌
distinct = ((refl, tt), (tt, tt))

dereference_scope-status_example :
    dereference_scope scope_client
      (codes "default")
      (status (sample_workload (codes "web") [] (sample_object (codes "health") ∷ []))
        ∷ status (sample_workload (codes "db") [] [])
        ∷ [])
      workloads
      none
    ≡ ok none
dereference_scope-status_example =
    dereference_scope-status scope_client (codes "default") workloads none distinct

abbrev configuration : ApplicationConfiguration
configuration =
    record (sample_configuration [] (
      sample_status (codes "web") []
        (record { status = []; reference = sample_reference (codes "health") } ∷ [])
      ∷ [])) {
        metadata = record {
          name = codes "app";
          namespace = codes "default";
          uid = [];
          generation = 1;
          deleting = true;
          finalizers = workload_scope_finalizer ∷ [];
          labels = none;
          annotations = none;
        };
      }

abbrev finalized : ApplicationConfiguration
finalized = record configuration {
  metadata = listed.remove_finalizer configuration.metadata workload_scope_finalizer;
}

-- The scope before and after.
abbrev listing : Unstructured
listing = record (sample_object (codes "health")) { content = slice (values_of members) }

abbrev shortened : Unstructured
shortened = record listing { content = slice (values_of others) }

finalizes :
    finalize scope_client listed configuration (some listing) ≡ ok (finalized, some shortened)
unfolding finalize any ◌==◌ dereference_all_scopes remove_from apply_scope_removal remove_ref
    swap_remove ref_index as_map is_ref field_is drop_last fetch_scope_definition values_of items
    as_slice refs_path
finalizes = refl

finalize-Removed_example :
    (listed.finalizer_exists finalized.metadata workload_scope_finalizer ≡ false)
    × (finalized.components ≡ configuration.components)
    × (finalized.status ≡ configuration.status)
    × (((listed.finalizer_exists configuration.metadata workload_scope_finalizer ≡ true)
          × AllLeft scope_client
              (codes "default")
              configuration.status.workloads
              (some listing)
              (some shortened))
        ⊎ ((listed.finalizer_exists configuration.metadata workload_scope_finalizer ≡ false)
            × (finalized ≡ configuration)
            × (◌≡◌ {A = Option Unstructured} (some shortened) (some listing))))
finalize-Removed_example =
    finalize-Removed scope_client listed configuration finalized (some listing) (some shortened)
      finalizes

gone :
    All
      (λ st. All (IsGone scope_client none (codes "default")) st.scopes)
      configuration.status.workloads
unfolding IsGone
gone = ((refl, tt), tt)

abbrev data_client : DataClient (Option Unstructured)
data_client = record {
  get = λ w v k ns n. missing;
  patching_apply = λ w u. done (some u);
  updating_apply = λ w u. done w;
  set_owners_of = λ u v. v;
  json = record {
    marshal = λ u. some u.name;
    marshal_value = λ v. none;
    get_bytes = λ j p. [];
    apply_patch = λ p j. none;
    unmarshal = λ j u. some u;
  };
  fieldpath = scope_client.fieldpath;
}

abbrev waiting : Workload
waiting = record (sample_workload (codes "web") [] []) { has_dep = true }

never_ready : AgreeOn scope_client data_client (λ w u. refused) waiting
unfolding AgreeOn
never_ready ready = absurd (cc)

apply_same_example :
    apply scope_client
      (record data_client { patching_apply = λ w u. refused })
      []
      (waiting ∷ [])
      none
    ≡ apply scope_client data_client [] (waiting ∷ []) none
apply_same_example =
    apply_same scope_client data_client (λ w u. refused) [] (waiting ∷ []) none (never_ready, tt)
