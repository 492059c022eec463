-- ===== src/Apply/Scopes.antt =====
-- apply.go, applyScope, applyScopeRemoval and the dereferencing of scopes: a scope object keeps
-- the list of the workloads that belong to it under the path that its definition names.
pub mod Index
pub mod Refs
pub mod Removal
pub mod Steady
use oam_kubernetes_runtime.Base.{
  ℕ, zero, suc, GoString, codes, ◌==◌, is_empty, Bool, true, false, not, ◌&&◌, Option, none, some,
  List, [], ◌∷◌, ◌++◌, any, drop_last, if◌then◌else◌, Result, ok, err, ◌>>=◌,
}
use oam_kubernetes_runtime.Api.{TypedReference, WorkloadScope, WorkloadStatus, ScopeDefinition}
use oam_kubernetes_runtime.Api.Value.{
  Value, null, bool, number, str, slice, object, Values, nil, cons, Fields, end, field,
  Unstructured,
}
use oam_kubernetes_runtime.Api.Fieldpath.{Got, found, missing, failed, Fieldpath, Reader}
use oam_kubernetes_runtime.Util.Definitions.{DefinitionReader, fetch_scope_definition}
use oam_kubernetes_runtime.Workload.{Workload}

-- The errors that are wrapped, by the format of their texts, and the panics.
pub data ScopeError : Type 0 where
  get_scope_definition get_scope_workload_ref get_scope_workload_refs_path : ScopeError
  set_scope_workload_ref scope_not_applied not_a_slice not_a_map : ScopeError

-- What the code calls: the client's Get and Update on a state W of the cluster, what it reads of
-- definitions, and the package fieldpath.
pub record ScopeClient (W : Type 0) : Type 0 where
  pub get : W → GoString → GoString → GoString → GoString → Got Unstructured
  pub update : W → Unstructured → Option W
  pub definitions : DefinitionReader
  pub fieldpath : Fieldpath

-- The field WorkloadRefsPath of a definition that was read.
unfoldable pub refs_path : Got ScopeDefinition → Option GoString
refs_path (found definition) = some definition.workload_refs_path
refs_path missing = none
refs_path (failed _) = none

unfoldable pub items : Values → List Value
items nil = []
items (cons v vs) = v ∷ items vs

unfoldable pub values_of : List Value → Values
values_of [] = nil
values_of (v ∷ vs) = cons v (values_of vs)

-- value.([]interface{})
unfoldable pub as_slice : Value → Result ScopeError (List Value)
as_slice null = err not_a_slice
as_slice (bool _) = err not_a_slice
as_slice (number _) = err not_a_slice
as_slice (str _) = err not_a_slice
as_slice (slice vs) = ok (items vs)
as_slice (object _) = err not_a_slice

-- item.(map[string]interface{})
unfoldable pub as_map : Value → Result ScopeError Fields
as_map null = err not_a_map
as_map (bool _) = err not_a_map
as_map (number _) = err not_a_map
as_map (str _) = err not_a_map
as_map (slice _) = err not_a_map
as_map (object o) = ok o

-- Whether the field of an object is that string.
unfoldable pub field_is : GoString → GoString → Fields → Bool
field_is k s end = false
field_is k s (field j v o) =
    if j == k
    then elim v [
      | null ↦ false
      | bool _ ↦ false
      | number _ ↦ false
      | str t ↦ s == t
      | slice _ ↦ false
      | object _ ↦ false
    ]
    else field_is k s o

unfoldable pub is_ref : TypedReference → Fields → Bool
is_ref r o =
    field_is (codes "apiVersion") r.api_version o
    && field_is (codes "kind") r.kind o
    && field_is (codes "name") r.name o

-- The index of the first reference to that object.
unfoldable pub ref_index : TypedReference → List Value → Result ScopeError (Option ℕ)
ref_index r [] = ok none
ref_index r (v ∷ vs) = as_map v >>= λ o.
    if is_ref r o
    then ok (some zero)
    else (ref_index r vs >>= λ i. ok (elim i [ none ↦ none | some n ↦ some (suc n) ]))

-- A reference as JSON; the UID is left out if it is empty.
abbrev pub ref_value : TypedReference → Value
ref_value r = object (
    field (codes "apiVersion") (str r.api_version) (
      field (codes "kind") (str r.kind) (
        field (codes "name") (str r.name)
          (if is_empty r.uid then end else field (codes "uid") (str r.uid) end))))

-- The list of applyScope, or nothing if it need not change.
unfoldable pub add_ref : TypedReference → List Value → Result ScopeError (Option (List Value))
add_ref r refs = ref_index r refs >>= λ i.
    ok (elim i [ none ↦ some (refs ++ (ref_value r ∷ [])) | some _ ↦ none ])

set_at : ℕ → Value → List Value → List Value
set_at n x [] = []
set_at zero x (v ∷ vs) = x ∷ vs
set_at (suc n) x (v ∷ vs) = v ∷ set_at n x vs

last_value : Value → List Value → Value
last_value x [] = x
last_value x (v ∷ vs) = last_value v vs

-- refs[i] = refs[len(refs)-1]; refs = refs[:len(refs)-1]
unfoldable pub swap_remove : ℕ → List Value → List Value
unfolding set_at last_value
swap_remove n refs = drop_last (set_at n (last_value null refs) refs)

-- The list of applyScopeRemoval, or nothing if it need not change.
unfoldable pub remove_ref : TypedReference → List Value → Result ScopeError (Option (List Value))
remove_ref r refs =
    ref_index r refs >>= λ i. ok (elim i [ none ↦ none | some n ↦ some (swap_remove n refs) ])

module _ {W : Type 0} (cl : ScopeClient W) where
  write_refs : W → Unstructured → GoString → Option (List Value) → Result ScopeError W
  write_refs w s path none = ok w
  write_refs w s path (some refs) = elim (cl.fieldpath.set_value s path (slice (values_of refs))) [
    | err _ ↦ err set_scope_workload_ref
    | ok s' ↦ elim (cl.update w s') [ none ↦ err scope_not_applied | some w' ↦ ok w' ]
  ]

  change_refs :
      W
      → Unstructured
      → GoString
      → (List Value → Result ScopeError (Option (List Value)))
      → Result ScopeError W
  change_refs w s path change = elim (cl.fieldpath.get_value s path) [
    | found v ↦ (as_slice v >>= λ refs. change refs >>= λ new. write_refs w s path new)
    | missing ↦ err get_scope_workload_ref
    | failed _ ↦ err get_scope_workload_ref
  ]

  -- applyScope
  unfoldable pub apply_scope : W → Unstructured → TypedReference → Result ScopeError W
  unfolding change_refs write_refs refs_path
  apply_scope w s workload_ref = elim (refs_path (fetch_scope_definition cl.definitions s)) [
    | none ↦ err get_scope_definition
    | some path ↦ if is_empty path then ok w else change_refs w s path (add_ref workload_ref)
  ]

  -- applyScopeRemoval
  unfoldable pub apply_scope_removal :
      W → GoString → TypedReference → WorkloadScope → Result ScopeError W
  unfolding change_refs write_refs refs_path
  apply_scope_removal w namespace wr s =
      elim (cl.get w s.reference.api_version s.reference.kind namespace s.reference.name) [
        | missing ↦ ok w
        | failed _ ↦ err scope_not_applied
        | found scope ↦ elim (refs_path (fetch_scope_definition cl.definitions scope)) [
          | none ↦ err get_scope_definition
          | some path ↦
              if is_empty path
              then err get_scope_workload_refs_path
              else change_refs w scope path (remove_ref wr)
        ]
      ]

  unfoldable pub remove_from :
      GoString → TypedReference → List WorkloadScope → W → Result ScopeError W
  remove_from namespace wr [] w = ok w
  remove_from namespace wr (s ∷ ss) w =
      apply_scope_removal w namespace wr s >>= λ w'. remove_from namespace wr ss w'

  -- dereferenceAllScopes
  unfoldable pub dereference_all_scopes : GoString → List WorkloadStatus → W → Result ScopeError W
  unfolding remove_from
  dereference_all_scopes namespace [] w = ok w
  dereference_all_scopes namespace (st ∷ sts) w =
      remove_from namespace st.reference st.scopes w >>= λ w'.
      dereference_all_scopes namespace sts w'

-- Whether that is the object the reference is to.
unfoldable pub refers_to : TypedReference → Unstructured → Bool
refers_to r u = r.api_version == u.api_version && r.kind == u.kind && r.name == u.name

-- findDereferencedScopes
unfoldable pub find_dereferenced_scopes :
    List WorkloadScope → List Unstructured → List WorkloadScope
find_dereferenced_scopes [] scopes = []
find_dereferenced_scopes (ss ∷ status_scopes) scopes =
    let rest = find_dereferenced_scopes status_scopes scopes in
    if not (any (refers_to ss.reference) scopes) then ss ∷ rest else rest

-- The scopes that dereferenceScope removes a workload from; the last matching workload counts.
unfoldable pub to_be_dereferenced :
    WorkloadStatus → List Workload → List WorkloadScope → List WorkloadScope
to_be_dereferenced st [] scopes = scopes
to_be_dereferenced st (wl ∷ ws) scopes = to_be_dereferenced st ws (
    if refers_to st.reference wl.workload
    then find_dereferenced_scopes st.scopes wl.scopes
    else scopes)

module _ {W : Type 0} (cl : ScopeClient W) where
  -- dereferenceScope
  unfoldable pub dereference_scope :
      GoString → List WorkloadStatus → List Workload → W → Result ScopeError W
  unfolding remove_from
  dereference_scope namespace [] ws w = ok w
  dereference_scope namespace (st ∷ sts) ws w =
      remove_from cl namespace st.reference (to_be_dereferenced st ws st.scopes) w >>= λ w'.
      dereference_scope namespace sts ws w'
