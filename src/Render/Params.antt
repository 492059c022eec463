-- ===== src/Render/Params.antt =====
-- pkg/controller/v1alpha2/applicationconfiguration/render.go, resolve: the parameters of a
-- component with the values that an application configuration supplies. Go's map has no order, so
-- the order of the result says nothing.
pub mod Resolve
use oam_kubernetes_runtime.Base.{
  GoString, ◌==◌, Bool, true, false, not, Option, none, some, List, [], ◌∷◌, map, Map, lookup,
  insert, has_key, if◌then◌else◌, Result, ok, err, ◌>>=◌,
}
use oam_kubernetes_runtime.Api.{IntOrString, ComponentParameter, ComponentParameterValue}

pub record Parameter : Type 0 where
  pub name : GoString
  pub value : IntOrString
  pub field_paths : List GoString

pub data ParamError : Type 0 where
  unsupported : GoString → ParamError
  required_missing : GoString → ParamError

-- p.Required != nil && *p.Required
unfoldable pub is_required : ComponentParameter → Bool
is_required p = elim p.required [ none ↦ false | some b ↦ b ]

unfoldable pub supported : Map Bool → List ComponentParameter → Map Bool
supported m [] = m
supported m (v ∷ cp) = supported (insert v.name true m) cp

unfoldable pub set_values :
    Map Bool → List ComponentParameterValue → Map Parameter → Result ParamError (Map Parameter)
set_values known [] m = ok m
set_values known (v ∷ cpv) m =
    let rest =
      set_values known cpv
        (insert v.name (record { name = v.name; value = v.value; field_paths = [] }) m) in
    if not (has_key v.name known) then err (unsupported v.name) else rest

unfoldable pub set_paths :
    List ComponentParameter → Map Parameter → Result ParamError (Map Parameter)
set_paths [] m = ok m
set_paths (p ∷ cp) m = elim (lookup p.name m) [
  | none ↦ if is_required p then err (required_missing p.name) else set_paths cp m
  | some q ↦ set_paths cp (insert p.name (record q { field_paths = p.field_paths }) m)
]

unfoldable pub values : Map Parameter → List Parameter
values m = map (λ kv. kv.1) m

unfoldable pub resolve :
    List ComponentParameter → List ComponentParameterValue → Result ParamError (List Parameter)
resolve cp cpv = do
  set ← set_values (supported [] cp) cpv []
  set' ← set_paths cp set
  ok (values set')
