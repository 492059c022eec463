-- ===== src/Apply/Patch.antt =====
-- apply.go, jsonOperation: the JSON patch that an operation of a data store makes.
pub mod Quoting
use oam_kubernetes_runtime.Base.{
  ℕ, GoString, codes, ◌==◌, is_empty, Bool, true, false, not, ◌&&◌, ◌||◌, Option, none, some, List,
  [], ◌∷◌, ◌++◌, is_nil, Map, nat_eq, drop_last, last_or, if◌then◌else◌, ltb, length, Result, ok,
  err, ◌>>=◌,
}
use oam_kubernetes_runtime.Api.{
  TypedReference, DataOperation, StoreReference, DataOutput, DataInput,
}
use oam_kubernetes_runtime.Api.Value.{Value, Unstructured, object, end}
use oam_kubernetes_runtime.Api.Fieldpath.{Got, found, missing, failed, Fieldpath}

pub data DataError : Type 0 where
  get_error apply_error marshal_error value_error patch_error : DataError
  unmarshal_workload invaild_operation_type invaild_operation_value_and_value_from : DataError

-- How Apply of an Applicator ends.
pub data Applied (W : Type 0) : Type 0 where
  done : W → Applied W
  generation_unchanged : W → Applied W
  refused : Applied W

-- encoding/json, gjson.GetBytes with String, and DecodePatch with Apply of jsonpatch
pub record Json : Type 0 where
  pub marshal : Unstructured → Option GoString
  pub marshal_value : Value → Option GoString
  pub get_bytes : GoString → GoString → GoString
  pub apply_patch : GoString → GoString → Option GoString
  pub unmarshal : GoString → Unstructured → Option Unstructured

-- strings.ReplaceAll(s, `\c`, `c`)
unfoldable pub unescape : ℕ → GoString → GoString
unescape c [] = []
unescape c (x ∷ []) = x ∷ []
unescape c (x ∷ y ∷ s) =
    let skipped = unescape c s in
    let kept = unescape c (y ∷ s) in if nat_eq x b'\\' && nat_eq y c then c ∷ skipped else x ∷ kept

-- strings.ReplaceAll(s, `c`, `\c`)
unfoldable pub escape : ℕ → GoString → GoString
escape c [] = []
escape c (x ∷ s) = if nat_eq x c then b'\\' ∷ c ∷ escape c s else x ∷ escape c s

-- strings.ReplaceAll(s, c, d)
pub replace : ℕ → ℕ → GoString → GoString
replace c d [] = []
replace c d (x ∷ s) = (if nat_eq x c then d else x) ∷ replace c d s

-- A JSON string with that content.
unfoldable pub quote : GoString → GoString
quote s = b'"' ∷ (escape b'"' (escape b'\\' s) ++ (b'"' ∷ []))

is_quoted : GoString → Bool
is_quoted [] = false
is_quoted (x ∷ s) = not (is_empty s) && nat_eq x b'"' && nat_eq (last_or s x) b'"'

strip : GoString → GoString
strip [] = []
strip (x ∷ s) = drop_last s

-- The value that jsonOperation puts in the patch.
unfoldable pub patch_value : GoString → GoString → GoString
unfolding is_quoted strip
patch_value value to_data_path =
    let v = unescape b'\\' (unescape b'"' value) in
    if is_quoted v then quote (strip v) else if not (is_empty to_data_path) then quote v else v

-- The path, with a slash before it; the path is not empty.
pointer : GoString → GoString
unfolding replace
pointer path = elim (replace b'.' b'/' path) [
  | [] ↦ []
  | c ∷ s ↦ if nat_eq c b'/' then c ∷ s else b'/' ∷ c ∷ s
]

unfoldable pub json_operation :
    Json → GoString → GoString → GoString → GoString → GoString → Option GoString
unfolding pointer
json_operation j json_bytes op path value to_data_path =
    if is_empty json_bytes || is_empty path
    then some value
    else j.apply_patch
        (codes "[{\"op\": \""
          ++ (op
              ++ (codes "\", \"path\": \""
                  ++ (pointer path
                      ++ (codes "\", \"value\": "
                          ++ (patch_value value to_data_path ++ codes "}]"))))))
        json_bytes
