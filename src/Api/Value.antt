-- ===== src/Api/Value.antt =====
-- unstructured.Unstructured: a Kubernetes object of any kind. Its metadata are fields; the rest is
-- a JSON value, which the program reaches by field paths only.
use oam_kubernetes_runtime.Base.{GoString, Map, Bool, Option}

mutual
  -- interface{} as encoding/json decodes it; a number is its literal.
  pub data Value : Type 0 where
    null : Value
    bool : Bool → Value
    number : GoString → Value
    str : GoString → Value
    slice : Values → Value
    object : Fields → Value

  pub data Values : Type 0 where
    nil : Values
    cons : Value → Values → Values

  pub data Fields : Type 0 where
    end : Fields
    field : GoString → Value → Fields → Fields

-- append(l, m...)
unfoldable pub append : Values → Values → Values
append nil m = m
append (cons v l) m = cons v (append l m)

pub record Unstructured : Type 0 where
  pub api_version : GoString
  pub kind : GoString
  pub name : GoString
  pub namespace : GoString
  pub uid : GoString
  pub labels : Option (Map GoString)
  pub annotations : Option (Map GoString)
  pub content : Value
