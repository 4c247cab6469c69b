-- ===== src/ApiClient/Request.antt =====
-- What the methods of the client hand to `fetch`: the method, the path as the pieces of its
-- template, the entries of its `URLSearchParams`, and the object given to `JSON.stringify`.
use github_idea_os_app.Base.{
  ℕ, String, Option, none, some, List, [], ◌∷◌, if◌then◌else◌, ◌==◌, string_eq, nat_eq, option_eq,
  is_nonempty, is_empty,
}
use github_idea_os_app.Base.Dict.{Dict, set}
use github_idea_os_app.Types.Value.{
  Value, text, array, object, Fields, end, field, Items, nil, cons,
}

pub data Method : Type 0 where
  get_method post_method put_method patch_method delete_method : Method

-- A value of a query: a text, or `String(n)`.
pub data Param : Type 0 where
  param : String → Param
  count : ℕ → Param

pub record Request : Type 0 where
  pub method : Method
  pub path : List String
  pub query : Option (Dict String Param)
  pub body : Option Value

abbrev pub send : Method → List String → Request
send method path = record { method = method; path = path; query = none; body = none }

abbrev pub send_json : Method → List String → Value → Request
send_json method path data_value = record {
  method = method;
  path = path;
  query = none;
  body = some data_value;
}

abbrev pub send_query : List String → Dict String Param → Request
send_query path query = record { method = get_method; path = path; query = some query; body = none }

-- `if (value) search.set(name, value)`
unfoldable pub set_text : String → Option String → Dict String Param → Dict String Param
set_text name none search = search
set_text name (some s) search = if is_nonempty s then set name (param s) search else search

unfoldable pub set_count : String → Option ℕ → Dict String Param → Dict String Param
set_count name none search = search
set_count name (some n) search = if n == 0 then search else set name (count n) search

-- `...(value ? { name: value } : {})`
unfoldable pub text_field : String → Option String → Fields → Fields
text_field name none rest = rest
text_field name (some s) rest = if is_nonempty s then field name (text s) rest else rest

abbrev pub texts : List String → Items
texts [] = nil
texts (s ∷ ss) = cons (text s) (texts ss)

-- `...(values?.length ? { name: values } : {})`
unfoldable pub texts_field : String → Option (List String) → Fields → Fields
texts_field name none rest = rest
texts_field name (some ss) rest = if is_empty ss then rest else field name (array (texts ss)) rest

-- An object of one field.
abbrev pub single : String → Value → Value
single name v = object (field name v end)
