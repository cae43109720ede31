-- ===== src/Json.antt =====
-- JSON values (`JsonValue` of pydantic): tool arguments, evaluator details and cached payloads.
use evalstack.Prelude.{
  zero, String, Bool, true, false, not, Option, none, some, str_eq, if◌then◌else◌,
}
use evalstack.Prelude.Int.{ℤ, pos}
use evalstack.Prelude.Sort.{str_leb}

mutual
  pub data Json : Type 0 where
    null : Json
    boolean : Bool → Json
    int : ℤ → Json
    str : String → Json
    arr : Items → Json
    obj : Fields → Json

  pub data Items : Type 0 where
    nil : Items
    cons : Json → Items → Items

  pub data Fields : Type 0 where
    end : Fields
    field : String → Json → Fields → Fields

-- `d.get(key)` on the fields of an object
unfoldable pub get_field : String → Fields → Option Json
get_field key end = none
get_field key (field k v rest) = if str_eq k key then some v else get_field key rest

-- `value if isinstance(value, str) else None`
unfoldable pub as_string : Option Json → Option String
as_string (some (str s)) = some s
as_string _ = none

-- `not value`
unfoldable pub is_falsy : Json → Bool
is_falsy null = true
is_falsy (boolean b) = not b
is_falsy (int (pos zero)) = true
is_falsy (int n) = false
is_falsy (str s) = str_eq s ""
is_falsy (arr nil) = true
is_falsy (arr (cons x xs)) = false
is_falsy (obj end) = true
is_falsy (obj (field k v rest)) = false

-- `value or default`, where `none` is the default
unfoldable pub truthy : Option Json → Option Json
unfolding is_falsy
truthy none = none
truthy (some v) = if is_falsy v then none else some v

unfoldable pub insert_field : String → Json → Fields → Fields
insert_field k v end = field k v end
insert_field k v (field j w rest) =
    if str_leb k j then field k v (field j w rest) else field j w (insert_field k v rest)

-- `json.loads(json.dumps(value, sort_keys=True))`
unfoldable mutual
  unfolding insert_field

  pub sort_json : Json → Json
  sort_json null = null
  sort_json (boolean b) = boolean b
  sort_json (int n) = int n
  sort_json (str s) = str s
  sort_json (arr xs) = arr (sort_items xs)
  sort_json (obj fs) = obj (sort_fields fs)

  pub sort_items : Items → Items
  sort_items nil = nil
  sort_items (cons x xs) = cons (sort_json x) (sort_items xs)

  pub sort_fields : Fields → Fields
  sort_fields end = end
  sort_fields (field k v rest) = insert_field k (sort_json v) (sort_fields rest)
