-- ===== src/Schema/Reading.antt =====
-- What the walk of web/src/lib/schemaForm.ts reads of a schema's node, and what it collects.
use Prim.Native.Char.{Char, code}
use Prim.Native.String.{◌++◌}
use skyvirt_kubeui.Prelude.{
  ℕ, String, ◌==◌, Bool, true, false, not, ◌&&◌, ◌||◌, List, [], ◌∷◌, map, Option, none, some,
  if◌then◌else◌, eqb,
}
use mathlib.Core.List
use skyvirt_kubeui.Prelude.Text.{is_filled, pieces}
use skyvirt_kubeui.Json.{
  Json, undefined, null, bool, num, str, arr, obj, Items, nil, cons, Fields, field,
}
use skyvirt_kubeui.Overlay.{get_at_path}

pub data FieldType : Type 0 where
  string number boolean enum array : FieldType

-- `options` is the field `enum`, `item_type` the scalar type of an array's items.
pub record SchemaField (N : Type 0) : Type 0 where
  pub path : List String
  pub key : String
  pub title : String
  pub description : Option String
  pub type : FieldType
  pub required : Bool
  pub options : Items N
  pub default : Json N
  pub minimum : Option N
  pub maximum : Option N
  pub pattern : Option String
  pub item_type : Option FieldType

pub record FlatSchema (N : Type 0) : Type 0 where
  pub fields : List (SchemaField N)
  pub unsupported : List String

-- `path.join(".")`
abbrev pub join : List String → String
join [] = ""
join (s ∷ []) = s
join (s ∷ t ∷ path) = s ++ ("." ++ join (t ∷ path))

-- `s.replace(/~d/g, to)`, for the code of a digit
abbrev pub replace_tilde : ℕ → Char → String → String
replace_tilde d to String.[] = String.[]
replace_tilde d to (String.◌∷◌ c String.[]) = String.◌∷◌ c String.[]
replace_tilde d to (String.◌∷◌ c (String.◌∷◌ e s)) = elim (eqb (code c) 126 && eqb (code e) d) [
  | true ↦ String.◌∷◌ to (replace_tilde d to s)
  | false ↦ String.◌∷◌ c (replace_tilde d to (String.◌∷◌ e s))
]

-- The segment of a JSON pointer: `~1` is a slash, `~0` a tilde.
abbrev pub unescape : String → String
unescape raw = replace_tilde 48 "~" (replace_tilde 49 "/" raw)

-- `ref.slice(2)`, where the reference starts with "#/"
abbrev pub local_part : String → Option String
local_part String.[] = none
local_part (String.◌∷◌ c String.[]) = none
local_part (String.◌∷◌ c (String.◌∷◌ d s)) =
    if eqb (code c) 35 && eqb (code d) 47 then some s else none

module _ {N : Type 0} where
  abbrev pub resolve_local : Fields N → Option String → Json N
  resolve_local root none = undefined
  resolve_local root (some s) = get_at_path (obj root) (map unescape (pieces s))

  unfoldable pub resolve_ref : Fields N → String → Json N
  resolve_ref root ref = resolve_local root (local_part ref)

  abbrev pub is_undefined : Json N → Bool
  is_undefined undefined = true
  is_undefined _ = false

  -- `Boolean(v)`
  abbrev pub is_truthy : (N → Bool) → Json N → Bool
  is_truthy is_zero undefined = false
  is_truthy is_zero null = false
  is_truthy is_zero (bool b) = b
  is_truthy is_zero (num n) = not (is_zero n)
  is_truthy is_zero (str s) = is_filled s
  is_truthy is_zero (arr xs) = true
  is_truthy is_zero (obj fs) = true

  -- `typeof v === "string" ? v : undefined`
  abbrev pub text_of : Json N → Option String
  text_of (str s) = some s
  text_of _ = none

  abbrev pub num_of : Json N → Option N
  num_of (num n) = some n
  num_of _ = none

  -- `Array.isArray(v) ? v : []`
  abbrev pub items_of : Json N → Items N
  items_of (arr xs) = xs
  items_of _ = nil

  abbrev pub text_at : String → Fields N → Option String
  text_at k node = text_of (field k node)

  abbrev pub is_text : String → Json N → Bool
  is_text name (str s) = s == name
  is_text name _ = false

  -- `requiredHere.has(name)`
  abbrev pub has_text : String → Items N → Bool
  has_text name nil = false
  has_text name (cons v vs) = is_text name v || has_text name vs

  -- `if (path.length) unsupported.push(path.join("."))`
  unfoldable pub report : List String → FlatSchema N → FlatSchema N
  report [] out = out
  report (s ∷ path) out = record out {
    unsupported = List.◌++◌ out.unsupported (join (s ∷ path) ∷ []);
  }

-- `seen.has(ref)`
abbrev pub is_seen : String → List String → Bool
is_seen r [] = false
is_seen r (s ∷ seen) = (s == r) || is_seen r seen
