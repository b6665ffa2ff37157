-- ===== src/Schema.antt =====
-- The form of a Helm chart's values: web/src/lib/schemaForm.ts reads a JSON schema into a flat list
-- of fields. `is_zero` tells the numbers that JavaScript takes for false. The walk's recursion is
-- on fuel.
pub mod Reading
pub mod Bounds
pub mod Ends
pub mod Sources
pub mod Sourced
pub mod Values
pub mod Meaning
pub mod Accepted
mod Tests
use skyvirt_kubeui.Prelude.{
  ℕ, zero, suc, ◌+◌, ◌*◌, String, ◌==◌, Bool, true, false, not, ◌&&◌, ◌||◌, List, [], ◌∷◌, ◌++◌,
  Option, none, some, if◌then◌else◌, or_else,
}
use skyvirt_kubeui.Prelude.Text.{is_filled}
use skyvirt_kubeui.Json.{
  Json, undefined, null, bool, num, str, arr, obj, Items, nil, cons, Fields, end, entry, field,
  fields_of, is_object,
}
use skyvirt_kubeui.Schema.Reading.{
  FieldType, string, number, boolean, enum, array, SchemaField, FlatSchema, join, resolve_ref,
  is_seen, text_at, num_of, items_of, has_text, is_truthy, is_undefined, report,
}

abbrev pub array_item : Option String → Option FieldType
array_item none = none
array_item (some it) =
    if it == "string"
    then some string
    else (if (it == "integer") || (it == "number") then some number else none)

-- The last segment of a path that is not empty.
abbrev pub last_of : String → List String → String
last_of s [] = s
last_of s (t ∷ path) = last_of t path

-- A call of `walk`: the node, its path, the names required there, the references being expanded,
-- and what was collected; none when the fuel is used up.
abbrev pub Walk : Type 0 → Type 0
Walk N = Json N → List String → Items N → List String → FlatSchema N → Option (FlatSchema N)

infixl 1 ◌>>=◌
abbrev pub ◌>>=◌ {ℓ κ} : {A : Type ℓ} {B : Type κ} → Option A → (A → Option B) → Option B
none >>= f = none
some a >>= f = f a

module _ {N : Type 0} where
  -- The fields that every kind of input has: `base`.
  abbrev pub base_field : Fields N → List String → String → Items N → SchemaField N
  base_field node path name required_here = record {
    path = path;
    key = join path;
    title = or_else (text_at "title" node) name;
    description = text_at "description" node;
    type = string;
    required = has_text name required_here;
    options = nil;
    default = field "default" node;
    minimum = none;
    maximum = none;
    pattern = none;
    item_type = none;
  }

  abbrev pub array_field : SchemaField N → Option FieldType → Option (SchemaField N)
  array_field base none = none
  array_field base (some it) = some (record base { type = array; item_type = some it })

  -- The input for a type, or none where the type has no input.
  abbrev pub typed_field : Fields N → SchemaField N → String → Option (SchemaField N)
  typed_field node base type =
      if type == "string"
      then some (record base { type = string; pattern = text_at "pattern" node })
      else (if (type == "integer") || (type == "number")
          then some (record base {
            type = number;
            minimum = num_of (field "minimum" node);
            maximum = num_of (field "maximum" node);
          })
          else (if type == "boolean"
              then some (record base { type = boolean })
              else (if type == "array"
                  then array_field base
                      (array_item (text_at "type" (fields_of (field "items" node))))
                  else none)))

  abbrev pub enum_field :
      Fields N → SchemaField N → Items N → Option String → Option (SchemaField N)
  enum_field node base (cons v vs) type = some (record base { type = enum; options = cons v vs })
  enum_field node base nil none = none
  enum_field node base nil (some type) = typed_field node base type

  unfoldable pub leaf_field : Fields N → List String → String → Items N → Option (SchemaField N)
  leaf_field node path name required_here =
      enum_field node (base_field node path name required_here) (items_of (field "enum" node))
        (text_at "type" node)

  abbrev pub push : String → Option (SchemaField N) → FlatSchema N → FlatSchema N
  push key none out = record out { unsupported = out.unsupported ++ (key ∷ []) }
  push key (some f) out = record out { fields = out.fields ++ (f ∷ []) }

  unfoldable pub walk_leaf : Fields N → List String → Items N → FlatSchema N → FlatSchema N
  walk_leaf node [] required_here out = out
  walk_leaf node (s ∷ path) required_here out =
      push (join (s ∷ path)) (leaf_field node (s ∷ path) (last_of s path) required_here) out

-- What the walk does at an object: report it, follow its reference, walk its properties, or read
-- it as a field.
pub data Visit : Type 0 where
  unread : Visit
  follow : String → Visit
  children leaf : Visit

module _ {N : Type 0} where
  abbrev pub is_container : Fields N → Option String → Bool
  is_container node none = is_object (field "properties" node)
  is_container node (some type) =
      (type == "object") || (not (is_filled type) && is_object (field "properties" node))

  -- `oneOf`, `anyOf` and `allOf` are not read.
  abbrev pub visit_inline : (N → Bool) → Fields N → Visit
  visit_inline is_zero node =
      if is_truthy is_zero (field "oneOf" node)
        || (is_truthy is_zero (field "anyOf" node) || is_truthy is_zero (field "allOf" node))
      then unread
      else (if is_container node (text_at "type" node) then children else leaf)

  abbrev pub visit_ref : (N → Bool) → Fields N → Fields N → List String → Option String → Visit
  visit_ref is_zero root node seen none = visit_inline is_zero node
  visit_ref is_zero root node seen (some ref) =
      if is_undefined (resolve_ref root ref) || is_seen ref seen then unread else follow ref

  unfoldable pub visit : (N → Bool) → Fields N → Fields N → List String → Visit
  visit is_zero root node seen = visit_ref is_zero root node seen (text_at "$ref" node)

  -- The loop over `Object.entries(props)`.
  abbrev pub walk_properties :
      Walk N → Fields N → List String → Items N → List String → FlatSchema N → Option (FlatSchema N)
  walk_properties walk end path required_here seen out = some out
  walk_properties walk (entry name child props) path required_here seen out = do
    next ← walk child (path ++ (name ∷ [])) required_here seen out
    walk_properties walk props path required_here seen next

  abbrev pub walk_object :
      Walk N
      → Fields N
      → Visit
      → Fields N
      → List String
      → Items N
      → List String
      → FlatSchema N
      → Option (FlatSchema N)
  walk_object walk root unread node path required_here seen out = some (report path out)
  walk_object walk root (follow ref) node path required_here seen out =
      walk (resolve_ref root ref) path required_here (ref ∷ seen) out
  walk_object walk root children node path required_here seen out =
      walk_properties walk (fields_of (field "properties" node)) path
        (items_of (field "required" node)) seen out
  walk_object walk root leaf node path required_here seen out =
      some (walk_leaf node path required_here out)

  abbrev pub walk_node :
      (N → Bool)
      → Walk N
      → Fields N
      → Json N
      → List String
      → Items N
      → List String
      → FlatSchema N
      → Option (FlatSchema N)
  walk_node is_zero walk root (obj node) path required_here seen out =
      walk_object walk root (visit is_zero root node seen) node path required_here seen out
  walk_node is_zero walk root _ path required_here seen out = some (report path out)

  unfoldable pub walk :
      (N → Bool)
      → Fields N
      → ℕ
      → Json N
      → List String
      → Items N
      → List String
      → FlatSchema N
      → Option (FlatSchema N)
  walk is_zero root zero node path required_here seen out = none
  walk is_zero root (suc fuel) node path required_here seen out =
      walk_node is_zero (walk is_zero root fuel) root node path required_here seen out

  abbrev pub nothing : FlatSchema N
  nothing = record { fields = []; unsupported = [] }

  unfoldable pub flatten_schema : (N → Bool) → ℕ → Json N → Option (FlatSchema N)
  flatten_schema is_zero fuel schema = walk is_zero (fields_of schema) fuel schema [] nil [] nothing
