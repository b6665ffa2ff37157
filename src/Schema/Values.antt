-- ===== src/Schema/Values.antt =====
-- The check of a field's value, and the texts of the overlay, in web/src/lib/schemaForm.ts. The YAML
-- package, JavaScript's numbers and its regular expressions are parameters.
use Prim.Native.String.{◌++◌}
use skyvirt_kubeui.Prelude.{String, Bool, true, false, not, Option, none, some, if◌then◌else◌}
use skyvirt_kubeui.Prelude.Text.{is_filled}
use skyvirt_kubeui.Json.{Json, undefined, null, num, str, obj, Fields, end, is_empty}
use skyvirt_kubeui.Overlay.{deep_merge}
use skyvirt_kubeui.Schema.Reading.{FieldType, string, number, SchemaField}

-- JavaScript's numbers: `a < b`, `Number.isNaN`, `Number(v)` and a template's text of a number.
pub record Numbers (N : Type 0) : Type 0 where
  pub less : N → N → Bool
  pub is_nan : N → Bool
  pub to_number : Json N → N
  pub print : N → String

-- `new RegExp(pattern).test(String(v))`; none when the pattern is no regular expression.
abbrev pub Test : Type 0 → Type 0
Test N = String → Json N → Option Bool

-- `jsYaml.load`, none when it throws, and `jsYaml.dump` with sorted keys.
pub record Yaml (N : Type 0) : Type 0 where
  pub load : String → Option (Json N)
  pub dump : Json N → String

abbrev pub test_error : String → Option Bool → Option String
test_error pattern (some false) = some ("Must match " ++ pattern)
test_error pattern _ = none

module _ {N : Type 0} where
  abbrev pub is_blank : Json N → Bool
  is_blank undefined = true
  is_blank null = true
  is_blank (str s) = not (is_filled s)
  is_blank _ = false

  abbrev pub as_number : Numbers N → Json N → N
  as_number numbers (num n) = n
  as_number numbers v = numbers.to_number v

  abbrev pub is_below : Numbers N → N → Option N → Bool
  is_below numbers n none = false
  is_below numbers n (some low) = numbers.less n low

  abbrev pub is_above : Numbers N → N → Option N → Bool
  is_above numbers n none = false
  is_above numbers n (some high) = numbers.less high n

  abbrev pub bound_text : Numbers N → Option N → String
  bound_text numbers none = ""
  bound_text numbers (some n) = numbers.print n

  unfoldable pub number_error : Numbers N → SchemaField N → N → Option String
  number_error numbers field n =
      if numbers.is_nan n
      then some "Must be a number"
      else (if is_below numbers n field.minimum
          then some ("Must be at least " ++ bound_text numbers field.minimum)
          else (if is_above numbers n field.maximum
              then some ("Must be at most " ++ bound_text numbers field.maximum)
              else none))

  unfoldable pub pattern_error : Test N → Option String → Json N → Option String
  pattern_error test none value = none
  pattern_error test (some pattern) value =
      if is_filled pattern then test_error pattern (test pattern value) else none

  unfoldable pub typed_error :
      Numbers N → Test N → SchemaField N → FieldType → Json N → Option String
  typed_error numbers test field number value = number_error numbers field (as_number numbers value)
  typed_error numbers test field string value = pattern_error test field.pattern value
  typed_error numbers test field _ value = none

  unfoldable pub validate_field : Numbers N → Test N → SchemaField N → Json N → Option String
  validate_field numbers test field value =
      if is_blank value
      then (if field.required then some (field.title ++ " is required") else none)
      else typed_error numbers test field field.type value

  unfoldable pub overlay_to_yaml : Yaml N → Fields N → String
  overlay_to_yaml yaml overlay = if is_empty overlay then "" else yaml.dump (obj overlay)

  -- `v ?? {}`
  abbrev pub or_empty : Json N → Json N
  or_empty undefined = obj end
  or_empty null = obj end
  or_empty v = v

  unfoldable pub pair_of : Yaml N → Option (Json N) → String → Fields N → String × String
  pair_of yaml none base overlay = (base, base)
  pair_of yaml (some v) base overlay =
      let before = yaml.dump (or_empty v) in
      if is_empty overlay
      then (before, before)
      else (before, yaml.dump (deep_merge (or_empty v) (obj overlay)))

  unfoldable pub preview_pair : Yaml N → String → Fields N → String × String
  preview_pair yaml base overlay = pair_of yaml (yaml.load base) base overlay
