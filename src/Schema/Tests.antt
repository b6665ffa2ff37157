-- ===== src/Schema/Tests.antt =====
-- A small chart's schema, with a reference that points back to itself.
use skyvirt_kubeui.Prelude.{
  ℕ, ◌≡◌, refl, Bool, false, [], ◌∷◌, none, some, All, ltb, eqb, ◌↔◌, inl, ◌≤◌, ◌==◌,
}
use skyvirt_kubeui.Json.{Json, undefined, num, str, obj, nil, Fields, end, entry, field}
use skyvirt_kubeui.Diff.{line_diff, diff_stats}
use skyvirt_kubeui.Schema.Reading.{number, SchemaField, FlatSchema, report, resolve_ref}
use skyvirt_kubeui.Overlay.{get_at_path}
use skyvirt_kubeui.Prelude.Text.{pieces}
use skyvirt_kubeui.Schema.{flatten_schema, walk, visit, walk_leaf, leaf_field}
use skyvirt_kubeui.Schema.Ends.{enough_fuel, flatten_schema-ends}
use skyvirt_kubeui.Schema.Sources.{IsSourced, IsGap}
use skyvirt_kubeui.Schema.Sourced.{flatten_schema-Sourced}
use skyvirt_kubeui.Schema.Values.{
  Numbers, Test, Yaml, validate_field, typed_error, number_error, preview_pair,
}
use skyvirt_kubeui.Schema.Accepted.{Accepts, validate_field-Accepts, preview_pair-unchanged}

abbrev replicas : Fields ℕ
replicas = entry "type" (str "integer") (entry "minimum" (num 1) end)

abbrev tolerations : Fields ℕ
tolerations = entry "type" (str "array") (entry "items" (obj (entry "type" (str "object") end)) end)

abbrev values : Fields ℕ
values = entry "type" (str "object") (
    entry "properties"
      (obj (
        entry "replicas" (obj replicas) (
          entry "again" (obj (entry "$ref" (str "#/$defs/values") end))
            (entry "tolerations" (obj tolerations) end))))
      end)

abbrev schema : Json ℕ
schema = obj (
    entry "$ref" (str "#/$defs/values") (entry "$defs" (obj (entry "values" (obj values) end)) end))

abbrev is_zero : ℕ → Bool
is_zero n = eqb n 0

abbrev replicas_field : SchemaField ℕ
replicas_field = record {
  path = "replicas" ∷ [];
  key = "replicas";
  title = "replicas";
  description = none;
  type = number;
  required = false;
  options = nil;
  default = undefined;
  minimum = some 1;
  maximum = none;
  pattern = none;
  item_type = none;
}

abbrev flat : FlatSchema ℕ
flat = record { fields = replicas_field ∷ []; unsupported = "again" ∷ "tolerations" ∷ [] }

flatten_run : flatten_schema is_zero 5 schema ≡ some flat
unfolding flatten_schema walk visit walk_leaf leaf_field report resolve_ref get_at_path pieces field
flatten_run = refl

flatten_schema-ends_example :
    (flat : FlatSchema ℕ) × ((fuel : ℕ)
      → enough_fuel schema ≤ fuel
      → flatten_schema is_zero fuel schema ≡ some flat)
flatten_schema-ends_example = flatten_schema-ends is_zero schema

flatten_schema-Sourced_example :
    All (IsSourced schema) flat.fields × All (IsGap schema) flat.unsupported
flatten_schema-Sourced_example = flatten_schema-Sourced is_zero 5 schema flat flatten_run

-- Numbers that are natural, and a pattern that only one text matches.
abbrev naturals : Numbers ℕ
naturals = record { less = ltb; is_nan = λ n. false; to_number = λ v. 0; print = λ n. "1" }

abbrev one_text : Test ℕ
one_text p v = elim v [ str s ↦ some (s == p) | _ ↦ none ]

validate_field-Accepts_example :
    (validate_field naturals one_text replicas_field (num 0) ≡ none)
    ↔ Accepts naturals one_text replicas_field (num 0)
validate_field-Accepts_example = validate_field-Accepts naturals one_text replicas_field (num 0)

validate_run : validate_field naturals one_text replicas_field (num 0) ≡ some "Must be at least 1"
unfolding validate_field typed_error number_error
validate_run = refl

-- A YAML package that reads every text as one object.
abbrev yaml : Yaml ℕ
yaml = record { load = λ s. some schema; dump = λ v. "replicas: 1" }

preview_pair-unchanged_example :
    ((diff_stats (line_diff (preview_pair yaml "a" end).0 (preview_pair yaml "a" end).1)).added ≡ 0)
    × ((diff_stats (line_diff (preview_pair yaml "a" end).0 (preview_pair yaml "a" end).1)).removed
        ≡ 0)
preview_pair-unchanged_example = preview_pair-unchanged yaml "a" end (inl refl)
