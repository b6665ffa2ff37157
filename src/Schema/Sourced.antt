-- ===== src/Schema/Sourced.antt =====
-- The walk of web/src/lib/schemaForm.ts collects fields and gaps only from nodes of the schema.
use skyvirt_kubeui.Prelude.{
  ℕ, zero, suc, String, ◌≡◌, refl, sym, ap, ◌∙◌, Bool, List, [], ◌∷◌, ◌++◌, All, All-append, Option,
  none, some,
}
use mathlib.Core.Option.{some-injective}
use mathlib.Core.Path.{subst}
use skyvirt_kubeui.Json.{
  Json, undefined, null, bool, num, str, arr, obj, Items, nil, Fields, end, entry, field, fields_of,
}
use skyvirt_kubeui.Schema.Reading.{SchemaField, FlatSchema, join, resolve_ref, items_of, report}
use skyvirt_kubeui.Schema.{
  ◌>>=◌, Visit, unread, follow, children, leaf, visit, walk, walk_object, walk_properties,
  walk_leaf, leaf_field, push, last_of, flatten_schema, nothing,
}
use skyvirt_kubeui.Schema.Ends.{follow_known}
use skyvirt_kubeui.Schema.Sources.{
  IsEntry, first, later, StandsAt, itself, by_ref, by_property, Declares, IsSourced, IsGap, Sourced,
  leaf_field-Reads,
}

bind_some :
    {A B : Type 0} {g : A → Option B} {last : B} (o : Option A)
    → (o >>= g) ≡ some last
    → (next : A) × (o ≡ some next) × (g next ≡ some last)
bind_some none h = absurd (cc)
bind_some (some next) h = (next, refl, h)

module _ {N : Type 0} where
  report-Sourced :
      (schema node : Json N) (path : List String) (out : FlatSchema N)
      → StandsAt schema node path
      → Sourced schema out
      → Sourced schema (report path out)
  unfolding report
  report-Sourced schema node [] out at s = s
  report-Sourced schema node (x ∷ path) out at (fields, gaps) =
      (fields, All-append (IsGap schema) out.unsupported _ gaps (node, x ∷ path, at, refl))

  push-Sourced :
      (schema : Json N) (node : Fields N) (path : List String) (o : Option (SchemaField N))
      (out : FlatSchema N)
      → StandsAt schema (obj node) path
      → ((f : SchemaField N)
          → o ≡ some f
          → (f.path ≡ path)
            × (f.key ≡ join path)
            × (f.default ≡ field "default" node)
            × Declares node f)
      → Sourced schema out
      → Sourced schema (push (join path) o out)
  push-Sourced schema node path none out at reads (fields, gaps) =
      (fields, All-append (IsGap schema) out.unsupported _ gaps (obj node, path, at, refl))
  push-Sourced schema node path (some f) out at reads (fields, gaps) =
      let (p, k, d, t) = reads f refl in
      let there : StandsAt schema (obj node) f.path =
        subst (StandsAt schema (obj node)) (sym p) at in
      (
        All-append (IsSourced schema) out.fields f fields (node, there, k ∙ sym (ap join p), d, t),
        gaps,
      )

  walk_leaf-Sourced :
      (schema : Json N) (node : Fields N) (path : List String) (required : Items N)
      (out : FlatSchema N)
      → StandsAt schema (obj node) path
      → Sourced schema out
      → Sourced schema (walk_leaf node path required out)
  unfolding walk_leaf
  walk_leaf-Sourced schema node [] required out at s = s
  walk_leaf-Sourced schema node (x ∷ path) required out at s =
      push-Sourced schema node (x ∷ path) (leaf_field node (x ∷ path) (last_of x path) required) out
        at (leaf_field-Reads node (x ∷ path) (last_of x path) required) s

  -- Every call with some fuel collects only what comes from the schema.
  abbrev IsSound : (N → Bool) → Json N → ℕ → Type 0
  IsSound is_zero schema fuel =
      (node : Json N) (path : List String) (required : Items N) (seen : List String)
      (out last : FlatSchema N)
      → StandsAt schema node path
      → Sourced schema out
      → walk is_zero (fields_of schema) fuel node path required seen out ≡ some last
      → Sourced schema last

  some-Sourced :
      (schema : Json N) (out last : FlatSchema N)
      → some out ≡ some last
      → Sourced schema out
      → Sourced schema last
  some-Sourced schema out last h s = subst (Sourced schema) (some-injective _ _ h) s

  walk_properties-Sourced :
      (is_zero : N → Bool) (schema : Json N) (fuel : ℕ)
      → IsSound is_zero schema fuel
      → (node props : Fields N) (path : List String) (required : Items N) (seen : List String)
        (out last : FlatSchema N)
      → StandsAt schema (obj node) path
      → ((name : String) (child : Json N)
          → IsEntry name child props
          → IsEntry name child (fields_of (field "properties" node)))
      → Sourced schema out
      → walk_properties (walk is_zero (fields_of schema) fuel) props path required seen out
        ≡ some last
      → Sourced schema last
  walk_properties-Sourced is_zero schema fuel sound node end path required seen out last at within s
        h =
      some-Sourced schema out last h s
  walk_properties-Sourced is_zero schema fuel sound node (entry name child props) path required seen
        out last at within s h =
      let (next, e, h) =
        bind_some
          (walk is_zero (fields_of schema) fuel child (path ++ (name ∷ [])) required seen out) h in
      walk_properties-Sourced is_zero schema fuel sound node props path required seen next last at
        (λ n c i. within n c (later i))
        (sound child (path ++ (name ∷ [])) required seen out next
          (by_property at (within name child first)) s e)
        h

  walk_object-Sourced :
      (is_zero : N → Bool) (schema : Json N) (fuel : ℕ)
      → IsSound is_zero schema fuel
      → (v : Visit) (node : Fields N) (path : List String) (required : Items N) (seen : List String)
        (out last : FlatSchema N)
      → visit is_zero (fields_of schema) node seen ≡ v
      → StandsAt schema (obj node) path
      → Sourced schema out
      → walk_object
          (walk is_zero (fields_of schema) fuel)
          (fields_of schema)
          v
          node
          path
          required
          seen
          out
        ≡ some last
      → Sourced schema last
  walk_object-Sourced is_zero schema fuel sound unread node path required seen out last e at s h =
      some-Sourced schema _ last h (report-Sourced schema (obj node) path out at s)
  walk_object-Sourced is_zero schema fuel sound leaf node path required seen out last e at s h =
      some-Sourced schema _ last h (walk_leaf-Sourced schema node path required out at s)
  walk_object-Sourced is_zero schema fuel sound (follow ref) node path required seen out last e at s
        h =
      let (own, _) = follow_known is_zero (fields_of schema) node seen ref e in
      sound (resolve_ref (fields_of schema) ref) path required (ref ∷ seen) out last
        (by_ref ref at own) s h
  walk_object-Sourced is_zero schema fuel sound children node path required seen out last e at s h =
      walk_properties-Sourced is_zero schema fuel sound node (fields_of (field "properties" node))
        path (items_of (field "required" node)) seen out last at (λ n c i. i) s h

  walk-IsSound : (is_zero : N → Bool) (schema : Json N) (fuel : ℕ) → IsSound is_zero schema fuel
  unfolding walk
  walk-IsSound is_zero schema zero node path required seen out last at s h = absurd (cc)
  walk-IsSound is_zero schema (suc fuel) (obj node) path required seen out last at s h =
      walk_object-Sourced is_zero schema fuel (walk-IsSound is_zero schema fuel) _ node path
        required seen out last refl at s h
  walk-IsSound is_zero schema (suc fuel) undefined path required seen out last at s h =
      some-Sourced schema _ last h (report-Sourced schema _ path out at s)
  walk-IsSound is_zero schema (suc fuel) null path required seen out last at s h =
      some-Sourced schema _ last h (report-Sourced schema _ path out at s)
  walk-IsSound is_zero schema (suc fuel) (bool b) path required seen out last at s h =
      some-Sourced schema _ last h (report-Sourced schema _ path out at s)
  walk-IsSound is_zero schema (suc fuel) (num x) path required seen out last at s h =
      some-Sourced schema _ last h (report-Sourced schema _ path out at s)
  walk-IsSound is_zero schema (suc fuel) (str t) path required seen out last at s h =
      some-Sourced schema _ last h (report-Sourced schema _ path out at s)
  walk-IsSound is_zero schema (suc fuel) (arr xs) path required seen out last at s h =
      some-Sourced schema _ last h (report-Sourced schema _ path out at s)

  -- Every field of the form comes from a node of the schema that stands at the field's path, by
  -- properties and references: the field has that path's key, the node's default, and a type that
  -- the node declares. Every path listed as unsupported is that of a node of the schema.
  pub flatten_schema-Sourced :
      (is_zero : N → Bool) (fuel : ℕ) (schema : Json N) (flat : FlatSchema N)
      → flatten_schema is_zero fuel schema ≡ some flat
      → All (IsSourced schema) flat.fields × All (IsGap schema) flat.unsupported
  unfolding flatten_schema
  flatten_schema-Sourced is_zero fuel schema flat h =
      walk-IsSound is_zero schema fuel schema [] nil [] nothing flat itself (tt, tt) h
