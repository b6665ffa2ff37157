-- ===== src/Schema/Sources.antt =====
-- Where the fields of web/src/lib/schemaForm.ts come from: the node of the schema that stands at a
-- field's path, by properties and references.
use skyvirt_kubeui.Prelude.{
  String, ◌==◌, ◌≡◌, refl, sym, ap, ◌∙◌, Bool, true, false, ◌||◌, List, [], ◌∷◌, ◌++◌, All, Option,
  none, some, if◌then◌else◌, eq_iff, ◌⊎◌, inl, inr,
}
use mathlib.Core.Option.{some-injective}
use mathlib.Core.Path.{subst}
use skyvirt_kubeui.Json.{Json, obj, Items, nil, cons, Fields, entry, field, fields_of}
use skyvirt_kubeui.Schema.Reading.{
  FieldType, string, number, boolean, enum, array, SchemaField, FlatSchema, join, resolve_ref,
  text_at, items_of,
}
use skyvirt_kubeui.Schema.{leaf_field, enum_field, typed_field, array_field, array_item, base_field}

pick :
    {A : Type 0} {f : A} {x y : Option A} (b : Bool)
    → (if b then x else y) ≡ some f
    → ((b ≡ true) × (x ≡ some f)) ⊎ ((b ≡ false) × (y ≡ some f))
pick true h = inl (refl, h)
pick false h = inr (refl, h)

either : (a b : Bool) → (a || b) ≡ true → (a ≡ true) ⊎ (b ≡ true)
either true b h = inl refl
either false b h = inr h

module _ {N : Type 0} where
  pub data IsEntry (name : String) (child : Json N) : Fields N → Type 0 where
    first : {fs : Fields N} → IsEntry name child (entry name child fs)
    later :
        {k : String} {v : Json N} {fs : Fields N}
        → IsEntry name child fs
        → IsEntry name child (entry k v fs)

  -- The nodes that a schema has for a path of names: its own, what a reference points to, and the
  -- properties.
  pub data StandsAt (schema : Json N) : Json N → List String → Type 0 where
    itself : StandsAt schema schema []
    by_ref :
        {node : Fields N} {path : List String} (ref : String)
        → StandsAt schema (obj node) path
        → text_at "$ref" node ≡ some ref
        → StandsAt schema (resolve_ref (fields_of schema) ref) path
    by_property :
        {node : Fields N} {path : List String} {name : String} {child : Json N}
        → StandsAt schema (obj node) path
        → IsEntry name child (fields_of (field "properties" node))
        → StandsAt schema child (path ++ (name ∷ []))

  -- The node's declaration that a field of a type stands for.
  pub data Declares (node : Fields N) : SchemaField N → Type 0 where
    text :
        {f : SchemaField N}
        → f.type ≡ string
        → text_at "type" node ≡ some "string"
        → Declares node f
    whole :
        {f : SchemaField N}
        → f.type ≡ number
        → text_at "type" node ≡ some "integer"
        → Declares node f
    real :
        {f : SchemaField N}
        → f.type ≡ number
        → text_at "type" node ≡ some "number"
        → Declares node f
    switch :
        {f : SchemaField N}
        → f.type ≡ boolean
        → text_at "type" node ≡ some "boolean"
        → Declares node f
    list :
        {f : SchemaField N} → f.type ≡ array → text_at "type" node ≡ some "array" → Declares node f
    choice :
        {f : SchemaField N}
        → f.type ≡ enum
        → f.options ≡ items_of (field "enum" node)
        → Declares node f

  abbrev pub IsSourced : Json N → SchemaField N → Type 0
  IsSourced schema f =
      (node : Fields N) × StandsAt schema (obj node) f.path
      × (f.key ≡ join f.path)
      × (f.default ≡ field "default" node)
      × Declares node f

  abbrev pub IsGap : Json N → String → Type 0
  IsGap schema key =
      (node : Json N) × (path : List String) × StandsAt schema node path × (key ≡ join path)

  abbrev pub Sourced : Json N → FlatSchema N → Type 0
  Sourced schema out = All (IsSourced schema) out.fields × All (IsGap schema) out.unsupported

  -- What a field built from `base` says of the node.
  abbrev Reads : Fields N → SchemaField N → SchemaField N → Type 0
  Reads node base f =
      (f.path ≡ base.path) × (f.key ≡ base.key) × (f.default ≡ base.default) × Declares node f

  Reads-of :
      (node : Fields N) (base f g : SchemaField N)
      → some g ≡ some f
      → Reads node base g
      → Reads node base f
  Reads-of node base f g h r = subst (Reads node base) (some-injective _ _ h) r

  typed_field-Reads :
      (node : Fields N) (base f : SchemaField N) (type : String)
      → text_at "type" node ≡ some type
      → typed_field node base type ≡ some f
      → Reads node base f
  typed_field-Reads node base f type own h = elim (pick (type == "string") h) [
    | inl (e, h) ↦ Reads-of node base f _ h (refl, refl, refl, text refl (is e))
    | inr (_, h) ↦ elim (pick ((type == "integer") || (type == "number")) h) [
      | inl (e, h) ↦ Reads-of node base f _ h (refl, refl, refl, numeric refl e)
      | inr (_, h) ↦ elim (pick (type == "boolean") h) [
        | inl (e, h) ↦ Reads-of node base f _ h (refl, refl, refl, switch refl (is e))
        | inr (_, h) ↦ elim (pick (type == "array") h) [
          | inl (e, h) ↦
              items (array_item (text_at "type" (fields_of (field "items" node)))) (is e) h
          | inr (_, h) ↦ absurd (cc)
        ]
      ]
    ]
  ]
    where
      is : {t : String} → (type == t) ≡ true → text_at "type" node ≡ some t
      is {t} e = own ∙ ap some (let (f, _) = eq_iff type t in f e)

      numeric :
          {g : SchemaField N}
          → g.type ≡ number
          → ((type == "integer") || (type == "number")) ≡ true
          → Declares node g
      numeric t e = elim (either (type == "integer") _ e) [
        | inl e ↦ whole t (is e)
        | inr e ↦ real t (is e)
      ]

      items :
          (it : Option FieldType)
          → text_at "type" node ≡ some "array"
          → array_field base it ≡ some f
          → Reads node base f
      items none e h = absurd (cc)
      items (some it) e h = Reads-of node base f _ h (refl, refl, refl, list refl e)

  enum_field-Reads :
      (node : Fields N) (base f : SchemaField N) (options : Items N) (type : Option String)
      → items_of (field "enum" node) ≡ options
      → text_at "type" node ≡ type
      → enum_field node base options type ≡ some f
      → Reads node base f
  enum_field-Reads node base f (cons v vs) type given own h =
      Reads-of node base f _ h (refl, refl, refl, choice refl (sym given))
  enum_field-Reads node base f nil none given own h = absurd (cc)
  enum_field-Reads node base f nil (some type) given own h =
      typed_field-Reads node base f type own h

  -- The field that a node gives has the node's path and default, and a type that it declares.
  pub leaf_field-Reads :
      (node : Fields N) (path : List String) (name : String) (required : Items N)
      (f : SchemaField N)
      → leaf_field node path name required ≡ some f
      → (f.path ≡ path) × (f.key ≡ join path) × (f.default ≡ field "default" node) × Declares node f
  unfolding leaf_field
  leaf_field-Reads node path name required f h =
      enum_field-Reads node (base_field node path name required) f _ _ refl refl h
