-- ===== src/Schema/Ends.antt =====
-- The walk over a schema in web/src/lib/schemaForm.ts ends, also where references form a cycle.
use skyvirt_kubeui.Prelude.{
  ℕ, zero, suc, ◌+◌, ◌*◌, ◌≤◌, String, ◌≡◌, refl, sym, ap, ◌∙◌, Bool, true, false, ◌||◌, List, [],
  ◌∷◌, ◌++◌, Option, none, some, if◌then◌else◌, arith, length,
}
use skyvirt_kubeui.Json.{
  Json, undefined, null, bool, num, str, arr, obj, Items, nil, Fields, end, entry, field, fields_of,
}
use skyvirt_kubeui.Schema.Reading.{FlatSchema, resolve_ref, is_seen, text_at, report, items_of}
use skyvirt_kubeui.Schema.{
  ◌>>=◌, Visit, unread, follow, children, leaf, visit, visit_ref, walk, walk_object,
  walk_properties, walk_leaf, flatten_schema, nothing,
}
use skyvirt_kubeui.Schema.Bounds.{
  unseen, length-unseen, size, size_fields, texts, Within, Within-value, Within-rest,
  Within-fields_of, Within-root, size-fields_of, Within-field, Within-resolve_ref, is_seen-text_at,
  size-field-le,
}

inline-follow :
    (b c : Bool) (ref : String)
    → ¬ ((if b then unread else (if c then children else leaf)) ≡ follow ref)
inline-follow true c ref h = absurd (cc)
inline-follow false true ref h = absurd (cc)
inline-follow false false ref h = absurd (cc)

ref-follow :
    (b c : Bool) (r ref : String)
    → (if b || c then unread else follow r) ≡ follow ref
    → (r ≡ ref) × (c ≡ false)
ref-follow true c r ref h = absurd (cc)
ref-follow false true r ref h = absurd (cc)
ref-follow false false r ref h = (cc, refl)

mul_room : (u v k : ℕ) → suc u ≤ v → k + u * k ≤ v * k
mul_room u zero k h = absurd (omega arith)
mul_room zero (suc v) k h = omega arith
mul_room (suc u) (suc v) k h = omega (arith, mul_room u v k (omega arith))

module _ {N : Type 0} where
  -- From the fuel `n` on, the call gives one and the same result.
  abbrev pub EndsAt : ℕ → (ℕ → Option (FlatSchema N)) → Type 0
  EndsAt n f = (flat : FlatSchema N) × ((fuel : ℕ) → n ≤ fuel → f fuel ≡ some flat)

  -- The calls that are left: those below the node, and a schema's for each unseen reference.
  unfoldable pub calls : Fields N → Json N → List String → ℕ
  calls root node seen = size node + length (unseen seen (texts (obj root))) * suc (size (obj root))

  unfoldable pub enough_fuel : Json N → ℕ
  enough_fuel schema = suc (calls (fields_of schema) schema [])

  pub follow_known :
      (is_zero : N → Bool) (root node : Fields N) (seen : List String) (ref : String)
      → visit is_zero root node seen ≡ follow ref
      → (text_at "$ref" node ≡ some ref) × (is_seen ref seen ≡ false)
  unfolding visit
  follow_known is_zero root node seen ref h = known (text_at "$ref" node) h
    where
      known :
          (o : Option String)
          → visit_ref is_zero root node seen o ≡ follow ref
          → (o ≡ some ref) × (is_seen ref seen ≡ false)
      known none e = absurd (inline-follow _ _ ref e)
      known (some r) e =
          let (same, new) = ref-follow _ _ r ref e in
          (ap some same, sym (ap (λ x. is_seen x seen) same) ∙ new)

  -- Following a reference that was not seen leaves fewer calls.
  calls-follow :
      (root node : Fields N) (seen : List String) (ref : String)
      → Within (obj root) (obj node)
      → text_at "$ref" node ≡ some ref
      → is_seen ref seen ≡ false
      → suc (calls root (resolve_ref root ref) (ref ∷ seen)) ≤ calls root (obj node) seen
  unfolding calls
  calls-follow root node seen ref (small, known) own new =
      let (target, _) = Within-resolve_ref root ref in
      let fewer =
        length-unseen ref seen (texts (obj root)) (known ref (is_seen-text_at "$ref" ref node own))
          new in
      let room = mul_room _ _ (suc (size (obj root))) fewer in omega (arith, target, room)

  ends_after :
      (n : ℕ) (f g : ℕ → Option (FlatSchema N))
      → ((fuel : ℕ) → f (suc fuel) ≡ g fuel)
      → EndsAt n g
      → EndsAt (suc n) f
  ends_after n f g step (flat, e) = (flat, λ fuel h. after fuel h)
    where
      after : (fuel : ℕ) → suc n ≤ fuel → f fuel ≡ some flat
      after zero h = absurd (omega arith)
      after (suc fuel) h = step fuel ∙ e fuel (omega arith)

  EndsAt-once : (n : ℕ) (flat : FlatSchema N) → EndsAt n (λ fuel. some flat)
  EndsAt-once n flat = (flat, λ fuel h. refl)

  then_ends :
      (n : ℕ) (f : ℕ → Option (FlatSchema N)) (g : ℕ → FlatSchema N → Option (FlatSchema N))
      → EndsAt n f
      → ((flat : FlatSchema N) → EndsAt n (λ fuel. g fuel flat))
      → EndsAt n (λ fuel. f fuel >>= g fuel)
  then_ends n f g (flat, e) rest =
      let (last, e') = rest flat in (last, λ fuel h. ap (λ o. o >>= g fuel) (e fuel h) ∙ e' fuel h)

  -- Every call with at most `n` calls left ends.
  abbrev EndsBelow : (N → Bool) → Fields N → ℕ → Type 0
  EndsBelow is_zero root n =
      (node : Json N) (path : List String) (required : Items N) (seen : List String)
      (out : FlatSchema N)
      → Within (obj root) node
      → calls root node seen ≤ n
      → EndsAt (suc n) (λ fuel. walk is_zero root fuel node path required seen out)

  walk_properties-ends :
      (is_zero : N → Bool) (root : Fields N) (n : ℕ)
      → EndsBelow is_zero root n
      → (props : Fields N) (path : List String) (required : Items N) (seen : List String)
        (out : FlatSchema N)
      → Within (obj root) (obj props)
      → calls root (obj props) seen ≤ suc n
      → EndsAt
          (suc n)
          (λ fuel. walk_properties (walk is_zero root fuel) props path required seen out)
  unfolding calls size
  walk_properties-ends is_zero root n below end path required seen out w h = EndsAt-once (suc n) out
  walk_properties-ends is_zero root n below (entry name child props) path required seen out w h =
      then_ends (suc n) _ _
        (below child (path ++ (name ∷ [])) required seen out
          (Within-value (obj root) name child props w) (omega arith))
        (λ next.
          walk_properties-ends is_zero root n below props path required seen next
            (Within-rest (obj root) name child props w) (omega arith))

  walk_object-ends :
      (is_zero : N → Bool) (root : Fields N) (n : ℕ)
      → EndsBelow is_zero root n
      → (v : Visit) (node : Fields N) (path : List String) (required : Items N) (seen : List String)
        (out : FlatSchema N)
      → visit is_zero root node seen ≡ v
      → Within (obj root) (obj node)
      → calls root (obj node) seen ≤ suc n
      → EndsAt
          (suc n)
          (λ fuel. walk_object (walk is_zero root fuel) root v node path required seen out)
  unfolding calls size
  walk_object-ends is_zero root n below unread node path required seen out e w h =
      EndsAt-once (suc n) (report path out)
  walk_object-ends is_zero root n below leaf node path required seen out e w h =
      EndsAt-once (suc n) (walk_leaf node path required out)
  walk_object-ends is_zero root n below (follow ref) node path required seen out e w h =
      let (own, new) = follow_known is_zero root node seen ref e in
      below (resolve_ref root ref) path required (ref ∷ seen) out (Within-resolve_ref root ref)
        (omega (arith, calls-follow root node seen ref w own new))
  walk_object-ends is_zero root n below children node path required seen out e w h =
      walk_properties-ends is_zero root n below (fields_of (field "properties" node)) path
        (items_of (field "required" node)) seen out
        (Within-fields_of root (field "properties" node)
          (Within-field (obj root) "properties" node w))
        (omega (
          arith,
          h,
          size-fields_of (field "properties" node) (size_fields node)
              (size-field-le "properties" node),
        ))

  pub walk-ends : (is_zero : N → Bool) (root : Fields N) (n : ℕ) → EndsBelow is_zero root n
  unfolding walk calls size
  walk-ends is_zero root zero (obj node) path required seen out w h = absurd (omega arith)
  walk-ends is_zero root (suc n) (obj node) path required seen out w h =
      ends_after (suc n) (λ fuel. walk is_zero root fuel (obj node) path required seen out) _
        (λ fuel. refl)
        (walk_object-ends is_zero root n (walk-ends is_zero root n) _ node path required seen out
          refl w h)
  walk-ends is_zero root n undefined path required seen out w h =
      ends_after n (λ fuel. walk is_zero root fuel undefined path required seen out) _
        (λ fuel. refl) (EndsAt-once n (report path out))
  walk-ends is_zero root n null path required seen out w h =
      ends_after n (λ fuel. walk is_zero root fuel null path required seen out) _ (λ fuel. refl)
        (EndsAt-once n (report path out))
  walk-ends is_zero root n (bool b) path required seen out w h =
      ends_after n (λ fuel. walk is_zero root fuel (bool b) path required seen out) _ (λ fuel. refl)
        (EndsAt-once n (report path out))
  walk-ends is_zero root n (num x) path required seen out w h =
      ends_after n (λ fuel. walk is_zero root fuel (num x) path required seen out) _ (λ fuel. refl)
        (EndsAt-once n (report path out))
  walk-ends is_zero root n (str s) path required seen out w h =
      ends_after n (λ fuel. walk is_zero root fuel (str s) path required seen out) _ (λ fuel. refl)
        (EndsAt-once n (report path out))
  walk-ends is_zero root n (arr xs) path required seen out w h =
      ends_after n (λ fuel. walk is_zero root fuel (arr xs) path required seen out) _ (λ fuel. refl)
        (EndsAt-once n (report path out))

  -- With enough fuel the walk over a schema ends, whatever its references, and more fuel does not
  -- change what it collects.
  pub flatten_schema-ends :
      (is_zero : N → Bool) (schema : Json N)
      → (flat : FlatSchema N) × ((fuel : ℕ)
          → enough_fuel schema ≤ fuel
          → flatten_schema is_zero fuel schema ≡ some flat)
  unfolding flatten_schema enough_fuel
  flatten_schema-ends is_zero schema =
      walk-ends is_zero (fields_of schema) (calls (fields_of schema) schema []) schema [] nil []
        nothing (Within-root schema) (omega arith)
