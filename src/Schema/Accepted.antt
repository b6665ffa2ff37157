-- ===== src/Schema/Accepted.antt =====
-- What the form of web/src/lib/schemaForm.ts accepts, and what its preview shows as changed.
use mathlib.Core.Option.{some-injective}
use mathlib.Core.Path.{subst}
use skyvirt_kubeui.Prelude.{
  String, ◌≡◌, ◌≢◌, refl, Bool, true, false, Option, none, some, ◌↔◌, ◌⊎◌, inl, inr, if◌then◌else◌,
  Bool-cases,
}
use skyvirt_kubeui.Prelude.Text.{is_filled}
use skyvirt_kubeui.Json.{Json, Fields, is_empty}
use skyvirt_kubeui.Diff.{line_diff, diff_stats}
use skyvirt_kubeui.Diff.Same.{diff_stats-same}
use skyvirt_kubeui.Schema.Reading.{FieldType, string, number, boolean, enum, array, SchemaField}
use skyvirt_kubeui.Schema.Values.{
  Numbers, Test, Yaml, is_blank, as_number, is_below, is_above, number_error, test_error,
  pattern_error, typed_error, validate_field, pair_of, preview_pair,
}
use skyvirt_kubeui.Schema.Meaning.{
  Blank, IsNumberOf, is_blank-Blank, Blank-is_blank, is_blank-not, is_blank-false,
  as_number-IsNumberOf, IsNumberOf-as_number, is_below_iff, is_above_iff,
}

-- A chain of tests that gives no message is one whose tests all fail.
no_message :
    (a b c : Bool) (x y z : String)
    → ((if a then some x else (if b then some y else (if c then some z else none))) ≡ none)
      ↔ ((a ≡ false) × (b ≡ false) × (c ≡ false))
no_message true b c x y z = (λ h. absurd (cc), λ h. absurd (cc))
no_message false true c x y z = (λ h. absurd (cc), λ h. absurd (cc))
no_message false false true x y z = (λ h. absurd (cc), λ h. absurd (cc))
no_message false false false x y z = (λ h. (refl, refl, refl), λ h. refl)

test_error_iff :
    (filled : Bool) (p : String) (o : Option Bool)
    → ((if filled then test_error p o else none) ≡ none) ↔ (filled ≡ true → o ≢ some false)
test_error_iff false p o = (λ h e. absurd (cc), λ h. refl)
test_error_iff true p none = (λ h e g. absurd (cc), λ h. refl)
test_error_iff true p (some true) = (λ h e g. absurd (cc), λ h. refl)
test_error_iff true p (some false) = (λ h. absurd (cc), λ h. absurd (h refl refl))

module _ {N : Type 0} where
  -- A pattern, if there is one, does not reject the value.
  abbrev pub Matches : Test N → Option String → Json N → Type 0
  Matches test pattern value =
      (p : String) → pattern ≡ some p → is_filled p ≡ true → test p value ≢ some false

  pub data Accepts (numbers : Numbers N) (test : Test N) (f : SchemaField N) (v : Json N)
      : Type 0 where
    left_out : Blank v → f.required ≡ false → Accepts numbers test f v
    in_range :
        (n : N)
        → ¬ Blank v
        → f.type ≡ number
        → IsNumberOf numbers v n
        → numbers.is_nan n ≡ false
        → ((low : N) → f.minimum ≡ some low → numbers.less n low ≡ false)
        → ((high : N) → f.maximum ≡ some high → numbers.less high n ≡ false)
        → Accepts numbers test f v
    matching : ¬ Blank v → f.type ≡ string → Matches test f.pattern v → Accepts numbers test f v
    unchecked : ¬ Blank v → f.type ≢ number → f.type ≢ string → Accepts numbers test f v

  number_error_iff :
      (numbers : Numbers N) (f : SchemaField N) (n : N)
      → (number_error numbers f n ≡ none) ↔ (
          (numbers.is_nan n ≡ false)
          × (is_below numbers n f.minimum ≡ false)
          × (is_above numbers n f.maximum ≡ false))
  unfolding number_error
  number_error_iff numbers f n = no_message _ _ _ _ _ _

  pattern_error_iff :
      (test : Test N) (pattern : Option String) (v : Json N)
      → (pattern_error test pattern v ≡ none) ↔ Matches test pattern v
  unfolding pattern_error
  pattern_error_iff test none v = (λ _ p e. absurd (cc), λ _. refl)
  pattern_error_iff test (some p) v =
      let (to, from) = test_error_iff (is_filled p) p (test p v) in
      (
        λ h q same.
            subst (λ p. is_filled p ≡ true → test p v ≢ some false) (some-injective _ _ same)
              (to h),
        λ m. from (m p refl),
      )

  typed-Accepts :
      (numbers : Numbers N) (test : Test N) (f : SchemaField N) (v : Json N) (t : FieldType)
      → is_blank v ≡ false
      → f.type ≡ t
      → typed_error numbers test f t v ≡ none
      → Accepts numbers test f v
  unfolding typed_error
  typed-Accepts numbers test f v number b e h =
      let (nan, low, high) = (number_error_iff numbers f (as_number numbers v)).0 h in
      in_range (as_number numbers v) (is_blank-not v b) e (as_number-IsNumberOf numbers v) nan
        ((is_below_iff numbers _ f.minimum).0 low) ((is_above_iff numbers _ f.maximum).0 high)
  typed-Accepts numbers test f v string b e h =
      matching (is_blank-not v b) e ((pattern_error_iff test f.pattern v).0 h)
  typed-Accepts numbers test f v boolean b e h =
      unchecked (is_blank-not v b) (λ g. absurd (cc)) (λ g. absurd (cc))
  typed-Accepts numbers test f v enum b e h =
      unchecked (is_blank-not v b) (λ g. absurd (cc)) (λ g. absurd (cc))
  typed-Accepts numbers test f v array b e h =
      unchecked (is_blank-not v b) (λ g. absurd (cc)) (λ g. absurd (cc))

  typed_error-unchecked :
      (numbers : Numbers N) (test : Test N) (f : SchemaField N) (v : Json N) (t : FieldType)
      → t ≢ number
      → t ≢ string
      → typed_error numbers test f t v ≡ none
  unfolding typed_error
  typed_error-unchecked numbers test f v number p q = absurd (p refl)
  typed_error-unchecked numbers test f v string p q = absurd (q refl)
  typed_error-unchecked numbers test f v boolean p q = refl
  typed_error-unchecked numbers test f v enum p q = refl
  typed_error-unchecked numbers test f v array p q = refl

  validate-Accepts :
      (numbers : Numbers N) (test : Test N) (f : SchemaField N) (v : Json N)
      → validate_field numbers test f v ≡ none
      → Accepts numbers test f v
  unfolding validate_field
  validate-Accepts numbers test f v h = by_blank (Bool-cases (is_blank v)) (Bool-cases f.required)
    where
      by_blank :
          ((is_blank v ≡ true) ⊎ (is_blank v ≡ false))
          → ((f.required ≡ true) ⊎ (f.required ≡ false))
          → Accepts numbers test f v
      by_blank (inl b) (inl r) = absurd (cc)
      by_blank (inl b) (inr r) = left_out (is_blank-Blank v b) r
      by_blank (inr b) r = typed-Accepts numbers test f v f.type b refl (rw b at h)

  Accepts-validate :
      (numbers : Numbers N) (test : Test N) (f : SchemaField N) (v : Json N)
      → Accepts numbers test f v
      → validate_field numbers test f v ≡ none
  unfolding validate_field typed_error number_error
  Accepts-validate numbers test f v (left_out b r) = rw (Blank-is_blank b, r)
  Accepts-validate numbers test f v (in_range n b t of nan low high) =
      let same : as_number numbers v ≡ n = IsNumberOf-as_number numbers of in
      rw (is_blank-false v b, t, same)
        ((number_error_iff numbers f n).1 (
          nan,
          (is_below_iff numbers n f.minimum).1 low,
          (is_above_iff numbers n f.maximum).1 high,
        ))
  Accepts-validate numbers test f v (matching b t m) =
      rw (is_blank-false v b, t) ((pattern_error_iff test f.pattern v).1 m)
  Accepts-validate numbers test f v (unchecked b p q) =
      rw (is_blank-false v b) (typed_error-unchecked numbers test f v f.type p q)

  -- A value gives no message exactly when the form accepts it: it is undefined, null or the empty
  -- text and not required; or it is none of these and, for a number field, it or what it converts to
  -- is not NaN, not less than the minimum and not more than the maximum, for a text field, the
  -- pattern if any does not reject it, and for a field of another type, no more.
  pub validate_field-Accepts :
      (numbers : Numbers N) (test : Test N) (f : SchemaField N) (v : Json N)
      → (validate_field numbers test f v ≡ none) ↔ Accepts numbers test f v
  validate_field-Accepts numbers test f v =
      (validate-Accepts numbers test f v, Accepts-validate numbers test f v)

  -- The preview's diff counts no change while the overlay is empty, and where the chart's values
  -- are not YAML.
  pub preview_pair-unchanged :
      (yaml : Yaml N) (base : String) (overlay : Fields N)
      → (is_empty overlay ≡ true) ⊎ (yaml.load base ≡ none)
      → let pair = preview_pair yaml base overlay in
        ((diff_stats (line_diff pair.0 pair.1)).added ≡ 0)
        × ((diff_stats (line_diff pair.0 pair.1)).removed ≡ 0)
  unfolding preview_pair pair_of
  preview_pair-unchanged yaml base overlay (inr e) = rw e (diff_stats-same base)
  preview_pair-unchanged yaml base overlay (inl e) = by_base (yaml.load base)
    where
      by_base :
          (o : Option (Json N))
          → let pair = pair_of yaml o base overlay in
            ((diff_stats (line_diff pair.0 pair.1)).added ≡ 0)
            × ((diff_stats (line_diff pair.0 pair.1)).removed ≡ 0)
      by_base none = diff_stats-same base
      by_base (some v) = rw e (diff_stats-same _)
