-- ===== src/Schema/Meaning.antt =====
-- What the checks of a value in web/src/lib/schemaForm.ts ask, said without them: a blank value, the
-- number that a value stands for, and the bounds.
use mathlib.Core.Option.{some-injective}
use skyvirt_kubeui.Prelude.{
  String, ◌≡◌, ◌≢◌, refl, sym, ap, ◌∙◌, true, false, Option, none, some, ◌↔◌, inl, inr, Bool-cases,
}
use skyvirt_kubeui.Json.{Json, undefined, null, num, str}
use skyvirt_kubeui.Schema.Values.{Numbers, is_blank, as_number, is_below, is_above}

module _ {N : Type 0} where
  -- What counts as left out: undefined, null and the empty text.
  pub data Blank : Json N → Type 0 where
    is_undefined : Blank undefined
    is_null : Blank null
    is_empty_text : Blank (str "")

  -- The number that a value stands for: itself, or what the language converts it to.
  pub data IsNumberOf (numbers : Numbers N) : Json N → N → Type 0 where
    itself : {n : N} → IsNumberOf numbers (num n) n
    converted : {v : Json N} → ((n : N) → v ≢ num n) → IsNumberOf numbers v (numbers.to_number v)

  pub is_blank-Blank : (v : Json N) → is_blank v ≡ true → Blank v
  is_blank-Blank undefined h = is_undefined
  is_blank-Blank null h = is_null
  is_blank-Blank (str String.[]) h = is_empty_text
  is_blank-Blank (str (String.◌∷◌ c s)) h = absurd (cc)
  is_blank-Blank v h = absurd (cc)

  pub Blank-is_blank : {v : Json N} → Blank v → is_blank v ≡ true
  Blank-is_blank is_undefined = refl
  Blank-is_blank is_null = refl
  Blank-is_blank is_empty_text = refl

  pub is_blank-not : (v : Json N) → is_blank v ≡ false → ¬ Blank v
  is_blank-not v h b = let t : is_blank v ≡ true = Blank-is_blank b in absurd (cc)

  pub is_blank-false : (v : Json N) → ¬ Blank v → is_blank v ≡ false
  is_blank-false v h = elim (Bool-cases (is_blank v)) [
    | inl t ↦ absurd (h (is_blank-Blank v t))
    | inr f ↦ f
  ]

  pub as_number-IsNumberOf :
      (numbers : Numbers N) (v : Json N) → IsNumberOf numbers v (as_number numbers v)
  as_number-IsNumberOf numbers (num n) = itself
  as_number-IsNumberOf numbers v = converted (λ n e. absurd (cc))

  pub converted_lem :
      (numbers : Numbers N) (v : Json N)
      → ((n : N) → v ≢ num n)
      → as_number numbers v ≡ numbers.to_number v
  converted_lem numbers (num n) h = absurd (h n refl)
  converted_lem numbers v h = refl

  pub IsNumberOf-as_number :
      (numbers : Numbers N) {v : Json N} {n : N} → IsNumberOf numbers v n → as_number numbers v ≡ n
  IsNumberOf-as_number numbers itself = refl
  IsNumberOf-as_number numbers (converted {v} h) = converted_lem numbers v h

  pub is_below_iff :
      (numbers : Numbers N) (n : N) (minimum : Option N)
      → (is_below numbers n minimum ≡ false)
        ↔ ((low : N) → minimum ≡ some low → numbers.less n low ≡ false)
  is_below_iff numbers n none = (λ h low e. absurd (cc), λ h. refl)
  is_below_iff numbers n (some x) =
      (λ h low e. ap (numbers.less n) (sym (some-injective _ _ e)) ∙ h, λ h. h x refl)

  pub is_above_iff :
      (numbers : Numbers N) (n : N) (maximum : Option N)
      → (is_above numbers n maximum ≡ false)
        ↔ ((high : N) → maximum ≡ some high → numbers.less high n ≡ false)
  is_above_iff numbers n none = (λ h high e. absurd (cc), λ h. refl)
  is_above_iff numbers n (some x) =
      (λ h high e. ap (λ k. numbers.less k n) (sym (some-injective _ _ e)) ∙ h, λ h. h x refl)
