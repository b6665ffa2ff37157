-- ===== src/Api/Session/Messages.antt =====
-- The message of a failed call.
use Prim.Native.Char.{Char, code}
use Prim.Native.String.{◌++◌}
use text.Mathlib.TextLemmas.{cons-append}
use skyvirt_kubeui.Prelude.{
  ℕ, String, ◌≡◌, refl, sym, ap, ◌∙◌, true, false, Option, none, some, if◌then◌else◌, inl, inr,
  Bool-cases,
}
use skyvirt_kubeui.Prelude.Text.{trim, trim_end, is_filled, is_space}
use skyvirt_kubeui.Json.{Json, undefined, null, bool, num, str, arr, obj}
use skyvirt_kubeui.Api.Session.{
  Response, is_truthy, member, or_value, own_text, message_of, request_failed, raw_or_failed,
  of_parsed, humanize_error,
}

-- A value that the message would be made of is a text.
abbrev pub IsTextual : Json ℕ → Type 0
IsTextual v = is_truthy v ≡ true → (s : String) × (v ≡ str s)

filled_rest :
    (c : Char) (t : String)
    → is_space (code c) ≡ false
    → is_filled (elim t [
      | String.[] ↦ if is_space (code c) then String.[] else String.◌∷◌ c String.[]
      | String.◌∷◌ d r ↦ String.◌∷◌ c (String.◌∷◌ d r)
    ])
      ≡ true
filled_rest c String.[] h = rw h refl
filled_rest c (String.◌∷◌ d r) h = refl

filled_end :
    (c : Char) (s : String)
    → is_space (code c) ≡ false
    → is_filled (trim_end (String.◌∷◌ c s)) ≡ true
filled_end c s h = filled_rest c (trim_end s) h

trim-filled :
    (c : Char) (s : String) → is_space (code c) ≡ false → is_filled (trim (String.◌∷◌ c s)) ≡ true
trim-filled c s h = rw h (filled_end c s h)

own_text-IsTextual : (j : Json ℕ) → IsTextual (own_text j)
own_text-IsTextual (str s) h = (s, refl)
own_text-IsTextual undefined h = cc
own_text-IsTextual null h = cc
own_text-IsTextual (bool b) h = cc
own_text-IsTextual (num n) h = cc
own_text-IsTextual (arr xs) h = cc
own_text-IsTextual (obj fs) h = cc

or_value-IsTextual : (a b : Json ℕ) → IsTextual a → IsTextual b → IsTextual (or_value a b)
or_value-IsTextual a b f g h = elim (Bool-cases (is_truthy a)) [
  | inl t ↦ rw t (f t)
  | inr n ↦ rw n (g (rw n at h))
]

module _ (parse : String → Option (Json ℕ)) (print : ℕ → String) (text : Json ℕ → String) where
  message-filled :
      (v : Json ℕ)
      → IsTextual v
      → is_truthy v ≡ true
      → is_filled (message_of parse print text v) ≡ true
  message-filled v t h =
      let (s, e) = t h in
      ap (λ w. is_filled (message_of parse print text w)) e ∙ (ap is_truthy (sym e) ∙ h)

  request_failed-filled : (res : Response) → is_filled (request_failed parse print text res) ≡ true
  request_failed-filled res =
      let rest = print res.status ++ (" " ++ (res.status_text ++ ")")) in
      ap (λ t. is_filled (trim t)) (cons-append "R" "equest failed (" rest)
      ∙ trim-filled "R" ("equest failed (" ++ rest) refl

  raw-filled : (res : Response) → is_filled (raw_or_failed parse print text res) ≡ true
  raw-filled res = elim (Bool-cases (is_filled (trim res.body))) [
    | inl t ↦ rw t t
    | inr n ↦ rw n (request_failed-filled res)
  ]

  of_value-filled :
      (res : Response) (v : Json ℕ)
      → IsTextual v
      → is_filled (
          if is_truthy v
          then message_of parse print text v
          else request_failed parse print text res)
        ≡ true
  of_value-filled res v t = elim (Bool-cases (is_truthy v)) [
    | inl h ↦ rw h (message-filled v t h)
    | inr n ↦ rw n (request_failed-filled res)
  ]

  of_parsed-filled :
      (res : Response) (o : Option (Json ℕ))
      → ((j : Json ℕ) → o ≡ some j → IsTextual (member "error" j) × IsTextual (member "message" j))
      → is_filled (of_parsed parse print text res o) ≡ true
  of_parsed-filled res none h = raw-filled res
  of_parsed-filled res (some null) h = raw-filled res
  of_parsed-filled res (some j) h =
      let (e, m) = h j refl in
      of_value-filled res _ (
        or_value-IsTextual (member "error" j) _ e
          (or_value-IsTextual (member "message" j) _ m (own_text-IsTextual j)))

  -- The message of a failed call is never empty, whatever the body of the answer is, if what it
  -- has under "error" and "message" are texts or missing.
  pub humanize_error-filled :
      (res : Response)
      → ((j : Json ℕ)
          → parse res.body ≡ some j
          → IsTextual (member "error" j) × IsTextual (member "message" j))
      → is_filled (humanize_error parse print text res) ≡ true
  unfolding humanize_error
  humanize_error-filled res h = of_parsed-filled res (parse res.body) h
