-- ===== src/Auth/Verified.antt =====
-- The token that the start of web/src/hooks/useAuth.tsx leaves when the backend asks for one.
use skyvirt_kubeui.Prelude.{
  ℕ, String, ◌≡◌, refl, sym, ap, ◌∙◌, true, false, Option, none, some, inl, inr, Bool-cases, ◌⊎◌,
  if-each,
}
use mathlib.Core.Option.{some-injective}
use skyvirt_kubeui.Prelude.Text.{is_filled}
use skyvirt_kubeui.Json.{Json}
use skyvirt_kubeui.Auth.Token.{Browser, verify}
use skyvirt_kubeui.Auth.Checked.{IsVerified, verify-IsVerified}
use skyvirt_kubeui.Auth.{Auth, accept, on_verified, validate, is_open, hand_over, configured, init}

module _ (browser : Browser) where
  accept-token : (p : Json ℕ) (a : Auth) → (accept browser p a).token ≡ a.token
  accept-token p a = if-each {A = Auth} (λ b. b.token ≡ a.token) _ _ _ refl refl

  on_verified-token :
      (s t : String) (o : Option (Json ℕ)) (a : Auth)
      → verify browser s ≡ o
      → a.token ≡ some s
      → (on_verified browser o a).token ≡ some t
      → (payload : Json ℕ) × (verify browser t ≡ some payload)
  on_verified-token s t none a v own h = absurd (cc)
  on_verified-token s t (some p) a v own h =
      let same : s ≡ t = some-injective _ _ (sym own ∙ sym (accept-token p a) ∙ h) in
      (p, ap (verify browser) (sym same) ∙ v)

  validate-token :
      (active : Option String) (t : String) (a : Auth)
      → a.token ≡ active
      → (validate browser false active a).token ≡ some t
      → is_filled t ≡ true
      → (payload : Json ℕ) × (verify browser t ≡ some payload)
  validate-token none t a own h filled = absurd (cc)
  validate-token (some s) t a own h filled = pick (Bool-cases (is_filled s))
    where
      pick :
          ((is_filled s ≡ true) ⊎ (is_filled s ≡ false))
          → (payload : Json ℕ) × (verify browser t ≡ some payload)
      pick (inl e) = on_verified-token s t _ a refl own (rw e at h)
      pick (inr e) =
          let left : a.token ≡ some t = rw e at h in
          let same : s ≡ t = some-injective _ _ (sym own ∙ left) in absurd (cc)

  -- When the start has run to its end and the configuration does not turn authentication off, a
  -- token that is left, and is not empty, is exactly three texts without a dot joined by dots; the
  -- second decodes to a JSON value that is not null, and its `exp`, if it is a number other than 0,
  -- times 1000 is not before now. So another token is dropped, also one that was handed over, and
  -- also when the configuration could not be had.
  pub init-token :
      (config : Option (Json ℕ)) (a : Auth) (t : String)
      → is_open browser config ≡ false
      → (init browser false config a).token ≡ some t
      → is_filled t ≡ true
      → (payload : Json ℕ) × IsVerified browser t payload
  unfolding init configured
  init-token config a t closed h filled =
      let (payload, ok) = validate-token _ t (hand_over browser a) refl (rw closed at h) filled in
      (payload, verify-IsVerified browser t payload ok)
