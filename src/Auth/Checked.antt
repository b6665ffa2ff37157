-- ===== src/Auth/Checked.antt =====
-- What a token that passes the check of web/src/hooks/useAuth.tsx is, without the functions of
-- the check: three parts between dots, a payload that can be read, an expiry that is not over.
use Prim.Native.Char.{Char, code}
use skyvirt_kubeui.Prelude.{
  ℕ, ◌*◌, ◌≤◌, String, ◌≡◌, refl, sym, ap, ◌∙◌, Bool, true, false, Option, none, some, inl, inr,
  Bool-cases, List, [], ◌∷◌, ◌++◌, if◌then◌else◌, eqb, zero, suc, ◌&&◌, ◌⊎◌, All, arith,
}
use mathlib.Core.Path.{subst}
use mathlib.Core.Option.{some-injective}
use skyvirt_kubeui.Prelude.Text.{onto}
use skyvirt_kubeui.Json.{Json, null, num}
use skyvirt_kubeui.Api.Session.{is_truthy, member}
use skyvirt_kubeui.Auth.Fragment.{split_dots}
use skyvirt_kubeui.Auth.Token.{Browser, ◌>>=◌, middle, not_null, from_url, expired, fresh, verify}

-- The codes of a text's characters.
abbrev pub codes : String → List ℕ
codes String.[] = []
codes (String.◌∷◌ c s) = code c ∷ codes s

abbrev pub is_plain : List ℕ → Bool
is_plain [] = true
is_plain (c ∷ cs) = if eqb c 46 then false else is_plain cs

abbrev between_dots : List String → List ℕ
between_dots [] = []
between_dots (p ∷ []) = codes p
between_dots (p ∷ q ∷ ps) = codes p ++ (46 ∷ between_dots (q ∷ ps))

abbrev is_null : Json ℕ → Bool
is_null null = true
is_null _ = false

abbrev HasPart : List String → Type 0
HasPart [] = ⊥
HasPart (p ∷ ps) = Unit

split_dots-HasPart : (s : String) → HasPart (split_dots s)
split_dots-HasPart String.[] = tt
split_dots-HasPart (String.◌∷◌ c s) = elim (Bool-cases (eqb (code c) 46)) [
  | inl e ↦ rw e tt
  | inr e ↦ rw e (onto-HasPart c (split_dots s))
]
  where
    onto-HasPart : (c : Char) (ps : List String) → HasPart (onto c ps)
    onto-HasPart c [] = tt
    onto-HasPart c (p ∷ ps) = tt

between_dots_step :
    (c : Char) (ps : List String)
    → HasPart ps
    → between_dots (if eqb (code c) 46 then "" ∷ ps else onto c ps) ≡ code c ∷ between_dots ps
between_dots_step c [] h = absurd h
between_dots_step c (p ∷ []) h = ground arith
between_dots_step c (p ∷ q ∷ ps) h = ground arith

between_dots-split_dots : (s : String) → between_dots (split_dots s) ≡ codes s
between_dots-split_dots String.[] = refl
between_dots-split_dots (String.◌∷◌ c s) =
    between_dots_step c (split_dots s) (split_dots-HasPart s)
    ∙ ap (λ cs. code c ∷ cs) (between_dots-split_dots s)

abbrev ArePlain : List String → Type 0
ArePlain ps = All (λ p. is_plain (codes p) ≡ true) ps

plain_step :
    (c : Char) (ps : List String)
    → ArePlain ps
    → ArePlain (if eqb (code c) 46 then "" ∷ ps else onto c ps)
plain_step c ps h = elim (Bool-cases (eqb (code c) 46)) [
  | inl e ↦ rw e (refl, h)
  | inr e ↦ rw e (onto-ArePlain ps e h)
]
  where
    onto-ArePlain :
        (ps : List String) → eqb (code c) 46 ≡ false → ArePlain ps → ArePlain (onto c ps)
    onto-ArePlain [] e h = (rw e refl, tt)
    onto-ArePlain (p ∷ ps) e (h, hs) = (rw e h, hs)

split_dots-ArePlain : (s : String) → ArePlain (split_dots s)
split_dots-ArePlain String.[] = (refl, tt)
split_dots-ArePlain (String.◌∷◌ c s) = plain_step c (split_dots s) (split_dots-ArePlain s)

bind_some {ℓ κ} :
    {A : Type ℓ} {B : Type κ} (o : Option A) (f : A → Option B) (b : B)
    → (o >>= f) ≡ some b
    → (a : A) × (o ≡ some a) × (f a ≡ some b)
bind_some none f b e = absurd (cc)
bind_some (some a) f b e = (a, refl, e)

middle_lem :
    (ps : List String) (b : String)
    → middle ps ≡ some b
    → (a : String) × (c : String) × (ps ≡ a ∷ b ∷ c ∷ [])
middle_lem (a ∷ x ∷ c ∷ []) b e = (a, c, ap (λ y. a ∷ y ∷ c ∷ []) (some-injective _ _ e))
middle_lem ps b e = absurd (cc)

not_null_lem : (v p : Json ℕ) → not_null v ≡ some p → (v ≡ p) × (is_null p ≡ false)
not_null_lem null p e = absurd (cc)
not_null_lem v p e = let q : v ≡ p = some-injective _ _ e in (q, ap is_null (sym q))

module _ (browser : Browser) where
  -- An expiry that is a number other than 0 is not over.
  abbrev pub IsCurrent : Json ℕ → Type 0
  IsCurrent (num (suc n)) = browser.now ≤ suc n * 1000
  IsCurrent v = Unit

  pub record IsVerified (token : String) (payload : Json ℕ) : Type 0 where
    pub head : String
    pub body : String
    pub signature : String
    pub json : String
    pub three_parts : codes token ≡ codes head ++ (46 ∷ (codes body ++ (46 ∷ codes signature)))
    pub plain_head : is_plain (codes head) ≡ true
    pub plain_body : is_plain (codes body) ≡ true
    pub plain_signature : is_plain (codes signature) ≡ true
    pub decoded : browser.atob (from_url browser body) ≡ some json
    pub parsed : browser.parse json ≡ some payload
    pub real : is_null payload ≡ false
    pub current : IsCurrent (member "exp" payload)

  current_lem : (e : Json ℕ) → (is_truthy e && expired browser e) ≡ false → IsCurrent e
  current_lem (num zero) h = tt
  current_lem (num (suc n)) h = ground arith
  current_lem e h = tt

  fresh_lem : (v p : Json ℕ) → fresh browser v ≡ some p → (v ≡ p) × IsCurrent (member "exp" p)
  fresh_lem v p e = by_test (Bool-cases _) e
    where
      by_test :
          ((is_truthy (member "exp" v) && expired browser (member "exp" v)) ≡ true)
            ⊎ ((is_truthy (member "exp" v) && expired browser (member "exp" v)) ≡ false)
          → fresh browser v ≡ some p
          → (v ≡ p) × IsCurrent (member "exp" p)
      by_test (inl over) e =
          absurd (let e' : ◌≡◌ {A = Option (Json ℕ)} none (some p) = rw over at e in cc)
      by_test (inr fine) e =
          let same : v ≡ p = some-injective _ _ (rw fine at e) in
          (same, subst (λ x. IsCurrent (member "exp" x)) same (current_lem (member "exp" v) fine))

  pub verify-IsVerified : (t : String) (p : Json ℕ) → verify browser t ≡ some p → IsVerified t p
  unfolding verify
  verify-IsVerified t p e =
      let (b, eb, e1) = bind_some (middle (split_dots t)) _ p e in
      let (json, ej, e2) = bind_some (browser.atob (from_url browser b)) _ p e1 in
      let (v, ev, e3) = bind_some (browser.parse json) _ p e2 in
      let (q, eq, e4) = bind_some (not_null v) _ p e3 in
      let (a, c, parts) = middle_lem (split_dots t) b eb in
      let (vq, real) = not_null_lem v q eq in
      let (qp, current) = fresh_lem q p e4 in
      let plain : ArePlain (a ∷ b ∷ c ∷ []) = subst ArePlain parts (split_dots-ArePlain t) in
      record {
        head = a;
        body = b;
        signature = c;
        json = json;
        three_parts = sym (between_dots-split_dots t) ∙ ap between_dots parts;
        plain_head = plain.0;
        plain_body = plain.1.0;
        plain_signature = plain.1.1.0;
        decoded = ej;
        parsed = ev ∙ ap some (vq ∙ qp);
        real = ap is_null (sym qp) ∙ real;
        current = current;
      }
