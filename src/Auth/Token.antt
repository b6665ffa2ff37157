-- ===== src/Auth/Token.antt =====
-- The cluster context that a portal hands over, web/src/lib/clusterContext.ts, and the check of a
-- token in web/src/hooks/useAuth.tsx.
use skyvirt_kubeui.Prelude.{
  ℕ, String, Bool, true, false, ◌&&◌, Option, none, some, List, [], ◌∷◌, if◌then◌else◌, ltb, ◌*◌,
}
use skyvirt_kubeui.Prelude.Dict.{put}
use skyvirt_kubeui.Json.{Json, null, num, arr}
use skyvirt_kubeui.Api.Session.{Session, is_truthy, member}
use skyvirt_kubeui.Auth.Fragment.{match_param, remove_param, replace_all, split_dots}

-- The browser's functions; none stands for an exception. `to_number` is the conversion of a value
-- that is not a number, none for NaN; `now` is `Date.now()`.
pub record Browser : Type 0 where
  pub parse : String → Option (Json ℕ)
  pub stringify : Json ℕ → String
  pub text : Json ℕ → String
  pub decode_component : String → Option String
  pub atob : String → Option String
  pub utf8 : String → Option String
  pub to_number : Json ℕ → Option ℕ
  pub now : ℕ

infixl 1 ◌>>=◌
abbrev pub ◌>>=◌ {ℓ κ} : {A : Type ℓ} {B : Type κ} → Option A → (A → Option B) → Option B
none >>= f = none
some a >>= f = f a

abbrev pub context_key : String
context_key = "kubeui_cluster_ctx"

abbrev pub is_array : Json ℕ → Bool
is_array (arr vs) = true
is_array _ = false

abbrev pub store : String → String → Session → Session
store k v s = record s { storage = put k v s.storage }

-- The middle of three parts.
abbrev pub middle : List String → Option String
middle (a ∷ b ∷ c ∷ []) = some b
middle _ = none

-- Reading a property of null throws.
abbrev pub not_null : Json ℕ → Option (Json ℕ)
not_null null = none
not_null v = some v

module _ (browser : Browser) where
  -- The alphabet of base64 for addresses, turned into that of `atob`.
  abbrev pub from_url : String → String
  from_url s = replace_all 95 "/" (replace_all 45 "+" s)

  unfoldable pub decode_context : String → Option (Json ℕ)
  decode_context raw = do
    s ← browser.decode_component raw
    b ← browser.atob (from_url s)
    json ← browser.utf8 b
    browser.parse json

  abbrev pub store_context : Option (Json ℕ) → Session → Session
  store_context none s = s
  store_context (some ctx) s =
      if is_truthy ctx && (is_truthy (member "current" ctx) && is_array (member "peers" ctx))
      then store context_key (browser.stringify ctx) s
      else s

  abbrev pub adopt_matched : Option String → String → Session → String × Session
  adopt_matched none hash s = (hash, s)
  adopt_matched (some raw) hash s = (remove_param "kctx" hash, store_context (decode_context raw) s)

  unfoldable pub adopt_cluster_context : String → Session → String × Session
  adopt_cluster_context hash s = adopt_matched (match_param "kctx" hash) hash s

  abbrev number_of : Json ℕ → Option ℕ
  number_of (num n) = some n
  number_of v = browser.to_number v

  -- `exp * 1000 < Date.now()`
  abbrev pub expired : Json ℕ → Bool
  expired v = elim (number_of v) [ none ↦ false | some n ↦ ltb (n * 1000) browser.now ]

  -- The payload of a token that is well formed and not expired.
  abbrev pub fresh : Json ℕ → Option (Json ℕ)
  fresh payload =
      if is_truthy (member "exp" payload) && expired (member "exp" payload)
      then none
      else some payload

  unfoldable pub verify : String → Option (Json ℕ)
  verify token = do
    part ← middle (split_dots token)
    json ← browser.atob (from_url part)
    value ← browser.parse json
    payload ← not_null value
    fresh payload
