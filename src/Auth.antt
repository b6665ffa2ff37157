-- ===== src/Auth.antt =====
-- The provider of the session, web/src/hooks/useAuth.tsx, with the hand-over of the cluster context
-- in web/src/lib/clusterContext.ts. A user is the value that JSON gives, null when there is none.
pub mod Fragment
pub mod Token
pub mod Checked
pub mod Verified
pub mod Synced
mod Tests
use Prim.Native.Char.{Char, code}
use Prim.Native.String.{◌++◌}
use skyvirt_kubeui.Prelude.{
  ℕ, String, ◌==◌, Bool, true, false, not, ◌&&◌, ◌||◌, Option, none, some, List, [], ◌∷◌,
  if◌then◌else◌, eqb, ◌⊎◌, inl, inr, is_some,
}
use skyvirt_kubeui.Prelude.Dict.{get, put}
use skyvirt_kubeui.Prelude.Text.{is_filled}
use skyvirt_kubeui.Json.{Json, undefined, null, bool, num, str, arr, obj, end, entry}
use skyvirt_kubeui.Api.Session.{
  Session, Response, token_key, user_key, get_auth_token, clear_auth, is_truthy, member, or_value,
  is_ok,
}
use skyvirt_kubeui.Auth.Fragment.{match_param, remove_param, lone_hash, replace_all, split_dots}
use skyvirt_kubeui.Auth.Token.{
  Browser, ◌>>=◌, context_key, is_array, store, middle, not_null, from_url, decode_context,
  store_context, adopt_matched, adopt_cluster_context, fresh, verify,
}

pub record Auth : Type 0 where
  pub user : Json ℕ
  pub token : Option String
  pub loading : Bool
  pub auth_required : Bool
  pub session : Session
  pub fragment : String

module _ (browser : Browser) where
  abbrev pub parsed_user : Option (Json ℕ) → Json ℕ
  parsed_user none = null
  parsed_user (some u) = u

  abbrev pub stored_user : Option String → Json ℕ
  stored_user none = null
  stored_user (some s) = if is_filled s then parsed_user (browser.parse s) else null

  -- The state when the provider is mounted.
  unfoldable pub mount : Session → String → Auth
  mount s hash = record {
    user = stored_user (get user_key s.storage);
    token = get_auth_token s;
    loading = true;
    auth_required = true;
    session = s;
    fragment = hash;
  }

  abbrev pub user_of : Json ℕ → Json ℕ → Json ℕ
  user_of payload known = obj (
      entry "id"
        (or_value (member "uid" payload)
          (or_value (member "sub" payload) (or_value (member "id" known) (str ""))))
        (entry "email"
          (or_value (member "email" payload) (or_value (member "email" known) (str "")))
          (entry "role"
            (or_value (member "role" payload) (or_value (member "role" known) (str "viewer")))
            (entry "tenant_id" (or_value (member "tid" payload) (member "tenant_id" known)) end))))

  abbrev pub accept : Json ℕ → Auth → Auth
  accept payload a =
      if is_truthy (member "email" payload) || is_truthy (member "uid" payload)
      then record a {
        user = user_of payload a.user;
        session = store user_key (browser.stringify (user_of payload a.user)) a.session;
      }
      else a

  abbrev pub reject : Auth → Auth
  reject a = record a { user = null; token = none; session = clear_auth a.session }

  abbrev pub on_verified : Option (Json ℕ) → Auth → Auth
  on_verified none a = reject a
  on_verified (some payload) a = accept payload a

  abbrev pub done : Auth → Auth
  done a = record a { loading = false }

  -- The end of `init`: nothing is set after the provider was unmounted.
  abbrev pub validate : Bool → Option String → Auth → Auth
  validate true active a = a
  validate false none a = done a
  validate false (some t) a =
      if is_filled t then done (on_verified (verify browser t) a) else done a

  abbrev pub anonymous : Json ℕ
  anonymous = obj (
      entry "id" (str "anonymous")
        (entry "email" (str "anonymous@local") (entry "role" (str "admin") end)))

  abbrev pub open_to_all : Auth → Auth
  open_to_all a = record a { user = anonymous; auth_required = false; loading = false }

  -- `cfg.auth_enabled === false`, of a configuration that could be read
  abbrev pub is_false : Json ℕ → Bool
  is_false (bool b) = not b
  is_false _ = false

  abbrev pub is_open : Option (Json ℕ) → Bool
  is_open none = false
  is_open (some config) = is_false (member "auth_enabled" config)

  abbrev pub adopt_token : Option String → Auth → Auth
  adopt_token none a = a
  adopt_token (some t) a = record a { token = some t; session = store token_key t a.session }

  -- The token of the hand-over: none where there is none or it cannot be decoded.
  abbrev pub handed_over : String → Option String
  handed_over hash = match_param "sso" hash >>= browser.decode_component

  abbrev pub scrub : String → String → Auth → Auth
  scrub hash after a =
      if is_some (match_param "sso" hash) || not (after == hash)
      then record a { fragment = lone_hash (remove_param "sso" after) }
      else a

  -- `init` up to the call for the configuration.
  unfoldable pub hand_over : Auth → Auth
  hand_over a =
      let adopted = adopt_cluster_context browser a.fragment a.session in
      scrub a.fragment adopted.0
        (adopt_token (handed_over a.fragment) (record a { session = adopted.1 }))

  -- The rest of `init`: the configuration, none where it could not be had.
  unfoldable pub configured : Bool → Option (Json ℕ) → Auth → Auth
  configured cancelled config a =
      if not cancelled && is_open config then open_to_all a else validate cancelled a.token a

  unfoldable pub init : Bool → Option (Json ℕ) → Auth → Auth
  init cancelled config a = configured cancelled config (hand_over a)

  abbrev pub token_text : Json ℕ → Option String
  token_text (str t) = some t
  token_text _ = none

  abbrev pub login_user : String → Json ℕ → Json ℕ
  login_user email given = obj (
      entry "id" (or_value (member "id" given) (str "")) (
        entry "email" (or_value (member "email" given) (str email)) (
          entry "role" (or_value (member "role" given) (str "viewer"))
            (entry "tenant_id" (member "tenant_id" given) end))))

  -- The message of an error that login throws, and the state after it.
  abbrev pub logged_in : String → Option (Json ℕ) → Auth → Option String × Auth
  logged_in email none a = (some "SyntaxError", a)
  logged_in email (some null) a = (some "TypeError", a)
  logged_in email (some answer) a =
      let u = login_user email (member "user" answer) in
      let t = member "token" answer in
      (
        none,
        record a {
          user = u;
          token = token_text t;
          session =
              store user_key (browser.stringify u) (store token_key (browser.text t) a.session);
        },
      )

  abbrev pub login_failed : Option (Json ℕ) → String
  login_failed none = "Login failed"
  login_failed (some null) = "TypeError"
  login_failed (some body) = browser.text (or_value (member "error" body) (str "Login failed"))

  unfoldable pub login : String → Response ⊎ String → Auth → Option String × Auth
  login email (inr message) a = (some message, a)
  login email (inl res) a =
      if is_ok res
      then logged_in email (browser.parse res.body) a
      else (some (login_failed (browser.parse res.body)), a)

unfoldable pub logout : Auth → Auth
logout a = record a { user = null; token = none; session = clear_auth a.session }
