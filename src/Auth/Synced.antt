-- ===== src/Auth/Synced.antt =====
-- The token of the provider in web/src/hooks/useAuth.tsx and the one that the API client sends.
use Prim.Native.String.{◌++◌}
use skyvirt_kubeui.Prelude.{
  ℕ, String, ◌==◌, ◌≡◌, refl, sym, ap, ◌∙◌, Bool, true, false, not, ◌&&◌, Option, none, some, List,
  [], ◌∷◌, All, if◌then◌else◌, inl, inr, ◌⊎◌, if-each,
}
use skyvirt_kubeui.Prelude.Dict.{get, put, get-put, get-remove}
use skyvirt_kubeui.Prelude.Text.{is_filled}
use skyvirt_kubeui.Json.{Json, undefined, null, bool, num, str, arr, obj}
use skyvirt_kubeui.Api.Session.{
  Session, Response, token_key, user_key, get_auth_token, clear_auth, member, is_ok, headers_of,
  with_token,
}
use skyvirt_kubeui.Auth.Fragment.{match_param}
use skyvirt_kubeui.Auth.Token.{
  Browser, context_key, store, store_context, decode_context, adopt_matched, adopt_cluster_context,
  verify,
}
use skyvirt_kubeui.Auth.{
  Auth, mount, on_verified, validate, is_open, adopt_token, handed_over, hand_over, configured,
  init, token_text, logged_in, login, logout, user_of,
}

-- The provider's token is the one in the browser's storage.
abbrev pub Synced : Auth → Type 0
Synced a = get_auth_token a.session ≡ a.token

get_auth_token-store :
    (k v : String) (s : Session)
    → (k == token_key) ≡ false
    → get_auth_token (store k v s) ≡ get_auth_token s
unfolding get_auth_token
get_auth_token-store k v s e = rw (get-put, e) refl

get_auth_token-store_token :
    (t : String) (s : Session) → get_auth_token (store token_key t s) ≡ some t
unfolding get_auth_token
get_auth_token-store_token t s = rw get-put refl

get_auth_token-clear_auth : (s : Session) → get_auth_token (clear_auth s) ≡ none
unfolding get_auth_token clear_auth
get_auth_token-clear_auth s = rw (get-remove, get-remove) refl

-- The life of the provider: its start with the configuration, logins and logouts.
pub data Event : Type 0 where
  started : Bool → Option (Json ℕ) → Event
  signed_in : String → Response ⊎ String → Event
  signed_out : Event

module _ (browser : Browser) where
  store_context-token :
      (o : Option (Json ℕ)) (s : Session)
      → get_auth_token (store_context browser o s) ≡ get_auth_token s
  store_context-token none s = refl
  store_context-token (some ctx) s =
      if-each (λ r. get_auth_token r ≡ get_auth_token s) _ _ _
        (get_auth_token-store context_key (browser.stringify ctx) s refl) refl

  adopt_matched-token :
      (o : Option String) (hash : String) (s : Session)
      → get_auth_token (adopt_matched browser o hash s).1 ≡ get_auth_token s
  adopt_matched-token none hash s = refl
  adopt_matched-token (some raw) hash s = store_context-token (decode_context browser raw) s

  adopt_token-Synced : (o : Option String) (a : Auth) → Synced a → Synced (adopt_token browser o a)
  adopt_token-Synced none a s = s
  adopt_token-Synced (some t) a s = get_auth_token-store_token t a.session

  hand_over-Synced : (a : Auth) → Synced a → Synced (hand_over browser a)
  unfolding hand_over adopt_cluster_context
  hand_over-Synced a s = if-each Synced _ _ _ adopted adopted
    where
      adopted : Synced (
          adopt_token browser (handed_over browser a.fragment) (record a {
            session =
                (adopt_matched browser (match_param "kctx" a.fragment) a.fragment a.session).1;
          }))
      adopted =
          adopt_token-Synced (handed_over browser a.fragment) _
            (adopt_matched-token (match_param "kctx" a.fragment) a.fragment a.session ∙ s)

  on_verified-Synced :
      (o : Option (Json ℕ)) (a : Auth) → Synced a → Synced (on_verified browser o a)
  on_verified-Synced none a s = get_auth_token-clear_auth a.session
  on_verified-Synced (some p) a s =
      if-each Synced _ _ _
        (get_auth_token-store user_key (browser.stringify (user_of browser p a.user)) a.session refl
          ∙ s)
        s

  validate-Synced :
      (cancelled : Bool) (o : Option String) (a : Auth)
      → Synced a
      → Synced (validate browser cancelled o a)
  validate-Synced true o a s = s
  validate-Synced false none a s = s
  validate-Synced false (some t) a s =
      if-each Synced (is_filled t) _ _ (on_verified-Synced (verify browser t) a s) s

  init-Synced :
      (cancelled : Bool) (config : Option (Json ℕ)) (a : Auth)
      → Synced a
      → Synced (init browser cancelled config a)
  unfolding init configured
  init-Synced cancelled config a s =
      let handed = hand_over-Synced a s in
      if-each Synced (not cancelled && is_open browser config) _ _ handed
        (validate-Synced cancelled _ (hand_over browser a) handed)

  -- A login that the backend accepts is answered with a token.
  abbrev pub SendsToken : Response ⊎ String → Type 0
  SendsToken (inr message) = Unit
  SendsToken (inl res) =
      (answer : Json ℕ)
      → browser.parse res.body ≡ some answer
      → (t : String) × (member "token" answer ≡ str t) × (browser.text (str t) ≡ t)

  stored-token :
      (v : Json ℕ) (t u : String) (s : Session)
      → v ≡ str t
      → browser.text (str t) ≡ t
      → get_auth_token (store user_key u (store token_key (browser.text v) s))
        ≡ token_text browser v
  stored-token v t u s m same =
      get_auth_token-store user_key u _ refl
      ∙ get_auth_token-store_token (browser.text v) s
      ∙ ap (λ w. some (browser.text w)) m
      ∙ ap some same
      ∙ sym (ap (token_text browser) m)

  logged_in-Synced :
      (email : String) (o : Option (Json ℕ)) (a : Auth)
      → ((answer : Json ℕ)
          → o ≡ some answer
          → (t : String) × (member "token" answer ≡ str t) × (browser.text (str t) ≡ t))
      → Synced a
      → Synced (logged_in browser email o a).1
  logged_in-Synced email none a sends s = s
  logged_in-Synced email (some null) a sends s = s
  logged_in-Synced email (some (obj fs)) a sends s =
      let (t, m, same) = sends (obj fs) refl in stored-token _ t _ a.session m same
  logged_in-Synced email (some undefined) a sends s =
      let (t, m, same) = sends undefined refl in stored-token _ t _ a.session m same
  logged_in-Synced email (some (bool b)) a sends s =
      let (t, m, same) = sends (bool b) refl in stored-token _ t _ a.session m same
  logged_in-Synced email (some (num n)) a sends s =
      let (t, m, same) = sends (num n) refl in stored-token _ t _ a.session m same
  logged_in-Synced email (some (str x)) a sends s =
      let (t, m, same) = sends (str x) refl in stored-token _ t _ a.session m same
  logged_in-Synced email (some (arr vs)) a sends s =
      let (t, m, same) = sends (arr vs) refl in stored-token _ t _ a.session m same

  login-Synced :
      (email : String) (answer : Response ⊎ String) (a : Auth)
      → SendsToken answer
      → Synced a
      → Synced (login browser email answer a).1
  unfolding login
  login-Synced email (inr message) a sends s = s
  login-Synced email (inl res) a sends s =
      if-each {A = Option String × Auth} (λ r. Synced r.1) (is_ok res) _ _
        (logged_in-Synced email (browser.parse res.body) a sends s) s

  abbrev pub on_event : Event → Auth → Auth
  on_event (started cancelled config) a = init browser cancelled config a
  on_event (signed_in email answer) a = (login browser email answer a).1
  on_event signed_out a = logout a

  abbrev pub on_events : List Event → Auth → Auth
  on_events [] a = a
  on_events (e ∷ events) a = on_events events (on_event e a)

  abbrev pub IsAnswered : Event → Type 0
  IsAnswered (signed_in email answer) = SendsToken answer
  IsAnswered _ = Unit

  on_event-Synced : (e : Event) (a : Auth) → IsAnswered e → Synced a → Synced (on_event e a)
  unfolding logout
  on_event-Synced (started cancelled config) a answered s = init-Synced cancelled config a s
  on_event-Synced (signed_in email answer) a answered s = login-Synced email answer a answered s
  on_event-Synced signed_out a answered s = get_auth_token-clear_auth a.session

  on_events-Synced :
      (events : List Event) (a : Auth)
      → All IsAnswered events
      → Synced a
      → Synced (on_events events a)
  on_events-Synced [] a answered s = s
  on_events-Synced (e ∷ events) a (first, rest) s =
      on_events-Synced events (on_event e a) rest (on_event-Synced e a first s)

  abbrev pub authorization : Option String → Option String
  authorization none = none
  authorization (some t) = if is_filled t then some ("Bearer " ++ t) else none

  get-with_token :
      (o : Option String)
      → get "Authorization" (with_token o (("Content-Type", "application/json") ∷ []))
        ≡ authorization o
  unfolding get put
  get-with_token none = refl
  get-with_token (some t) = either_way (is_filled t)
    where
      either_way :
          (b : Bool)
          → get "Authorization" (
              if b
              then put "Authorization" ("Bearer " ++ t) (("Content-Type", "application/json") ∷ [])
              else (("Content-Type", "application/json") ∷ []))
            ≡ (if b then some ("Bearer " ++ t) else none)
      either_way true = refl
      either_way false = refl

  -- After any starts, logins and logouts from the mounted provider, where a login that is answered
  -- is answered with a text as the token, the API client authorizes its calls with the provider's
  -- token, and with none when the provider has none or an empty one.
  pub headers_of-on_events :
      (s : Session) (hash : String) (events : List Event)
      → All IsAnswered events
      → get "Authorization" (headers_of [] (on_events events (mount browser s hash)).session)
        ≡ authorization (on_events events (mount browser s hash)).token
  unfolding headers_of mount
  headers_of-on_events s hash events answered =
      get-with_token _
      ∙ ap authorization (on_events-Synced events (mount browser s hash) answered refl)
