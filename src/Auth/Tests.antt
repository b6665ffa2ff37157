-- ===== src/Auth/Tests.antt =====
-- A session that a portal hands over, and a login.
use mathlib.Core.Option.{some-injective}
use skyvirt_kubeui.Prelude.{
  ℕ, String, ◌==◌, ◌≡◌, refl, sym, ap, false, none, some, List, [], ◌∷◌, inl, ◌⊎◌, if◌then◌else◌,
}
use skyvirt_kubeui.Prelude.Dict.{get, put}
use skyvirt_kubeui.Json.{Json, num, str, obj, end, entry, field}
use skyvirt_kubeui.Api.Session.{Session, Response, headers_of, get_auth_token, member}
use skyvirt_kubeui.Auth.Fragment.{match_param, remove_param}
use skyvirt_kubeui.Auth.Token.{Browser, adopt_cluster_context, verify}
use skyvirt_kubeui.Auth.Checked.{IsVerified}
use skyvirt_kubeui.Auth.{Auth, mount, init, configured, hand_over}
use skyvirt_kubeui.Auth.Verified.{init-token}
use skyvirt_kubeui.Auth.Synced.{
  Event, started, signed_in, signed_out, on_events, authorization, headers_of-on_events,
}

abbrev payload : Json ℕ
payload = obj (entry "email" (str "ada@site") (entry "exp" (num 1700000600) end))

abbrev answer : Json ℕ
answer = obj (entry "token" (str "h.payload.s") end)

abbrev browser : Browser
browser = record {
  parse =
      λ s. if s == "payload" then some payload else (if s == "answer" then some answer else none);
  stringify = λ v. "{}";
  text = λ v. elim v [ str s ↦ s | _ ↦ "" ];
  decode_component = λ s. some s;
  atob = λ s. some s;
  utf8 = λ s. some s;
  to_number = λ v. none;
  now = 1700000000000;
}

abbrev session : Session
session = record { storage = []; location = "/" }

abbrev handed : Auth
handed = mount browser session "#sso=h.payload.s"

handed_run : (init browser false none handed).token ≡ some "h.payload.s"
unfolding init configured hand_over adopt_cluster_context match_param remove_param verify mount
    field get_auth_token get put
handed_run = refl

init-token_example : (p : Json ℕ) × IsVerified browser "h.payload.s" p
init-token_example = init-token browser none handed "h.payload.s" refl handed_run refl

abbrev accepted : Response ⊎ String
accepted = inl (record { status = 200; status_text = "OK"; body = "answer" })

abbrev events : List Event
events = started false none ∷ signed_out ∷ signed_in "ada@site" accepted ∷ []

accepted-token :
    (a : Json ℕ)
    → browser.parse "answer" ≡ some a
    → (t : String) × (member "token" a ≡ str t) × (browser.text (str t) ≡ t)
unfolding field
accepted-token a e = ("h.payload.s", ap (member "token") (sym (some-injective _ _ e)), refl)

headers_of-on_events_example :
    get "Authorization" (headers_of [] (on_events browser events handed).session)
    ≡ authorization browser (on_events browser events handed).token
headers_of-on_events_example =
    headers_of-on_events browser session "#sso=h.payload.s" events (tt, (tt, (accepted-token, tt)))
