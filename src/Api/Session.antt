-- ===== src/Api/Session.antt =====
-- `request` and `humanizeError` of web/src/api/client.ts, with `getAuthToken` and `clearAuth` of
-- web/src/hooks/useAuth.tsx.
pub mod Laws
pub mod Messages
use Prim.Native.String.{◌++◌}
use skyvirt_kubeui.Prelude.{
  ℕ, String, Bool, true, false, not, ◌&&◌, Option, none, some, List, [], ◌∷◌, if◌then◌else◌, eqb,
  leb, inl, inr, ◌⊎◌,
}
use skyvirt_kubeui.Prelude.Dict.{Dict, get, put, remove}
use skyvirt_kubeui.Prelude.Text.{trim, is_filled}
use skyvirt_kubeui.Json.{Json, undefined, null, bool, num, str, arr, obj, Fields, field}
use skyvirt_kubeui.Api.{Request}

pub record Response : Type 0 where
  pub status : ℕ
  pub status_text : String
  pub body : String

-- The browser's storage and the address of the page.
pub record Session : Type 0 where
  pub storage : Dict String
  pub location : String

-- What a call gives: a value, or the message of the error that it throws.
pub data Result : Type 0 where
  ok : Json ℕ → Result
  err : String → Result

abbrev pub token_key : String
token_key = "skyvirt_token"

abbrev pub user_key : String
user_key = "skyvirt_user"

unfoldable pub get_auth_token : Session → Option String
get_auth_token s = get token_key s.storage

unfoldable pub clear_auth : Session → Session
clear_auth s = record s { storage = remove user_key (remove token_key s.storage) }

-- The headers: the type of the content, those of the options, and the token if there is one.
abbrev pub with_token : Option String → Dict String → Dict String
with_token none headers = headers
with_token (some t) headers =
    if is_filled t then put "Authorization" ("Bearer " ++ t) headers else headers

abbrev pub put_all : Dict String → Dict String → Dict String
put_all [] headers = headers
put_all ((k, v) ∷ more) headers = put_all more (put k v headers)

unfoldable pub headers_of : Dict String → Session → Dict String
unfolding get_auth_token
headers_of extra s =
    with_token (get_auth_token s) (put_all extra (("Content-Type", "application/json") ∷ []))

abbrev pub is_truthy : Json ℕ → Bool
is_truthy undefined = false
is_truthy null = false
is_truthy (bool b) = b
is_truthy (num n) = not (eqb n 0)
is_truthy (str s) = is_filled s
is_truthy (arr xs) = true
is_truthy (obj fs) = true

-- `j[k]` of what is not null
abbrev pub member : String → Json ℕ → Json ℕ
member k (obj fs) = field k fs
member k _ = undefined

-- `a || b`
abbrev pub or_value : Json ℕ → Json ℕ → Json ℕ
or_value a b = if is_truthy a then a else b

-- `typeof j === "string" ? j : ""`
abbrev pub own_text : Json ℕ → Json ℕ
own_text (str s) = str s
own_text _ = str ""

-- `res.ok`
abbrev pub is_ok : Response → Bool
is_ok res = leb 200 res.status && leb res.status 299

-- Parameters: `JSON.parse` with `none` for what it throws on, the text of a number, the text that
-- an error makes of a value that is no text, and the network, which can fail with a message.
module _ (parse : String → Option (Json ℕ)) (print : ℕ → String) (text : Json ℕ → String) where
  abbrev pub message_of : Json ℕ → String
  message_of (str s) = s
  message_of j = text j

  abbrev pub request_failed : Response → String
  request_failed res =
      trim ("Request failed (" ++ (print res.status ++ (" " ++ (res.status_text ++ ")"))))

  -- `catch { if (raw.trim()) return raw.trim(); }`, and the end of the function
  abbrev pub raw_or_failed : Response → String
  raw_or_failed res = if is_filled (trim res.body) then trim res.body else request_failed res

  -- `j.error || j.message || …`; reading a property of null throws.
  abbrev pub of_parsed : Response → Option (Json ℕ) → String
  of_parsed res none = raw_or_failed res
  of_parsed res (some null) = raw_or_failed res
  of_parsed res (some j) =
      let msg = or_value (member "error" j) (or_value (member "message" j) (own_text j)) in
      if is_truthy msg then message_of msg else request_failed res

  unfoldable pub humanize_error : Response → String
  humanize_error res = of_parsed res (parse res.body)

  -- `return res.json()`
  abbrev pub of_json : Option (Json ℕ) → Result
  of_json none = err "Unexpected token"
  of_json (some j) = ok j

  abbrev pub of_response : Response → Session → Result × Session
  of_response res s =
      if eqb res.status 401
      then (err "Session expired", record (clear_auth s) { location = "/login" })
      else if not (is_ok res)
      then (err (humanize_error res), s)
      else (of_json (parse res.body), s)

  abbrev pub of_network : Response ⊎ String → Session → Result × Session
  of_network (inl res) s = of_response res s
  of_network (inr message) s = (err message, s)

  unfoldable pub request :
      (Request → Dict String → Response ⊎ String)
      → Request
      → Dict String
      → Session
      → Result × Session
  unfolding headers_of
  request network req extra s = of_network (network req (headers_of extra s)) s
