-- ===== src/Api/Tests.antt =====
-- Calls against a router that takes the only route that matches, or the first one without
-- parameters, and small answers of a server.
use mathlib.Core.Path.{subst}
use Prim.Native.String.{◌++◌}
use skyvirt_kubeui.Prelude.{
  ℕ, String, ◌==◌, ◌≡◌, refl, sym, ap, true, ◌&&◌, ◌||◌, Option, none, some, List, [], ◌∷◌, keep,
  if◌then◌else◌, inl, inr, ◌⊎◌, Bool-cases,
}
use skyvirt_kubeui.Prelude.Dict.{Dict, get}
use skyvirt_kubeui.Prelude.Text.{is_filled}
use skyvirt_kubeui.Json.{Json, obj, end}
use skyvirt_kubeui.Api.{Request, Method, fetch}
use skyvirt_kubeui.Api.Nodes.{remove_node_taint}
use skyvirt_kubeui.Api.Workloads
use skyvirt_kubeui.Api.Paths.{segments_of}
use skyvirt_kubeui.Api.Router.{Route, route, matching, same_method, matches}
use skyvirt_kubeui.Api.Router.Console.{routes}
use skyvirt_kubeui.Api.Served.Serving.{Router, IsRouter, Served, is_static}
use skyvirt_kubeui.Api.Served.{nodes, request_of, request_of-Served, remove_node_taint-unmatched}
use skyvirt_kubeui.Api.Served.Nodes as N
use skyvirt_kubeui.Api.Fixes.{
  restart, ProposedFix, apply_proposed_fix, Reaches, apply_proposed_fix-Reaches,
}
use skyvirt_kubeui.Api.Session.{
  Response, Session, ok, err, token_key, user_key, headers_of, is_ok, request, humanize_error,
}
use skyvirt_kubeui.Api.Session.Laws.{request-ok, request-expired}
use skyvirt_kubeui.Api.Session.Messages.{humanize_error-filled}

data Among : String → List String → Type 0 where
  here : {s : String} {xs : List String} → Among s (s ∷ xs)
  there : {s x : String} {xs : List String} → Among s xs → Among s (x ∷ xs)

Among-cons :
    (h k : String) (xs ys : List String)
    → (Among h xs → Among h ys)
    → Among h (k ∷ xs)
    → Among h (k ∷ ys)
Among-cons h _ xs ys f here = here
Among-cons h k xs ys f (there a) = there (f a)

skip-Among :
    (m : Method) (segments : List String) (n : Method) (pattern handler : String) (rs : List Route)
    (h : String)
    → Among h (matching m segments rs)
    → Among h (matching m segments (route n pattern handler ∷ rs))
unfolding matching
skip-Among m segments n pattern handler rs h a =
    elim (Bool-cases (same_method n m && matches (segments_of pattern) segments)) [
      | inl g ↦ rw g (there a)
      | inr f ↦ rw f a
    ]

static-Among :
    (m : Method) (segments : List String) (rs : List Route) (h : String)
    → Among h (matching m segments (keep is_static rs))
    → Among h (matching m segments rs)
unfolding matching
static-Among m segments [] h a = a
static-Among m segments (route n pattern handler ∷ rs) h a =
    elim (Bool-cases (is_static (route n pattern handler))) [
      | inr d ↦
          skip-Among m segments n pattern handler rs h (static-Among m segments rs h (rw d at a))
      | inl t ↦ elim (Bool-cases (same_method n m && matches (segments_of pattern) segments)) [
        | inr f ↦ rw f (static-Among m segments rs h (rw (t, f) at a))
        | inl g ↦ rw g (Among-cons h handler _ _ (static-Among m segments rs h) (rw (t, g) at a))
      ]
    ]

only_one : (h k : String) → Among h (k ∷ []) → h ≡ k
only_one h k here = refl
only_one h k (there a) = elim a [ ]

abbrev first : List String → Option String
first [] = none
first (h ∷ hs) = some h

abbrev choose : List String → List String → Option String
choose (h ∷ []) static = some h
choose _ static = first static

abbrev router : Router
router m segments =
    choose (matching m segments (routes true true))
      (matching m segments (keep is_static (routes true true)))

choose_static :
    (all static : List String) (h : String)
    → ((k : String) → Among k static → Among k all)
    → static ≡ h ∷ []
    → choose all static ≡ some h
choose_static [] static h sub e = ap first e
choose_static (k ∷ []) static h sub e =
    ap some (sym (only_one h k (sub h (subst (Among h) (sym e) here))))
choose_static (k ∷ l ∷ ks) static h sub e = ap first e

router-IsRouter : IsRouter router
router-IsRouter m segments h = (
  λ e. ap (λ all. choose all (matching m segments (keep is_static (routes true true)))) e,
  choose_static (matching m segments (routes true true))
      (matching m segments (keep is_static (routes true true))) h
      (static-Among m segments (routes true true)),
)

request_of-Served_example :
    Served router (request_of (λ s. s) (nodes (N.get_pod "default" "web-0"))) "pods.Get"
request_of-Served_example =
    request_of-Served router router-IsRouter (λ s. s) (nodes (N.get_pod "default" "web-0"))
      (refl, (refl, tt))

remove_node_taint-unmatched_example :
    matching Method.delete
      (segments_of
        (remove_node_taint "node-1" ("node.kubernetes.io" ++ ("/" ++ "out-of-service"))).path)
      (routes true true)
    ≡ []
remove_node_taint-unmatched_example =
    remove_node_taint-unmatched "node-1" "node.kubernetes.io" "out-of-service" refl refl refl

abbrev fix : ProposedFix
fix = record { action = restart; kind = "StatefulSet"; namespace = some "db"; name = "pg" }

fix_request : apply_proposed_fix fix ≡ some (Workloads.restart_stateful_set "db" "pg")
unfolding apply_proposed_fix
fix_request = refl

apply_proposed_fix-Reaches_example : Reaches router (Workloads.restart_stateful_set "db" "pg")
apply_proposed_fix-Reaches_example =
    apply_proposed_fix-Reaches router router-IsRouter fix (Workloads.restart_stateful_set "db" "pg")
      refl refl fix_request

abbrev parse : String → Option (Json ℕ)
parse s = if s == "{}" then some (obj end) else none

abbrev print : ℕ → String
print n = "500"

abbrev text : Json ℕ → String
text j = "[object Object]"

abbrev answers : ℕ → String → Request → Dict String → Response ⊎ String
answers status body req headers =
    inl (record { status = status; status_text = "Status"; body = body })

abbrev session : Session
session = record { storage = (token_key, "abc") ∷ ("theme", "dark") ∷ []; location = "/nodes" }

abbrev nodes_request : Request
nodes_request = fetch ("nodes" ∷ [])

answered :
    request parse print text (answers 200 "{}") nodes_request [] session ≡ (ok (obj end), session)
unfolding request
answered = refl

request-ok_example :
    (res : Response) × (answers 200 "{}" nodes_request (headers_of [] session) ≡ inl res)
    × (is_ok res ≡ true)
    × (parse res.body ≡ some (obj end))
    × (session ≡ session)
request-ok_example =
    request-ok parse print text (answers 200 "{}") nodes_request [] session session (obj end)
      answered

request-expired_example :
    let (result, t) = request parse print text (answers 401 "") nodes_request [] session in
    (result ≡ err "Session expired")
    × (t.location ≡ "/login")
    × ((k : String)
        → get k t.storage
          ≡ (if k == token_key || k == user_key then none else get k session.storage))
request-expired_example =
    request-expired parse print text (answers 401 "") nodes_request [] session
      (record { status = 401; status_text = "Status"; body = "" }) refl refl

abbrev broken : Response
broken = record { status = 502; status_text = "Bad Gateway"; body = "  " }

humanize_error-filled_example : is_filled (humanize_error parse print text broken) ≡ true
humanize_error-filled_example = humanize_error-filled parse print text broken (λ j e. cc)
