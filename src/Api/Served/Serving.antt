-- ===== src/Api/Served/Serving.antt =====
-- What it means that a request is served, and how a call shows it.
use skyvirt_kubeui.Prelude.{
  String, ◌==◌, ◌≡◌, ap, ◌∙◌, Bool, true, not, ◌||◌, Option, none, some, List, [], ◌∷◌, All, every,
  if◌then◌else◌, inl, inr, Bool-cases, keep,
}
use skyvirt_kubeui.Api.{Method, Request, path_of, scoped, if_given}
use skyvirt_kubeui.Api.Paths.{IsSegment, segments_of, segments_of-path_of}
use skyvirt_kubeui.Api.Router.{Route, route, matching, is_param}
use skyvirt_kubeui.Api.Router.Console.{routes}

-- The handler that the server's router finds for a method and the segments of a path. The router
-- is a package.
abbrev pub Router : Type 0
Router = Method → List String → Option String

-- A route without a parameter.
abbrev pub is_static : Route → Bool
is_static (route m pattern handler) = every (λ s. not (is_param s)) (segments_of pattern)

-- What the router does with the routes of a server that has a proxy for authentication and an
-- engine: a request that one route matches goes to its handler; and if several match, a route
-- without parameters comes first.
abbrev pub IsRouter : Router → Type 0
IsRouter router =
    (m : Method) (segments : List String) (handler : String)
    → (matching m segments (routes true true) ≡ handler ∷ [] → router m segments ≡ some handler)
      × (matching m segments (keep is_static (routes true true)) ≡ handler ∷ []
          → router m segments ≡ some handler)

abbrev pub Served : Router → Request → String → Type 0
Served router req handler = router req.method (segments_of req.path) ≡ some handler

-- The segment for an optional namespace.
abbrev pub given : Option String → List String
given none = []
given (some ns) = if ns == "" then [] else ns ∷ []

-- The handler for one namespace or for all.
abbrev pub of_scope : Option String → String → String → String
of_scope none inside all = all
of_scope (some ns) inside all = if ns == "" || ns == "all" then all else inside

abbrev pub of_given : Option String → String → String → String
of_given none inside all = all
of_given (some ns) inside all = if ns == "" then all else inside

module _ (router : Router) where
  pub fetch-Served :
      IsRouter router
      → (m : Method) (segments : List String) (handler : String) → All IsSegment segments
      → matching m segments (routes true true) ≡ handler ∷ []
      → router m (segments_of (path_of segments)) ≡ some handler
  fetch-Served r m segments handler s e =
      ap (router m) (segments_of-path_of segments s) ∙ (r m segments handler).0 e

  pub exact-Served :
      IsRouter router
      → (m : Method) (segments : List String) (handler : String) → All IsSegment segments
      → matching m segments (keep is_static (routes true true)) ≡ handler ∷ []
      → router m (segments_of (path_of segments)) ≡ some handler
  exact-Served r m segments handler s e =
      ap (router m) (segments_of-path_of segments s) ∙ (r m segments handler).1 e

  pub scoped-Served :
      (namespace : Option String) (inside : String → Request) (all : Request) (h h' : String)
      → All IsSegment (given namespace)
      → ((ns : String) → IsSegment ns → Served router (inside ns) h)
      → Served router all h'
      → Served router (scoped namespace inside all) (of_scope namespace h h')
  unfolding scoped
  scoped-Served none inside all h h' s f g = g
  scoped-Served (some ns) inside all h h' s f g = elim (Bool-cases (ns == "")) [
    | inl e ↦ rw e g
    | inr n ↦ elim (Bool-cases (ns == "all")) [
      | inl e ↦ rw (n, e) g
      | inr m ↦ rw (n, m) (f ns (rw n at s).0)
    ]
  ]

  pub if_given-Served :
      (namespace : Option String) (inside : String → Request) (all : Request) (h h' : String)
      → All IsSegment (given namespace)
      → ((ns : String) → IsSegment ns → Served router (inside ns) h)
      → Served router all h'
      → Served router (if_given namespace inside all) (of_given namespace h h')
  unfolding if_given
  if_given-Served none inside all h h' s f g = g
  if_given-Served (some ns) inside all h h' s f g = elim (Bool-cases (ns == "")) [
    | inl e ↦ rw e g
    | inr n ↦ rw n (f ns (rw n at s).0)
  ]
