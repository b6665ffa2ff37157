-- ===== src/Api/Router.antt =====
-- The routes that the server registers, internal/api/router.go, below `/api/v1`. The package that
-- matches them is a parameter.
pub mod Workloads
pub mod Console
use Prim.Native.Char.{code}
use skyvirt_kubeui.Prelude.{
  ℕ, String, ◌==◌, ◌≡◌, Bool, true, false, ◌&&◌, ◌||◌, Option, some, List, [], ◌∷◌, ◌++◌,
  if◌then◌else◌, eqb, every,
}
use skyvirt_kubeui.Api.{Method, get, post, put, patch, delete}
use skyvirt_kubeui.Api.Paths.{segments_of}

-- `api.Get(pattern, handler)` and its like; a handler is named as in the source.
pub data Route : Type 0 where
  route : Method → String → String → Route

abbrev pub same_method : Method → Method → Bool
same_method get get = true
same_method post post = true
same_method put put = true
same_method patch patch = true
same_method delete delete = true
same_method _ _ = false

-- A segment such as `{name}`.
abbrev pub is_param : String → Bool
is_param String.[] = false
is_param (String.◌∷◌ c s) = eqb (code c) 123

abbrev pub same_length : List String → List String → Bool
same_length [] [] = true
same_length [] (s ∷ ss) = false
same_length (p ∷ ps) [] = false
same_length (p ∷ ps) (s ∷ ss) = same_length ps ss

abbrev pub fits : List String → List String → Bool
fits (p ∷ ps) (s ∷ ss) = (is_param p || p == s) && fits ps ss
fits _ _ = true

abbrev pub matches : List String → List String → Bool
matches pattern segments = same_length pattern segments && fits pattern segments

-- The handlers of the routes that match a request, in the order of their registration.
unfoldable pub matching : Method → List String → List Route → List String
matching m segments [] = []
matching m segments (route n pattern handler ∷ routes) =
    let rest = matching m segments routes in
    if same_method n m && matches (segments_of pattern) segments then handler ∷ rest else rest
