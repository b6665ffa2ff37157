-- ===== src/Api.antt =====
-- The requests of the HTTP client, web/src/api/client.ts.
pub mod Paths
pub mod Router
pub mod Served
pub mod Session
pub mod Fixes
mod Tests
pub mod Nodes
pub mod Workloads
pub mod Config
pub mod Helm
pub mod Reports
pub mod Manage
use Prim.Native.String.{◌++◌}
use skyvirt_kubeui.Prelude.{
  ℕ, String, ◌==◌, Bool, true, false, ◌||◌, Option, none, some, List, [], ◌∷◌, if◌then◌else◌,
}
use skyvirt_kubeui.Prelude.Dict.{Dict}
use skyvirt_kubeui.Json.{Json, undefined, bool, num, str, obj, Fields, end, entry}

pub data Method : Type 0 where
  get post put patch delete : Method

-- What `request` is called with: the method, the path, the decoded query of the path, and the
-- value whose `JSON.stringify` is the body.
pub record Request : Type 0 where
  pub method : Method
  pub path : String
  pub query : Dict (Json ℕ)
  pub body : Option (Json ℕ)

-- The text of a template such as `/namespaces/${namespace}/pods/${name}`, from its segments.
unfoldable pub path_of : List String → String
path_of [] = ""
path_of (s ∷ ss) = "/" ++ (s ++ path_of ss)

-- `request(path)`, `request(path, { method })`, `request(path, { method, body })` and
-- `request(path?query)`
abbrev pub fetch : List String → Request
fetch segments = record { method = get; path = path_of segments; query = []; body = none }

abbrev pub act : Method → List String → Request
act method segments = record { method = method; path = path_of segments; query = []; body = none }

abbrev pub send : Method → List String → Json ℕ → Request
send method segments body = record {
  method = method;
  path = path_of segments;
  query = [];
  body = some body;
}

abbrev pub query : List String → Dict (Json ℕ) → Request
query segments params = record {
  method = get;
  path = path_of segments;
  query = params;
  body = none;
}

-- `if (namespace && namespace !== "all") return …; return …;`
unfoldable pub scoped : Option String → (String → Request) → Request → Request
scoped none inside all = all
scoped (some ns) inside all = if ns == "" || ns == "all" then all else inside ns

-- `if (namespace) return …; return …;`
unfoldable pub if_given : Option String → (String → Request) → Request → Request
if_given none inside all = all
if_given (some ns) inside all = if ns == "" then all else inside ns

-- An optional property of a body, and an optional parameter: `if (v) params.set(k, v)`.
abbrev pub opt : Option String → Json ℕ
opt none = undefined
opt (some s) = str s

abbrev pub param : String → Option String → Dict (Json ℕ)
param k none = []
param k (some s) = if s == "" then [] else (k, str s) ∷ []

abbrev pub param_number : String → Option ℕ → Dict (Json ℕ)
param_number k none = []
param_number k (some ℕ.zero) = []
param_number k (some (ℕ.suc n)) = (k, num (ℕ.suc n)) ∷ []

-- `opts?.force ?? false`, on the value of `force`
abbrev pub force_or_false : Option Bool → Bool
force_or_false none = false
force_or_false (some b) = b

-- `namespace || ""` and `opts ?? {}`
abbrev pub text_or_empty : Option String → String
text_or_empty none = ""
text_or_empty (some s) = s

abbrev pub fields_or_empty : Option (Fields ℕ) → Fields ℕ
fields_or_empty none = end
fields_or_empty (some fs) = fs

-- `"backups" | "restores" | "schedules" | "backupstoragelocations"`
pub data VeleroResource : Type 0 where
  backups restores schedules backup_storage_locations : VeleroResource

abbrev pub velero_name : VeleroResource → String
velero_name backups = "backups"
velero_name restores = "restores"
velero_name schedules = "schedules"
velero_name backup_storage_locations = "backupstoragelocations"
