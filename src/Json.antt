-- ===== src/Json.antt =====
-- The values that the web UI reads with `JSON.parse` and `jsYaml.load`, and JavaScript's reads and
-- writes of them. `N` is the type of numbers. An object is the list of its own properties in the
-- order of insertion; a key that names a member of `Object.prototype` is outside the model.
pub mod Laws
use skyvirt_kubeui.Prelude.{
  String, Bool, true, false, List, [], ◌∷◌, Option, none, some, if◌then◌else◌, ◌==◌, ◌≡◌,
}

mutual
  pub data Json (N : Type 0) : Type 0 where
    undefined null : Json N
    bool : Bool → Json N
    num : N → Json N
    str : String → Json N
    arr : Items N → Json N
    obj : Fields N → Json N

  pub data Items (N : Type 0) : Type 0 where
    nil : Items N
    cons : Json N → Items N → Items N

  pub data Fields (N : Type 0) : Type 0 where
    end : Fields N
    entry : String → Json N → Fields N → Fields N

module _ {N : Type 0} where
  -- `typeof v === "object" && v !== null && !Array.isArray(v)`
  abbrev pub is_object : Json N → Bool
  is_object (obj fs) = true
  is_object _ = false

  -- `o[k]`
  unfoldable pub field : String → Fields N → Json N
  field k end = undefined
  field k (entry j v fs) = if j == k then v else field k fs

  -- `k in o`
  unfoldable pub has : String → Fields N → Bool
  has k end = false
  has k (entry j v fs) = if j == k then true else has k fs

  -- `o[k] = v`
  unfoldable pub put : String → Json N → Fields N → Fields N
  put k v end = entry k v end
  put k v (entry j w fs) = if j == k then entry j v fs else entry j w (put k v fs)

  -- `delete o[k]`
  unfoldable pub remove : String → Fields N → Fields N
  remove k end = end
  remove k (entry j v fs) = let rest = remove k fs in if j == k then rest else entry j v rest

  -- `Object.keys(o).length === 0`
  abbrev pub is_empty : Fields N → Bool
  is_empty end = true
  is_empty (entry _ _ _) = false

  -- `Object.keys(o)`
  abbrev pub keys : Fields N → List String
  keys end = []
  keys (entry k v fs) = k ∷ keys fs

  -- `isObject(v) ? v : {}`
  abbrev pub fields_of : Json N → Fields N
  fields_of (obj fs) = fs
  fields_of _ = end

  -- An object holds a key once.
  abbrev pub Fresh : String → Fields N → Type 0
  Fresh k fs = has k fs ≡ false

  abbrev pub Distinct : Fields N → Type 0
  Distinct end = Unit
  Distinct (entry k v fs) = Fresh k fs × Distinct fs
