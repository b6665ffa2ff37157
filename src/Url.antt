-- ===== src/Url.antt =====
-- State in the query of the address: web/src/hooks/useUrlState.ts, and the operations of
-- web/src/hooks/useSortableTable.tsx and web/src/hooks/usePagination.tsx that write two parameters.
pub mod Laws
pub mod Writes
mod Tests
use Prim.Native.String.{◌++◌}
use skyvirt_kubeui.Prelude.{
  String, ◌==◌, Bool, true, false, ◌||◌, Option, none, some, List, [], ◌∷◌, if◌then◌else◌,
}
use skyvirt_kubeui.Prelude.Dict.{Dict, get, put, remove}

-- The query's parameters; an address gives a parameter once.
abbrev pub Params : Type 0
Params = Dict String

-- One parameter: its name, its initial value and how values are written.
pub record Param (T : Type 0) : Type 0 where
  pub full_key : String
  pub initial : T
  pub parse : String → T
  pub serialize : T → String

-- `urlKey ? `${urlKey}_${param}` : param`
abbrev pub full_key_of : String → String → String
full_key_of String.[] param = param
full_key_of (String.◌∷◌ c url_key) param = String.◌∷◌ c url_key ++ ("_" ++ param)

module _ {T : Type 0} where
  abbrev pub parsed : (String → T) → T → Option String → T
  parsed parse initial none = initial
  parsed parse initial (some s) = parse s

  -- `sp.has(fullKey) ? parse(sp.get(fullKey)) : initial`
  unfoldable pub read_param : Param T → Params → T
  read_param p sp = parsed (p.parse) (p.initial) (get (p.full_key) sp)

  -- The update that `setValue` hands to `setSp`.
  unfoldable pub write_param : Param T → T → Params → Params
  write_param p v prev =
      let s = p.serialize v in
      if s == "" || s == p.serialize (p.initial)
      then remove (p.full_key) prev
      else put (p.full_key) s prev

-- The query as a component sees it: now, and in the render that made its setters. `useCallback`
-- keeps a setter, with the `setSp` of its render, as long as `[enabled, fullKey]` stays the same, so
-- this is the component's first render.
pub record Query : Type 0 where
  pub first : Params
  pub now : Params

-- The router's `setSp`, made in a render with the first query, is called at the second with an
-- update: the query that it goes to. The router is a package.
abbrev pub Router : Type 0
Router = Params → Params → (Params → Params) → Params

-- One `useMaybeUrlState`: `query` is the shared one, `local` its own state.
module _ {T : Type 0} where
  unfoldable pub value : Bool → Param T → Query → T → T
  unfolding read_param
  value enabled p query local = if enabled then read_param p query.now else local

  -- `setValue`: the query and the local state after it.
  unfoldable pub set_value : Router → Bool → Param T → T → Query → T → Query × T
  unfolding write_param
  set_value router enabled p v query local =
      if enabled
      then (record query { now = router query.first query.now (write_param p v) }, local)
      else (query, v)

pub data SortDir : Type 0 where
  asc desc : SortDir

abbrev pub parse_dir : String → SortDir
parse_dir s = if s == "desc" then desc else asc

abbrev pub serialize_dir : SortDir → String
serialize_dir asc = "asc"
serialize_dir desc = "desc"

abbrev pub flip : SortDir → SortDir
flip asc = desc
flip desc = asc

-- `v ?? ""`
abbrev pub serialize_key : Option String → String
serialize_key none = ""
serialize_key (some k) = k

-- The two parameters of a sorted table.
unfoldable pub sort_param : String → Option String → Param (Option String)
sort_param url_key initial = record {
  full_key = full_key_of url_key "sort";
  initial = initial;
  parse = λ s. some s;
  serialize = serialize_key;
}

unfoldable pub dir_param : String → SortDir → Param SortDir
dir_param url_key initial = record {
  full_key = full_key_of url_key "dir";
  initial = initial;
  parse = parse_dir;
  serialize = serialize_dir;
}

abbrev pub is_key : String → Option String → Bool
is_key key none = false
is_key key (some k) = key == k

-- A sorted table: whether the address holds its state, the query, and its local states.
pub record Table : Type 0 where
  pub enabled : Bool
  pub query : Query
  pub local_key : Option String
  pub local_dir : SortDir

unfoldable pub sort_key : Param (Option String) → Table → Option String
unfolding value
sort_key sort t = value t.enabled sort t.query t.local_key

unfoldable pub sort_dir : Param SortDir → Table → SortDir
unfolding value
sort_dir dir t = value t.enabled dir t.query t.local_dir

module _ (router : Router) where
  unfoldable pub set_sort_key : Param (Option String) → Option String → Table → Table
  unfolding set_value
  set_sort_key sort v t =
      let (query, local) = set_value router t.enabled sort v t.query t.local_key in
      record t { query = query; local_key = local }

  unfoldable pub set_sort_dir : Param SortDir → SortDir → Table → Table
  unfolding set_value
  set_sort_dir dir v t =
      let (query, local) = set_value router t.enabled dir v t.query t.local_dir in
      record t { query = query; local_dir = local }

  -- One click on a column's header.
  unfoldable pub toggle_sort : Param (Option String) → Param SortDir → String → Table → Table
  unfolding sort_key sort_dir set_sort_key set_sort_dir
  toggle_sort sort dir key t =
      if is_key key (sort_key sort t)
      then set_sort_dir dir (flip (sort_dir dir t)) t
      else set_sort_dir dir asc (set_sort_key sort (some key) t)

-- The page and the page size of a list.
pub record Paging (S P : Type 0) : Type 0 where
  pub enabled : Bool
  pub query : Query
  pub local_size : S
  pub local_page : P

-- `setPageSize(n)`: first the page, then the size.
unfoldable pub set_page_size :
    {S P : Type 0} → Router → Param S → Param P → P → S → Paging S P → Paging S P
unfolding set_value
set_page_size router size page first n t =
    let (reset, local_page) = set_value router t.enabled page first t.query t.local_page in
    let (query, local_size) = set_value router t.enabled size n reset t.local_size in
    record t { query = query; local_size = local_size; local_page = local_page }
