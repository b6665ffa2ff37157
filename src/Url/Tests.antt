-- ===== src/Url/Tests.antt =====
-- The state of a table in a small address, with a router that gives an update the query of its render.
use skyvirt_kubeui.Prelude.{String, ◌==◌, ◌≡◌, refl, true, false, Option, none, some, [], ◌∷◌}
use skyvirt_kubeui.Prelude.Dict.{get}
use skyvirt_kubeui.Url.{
  Params, Param, Router, Table, SortDir, asc, is_key, value, read_param, sort_param, dir_param,
  sort_key, sort_dir, set_sort_key, set_sort_dir, set_value, toggle_sort,
}
use skyvirt_kubeui.Url.Writes.{FromRender, toggle_sort-other}

abbrev router : Router
router first now update = update first

router-FromRender : FromRender router
router-FromRender first now update = refl

-- The page was opened on the first of these; the search box has been filled in since.
abbrev opened : Params
opened = ("sort", "age") ∷ ("page", "3") ∷ []

abbrev searched : Params
searched = ("q", "nginx") ∷ ("sort", "cpu") ∷ ("page", "3") ∷ []

abbrev table : Table
table = record {
  enabled = true;
  query = record { first = opened; now = searched };
  local_key = none;
  local_dir = asc;
}

abbrev sort : Param (Option String)
sort = sort_param "" (some "name")

abbrev dir : Param SortDir
dir = dir_param "" asc

by_cpu : (dir.full_key == sort.full_key) ≡ false
unfolding dir_param sort_param
by_cpu = refl

not_search : (dir.full_key == "q") ≡ false
unfolding dir_param
not_search = refl

not_name : is_key "name" (sort_key sort table) ≡ false
unfolding sort_key value sort_param get read_param
not_name = refl

-- The click on "name" sorts by age, as when the page was opened, and empties the search box.
toggle_sort-other_example :
    let after = toggle_sort router sort dir "name" table in
    (sort_dir dir after ≡ asc)
    × (sort_key sort after ≡ read_param sort opened)
    × (get "q" after.query.now ≡ get "q" opened)
toggle_sort-other_example =
    toggle_sort-other router router-FromRender sort "" asc "name" table "q" by_cpu not_search
      not_name

abbrev beside : Table
beside = record table { enabled = false; local_key = some "age" }

-- With local state the click sorts by the clicked column.
toggle_sort_local : sort_key sort (toggle_sort router sort dir "name" beside) ≡ some "name"
unfolding toggle_sort sort_key value set_sort_key set_sort_dir set_value
toggle_sort_local = refl
