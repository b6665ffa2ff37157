-- ===== src/Url/Writes.antt =====
-- The writes of one handler. The router has no queue for updates: each of them is applied to the
-- query of the render that made the setter, and the last navigation wins.
use skyvirt_kubeui.Prelude.{
  String, ◌==◌, ◌≡◌, refl, sym, ap, ◌∙◌, true, false, Option, some, if◌then◌else◌, Bool-cases, inl,
  inr,
}
use skyvirt_kubeui.Prelude.Dict.{get}
use skyvirt_kubeui.Url.{
  Params, Param, Router, Table, Paging, value, set_value, read_param, write_param, sort_key,
  sort_dir, set_sort_key, set_sort_dir, SortDir, asc, desc, flip, parse_dir, serialize_dir,
  dir_param, is_key, toggle_sort, set_page_size,
}
use skyvirt_kubeui.Url.Laws.{get-write_param_ne, read_param-write_param, read_param-write_param_ne}

-- What is known of the router: the update gets the query of the render that made `setSp`.
abbrev pub FromRender : Router → Type 0
FromRender router =
    (first now : Params) (update : Params → Params) → router first now update ≡ update first

parse-serialize_dir : (d : SortDir) → parse_dir (serialize_dir d) ≡ d
parse-serialize_dir asc = refl
parse-serialize_dir desc = refl

serialize_dir-blank {ℓ} : {A : Type ℓ} (d : SortDir) → serialize_dir d ≡ "" → A
serialize_dir-blank asc h = cc
serialize_dir-blank desc h = cc

serialize_dir-injective : (d e : SortDir) → serialize_dir d ≡ serialize_dir e → d ≡ e
serialize_dir-injective d e h = sym (parse-serialize_dir d) ∙ ap parse_dir h ∙ parse-serialize_dir e

-- The direction that is written is the direction that is read.
read_dir-write :
    (url_key : String) (initial d : SortDir) (sp : Params)
    → read_param (dir_param url_key initial) (write_param (dir_param url_key initial) d sp) ≡ d
unfolding dir_param
read_dir-write url_key initial d sp =
    read_param-write_param (dir_param url_key initial) d sp (parse-serialize_dir d)
      (λ h. serialize_dir-blank d h) (λ h. serialize_dir-injective d initial h)

module _ (router : Router) (from_render : FromRender router) where
  -- The table after the direction has been set, as it is read: the rest of the query is that of
  -- the first render.
  set_sort_dir-read :
      (sort : Param (Option String)) (url_key : String) (initial d : SortDir) (t : Table)
      → ((dir_param url_key initial).full_key == sort.full_key) ≡ false
      → let after = set_sort_dir router (dir_param url_key initial) d t in
        (sort_dir (dir_param url_key initial) after ≡ d)
        × (sort_key sort after ≡ (if t.enabled then read_param sort t.query.first else t.local_key))
  unfolding sort_dir sort_key set_sort_dir value set_value
  set_sort_dir-read sort url_key initial d t ne =
      let dir = dir_param url_key initial in
      let made = from_render t.query.first t.query.now (write_param dir d) in
      elim (Bool-cases t.enabled) [
        | inl e ↦ rw e (
          ap (read_param dir) made ∙ read_dir-write url_key initial d t.query.first,
          ap (read_param sort) made ∙ read_param-write_param_ne dir sort d t.query.first ne,
        )
        | inr e ↦ rw e (refl, refl)
      ]

  set_sort_dir-get :
      (dir : Param SortDir) (d : SortDir) (t : Table) (k : String)
      → (dir.full_key == k) ≡ false
      → get k (set_sort_dir router dir d t).query.now
        ≡ get k (if t.enabled then t.query.first else t.query.now)
  unfolding set_sort_dir set_value
  set_sort_dir-get dir d t k ne = elim (Bool-cases t.enabled) [
    | inl e ↦ rw e (
        ap (get k) (from_render t.query.first t.query.now (write_param dir d))
        ∙ get-write_param_ne dir d t.query.first k ne)
    | inr e ↦ rw e refl
  ]

  -- What a write of the sorted column leaves.
  set_sort_key-rest :
      (sort : Param (Option String)) (v : Option String) (t : Table)
      → let after = set_sort_key router sort v t in
        ((if after.enabled then read_param sort after.query.first else after.local_key)
          ≡ (if t.enabled then read_param sort t.query.first else v))
        × ((if after.enabled then after.query.first else after.query.now)
            ≡ (if t.enabled then t.query.first else t.query.now))
  unfolding set_sort_key set_value
  set_sort_key-rest sort v t = elim (Bool-cases t.enabled) [
    | inl e ↦ rw e (refl, refl)
    | inr e ↦ rw e (refl, refl)
  ]

  toggle_sort-current_lem :
      (sort : Param (Option String)) (dir : Param SortDir) (key : String) (t : Table)
      → is_key key (sort_key sort t) ≡ true
      → toggle_sort router sort dir key t ≡ set_sort_dir router dir (flip (sort_dir dir t)) t
  unfolding toggle_sort
  toggle_sort-current_lem sort dir key t current = rw current

  toggle_sort-other_lem :
      (sort : Param (Option String)) (dir : Param SortDir) (key : String) (t : Table)
      → is_key key (sort_key sort t) ≡ false
      → toggle_sort router sort dir key t
        ≡ set_sort_dir router dir asc (set_sort_key router sort (some key) t)
  unfolding toggle_sort
  toggle_sort-other_lem sort dir key t other = rw other

  -- A click on the header of the sorted column flips the direction. The column stays, or, with the
  -- state in the address, becomes the one of the first render's query.
  toggle_sort-current :
      (sort : Param (Option String)) (url_key : String) (initial : SortDir) (key : String)
      (t : Table)
      → ((dir_param url_key initial).full_key == sort.full_key) ≡ false
      → is_key key (sort_key sort t) ≡ true
      → let dir = dir_param url_key initial in
        let after = toggle_sort router sort dir key t in
        (sort_dir dir after ≡ flip (sort_dir dir t))
        × (sort_key sort after ≡ (if t.enabled then read_param sort t.query.first else t.local_key))
  toggle_sort-current sort url_key initial key t ne current =
      rw (toggle_sort-current_lem sort (dir_param url_key initial) key t current)
        (set_sort_dir-read sort url_key initial _ t ne)

  -- If an update gets the query of the render that made its setter, which is the first one, and the
  -- two parameters have different names, a click on the header of another column makes the direction
  -- ascending. With local state the clicked column becomes the sorted one, and every parameter of
  -- the address but the direction's stays. With the state in the address, the sorted column becomes
  -- the one that the query of the first render gives, and every other parameter of the address but
  -- the direction's also gets the value of that query.
  pub toggle_sort-other :
      (sort : Param (Option String)) (url_key : String) (initial : SortDir) (key : String)
      (t : Table) (k : String)
      → ((dir_param url_key initial).full_key == sort.full_key) ≡ false
      → ((dir_param url_key initial).full_key == k) ≡ false
      → is_key key (sort_key sort t) ≡ false
      → let dir = dir_param url_key initial in
        let after = toggle_sort router sort dir key t in
        (sort_dir dir after ≡ asc)
        × (sort_key sort after ≡ (if t.enabled then read_param sort t.query.first else some key))
        × (get k after.query.now ≡ get k (if t.enabled then t.query.first else t.query.now))
  toggle_sort-other sort url_key initial key t k ne away other =
      let dir = dir_param url_key initial in
      let u = set_sort_key router sort (some key) t in
      let (key_left, query_left) = set_sort_key-rest sort (some key) t in
      let (direction, column) = set_sort_dir-read sort url_key initial asc u ne in
      let rest = set_sort_dir-get dir asc u k away in
      rw (toggle_sort-other_lem sort dir key t other)
        (direction, column ∙ key_left, rest ∙ ap (get k) query_left)

  set_page_size_lem :
      {S P : Type 0} (size : Param S) (page : Param P) (first : P) (n : S) (t : Paging S P)
      → t.enabled ≡ true
      → (set_page_size router size page first n t).query.now ≡ write_param size n t.query.first
  unfolding set_page_size set_value
  set_page_size_lem size page first n t e = rw e (from_render _ _ _)

  -- With the state in the address, the choice of a page size, one whose text can be read back and
  -- is written unless it is the initial size, sets the size and gives the page of the first render.
  set_page_size-page :
      {S P : Type 0} (size : Param S) (page : Param P) (first : P) (n : S) (t : Paging S P)
      → t.enabled ≡ true
      → (size.full_key == page.full_key) ≡ false
      → size.parse (size.serialize n) ≡ n
      → (size.serialize n ≡ "" → n ≡ size.initial)
      → (size.serialize n ≡ size.serialize (size.initial) → n ≡ size.initial)
      → let after = set_page_size router size page first n t in
        (read_param size after.query.now ≡ n)
        × (read_param page after.query.now ≡ read_param page t.query.first)
  set_page_size-page size page first n t on ne back blank same =
      let made = set_page_size_lem size page first n t on in
      (
        ap (read_param size) made ∙ read_param-write_param size n t.query.first back blank same,
        ap (read_param page) made ∙ read_param-write_param_ne size page n t.query.first ne,
      )
