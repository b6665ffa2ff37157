-- ===== src/Auth/Fragment.antt =====
-- The parameters of the address's fragment, as the regular expressions of web/src/hooks/useAuth.tsx
-- and web/src/lib/clusterContext.ts find and remove them.
use Prim.Native.Char.{Char, code}
use Prim.Native.String.{◌++◌}
use skyvirt_kubeui.Prelude.{ℕ, String, ◌||◌, Option, none, some, List, [], ◌∷◌, if◌then◌else◌, eqb}
use skyvirt_kubeui.Prelude.Text.{is_filled, onto}

-- `[^&]+`, or the empty text
abbrev pub value_of : String → String
value_of String.[] = String.[]
value_of (String.◌∷◌ c s) =
    let rest = value_of s in if eqb (code c) 38 then "" else String.◌∷◌ c rest

abbrev pub after_value : String → String
after_value String.[] = String.[]
after_value (String.◌∷◌ c s) =
    let rest = after_value s in if eqb (code c) 38 then String.◌∷◌ c s else rest

abbrev pub after_prefix : String → String → Option String
after_prefix String.[] s = some s
after_prefix (String.◌∷◌ c p) String.[] = none
after_prefix (String.◌∷◌ c p) (String.◌∷◌ d s) =
    let rest = after_prefix p s in if eqb (code c) (code d) then rest else none

-- What follows `#name=` or `&name=` at the start of a text, if a value does.
abbrev pub with_value : Option String → Option String
with_value none = none
with_value (some v) = if is_filled (value_of v) then some v else none

abbrev pub match_here : String → Char → String → Option String
match_here name c s =
    if eqb (code c) 35 || eqb (code c) 38 then with_value (after_prefix (name ++ "=") s) else none

-- `hash.match(/[#&]name=([^&]+)/)`, the group
unfoldable pub match_param : String → String → Option String
match_param name String.[] = none
match_param name (String.◌∷◌ c s) =
    let later = match_param name s in
    elim (match_here name c s) [ none ↦ later | some v ↦ some (value_of v) ]

-- `hash.replace(/[#&]name=[^&]+/, "")`
unfoldable pub remove_param : String → String → String
remove_param name String.[] = String.[]
remove_param name (String.◌∷◌ c s) =
    let later = remove_param name s in
    elim (match_here name c s) [ none ↦ String.◌∷◌ c later | some v ↦ after_value v ]

-- `s.replace(/^#$/, "")`
abbrev pub lone_hash : String → String
lone_hash (String.◌∷◌ c String.[]) = if eqb (code c) 35 then "" else String.◌∷◌ c String.[]
lone_hash s = s

-- `s.replace(/c/g, d)`
abbrev pub replace_all : ℕ → Char → String → String
replace_all c d String.[] = String.[]
replace_all c d (String.◌∷◌ e s) =
    let rest = replace_all c d s in if eqb (code e) c then String.◌∷◌ d rest else String.◌∷◌ e rest

-- `s.split(".")`
abbrev pub split_dots : String → List String
split_dots String.[] = "" ∷ []
split_dots (String.◌∷◌ c s) =
    let rest = split_dots s in if eqb (code c) 46 then "" ∷ rest else onto c rest
