-- ===== src/Labels.antt =====
-- Label selectors, web/src/hooks/useLabelSelector.tsx. The characters of a query are those of the
-- text; `Labels` is an object with text values.
pub mod Matching
pub mod Pieces
pub mod Splitting
mod Tests
use Prim.Native.Char.{Char, code}
use Prim.Native.String.{◌++◌}
use skyvirt_kubeui.Prelude.Text.{trim, is_filled}
use skyvirt_kubeui.Prelude.{
  String, ◌==◌, Bool, true, false, not, ◌&&◌, ◌||◌, Option, none, some, List, [], ◌∷◌,
  if◌then◌else◌, every, keep, map, ℕ, zero, suc, ◌+◌, ◌-◌, eqb, max,
}
use skyvirt_kubeui.Prelude.Dict.{get, has}

pub data Term : Type 0 where
  eq neq : String → String → Term
  exists nexists : String → Term
  in_set not_in_set : String → List String → Term

-- `set.includes(s)`
abbrev pub includes : List String → String → Bool
includes [] s = false
includes (x ∷ xs) s = x == s || includes xs s

-- The names that every object has from `Object.prototype`.
abbrev pub inherited : List String
inherited =
    "constructor" ∷ "__defineGetter__" ∷ "__defineSetter__" ∷ "hasOwnProperty" ∷ "__lookupGetter__"
    ∷ "__lookupSetter__" ∷ "isPrototypeOf" ∷ "propertyIsEnumerable" ∷ "toString" ∷ "valueOf"
    ∷ "__proto__" ∷ "toLocaleString" ∷ []

abbrev pub Labels : Type 0
Labels = List (String × String)

-- `k in l`
abbrev pub present : String → Labels → Bool
present k l = has k l || includes inherited k

-- `l[k] === v`, `set.includes(l[k])`: what is inherited is no text.
abbrev pub equals : Option String → String → Bool
equals none v = false
equals (some s) v = s == v

abbrev pub among : Option String → List String → Bool
among none set = false
among (some s) set = includes set s

unfoldable pub match_term : Labels → Term → Bool
match_term l (eq k v) = equals (get k l) v
match_term l (neq k v) = not (equals (get k l) v)
match_term l (exists k) = present k l
match_term l (nexists k) = not (present k l)
match_term l (in_set k set) = present k l && among (get k l) set
match_term l (not_in_set k set) = not (present k l) || not (among (get k l) set)

-- No terms, for an empty query, match all; labels that are missing are an empty object.
unfoldable pub match_terms : Option (List Term) → Option Labels → Bool
match_terms none labels = true
match_terms (some terms) none = every (match_term []) terms
match_terms (some terms) (some l) = every (match_term l) terms

-- `if (ch === "(") depth++; if (ch === ")") depth = Math.max(0, depth - 1)`
abbrev pub depth_after : ℕ → Char → ℕ
depth_after depth ch =
    if eqb (code ch) 40 then depth + 1 else if eqb (code ch) 41 then depth - 1 else depth

-- `ch === "," && depth === 0`
abbrev pub separates : ℕ → Char → Bool
separates depth ch = eqb (code ch) 44 && eqb depth 0

-- The loop over the query, and `if (cur.trim()) out.push(cur)` after it.
unfoldable pub split_loop : ℕ → String → String → List String
split_loop depth cur String.[] = if is_filled (trim cur) then cur ∷ [] else []
split_loop depth cur (String.◌∷◌ ch q) =
    let inner = depth_after depth ch in
    let cut = split_loop inner "" q in
    let more = split_loop inner (cur ++ String.◌∷◌ ch String.[]) q in
    if separates inner ch then cur ∷ cut else more

unfoldable pub split_terms : String → List String
split_terms q = keep is_filled (map trim (split_loop 0 "" q))
