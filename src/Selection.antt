-- ===== src/Selection.antt =====
-- Row selection in tables, `useRowSelection` of web/src/hooks/useRowSelection.ts.
pub mod Laws
mod Tests
use skyvirt_kubeui.Prelude.{
  ℕ, suc, ◌≡◌, String, Bool, true, false, not, ◌&&◌, List, [], ◌∷◌, map, if◌then◌else◌, ◌==◌, ltb,
  length, every, keep,
}

-- A JavaScript `Set` of texts: no text twice, in the order of insertion.
abbrev pub has : String → List String → Bool
has k [] = false
has k (j ∷ s) = if j == k then true else has k s

abbrev pub add : String → List String → List String
add k [] = k ∷ []
add k (j ∷ s) = if j == k then j ∷ s else j ∷ add k s

abbrev pub delete : String → List String → List String
delete k [] = []
delete k (j ∷ s) = let rest = delete k s in if j == k then rest else j ∷ rest

-- `keys.forEach((k) => n.add(k))`
abbrev pub add_all : List String → List String → List String
add_all [] s = s
add_all (k ∷ ks) s = add_all ks (add k s)

abbrev pub delete_all : List String → List String → List String
delete_all [] s = s
delete_all (k ∷ ks) s = delete_all ks (delete k s)

pub toggle : String → List String → List String
toggle key s = if has key s then delete key s else add key s

pub count : List String → ℕ
count selected = length selected

module _ {ℓ} {T : Type ℓ} (key_of : T → String) where
  pub toggle_all : List T → List String → List String
  toggle_all rows s =
      let keys = map key_of rows in
      let all_on = ltb 0 (length keys) && every (λ k. has k s) keys in
      if all_on then delete_all keys s else add_all keys s

  pub all_selected : List T → List String → Bool
  all_selected rows selected = ltb 0 (length rows) && every (λ r. has (key_of r) selected) rows

  pub some_selected : List T → List String → Bool
  some_selected rows selected =
      let on = length (keep (λ r. has (key_of r) selected) rows) in ltb 0 on && ltb on (length rows)

  pub selected_rows : List T → List String → List T
  selected_rows all selected = keep (λ r. has (key_of r) selected) all
