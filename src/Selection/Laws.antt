-- ===== src/Selection/Laws.antt =====
-- What the selection holds after each operation.
use skyvirt_kubeui.Prelude.{
  ◌≡◌, refl, ◌∙◌, String, Bool, true, false, not, inl, inr, Bool-cases, List, [], ◌∷◌, map,
  if◌then◌else◌, ◌==◌, eq_iff, eq_refl, ltb, length, every, arith,
}
use skyvirt_kubeui.Selection.{
  has, add, delete, add_all, delete_all, toggle, toggle_all, all_selected,
}

-- No text twice.
abbrev pub IsSelection : List String → Type 0
IsSelection [] = Unit
IsSelection (k ∷ s) = (has k s ≡ false) × IsSelection s

has-add : (k j : String) (s : List String) → has k (add j s) ≡ (if j == k then true else has k s)
has-add k j [] = refl
has-add k j (i ∷ s) = ground (arith, has-add k j s, eq_iff i j, eq_iff i k, eq_iff j k)

has-delete :
    (k j : String) (s : List String) → has k (delete j s) ≡ (if j == k then false else has k s)
has-delete k j [] = ground arith
has-delete k j (i ∷ s) = ground (arith, has-delete k j s, eq_iff i j, eq_iff i k, eq_iff j k)

has-add_all :
    (k : String) (ks s : List String) → has k (add_all ks s) ≡ (if has k ks then true else has k s)
has-add_all k [] s = refl
has-add_all k (j ∷ ks) s = ground (arith, has-add_all k ks (add j s), has-add k j s)

has-delete_all :
    (k : String) (ks s : List String)
    → has k (delete_all ks s) ≡ (if has k ks then false else has k s)
has-delete_all k [] s = refl
has-delete_all k (j ∷ ks) s = ground (arith, has-delete_all k ks (delete j s), has-delete k j s)

add-IsSelection : (k : String) (s : List String) → IsSelection s → IsSelection (add k s)
add-IsSelection k [] h = (refl, tt)
add-IsSelection k (j ∷ s) h =
    ground (arith, add-IsSelection k s, has-add j k s, eq_iff j k, eq_iff k j)

delete-IsSelection : (k : String) (s : List String) → IsSelection s → IsSelection (delete k s)
delete-IsSelection k [] h = tt
delete-IsSelection k (j ∷ s) h = ground (arith, delete-IsSelection k s, has-delete j k s)

add_all-IsSelection : (ks s : List String) → IsSelection s → IsSelection (add_all ks s)
add_all-IsSelection [] s h = h
add_all-IsSelection (k ∷ ks) s h = add_all-IsSelection ks (add k s) (add-IsSelection k s h)

delete_all-IsSelection : (ks s : List String) → IsSelection s → IsSelection (delete_all ks s)
delete_all-IsSelection [] s h = h
delete_all-IsSelection (k ∷ ks) s h =
    delete_all-IsSelection ks (delete k s) (delete-IsSelection k s h)

-- `toggle` flips its key, leaves every other key, and keeps the set free of duplicates.
pub toggle_lem :
    (j k : String) (s : List String)
    → IsSelection s
    → (has k (toggle j s) ≡ (if j == k then not (has k s) else has k s)) × IsSelection (toggle j s)
unfolding toggle
toggle_lem j k s h = (
  ground (arith, has-add k j s, has-delete k j s, eq_iff j k),
  ground (arith, add-IsSelection j s, delete-IsSelection j s),
)

every-subset :
    (ks s t : List String)
    → ((k : String) → has k ks ≡ true → has k t ≡ true)
    → every (λ k. has k t) ks ≡ true
every-subset [] s t h = refl
every-subset (k ∷ ks) s t h =
    ground (arith, h k, eq_refl k, every-subset ks s t (λ j m. h j (ground arith)))

module _ {ℓ} {T : Type ℓ} (key_of : T → String) where
  every-map :
      (rows : List T) (s : List String)
      → every (λ k. has k s) (map key_of rows) ≡ every (λ r. has (key_of r) s) rows
  every-map [] s = refl
  every-map (r ∷ rows) s = ground (arith, every-map rows s)

  -- `toggleAll` gives the keys of its rows one state, the opposite of "all selected", and leaves
  -- every other key.
  pub has-toggle_all :
      (k : String) (rows : List T) (s : List String)
      → has k (toggle_all key_of rows s)
        ≡ (if has k (map key_of rows) then not (all_selected key_of rows s) else has k s)
  unfolding toggle_all all_selected
  has-toggle_all k [] s = refl
  has-toggle_all k (r ∷ rows) s = ground (
    arith,
    has-add_all k (map key_of (r ∷ rows)) s,
    has-delete_all k (map key_of (r ∷ rows)) s,
    every-map (r ∷ rows) s,
  )

  pub toggle_all-IsSelection :
      (rows : List T) (s : List String) → IsSelection s → IsSelection (toggle_all key_of rows s)
  unfolding toggle_all
  toggle_all-IsSelection rows s h =
      ground
        (arith, add_all-IsSelection (map key_of rows) s, delete_all-IsSelection (map key_of rows) s)

  every-const :
      (b : Bool) (ks rows : List T) (t : List String)
      → ((k : String) → has k (map key_of ks) ≡ true → has k t ≡ b)
      → b ≡ true
      → ((r : T) → has (key_of r) (map key_of rows) ≡ true → has (key_of r) (map key_of ks) ≡ true)
      → every (λ r. has (key_of r) t) rows ≡ true
  every-const b ks [] t h e sub = refl
  every-const b ks (r ∷ rows) t h e sub = ground (
    arith,
    h (key_of r),
    sub r,
    eq_refl (key_of r),
    every-const b ks rows t h e (λ q m. sub q (ground arith)),
  )

  all_selected_intro :
      (r : T) (rows : List T) (t : List String)
      → every (λ q. has (key_of q) t) (r ∷ rows) ≡ true
      → all_selected key_of (r ∷ rows) t ≡ true
  unfolding all_selected
  all_selected_intro r rows t h = ground arith

  -- On a table with rows, `toggleAll` turns "all selected" into "not all selected" and back.
  pub all_selected-toggle_all :
      (rows : List T) (s : List String)
      → ltb 0 (length rows) ≡ true
      → all_selected key_of rows (toggle_all key_of rows s) ≡ not (all_selected key_of rows s)
  all_selected-toggle_all [] s h = cc
  all_selected-toggle_all (r ∷ rows) s h = elim (Bool-cases (all_selected key_of (r ∷ rows) s)) [
    | inl all ↦ rw all (
        unfold all_selected in
        ground (arith, has-toggle_all (key_of r) (r ∷ rows) s, eq_refl (key_of r), all))
    | inr some ↦ rw some (
        all_selected_intro r rows _ (
          every-const true (r ∷ rows) (r ∷ rows) (toggle_all key_of (r ∷ rows) s)
            (λ k m. has-toggle_all k (r ∷ rows) s ∙ rw (m, some)) refl (λ q m. m)))
  ]
