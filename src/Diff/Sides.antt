-- ===== src/Diff/Sides.antt =====
-- Both texts are read back from a diff, with their line numbers.
use skyvirt_kubeui.Prelude.{
  ℕ, ◌+◌, String, ◌≡◌, refl, ap, ◌∙◌, Option, some, List, [], ◌∷◌, ◌++◌, arith, append-nil, eq_iff,
  length,
}
use skyvirt_kubeui.Diff.{
  DiffLine, add, del, dels_from, adds_from, walk, lcs_diff, dp_table, tail_loop,
}

-- What a reader of the old text's column sees: the numbered lines that are not additions.
abbrev pub old_side : List DiffLine → List (Option ℕ × String)
old_side [] = []
old_side (l ∷ ls) = elim l.type [ add ↦ old_side ls | _ ↦ (l.aln, l.text) ∷ old_side ls ]

abbrev pub new_side : List DiffLine → List (Option ℕ × String)
new_side [] = []
new_side (l ∷ ls) = elim l.type [ del ↦ new_side ls | _ ↦ (l.bln, l.text) ∷ new_side ls ]

-- The lines of a text with the numbers `k + 1`, `k + 2`, …
abbrev pub numbered : ℕ → List String → List (Option ℕ × String)
numbered k [] = []
numbered k (t ∷ a) = (some (k + 1), t) ∷ numbered (k + 1) a

pub old_side-append : (p q : List DiffLine) → old_side (p ++ q) ≡ old_side p ++ old_side q
old_side-append [] q = refl
old_side-append (l ∷ p) q = ground (arith, old_side-append p q)

pub new_side-append : (p q : List DiffLine) → new_side (p ++ q) ≡ new_side p ++ new_side q
new_side-append [] q = refl
new_side-append (l ∷ p) q = ground (arith, new_side-append p q)

pub numbered-append :
    (k : ℕ) (a b : List String) → numbered k (a ++ b) ≡ numbered k a ++ numbered (k + length a) b
numbered-append k [] b = ap (λ m. numbered m b) (omega arith)
numbered-append k (t ∷ a) b =
    ap (λ r. (some (k + 1), t) ∷ r)
      (numbered-append (k + 1) a b ∙ ap (λ m. numbered (k + 1) a ++ numbered m b) (omega arith))

old_side-dels : (k : ℕ) (a : List String) → old_side (dels_from k a) ≡ numbered k a
unfolding dels_from
old_side-dels k [] = refl
old_side-dels k (t ∷ a) = ap (λ r. (some (k + 1), t) ∷ r) (old_side-dels (k + 1) a)

new_side-dels : (k : ℕ) (a : List String) → new_side (dels_from k a) ≡ []
unfolding dels_from
new_side-dels k [] = refl
new_side-dels k (t ∷ a) = new_side-dels (k + 1) a

old_side-adds : (l : ℕ) (b : List String) → old_side (adds_from l b) ≡ []
unfolding adds_from
old_side-adds l [] = refl
old_side-adds l (t ∷ b) = old_side-adds (l + 1) b

new_side-adds : (l : ℕ) (b : List String) → new_side (adds_from l b) ≡ numbered l b
unfolding adds_from
new_side-adds l [] = refl
new_side-adds l (t ∷ b) = ap (λ r. (some (l + 1), t) ∷ r) (new_side-adds (l + 1) b)

module _ (dp : List (List ℕ)) (a_off b_off : ℕ) where
  old_side-walk :
      (i j : ℕ) (a b : List String)
      → old_side (walk dp a_off b_off i j a b) ≡ numbered (a_off + i) a
  unfolding walk
  old_side-walk i j [] b = old_side-adds (b_off + j) b
  old_side-walk i j (x ∷ a) [] = old_side-dels (a_off + i) (x ∷ a)
  old_side-walk i j (x ∷ a) (y ∷ b) = ground (
    arith,
    old_side-walk (i + 1) (j + 1) a b,
    old_side-walk (i + 1) j a (y ∷ b),
    old_side-walk i (j + 1) (x ∷ a) b,
  )

  new_side-walk :
      (i j : ℕ) (a b : List String)
      → new_side (walk dp a_off b_off i j a b) ≡ numbered (b_off + j) b
  unfolding walk
  new_side-walk i j [] b = new_side-adds (b_off + j) b
  new_side-walk i j (x ∷ a) [] = new_side-dels (a_off + i) (x ∷ a)
  new_side-walk i j (x ∷ a) (y ∷ b) = ground (
    arith,
    eq_iff x y,
    new_side-walk (i + 1) (j + 1) a b,
    new_side-walk (i + 1) j a (y ∷ b),
    new_side-walk i (j + 1) (x ∷ a) b,
  )

pub old_side-lcs_diff : (a b : List String) (p q : ℕ) → old_side (lcs_diff a b p q) ≡ numbered p a
unfolding lcs_diff
old_side-lcs_diff a b p q = ground (
  arith,
  old_side-append (dels_from p a) (adds_from q b),
  old_side-dels p a,
  old_side-adds q b,
  append-nil (numbered p a),
  old_side-walk (dp_table a b) p q 0 0 a b,
)

pub new_side-lcs_diff : (a b : List String) (p q : ℕ) → new_side (lcs_diff a b p q) ≡ numbered q b
unfolding lcs_diff
new_side-lcs_diff a b p q = ground (
  arith,
  new_side-append (dels_from p a) (adds_from q b),
  new_side-dels p a,
  new_side-adds q b,
  new_side-walk (dp_table a b) p q 0 0 a b,
)

pub old_side-tail : (k l : ℕ) (a : List String) → old_side (tail_loop k l a) ≡ numbered k a
unfolding tail_loop
old_side-tail k l [] = refl
old_side-tail k l (t ∷ a) = ap (λ r. (some (k + 1), t) ∷ r) (old_side-tail (k + 1) (l + 1) a)

pub new_side-tail : (k l : ℕ) (a : List String) → new_side (tail_loop k l a) ≡ numbered l a
unfolding tail_loop
new_side-tail k l [] = refl
new_side-tail k l (t ∷ a) = ap (λ r. (some (l + 1), t) ∷ r) (new_side-tail (k + 1) (l + 1) a)
