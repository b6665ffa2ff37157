-- ===== src/Diff/Lcs.antt =====
-- The table holds the lengths of longest common subsequences, and the walk keeps that many lines.
use skyvirt_kubeui.Prelude.{
  ℕ, zero, suc, ◌+◌, ◌≤◌, max, String, ◌≡◌, refl, sym, ap, ◌∙◌, ◌≡⟨◌⟩◌, ◌∎, List, [], ◌∷◌, ◌++◌,
  arith, append-nil, append_assoc, ◌==◌, eq_iff, eq_refl, length, drop, get_or, if◌then◌else◌,
}
use skyvirt_kubeui.Diff.{zeros, dp_row, dp_table, cell}

-- The length of a longest common subsequence, by the textbook recursion.
unfoldable pub lcs : List String → List String → ℕ
lcs [] b = 0
lcs (x ∷ a) [] = 0
lcs (x ∷ a) (y ∷ b) = if x == y then lcs a b + 1 else max (lcs a (y ∷ b)) (lcs (x ∷ a) b)

-- `c` is `a` with some lines left out.
pub data Subsequence : List String → List String → Type 0 where
  done : Subsequence [] []
  keep : {x : String} {c a : List String} → Subsequence c a → Subsequence (x ∷ c) (x ∷ a)
  skip : {x : String} {c a : List String} → Subsequence c a → Subsequence c (x ∷ a)

lcs-nil : (a : List String) → lcs a [] ≡ 0
unfolding lcs
lcs-nil [] = refl
lcs-nil (x ∷ a) = refl

pub lcs_comm : (a b : List String) → lcs a b ≡ lcs b a
unfolding lcs
lcs_comm [] b = sym (lcs-nil b)
lcs_comm (x ∷ a) [] = refl
lcs_comm (x ∷ a) (y ∷ b) =
    ground (arith, eq_iff x y, eq_iff y x, lcs_comm a b, lcs_comm a (y ∷ b), lcs_comm (x ∷ a) b)

-- One line more on the right adds at most one; one line more on the left loses nothing.
record Grow (a : List String) : Type 0 where
  right : (y : String) (b : List String) → lcs a (y ∷ b) ≤ lcs a b + 1
  left : (x : String) (b : List String) → lcs a b ≤ lcs (x ∷ a) b

left_of_right :
    (a : List String)
    → ((y : String) (b : List String) → lcs a (y ∷ b) ≤ lcs a b + 1)
    → (x : String) (b : List String) → lcs a b ≤ lcs (x ∷ a) b
unfolding lcs
left_of_right a h x [] = rw lcs-nil (omega arith)
left_of_right a h x (y ∷ b) = ground (arith, h y b)

right_of_Grow :
    (z : String) (a : List String)
    → Grow a
    → (y : String) (b : List String) → lcs (z ∷ a) (y ∷ b) ≤ lcs (z ∷ a) b + 1
unfolding lcs
right_of_Grow z a g y b = ground (arith, g.left z b, g.right y b)

grow : (a : List String) → Grow a
unfolding lcs
grow [] =
    let h : (y : String) (b : List String) → lcs [] (y ∷ b) ≤ lcs [] b + 1 = λ y b. omega arith in
    record { right = h; left = left_of_right [] h }
grow (z ∷ a) =
    let h = right_of_Grow z a (grow a) in record { right = h; left = left_of_right (z ∷ a) h }

lcs-right : (a : List String) (y : String) (b : List String) → lcs a b ≤ lcs a (y ∷ b)
lcs-right a y b = rw (lcs_comm a b, lcs_comm a (y ∷ b)) ((grow b).left y a)

-- No common subsequence is longer.
pub lcs_best : {c a b : List String} → Subsequence c a → Subsequence c b → length c ≤ lcs a b
unfolding lcs
lcs_best done q = omega arith
lcs_best {b} (skip {x} {a} p) q = omega (arith, lcs_best p q, (grow a).left x b)
lcs_best (keep {x} {a} p) (keep q) = rw eq_refl (omega (arith, lcs_best p q))
lcs_best (keep {x} {a} p) (skip {x = y} {a = b} q) =
    ground (arith, lcs_best (keep {x = x} p) q, lcs-right (x ∷ a) y b)

-- One line more at both ends.
lcs-last : (a b : List String) (x : String) → lcs (a ++ x ∷ []) (b ++ x ∷ []) ≡ lcs a b + 1
unfolding lcs
lcs-last [] [] x = rw eq_refl (omega arith)
lcs-last [] (y ∷ b) x = ground (arith, eq_iff x y, lcs-last [] b x)
lcs-last (z ∷ a) [] x =
    ground (arith, eq_iff z x, lcs-last a [] x, lcs-nil (a ++ x ∷ []), lcs-nil a)
lcs-last (z ∷ a) (y ∷ b) x =
    ground (arith, lcs-last a b x, lcs-last a (y ∷ b) x, lcs-last (z ∷ a) b x)

pub lcs-append_right : (a b t : List String) → lcs (a ++ t) (b ++ t) ≡ lcs a b + length t
lcs-append_right a b [] = simp append-nil (omega arith)
lcs-append_right a b (x ∷ t) =
    lcs (a ++ x ∷ t) (b ++ x ∷ t)
    ≡⟨ (simp (← append_assoc a (x ∷ []) t, ← append_assoc b (x ∷ []) t)) ⟩
      lcs ((a ++ x ∷ []) ++ t) ((b ++ x ∷ []) ++ t)
    ≡⟨ lcs-append_right (a ++ x ∷ []) (b ++ x ∷ []) t ⟩ lcs (a ++ x ∷ []) (b ++ x ∷ []) + length t
    ≡⟨ omega (arith, lcs-last a b x) ⟩ lcs a b + length (x ∷ t) ∎

pub lcs-append_left : (h a b : List String) → lcs (h ++ a) (h ++ b) ≡ length h + lcs a b
unfolding lcs
lcs-append_left [] a b = omega arith
lcs-append_left (x ∷ h) a b = rw eq_refl (omega (arith, lcs-append_left h a b))

-- Row and table entries are `lcs` of what is left.
abbrev RowOf : List String → List String → List ℕ → Type 0
RowOf a [] r = r ≡ 0 ∷ []
RowOf a (y ∷ b) r = (get_or r 0 0 ≡ lcs a (y ∷ b)) × RowOf a b (drop 1 r)

zeros-RowOf : (b : List String) → RowOf [] b (zeros b)
unfolding zeros lcs
zeros-RowOf [] = refl
zeros-RowOf (y ∷ b) = (refl, zeros-RowOf b)

head-RowOf : (a b : List String) (r : List ℕ) → RowOf a b r → get_or r 0 0 ≡ lcs a b
head-RowOf a [] r h = rw (h, lcs-nil a)
head-RowOf a (y ∷ b) r h = h.0

get_or-drop : (r : List ℕ) → get_or r 1 0 ≡ get_or (drop 1 r) 0 0
get_or-drop [] = refl
get_or-drop (n ∷ r) = refl

dp_row_head :
    (x y : String) (a b : List String) (below : List ℕ)
    → RowOf a (y ∷ b) below
    → RowOf (x ∷ a) b (dp_row x b (drop 1 below))
    → get_or (dp_row x (y ∷ b) below) 0 0 ≡ lcs (x ∷ a) (y ∷ b)
unfolding dp_row lcs
dp_row_head x y a b below h k = ground (
  arith,
  get_or-drop below,
  head-RowOf a b (drop 1 below) h.1,
  head-RowOf (x ∷ a) b (dp_row x b (drop 1 below)) k,
)

dp_row-RowOf :
    (x : String) (a b : List String) (below : List ℕ)
    → RowOf a b below
    → RowOf (x ∷ a) b (dp_row x b below)
unfolding dp_row
dp_row-RowOf x a [] below h = refl
dp_row-RowOf x a (y ∷ b) below h =
    let right = dp_row-RowOf x a b (drop 1 below) h.1 in (dp_row_head x y a b below h right, right)

abbrev TableOf : List String → List String → List (List ℕ) → Type 0
TableOf [] b t = RowOf [] b (get_or t 0 []) × (drop 1 t ≡ [])
TableOf (x ∷ a) b t = RowOf (x ∷ a) b (get_or t 0 []) × TableOf a b (drop 1 t)

head-TableOf : (a b : List String) (t : List (List ℕ)) → TableOf a b t → RowOf a b (get_or t 0 [])
head-TableOf [] b t h = h.0
head-TableOf (x ∷ a) b t h = h.0

dp_table-TableOf : (a b : List String) → TableOf a b (dp_table a b)
unfolding dp_table
dp_table-TableOf [] b = (zeros-RowOf b, refl)
dp_table-TableOf (x ∷ a) b =
    let rows = dp_table-TableOf a b in
    (dp_row-RowOf x a b (get_or (dp_table a b) 0 []) (head-TableOf a b (dp_table a b) rows), rows)

get_or-suc {ℓ} :
    {A : Type ℓ} (xs : List A) (i : ℕ) (d : A) → get_or xs (suc i) d ≡ get_or (drop 1 xs) i d
get_or-suc [] i d = refl
get_or-suc (x ∷ xs) i d = refl

row_cell : (a b : List String) (r : List ℕ) (l : ℕ) → RowOf a b r → get_or r l 0 ≡ lcs a (drop l b)
row_cell a b r zero h = head-RowOf a b r h
row_cell a [] r (suc l) h = rw (h, lcs-nil a)
row_cell a (y ∷ b) r (suc l) h = get_or-suc r l 0 ∙ row_cell a b (drop 1 r) l h.1

table_cell :
    (a b : List String) (t : List (List ℕ))
    → TableOf a b t
    → (k l : ℕ) → cell t k l ≡ lcs (drop k a) (drop l b)
unfolding cell lcs
table_cell a b t h zero l = row_cell a b (get_or t 0 []) l (head-TableOf a b t h)
table_cell [] b t h (suc k) l = rw (get_or-suc t k [], h.1)
table_cell (x ∷ a) b t h (suc k) l =
    ap (λ r. get_or r l 0) (get_or-suc t k []) ∙ table_cell a b (drop 1 t) h.1 k l

-- Every cell of the table is the length of a longest common subsequence of what is left, also past
-- its edges, where a read gives 0.
pub dp_table_lem :
    (a b : List String) (k l : ℕ) → cell (dp_table a b) k l ≡ lcs (drop k a) (drop l b)
unfolding cell
dp_table_lem a b = table_cell a b (dp_table a b) (dp_table-TableOf a b)
