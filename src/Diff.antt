-- ===== src/Diff.antt =====
-- The unified line diff, web/src/lib/diff.ts.
pub mod Sides
pub mod Trim
pub mod Lcs
pub mod Kept
pub mod Same
mod Tests
use Prim.Native.Char.{Char, code}
use mathlib.Core.Logic.{ite}
use native.Mathlib.Decide.{ℕ_discrete}
use skyvirt_kubeui.Prelude.{
  ℕ, zero, suc, ◌+◌, ◌-◌, ◌*◌, max, String, true, false, ◌&&◌, Option, none, some, List, [], ◌∷◌,
  ◌++◌, ltb, leb, if◌then◌else◌, ◌==◌, length, get_or, take, drop,
}

pub data LineType : Type 0 where
  add del ctx : LineType

pub record DiffLine : Type 0 where
  pub type : LineType
  pub text : String
  pub aln : Option ℕ
  pub bln : Option ℕ

-- The object literals of the source; `k` and `l` are 1-based line numbers.
abbrev pub ctx_line : String → ℕ → ℕ → DiffLine
ctx_line t k l = record { type = ctx; text = t; aln = some k; bln = some l }

abbrev pub del_line : String → ℕ → DiffLine
del_line t k = record { type = del; text = t; aln = some k; bln = none }

abbrev pub add_line : String → ℕ → DiffLine
add_line t l = record { type = add; text = t; aln = none; bln = some l }

-- The rest of `a` as deletions, and of `b` as additions; `k` lines stand before them.
pub dels_from : ℕ → List String → List DiffLine
dels_from k [] = []
dels_from k (t ∷ a) = del_line t (k + 1) ∷ dels_from (k + 1) a

pub adds_from : ℕ → List String → List DiffLine
adds_from l [] = []
adds_from l (t ∷ b) = add_line t (l + 1) ∷ adds_from (l + 1) b

-- `new Array(m + 1).fill(0)`
pub zeros : List String → List ℕ
zeros [] = 0 ∷ []
zeros (_ ∷ b) = 0 ∷ zeros b

-- Row `i` of the table, filled from its right end: `x` is `a[i]`, `below` the row `i + 1` from
-- column `j` on.
pub dp_row : String → List String → List ℕ → List ℕ
dp_row x [] below = 0 ∷ []
dp_row x (y ∷ b) below =
    let right = dp_row x b (drop 1 below) in
    (if x == y then get_or below 1 0 + 1 else max (get_or below 0 0) (get_or right 0 0)) ∷ right

-- The rows from `i` on, filled from the last.
pub dp_table : List String → List String → List (List ℕ)
dp_table [] b = zeros b ∷ []
dp_table (x ∷ a) b = let rows = dp_table a b in dp_row x b (get_or rows 0 []) ∷ rows

pub cell : List (List ℕ) → ℕ → ℕ → ℕ
cell dp i j = get_or (get_or dp i []) j 0

module _ (dp : List (List ℕ)) (a_off b_off : ℕ) where
  -- The `while` loops; the lists are what is left of `a` from `i` and of `b` from `j`.
  pub walk : ℕ → ℕ → List String → List String → List DiffLine
  walk i j [] b = adds_from (b_off + j) b
  walk i j (x ∷ a) [] = dels_from (a_off + i) (x ∷ a)
  walk i j (x ∷ a) (y ∷ b) = elim (x == y) [
    | true ↦ ctx_line x (a_off + i + 1) (b_off + j + 1) ∷ walk (i + 1) (j + 1) a b
    | false ↦ elim (leb (cell dp i (j + 1)) (cell dp (i + 1) j)) [
      | true ↦ del_line x (a_off + i + 1) ∷ walk (i + 1) j a (y ∷ b)
      | false ↦ add_line y (b_off + j + 1) ∷ walk i (j + 1) (x ∷ a) b
    ]
  ]

abbrev pub table_limit : ℕ
table_limit = 4_000_000

pub lcs_diff : List String → List String → ℕ → ℕ → List DiffLine
lcs_diff a b a_off b_off =
    if ltb table_limit (length a * length b)
    then dels_from a_off a ++ adds_from b_off b
    else walk (dp_table a b) a_off b_off 0 0 a b

-- `text.replace(/\n$/, "")`
pub chomp : String → String
chomp String.[] = ""
chomp (String.◌∷◌ c String.[]) = ite (ℕ_discrete (code c) b'\n') "" (String.◌∷◌ c String.[])
chomp (String.◌∷◌ c (String.◌∷◌ d s)) = String.◌∷◌ c (chomp (String.◌∷◌ d s))

-- `text.split("\n")`
onto : Char → List String → List String
onto c [] = String.◌∷◌ c "" ∷ []
onto c (p ∷ ps) = String.◌∷◌ c p ∷ ps

unfoldable pub split_lines : String → List String
unfolding onto ℕ_discrete
split_lines String.[] = "" ∷ []
split_lines (String.◌∷◌ c s) =
    let rest = split_lines s in ite (ℕ_discrete (code c) b'\n') ("" ∷ rest) (onto c rest)

-- The loop over the common prefix: its lines, and where it stops.
pub prefix_loop : ℕ → List String → List String → List DiffLine × ℕ
prefix_loop s (x ∷ a) (y ∷ b) =
    let (head, stop) = prefix_loop (s + 1) a b in
    if x == y then (ctx_line x (s + 1) (s + 1) ∷ head, stop) else ([], s)
prefix_loop s _ _ = ([], s)

-- The loop over the common suffix, from the two ends down to `s`.
pub suffix_loop : List String → List String → ℕ → ℕ → ℕ → ℕ × ℕ
suffix_loop a b s (suc ea) (suc eb) =
    let rest = suffix_loop a b s ea eb in
    if ltb s (suc ea) && ltb s (suc eb) && get_or a ea "" == get_or b eb ""
    then rest
    else (suc ea, suc eb)
suffix_loop a b s ea eb = (ea, eb)

-- The loop that fills `tail`: the lines of `a` from `k` on, with the numbers `k + 1` in `a` and
-- `l + 1` in `b`.
pub tail_loop : ℕ → ℕ → List String → List DiffLine
tail_loop k l [] = []
tail_loop k l (t ∷ a) = ctx_line t (k + 1) (l + 1) ∷ tail_loop (k + 1) (l + 1) a

-- `xs.slice(s, e)` for `s ≤ e`.
abbrev pub slice : List String → ℕ → ℕ → List String
slice xs s e = take (e - s) (drop s xs)

-- `lineDiff` from the split texts on.
pub diff_lines : List String → List String → List DiffLine
diff_lines a b =
    let (head, s) = prefix_loop 0 a b in
    let (ea, eb) = suffix_loop a b s (length a) (length b) in
    head ++ (lcs_diff (slice a s ea) (slice b s eb) s s ++ tail_loop ea eb (drop ea a))

pub line_diff : String → String → List DiffLine
line_diff a_text b_text = diff_lines (split_lines (chomp a_text)) (split_lines (chomp b_text))

pub record Stats : Type 0 where
  pub added : ℕ
  pub removed : ℕ

-- The loop of `diffStats`.
pub stats_from : ℕ → ℕ → List DiffLine → Stats
stats_from added removed [] = record { added = added; removed = removed }
stats_from added removed (l ∷ ls) = elim l.type [
  | add ↦ stats_from (added + 1) removed ls
  | del ↦ stats_from added (removed + 1) ls
  | ctx ↦ stats_from added removed ls
]

pub diff_stats : List DiffLine → Stats
diff_stats lines = stats_from 0 0 lines
