-- ===== src/Diff/Kept.antt =====
-- A diff keeps as many lines as any common subsequence has, below the limit on the table.
use native.Mathlib.Nat.{zero-add}
use skyvirt_kubeui.Prelude.{
  ℕ, suc, ◌+◌, ◌*◌, ◌≤◌, String, ◌≡◌, refl, sym, ap, ◌∙◌, ◌≡⟨◌⟩◌, ◌∎, Option, List, [], ◌∷◌, ◌++◌,
  arith, length, take, drop, length-take,
}
use skyvirt_kubeui.Diff.{
  DiffLine, ctx, lcs_diff, dels_from, adds_from, dp_table, cell, walk, table_limit, tail_loop,
  diff_lines, line_diff, slice, chomp, split_lines, stats_from, diff_stats,
}
use skyvirt_kubeui.Diff.Lcs.{
  lcs, dp_table_lem, Subsequence, lcs_best, lcs-append_left, lcs-append_right,
}
use skyvirt_kubeui.Diff.Trim.{
  common, take-common, common-le, Ends, ends-Ends, ends, diff_lines_lem, take-slice-drop,
  line_diff_sides,
}
use skyvirt_kubeui.Diff.Sides.{old_side, new_side, numbered}

-- The unchanged lines, counted.
abbrev pub kept : List DiffLine → ℕ
kept [] = 0
kept (l ∷ ls) = elim l.type [ ctx ↦ suc (kept ls) | _ ↦ kept ls ]

kept-append : (p q : List DiffLine) → kept (p ++ q) ≡ kept p + kept q
kept-append [] q = omega arith
kept-append (l ∷ p) q = ground (arith, kept-append p q)

kept-dels : (k : ℕ) (a : List String) → kept (dels_from k a) ≡ 0
unfolding dels_from
kept-dels k [] = refl
kept-dels k (t ∷ a) = kept-dels (k + 1) a

kept-adds : (l : ℕ) (b : List String) → kept (adds_from l b) ≡ 0
unfolding adds_from
kept-adds l [] = refl
kept-adds l (t ∷ b) = kept-adds (l + 1) b

kept-tail : (k l : ℕ) (a : List String) → kept (tail_loop k l a) ≡ length a
unfolding tail_loop
kept-tail k l [] = refl
kept-tail k l (t ∷ a) = ap suc (kept-tail (k + 1) (l + 1) a)

module _ (dp : List (List ℕ)) (a_off b_off : ℕ) where
  -- The table is exact from `(i, j)` on.
  abbrev Exact : ℕ → ℕ → List String → List String → Type 0
  Exact i j a b = (k l : ℕ) → cell dp (i + k) (j + l) ≡ lcs (drop k a) (drop l b)

  Exact-down :
      (i j : ℕ) (x : String) (a b : List String) → Exact i j (x ∷ a) b → Exact (i + 1) j a b
  Exact-down i j x a b h k l = ap (λ m. cell dp m (j + l)) (omega arith) ∙ h (suc k) l

  Exact-right :
      (i j : ℕ) (y : String) (a b : List String) → Exact i j a (y ∷ b) → Exact i (j + 1) a b
  Exact-right i j y a b h k l = ap (λ m. cell dp (i + k) m) (omega arith) ∙ h k (suc l)

  kept-walk :
      (i j : ℕ) (a b : List String) → Exact i j a b → kept (walk dp a_off b_off i j a b) ≡ lcs a b
  unfolding walk lcs
  kept-walk i j [] b h = kept-adds (b_off + j) b
  kept-walk i j (x ∷ a) [] h = kept-dels (a_off + i) (x ∷ a)
  kept-walk i j (x ∷ a) (y ∷ b) h = ground (
    arith,
    h 0 1,
    h 1 0,
    kept-walk (i + 1) (j + 1) a b (Exact-down i (j + 1) x a b (Exact-right i j y (x ∷ a) b h)),
    kept-walk (i + 1) j a (y ∷ b) (Exact-down i j x a (y ∷ b) h),
    kept-walk i (j + 1) (x ∷ a) b (Exact-right i j y (x ∷ a) b h),
  )

kept-lcs_diff :
    (a b : List String) (p q : ℕ)
    → length a * length b ≤ table_limit
    → kept (lcs_diff a b p q) ≡ lcs a b
unfolding lcs_diff
kept-lcs_diff a b p q small = ground (
  arith,
  kept-walk (dp_table a b) p q 0 0 a b (λ k l. rw (zero-add k, zero-add l) (dp_table_lem a b k l)),
)

module _ (a b : List String) where
  -- The rows and columns of the table for `a` and `b`.
  unfoldable pub middle_a : List String
  middle_a = slice a (common a b) (ends a b).0

  unfoldable pub middle_b : List String
  middle_b = slice b (common a b) (ends a b).1

  lcs-parts : lcs a b ≡ common a b + (lcs middle_a middle_b + length (drop (ends a b).0 a))
  unfolding middle_a middle_b
  lcs-parts =
      lcs a b
      ≡⟨ ap (λ r. lcs r b) (sym (take-slice-drop a s ea e.a_from)) ⟩
        lcs (take s a ++ (slice a s ea ++ drop ea a)) b
      ≡⟨ ap (λ r. lcs (take s a ++ (slice a s ea ++ drop ea a)) r)
          (sym (take-slice-drop b s eb e.b_from)) ⟩
        lcs (take s a ++ (slice a s ea ++ drop ea a)) (take s b ++ (slice b s eb ++ drop eb b))
      ≡⟨ (rw (← take-common a b, ← e.tails)) ⟩
        lcs (take s a ++ (slice a s ea ++ drop ea a)) (take s a ++ (slice b s eb ++ drop ea a))
      ≡⟨ lcs-append_left (take s a) (slice a s ea ++ drop ea a) (slice b s eb ++ drop ea a) ⟩
        length (take s a) + lcs (slice a s ea ++ drop ea a) (slice b s eb ++ drop ea a)
      ≡⟨ omega (
        arith,
        length-take s a,
        common-le a b,
        lcs-append_right (slice a s ea) (slice b s eb) (drop ea a),
      ) ⟩
        s + (lcs (slice a s ea) (slice b s eb) + length (drop ea a)) ∎
    where
      s : ℕ
      s = common a b

      ea : ℕ
      ea = (ends a b).0

      eb : ℕ
      eb = (ends a b).1

      e : Ends a b s (ends a b)
      e = ends-Ends a b

  kept-diff_lines :
      length middle_a * length middle_b ≤ table_limit → kept (diff_lines a b) ≡ lcs a b
  unfolding middle_a middle_b
  kept-diff_lines small = rw diff_lines_lem (
      simp (kept-append, kept-tail)
        (omega (
          arith,
          length-take (common a b) a,
          common-le a b,
          lcs-parts,
          kept-lcs_diff middle_a middle_b (common a b) (common a b) small,
        )))

-- No common subsequence of the lines of the two texts is longer than the number of lines that the
-- diff keeps unchanged, if what is left between the common head and the common tail is within the
-- limit on the table.
pub line_diff_best :
    (a_text b_text : String) (c : List String)
    → length (middle_a (split_lines (chomp a_text)) (split_lines (chomp b_text)))
        * length (middle_b (split_lines (chomp a_text)) (split_lines (chomp b_text)))
      ≤ table_limit
    → Subsequence c (split_lines (chomp a_text))
    → Subsequence c (split_lines (chomp b_text))
    → length c ≤ kept (line_diff a_text b_text)
unfolding line_diff
line_diff_best a_text b_text c small p q =
    rw (kept-diff_lines (split_lines (chomp a_text)) (split_lines (chomp b_text)) small)
      (lcs_best p q)

stats_from_lem :
    (m n : ℕ) (ls : List DiffLine)
    → (length (new_side ls) + m ≡ (stats_from m n ls).added + kept ls)
      × (length (old_side ls) + n ≡ (stats_from m n ls).removed + kept ls)
unfolding stats_from
stats_from_lem m n [] = omega arith
stats_from_lem m n (l ∷ ls) =
    ground (arith, stats_from_lem (m + 1) n ls, stats_from_lem m (n + 1) ls, stats_from_lem m n ls)

length-numbered : (k : ℕ) (a : List String) → length (numbered k a) ≡ length a
length-numbered k [] = refl
length-numbered k (t ∷ a) = ap suc (length-numbered (k + 1) a)

-- The counts of a diff balance: with the lines kept, the additions make the number of lines of the
-- new text and the removals that of the old text.
pub diff_stats-line_diff :
    (a_text b_text : String)
    → ((diff_stats (line_diff a_text b_text)).added + kept (line_diff a_text b_text)
        ≡ length (split_lines (chomp b_text)))
      × ((diff_stats (line_diff a_text b_text)).removed + kept (line_diff a_text b_text)
          ≡ length (split_lines (chomp a_text)))
unfolding diff_stats
diff_stats-line_diff a_text b_text = omega (
  arith,
  stats_from_lem 0 0 (line_diff a_text b_text),
  ap {A = List (Option ℕ × String)} length (line_diff_sides a_text b_text).0,
  ap {A = List (Option ℕ × String)} length (line_diff_sides a_text b_text).1,
  length-numbered 0 (split_lines (chomp a_text)),
  length-numbered 0 (split_lines (chomp b_text)),
)
