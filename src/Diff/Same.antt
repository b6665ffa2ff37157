-- ===== src/Diff/Same.antt =====
-- The diff of a text with itself, web/src/lib/diff.ts.
use skyvirt_kubeui.Prelude.{
  ℕ, ◌*◌, ◌-◌, ◌≤◌, String, ◌≡◌, refl, List, [], ◌∷◌, arith, eq_refl, length, drop, length-take,
  length-drop,
}
use skyvirt_kubeui.Diff.{line_diff, diff_stats, split_lines, chomp, slice, table_limit}
use skyvirt_kubeui.Diff.Trim.{common}
use skyvirt_kubeui.Diff.Lcs.{Subsequence, done, keep}
use skyvirt_kubeui.Diff.Kept.{middle_a, middle_b, line_diff_best, diff_stats-line_diff}

common_self : (a : List String) → common a a ≡ length a
common_self [] = refl
common_self (x ∷ a) = rw eq_refl (omega (arith, common_self a))

Subsequence-self : (a : List String) → Subsequence a a
Subsequence-self [] = done
Subsequence-self (x ∷ a) = keep (Subsequence-self a)

length-slice_past : (a : List String) (s e : ℕ) → length a ≤ s → length (slice a s e) ≡ 0
length-slice_past a s e h = omega (arith, length-take (e - s) (drop s a), length-drop s a)

length-middle_a : (a : List String) → length (middle_a a a) ≡ 0
unfolding middle_a
length-middle_a a = length-slice_past a (common a a) _ (omega (arith, common_self a))

-- A diff of a text with itself has no additions and no removals.
pub diff_stats-same :
    (text : String)
    → ((diff_stats (line_diff text text)).added ≡ 0)
      × ((diff_stats (line_diff text text)).removed ≡ 0)
diff_stats-same text =
    let lines = split_lines (chomp text) in
    let small : length (middle_a lines lines) * length (middle_b lines lines) ≤ table_limit =
      rw (length-middle_a lines) (omega arith) in
    omega (
      arith,
      line_diff_best text text lines small (Subsequence-self lines) (Subsequence-self lines),
      diff_stats-line_diff text text,
    )
