-- ===== src/Diff/Tests.antt =====
-- Runs of the line diff at fixed texts, and the witnesses of its theorems.
use skyvirt_kubeui.Prelude.{◌≤◌, ◌≡◌, refl, List, [], ◌∷◌, String, arith}
use skyvirt_kubeui.Diff.{
  line_diff, diff_lines, ctx_line, del_line, add_line, lcs_diff, walk, dp_table, dp_row, cell,
  zeros, adds_from, dels_from, chomp, split_lines, prefix_loop, suffix_loop, tail_loop,
}
use skyvirt_kubeui.Diff.Sides.{old_side, new_side, numbered}
use skyvirt_kubeui.Diff.Trim.{line_diff_sides}
use skyvirt_kubeui.Diff.Lcs.{done, keep, skip}
use skyvirt_kubeui.Diff.Kept.{kept, middle_a, middle_b, line_diff_best}

abbrev old_text : String
old_text = "a\nb\nc\nd\n"

abbrev new_text : String
new_text = "a\nc\nx\nd"

line_diff_run :
    line_diff old_text new_text
    ≡ ctx_line "a" 1 1 ∷ del_line "b" 2 ∷ ctx_line "c" 3 2 ∷ add_line "x" 3 ∷ ctx_line "d" 4 4 ∷ []
unfolding line_diff diff_lines lcs_diff walk dp_table dp_row cell zeros adds_from dels_from chomp
    split_lines prefix_loop suffix_loop tail_loop
line_diff_run = refl

line_diff_sides_example :
    (old_side (line_diff old_text new_text) ≡ numbered 0 (split_lines (chomp old_text)))
    × (new_side (line_diff old_text new_text) ≡ numbered 0 (split_lines (chomp new_text)))
line_diff_sides_example = line_diff_sides old_text new_text

abbrev shared : List String
shared = "a" ∷ "c" ∷ "d" ∷ []

line_diff_best_example : 3 ≤ kept (line_diff old_text new_text)
unfolding middle_a middle_b split_lines chomp suffix_loop
line_diff_best_example =
    line_diff_best old_text new_text shared (omega arith) (keep (skip (keep (keep done))))
      (keep (keep (skip (keep done))))
