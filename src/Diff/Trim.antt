-- ===== src/Diff/Trim.antt =====
-- What the loops over the common head and tail leave for the table, and both texts read back from
-- the whole diff.
use skyvirt_kubeui.Prelude.{
  ℕ, zero, suc, ◌+◌, ◌-◌, ◌≤◌, ◌<◌, String, ◌≡◌, refl, sym, ap, ◌∙◌, ◌≡⟨◌⟩◌, ◌∎, List, [], ◌∷◌,
  ◌++◌, arith, ◌==◌, eq_iff, length, take, drop, get_or, take-append-drop, length-take, length-drop,
  if◌then◌else◌,
}
use native.Mathlib.Nat.{zero-add}
use skyvirt_kubeui.Diff.{
  lcs_diff, prefix_loop, suffix_loop, tail_loop, diff_lines, line_diff, slice, chomp, split_lines,
}
use skyvirt_kubeui.Diff.Sides.{
  old_side, new_side, numbered, old_side-append, new_side-append, numbered-append,
  old_side-lcs_diff, new_side-lcs_diff, old_side-tail, new_side-tail,
}

-- The length of the common prefix.
abbrev pub common : List String → List String → ℕ
common (x ∷ a) (y ∷ b) = let rest = common a b in if x == y then suc rest else 0
common _ _ = 0

pub prefix_loop_lem :
    (s : ℕ) (a b : List String)
    → prefix_loop s a b ≡ (tail_loop s s (take (common a b) a), s + common a b)
unfolding prefix_loop tail_loop
prefix_loop_lem s [] b = ground arith
prefix_loop_lem s (x ∷ a) [] = ground arith
prefix_loop_lem s (x ∷ a) (y ∷ b) = ground (arith, prefix_loop_lem (s + 1) a b)

pub take-common : (a b : List String) → take (common a b) a ≡ take (common a b) b
take-common [] b = ground arith
take-common (x ∷ a) [] = refl
take-common (x ∷ a) (y ∷ b) = ground (arith, eq_iff x y, take-common a b)

pub common-le : (a b : List String) → (common a b ≤ length a) × (common a b ≤ length b)
common-le [] b = ground arith
common-le (x ∷ a) [] = omega arith
common-le (x ∷ a) (y ∷ b) = ground (arith, common-le a b)

drop-nil : (n : ℕ) → drop {A = String} n [] ≡ []
drop-nil zero = refl
drop-nil (suc n) = refl

pub drop-length : (a : List String) → drop (length a) a ≡ []
drop-length [] = refl
drop-length (x ∷ a) = drop-length a

drop-cons : (a : List String) (i : ℕ) → i < length a → drop i a ≡ get_or a i "" ∷ drop (suc i) a
drop-cons [] i h = elim h [ ]
drop-cons (x ∷ a) zero h = refl
drop-cons (x ∷ a) (suc i) h = drop-cons a i (omega arith)

drop-drop : (m n : ℕ) (a : List String) → drop m (drop n a) ≡ drop (n + m) a
drop-drop m zero a = ap (λ k. drop k a) (omega arith)
drop-drop m (suc n) [] = drop-nil m ∙ sym (drop-nil (suc n + m))
drop-drop m (suc n) (x ∷ a) =
    drop-drop m n a ∙ ap (λ k. drop k (x ∷ a)) (let e : suc (n + m) ≡ suc n + m = omega arith in e)

-- Where the two ends stand: at equal tails, and not before the head.
pub record Ends (a b : List String) (s : ℕ) (e : ℕ × ℕ) : Type 0 where
  pub a_from : s ≤ e.0
  pub b_from : s ≤ e.1
  pub a_to : e.0 ≤ length a
  pub b_to : e.1 ≤ length b
  pub tails : drop e.0 a ≡ drop e.1 b

pub suffix_loop-Ends :
    (a b : List String) (s ea eb : ℕ) → Ends a b s (ea, eb) → Ends a b s (suffix_loop a b s ea eb)
unfolding suffix_loop
suffix_loop-Ends a b s zero eb h = h
suffix_loop-Ends a b s (suc ea) zero h = h
suffix_loop-Ends a b s (suc ea) (suc eb) h = ground (
  arith,
  eq_iff (get_or a ea "") (get_or b eb ""),
  drop-cons a ea,
  drop-cons b eb,
  suffix_loop-Ends a b s ea eb,
)

-- The three parts of a text, cut at `s ≤ e`.
pub take-slice-drop :
    (a : List String) (s e : ℕ) → s ≤ e → take s a ++ (slice a s e ++ drop e a) ≡ a
take-slice-drop a s e h =
    take s a ++ (slice a s e ++ drop e a)
    ≡⟨ ap (λ k. take s a ++ (slice a s e ++ drop k a)) (omega arith) ⟩
      take s a ++ (slice a s e ++ drop (s + (e - s)) a)
    ≡⟨ ap (λ r. take s a ++ (slice a s e ++ r)) (sym (drop-drop (e - s) s a)) ⟩
      take s a ++ (slice a s e ++ drop (e - s) (drop s a))
    ≡⟨ ap (λ r. take s a ++ r) (take-append-drop (e - s) (drop s a)) ⟩ take s a ++ drop s a
    ≡⟨ take-append-drop s a ⟩ a ∎

numbered-parts :
    (a : List String) (s e : ℕ)
    → s ≤ e
    → e ≤ length a
    → numbered 0 (take s a) ++ (numbered s (slice a s e) ++ numbered e (drop e a)) ≡ numbered 0 a
numbered-parts a s e h k =
    numbered 0 (take s a) ++ (numbered s (slice a s e) ++ numbered e (drop e a))
    ≡⟨ ap (λ m. numbered 0 (take s a) ++ (numbered s (slice a s e) ++ numbered m (drop e a)))
        (omega (arith, length-take (e - s) (drop s a), length-drop s a)) ⟩
      numbered 0 (take s a)
      ++ (numbered s (slice a s e) ++ numbered (s + length (slice a s e)) (drop e a))
    ≡⟨ ap (λ r. numbered 0 (take s a) ++ r) (sym (numbered-append s (slice a s e) (drop e a))) ⟩
      numbered 0 (take s a) ++ numbered s (slice a s e ++ drop e a)
    ≡⟨ ap (λ m. numbered 0 (take s a) ++ numbered m (slice a s e ++ drop e a))
        (omega (arith, length-take s a)) ⟩
      numbered 0 (take s a) ++ numbered (0 + length (take s a)) (slice a s e ++ drop e a)
    ≡⟨ sym (numbered-append 0 (take s a) (slice a s e ++ drop e a)) ⟩
      numbered 0 (take s a ++ (slice a s e ++ drop e a))
    ≡⟨ ap (numbered 0) (take-slice-drop a s e h) ⟩ numbered 0 a ∎

module _ (a b : List String) where
  abbrev pub ends : ℕ × ℕ
  ends = suffix_loop a b (common a b) (length a) (length b)

  pub ends-Ends : Ends a b (common a b) ends
  ends-Ends = suffix_loop-Ends a b (common a b) (length a) (length b) (record {
    a_from = (common-le a b).0;
    b_from = (common-le a b).1;
    a_to = omega arith;
    b_to = omega arith;
    tails = drop-length a ∙ sym (drop-length b);
  })

  -- The diff with its three parts in closed form.
  pub diff_lines_lem :
      diff_lines a b
      ≡ tail_loop 0 0 (take (common a b) a)
        ++ (lcs_diff
              (slice a (common a b) ends.0)
              (slice b (common a b) ends.1)
              (common a b)
              (common a b)
            ++ tail_loop ends.0 ends.1 (drop ends.0 a))
  unfolding diff_lines
  diff_lines_lem = rw (prefix_loop_lem 0 a b, zero-add)

  old_side-diff_lines : old_side (diff_lines a b) ≡ numbered 0 a
  old_side-diff_lines = rw diff_lines_lem (
      simp (old_side-append, old_side-tail, old_side-lcs_diff)
        (numbered-parts a (common a b) ends.0 ends-Ends.a_from ends-Ends.a_to))

  new_side-diff_lines : new_side (diff_lines a b) ≡ numbered 0 b
  new_side-diff_lines = rw diff_lines_lem (
      simp (new_side-append, new_side-tail, new_side-lcs_diff)
        (rw (take-common a b, ends-Ends.tails)
          (numbered-parts b (common a b) ends.1 ends-Ends.b_from ends-Ends.b_to)))

-- The lines of a diff that are not additions are the lines of the old text, in order, with their
-- 1-based numbers; those that are not deletions are the lines of the new text with theirs. A final
-- newline of a text counts for nothing.
pub line_diff_sides :
    (a_text b_text : String)
    → (old_side (line_diff a_text b_text) ≡ numbered 0 (split_lines (chomp a_text)))
      × (new_side (line_diff a_text b_text) ≡ numbered 0 (split_lines (chomp b_text)))
unfolding line_diff
line_diff_sides a_text b_text = (
  old_side-diff_lines (split_lines (chomp a_text)) (split_lines (chomp b_text)),
  new_side-diff_lines (split_lines (chomp a_text)) (split_lines (chomp b_text)),
)
