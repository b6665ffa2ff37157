-- ===== src/Labels/Splitting.antt =====
-- The split of a query into its terms.
use Prim.Native.Char.{Char}
use Prim.Native.String.{◌++◌}
use text.Mathlib.TextLemmas.{append_assoc, append-nil, cons-append, nil-append}
use mathlib.Core.Option.{some-injective}
use skyvirt_kubeui.Prelude.{
  ℕ, String, ◌≡◌, refl, sym, ap, ◌∙◌, arith, false, some, List, [], ◌∷◌, All, keep, map,
}
use skyvirt_kubeui.Prelude.Text.{trim, is_filled}
use skyvirt_kubeui.Labels.Pieces.{IsPiece, IsPiece-scan, scan, scan_inner}
use skyvirt_kubeui.Labels.{split_loop, split_terms, depth_after, separates}

-- `pieces.join(",")`
abbrev pub join : List String → String
join [] = ""
join (s ∷ []) = s
join (s ∷ t ∷ ts) = s ++ ("," ++ join (t ∷ ts))

split_step :
    (depth : ℕ) (cur : String) (ch : Char) (q : String)
    → separates (depth_after depth ch) ch ≡ false
    → split_loop depth cur (String.◌∷◌ ch q)
      ≡ split_loop (depth_after depth ch) (cur ++ String.◌∷◌ ch String.[]) q
unfolding split_loop
split_step depth cur ch q h = rw h

-- A text without a separating comma goes to the term that is read.
split_piece :
    (depth after : ℕ) (cur s rest : String)
    → scan depth s ≡ some after
    → split_loop depth cur (s ++ rest) ≡ split_loop after (cur ++ s) rest
split_piece depth after cur String.[] rest h =
    let e : depth ≡ after = some-injective _ _ h in rw (nil-append rest, append-nil cur, e)
split_piece depth after cur (String.◌∷◌ ch s) rest h =
    let inner = scan_inner depth after ch s h in
    ap (λ q. split_loop depth cur q) (cons-append ch s rest)
    ∙ split_step depth cur ch (s ++ rest) inner.0
    ∙ split_piece (depth_after depth ch) after (cur ++ String.◌∷◌ ch String.[]) s rest inner.1
    ∙ ap (λ c. split_loop after c rest)
        (append_assoc cur (String.◌∷◌ ch String.[]) s
          ∙ ap (λ c. cur ++ c)
              (cons-append ch String.[] s ∙ ap (λ c. String.◌∷◌ ch c) (nil-append s)))

split_comma : (cur q : String) → split_loop 0 cur ("," ++ q) ≡ cur ∷ split_loop 0 "" q
unfolding split_loop
split_comma cur q =
    ap (λ r. split_loop 0 cur r)
      (cons-append "," String.[] q ∙ ap (λ r. String.◌∷◌ "," r) (nil-append q))

split_last :
    (cur : String)
    → keep is_filled (map trim (split_loop 0 cur "")) ≡ keep is_filled (map trim (cur ∷ []))
unfolding split_loop
split_last cur = ground arith

keep-cons :
    (s : String) (xs ys : List String)
    → keep is_filled xs ≡ keep is_filled ys
    → keep is_filled (s ∷ xs) ≡ keep is_filled (s ∷ ys)
keep-cons s xs ys h = ground (arith, h)

-- The query from a piece on: the piece is read, up to a comma or the end.
split_from : (s rest : String) → IsPiece s → split_loop 0 "" (s ++ rest) ≡ split_loop 0 s rest
split_from s rest h =
    split_piece 0 0 "" s rest (IsPiece-scan s h) ∙ ap (λ c. split_loop 0 c rest) (nil-append s)

-- If in each of the pieces the parentheses match and every comma is inside parentheses, the query
-- that joins them by commas is split into the pieces, trimmed, without the blank ones.
pub split_terms-join :
    (pieces : List String)
    → All IsPiece pieces
    → split_terms (join pieces) ≡ keep is_filled (map trim pieces)
unfolding split_terms
split_terms-join [] h = unfold split_loop in refl
split_terms-join (s ∷ []) h =
    ap (λ q. keep is_filled (map trim (split_loop 0 "" q))) (sym (append-nil s))
    ∙ ap (λ ts. keep is_filled (map trim ts)) (split_from s "" h.0)
    ∙ split_last s
split_terms-join (s ∷ t ∷ ts) h =
    ap (λ ps. keep is_filled (map trim ps))
      (split_from s ("," ++ join (t ∷ ts)) h.0 ∙ split_comma s (join (t ∷ ts)))
    ∙ keep-cons (trim s) (map trim (split_loop 0 "" (join (t ∷ ts)))) (map trim (t ∷ ts))
        (split_terms-join (t ∷ ts) h.1)
