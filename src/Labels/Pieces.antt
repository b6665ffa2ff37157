-- ===== src/Labels/Pieces.antt =====
-- The pieces of a query that the split leaves whole, as a grammar: texts whose parentheses match,
-- with commas only inside of them.
use Prim.Native.Char.{Char, code}
use Prim.Native.String.{◌++◌}
use text.Mathlib.TextLemmas.{append-nil, cons-append, nil-append}
use mathlib.Core.Path.{subst}
use mathlib.Core.Option.{some-injective}
use skyvirt_kubeui.Prelude.{
  ℕ, suc, String, ◌≡◌, refl, sym, ap, ◌∙◌, arith, Bool, true, false, ◌&&◌, ◌||◌, not, Option, none,
  some, if◌then◌else◌, inl, inr, Bool-cases, eqb,
}
use skyvirt_kubeui.Labels.{depth_after, separates}

abbrev pub is_parenthesis : Char → Bool
is_parenthesis c = eqb (code c) 40 || eqb (code c) 41

abbrev pub is_comma : Char → Bool
is_comma c = eqb (code c) 44

-- Within parentheses: any characters but parentheses, and groups.
pub data Inner : String → Type 0 where
  inner_end : Inner ""
  inner_char : (c : Char) (s : String) → is_parenthesis c ≡ false → Inner s → Inner (String.◌∷◌ c s)
  inner_group : (s t : String) → Inner s → Inner t → Inner ("(" ++ (s ++ (")" ++ t)))

-- Outside of them: the same without commas.
pub data IsPiece : String → Type 0 where
  piece_end : IsPiece ""
  piece_char :
      (c : Char) (s : String)
      → is_parenthesis c ≡ false
      → is_comma c ≡ false
      → IsPiece s
      → IsPiece (String.◌∷◌ c s)
  piece_group : (s t : String) → Inner s → IsPiece t → IsPiece ("(" ++ (s ++ (")" ++ t)))

-- The depth of parentheses after a text that has no comma outside parentheses, read from a depth.
abbrev pub scan : ℕ → String → Option ℕ
scan depth String.[] = some depth
scan depth (String.◌∷◌ ch s) =
    let inner = depth_after depth ch in
    let rest = scan inner s in if separates inner ch then none else rest

scan_step :
    (depth after : ℕ) (ch : Char) (s : String)
    → depth_after depth ch ≡ after
    → separates after ch ≡ false
    → scan depth (String.◌∷◌ ch s) ≡ scan after s
scan_step depth after ch s d h = rw (d, h) refl

pub scan_inner :
    (depth after : ℕ) (ch : Char) (s : String)
    → scan depth (String.◌∷◌ ch s) ≡ some after
    → (separates (depth_after depth ch) ch ≡ false) × (scan (depth_after depth ch) s ≡ some after)
scan_inner depth after ch s h = elim (Bool-cases (separates (depth_after depth ch) ch)) [
  | inl t ↦ let bad : none ≡ some after = rw t at h in cc
  | inr f ↦ (f, rw f at h)
]

scan-append :
    (depth after : ℕ) (s t : String)
    → scan depth s ≡ some after
    → scan depth (s ++ t) ≡ scan after t
scan-append depth after String.[] t h =
    ap (scan depth) (nil-append t) ∙ ap (λ d. scan d t) (some-injective _ _ h)
scan-append depth after (String.◌∷◌ ch s) t h =
    let (open_char, rest) = scan_inner depth after ch s h in
    ap (scan depth) (cons-append ch s t)
    ∙ scan_step depth (depth_after depth ch) ch (s ++ t) refl open_char
    ∙ scan-append (depth_after depth ch) after s t rest

scan-group :
    (depth : ℕ) (s t : String)
    → scan (suc depth) s ≡ some (suc depth)
    → scan depth ("(" ++ (s ++ (")" ++ t))) ≡ scan depth t
scan-group depth s t h =
    ap (scan depth) (
      cons-append "(" "" (s ++ (")" ++ t))
      ∙ ap (λ q. String.◌∷◌ "(" q) (nil-append (s ++ (")" ++ t))))
    ∙ scan_step depth (suc depth) "(" (s ++ (")" ++ t)) (omega arith) refl
    ∙ scan-append (suc depth) (suc depth) s (")" ++ t) h
    ∙ ap (scan (suc depth)) (cons-append ")" "" t ∙ ap (λ q. String.◌∷◌ ")" q) (nil-append t))
    ∙ scan_step (suc depth) depth ")" t (omega arith) refl

Inner-scan : (depth : ℕ) (s : String) → Inner s → scan (suc depth) s ≡ some (suc depth)
Inner-scan depth s inner_end = refl
Inner-scan depth s (inner_char c r plain h) =
    scan_step (suc depth) (suc depth) c r (ground arith) (ground arith) ∙ Inner-scan depth r h
Inner-scan depth s (inner_group r t h k) =
    scan-group (suc depth) r t (Inner-scan (suc depth) r h) ∙ Inner-scan depth t k

pub IsPiece-scan : (s : String) → IsPiece s → scan 0 s ≡ some 0
IsPiece-scan s piece_end = refl
IsPiece-scan s (piece_char c r plain comma h) =
    scan_step 0 0 c r (ground arith) (ground arith) ∙ IsPiece-scan r h
IsPiece-scan s (piece_group r t h k) = scan-group 0 r t (Inner-scan 0 r h) ∙ IsPiece-scan t k

-- No parentheses, and no commas.
abbrev pub is_ordinary : String → Bool
is_ordinary String.[] = true
is_ordinary (String.◌∷◌ c s) = not (is_parenthesis c) && (not (is_comma c) && is_ordinary s)

abbrev pub has_no_parenthesis : String → Bool
has_no_parenthesis String.[] = true
has_no_parenthesis (String.◌∷◌ c s) = not (is_parenthesis c) && has_no_parenthesis s

-- An ordinary text before a piece makes a piece.
pub IsPiece-append : (p s : String) → is_ordinary p ≡ true → IsPiece s → IsPiece (p ++ s)
IsPiece-append String.[] s h k = subst IsPiece (sym (nil-append s)) k
IsPiece-append (String.◌∷◌ c p) s h k =
    subst IsPiece (sym (cons-append c p s))
      (piece_char c (p ++ s) (ground arith) (ground arith) (IsPiece-append p s (ground arith) k))

pub is_ordinary-IsPiece : (s : String) → is_ordinary s ≡ true → IsPiece s
is_ordinary-IsPiece s h = subst IsPiece (append-nil s) (IsPiece-append s "" h piece_end)

pub has_no_parenthesis-Inner : (s : String) → has_no_parenthesis s ≡ true → Inner s
has_no_parenthesis-Inner String.[] h = inner_end
has_no_parenthesis-Inner (String.◌∷◌ c s) h =
    inner_char c s (ground arith) (has_no_parenthesis-Inner s (ground arith))
