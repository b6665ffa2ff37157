-- ===== src/Api/Paths.antt =====
-- The segments of a request's path, as a server splits them.
use Prim.Native.Char.{Char, code}
use Prim.Native.String.{◌++◌}
use text.Mathlib.TextLemmas.{cons-append, nil-append, append-nil, append_assoc}
use skyvirt_kubeui.Prelude.{
  String, ◌≡◌, refl, sym, ap, ◌∙◌, arith, Bool, true, false, not, ◌&&◌, List, [], ◌∷◌, All, eqb,
}
use skyvirt_kubeui.Prelude.Text.{onto, pieces}
use skyvirt_kubeui.Api.{path_of}

-- A segment is not empty and has no slash, and none of the characters that a browser reads as
-- the end of the path or as an escape.
abbrev pub is_plain : String → Bool
is_plain String.[] = true
is_plain (String.◌∷◌ c s) =
    not (eqb (code c) 47)
    && not (eqb (code c) 63)
    && not (eqb (code c) 35)
    && not (eqb (code c) 37)
    && is_plain s

abbrev pub is_segment : String → Bool
is_segment String.[] = false
is_segment (String.◌∷◌ c s) = is_plain (String.◌∷◌ c s)

abbrev pub IsSegment : String → Type 0
IsSegment s = is_segment s ≡ true

-- The segments of a path that starts with a slash.
unfoldable pub segments_of : String → List String
segments_of String.[] = []
segments_of (String.◌∷◌ c s) = pieces s

pieces_step :
    (c : Char) (s : String) (p : String) (ps : List String)
    → eqb (code c) 47 ≡ false
    → pieces s ≡ p ∷ ps
    → pieces (String.◌∷◌ c s) ≡ String.◌∷◌ c p ∷ ps
unfolding pieces
pieces_step c s p ps n e = rw n (ap (onto c) e)

plain_head :
    (c : Char) (s : String)
    → is_plain (String.◌∷◌ c s) ≡ true
    → (eqb (code c) 47 ≡ false) × (is_plain s ≡ true)
plain_head c s h = (ground arith, ground arith)

plain_prefix :
    (s rest : String) (p : String) (ps : List String)
    → is_plain s ≡ true
    → pieces rest ≡ p ∷ ps
    → pieces (s ++ rest) ≡ (s ++ p) ∷ ps
plain_prefix String.[] rest p ps h e =
    ap pieces (nil-append rest) ∙ e ∙ ap (λ q. q ∷ ps) (sym (nil-append p))
plain_prefix (String.◌∷◌ c s) rest p ps h e =
    let head = plain_head c s h in
    ap pieces (cons-append c s rest)
    ∙ pieces_step c (s ++ rest) (s ++ p) ps head.0 (plain_prefix s rest p ps head.1 e)
    ∙ ap (λ q. q ∷ ps) (sym (cons-append c s p))

segment-plain : (s : String) → IsSegment s → is_plain s ≡ true
segment-plain String.[] h = cc
segment-plain (String.◌∷◌ c s) h = h

pieces_slash : (s : String) → pieces ("/" ++ s) ≡ "" ∷ pieces s
unfolding pieces
pieces_slash s = ap pieces (cons-append "/" String.[] s ∙ ap (λ r. String.◌∷◌ "/" r) (nil-append s))

pieces_segment :
    (s rest : String) (ps : List String)
    → IsSegment s
    → pieces rest ≡ "" ∷ ps
    → pieces (s ++ rest) ≡ s ∷ ps
pieces_segment s rest ps h e =
    plain_prefix s rest "" ps (segment-plain s h) e ∙ ap (λ q. q ∷ ps) (append-nil s)

pieces-path_of :
    (s : String) (ss : List String)
    → IsSegment s
    → All IsSegment ss
    → pieces (s ++ path_of ss) ≡ s ∷ ss
unfolding path_of
pieces-path_of s [] h hs = pieces_segment s "" [] h (unfold pieces in refl)
pieces-path_of s (t ∷ ts) h (ht, hts) =
    pieces_segment s ("/" ++ (t ++ path_of ts)) (t ∷ ts) h
      (pieces_slash (t ++ path_of ts) ∙ ap (λ ps. "" ∷ ps) (pieces-path_of t ts ht hts))

segments_slash : (s : String) → segments_of ("/" ++ s) ≡ pieces s
unfolding segments_of
segments_slash s =
    ap segments_of (cons-append "/" String.[] s ∙ ap (λ r. String.◌∷◌ "/" r) (nil-append s))

-- A path that is made of segments is split into these segments.
pub segments_of-path_of : (ss : List String) → All IsSegment ss → segments_of (path_of ss) ≡ ss
unfolding segments_of path_of
segments_of-path_of [] h = refl
segments_of-path_of (s ∷ ss) (h, hs) = segments_slash (s ++ path_of ss) ∙ pieces-path_of s ss h hs

pub path_of-cons :
    (s : String) (ss ts : List String)
    → path_of ss ≡ path_of ts
    → path_of (s ∷ ss) ≡ path_of (s ∷ ts)
unfolding path_of
path_of-cons s ss ts e = ap (λ t. "/" ++ (s ++ t)) e

-- A name with a slash makes two segments.
pub path_of-slash :
    (a b : String) (ss : List String) → path_of ((a ++ ("/" ++ b)) ∷ ss) ≡ path_of (a ∷ b ∷ ss)
unfolding path_of
path_of-slash a b ss =
    ap (λ t. "/" ++ t)
      (append_assoc a ("/" ++ b) (path_of ss) ∙ ap (λ t. a ++ t) (append_assoc "/" b (path_of ss)))
