-- ===== src/Labels/Tests.antt =====
-- Runs of label selectors.
use skyvirt_kubeui.Prelude.{String, ◌≡◌, refl, ◌↔◌, true, some, List, [], ◌∷◌, All, keep, map}
use skyvirt_kubeui.Prelude.Dict.{get}
use skyvirt_kubeui.Prelude.Text.{trim, is_filled}
use skyvirt_kubeui.Labels.{
  Term, eq, exists, not_in_set, Labels, match_term, match_terms, split_loop, split_terms,
}
use skyvirt_kubeui.Labels.Matching.{Says, match_terms-Says}
use skyvirt_kubeui.Labels.Pieces.{
  IsPiece, piece_end, piece_group, IsPiece-append, is_ordinary-IsPiece, has_no_parenthesis-Inner,
}
use skyvirt_kubeui.Labels.Splitting.{split_terms-join, join}

abbrev selector : List Term
selector = eq "app" "web" ∷ exists "tier" ∷ not_in_set "env" ("dev" ∷ "test" ∷ []) ∷ []

abbrev web : Labels
web = ("app", "web") ∷ ("tier", "front") ∷ []

match_terms-Says_example : (match_terms (some selector) (some web) ≡ true) ↔ All (Says web) selector
match_terms-Says_example = match_terms-Says selector web (tt, (refl, (tt, tt)))

match_terms_run : match_terms (some selector) (some web) ≡ true
unfolding match_terms match_term get
match_terms_run = refl

-- A bare name that every object inherits is found on any labels, so the selector matches all.
match_terms_inherited : match_terms (some (exists "constructor" ∷ [])) (some web) ≡ true
unfolding match_terms match_term get
match_terms_inherited = refl

abbrev pieces : List String
pieces = "app=web" ∷ " env in (dev,test)" ∷ " " ∷ "!old" ∷ []

IsPiece-in_set : IsPiece " env in (dev,test)"
IsPiece-in_set =
    IsPiece-append " env in " "(dev,test)" refl
      (piece_group "dev,test" "" (has_no_parenthesis-Inner "dev,test" refl) piece_end)

split_terms-join_example : split_terms (join pieces) ≡ keep is_filled (map trim pieces)
split_terms-join_example = split_terms-join pieces (
  is_ordinary-IsPiece "app=web" refl,
  (IsPiece-in_set, (is_ordinary-IsPiece " " refl, (is_ordinary-IsPiece "!old" refl, tt))),
)

split_terms_run :
    split_terms "app=web, env in (dev,test), ,!old" ≡ "app=web" ∷ "env in (dev,test)" ∷ "!old" ∷ []
unfolding split_terms split_loop
split_terms_run = refl
