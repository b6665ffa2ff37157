-- ===== src/Pagination/Tests.antt =====
-- Runs of the pagination at concrete tables.
use skyvirt_kubeui.Prelude.{ℕ, List, [], ◌∷◌, ◌≡◌, refl, arith}
use skyvirt_kubeui.Prelude.Int.{pos}
use skyvirt_kubeui.Pagination.{
  parse_size, parse_page, page_count, paged, number, ellipsis, page_window,
}
use skyvirt_kubeui.Pagination.Pages.{first_pages, pages-rows}
use skyvirt_kubeui.Pagination.Window.{Shows, page_window-Shows}

abbrev five : List ℕ
five = 10 ∷ 20 ∷ 30 ∷ 40 ∷ 50 ∷ []

pages-rows_example : first_pages five 2 (page_count 5 (pos 2)) ≡ five
pages-rows_example = pages-rows five 2 (omega arith)

page_window-Shows_example : Shows 1 20 (page_window 10 20)
page_window-Shows_example = page_window-Shows 10 20 (omega arith) (omega arith)

page_window_run :
    page_window 10 20
    ≡ number 1 ∷ ellipsis ∷ number 9 ∷ number 10 ∷ number 11 ∷ ellipsis ∷ number 20 ∷ []
unfolding page_window
page_window_run = refl

parse_size_run : parse_size 25 "50" ≡ pos 50
unfolding parse_size
parse_size_run = refl

parse_page_run : parse_page "-3" ≡ 1
unfolding parse_page
parse_page_run = refl

-- A negative page size in the address hides rows: no page shows the last two of five rows.
paged_negative : paged five 1 (parse_size 25 "-2") ≡ 10 ∷ 20 ∷ 30 ∷ []
unfolding paged parse_size
paged_negative = refl

page_count_negative : page_count 5 (parse_size 25 "-2") ≡ 1
unfolding page_count parse_size
page_count_negative = refl
