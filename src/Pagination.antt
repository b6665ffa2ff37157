-- ===== src/Pagination.antt =====
-- Pagination of tables, web/src/hooks/usePagination.tsx. The page size is a signed integer, since
-- a hand-written address can hold a negative one.
pub mod Pages
pub mod Window
mod Tests
use Prim.Native.Char.{Char, code}
use skyvirt_kubeui.Prelude.{
  ℕ, zero, suc, ◌+◌, ◌-◌, ◌*◌, ◌/◌, min, max, String, Bool, true, false, ◌&&◌, ◌||◌, Option, none,
  some, List, [], ◌∷◌, ◌++◌, if◌then◌else◌, eqb, ltb, leb, length, take, drop,
}
use skyvirt_kubeui.Prelude.Text.{is_space}
use skyvirt_kubeui.Prelude.Int.{ℤ, pos, negsuc, sub_ℕ}

-- The digits at the start of a text; `seen` says whether there was one.
pub digits : Bool → ℕ → String → Option ℕ
digits seen n String.[] = if seen then some n else none
digits seen n (String.◌∷◌ c s) =
    let rest = digits true (n * 10 + (code c - 48)) s in
    if leb 48 (code c) && leb (code c) 57 then rest else (if seen then some n else none)

pub negated : Option ℕ → Option ℤ
negated none = none
negated (some n) = some (sub_ℕ 0 n)

pub positive : Option ℕ → Option ℤ
positive none = none
positive (some n) = some (pos n)

-- `parseInt(s, 10)`; NaN is `none`.
pub parse_int : String → Option ℤ
unfolding digits negated positive
parse_int String.[] = none
parse_int (String.◌∷◌ c s) =
    let rest = parse_int s in
    if is_space (code c)
    then rest
    else if eqb (code c) 45
    then negated (digits false 0 s)
    else if eqb (code c) 43
    then positive (digits false 0 s)
    else positive (digits false 0 (String.◌∷◌ c s))

-- `parseInt(s, 10) || defaultSize`
abbrev pub size_or : ℕ → Option ℤ → ℤ
size_or default (some (pos (suc n))) = pos (suc n)
size_or default (some (negsuc n)) = negsuc n
size_or default _ = pos default

-- `Math.max(1, parseInt(s, 10) || 1)`
abbrev pub page_or_one : Option ℤ → ℕ
page_or_one (some (pos (suc n))) = suc n
page_or_one _ = 1

-- The page size and the page of the address.
pub parse_size : ℕ → String → ℤ
unfolding parse_int
parse_size default s = size_or default (parse_int s)

pub parse_page : String → ℕ
unfolding parse_int
parse_page s = page_or_one (parse_int s)

-- `Math.max(1, Math.ceil(total / pageSize))`, for a size that is not 0.
unfoldable pub page_count : ℕ → ℤ → ℕ
page_count total (pos n) = max 1 ((total + n - 1) / n)
page_count total (negsuc k) = 1

-- The effect: `if (page > pageCount) setPage(pageCount)`.
unfoldable pub clamp_page : ℕ → ℕ → ℕ
clamp_page page count = if ltb count page then count else page

-- `rows.slice(start, start + pageSize)` with `start = (page - 1) * pageSize`, for a page from 1 on.
-- A negative end of `slice` counts from the end of the array.
module _ {ℓ} {T : Type ℓ} where
  unfoldable pub paged : List T → ℕ → ℤ → List T
  paged rows page (pos n) = take n (drop ((page - 1) * n) rows)
  paged rows page (negsuc k) =
      let total = length rows in
      let start = if eqb page 1 then 0 else total - (page - 1) * suc k in
      take (total - page * suc k - start) (drop start rows)

-- The 1-based numbers of the first and the last row shown.
unfoldable pub from : ℕ → ℕ → ℤ → ℤ
from total page (pos n) = if eqb total 0 then pos 0 else pos ((page - 1) * n + 1)
from total page (negsuc k) = if eqb total 0 then pos 0 else sub_ℕ 1 ((page - 1) * suc k)

unfoldable pub to : ℕ → ℕ → ℤ → ℤ
to total page (pos n) = pos (min (page * n) total)
to total page (negsuc k) = sub_ℕ 0 (page * suc k)

pub data Item : Type 0 where
  number : ℕ → Item
  ellipsis : Item

-- `for (let i = lo; i <= hi; i++) out.push(i)`, in `n` rounds
abbrev pub numbers : ℕ → ℕ → List Item
numbers lo zero = []
numbers lo (suc n) = number lo ∷ numbers (lo + 1) n

unfoldable pub page_window : ℕ → ℕ → List Item
page_window page count =
    if leb count 7
    then numbers 1 count
    else let lo = max 2 (page - 1) in
      let hi = min (count - 1) (page + 1) in
      number 1
      ∷ ((if ltb 2 lo then ellipsis ∷ [] else [])
          ++ (numbers lo (hi + 1 - lo)
              ++ ((if ltb hi (count - 1) then ellipsis ∷ [] else []) ++ number count ∷ [])))
