-- ===== src/Pagination/Pages.antt =====
-- The pages of a table: how many there are, what each shows, and that they show every row once.
use skyvirt_kubeui.Prelude.{
  ℕ, zero, suc, ◌+◌, ◌-◌, ◌*◌, ◌/◌, ◌≤◌, ◌<◌, min, max, List, [], ◌∷◌, ◌++◌, length, take, drop,
  length-take, length-drop, ◌≡◌, refl, ap, ◌∙◌, arith,
}
use native.Mathlib.Nat.{mul-le-mul_right}
use skyvirt_kubeui.Prelude.Int.{pos}
use skyvirt_kubeui.Pagination.{page_count, clamp_page, paged, from, to}

ceil-bounds :
    (total n : ℕ)
    → 0 < n
    → (total ≤ ((total + n - 1) / n) * n) × (((total + n - 1) / n) * n < total + n)
ceil-bounds total n h = ground arith

mul-le : (a b n : ℕ) → a ≤ b → a * n ≤ b * n
mul-le a b n h = mul-le-mul_right n h

room :
    (q total n : ℕ)
    → total ≤ q * n
    → q * n < total + n
    → (total ≤ max 1 q * n) × ((max 1 q - 1) * n < max 1 total)
room zero total n h k = (omega arith, omega arith)
room (suc q) total n h k =
    let more : max 1 (suc q) ≡ suc q = omega arith in
    let less : max 1 (suc q) - 1 ≡ q = omega arith in (rw (more) h, rw (less) (omega arith))

-- For a positive page size there is at least one page, the pages have room for all the rows, and
-- all but the last one have room for fewer rows than there are, unless there are none.
pub page_count_lem :
    (total n : ℕ)
    → 0 < n
    → (1 ≤ page_count total (pos n))
      × (total ≤ page_count total (pos n) * n)
      × ((page_count total (pos n) - 1) * n < max 1 total)
unfolding page_count
page_count_lem total n h =
    let c = ceil-bounds total n h in
    (ground arith, (room _ total n c.0 c.1).0, (room _ total n c.0 c.1).1)

step_mul : (k n : ℕ) → 1 ≤ k → k * n ≡ (k - 1) * n + n
step_mul zero n h = elim h [ ]
step_mul (suc k) n h = let less : suc k - 1 ≡ k = omega arith in rw less (omega arith)

clamp_page-bounds :
    (page count : ℕ)
    → 1 ≤ page
    → 1 ≤ count
    → (1 ≤ clamp_page page count) × (clamp_page page count ≤ count)
unfolding clamp_page
clamp_page-bounds page count p c = ground arith

-- With a positive page size, the clamped page of a table that has rows is one of its pages, and it
-- shows the rows from the number `from` to the number `to`, at least one, as many as these say.
pub from-to-paged {ℓ} :
    {T : Type ℓ} (rows : List T) (page n : ℕ)
    → 0 < n
    → 1 ≤ page
    → 0 < length rows
    → (let total = length rows in
        let shown = clamp_page page (page_count total (pos n)) in
        (first : ℕ) × (last : ℕ) × (from total shown (pos n) ≡ pos first)
        × (to total shown (pos n) ≡ pos last)
        × (1 ≤ first)
        × (first ≤ last)
        × (last ≤ total)
        × (first + length (paged rows shown (pos n)) ≡ last + 1))
unfolding from to paged
from-to-paged rows page n h p r =
    let total = length rows in
    let count = page_count total (pos n) in
    let shown = clamp_page page count in
    let c = page_count_lem total n h in
    let b = clamp_page-bounds page count p c.0 in
    let below = mul-le (shown - 1) (count - 1) n (ground arith) in
    let next : shown * n ≡ (shown - 1) * n + n = step_mul shown n (ground arith) in
    (
      (shown - 1) * n + 1,
      min (shown * n) total,
      ground arith,
      ground arith,
      ground arith,
      ground arith,
      ground arith,
      ground
          (arith, length-take n (drop ((shown - 1) * n) rows), length-drop ((shown - 1) * n) rows),
    )

module _ {ℓ} {T : Type ℓ} where
  -- The rows of the first `k` pages, in order.
  abbrev pub first_pages : List T → ℕ → ℕ → List T
  first_pages rows n zero = []
  first_pages rows n (suc k) = first_pages rows n k ++ paged rows (suc k) (pos n)

  take_nil : (n : ℕ) → [] ≡ take {A = T} n []
  take_nil zero = refl
  take_nil (suc n) = refl

  take-add : (a b : ℕ) (xs : List T) → take a xs ++ take b (drop a xs) ≡ take (a + b) xs
  take-add zero b xs = let e : b ≡ zero + b = omega arith in ap (λ m. take m xs) e
  take-add (suc a) zero [] = take_nil (suc a + zero)
  take-add (suc a) (suc b) [] = take_nil (suc a + suc b)
  take-add (suc a) b (x ∷ xs) =
      let e : suc (a + b) ≡ suc a + b = omega arith in
      ap (λ r. x ∷ r) (take-add a b xs) ∙ ap (λ m. take m (x ∷ xs)) e

  first_pages_lem : (rows : List T) (n k : ℕ) → first_pages rows n k ≡ take (k * n) rows
  unfolding paged
  first_pages_lem rows n zero = let e : 0 ≡ 0 * n = omega arith in ap (λ m. take m rows) e
  first_pages_lem rows n (suc k) =
      let sum : k * n + n ≡ suc k * n = omega arith in
      let less : suc k - 1 ≡ k = omega arith in
      ap (λ j. first_pages rows n k ++ take n (drop (j * n) rows)) less
      ∙ ap (λ done. done ++ take n (drop (k * n) rows)) (first_pages_lem rows n k)
      ∙ take-add (k * n) n rows
      ∙ ap (λ m. take m rows) sum

  take-all : (n : ℕ) (xs : List T) → length xs ≤ n → take n xs ≡ xs
  take-all zero [] h = refl
  take-all zero (x ∷ xs) h = elim h [ ]
  take-all (suc n) [] h = refl
  take-all (suc n) (x ∷ xs) h = ap (λ r. x ∷ r) (take-all n xs (omega arith))

  -- With a positive page size, the pages show every row, once and in order.
  pub pages-rows :
      (rows : List T) (n : ℕ) → 0 < n → first_pages rows n (page_count (length rows) (pos n)) ≡ rows
  pages-rows rows n h =
      first_pages_lem rows n _ ∙ take-all _ rows (page_count_lem (length rows) n h).1
