-- ===== src/Pagination/Window.antt =====
-- The list of page numbers under a table.
use skyvirt_kubeui.Prelude.{
  ℕ, zero, suc, ◌+◌, ◌-◌, ◌≤◌, ◌<◌, min, max, Bool, true, false, List, [], ◌∷◌, ◌++◌, if◌then◌else◌,
  ltb, leb, length, length-append, append-nil, ◌≡◌, refl, ap, sym, Bool-cases, arith, inl, inr, ◌⊎◌,
}
use mathlib.Core.Path.{subst}
use skyvirt_kubeui.Pagination.{Item, number, ellipsis, numbers, page_window}

-- A list of items that shows the pages from `lo` to `hi` in increasing order: each gap of hidden
-- pages, and no other place, has an ellipsis.
pub data Shows : ℕ → ℕ → List Item → Type 0 where
  last : {n : ℕ} → Shows n n (number n ∷ [])
  next : {n hi : ℕ} {items : List Item} → Shows (n + 1) hi items → Shows n hi (number n ∷ items)
  gap :
      {n m hi : ℕ} {items : List Item}
      → n + 1 < m
      → Shows m hi items
      → Shows n hi (number n ∷ ellipsis ∷ items)

-- The item stands in the list.
pub data Among : Item → List Item → Type 0 where
  here : {x : Item} {items : List Item} → Among x (x ∷ items)
  there : {x y : Item} {items : List Item} → Among x items → Among x (y ∷ items)

-- A run of numbers, before items that go on after the last one.
Shows-numbers :
    (lo n hi : ℕ) (items : List Item)
    → Shows (lo + n) hi (number (lo + n) ∷ items)
    → Shows lo hi (numbers lo (suc n) ++ items)
Shows-numbers lo zero hi items s =
    let e : lo + 0 ≡ lo = omega arith in subst (λ k. Shows k hi (number k ∷ items)) e s
Shows-numbers lo (suc n) hi items s =
    let e : lo + suc n ≡ lo + 1 + n = omega arith in
    next (Shows-numbers (lo + 1) n hi items (subst (λ k. Shows k hi (number k ∷ items)) e s))

-- What follows the middle: the last page, after an ellipsis if there is a gap.
Shows-tail :
    (hi count : ℕ)
    → hi < count
    → Shows hi count
        (number hi ∷ ((if ltb hi (count - 1) then ellipsis ∷ [] else []) ++ number count ∷ []))
Shows-tail hi count h = elim (Bool-cases (ltb hi (count - 1))) [
  | inl t ↦ rw t (gap (ground arith) last)
  | inr f ↦
      let e : count ≡ hi + 1 = ground arith in
      rw f (next (subst (λ k. Shows k count (number count ∷ [])) e last))
]

-- The middle run and what follows it.
Shows-middle :
    (lo hi count : ℕ)
    → lo ≤ hi
    → hi < count
    → Shows lo count (
        numbers lo (hi + 1 - lo)
        ++ ((if ltb hi (count - 1) then ellipsis ∷ [] else []) ++ number count ∷ []))
Shows-middle lo hi count le lt =
    let items = (if ltb hi (count - 1) then ellipsis ∷ [] else []) ++ number count ∷ [] in
    let rounds : suc (hi - lo) ≡ hi + 1 - lo = omega arith in
    let end : hi ≡ lo + (hi - lo) = omega arith in
    subst (λ n. Shows lo count (numbers lo n ++ items)) rounds
      (Shows-numbers lo (hi - lo) count items
        (subst (λ k. Shows k count (number k ∷ items)) end (Shows-tail hi count lt)))

eq-or-lt : (a b : ℕ) → a ≤ b → (a ≡ b) ⊎ (a < b)
eq-or-lt a b h = ground arith

length-numbers : (lo n : ℕ) → length (numbers lo n) ≡ n
length-numbers lo zero = refl
length-numbers lo (suc n) = ap suc (length-numbers (lo + 1) n)

-- A page of the run is among its numbers.
Among-numbers :
    (lo n page : ℕ) (items : List Item)
    → lo ≤ page
    → page < lo + n
    → Among (number page) (numbers lo n ++ items)
Among-numbers lo zero page items a b = let bad : ⊥ = omega arith in elim bad [ ]
Among-numbers lo (suc n) page items a b = elim (eq-or-lt lo page a) [
  | inl e ↦ subst (λ k. Among (number k) (number lo ∷ (numbers (lo + 1) n ++ items))) e here
  | inr lt ↦ there (Among-numbers (lo + 1) n page items (omega arith) (omega arith))
]

Shows-all : (lo n : ℕ) → Shows lo (lo + n) (numbers lo (suc n))
Shows-all lo zero =
    let e : lo ≡ lo + 0 = omega arith in subst (λ k. Shows lo k (number lo ∷ [])) e last
Shows-all lo (suc n) =
    let e : lo + 1 + n ≡ lo + suc n = omega arith in
    next (subst (λ k. Shows (lo + 1) k (numbers (lo + 1) (suc n))) e (Shows-all (lo + 1) n))

Shows-head :
    (lo count : ℕ) (items : List Item)
    → 2 ≤ lo
    → Shows lo count items
    → Shows 1 count (number 1 ∷ ((if ltb 2 lo then ellipsis ∷ [] else []) ++ items))
Shows-head lo count items h s = elim (Bool-cases (ltb 2 lo)) [
  | inl t ↦ rw t (gap (ground arith) s)
  | inr f ↦ let e : lo ≡ 2 = ground arith in rw f (next (subst (λ k. Shows k count items) e s))
]

Among-append : (x : Item) (items more : List Item) → Among x more → Among x (items ++ more)
Among-append x [] more a = a
Among-append x (y ∷ items) more a = there (Among-append x items more a)

-- The current page of a long list: the first, the last, or one of the middle.
Among-long :
    (page count : ℕ) (before after : List Item)
    → 1 ≤ page
    → page ≤ count
    → Among (number page) (
        number 1
        ∷ (before
            ++ (numbers (max 2 (page - 1)) (min (count - 1) (page + 1) + 1 - max 2 (page - 1))
                ++ (after ++ number count ∷ []))))
Among-long page count before after p c =
    let lo = max 2 (page - 1) in
    let n = min (count - 1) (page + 1) + 1 - lo in
    elim (eq-or-lt 1 page p) [
      | inl e ↦
          subst
            (λ k.
              Among (number page)
                (number k ∷ (before ++ (numbers lo n ++ (after ++ number count ∷ [])))))
            (sym e) here
      | inr lt ↦ there (
          Among-append _ before _ (elim (eq-or-lt page count c) [
            | inl e ↦
                Among-append _ (numbers lo n) _
                  (Among-append _ after _ (subst (λ k. Among (number page) (number k ∷ [])) e here))
            | inr less ↦ Among-numbers lo n page _ (ground arith) (ground arith)
          ]))
    ]

length-parts :
    (x y : Item) (a b c : List Item)
    → length a ≤ 1
    → length b ≤ 3
    → length c ≤ 1
    → length (x ∷ (a ++ (b ++ (c ++ y ∷ [])))) ≤ 7
length-parts x y a b c la lb lc = omega (
  arith,
  length-append a (b ++ (c ++ y ∷ [])),
  length-append b (c ++ y ∷ []),
  length-append c (y ∷ []),
)

length-optional : (b : Bool) (x : Item) → length (if b then x ∷ [] else []) ≤ 1
length-optional true x = omega arith
length-optional false x = omega arith

-- The numbers under a table start at page 1, end at the last page and increase, and an ellipsis
-- stands exactly where pages are left out.
pub page_window-Shows :
    (page count : ℕ) → 1 ≤ page → page ≤ count → Shows 1 count (page_window page count)
unfolding page_window
page_window-Shows page count p c = elim (Bool-cases (leb count 7)) [
  | inl t ↦
      let e : 1 + (count - 1) ≡ count = omega arith in
      let s : suc (count - 1) ≡ count = omega arith in
      rw t (
        subst (λ k. Shows 1 k (numbers 1 count)) e
          (subst (λ n. Shows 1 (1 + (count - 1)) (numbers 1 n)) s (Shows-all 1 (count - 1))))
  | inr f ↦ rw f (
      Shows-head _ count _ (omega arith) (
        Shows-middle (max 2 (page - 1)) (min (count - 1) (page + 1)) count (ground arith)
          (ground arith)))
]

-- The numbers under a table show the current page.
pub page_window-Among :
    (page count : ℕ) → 1 ≤ page → page ≤ count → Among (number page) (page_window page count)
unfolding page_window
page_window-Among page count p c = elim (Bool-cases (leb count 7)) [
  | inl t ↦ rw t (
      subst (λ items. Among (number page) items) (append-nil (numbers 1 count))
        (Among-numbers 1 count page [] p (omega arith)))
  | inr f ↦ rw f (Among-long page count _ _ p c)
]

-- At most seven numbers and ellipses stand under a table.
pub length-page_window :
    (page count : ℕ) → 1 ≤ page → page ≤ count → length (page_window page count) ≤ 7
unfolding page_window
length-page_window page count p c =
    let lo = max 2 (page - 1) in
    let hi = min (count - 1) (page + 1) in
    let short : length (numbers lo (hi + 1 - lo)) ≤ 3 =
      omega (arith, length-numbers lo (hi + 1 - lo)) in
    elim (Bool-cases (leb count 7)) [
      | inl t ↦ rw t (ground (arith, length-numbers 1 count))
      | inr f ↦ rw f (
          length-parts (number 1) (number count) (if ltb 2 lo then ellipsis ∷ [] else [])
            (numbers lo (hi + 1 - lo)) (if ltb hi (count - 1) then ellipsis ∷ [] else [])
            (length-optional (ltb 2 lo) ellipsis) short
            (length-optional (ltb hi (count - 1)) ellipsis))
    ]
