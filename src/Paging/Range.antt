-- ===== src/Paging/Range.antt =====
-- Which pages the buttons of portal/src/components/tables/Pagination.tsx lead to.
use mutell_demo.Prelude.{
  ℕ, zero, suc, ◌+◌, ◌-◌, ◌*◌, ◌≤◌, ◌<◌, ◌≡◌, ◌↔◌, ◌⊎◌, Bool, true, none, List, ltb, ◌==◌, arith,
  any, ◌||◌, Bool-cases, inl, inr,
}
use native.Mathlib.Nat.{div-lt_iff_lt-mul, mul-le-mul_right}
use mutell_demo.Paging.{
  min, max, count_from, pages_around, pager, Click, previous, next, click, page_count, list_pager,
}

-- The number is on one of the buttons.
abbrev pub offers : List ℕ → ℕ → Bool
offers pages k = any (λ page. page == k) pages

offers-count_from :
    (first length k : ℕ)
    → (offers (count_from first length) k ≡ true) ↔ ((first ≤ k) × (k < first + length))
unfolding count_from
offers-count_from first zero k = ((λ h. ground arith), (λ h. ground arith))
offers-count_from first (suc length) k = (
  (λ h. ground (arith, (offers-count_from (first + 1) length k).0)),
  (λ h. ground (arith, (offers-count_from (first + 1) length k).1)),
)

-- On a page from 1 to the last, its own number is on a button, as are those of the previous and the
-- next page where there is one; the numbers run from 1 to the last page, except that on the last of
-- three or more pages there is a button for the page after it.
pub pages_around_lem :
    (current total : ℕ)
    → 1 ≤ current
    → current ≤ total
    → (offers (pages_around current total) current ≡ true)
      × (2 ≤ current → offers (pages_around current total) (current - 1) ≡ true)
      × (current < total → offers (pages_around current total) (current + 1) ≡ true)
      × (((k : ℕ) → offers (pages_around current total) k ≡ true → (1 ≤ k) × (k ≤ total))
          ↔ ((current < total) ⊎ (total < 3)))
      × (current ≡ total → 3 ≤ total → offers (pages_around current total) (total + 1) ≡ true)
unfolding pages_around
pages_around_lem current total low high =
    let at = offers-count_from (max (current - 1) 1) (min 3 total) in
    (
      (at current).1 (ground arith),
      λ h. (at (current - 1)).1 (ground arith),
      λ h. (at (current + 1)).1 (ground arith),
      (
        (λ h. elim (Bool-cases (ltb current total || ltb total 3)) [
          | inl few ↦ ground arith
          | inr last ↦
              let out = h (total + 1) ((at (total + 1)).1 (ground arith)) in absurd (omega arith)
        ]),
        (λ h k on. let found = (at k).0 on in (ground arith, ground arith)),
      ),
      λ last h. (at (total + 1)).1 (ground arith),
    )

-- Clicks on one button in a row.
unfoldable pub clicks : ℕ → ℕ → Click → ℕ → ℕ
clicks total current c zero = current
clicks total current c (suc n) = clicks total (click total current c) c n

-- From any page, from 1 on, as many clicks on the button for the next page as there are pages up to
-- a later one, the last at most, lead to that one, and as many on the other button lead back.
pub clicks_reach :
    (total current n : ℕ)
    → 1 ≤ current
    → current + n ≤ total
    → (clicks total current next n ≡ current + n)
      × (clicks total (current + n) previous n ≡ current)
unfolding clicks click pager
clicks_reach total current zero low high = (omega arith, omega arith)
clicks_reach total current (suc n) low high =
    let forth = clicks_reach total (current + 1) n (omega arith) (omega arith) in
    let back = clicks_reach total current n low (omega arith) in (ground arith, ground arith)

-- With at least one item on a page, the number of pages is the least that holds all items.
pub page_count-le_iff :
    (total per_page pages : ℕ)
    → 1 ≤ per_page
    → (page_count total per_page ≤ pages) ↔ (total ≤ pages * per_page)
unfolding page_count
page_count-le_iff total per_page pages some_page =
    let h =
      div-lt_iff_lt-mul {k = per_page} {x = total + (per_page - 1)} {y = pages + 1} some_page in
    ((λ e. let g = h.0 (omega arith) in omega arith), (λ e. omega (arith, h.1 (omega arith))))

-- When a list shrinks to one page while another page of it is open, there is no button left that
-- leads back, and none of the items is on the open page.
pub list_pager_stranded :
    (per_page total current : ℕ)
    → 2 ≤ current
    → total ≤ per_page
    → (list_pager per_page total current ≡ none) × (total ≤ (current - 1) * per_page)
unfolding list_pager
list_pager_stranded per_page total current beyond few =
    (ground arith, omega (arith, mul-le-mul_right {m = 1} {n = current - 1} per_page (omega arith)))
