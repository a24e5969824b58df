-- ===== src/Paging.antt =====
-- portal/src/components/tables/Pagination.tsx, and how the pages with a list use it.
pub mod Range
mod Tests
use mutell_demo.Prelude.{
  ℕ, zero, suc, ◌+◌, ◌-◌, ◌*◌, ◌/◌, Bool, Option, none, some, List, [], ◌∷◌, ltb, leb, ◌==◌,
  if◌then◌else◌,
}

-- `Math.min` and `Math.max`
abbrev pub min : ℕ → ℕ → ℕ
min a b = if leb a b then a else b

abbrev pub max : ℕ → ℕ → ℕ
max a b = if leb a b then b else a

-- `Array.from({ length }, (_, i) => i + first)`
unfoldable pub count_from : ℕ → ℕ → List ℕ
count_from first zero = []
count_from first (suc length) = first ∷ count_from (first + 1) length

unfoldable pub pages_around : ℕ → ℕ → List ℕ
pages_around current total = count_from (max (current - 1) 1) (min 3 total)

-- What `Pagination` puts on the screen: the two ellipses, the numbered buttons, and which of the
-- other two buttons is disabled.
pub record Pager : Type 0 where
  pub previous_disabled : Bool
  pub dots_before : Bool
  pub pages : List ℕ
  pub dots_after : Bool
  pub next_disabled : Bool

unfoldable pub pager : ℕ → ℕ → Pager
unfolding pages_around
pager current total = record {
  previous_disabled = current == 1;
  dots_before = ltb 3 current;
  pages = pages_around current total;
  dots_after = ltb current (total - 2);
  next_disabled = current == total;
}

pub data Click : Type 0 where
  previous : Click
  numbered : ℕ → Click
  next : Click

-- `onPageChange`; a disabled button does nothing.
unfoldable pub click : ℕ → ℕ → Click → ℕ
unfolding pager
click total current previous =
    if (pager current total).previous_disabled then current else current - 1
click total current (numbered page) = page
click total current next = if (pager current total).next_disabled then current else current + 1

-- `Math.ceil(total / perPage)`
unfoldable pub page_count : ℕ → ℕ → ℕ
page_count total per_page = (total + (per_page - 1)) / per_page

-- Below a list: `data.total > perPage && <Pagination ...>`
unfoldable pub list_pager : ℕ → ℕ → ℕ → Option Pager
list_pager per_page total current =
    if ltb per_page total then some (pager current (page_count total per_page)) else none
