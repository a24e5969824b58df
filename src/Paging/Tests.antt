-- ===== src/Paging/Tests.antt =====
-- portal/src/components/tables/Pagination.tsx on fixed pages.
use mutell_demo.Prelude.{ℕ, ◌+◌, ◌-◌, ◌≤◌, ◌<◌, ◌≡◌, ◌↔◌, ◌⊎◌, refl, true, false, [], ◌∷◌, arith}
use mutell_demo.Paging.{count_from, pages_around, pager, previous, next, page_count}
use mutell_demo.Paging.Range.{offers, pages_around_lem, clicks, clicks_reach}

abbrev nine : ℕ
nine = 9

middle : pager 5 9 ≡ record {
  previous_disabled = false;
  dots_before = true;
  pages = 4 ∷ 5 ∷ 6 ∷ [];
  dots_after = true;
  next_disabled = false;
}
unfolding pager count_from
middle = refl

last : (pager 9 9).pages ≡ 8 ∷ 9 ∷ 10 ∷ []
unfolding pager count_from
last = refl

counted : (page_count 41 20 ≡ 3) × (page_count 40 20 ≡ 2) × (page_count 0 20 ≡ 0)
unfolding page_count
counted = (refl, refl, refl)

pages_around_lem_example :
    (offers (pages_around nine nine) nine ≡ true)
    × (2 ≤ nine → offers (pages_around nine nine) (nine - 1) ≡ true)
    × (nine < nine → offers (pages_around nine nine) (nine + 1) ≡ true)
    × (((k : ℕ) → offers (pages_around nine nine) k ≡ true → (1 ≤ k) × (k ≤ nine))
        ↔ ((nine < nine) ⊎ (nine < 3)))
    × (nine ≡ nine → 3 ≤ nine → offers (pages_around nine nine) (nine + 1) ≡ true)
pages_around_lem_example = pages_around_lem nine nine (omega arith) (omega arith)

clicks_reach_example : (clicks 9 2 next 4 ≡ 2 + 4) × (clicks 9 (2 + 4) previous 4 ≡ 2)
clicks_reach_example = clicks_reach 9 2 4 (omega arith) (omega arith)
