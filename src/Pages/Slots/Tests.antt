-- ===== src/Pages/Slots/Tests.antt =====
-- portal/src/app/(app)/slots/page.tsx on two pages of slots.
use mutell_demo.Prelude.{
  ◌≡◌, ◌≢◌, ◌↔◌, refl, String, true, false, some, List, [], ◌∷◌, if◌then◌else◌, arith,
}
use mutell_demo.Pages.Slots.{
  has, add, add_all, SlotsPage, opened, toggle_all, all_checked, toggles_all, turns_to, act,
}
use mutell_demo.Pages.Slots.Selection.{distinct, IsWithin, acts, all_checked_lem}

abbrev first_page : List String
first_page = "s1" ∷ "s2" ∷ []

abbrev second_page : List String
second_page = "s3" ∷ "s4" ∷ []

abbrev one_picked : SlotsPage
one_picked = record opened { selected = "s2" ∷ [] }

-- Two rows of the first page are selected, then the second page is shown: its box is checked
-- though none of its rows is selected.
elsewhere :
    let s = acts opened (toggles_all first_page ∷ turns_to 2 ∷ []) in
    (all_checked second_page s ≡ true) × (s.selected ≡ first_page)
unfolding acts act add add_all toggle_all all_checked
elsewhere = (refl, refl)

one_picked-IsWithin : IsWithin one_picked.selected first_page
one_picked-IsWithin id on = ground arith

all_checked_lem_example :
    ((all_checked first_page one_picked ≡ true)
      ↔ ((first_page ≢ []) × IsWithin first_page one_picked.selected))
    × ((id : String)
        → has id (toggle_all (some first_page) one_picked).selected
          ≡ (if all_checked first_page one_picked then false else has id first_page))
all_checked_lem_example =
    all_checked_lem one_picked first_page (unfold distinct in refl) (unfold distinct in refl)
      one_picked-IsWithin
