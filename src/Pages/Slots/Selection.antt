-- ===== src/Pages/Slots/Selection.antt =====
-- The selection of portal/src/app/(app)/slots/page.tsx as a set.
use mutell_demo.Prelude.{
  suc, ◌≤◌, ◌≡◌, ◌≢◌, ◌↔◌, refl, String, Bool, true, false, not, ◌&&◌, ◌||◌, some, List, [], ◌∷◌,
  ◌++◌, length, ◌==◌, str_eq, if◌then◌else◌, if_intro, eq_iff, eq_refl, arith, Bool-cases, inl, inr,
}
use mutell_demo.Pages.{ok, err}
use mutell_demo.Pages.Slots.{
  bulk_request, has, add, remove, add_all, SlotsPage, opened, toggle_select, toggle_all,
  all_checked, Action, toggles, toggles_all, finishes, act,
}

-- No id is there twice.
unfoldable pub distinct : List String → Bool
distinct [] = true
distinct (x ∷ ids) = not (has x ids) && distinct ids

distinct_empty : distinct [] ≡ true
unfolding distinct
distinct_empty = refl

has-append :
    (id x : String) (ids : List String) → has id (ids ++ x ∷ []) ≡ (has id ids || str_eq x id)
has-append id x [] = ground arith
has-append id x (y ∷ ids) = ground (arith, has-append id x ids)

has-add : (id x : String) (ids : List String) → has id (add x ids) ≡ (str_eq x id || has id ids)
unfolding add
has-add id x ids = ground (arith, has-append id x ids, eq_iff x id)

has-remove :
    (id x : String) (ids : List String) → has id (remove x ids) ≡ (not (str_eq x id) && has id ids)
unfolding remove
has-remove id x [] = ground arith
has-remove id x (y ∷ ids) =
    ground (arith, has-remove id x ids, eq_iff y x, eq_iff y id, eq_iff x id)

has-add_all :
    (id : String) (ids set : List String) → has id (add_all ids set) ≡ (has id ids || has id set)
unfolding add_all
has-add_all id [] set = ground arith
has-add_all id (x ∷ ids) set = ground (arith, has-add_all id ids (add x set), has-add id x set)

distinct-append :
    (x : String) (ids : List String)
    → has x ids ≡ false
    → distinct ids ≡ true
    → distinct (ids ++ x ∷ []) ≡ true
unfolding distinct
distinct-append x [] new once = refl
distinct-append x (y ∷ ids) new once =
    ground (arith, distinct-append x ids, has-append y x ids, eq_iff y x, eq_iff x y)

distinct-add : (x : String) (ids : List String) → distinct ids ≡ true → distinct (add x ids) ≡ true
unfolding add
distinct-add x ids once = ground (arith, distinct-append x ids)

distinct-remove :
    (x : String) (ids : List String) → distinct ids ≡ true → distinct (remove x ids) ≡ true
unfolding distinct remove
distinct-remove x [] once = refl
distinct-remove x (y ∷ ids) once = ground (arith, distinct-remove x ids, has-remove y x ids)

distinct-add_all : (ids set : List String) → distinct set ≡ true → distinct (add_all ids set) ≡ true
unfolding add_all
distinct-add_all [] set once = once
distinct-add_all (x ∷ ids) set once = distinct-add_all ids (add x set) (distinct-add x set once)

length-remove :
    (x : String) (ids : List String)
    → (length (remove x ids) ≤ length ids)
      × (has x ids ≡ true → suc (length (remove x ids)) ≤ length ids)
unfolding remove
length-remove x [] = (omega arith, λ on. ground arith)
length-remove x (y ∷ ids) = let h = length-remove x ids in (ground arith, λ on. ground arith)

-- Every id of the one list is in the other.
abbrev pub IsWithin : List String → List String → Type 0
IsWithin xs ys = (id : String) → has id xs ≡ true → has id ys ≡ true

length-le : (xs ys : List String) → distinct xs ≡ true → IsWithin xs ys → length xs ≤ length ys
unfolding distinct
length-le [] ys once within = omega arith
length-le (x ∷ xs) ys once within =
    let fewer = (length-remove x ys).1 (within x (ground (arith, eq_refl x))) in
    let rest =
      length-le xs (remove x ys) (ground arith)
        (λ id on. ground (arith, has-remove id x ys, within id, eq_iff x id)) in
    omega arith

-- Two lists of the same length without repetitions, the first within the second: then the second is
-- within the first.
IsWithin-back :
    (xs ys : List String)
    → distinct xs ≡ true
    → IsWithin xs ys
    → length xs ≡ length ys
    → IsWithin ys xs
IsWithin-back xs ys once within same id on = elim (Bool-cases (has id xs)) [
  | inl h ↦ h
  | inr missing ↦
      let more =
        length-le (id ∷ xs) ys (unfold distinct in ground arith)
          (λ x h. ground (arith, within x, eq_iff id x)) in
      absurd (omega arith)
]

unfoldable pub acts : SlotsPage → List Action → SlotsPage
acts s [] = s
acts s (a ∷ events) = acts (act s a) events

act-distinct :
    (s : SlotsPage) (a : Action) → distinct s.selected ≡ true → distinct (act s a).selected ≡ true
unfolding act
act-distinct s (toggles id) once =
    ground (arith, distinct-add id s.selected once, distinct-remove id s.selected once)
act-distinct s (toggles_all items) once =
    if_intro (λ (t : SlotsPage). distinct t.selected ≡ true) (length s.selected == length items)
      (λ e. distinct_empty) (λ e. distinct-add_all items [] distinct_empty)
act-distinct s (finishes (ok a)) once = distinct_empty
act-distinct s (finishes (err f)) once = once
act-distinct s _ once = once

acts-distinct_from :
    (s : SlotsPage) (events : List Action)
    → distinct s.selected ≡ true
    → distinct (acts s events).selected ≡ true
unfolding acts
acts-distinct_from s [] once = once
acts-distinct_from s (a ∷ events) once = acts-distinct_from (act s a) events (act-distinct s a once)

-- Whatever is done on the page, a bulk re-evaluation names no slot twice.
pub acts-distinct :
    (events : List Action) → distinct (bulk_request (acts opened events)).slot_ids ≡ true
acts-distinct events = acts-distinct_from opened events distinct_empty

has-toggled :
    (s : SlotsPage) (x id : String)
    → has id (toggle_select x s).selected
      ≡ (if str_eq x id then not (has id s.selected) else has id s.selected)
unfolding toggle_select
has-toggled s x id =
    ground (arith, has-add id x s.selected, has-remove id x s.selected, eq_iff x id)

-- A click on a row's box changes whether that row is selected, and nothing about any other row; two
-- clicks leave the same rows selected as before.
pub has-toggle_select :
    (s : SlotsPage) (x id : String)
    → (has id (toggle_select x s).selected
        ≡ (if str_eq x id then not (has id s.selected) else has id s.selected))
      × (has id (toggle_select x (toggle_select x s)).selected ≡ has id s.selected)
has-toggle_select s x id =
    (has-toggled s x id, ground (arith, has-toggled (toggle_select x s) x id, has-toggled s x id))

-- As long as only rows of the shown page are selected, none of them twice, and no row is on the
-- page twice, the box in the table's head is checked exactly if there are rows and all of them are
-- selected; a click on it then clears the selection, and otherwise selects exactly the rows of the
-- page.
pub all_checked_lem :
    (s : SlotsPage) (items : List String)
    → distinct s.selected ≡ true
    → distinct items ≡ true
    → IsWithin s.selected items
    → ((all_checked items s ≡ true) ↔ ((items ≢ []) × IsWithin items s.selected))
      × ((id : String)
          → has id (toggle_all (some items) s).selected
            ≡ (if all_checked items s then false else has id items))
unfolding all_checked toggle_all
all_checked_lem s [] once each within =
    (((λ on. ground arith), (λ h. absurd (h.0 refl))), λ id. ground arith)
all_checked_lem s (x ∷ items) once each within = (
  (
    (λ on. ((λ e. cc), IsWithin-back s.selected (x ∷ items) once within (ground arith))),
    (λ h.
        let few = length-le s.selected (x ∷ items) once within in
        let many = length-le (x ∷ items) s.selected each h.1 in ground arith),
  ),
  λ id. ground (arith, has-add_all id (x ∷ items) []),
)
