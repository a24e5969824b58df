-- ===== src/Screen/Clicks.antt =====
-- What can be clicked on a screen that is put together from parts.
use mutell_demo.Prelude.{
  ℕ, zero, suc, ◌≡◌, refl, String, Bool, true, false, Option, none, some, List, [], ◌∷◌, ◌++◌, All,
}
use mathlib.Core.List.{append_assoc}
use mutell_demo.Paging.{Pager, list_pager}
use mutell_demo.Screen.{Part, clicks, rows, listing, chips, bones, shown_pager, pager_part}

-- A click among those that are offered.
pub data Offered {A : Type 0} (c : A) : List A → Type 0 where
  first : (cs : List A) → Offered c (c ∷ cs)
  later : (d : A) {cs : List A} → Offered c cs → Offered c (d ∷ cs)

pub All-Offered :
    {A : Type 0} (P : A → Type 0) {c : A} {cs : List A} → All P cs → Offered c cs → P c
All-Offered P h (first cs) = h.0
All-Offered P h (later d o) = All-Offered P h.1 o

pub All-append :
    {A : Type 0} (P : A → Type 0) (xs ys : List A) → All P xs → All P ys → All P (xs ++ ys)
All-append P [] ys h k = k
All-append P (x ∷ xs) ys h k = (h.0, All-append P xs ys h.1 k)

pub clicks-append :
    {A F : Type 0} (ps qs : List (Part A F)) → clicks (ps ++ qs) ≡ clicks ps ++ clicks qs
unfolding clicks
clicks-append [] qs = refl
clicks-append (p ∷ ps) qs = simp (append_assoc, clicks-append ps qs)

-- A property of all clicks of a screen, part by part.
module _ {A : Type 0} (F : Type 0) (P : A → Type 0) where
  abbrev pub AllClicks : List (Part A F) → Type 0
  AllClicks ps = All P (clicks ps)

  pub AllClicks-append :
      (ps qs : List (Part A F)) → AllClicks ps → AllClicks qs → AllClicks (ps ++ qs)
  AllClicks-append ps qs h k = rw (clicks-append ps qs) (All-append P (clicks ps) (clicks qs) h k)

  pub AllClicks-chips : (ss : List String) → AllClicks (chips ss)
  unfolding clicks
  AllClicks-chips [] = tt
  AllClicks-chips (s ∷ ss) = AllClicks-chips ss

  pub AllClicks-bones : (n : ℕ) → AllClicks (bones n)
  unfolding clicks
  AllClicks-bones zero = tt
  AllClicks-bones (suc n) = AllClicks-bones n

  AllClicks-shown_pager : (pager : Option Pager) → AllClicks (shown_pager pager)
  unfolding clicks
  AllClicks-shown_pager none = tt
  AllClicks-shown_pager (some pager) = tt

  pub AllClicks-pager_part :
      (per_page : ℕ) (total : Option ℕ) (page : ℕ) → AllClicks (pager_part per_page total page)
  AllClicks-pager_part per_page none page = unfold clicks in tt
  AllClicks-pager_part per_page (some total) page =
      AllClicks-shown_pager (list_pager per_page total page)

  module _ {T : Type 0} (key : T → String) (parts : T → List (Part A F)) where
    AllClicks-rows : ((x : T) → AllClicks (parts x)) → (xs : List T) → AllClicks (rows key parts xs)
    unfolding clicks rows
    AllClicks-rows each [] = tt
    AllClicks-rows each (x ∷ xs) =
        AllClicks-append (parts x) (rows key parts xs) (each x) (AllClicks-rows each xs)

    pub AllClicks-listing :
        (is_loading : Bool) (items : Option (List T)) (n : ℕ) (empty : List (Part A F))
        (head : List String)
        → AllClicks empty
        → ((x : T) → AllClicks (parts x))
        → AllClicks (listing is_loading items n empty head key parts)
    unfolding listing
    AllClicks-listing true none n empty head h each = AllClicks-bones n
    AllClicks-listing true (some items) n empty head h each = AllClicks-bones n
    AllClicks-listing false none n empty head h each = h
    AllClicks-listing false (some []) n empty head h each = h
    AllClicks-listing false (some (x ∷ xs)) n empty head h each =
        AllClicks-append (chips head) (rows key parts (x ∷ xs)) (AllClicks-chips head)
          (AllClicks-rows each (x ∷ xs))
