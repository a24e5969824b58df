-- ===== src/Screen/Laws.antt =====
-- The parts of a screen that show no items.
use mutell_demo.Prelude.{
  ℕ, zero, suc, ◌≡◌, refl, String, Bool, true, false, Option, none, some, List, [], ◌∷◌, ◌++◌,
}
use mathlib.Core.List.{append_assoc, append-nil}
use mutell_demo.Paging.{Pager, list_pager}
use mutell_demo.Screen.{
  Part, keys, modal, chips, bones, shown_if, tag_parts, shown_pager, pager_part, confirm_dialog,
}

module _ (A F : Type 0) where
  pub keys-chips : (ss : List String) → keys (chips {A = A} {F = F} ss) ≡ []
  unfolding keys
  keys-chips [] = refl
  keys-chips (s ∷ ss) = keys-chips ss

  pub keys-tag_parts : (ts : List String) → keys (tag_parts {A = A} {F = F} ts) ≡ []
  unfolding keys tag_parts
  keys-tag_parts [] = refl
  keys-tag_parts (t ∷ ts) = keys-tag_parts ts

  pub keys-bones : (n : ℕ) → keys (bones {A = A} {F = F} n) ≡ []
  unfolding keys
  keys-bones zero = refl
  keys-bones (suc n) = keys-bones n

  pub keys-confirm_dialog :
      (is_open : Bool) (title message label : String) (busy : Bool) (on_close on_confirm : A)
      → keys (confirm_dialog {F = F} is_open title message label busy on_close on_confirm) ≡ []
  unfolding keys confirm_dialog
  keys-confirm_dialog true title message label busy on_close on_confirm = refl
  keys-confirm_dialog false title message label busy on_close on_confirm = refl

  keys-shown_pager : (pager : Option Pager) → keys (shown_pager {A = A} {F = F} pager) ≡ []
  unfolding keys
  keys-shown_pager none = refl
  keys-shown_pager (some pager) = refl

  pub keys-pager_part :
      (per_page : ℕ) (total : Option ℕ) (page : ℕ)
      → keys (pager_part {A = A} {F = F} per_page total page) ≡ []
  keys-pager_part per_page none page = unfold keys in refl
  keys-pager_part per_page (some total) page = keys-shown_pager (list_pager per_page total page)

module _ {A F : Type 0} where
  pub keys-append : (ps qs : List (Part A F)) → keys (ps ++ qs) ≡ keys ps ++ keys qs
  unfolding keys
  keys-append [] qs = refl
  keys-append (p ∷ ps) qs = simp (append_assoc, keys-append ps qs)

  pub keys-modal :
      (is_open : Bool) (on_close : A) (ps : List (Part A F))
      → keys ps ≡ []
      → keys (modal is_open on_close ps) ≡ []
  unfolding keys modal
  keys-modal true on_close ps h = h
  keys-modal false on_close ps h = refl

  pub keys-shown_if : (b : Bool) (ps : List (Part A F)) → keys ps ≡ [] → keys (shown_if b ps) ≡ []
  unfolding keys
  keys-shown_if true ps h = h
  keys-shown_if false ps h = refl

-- The parts of a page that show no items.
pub ruleset no_keys =
    (append_assoc, append-nil, keys-append, keys-chips, keys-confirm_dialog, keys-pager_part)
