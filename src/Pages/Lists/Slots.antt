-- ===== src/Pages/Lists/Slots.antt =====
-- The slots that portal/src/app/(app)/slots/page.tsx shows.
use mutell_demo.Prelude.{
  ℕ, ◌≡◌, refl, ◌∙◌, ap, String, Bool, true, false, Option, none, some, List, [], ◌∷◌, ◌++◌, ◌&&◌,
  ltb, length, ◌+++◌, decimal, if◌then◌else◌, arith,
}
use mutell_demo.Types.Slot.{Slot}
use mutell_demo.Types.Terminal.{Terminal}
use mutell_demo.Format.{Locale, truncate}
use mutell_demo.Screen.{
  Part, keys, chips, bones, rows, shown_if, pager_part, confirm_dialog, empty_state, button,
  checkbox,
}
use mutell_demo.Screen.Scores.{Scores}
use mutell_demo.Screen.Laws.{no_keys, keys-shown_if, keys-chips, keys-bones, keys-tag_parts}
use mutell_demo.Screen.Labels.{
  labels, first_text, labels-skip, labels-none, labels-rows, assoc, loaded,
}
use mutell_demo.Pages.Slots
use mutell_demo.Pages.Slots.{SlotsPage}
use mutell_demo.Pages.Slots.View as Slots_view
use mutell_demo.Pages.Slots.View.{SlotListResponse, Click, Field}

abbrev columns : List String
columns = "ID" ∷ "Status" ∷ "Score" ∷ "Tags" ∷ "Duration" ∷ "Words" ∷ "Created" ∷ []

abbrev nothing_found : List (Part Click Field)
nothing_found = empty_state "No slots found" "No evaluation sessions match your current filters."

-- The box in the head of the table.
abbrev head_box : Bool → List String → SlotsPage → List (Part Click Field)
head_box is_admin ids p =
    shown_if is_admin (checkbox "" Slots_view.all (Slots.all_checked ids p) ∷ [])

abbrev count : SlotsPage → String
count p = decimal (length p.selected)

abbrev bulk_button : Bool → SlotsPage → List (Part Click Field)
bulk_button is_admin p =
    shown_if (is_admin && ltb 0 (length p.selected))
      (button ("Re-evaluate (" +++ (count p +++ ")")) false Slots_view.ask_bulk ∷ [])

bulk_button-keys : (is_admin : Bool) (p : SlotsPage) → keys (bulk_button is_admin p) ≡ []
unfolding keys
bulk_button-keys is_admin p =
    keys-shown_if (is_admin && ltb 0 (length p.selected))
      (button ("Re-evaluate (" +++ (count p +++ ")")) false Slots_view.ask_bulk ∷ []) refl

-- What comes after the list.
abbrev ending : Option ℕ → Bool → SlotsPage → List (Part Click Field)
ending total busy p =
    pager_part Slots_view.per_page total p.page
    ++ confirm_dialog p.bulk_confirm "Bulk Re-evaluate"
        ("Are you sure you want to re-evaluate " +++ (count p +++ " selected slots?")) "Re-evaluate"
        busy Slots_view.close_bulk Slots_view.confirm_bulk

ending-keys : (total : Option ℕ) (busy : Bool) (p : SlotsPage) → keys (ending total busy p) ≡ []
ending-keys total busy p = simp no_keys

module _ {W : Type 0} ⦃s : Scores W⦄ where
  abbrev pub slots_of : Option (SlotListResponse W) → Option (List (Slot W))
  slots_of none = none
  slots_of (some r) = some r.items

  score_cell-keys : (score : Option W) → keys (Slots_view.score_cell score) ≡ []
  unfolding keys Slots_view.score_cell
  score_cell-keys none = refl
  score_cell-keys (some x) = refl

  slot_row-keys :
      (l : Locale) (is_admin : Bool) (p : SlotsPage) (x : Slot W)
      → keys (Slots_view.slot_row l is_admin p x) ≡ []
  unfolding keys Slots_view.slot_row
  slot_row-keys l true p x = simp (no_keys, score_cell-keys x.score_overall, keys-tag_parts)
  slot_row-keys l false p x = simp (no_keys, score_cell-keys x.score_overall, keys-tag_parts)

  slot_row-named :
      (l : Locale) (is_admin : Bool) (p : SlotsPage) (x : Slot W) (ps : List (Part Click Field))
      → first_text (Slots_view.slot_row l is_admin p x ++ ps) ≡ truncate x.id 8
  unfolding Slots_view.slot_row
  slot_row-named l true p x ps = refl
  slot_row-named l false p x ps = refl

  abbrev slot_rows : Locale → Bool → SlotsPage → List (Slot W) → List (Part Click Field)
  slot_rows l is_admin p xs = rows (λ (x : Slot W). x.id) (Slots_view.slot_row l is_admin p) xs

  -- The table, with what comes after it.
  table-labels :
      (l : Locale) (is_admin : Bool) (p : SlotsPage) (xs : List (Slot W))
      (after : List (Part Click Field))
      → keys after ≡ []
      → labels (Slots_view.slots_table l is_admin p xs ++ after)
        ≡ loaded false (λ (x : Slot W). (x.id, truncate x.id 8)) (some xs)
  unfolding Slots_view.slots_table
  table-labels l is_admin p xs after ends =
      ap labels (
        assoc (head_box is_admin (Slots_view.ids xs) p) (chips columns ++ slot_rows l is_admin p xs)
          after)
      ∙ (labels-skip (head_box is_admin (Slots_view.ids xs) p) _ (
            keys-shown_if is_admin
              (checkbox "" Slots_view.all (Slots.all_checked (Slots_view.ids xs) p) ∷ [])
              (unfold keys in refl))
          ∙ (ap labels (assoc (chips columns) (slot_rows l is_admin p xs) after)
              ∙ (labels-skip (chips columns) _ (keys-chips Click Field columns)
                  ∙ labels-rows (λ (x : Slot W). x.id) (λ (x : Slot W). truncate x.id 8)
                      (Slots_view.slot_row l is_admin p) after (slot_row-keys l is_admin p)
                      (slot_row-named l is_admin p) ends xs)))

  -- What is below the filters, with what comes after it.
  abbrev body : Locale → Bool → Bool → SlotsPage → List (Slot W) → List (Part Click Field)
  body l is_admin is_loading p xs =
      if is_loading
      then bones 5
      else if ltb 0 (length xs)
      then Slots_view.slots_table l is_admin p xs
      else nothing_found

  body-labels :
      (l : Locale) (is_admin is_loading : Bool) (p : SlotsPage) (xs : List (Slot W))
      (after : List (Part Click Field))
      → keys after ≡ []
      → labels (body l is_admin is_loading p xs ++ after)
        ≡ loaded is_loading (λ (x : Slot W). (x.id, truncate x.id 8)) (some xs)
  body-labels l is_admin true p xs after ends =
      labels-none (bones 5) after (keys-bones Click Field 5) ends
  body-labels l is_admin false p [] after ends =
      labels-none nothing_found after (unfold keys in refl) ends
  body-labels l is_admin false p (x ∷ xs) after ends =
      let some_there : ltb 0 (length (x ∷ xs)) ≡ true = ground arith in
      rw some_there (table-labels l is_admin p (x ∷ xs) after ends)

  pub slot_labels :
      (l : Locale) (is_admin is_loading : Bool) (response : Option (SlotListResponse W))
      (terminals : Option (List Terminal)) (busy : Bool) (p : SlotsPage)
      → labels (Slots_view.slots_view l is_admin is_loading response terminals busy p)
        ≡ loaded is_loading (λ (x : Slot W). (x.id, truncate x.id 8)) (slots_of response)
  unfolding keys labels Slots_view.slots_view
  slot_labels l is_admin true none terminals busy p =
      labels-skip (bulk_button is_admin p) _ (bulk_button-keys is_admin p)
      ∙ labels-none (bones 5) (ending none busy p) (keys-bones Click Field 5)
          (ending-keys none busy p)
  slot_labels l is_admin false none terminals busy p =
      labels-skip (bulk_button is_admin p) _ (bulk_button-keys is_admin p)
      ∙ labels-none nothing_found (ending none busy p) refl (ending-keys none busy p)
  slot_labels l is_admin is_loading (some r) terminals busy p =
      labels-skip (bulk_button is_admin p) _ (bulk_button-keys is_admin p)
      ∙ body-labels l is_admin is_loading p r.items (ending (some r.total) busy p)
          (ending-keys (some r.total) busy p)
