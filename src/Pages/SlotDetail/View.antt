-- ===== src/Pages/SlotDetail/View.antt =====
-- What portal/src/app/(app)/slots/[id]/page.tsx shows: the slot, its evaluation and its notes.
use mutell_demo.Prelude.{
  String, Bool, false, ◌||◌, Option, none, some, List, [], ◌∷◌, ◌++◌, is_truthy, is_empty, is_blank,
  if◌then◌else◌, str_eq, ◌==◌, ◌+++◌,
}
use mutell_demo.Types.{slot_status_text}
use mutell_demo.Types.Note.{Note}
use mutell_demo.Types.Slot.{SlotDetail, Evaluation}
use mutell_demo.Format.{Locale, format_relative_time, format_duration, truncate}
use mutell_demo.Screen.Scores.{Scores, format_percent}
use mutell_demo.Screen.{
  Part, heading, text, stat, button, input, shown_if, bones, listing, status_part, tag_parts,
  confirm_dialog, has_target,
}
use mutell_demo.Pages.SlotDetail.{NotesPanel}
use mutell_demo.Pages.SlotDetail.Evaluation.{score_parts, detail_parts}

pub data Click : Type 0 where
  back re_evaluate add_note save_note cancel_note close_delete confirm_delete : Click
  edit : Note → Click
  ask_delete : String → Click

pub data Field : Type 0 where
  note_text edit_text : Field

-- `editingNote?.id === note.id`
abbrev pub is_editing : NotesPanel → Note → Bool
is_editing p n = elim p.editing_note as (λ x. Bool) [
  | none ↦ false
  | some editing ↦ str_eq editing.id n.id
]

-- One note: while it is edited its field, else its text with a pencil and a bin.
unfoldable pub note_card : Locale → Bool → NotesPanel → Note → List (Part Click Field)
unfolding format_relative_time
note_card l updating p n =
    if is_editing p n
    then input "" edit_text p.edit_text false
      ∷ button (if updating then "Saving..." else "Save") updating save_note
      ∷ button "Cancel" false cancel_note
      ∷ []
    else text n.content
      ∷ text (format_relative_time l n.created_at)
      ∷ button "" false (edit n)
      ∷ button "" false (ask_delete n.id)
      ∷ []

-- The panel of notes, for a user who may create notes, or may not.
unfoldable pub notes_parts :
    Locale → Bool → Bool → Option (List Note) → Bool → Bool → NotesPanel → List (Part Click Field)
unfolding listing note_card
notes_parts l can_note is_loading notes creating updating p =
    heading "Notes"
    ∷ (shown_if can_note (
          input "" note_text p.note_text false
          ∷ button (if creating then "Adding..." else "Add") (is_blank p.note_text || creating)
              add_note
          ∷ [])
        ++ listing is_loading notes 2 (text "No notes yet" ∷ []) [] (λ (n : Note). n.id)
            (note_card l updating p))

-- `Object.entries(metadata).map(([k, v]) => `${k}: ${v}`).join(" · ")`
unfoldable pub joined : List (String × String) → String
joined [] = ""
joined ((k, v) ∷ []) = k +++ (": " +++ v)
joined ((k, v) ∷ (e ∷ es)) = (k +++ (": " +++ v)) +++ (" · " +++ joined (e ∷ es))

-- Which requests of the page are under way.
pub record Busy : Type 0 where
  pub re_evaluating : Bool
  pub creating : Bool
  pub updating : Bool
  pub deleting : Bool

module _ {W : Type 0} ⦃s : Scores W⦄ where
  -- `ev?.score_overall != null ? formatPercent(ev.score_overall) : "—"`
  unfoldable pub overall_text : Option (Evaluation W) → String
  unfolding format_percent
  overall_text none = "—"
  overall_text (some ev) = elim ev.score_overall as (λ x. String) [
    | none ↦ "—"
    | some x ↦ format_percent x
  ]

  -- The head of the page: its buttons, its three numbers, and the state of the slot.
  unfoldable pub head_parts :
      (String → String) → String → Bool → Bool → SlotDetail W → List (Part Click Field)
  unfolding overall_text joined tag_parts truncate format_duration
  head_parts long_date id is_admin re_evaluating d =
      heading ("Slot " +++ truncate id 8)
      ∷ button "Back" false back
      ∷ (shown_if is_admin (
            button (if re_evaluating then "Re-evaluating..." else "Re-evaluate") re_evaluating
              re_evaluate
            ∷ [])
          ++ stat "Overall Score" (overall_text d.evaluation)
            ∷ stat "Duration"
                (if d.slot.duration_secs == 0 then "—" else format_duration d.slot.duration_secs)
            ∷ stat "Status" ""
            ∷ status_part (slot_status_text d.slot.status)
            ∷ text (long_date d.slot.created_at)
            ∷ (tag_parts d.slot.tags ++ elim d.slot.metadata as (λ x. List (Part Click Field)) [
              | none ↦ []
              | some entries ↦ if is_empty entries then [] else text (joined entries) ∷ []
            ]))

  -- The page for the slot with the id of the path; `long_date` is `format` with "PPpp".
  unfoldable pub detail_view :
      Locale
      → (String → String)
      → String
      → Bool
      → Bool
      → Bool
      → Option (SlotDetail W)
      → Bool
      → Option (List Note)
      → Busy
      → NotesPanel
      → List (Part Click Field)
  unfolding head_parts score_parts detail_parts notes_parts confirm_dialog
  detail_view l long_date id is_admin can_note is_loading none notes_loading notes busy p =
      if is_loading
      then heading "Loading..." ∷ bones 3
      else heading "Not Found" ∷ text "Slot not found" ∷ button "Go back" false back ∷ []
  detail_view l long_date id is_admin can_note is_loading (some d) notes_loading notes busy p =
      if is_loading
      then heading "Loading..." ∷ bones 3
      else head_parts long_date id is_admin busy.re_evaluating d
        ++ (elim d.evaluation as (λ x. List (Part Click Field)) [
          | none ↦ []
          | some ev ↦ score_parts ev ++ detail_parts ev
        ]
            ++ (shown_if (is_truthy d.raw_text) (heading "Transcript" ∷ text d.raw_text ∷ [])
                ++ (notes_parts l can_note notes_loading notes busy.creating busy.updating p
                    ++ confirm_dialog (has_target p.delete_target) "Delete Note"
                        "Are you sure you want to delete this note? This action cannot be undone."
                        "Delete" busy.deleting close_delete confirm_delete)))
