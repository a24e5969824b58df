-- ===== src/Pages/SlotDetail/Gates.antt =====
-- Who can do what with the notes on portal/src/app/(app)/slots/[id]/page.tsx.
use mutell_demo.Prelude.{
  ◌≡◌, refl, ap, Bool, false, Option, none, some, List, [], ◌∷◌, ◌++◌, All, if_intro,
}
use mutell_demo.Session.{User}
use mutell_demo.Access.{can_create_notes}
use mutell_demo.Types.Note.{Note}
use mutell_demo.Format.{Locale}
use mutell_demo.Screen.{Part, text, clicks, rows, listing}
use mutell_demo.Screen.Clicks.{AllClicks, AllClicks-listing}
use mutell_demo.Pages.SlotDetail.{NotesPanel}
use mutell_demo.Pages.SlotDetail.View.{
  Click, Field, edit, ask_delete, add_note, cancel_note, is_editing, note_card, notes_parts,
}

-- A pencil and a bin for each note.
unfoldable pub pencils : List Note → List Click
pencils [] = []
pencils (n ∷ ns) = edit n ∷ ask_delete n.id ∷ pencils ns

clicks-rows :
    (l : Locale) (updating : Bool) (p : NotesPanel) (ns : List Note)
    → p.editing_note ≡ none
    → clicks (rows (λ (n : Note). n.id) (note_card l updating p) ns) ≡ pencils ns
unfolding clicks rows pencils note_card
clicks-rows l updating p [] idle = refl
clicks-rows l updating p (n ∷ ns) idle =
    rw idle (ap (λ cs. edit n ∷ ask_delete n.id ∷ cs) (clicks-rows l updating p ns idle))

-- Any click but the one that adds a note.
abbrev pub IsOther : Click → Type 0
IsOther add_note = ⊥
IsOther _ = Unit {0}

card-IsOther :
    (l : Locale) (updating : Bool) (p : NotesPanel) (n : Note)
    → AllClicks Field IsOther (note_card l updating p n)
unfolding clicks note_card
card-IsOther l updating p n =
    if_intro (λ (ps : List (Part Click Field)). All IsOther (clicks ps)) (is_editing p n)
      (λ editing.
        if_intro (λ (cs : List Click). All IsOther (cs ++ cancel_note ∷ [])) updating
          (λ busy. (tt, tt)) (λ idle. (tt, (tt, tt))))
      (λ idle. (tt, (tt, tt)))

-- To a user who may not create notes the panel never offers to add one, whatever is loaded, edited
-- or under way. But once there are notes and none is edited, it offers the change and the deletion
-- of each note on the slot, whosever the note is, and no other click.
pub viewer_pencils :
    (l : Locale) (user : Option User) (is_loading creating updating : Bool)
    (notes : Option (List Note)) (panel : NotesPanel) (p : NotesPanel) (n : Note) (ns : List Note)
    → can_create_notes user ≡ false
    → p.editing_note ≡ none
    → All IsOther
        (clicks (notes_parts l (can_create_notes user) is_loading notes creating updating panel))
      × (clicks (notes_parts l (can_create_notes user) false (some (n ∷ ns)) creating updating p)
          ≡ pencils (n ∷ ns))
unfolding notes_parts clicks
viewer_pencils l user is_loading creating updating notes panel p n ns denied idle = (
  rw denied (
      AllClicks-listing Field IsOther (λ (x : Note). x.id) (note_card l updating panel) is_loading
        notes 2 (text "No notes yet" ∷ []) [] tt (card-IsOther l updating panel)),
  rw denied (unfold listing in clicks-rows l updating p (n ∷ ns) idle),
)
