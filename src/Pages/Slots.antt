-- ===== src/Pages/Slots.antt =====
-- The list of slots, portal/src/app/(app)/slots/page.tsx: filters, pages and the selection.
pub mod Selection
pub mod View
mod Tests
use mutell_demo.Prelude.{
  ℕ, ◌≡◌, String, Bool, true, false, not, ◌&&◌, Option, none, some, List, [], ◌∷◌, ◌++◌, any,
  length, ◌==◌, ltb, is_empty, str_eq, or_undefined, if◌then◌else◌,
}
use mutell_demo.Types.Slot.{BulkReEvaluateRequest}
use mutell_demo.Pages.{Answer, ok, err}

-- A JavaScript `Set` of ids, in the order of insertion.
abbrev pub has : String → List String → Bool
has id ids = any (λ x. str_eq x id) ids

-- `add`
unfoldable pub add : String → List String → List String
add id ids = if has id ids then ids else ids ++ id ∷ []

-- `delete`
unfoldable pub remove : String → List String → List String
remove id [] = []
remove id (x ∷ ids) = if str_eq x id then remove id ids else x ∷ remove id ids

-- `new Set(ids)`
unfoldable pub add_all : List String → List String → List String
unfolding add
add_all [] set = set
add_all (x ∷ ids) set = add_all ids (add x set)

-- The state of `SlotsPage`.
pub record SlotsPage : Type 0 where
  pub page : ℕ
  pub status : String
  pub terminal_id : String
  pub selected : List String
  pub bulk_confirm : Bool

abbrev pub opened : SlotsPage
opened = record { page = 1; status = ""; terminal_id = ""; selected = []; bulk_confirm = false }

-- The filters' `onChange`.
abbrev pub set_status : String → SlotsPage → SlotsPage
set_status v s = record s { status = v; page = 1 }

abbrev pub set_terminal : String → SlotsPage → SlotsPage
set_terminal v s = record s { terminal_id = v; page = 1 }

abbrev pub set_page : ℕ → SlotsPage → SlotsPage
set_page page s = record s { page = page }

-- `toggleSelect`
unfoldable pub toggle_select : String → SlotsPage → SlotsPage
unfolding add remove
toggle_select id s = record s {
  selected = if has id s.selected then remove id s.selected else add id s.selected;
}

-- `toggleAll`; `items` are the ids on the page that is shown, `none` before it has come.
unfoldable pub toggle_all : Option (List String) → SlotsPage → SlotsPage
unfolding add_all
toggle_all none s = s
toggle_all (some items) s =
    if length s.selected == length items
    then record s { selected = [] }
    else record s { selected = add_all items [] }

-- The box in the table's head, which stands there only if there are items.
unfoldable pub all_checked : List String → SlotsPage → Bool
all_checked items s = ltb 0 (length items) && length s.selected == length items

-- The button that asks for it, and the dialog's "Cancel".
abbrev pub set_confirm : Bool → SlotsPage → SlotsPage
set_confirm asked s = record s { bulk_confirm = asked }

-- `handleBulkReEvaluate`, and what its own `onSuccess` does.
abbrev pub bulk_request : SlotsPage → BulkReEvaluateRequest
bulk_request s = record { slot_ids = s.selected }

unfoldable pub bulk_finish : {A : Type 0} → Answer A → SlotsPage → SlotsPage
bulk_finish (ok _) s = record s { selected = []; bulk_confirm = false }
bulk_finish (err f) s = s

pub data Action : Type 0 where
  toggles : String → Action
  toggles_all : List String → Action
  filters_status : String → Action
  filters_terminal : String → Action
  turns_to : ℕ → Action
  confirms : Bool → Action
  finishes : Answer (Unit {0}) → Action

unfoldable pub act : SlotsPage → Action → SlotsPage
unfolding toggle_select toggle_all bulk_finish
act s (toggles id) = toggle_select id s
act s (toggles_all items) = toggle_all (some items) s
act s (filters_status v) = set_status v s
act s (filters_terminal v) = set_terminal v s
act s (turns_to page) = set_page page s
act s (confirms asked) = set_confirm asked s
act s (finishes a) = bulk_finish a s
