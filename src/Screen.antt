-- ===== src/Screen.antt =====
-- What a page of portal/src/app puts on the screen, as the list of its visible parts in the order
-- of the document: portal/src/components/common, components/ui and components/form. Nesting,
-- styles, icons and placeholders are left out. `A` are the clicks of a page, `F` its fields.
pub mod Colors
pub mod Badges
pub mod Scores
pub mod Charts
pub mod Ranks
mod Tests
pub mod Laws
pub mod Labels
pub mod Clicks
use mutell_demo.Prelude.{
  ℕ, zero, suc, ◌+◌, String, Bool, true, false, not, ◌&&◌, Option, none, some, List, [], ◌∷◌, ◌++◌,
  is_empty, is_truthy, if◌then◌else◌, decimal, ◌+++◌,
}
use mutell_demo.Paging.{Pager, list_pager}
use mutell_demo.Screen.Colors.{Color, ScoreText, Tone}
use mutell_demo.Screen.Badges
use mutell_demo.Screen.Badges.{Badge, status_badge, tag_badge}

-- An item of an `ActionMenu`; `danger` is its variant.
pub record Item (A : Type 0) : Type 0 where
  pub label : String
  pub danger : Bool
  pub action : A

pub data Part (A F : Type 0) : Type 0 where
  heading : String → Part A F
  text : String → Part A F
  -- A text in a colour of its own.
  tinted : Tone → String → Part A F
  badge : Color → String → Part A F
  -- A placeholder while something loads.
  bone : Part A F
  -- Where the row or the card of one item begins, with its key.
  row : String → Part A F
  -- Label, whether it is disabled, what a click does.
  button : String → Bool → A → Part A F
  menu : List (Item A) → Part A F
  -- Label, field, value, whether it is disabled.
  input : String → F → String → Bool → Part A F
  checkbox : String → F → Bool → Part A F
  -- Label, field, the options with their labels, `defaultValue`.
  select : String → F → List (String × String) → String → Part A F
  paging : Pager → Part A F
  -- `StatCard`: label and value.
  stat : String → String → Part A F
  -- `ScoreBar`: label, colour and the text beside it; the width is a style.
  bar : String → Color → String → Part A F
  -- A number of the dashboard in the colour of a score: label, colour, text.
  score_stat : String → ScoreText → String → Part A F
  -- `TagBadge`
  tag : Tone → String → Part A F
  -- A chart; what it draws stands in a record of its own.
  chart : String → Part A F

abbrev pub items_clicks : {A : Type 0} → List (Item A) → List A
items_clicks [] = []
items_clicks (i ∷ is) = i.action ∷ items_clicks is

-- `${title}${data ? ` (${data.total})` : ""}`
unfoldable pub counted : String → Option ℕ → String
unfolding decimal
counted title none = title
counted title (some total) = title +++ (" (" +++ (decimal total +++ ")"))

-- `!!target`
abbrev pub has_target : Option String → Bool
has_target none = false
has_target (some target) = is_truthy target

module _ {A F : Type 0} where
  -- `condition && <...>`
  abbrev pub shown_if : Bool → List (Part A F) → List (Part A F)
  shown_if b parts = if b then parts else []

  -- `Modal`: nothing while it is closed, else its close button and its content.
  unfoldable pub modal : Bool → A → List (Part A F) → List (Part A F)
  modal is_open on_close parts = if is_open then button "×" false on_close ∷ parts else []

  abbrev pub shown_pager : Option Pager → List (Part A F)
  shown_pager none = []
  shown_pager (some pager) = paging pager ∷ []

  -- Below a list: `data && data.total > perPage && <Pagination ...>`
  abbrev pub pager_part : ℕ → Option ℕ → ℕ → List (Part A F)
  pager_part per_page none page = []
  pager_part per_page (some total) page = shown_pager (list_pager per_page total page)

  -- `EmptyState` with a text below the title.
  abbrev pub empty_state : String → String → List (Part A F)
  empty_state title description = heading title ∷ text description ∷ []

  -- `ConfirmDialog` with `cancelLabel` left out.
  unfoldable pub confirm_dialog : Bool → String → String → String → Bool → A → A → List (Part A F)
  unfolding modal
  confirm_dialog is_open title message confirm_label is_loading on_close on_confirm =
      modal is_open on_close (
        heading title
        ∷ text message
        ∷ button "Cancel" is_loading on_close
        ∷ button confirm_label is_loading on_confirm
        ∷ [])

  -- `<StatusBadge status={status} />`
  abbrev pub status_part : String → Part A F
  status_part status = badge (status_badge status).color (status_badge status).label

  -- `tags.map((tag) => <TagBadge tag={tag} />)`
  unfoldable pub tag_parts : List String → List (Part A F)
  unfolding tag_badge
  tag_parts [] = []
  tag_parts (t ∷ ts) = tag (tag_badge t).0 (tag_badge t).1 ∷ tag_parts ts

  -- Short texts in a row, such as the providers of a plan or the head of a table.
  abbrev pub chips : List String → List (Part A F)
  chips [] = []
  chips (s ∷ ss) = text s ∷ chips ss

  abbrev pub bones : ℕ → List (Part A F)
  bones zero = []
  bones (suc n) = bone ∷ bones n

  -- One item after the other, each with its key.
  unfoldable pub rows :
      {T : Type 0} → (T → String) → (T → List (Part A F)) → List T → List (Part A F)
  rows key parts [] = []
  rows key parts (x ∷ xs) = row (key x) ∷ (parts x ++ rows key parts xs)

  -- `isLoading ? <bones> : !items?.length ? <empty> : items.map(...)`, with the head of the table,
  -- if it is one.
  unfoldable pub listing :
      {T : Type 0}
      → Bool
      → Option (List T)
      → ℕ
      → List (Part A F)
      → List String
      → (T → String)
      → (T → List (Part A F))
      → List (Part A F)
  unfolding rows
  listing is_loading none n empty head key parts = if is_loading then bones n else empty
  listing is_loading (some items) n empty head key parts =
      if is_loading
      then bones n
      else if is_empty items
      then empty
      else chips head ++ rows key parts items

  abbrev pub part_clicks : Part A F → List A
  part_clicks (button label disabled action) = if disabled then [] else action ∷ []
  part_clicks (menu items) = items_clicks items
  part_clicks _ = []

  -- What a user can click on.
  unfoldable pub clicks : List (Part A F) → List A
  clicks [] = []
  clicks (p ∷ ps) = part_clicks p ++ clicks ps

  abbrev pub part_keys : Part A F → List String
  part_keys (row key) = key ∷ []
  part_keys _ = []

  -- The keys of the items shown.
  unfoldable pub keys : List (Part A F) → List String
  keys [] = []
  keys (p ∷ ps) = part_keys p ++ keys ps
