-- ===== src/Screen/Labels.antt =====
-- The items that a screen shows, each with the text that its row begins with.
use mutell_demo.Prelude.{
  ℕ, ◌≡◌, refl, ◌∙◌, sym, ap, String, Bool, true, false, Option, none, some, List, [], ◌∷◌, ◌++◌,
  map,
}
use mathlib.Core.List.{append_assoc, append-nil}
use mutell_demo.Screen.{
  Part, heading, text, row, button, checkbox, keys, rows, listing, chips, bones,
}
use mutell_demo.Screen.Laws.{keys-chips, keys-bones}

module _ {A F : Type 0} where
  -- The first text, title or button; a box to tick may stand before it.
  abbrev pub first_text : List (Part A F) → String
  first_text [] = ""
  first_text (text t ∷ ps) = t
  first_text (heading t ∷ ps) = t
  first_text (button label disabled action ∷ ps) = label
  first_text (checkbox label field value ∷ ps) = first_text ps
  first_text (_ ∷ ps) = ""

  abbrev pub label_of : Part A F → String → List (String × String)
  label_of (row key) begins = (key, begins) ∷ []
  label_of _ begins = []

  -- The key of each item, and what its row begins with.
  unfoldable pub labels : List (Part A F) → List (String × String)
  labels [] = []
  labels (p ∷ ps) = label_of p (first_text ps) ++ labels ps

  -- Parts without an item change nothing.
  pub labels-skip : (ps qs : List (Part A F)) → keys ps ≡ [] → labels (ps ++ qs) ≡ labels qs
  unfolding keys labels
  labels-skip [] qs h = refl
  labels-skip (row key ∷ ps) qs h = cc
  labels-skip (_ ∷ ps) qs h = labels-skip ps qs h

  pub labels-plain : (ps : List (Part A F)) → keys ps ≡ [] → labels ps ≡ []
  unfolding keys labels
  labels-plain [] h = refl
  labels-plain (row key ∷ ps) h = cc
  labels-plain (_ ∷ ps) h = labels-plain ps h

-- Nothing is shown by parts without an item.
pub labels-none :
    {A F : Type 0} (ps qs : List (Part A F)) → keys ps ≡ [] → keys qs ≡ [] → labels (ps ++ qs) ≡ []
labels-none ps qs h k = labels-skip ps qs h ∙ labels-plain qs k

append_nil : {A F : Type 0} (ps : List (Part A F)) → ps ++ [] ≡ ps
append_nil ps = simp append-nil

pub assoc : {A F : Type 0} (ps qs rs : List (Part A F)) → (ps ++ qs) ++ rs ≡ ps ++ (qs ++ rs)
assoc ps qs rs = simp append_assoc

-- What a list has to show: nothing while it loads.
abbrev pub loaded : {T B : Type 0} → Bool → (T → B) → Option (List T) → List B
loaded true f items = []
loaded false f none = []
loaded false f (some items) = map f items

module _ {A F T : Type 0} (key name : T → String) (parts : T → List (Part A F))
    (after : List (Part A F)) (plain : (x : T) → keys (parts x) ≡ [])
    (named : (x : T) (ps : List (Part A F)) → first_text (parts x ++ ps) ≡ name x)
    (ends : keys after ≡ []) where
  abbrev label : T → String × String
  label x = (key x, name x)

  pub labels-rows : (xs : List T) → labels (rows key parts xs ++ after) ≡ map label xs
  unfolding labels rows
  labels-rows [] = labels-plain after ends
  labels-rows (x ∷ xs) =
      ap (λ (l : List (Part A F)). (key x, first_text l) ∷ labels l)
        (assoc (parts x) (rows key parts xs) after)
      ∙ (λ i.
          (key x, named x (rows key parts xs ++ after) i)
          ∷ (labels-skip (parts x) (rows key parts xs ++ after) (plain x) ∙ labels-rows xs) i)

  -- A list shows its items in their order, each under its own key and with its own name, and none
  -- while it loads.
  pub labels-listing :
      (is_loading : Bool) (items : Option (List T)) (n : ℕ) (empty : List (Part A F))
      (head : List String)
      → keys empty ≡ []
      → labels (listing is_loading items n empty head key parts ++ after)
        ≡ loaded is_loading label items
  unfolding listing
  labels-listing true none n empty head h = labels-none (bones n) after (keys-bones A F n) ends
  labels-listing true (some items) n empty head h =
      labels-none (bones n) after (keys-bones A F n) ends
  labels-listing false none n empty head h = labels-none empty after h ends
  labels-listing false (some []) n empty head h = labels-none empty after h ends
  labels-listing false (some (x ∷ xs)) n empty head h =
      ap labels (assoc (chips head) (rows key parts (x ∷ xs)) after)
      ∙ (labels-skip (chips head) (rows key parts (x ∷ xs) ++ after) (keys-chips A F head)
          ∙ labels-rows (x ∷ xs))

-- The same where the list comes last on the screen.
pub labels-listing_last :
    {A F T : Type 0} (key name : T → String) (parts : T → List (Part A F))
    (plain : (x : T) → keys (parts x) ≡ [])
    (named : (x : T) (ps : List (Part A F)) → first_text (parts x ++ ps) ≡ name x)
    (is_loading : Bool) (items : Option (List T)) (n : ℕ) (empty : List (Part A F))
    (head : List String)
    → keys empty ≡ []
    → labels (listing is_loading items n empty head key parts)
      ≡ loaded is_loading (λ x. (key x, name x)) items
labels-listing_last key name parts plain named is_loading items n empty head h =
    ap labels (sym (append_nil (listing is_loading items n empty head key parts)))
    ∙ labels-listing key name parts [] plain named (unfold keys in refl) is_loading items n empty
        head h
