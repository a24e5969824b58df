-- ===== src/Pages/Settings/Notifications/Laws.antt =====
-- Changes of portal/src/app/(app)/settings/notifications/page.tsx, one after the other.
use mutell_demo.Prelude.{
  ◌≡◌, refl, ◌∙◌, ap, Bool, true, false, not, List, [], ◌∷◌, if◌then◌else◌, arith,
}
use mutell_demo.Pages.Settings.Notifications.{
  NotificationsPage, NotificationSettings, Key, Event, toggle, saved, refused, get, put, step, run,
  update_setting, roll_back,
}

-- A click on a toggle whose request is answered before the next click.
abbrev pub turn : Key → Bool → NotificationsPage → List Event
turn key ok p = toggle key ∷ (if ok then saved p.sent else refused p.sent) ∷ []

unfoldable pub take_turns : List (Key × Bool) → NotificationsPage → NotificationsPage
unfolding run
take_turns [] p = p
take_turns ((key, ok) ∷ ts) p = take_turns ts (run (turn key ok p) p)

-- What the settings come to: a request that succeeds turns its setting over.
unfoldable pub flipped : List (Key × Bool) → NotificationSettings → NotificationSettings
flipped [] s = s
flipped ((key, ok) ∷ ts) s = flipped ts (if ok then put key (not (get key s)) s else s)

-- The page is loaded and shows what the server has stored.
pub record InSync (p : NotificationsPage) : Type 0 where
  pub loaded : p.is_loading ≡ false
  pub same : p.stored ≡ p.settings

turn-InSync :
    (key : Key) (ok : Bool) (p : NotificationsPage)
    → InSync p
    → InSync (run (turn key ok p) p)
      × ((run (turn key ok p) p).settings
          ≡ (if ok then put key (not (get key p.settings)) p.settings else p.settings))
unfolding run step update_setting roll_back
turn-InSync key true p s = ground (arith)
turn-InSync key false p s = ground (arith)

-- From a loaded page that shows what is stored, after any changes of which each is answered before
-- the next, by success or failure: the page shows again what is stored, and that is what the
-- successful changes alone come to.
pub in_turn :
    (turns : List (Key × Bool)) (p : NotificationsPage)
    → InSync p
    → ((take_turns turns p).settings ≡ flipped turns p.settings)
      × ((take_turns turns p).stored ≡ flipped turns p.settings)
unfolding take_turns flipped
in_turn [] p s = (refl, s.same)
in_turn ((key, ok) ∷ ts) p s =
    let (next, settings) = turn-InSync key ok p s in
    let (shown, stored) = in_turn ts (run (turn key ok p) p) next in
    (shown ∙ ap (flipped ts) settings, stored ∙ ap (flipped ts) settings)
