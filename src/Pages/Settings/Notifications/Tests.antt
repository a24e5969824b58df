-- ===== src/Pages/Settings/Notifications/Tests.antt =====
-- The notification settings of a user who has turned the weekly summary on.
use mutell_demo.Prelude.{◌≡◌, refl, Bool, true, false, List, [], ◌∷◌}
use mutell_demo.Pages.Settings.Notifications.{
  NotificationsPage, NotificationSettings, Key, fetched, toggle, saved, refused, opened,
  default_settings, put, get, run,
}
use mutell_demo.Pages.Settings.Notifications.Laws.{InSync, take_turns, flipped, in_turn}
use mutell_demo.Pages.Settings.Notifications.Lost.{lost_settings}

abbrev settings : NotificationSettings
settings = record default_settings { push_weekly_summary = true; email_failures = false }

abbrev page : NotificationsPage
page = record (opened settings) { settings = settings; is_loading = false }

page-InSync : InSync page
page-InSync = record { loaded = refl; same = refl }

abbrev turns : List (Key × Bool)
turns = (Key.email_reports, true) ∷ (Key.push_mentions, false) ∷ []

in_turn_example :
    ((take_turns turns page).settings ≡ flipped turns settings)
    × ((take_turns turns page).stored ≡ flipped turns settings)
in_turn_example = in_turn turns page page-InSync

abbrev both : NotificationSettings
both = record settings { email_reports = true; push_mentions = false }

lost_settings_example :
    ((run
        (toggle Key.email_reports ∷ toggle Key.push_mentions ∷ refused 0 ∷ saved 1 ∷ [])
        page).settings
      ≡ settings)
    × ((run
          (toggle Key.email_reports ∷ toggle Key.push_mentions ∷ refused 0 ∷ saved 1 ∷ [])
          page).stored
        ≡ both)
    × ((run (fetched false ∷ toggle Key.email_reports ∷ saved 0 ∷ []) (opened settings)).stored
        ≡ record default_settings { email_reports = true })
unfolding put get
lost_settings_example = lost_settings page Key.email_reports Key.push_mentions page-InSync
