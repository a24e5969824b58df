-- ===== src/Pages/Settings/Notifications.antt =====
-- The switches for notifications, portal/src/app/(app)/settings/notifications/page.tsx, with the
-- server that it writes to. The page shows a change at once, sends all five settings, and puts the
-- settings from before the click back when the request fails.
pub mod Laws
pub mod Lost
mod Tests
use mutell_demo.Prelude.{
  ℕ, zero, suc, String, Bool, true, false, not, Option, none, some, List, [], ◌∷◌, ◌++◌, update,
  if◌then◌else◌,
}
use mutell_demo.Pages.{Toast, failure}
use mutell_demo.Screen.{Part, heading, text, checkbox, bones}

pub data Key : Type 0 where
  email_evaluations email_failures email_reports push_mentions push_weekly_summary : Key

-- `NotificationSettings`
pub record NotificationSettings : Type 0 where
  pub email_evaluations : Bool
  pub email_failures : Bool
  pub email_reports : Bool
  pub push_mentions : Bool
  pub push_weekly_summary : Bool

-- `settings[key]`, and `{ ...settings, [key]: value }`.
unfoldable pub get : Key → NotificationSettings → Bool
get Key.email_evaluations s = s.email_evaluations
get Key.email_failures s = s.email_failures
get Key.email_reports s = s.email_reports
get Key.push_mentions s = s.push_mentions
get Key.push_weekly_summary s = s.push_weekly_summary

unfoldable pub put : Key → Bool → NotificationSettings → NotificationSettings
put Key.email_evaluations v s = record s { email_evaluations = v }
put Key.email_failures v s = record s { email_failures = v }
put Key.email_reports v s = record s { email_reports = v }
put Key.push_mentions v s = record s { push_mentions = v }
put Key.push_weekly_summary v s = record s { push_weekly_summary = v }

-- `DEFAULT_SETTINGS`
abbrev pub default_settings : NotificationSettings
default_settings = record {
  email_evaluations = true;
  email_failures = true;
  email_reports = false;
  push_mentions = true;
  push_weekly_summary = false;
}

-- A `PUT` under way: what it sends, and the settings that its call of `updateSetting` closed over.
pub record Write : Type 0 where
  pub next : NotificationSettings
  pub before : NotificationSettings

-- The page with its requests, by their numbers, and what the server has stored.
pub record NotificationsPage : Type 0 where
  pub settings : NotificationSettings
  pub is_loading : Bool
  pub writes : ℕ → Option Write
  pub sent : ℕ
  pub stored : NotificationSettings
  pub toasts : List Toast

abbrev pub opened : NotificationSettings → NotificationsPage
opened stored = record {
  settings = default_settings;
  is_loading = true;
  writes = λ i. none;
  sent = 0;
  stored = stored;
  toasts = [];
}

-- What happens to the page: the answer to its `GET`, with the settings if there are any, a click on
-- a toggle, and the answer to the `PUT` with the number given, which the server has carried out or not.
pub data Event : Type 0 where
  fetched : Bool → Event
  toggle : Key → Event
  saved refused : ℕ → Event

-- `updateSetting` up to its `await`.
unfoldable pub update_setting : Key → Bool → NotificationsPage → NotificationsPage
unfolding put
update_setting key value p = record p {
  settings = put key value p.settings;
  writes =
      update p.writes p.sent
        (some (record { next = put key value p.settings; before = p.settings }));
  sent = suc p.sent;
}

-- Its end, when the request has failed.
unfoldable pub roll_back : Write → NotificationsPage → NotificationsPage
roll_back w p = record p {
  toasts = p.toasts ++ failure "Failed to save notification setting" ∷ [];
  settings = w.before;
}

-- The toggles are shown when the page has loaded.
unfoldable pub step : Event → NotificationsPage → NotificationsPage
unfolding update_setting roll_back get
step (fetched true) p = record p { settings = p.stored; is_loading = false }
step (fetched false) p = record p { is_loading = false }
step (toggle key) p = if p.is_loading then p else update_setting key (not (get key p.settings)) p
step (saved i) p = elim (p.writes i) as (λ x. NotificationsPage) [
  | none ↦ p
  | some w ↦ record p { stored = w.next; writes = update p.writes i none }
]
step (refused i) p = elim (p.writes i) as (λ x. NotificationsPage) [
  | none ↦ p
  | some w ↦ record (roll_back w p) { writes = update p.writes i none }
]

unfoldable pub run : List Event → NotificationsPage → NotificationsPage
unfolding step
run [] p = p
run (e ∷ es) p = run es (step e p)

-- `Toggle`
unfoldable pub toggle_part : Bool → Key → String → String → List (Part Key Key)
toggle_part enabled key label description = checkbox label key enabled ∷ text description ∷ []

-- The page: its skeleton, or two cards of toggles.
unfoldable pub notifications_view : NotificationsPage → List (Part Key Key)
unfolding toggle_part
notifications_view p =
    heading "Notifications"
    ∷ (if p.is_loading
        then bones 6
        else heading "Email Notifications"
          ∷ text "Configure which email notifications you receive."
          ∷ (toggle_part p.settings.email_evaluations Key.email_evaluations "Evaluation Complete"
                "Get notified when a slot evaluation finishes."
              ++ (toggle_part p.settings.email_failures Key.email_failures "Evaluation Failed"
                    "Get notified when a slot evaluation fails."
                  ++ (toggle_part p.settings.email_reports Key.email_reports "Report Ready"
                        "Get notified when a generated report is ready for download."
                      ++ heading "Push Notifications"
                        ∷ text "Stay informed about team activity."
                        ∷ (toggle_part p.settings.push_mentions Key.push_mentions "Mentions"
                              "Get notified when you are mentioned in notes or comments."
                            ++ toggle_part p.settings.push_weekly_summary Key.push_weekly_summary
                                "Weekly Summary"
                                "Receive a weekly summary of evaluation activity.")))))
