-- ===== src/Pages/Settings/Notifications/Lost.antt =====
-- How settings are lost on portal/src/app/(app)/settings/notifications/page.tsx.
use mutell_demo.Prelude.{suc, ◌≡◌, false, not, [], ◌∷◌, arith}
use mutell_demo.Pages.Settings.Notifications.{
  NotificationsPage, Key, fetched, toggle, saved, refused, opened, default_settings, get, put, step,
  run, update_setting, roll_back,
}
use mutell_demo.Pages.Settings.Notifications.Laws.{InSync}

-- From a loaded page that shows what is stored, two settings are changed, the second before the
-- answer to the first; then the first request is refused and the second carried out. The page shows both settings as they were at first, while the
-- server has stored both as changed. And when the settings could not be fetched, the first change
-- stores the defaults of the page in the place of all other settings.
pub lost_settings :
    (p : NotificationsPage) (first second : Key)
    → InSync p
    → ((run (toggle first ∷ toggle second ∷ refused p.sent ∷ saved (suc p.sent) ∷ []) p).settings
        ≡ p.settings)
      × ((run (toggle first ∷ toggle second ∷ refused p.sent ∷ saved (suc p.sent) ∷ []) p).stored
          ≡ put second
              (not (get second (put first (not (get first p.settings)) p.settings)))
              (put first (not (get first p.settings)) p.settings))
      × ((run (fetched false ∷ toggle first ∷ saved 0 ∷ []) (opened p.stored)).stored
          ≡ put first (not (get first default_settings)) default_settings)
unfolding run step update_setting roll_back
lost_settings p first second s = (ground arith, ground arith, ground arith)
