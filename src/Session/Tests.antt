-- ===== src/Session/Tests.antt =====
-- A sign-in in a tab whose refresh token is then refused, and the theorems about
-- portal/src/stores/auth-store.tsx and portal/src/lib/api.ts there.
use mutell_demo.Prelude.{◌≡◌, refl, false, none, some}
use mutell_demo.Browser.{Failure, empty_storage}
use mutell_demo.Api.{go, refuse, refresh, refused, login_path, settle_all}
use mutell_demo.Session.{User, LoginData, logs_in, mount}
use mutell_demo.Session.Tab.{Tab, opened, acts, calls, tab_step}
use mutell_demo.Session.Laws.{IsBacked, start, next, Reach-IsBacked}

abbrev pub ann : User
ann = record {
  id = "u1";
  email = "ann@shop.example";
  full_name = "Ann";
  role = "manager";
  tenant_id = some "t1";
  avatar_url = none;
}

abbrev answer : LoginData
answer = record { access_token = "a1"; refresh_token = "r1"; user = ann }

abbrev in_office : Tab
in_office = tab_step (opened empty_storage) (acts (logs_in answer))

abbrev expired : Failure
expired = record { response = some (record { status = 401; detail = none; message = none }) }

abbrev thrown_out : Tab
thrown_out =
    tab_step
      (tab_step (tab_step (tab_step in_office (calls (go 0))) (calls (refuse 0 expired)))
        (calls (refresh 0 (refused expired))))
      (calls (go 1))

in_office_shown :
    (in_office.session.user ≡ some ann)
    × (in_office.session.is_loading ≡ false)
    × (in_office.client.client.storage.access_token ≡ some "a1")
unfolding tab_step opened mount
in_office_shown = (refl, refl, refl)

thrown_out_shown :
    (thrown_out.session.user ≡ some ann)
    × (thrown_out.session.storage.access_token ≡ none)
    × (thrown_out.client.client.location ≡ some login_path)
unfolding tab_step opened mount settle_all
thrown_out_shown = (refl, refl, refl)

Reach-IsBacked_example : IsBacked thrown_out
Reach-IsBacked_example = Reach-IsBacked (
    next (calls (go 1))
      (next (calls (refresh 0 (refused expired)))
        (next (calls (refuse 0 expired))
          (next (calls (go 0)) (next (acts (logs_in answer)) start (refl, refl)) tt) tt)
        tt)
      tt)
