-- ===== src/Api/Tests.antt =====
-- Runs of the client of portal/src/lib/api.ts on concrete events, and the theorems at them.
use mutell_demo.Prelude.{
  ℕ, ◌≤◌, ◌≡◌, ◌≢◌, refl, false, none, some, List, [], ◌∷◌, arith, if◌then◌else◌,
}
use mutell_demo.Browser.{Storage, Failure, has_token, bearer}
use mutell_demo.Api.{
  ready, queued, resumed, refreshing, done, failed, Event, go, answer, refuse, refresh, RefreshData,
  refreshed, refused, System, run, step, loaded, on_error, on_refresh, attach, settle_all,
  with_phase, login_path,
}
use mutell_demo.Api.Queue.{waits}
use mutell_demo.Api.Invariant.{Inv, run-Inv}
use mutell_demo.Api.Traffic.{posts-run-le}
use mutell_demo.Api.Outcomes.{on_refresh-refreshed, on_refresh-refused, Verdict, on_error_verdict}

abbrev signed_in : Storage
signed_in = record { access_token = some "a1"; refresh_token = some "r1"; theme = none }

abbrev expired : Failure
expired = record { response = some (record { status = 401; detail = none; message = none }) }

abbrev renewed : RefreshData
renewed = record { access_token = "a2"; refresh_token = none }

-- Two calls get a 401: the first asks for a token, the second waits.
abbrev both_expired : List Event
both_expired = go 0 ∷ go 1 ∷ refuse 0 expired ∷ refuse 1 expired ∷ []

abbrev waiting : System
waiting = run false (loaded signed_in) both_expired

waiting_phases :
    ((waiting.calls 0).phase ≡ refreshing)
    × ((waiting.calls 1).phase ≡ queued)
    × (waiting.client.posts ≡ 1)
unfolding run step attach
waiting_phases = (refl, refl, refl)

abbrev whole_life : List Event
whole_life =
    go 0
    ∷ go 1
    ∷ refuse 0 expired
    ∷ refuse 1 expired
    ∷ refresh 0 (refreshed renewed)
    ∷ go 1
    ∷ go 0
    ∷ go 1
    ∷ answer 0
    ∷ answer 1
    ∷ []

whole_life_ends :
    let s = run false (loaded signed_in) whole_life in
    ((s.calls 0).phase ≡ done)
    × ((s.calls 1).phase ≡ done)
    × ((s.calls 1).config.authorization ≡ some "Bearer a2")
    × (s.client.storage.refresh_token ≡ some "r1")
unfolding run step attach settle_all
whole_life_ends = (refl, refl, refl, refl)

run-Inv_example : Inv (run false (loaded signed_in) whole_life)
run-Inv_example = run-Inv false signed_in whole_life

posts-run-le_example : (run false (loaded signed_in) whole_life).client.posts ≤ 2
posts-run-le_example = posts-run-le 2 false signed_in whole_life (omega arith)

on_refresh-refreshed_example :
    let t = on_refresh 0 (refreshed renewed) waiting in
    (t.client.storage.access_token ≡ some "a2")
    × (t.client.storage.refresh_token
        ≡ (if has_token none then none else waiting.client.storage.refresh_token))
    × (t.client.is_refreshing ≡ false)
    × (t.client.failed_queue ≡ [])
    × (t.calls 0 ≡ record {
      phase = ready;
      config = record (waiting.calls 0).config { authorization = some (bearer (some "a2")) };
    })
    × ((j : ℕ)
        → ◌≢◌ {A = ℕ} 0 j
        → t.calls j ≡ (
            if waits j waiting.client.failed_queue
            then with_phase (resumed (some "a2")) (waiting.calls j)
            else waiting.calls j))
unfolding run step attach
on_refresh-refreshed_example = on_refresh-refreshed waiting 0 renewed refl

on_refresh-refused_example :
    let t = on_refresh 0 (refused expired) waiting in
    (t.client.storage ≡ record waiting.client.storage { access_token = none; refresh_token = none })
    × (t.client.location ≡ some login_path)
    × (t.client.is_refreshing ≡ false)
    × (t.client.failed_queue ≡ [])
    × ((t.calls 0).phase ≡ failed expired)
    × ((j : ℕ)
        → ◌≢◌ {A = ℕ} 0 j
        → t.calls j ≡ (
            if waits j waiting.client.failed_queue
            then with_phase (failed expired) (waiting.calls j)
            else waiting.calls j))
on_refresh-refused_example = on_refresh-refused waiting 0 expired

on_error_verdict_example : Verdict waiting 2 expired (on_error false 2 expired waiting)
on_error_verdict_example = on_error_verdict waiting 2 expired
