-- ===== src/Api/Outcomes.antt =====
-- What each answer does to the calls and to `localStorage`, in portal/src/lib/api.ts.
use mutell_demo.Prelude.{
  ℕ, true, false, ◌≡◌, ◌≢◌, ◌+◌, ◌⊎◌, refl, [], ◌∷◌, ◌++◌, arith, if◌then◌else◌, Option, none, some,
  String, if_intro, ◌&&◌, not,
}
use mutell_demo.Browser.{Storage, Failure, status_of, has_token, bearer}
use mutell_demo.Api.{
  ready, queued, resumed, refreshing, failed, System, refreshed, refused, RefreshData, on_error,
  on_refresh, resume, with_phase, login_path, refresh, write, save_tokens, send, step,
  is_unauthorized,
}
use mutell_demo.Api.Queue.{waits, settle_all_lem}

-- After a refresh succeeds, the call that asked for it not being in the queue: the new access token
-- is stored, and the new refresh token if the answer has one, else the old one stays; no refresh is
-- under way and the queue is empty; the call that asked is ready to be sent with the new token;
-- each waiting call is resumed with it; and every other call is as it was.
pub on_refresh-refreshed :
    (s : System) (i : ℕ) (d : RefreshData)
    → waits i s.client.failed_queue ≡ false
    → let t = on_refresh i (refreshed d) s in
      (t.client.storage.access_token ≡ some d.access_token)
      × (t.client.storage.refresh_token
          ≡ (if has_token d.refresh_token then d.refresh_token else s.client.storage.refresh_token))
      × (t.client.is_refreshing ≡ false)
      × (t.client.failed_queue ≡ [])
      × (t.calls i ≡ record {
        phase = ready;
        config = record (s.calls i).config { authorization = some (bearer (some d.access_token)) };
      })
      × ((j : ℕ)
          → i ≢ j
          → t.calls j ≡ (
              if waits j s.client.failed_queue
              then with_phase (resumed (some d.access_token)) (s.calls j)
              else s.calls j))
unfolding on_refresh
on_refresh-refreshed s i d own =
    let at = settle_all_lem (resumed (some d.access_token)) s.client.failed_queue s.calls in
    (refl, refl, refl, refl, ground (arith, at i), λ j other. ground (arith, at j))

-- After a refresh fails: both tokens are gone and the browser goes to the login page; no refresh
-- is under way and the queue is empty; the call that asked and every waiting call fail with the
-- error of the refresh; and every other call is as it was.
pub on_refresh-refused :
    (s : System) (i : ℕ) (e : Failure)
    → let t = on_refresh i (refused e) s in
      (t.client.storage ≡ record s.client.storage { access_token = none; refresh_token = none })
      × (t.client.location ≡ some login_path)
      × (t.client.is_refreshing ≡ false)
      × (t.client.failed_queue ≡ [])
      × ((t.calls i).phase ≡ failed e)
      × ((j : ℕ)
          → i ≢ j
          → t.calls j ≡ (
              if waits j s.client.failed_queue
              then with_phase (failed e) (s.calls j)
              else s.calls j))
unfolding on_refresh
on_refresh-refused s i e =
    let at = settle_all_lem (failed e) s.client.failed_queue s.calls in
    (refl, refl, refl, refl, ground arith, λ j other. ground (arith, at j))

-- Whatever other code writes to `localStorage` while a refresh is under way, a sign-out included,
-- the answer to the refresh stores an access token again.
pub refresh_outlives_write :
    (s : System) (i : ℕ) (d : RefreshData) (st : Storage)
    → (s.calls i).phase ≡ refreshing
    → (step false (step false s (write st)) (refresh i (refreshed d))).client.storage
      ≡ save_tokens d st
unfolding step
refresh_outlives_write s i d st h = rw h refl

-- A call that is sent in the browser while an access token that is not empty is stored carries that
-- token, also when it was resumed with another one; on the server its header is left alone.
pub send_current_token :
    (s : System) (i : ℕ) (t : Option String) (token : String)
    → s.client.storage.access_token ≡ some token
    → has_token (some token) ≡ true
    → (((send false i (resume i t s)).calls i).config.authorization ≡ some (bearer (some token)))
      × (((send true i s).calls i).config ≡ (s.calls i).config)
unfolding send resume
send_current_token s i t token stored full = (ground arith, ground arith)

-- On an error response in the browser a call fails with that error, and nothing of the client
-- changes, unless the status is 401 and the call has not been retried. Then: with no refresh token
-- it fails and the browser goes to the login page; with a refresh under way it joins the queue and
-- nothing is sent; else it is marked and sends the one refresh request.
pub data Verdict (s : System) (i : ℕ) (e : Failure) (t : System) : Type 0 where
  passed_on :
      (is_unauthorized (status_of e) ≡ false) ⊎ ((s.calls i).config.retry ≡ true)
      → t.client ≡ s.client
      → t.calls i ≡ with_phase (failed e) (s.calls i)
      → Verdict s i e t
  signed_out :
      is_unauthorized (status_of e) ≡ true
      → (s.calls i).config.retry ≡ false
      → has_token s.client.storage.refresh_token ≡ false
      → t.client.storage.access_token ≡ none
      → t.client.location ≡ some login_path
      → t.client.posts ≡ s.client.posts
      → t.calls i ≡ with_phase (failed e) (s.calls i)
      → Verdict s i e t
  waiting :
      is_unauthorized (status_of e) ≡ true
      → (s.calls i).config.retry ≡ false
      → has_token s.client.storage.refresh_token ≡ true
      → s.client.is_refreshing ≡ true
      → t.client.failed_queue ≡ s.client.failed_queue ++ i ∷ []
      → t.client.posts ≡ s.client.posts
      → t.calls i ≡ with_phase queued (s.calls i)
      → Verdict s i e t
  asking :
      is_unauthorized (status_of e) ≡ true
      → (s.calls i).config.retry ≡ false
      → has_token s.client.storage.refresh_token ≡ true
      → s.client.is_refreshing ≡ false
      → t.client.is_refreshing ≡ true
      → t.client.posts ≡ s.client.posts + 1
      → (t.calls i).phase ≡ refreshing
      → (t.calls i).config.retry ≡ true
      → Verdict s i e t

pub on_error_verdict : (s : System) (i : ℕ) (e : Failure) → Verdict s i e (on_error false i e s)
unfolding on_error
on_error_verdict s i e =
    if_intro (Verdict s i e) (is_unauthorized (status_of e) && not (s.calls i).config.retry)
      (λ expired.
        if_intro (Verdict s i e) (not (has_token s.client.storage.refresh_token))
          (λ missing.
            signed_out (ground arith) (ground arith) (ground arith) refl refl refl (ground arith))
          (λ present.
            if_intro (Verdict s i e) s.client.is_refreshing
              (λ busy.
                waiting (ground arith) (ground arith) (ground arith) busy refl refl (ground arith))
              (λ idle.
                asking (ground arith) (ground arith) (ground arith) idle refl refl (ground arith)
                  (ground arith))))
      (λ other. passed_on (ground arith) refl (ground arith))
