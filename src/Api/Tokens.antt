-- ===== src/Api/Tokens.antt =====
-- When the client of portal/src/lib/api.ts removes the access token: never without loading /login.
use mutell_demo.Prelude.{
  ℕ, Bool, true, false, ◌≡◌, refl, ◌||◌, not, ◌&&◌, is_some, is_truthy, if_intro, arith,
}
use mutell_demo.Browser.{Failure, has_token, status_of}
use mutell_demo.Api.{
  Phase, ready, sent, resumed, refreshing, System, Event, go, answer, refuse, refresh, refreshed,
  refused, write, send, resume, on_error, on_refresh, dispatch, step, RefreshResult,
  is_unauthorized,
}

-- An access token is stored, or the browser is on its way to the login page.
abbrev pub holds_or_leaves : System → Bool
holds_or_leaves s = has_token s.client.storage.access_token || is_some s.client.location

-- A refresh brings a token that is not empty, and no other code writes to the storage.
abbrev pub IsSound : Event → Type 0
IsSound (refresh i (refreshed d)) = is_truthy d.access_token ≡ true
IsSound (write st) = ⊥
IsSound _ = Unit {0}

abbrev IsSafe : System → Type 0
IsSafe s = holds_or_leaves s ≡ true

module _ (s : System) (i : ℕ) (safe : IsSafe s) where
  IsSafe-on_error : (b : Bool) (e : Failure) → IsSafe (on_error b i e s)
  unfolding on_error
  IsSafe-on_error true e = safe
  IsSafe-on_error false e =
      if_intro IsSafe (is_unauthorized (status_of e) && not (s.calls i).config.retry)
        (λ expired.
          if_intro IsSafe (not (has_token s.client.storage.refresh_token)) (λ missing. refl)
            (λ present. if_intro IsSafe s.client.is_refreshing (λ busy. safe) (λ idle. safe)))
        (λ other. safe)

  IsSafe-on_refresh : (r : RefreshResult) → IsSound (refresh i r) → IsSafe (on_refresh i r s)
  unfolding on_refresh
  IsSafe-on_refresh (refreshed d) full = ground arith
  IsSafe-on_refresh (refused e) _ = refl

  IsSafe-dispatch_go : (b : Bool) (p : Phase) → IsSafe (dispatch b p (go i) s)
  unfolding dispatch send resume
  IsSafe-dispatch_go b ready = safe
  IsSafe-dispatch_go b (resumed t) = safe
  IsSafe-dispatch_go b _ = safe

  IsSafe-dispatch-answer : (b : Bool) (p : Phase) → IsSafe (dispatch b p (answer i) s)
  unfolding dispatch
  IsSafe-dispatch-answer b sent = safe
  IsSafe-dispatch-answer b _ = safe

  IsSafe-dispatch_refuse :
      (b : Bool) (e : Failure) (p : Phase) → IsSafe (dispatch b p (refuse i e) s)
  unfolding dispatch
  IsSafe-dispatch_refuse b e sent = IsSafe-on_error b e
  IsSafe-dispatch_refuse b e _ = safe

  IsSafe-dispatch-refresh :
      (b : Bool) (r : RefreshResult) (p : Phase)
      → IsSound (refresh i r)
      → IsSafe (dispatch b p (refresh i r) s)
  unfolding dispatch
  IsSafe-dispatch-refresh b r refreshing sound = IsSafe-on_refresh r sound
  IsSafe-dispatch-refresh b r _ sound = safe

-- Whatever happens to the calls of the client, it keeps an access token or goes to the login page.
pub holds_or_leaves-step :
    (b : Bool) (s : System) (e : Event)
    → IsSound e
    → holds_or_leaves s ≡ true
    → holds_or_leaves (step b s e) ≡ true
unfolding step
holds_or_leaves-step b s (go i) sound safe = IsSafe-dispatch_go s i safe b (s.calls i).phase
holds_or_leaves-step b s (answer i) sound safe = IsSafe-dispatch-answer s i safe b (s.calls i).phase
holds_or_leaves-step b s (refuse i e) sound safe =
    IsSafe-dispatch_refuse s i safe b e (s.calls i).phase
holds_or_leaves-step b s (refresh i r) sound safe =
    IsSafe-dispatch-refresh s i safe b r (s.calls i).phase sound
holds_or_leaves-step b s (write st) sound safe = absurd sound
