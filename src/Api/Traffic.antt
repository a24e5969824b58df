-- ===== src/Api/Traffic.antt =====
-- How often the client of portal/src/lib/api.ts asks for new tokens.
use mutell_demo.Prelude.{
  ℕ, zero, suc, ◌+◌, ◌≤◌, ◌<◌, Bool, true, false, ◌≡◌, refl, List, [], ◌∷◌, arith, update, All, sym,
  not, ◌&&◌, if_intro, some,
}
use mutell_demo.Browser.{Storage, Failure, status_of, has_token}
use mutell_demo.Api.{
  Phase, ready, sent, resumed, refreshing, failed, Call, System, Event, go, answer, refuse, refresh,
  refreshed, refused, write, settle_all, send, resume, on_error, on_refresh, dispatch, step, run,
  loaded, RefreshResult, is_unauthorized, start_refresh,
}
use mutell_demo.Api.Queue.{settle_all_lem}

abbrev bit : Bool → ℕ
bit true = 1
bit false = 0

-- How many of the first `n` calls carry the `_retry` mark.
marks : ℕ → (ℕ → Call) → ℕ
marks zero calls = 0
marks (suc n) calls = marks n calls + bit (calls n).config.retry

marks-update_of_le :
    (n : ℕ) (calls : ℕ → Call) (i : ℕ) (c : Call)
    → n ≤ i
    → marks n (update calls i c) ≡ marks n calls
unfolding marks
marks-update_of_le zero calls i c h = refl
marks-update_of_le (suc n) calls i c h = ground (arith, marks-update_of_le n calls i c)

marks-update :
    (n : ℕ) (calls : ℕ → Call) (i : ℕ) (c : Call)
    → i < n
    → marks n (update calls i c) + bit (calls i).config.retry ≡ marks n calls + bit c.config.retry
unfolding marks
marks-update zero calls i c h = absurd (omega arith)
marks-update (suc n) calls i c h =
    ground (arith, marks-update n calls i c, marks-update_of_le n calls i c)

marks-settle_all :
    (n : ℕ) (p : Phase) (q : List ℕ) (calls : ℕ → Call)
    → marks n (settle_all p q calls) ≡ marks n calls
unfolding marks
marks-settle_all zero p q calls = refl
marks-settle_all (suc n) p q calls =
    ground (arith, marks-settle_all n p q calls, settle_all_lem p q calls n)

marks-le : (n : ℕ) (calls : ℕ → Call) → marks n calls ≤ n
unfolding marks
marks-le zero calls = omega arith
marks-le (suc n) calls = ground (arith, marks-le n calls)

-- As many requests for new tokens were sent as calls are marked.
abbrev IsCounted : ℕ → System → Type 0
IsCounted n s = s.client.posts ≡ marks n s.calls

module _ (n : ℕ) (s : System) (i : ℕ) (low : i < n) (counted : IsCounted n s) where
  -- A call keeps its mark.
  IsCounted-update :
      (c : Call)
      → c.config.retry ≡ (s.calls i).config.retry
      → s.client.posts ≡ marks n (update s.calls i c)
  IsCounted-update c same = let h = marks-update n s.calls i c low in ground arith

  IsCounted-send : (b : Bool) → IsCounted n (send b i s)
  unfolding send
  IsCounted-send true = IsCounted-update _ refl
  IsCounted-send false = IsCounted-update _ (ground arith)

  IsCounted-start : (s.calls i).config.retry ≡ false → IsCounted n (start_refresh i s)
  unfolding start_refresh
  IsCounted-start fresh =
      let h = marks-update n s.calls i ((start_refresh i s).calls i) low in ground arith

  IsCounted-on_error : (b : Bool) (e : Failure) → IsCounted n (on_error b i e s)
  unfolding on_error
  IsCounted-on_error true e = IsCounted-update _ refl
  IsCounted-on_error false e =
      if_intro (IsCounted n) (is_unauthorized (status_of e) && not (s.calls i).config.retry)
        (λ expired.
          if_intro (IsCounted n) (not (has_token s.client.storage.refresh_token))
            (λ missing. IsCounted-update _ refl)
            (λ present.
              if_intro (IsCounted n) s.client.is_refreshing (λ busy. IsCounted-update _ refl)
                (λ idle. IsCounted-start (ground arith))))
        (λ other. IsCounted-update _ refl)

  IsCounted-served :
      (p : Phase) (c : Call)
      → c.config.retry ≡ (settle_all p s.client.failed_queue s.calls i).config.retry
      → s.client.posts ≡ marks n (update (settle_all p s.client.failed_queue s.calls) i c)
  IsCounted-served p c same =
      let h = marks-update n (settle_all p s.client.failed_queue s.calls) i c low in
      ground (arith, marks-settle_all n p s.client.failed_queue s.calls)

  IsCounted-on_refresh : (r : RefreshResult) → IsCounted n (on_refresh i r s)
  unfolding on_refresh
  IsCounted-on_refresh (refreshed d) = IsCounted-served (resumed (some d.access_token)) _ refl
  IsCounted-on_refresh (refused e) = IsCounted-served (failed e) _ refl

  IsCounted-dispatch_go : (b : Bool) (p : Phase) → IsCounted n (dispatch b p (go i) s)
  unfolding dispatch
  IsCounted-dispatch_go b ready = IsCounted-send b
  IsCounted-dispatch_go b (resumed t) = unfold resume in IsCounted-update _ refl
  IsCounted-dispatch_go b _ = counted

  IsCounted-dispatch-answer : (b : Bool) (p : Phase) → IsCounted n (dispatch b p (answer i) s)
  unfolding dispatch
  IsCounted-dispatch-answer b sent = IsCounted-update _ refl
  IsCounted-dispatch-answer b _ = counted

  IsCounted-dispatch_refuse :
      (b : Bool) (e : Failure) (p : Phase) → IsCounted n (dispatch b p (refuse i e) s)
  unfolding dispatch
  IsCounted-dispatch_refuse b e sent = IsCounted-on_error b e
  IsCounted-dispatch_refuse b e _ = counted

  IsCounted-dispatch-refresh :
      (b : Bool) (r : RefreshResult) (p : Phase) → IsCounted n (dispatch b p (refresh i r) s)
  unfolding dispatch
  IsCounted-dispatch-refresh b r refreshing = IsCounted-on_refresh r
  IsCounted-dispatch-refresh b r _ = counted

-- The event is one of the first `n` calls.
abbrev pub IsOf : ℕ → Event → Type 0
IsOf n (go i) = i < n
IsOf n (answer i) = i < n
IsOf n (refuse i e) = i < n
IsOf n (refresh i r) = i < n
IsOf n (write st) = Unit

IsCounted-step :
    (n : ℕ) (b : Bool) (s : System) (e : Event)
    → IsOf n e
    → IsCounted n s
    → IsCounted n (step b s e)
unfolding step
IsCounted-step n b s (go i) low h = IsCounted-dispatch_go n s i low h b (s.calls i).phase
IsCounted-step n b s (answer i) low h = IsCounted-dispatch-answer n s i low h b (s.calls i).phase
IsCounted-step n b s (refuse i e) low h =
    IsCounted-dispatch_refuse n s i low h b e (s.calls i).phase
IsCounted-step n b s (refresh i r) low h =
    IsCounted-dispatch-refresh n s i low h b r (s.calls i).phase
IsCounted-step n b s (write st) low h = h

IsCounted-run :
    (n : ℕ) (b : Bool) (s : System) (es : List Event)
    → All (IsOf n) es
    → IsCounted n s
    → IsCounted n (run b s es)
unfolding run
IsCounted-run n b s [] of h = h
IsCounted-run n b s (e ∷ es) of h =
    IsCounted-run n b (step b s e) es of.1 (IsCounted-step n b s e of.0 h)

marks-fresh : (n : ℕ) (st : Storage) → marks n (loaded st).calls ≡ 0
unfolding marks
marks-fresh zero st = refl
marks-fresh (suc n) st = ground (arith, marks-fresh n st)

-- If all events are those of `n` calls, or writes of other code, then at most `n` requests for new
-- tokens are ever sent, however often the server answers 401.
pub posts-run-le :
    (n : ℕ) (b : Bool) (st : Storage) (es : List Event)
    → All (IsOf n) es
    → (run b (loaded st) es).client.posts ≤ n
posts-run-le n b st es of =
    let counted = IsCounted-run n b (loaded st) es of (sym (marks-fresh n st)) in
    omega (arith, marks-le n (run b (loaded st) es).calls)
