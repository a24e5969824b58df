-- ===== src/Api/Invariant/Answers.antt =====
-- The invariant, and the two ends of a refresh.
use mutell_demo.Prelude.{ℕ, false, ◌≡◌, refl, [], arith, update, some}
use mutell_demo.Api.{
  Phase, resumed, refreshing, failed, Call, Client, System, RefreshResult, refreshed, refused,
  on_refresh, settle_all,
}
use mutell_demo.Api.Queue.{settle_all_lem}
use mutell_demo.Api.Invariant.Moves.{Inv, IsFree}

-- Once the queue is served and the owner has left its phase, nothing is owed.
Inv-served :
    (s : System) (c : Client) (i : ℕ) (p : Phase) (call : Call)
    → Inv s
    → (s.calls i).phase ≡ refreshing
    → c.failed_queue ≡ []
    → c.is_refreshing ≡ false
    → IsFree p
    → IsFree call.phase
    → Inv
        (record { client = c; calls = update (settle_all p s.client.failed_queue s.calls) i call })
Inv-served s c i p call inv owner empty idle p_free call_free = record {
  in_queue =
      λ j h. ground (arith, settle_all_lem p s.client.failed_queue s.calls j, inv.in_queue j);
  of_queue = λ j h. ground arith;
  flagged = λ j h. ground (arith, settle_all_lem p s.client.failed_queue s.calls j, inv.single i j);
  marked = λ j h. ground (arith, settle_all_lem p s.client.failed_queue s.calls j, inv.single i j);
  single =
      λ j k g h. ground (arith, settle_all_lem p s.client.failed_queue s.calls j, inv.single i j);
  owned = λ h. cc;
  drained = λ h. empty;
}

pub Inv-on_refresh :
    (s : System) (i : ℕ) (r : RefreshResult)
    → Inv s
    → (s.calls i).phase ≡ refreshing
    → Inv (on_refresh i r s)
unfolding on_refresh
Inv-on_refresh s i (refreshed d) inv h =
    Inv-served s _ i (resumed (some d.access_token)) _ inv h refl refl ((λ e. cc), (λ e. cc))
      ((λ e. cc), (λ e. cc))
Inv-on_refresh s i (refused e) inv h =
    Inv-served s _ i (failed e) _ inv h refl refl ((λ q. cc), (λ q. cc)) ((λ q. cc), (λ q. cc))
