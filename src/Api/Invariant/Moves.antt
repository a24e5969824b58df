-- ===== src/Api/Invariant/Moves.antt =====
-- The invariant, and the stretches of code that end at most one call's turn.
use mutell_demo.Prelude.{
  ℕ, Bool, true, false, ◌≡◌, ◌≢◌, refl, [], arith, update, Option, String, not, ◌&&◌, if_intro,
}
use mutell_demo.Browser.{Storage, Failure, status_of, has_token}
use mutell_demo.Api.{
  Phase, ready, sent, queued, resumed, refreshing, done, failed, Call, Client, System, send, resume,
  on_error, loaded, is_unauthorized, set_phase, with_phase, enqueue, start_refresh,
}
use mutell_demo.Api.Queue.{waits, waits-append}

pub record Inv (s : System) : Type 0 where
  pub in_queue : (i : ℕ) → (s.calls i).phase ≡ queued → waits i s.client.failed_queue ≡ true
  pub of_queue : (i : ℕ) → waits i s.client.failed_queue ≡ true → (s.calls i).phase ≡ queued
  pub flagged : (i : ℕ) → (s.calls i).phase ≡ refreshing → s.client.is_refreshing ≡ true
  pub marked : (i : ℕ) → (s.calls i).phase ≡ refreshing → (s.calls i).config.retry ≡ true
  pub single : (i j : ℕ) → (s.calls i).phase ≡ refreshing → (s.calls j).phase ≡ refreshing → i ≡ j
  pub owned : s.client.is_refreshing ≡ true → (i : ℕ) × ((s.calls i).phase ≡ refreshing)
  pub drained : s.client.is_refreshing ≡ false → s.client.failed_queue ≡ []

pub Inv-loaded : (st : Storage) → Inv (loaded st)
Inv-loaded st = record {
  in_queue = λ i h. cc;
  of_queue = λ i h. cc;
  flagged = λ i h. cc;
  marked = λ i h. cc;
  single = λ i j h k. cc;
  owned = λ h. cc;
  drained = λ h. refl;
}

-- A phase in which the client owes the call nothing.
abbrev pub IsFree : Phase → Type 0
IsFree p = (p ≢ queued) × (p ≢ refreshing)

-- A free call takes another free phase, and the queue and the flag stay.
pub Inv-move :
    (s : System) (c : Client) (i : ℕ) (call : Call)
    → Inv s
    → c.failed_queue ≡ s.client.failed_queue
    → c.is_refreshing ≡ s.client.is_refreshing
    → IsFree (s.calls i).phase
    → IsFree call.phase
    → Inv (record { client = c; calls = update s.calls i call })
Inv-move s c i call inv same_queue same_flag free_before free_after = record {
  in_queue = λ j h. ground (arith, inv.in_queue j);
  of_queue = λ j h. ground (arith, inv.of_queue j);
  flagged = λ j h. ground (arith, inv.flagged j);
  marked = λ j h. ground (arith, inv.marked j);
  single = λ j k g h. ground (arith, inv.single j k);
  owned = λ h. let (j, e) = inv.owned (ground arith) in (j, ground arith);
  drained = λ h. ground (arith, inv.drained);
}

module _ (b : Bool) (s : System) (i : ℕ) (inv : Inv s) where
  pub Inv-send : (s.calls i).phase ≡ ready → Inv (send b i s)
  unfolding send
  Inv-send h =
      Inv-move s s.client i _ inv refl refl (rw h ((λ e. cc), (λ e. cc))) ((λ e. cc), (λ e. cc))

  pub Inv-resume : (t : Option String) → (s.calls i).phase ≡ resumed t → Inv (resume i t s)
  unfolding resume
  Inv-resume t h =
      Inv-move s s.client i _ inv refl refl (rw h ((λ e. cc), (λ e. cc))) ((λ e. cc), (λ e. cc))

  pub Inv-answer : (s.calls i).phase ≡ sent → Inv (set_phase i done s)
  Inv-answer h =
      Inv-move s s.client i _ inv refl refl (rw h ((λ e. cc), (λ e. cc))) ((λ e. cc), (λ e. cc))

  Inv-failed :
      (c : Client) (e : Failure)
      → c.failed_queue ≡ s.client.failed_queue
      → c.is_refreshing ≡ s.client.is_refreshing
      → (s.calls i).phase ≡ sent
      → Inv (record { client = c; calls = update s.calls i (with_phase (failed e) (s.calls i)) })
  Inv-failed c e q f h =
      Inv-move s c i _ inv q f (rw h ((λ e. cc), (λ e. cc))) ((λ e. cc), (λ e. cc))

  Inv-enqueue : (s.calls i).phase ≡ sent → s.client.is_refreshing ≡ true → Inv (enqueue i s)
  unfolding enqueue
  Inv-enqueue h flag = record {
    in_queue = λ j e. ground (arith, inv.in_queue j, waits-append j i s.client.failed_queue);
    of_queue = λ j e. ground (arith, inv.of_queue j, waits-append j i s.client.failed_queue);
    flagged = λ j e. flag;
    marked = λ j e. ground (arith, inv.marked j);
    single = λ j k g e. ground (arith, inv.single j k);
    owned = λ e. let (j, r) = inv.owned flag in (j, ground arith);
    drained = λ e. cc;
  }

  Inv-start_refresh :
      (s.calls i).phase ≡ sent → s.client.is_refreshing ≡ false → Inv (start_refresh i s)
  unfolding start_refresh
  Inv-start_refresh h flag = record {
    in_queue = λ j e. ground (arith, inv.in_queue j);
    of_queue = λ j e. ground (arith, inv.of_queue j);
    flagged = λ j e. refl;
    marked = λ j e. ground (arith, inv.marked j);
    single = λ j k g e. ground (arith, inv.flagged j, inv.flagged k);
    owned = λ e. (i, ground arith);
    drained = λ e. cc;
  }

pub Inv-on_error :
    (b : Bool) (s : System) (i : ℕ) (e : Failure)
    → Inv s
    → (s.calls i).phase ≡ sent
    → Inv (on_error b i e s)
unfolding on_error
Inv-on_error true s i e inv h = Inv-failed true s i inv s.client e refl refl h
Inv-on_error false s i e inv h =
    if_intro Inv (is_unauthorized (status_of e) && not (s.calls i).config.retry)
      (λ expired.
        if_intro Inv (not (has_token s.client.storage.refresh_token))
          (λ missing. Inv-failed false s i inv _ e refl refl h)
          (λ present.
            if_intro Inv s.client.is_refreshing (Inv-enqueue false s i inv h)
              (Inv-start_refresh false s i inv h)))
      (λ other. Inv-failed false s i inv s.client e refl refl h)
