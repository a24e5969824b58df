-- ===== src/Api/Invariant.antt =====
-- What holds of the client of portal/src/lib/api.ts between two events.
mod Moves
mod Answers
pub use Moves.{Inv, Inv-loaded}
use mutell_demo.Prelude.{ℕ, Bool, ◌≡◌, refl, List, [], ◌∷◌}
use mutell_demo.Browser.{Storage, Failure}
use mutell_demo.Api.{
  Phase, ready, sent, queued, resumed, refreshing, done, failed, System, Event, go, answer, refuse,
  refresh, write, dispatch, step, run, loaded, RefreshResult,
}
use Moves.{Inv-send, Inv-resume, Inv-answer, Inv-on_error}
use Answers.{Inv-on_refresh}

-- The events of one call, by the phase that it is in.
Inv-dispatch_go :
    (b : Bool) (s : System) (i : ℕ) (p : Phase)
    → (s.calls i).phase ≡ p
    → Inv s
    → Inv (dispatch b p (go i) s)
unfolding dispatch
Inv-dispatch_go b s i ready e inv = Inv-send b s i inv e
Inv-dispatch_go b s i (resumed t) e inv = Inv-resume b s i inv t e
Inv-dispatch_go b s i _ e inv = inv

Inv-dispatch-answer :
    (b : Bool) (s : System) (i : ℕ) (p : Phase)
    → (s.calls i).phase ≡ p
    → Inv s
    → Inv (dispatch b p (answer i) s)
unfolding dispatch
Inv-dispatch-answer b s i sent e inv = Inv-answer b s i inv e
Inv-dispatch-answer b s i _ e inv = inv

Inv-dispatch_refuse :
    (b : Bool) (s : System) (i : ℕ) (f : Failure) (p : Phase)
    → (s.calls i).phase ≡ p
    → Inv s
    → Inv (dispatch b p (refuse i f) s)
unfolding dispatch
Inv-dispatch_refuse b s i f sent e inv = Inv-on_error b s i f inv e
Inv-dispatch_refuse b s i f _ e inv = inv

Inv-dispatch-refresh :
    (b : Bool) (s : System) (i : ℕ) (r : RefreshResult) (p : Phase)
    → (s.calls i).phase ≡ p
    → Inv s
    → Inv (dispatch b p (refresh i r) s)
unfolding dispatch
Inv-dispatch-refresh b s i r refreshing e inv = Inv-on_refresh s i r inv e
Inv-dispatch-refresh b s i r _ e inv = inv

pub Inv-step : (b : Bool) (s : System) (e : Event) → Inv s → Inv (step b s e)
unfolding step
Inv-step b s (go i) inv = Inv-dispatch_go b s i (s.calls i).phase refl inv
Inv-step b s (answer i) inv = Inv-dispatch-answer b s i (s.calls i).phase refl inv
Inv-step b s (refuse i f) inv = Inv-dispatch_refuse b s i f (s.calls i).phase refl inv
Inv-step b s (refresh i r) inv = Inv-dispatch-refresh b s i r (s.calls i).phase refl inv
Inv-step b s (write st) inv = record {
  in_queue = inv.in_queue;
  of_queue = inv.of_queue;
  flagged = inv.flagged;
  marked = inv.marked;
  single = inv.single;
  owned = inv.owned;
  drained = inv.drained;
}

Inv-run : (b : Bool) (s : System) (es : List Event) → Inv s → Inv (run b s es)
unfolding run
Inv-run b s [] inv = inv
Inv-run b s (e ∷ es) inv = Inv-run b (step b s e) es (Inv-step b s e inv)

-- After any events from the moment the module is loaded, in any order: the calls in the queue are
-- exactly those that wait for a refresh; a refresh is flagged exactly while some call awaits one,
-- which is then the only one and carries the `_retry` mark; and with no refresh under way no call
-- waits.
pub run-Inv : (b : Bool) (st : Storage) (es : List Event) → Inv (run b (loaded st) es)
run-Inv b st es = Inv-run b (loaded st) es (Inv-loaded st)
