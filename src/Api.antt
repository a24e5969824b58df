-- ===== src/Api.antt =====
-- portal/src/lib/api.ts: the axios client with its two interceptors.
-- JavaScript runs the code between two awaits without a break, so each such stretch is one
-- function here and one event of `step`; the order of the events is left open.
-- A call is known by a number. axios hands a configuration that is sent again on as it is, with
-- its `_retry` mark. The queue's `resolve` and `reject` are those of the call that waits.
pub mod Queue
pub mod Invariant
pub mod Traffic
pub mod Tokens
pub mod Outcomes
mod Tests
use mutell_demo.Prelude.{
  ℕ, ◌+◌, String, Bool, true, false, Option, none, some, List, [], ◌∷◌, ◌++◌, ◌==◌, ◌&&◌, not,
  if◌then◌else◌, update,
}
use mutell_demo.Browser.{Storage, Failure, status_of, has_token, bearer}

-- `error.config`: the header that the client sets, and the mark that it leaves.
pub record Config : Type 0 where
  pub authorization : Option String
  pub retry : Bool

-- Where the promise of a call stands.
pub data Phase : Type 0 where
  ready : Phase  -- given to `api`, before the request interceptor
  sent : Phase  -- on the network
  queued : Phase  -- in `failedQueue`
  resumed : Option String → Phase  -- `resolve(token)` was called
  refreshing : Phase  -- awaits its own POST to /auth/refresh
  done : Phase
  failed : Failure → Phase

pub record Call : Type 0 where
  pub phase : Phase
  pub config : Config

-- The module's variables with the browser that it acts on. `posts` counts the refresh requests
-- that were handed to the network; the code does not keep it.
pub record Client : Type 0 where
  pub storage : Storage
  pub is_refreshing : Bool
  pub failed_queue : List ℕ
  pub location : Option String
  pub posts : ℕ

pub record System : Type 0 where
  pub client : Client
  pub calls : ℕ → Call

-- The fields of `res.data` after a refresh.
pub record RefreshData : Type 0 where
  pub access_token : String
  pub refresh_token : Option String

pub data RefreshResult : Type 0 where
  refreshed : RefreshData → RefreshResult
  refused : Failure → RefreshResult

abbrev pub fresh_call : Call
fresh_call = record { phase = ready; config = record { authorization = none; retry = false } }

abbrev pub with_phase : Phase → Call → Call
with_phase p c = record c { phase = p }

abbrev pub set_phase : ℕ → Phase → System → System
set_phase i p s = record s { calls = update s.calls i (with_phase p (s.calls i)) }

-- The request interceptor.
unfoldable pub attach : Bool → Client → Config → Config
attach true c config = config
attach false c config =
    if has_token c.storage.access_token
    then record config { authorization = some (bearer c.storage.access_token) }
    else config

unfoldable pub send : Bool → ℕ → System → System
unfolding attach
send is_server i s =
    let c = s.calls i in
    record s {
      calls =
          update s.calls i (record { phase = sent; config = attach is_server s.client c.config });
    }

-- The loop of `processQueue`.
unfoldable pub settle_all : Phase → List ℕ → (ℕ → Call) → ℕ → Call
settle_all p [] calls = calls
settle_all p (i ∷ is) calls = settle_all p is (update calls i (with_phase p (calls i)))

abbrev pub settled_as : Option Failure → Option String → Phase
settled_as none token = resumed token
settled_as (some e) token = failed e

unfoldable pub process_queue : Option Failure → Option String → System → System
process_queue error token s = record {
  client = record s.client { failed_queue = [] };
  calls = settle_all (settled_as error token) s.client.failed_queue s.calls;
}

abbrev pub is_unauthorized : Option ℕ → Bool
is_unauthorized none = false
is_unauthorized (some code) = code == 401

abbrev pub login_path : String
login_path = "/login"

-- `failedQueue.push`, in the branch where a refresh is under way.
enqueue : ℕ → System → System
enqueue i s =
    set_phase i queued
      (record s { client = record s.client { failed_queue = s.client.failed_queue ++ i ∷ [] } })

-- From `originalRequest._retry = true` up to the await of the POST.
start_refresh : ℕ → System → System
start_refresh i s = record {
  client = record s.client { is_refreshing = true; posts = s.client.posts + 1 };
  calls =
      update s.calls i
        (record { phase = refreshing; config = record (s.calls i).config { retry = true } });
}

-- No refresh token: the session is over.
give_up : ℕ → Failure → System → System
give_up i e s = set_phase i (failed e) (record s {
  client = record s.client {
    storage = record s.client.storage { access_token = none };
    location = some login_path;
  };
})

-- The response interceptor on a failed response of call `i`, up to its first await.
unfoldable pub on_error : Bool → ℕ → Failure → System → System
unfolding enqueue start_refresh give_up
on_error true i e s = set_phase i (failed e) s
on_error false i e s =
    if is_unauthorized (status_of e) && not (s.calls i).config.retry
    then if not (has_token s.client.storage.refresh_token)
      then give_up i e s
      else if s.client.is_refreshing
      then enqueue i s
      else start_refresh i s
    else set_phase i (failed e) s

-- The new tokens go to `localStorage`.
unfoldable pub save_tokens : RefreshData → Storage → Storage
save_tokens d st = record st {
  access_token = some d.access_token;
  refresh_token = if has_token d.refresh_token then d.refresh_token else st.refresh_token;
}

-- Rest of the `try` after the await, with the `finally`. `api(originalRequest)` is returned and
-- not awaited, so the `finally` runs before the call is sent again.
on_refreshed : ℕ → RefreshData → System → System
unfolding process_queue save_tokens
on_refreshed i d s =
    let stored = record s {
      client = record s.client { storage = save_tokens d s.client.storage };
    } in
    let served = process_queue none (some d.access_token) stored in
    let c = served.calls i in
    record {
      client = record served.client { is_refreshing = false };
      calls = update served.calls i (record {
        phase = ready;
        config = record c.config { authorization = some (bearer (some d.access_token)) };
      });
    }

-- The `catch`, with the `finally`.
on_refused : ℕ → Failure → System → System
unfolding process_queue
on_refused i e s =
    let served = process_queue (some e) none s in
    set_phase i (failed e) (record served {
      client = record served.client {
        storage = record served.client.storage { access_token = none; refresh_token = none };
        location = some login_path;
        is_refreshing = false;
      };
    })

unfoldable pub on_refresh : ℕ → RefreshResult → System → System
unfolding on_refreshed on_refused
on_refresh i (refreshed d) s = on_refreshed i d s
on_refresh i (refused e) s = on_refused i e s

-- The `then` of a call that waited in the queue.
unfoldable pub resume : ℕ → Option String → System → System
resume i token s =
    let c = s.calls i in
    record s {
      calls = update s.calls i (record {
        phase = ready;
        config = record c.config { authorization = some (bearer token) };
      });
    }

pub data Event : Type 0 where
  go : ℕ → Event  -- the call's next stretch of code runs
  answer : ℕ → Event  -- its response arrives, with a status in the 200s
  refuse : ℕ → Failure → Event  -- its response is an error, or there is none
  refresh : ℕ → RefreshResult → Event  -- the answer to its refresh request arrives
  write : Storage → Event  -- other code changes `localStorage`

-- One event of a call, by its phase; an event that the phase does not allow does nothing.
dispatch : Bool → Phase → Event → System → System
unfolding send on_error on_refresh resume
dispatch is_server ready (go i) s = send is_server i s
dispatch is_server (resumed token) (go i) s = resume i token s
dispatch is_server sent (answer i) s = set_phase i done s
dispatch is_server sent (refuse i e) s = on_error is_server i e s
dispatch is_server refreshing (refresh i r) s = on_refresh i r s
dispatch is_server _ _ s = s

unfoldable pub step : Bool → System → Event → System
unfolding dispatch
step is_server s (go i) = dispatch is_server (s.calls i).phase (go i) s
step is_server s (answer i) = dispatch is_server (s.calls i).phase (answer i) s
step is_server s (refuse i e) = dispatch is_server (s.calls i).phase (refuse i e) s
step is_server s (refresh i r) = dispatch is_server (s.calls i).phase (refresh i r) s
step is_server s (write st) = record s { client = record s.client { storage = st } }

unfoldable pub run : Bool → System → List Event → System
run is_server s [] = s
run is_server s (e ∷ es) = run is_server (step is_server s e) es

-- The module as it is loaded, over what `localStorage` holds then.
abbrev pub loaded : Storage → System
loaded st = record {
  client = record {
    storage = st;
    is_refreshing = false;
    failed_queue = [];
    location = none;
    posts = 0;
  };
  calls = λ _. fresh_call;
}
