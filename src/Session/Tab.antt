-- ===== src/Session/Tab.antt =====
-- One tab of the browser: the session of portal/src/stores/auth-store.tsx and the client of
-- portal/src/lib/api.ts over one `localStorage`.
use mutell_demo.Prelude.{Bool, true, false, ◌&&◌}
use mutell_demo.Browser.{Storage, set_tokens}
use mutell_demo.Api.{System, Event, write, step, loaded}
use mutell_demo.Session.{Session, first_render, mount, LoginData, Action, updates, act}

-- `awaited`: the request of the effect on mount is unanswered, and nobody has signed in or out since.
pub record Tab : Type 0 where
  pub session : Session
  pub client : System
  pub awaited : Bool

-- The portal is loaded, and the effect on mount has run.
unfoldable pub opened : Storage → Tab
unfolding mount
opened st = record {
  session = (mount (first_render st)).0;
  client = loaded st;
  awaited = (mount (first_render st)).1;
}

pub data TabEvent : Type 0 where
  acts : Action → TabEvent
  calls : Event → TabEvent
  -- The handlers of sign-up, of Google and of an invitation store the tokens themselves.
  stores : LoginData → TabEvent

abbrev pub is_update : Action → Bool
is_update (updates p) = true
is_update _ = false

-- What the session stores the client reads, and the other way.
unfoldable pub tab_step : Tab → TabEvent → Tab
unfolding act step
tab_step t (acts a) =
    let s = act t.session a in
    record {
      session = s;
      client = step false t.client (write s.storage);
      awaited = is_update a && t.awaited;
    }
tab_step t (calls e) =
    let c = step false t.client e in
    record t { session = record t.session { storage = c.client.storage }; client = c }
tab_step t (stores d) =
    let st = set_tokens d.access_token d.refresh_token t.session.storage in
    record t {
      session = record t.session { storage = st };
      client = step false t.client (write st);
    }
