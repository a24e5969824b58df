-- ===== src/Session/Laws.antt =====
-- What the session of portal/src/stores/auth-store.tsx and the client of portal/src/lib/api.ts keep
-- between them, and what a late answer undoes.
use mutell_demo.Prelude.{
  ◌≡◌, ◌≢◌, refl, sym, true, false, ◌||◌, none, some, is_some, is_truthy, arith,
}
use mutell_demo.Browser.{Storage, has_token}
use mutell_demo.Api.{Event}
use mutell_demo.Api.Tokens.{holds_or_leaves, IsSound, holds_or_leaves-step}
use mutell_demo.Session.{
  Session, found, denied, LoginData, Action, restores, logs_in, logs_out, updates, act,
}
use mutell_demo.Session.Tab.{Tab, opened, TabEvent, acts, calls, stores, tab_step}

-- The tokens of a successful answer are not empty.
abbrev pub IsFull : LoginData → Type 0
IsFull d = (is_truthy d.access_token ≡ true) × (is_truthy d.refresh_token ≡ true)

-- What the server and the browser may do: an answer to the effect on mount comes while it is awaited
-- and before anybody signs in or out, and the answers that bring tokens bring some.
abbrev pub IsAllowed : Tab → TabEvent → Type 0
IsAllowed t (acts (restores r)) = t.awaited ≡ true
IsAllowed t (acts (logs_in d)) = IsFull d
IsAllowed t (acts _) = Unit
IsAllowed t (calls e) = IsSound e
IsAllowed t (stores d) = IsFull d

-- If somebody is shown as signed in, an access token is stored or the browser goes to the login page.
pub IsBacked : Tab → Type 0
IsBacked t =
    t.session.user ≢ none
    → (has_token t.session.storage.access_token || is_some t.client.client.location) ≡ true

pub data Reach (st : Storage) : Tab → Type 0 where
  start : Reach st (opened st)
  next : {t : Tab} (e : TabEvent) → Reach st t → IsAllowed t e → Reach st (tab_step t e)

record Inv (t : Tab) : Type 0 where
  shared : t.client.client.storage ≡ t.session.storage
  backed : t.session.user ≢ none → holds_or_leaves t.client ≡ true
  nobody : t.awaited ≡ true → t.session.user ≡ none
  asked : t.awaited ≡ true → holds_or_leaves t.client ≡ true

Inv-opened : (st : Storage) → Inv (opened st)
unfolding opened
Inv-opened st = record {
  shared = ground arith;
  backed = λ e. absurd (e (ground arith));
  nobody = λ e. ground arith;
  asked = λ e. ground arith;
}

Inv-acts : (t : Tab) (a : Action) → IsAllowed t (acts a) → Inv t → Inv (tab_step t (acts a))
unfolding tab_step
Inv-acts t (restores (found u)) ok inv = record {
  shared = refl;
  backed = λ e. rw (sym inv.shared) (inv.asked ok);
  nobody = λ e. ground arith;
  asked = λ e. ground arith;
}
Inv-acts t (restores denied) ok inv = record {
  shared = refl;
  backed = λ e. absurd (e (inv.nobody ok));
  nobody = λ e. ground arith;
  asked = λ e. ground arith;
}
Inv-acts t (logs_in d) ok inv = record {
  shared = refl;
  backed = λ e. ground arith;
  nobody = λ e. ground arith;
  asked = λ e. ground arith;
}
Inv-acts t logs_out ok inv = record {
  shared = refl;
  backed = λ e. absurd (e refl);
  nobody = λ e. refl;
  asked = λ e. ground arith;
}
Inv-acts t (updates p) ok inv = record {
  shared = refl;
  backed = λ e. rw (sym inv.shared) (inv.backed (λ n. e (rw n refl)));
  nobody = λ e. rw (inv.nobody e) refl;
  asked = λ e. rw (sym inv.shared) (inv.asked e);
}

Inv-calls : (t : Tab) (e : Event) → IsSound e → Inv t → Inv (tab_step t (calls e))
unfolding tab_step
Inv-calls t e sound inv = record {
  shared = refl;
  backed = λ u. holds_or_leaves-step false t.client e sound (inv.backed u);
  nobody = inv.nobody;
  asked = λ w. holds_or_leaves-step false t.client e sound (inv.asked w);
}

Inv-stores : (t : Tab) (d : LoginData) → IsFull d → Inv t → Inv (tab_step t (stores d))
unfolding tab_step
Inv-stores t d full inv = record {
  shared = refl;
  backed = λ e. ground arith;
  nobody = inv.nobody;
  asked = λ e. ground arith;
}

Reach-Inv : {st : Storage} {t : Tab} → Reach st t → Inv t
Reach-Inv {st} start = Inv-opened st
Reach-Inv (next {t} (acts a) r ok) = Inv-acts t a ok (Reach-Inv r)
Reach-Inv (next {t} (calls e) r ok) = Inv-calls t e ok (Reach-Inv r)
Reach-Inv (next {t} (stores d) r ok) = Inv-stores t d ok (Reach-Inv r)

-- In every state that a tab reaches after the portal is loaded, by any order of the session's
-- callbacks, of the events of the client's calls and of the pages that store tokens themselves: a
-- user is shown only while an access token is stored, or once the client has sent the browser to the
-- login page. Provided
-- nothing else writes to the storage, answers that bring tokens bring some that are not empty, and
-- the answer to the request on mount comes before anybody signs in or out.
pub Reach-IsBacked : {st : Storage} {t : Tab} → Reach st t → IsBacked t
unfolding IsBacked
Reach-IsBacked r = let inv = Reach-Inv r in λ e. rw (sym inv.shared) (inv.backed e)

-- When the answer to the request on mount is an error and comes after a sign-in, the tokens of the
-- sign-in are removed and its user stays shown.
pub late_denial :
    (s : Session) (d : LoginData)
    → let t = act (act s (logs_in d)) (restores denied) in
      (t.user ≡ some d.user)
      × (has_token t.storage.access_token ≡ false)
      × (has_token t.storage.refresh_token ≡ false)
unfolding act
late_denial s d = (refl, refl, refl)
