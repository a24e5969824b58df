-- ===== src/Session/SignOut.antt =====
-- Sign-out in portal/src/stores/auth-store.tsx over the client of portal/src/lib/api.ts.
use mutell_demo.Prelude.{ℕ, ◌≡◌, refl, false, none, arith}
use mutell_demo.Api.{System, sent, go, write, step, attach, fresh_call}
use mutell_demo.Session.{Session, logout}

-- `logout` hands its POST to the client as call `i` and goes on at once: the tokens are removed
-- before the request interceptor of the call has run. The client's storage is the session's.
unfoldable pub sign_out : ℕ → Session → System → Session × System
unfolding logout
sign_out i s client = (logout s, step false client (write (logout s).storage))

-- The request of a sign-out, a call that is new to the client, is sent with no access token, and no
-- user is shown.
pub sign_out_anonymous :
    (i : ℕ) (s : Session) (client : System)
    → client.calls i ≡ fresh_call
    → let (s', client') = sign_out i s client in
      ((step false client' (go i)).calls i ≡ record { phase = sent; config = fresh_call.config })
      × (s'.user ≡ none)
unfolding sign_out step attach
sign_out_anonymous i s client fresh = (rw fresh (ground arith), refl)
