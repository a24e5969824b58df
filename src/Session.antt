-- ===== src/Session.antt =====
-- portal/src/stores/auth-store.tsx: who is signed in.
-- `useState` setters become new values of the record; a callback is cut at its await.
pub mod Laws
pub mod Tab
pub mod SignOut
mod Tests
use mutell_demo.Prelude.{String, Bool, true, false, Option, none, some, if◌then◌else◌, coalesce}
use mutell_demo.Browser.{Storage, has_token, clear_tokens, set_tokens}

-- `User`; `role` is any text here.
pub record User : Type 0 where
  pub id : String
  pub email : String
  pub full_name : String
  pub role : String
  pub tenant_id : Option String
  pub avatar_url : Option String

-- `Partial<User>`; `none` is a key that the object does not have.
pub record UserUpdates : Type 0 where
  pub id : Option String
  pub email : Option String
  pub full_name : Option String
  pub role : Option String
  pub tenant_id : Option String
  pub avatar_url : Option String

-- The state of `AuthProvider`, with the storage that it writes.
pub record Session : Type 0 where
  pub user : Option User
  pub is_loading : Bool
  pub storage : Storage

abbrev pub first_render : Storage → Session
first_render st = record { user = none; is_loading = true; storage = st }

-- What a request for the user's own data comes to.
pub data Me : Type 0 where
  found : User → Me
  denied : Me

-- The effect on mount, up to its request; true if the request is sent.
unfoldable pub mount : Session → Session × Bool
mount s =
    if has_token s.storage.access_token then (s, true) else (record s { is_loading = false }, false)

-- `then`, `catch` and `finally` of that request.
unfoldable pub restored : Me → Session → Session
restored (found u) s = record s { user = some u; is_loading = false }
restored denied s = record s { storage = clear_tokens s.storage; is_loading = false }

-- `res` of `authService.login`, `register` and `googleAuth`.
pub record LoginData : Type 0 where
  pub access_token : String
  pub refresh_token : String
  pub user : User

-- `login` after its await; a failed request leaves the state alone and throws on.
unfoldable pub login : LoginData → Session → Session
login d s = record s {
  storage = set_tokens d.access_token d.refresh_token s.storage;
  user = some d.user;
}

-- `logout`; its request is in `Session.SignOut`.
unfoldable pub logout : Session → Session
logout s = record s { storage = clear_tokens s.storage; user = none }

-- `{ ...prev, ...updates }`
unfoldable pub merge : User → UserUpdates → User
merge u p = record {
  id = coalesce p.id u.id;
  email = coalesce p.email u.email;
  full_name = coalesce p.full_name u.full_name;
  role = coalesce p.role u.role;
  tenant_id = elim p.tenant_id [ none ↦ u.tenant_id | some t ↦ some t ];
  avatar_url = elim p.avatar_url [ none ↦ u.avatar_url | some a ↦ some a ];
}

unfoldable pub update_user : UserUpdates → Session → Session
update_user p s = record s {
  user = elim s.user as (λ x. Option User) [ none ↦ none | some u ↦ some (merge u p) ];
}

-- The callbacks of the context, and the answer to the request of the effect, which runs once.
pub data Action : Type 0 where
  restores : Me → Action
  logs_in : LoginData → Action
  logs_out : Action
  updates : UserUpdates → Action

unfoldable pub act : Session → Action → Session
unfolding restored login logout update_user
act s (restores r) = restored r s
act s (logs_in d) = login d s
act s logs_out = logout s
act s (updates p) = update_user p s
