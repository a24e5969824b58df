-- ===== src/Hooks.antt =====
-- What the hooks of portal/src/hooks hand to react-query: queries with their keys, and mutations
-- with what they do when the request has succeeded or failed. react-query itself is a parameter
-- where a theorem needs it (`Hooks.Cache`).
pub mod Users
pub mod Slots
pub mod Terminals
pub mod Tenants
pub mod Plans
pub mod Reports
pub mod Notes
pub mod AiSettings
pub mod Analytics
pub mod Aggregations
pub mod Dashboard
pub mod Admin
pub mod Cache
use mutell_demo.Prelude.{ℕ, String, Bool, Option, none, some, List, or_else}
use mutell_demo.Browser.{Failure, detail_of, message_of, Toast, Answer, ok, err}
use mutell_demo.Http.{Object, Endpoint}

-- An entry of a query key; `absent` is `undefined` or `null`.
pub data KeyPart : Type 0 where
  text : String → KeyPart
  object : Object → KeyPart
  absent : KeyPart

abbrev pub QueryKey : Type 0
QueryKey = List KeyPart

-- An argument as an entry of a key.
abbrev pub object_part {ℓ} : {A : Type ℓ} → (A → Object) → Option A → KeyPart
object_part f none = absent
object_part f (some p) = object (f p)

abbrev pub text_part : Option String → KeyPart
text_part none = absent
text_part (some s) = text s

-- The argument of `useQuery`.
pub record Query : Type 0 where
  pub key : QueryKey
  pub endpoint : Endpoint
  pub enabled : Bool
  pub refetch_interval : Option ℕ

pub data Effect : Type 0 where
  invalidate : QueryKey → Effect  -- `qc.invalidateQueries`
  notify : Toast → Effect
  open_window : String → Effect

-- The argument of `useMutation`, for given variables; `A` is what the service hands on.
pub record Mutation (A : Type 0) : Type 0 where
  pub endpoint : Endpoint
  pub on_success : A → List Effect
  pub on_error : Failure → List Effect

-- One `mutate`: the effects, by the answer to the request.
unfoldable pub mutate : {A : Type 0} → Mutation A → Answer A → List Effect
mutate m (ok a) = m.on_success a
mutate m (err f) = m.on_error f

-- `getErrorMessage` of useAdmin.ts and useUsers.ts.
unfoldable pub get_error_message : Failure → String
get_error_message f = or_else (detail_of f) (or_else (message_of f) "An error occurred")
