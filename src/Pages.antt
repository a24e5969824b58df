-- ===== src/Pages.antt =====
-- What the pages under portal/src/app share: the answer to a request, the messages that a page
-- shows, and where it sends the browser.
pub mod Auth
pub mod Slots
pub mod Team
pub mod Terminals
pub mod Tenants
pub mod Edits
pub mod SlotDetail
pub mod Admin
pub mod Settings
pub mod Reports
pub mod Dashboard
pub mod Ranges
pub mod Analytics
pub mod Account
pub mod Lists
use mutell_demo.Prelude.{
  String, Bool, true, false, Option, none, some, List, [], ◌∷◌, ◌++◌, str_eq, if◌then◌else◌,
}
pub use mutell_demo.Browser.{Answer, ok, err, Toast, success, failure}
use mutell_demo.Session.{Session}

-- A page of the sign-in group with the session that it acts on. `path` is the last `router.push`,
-- `href` what was last given to `window.location.href`.
pub record Desk : Type 0 where
  pub session : Session
  pub error : String
  pub loading : Bool
  pub toasts : List Toast
  pub path : Option String
  pub href : Option String

abbrev pub show : Toast → Desk → Desk
show t d = record d { toasts = d.toasts ++ t ∷ [] }

-- The page that a role starts on, as each sign-in handler spells it.
abbrev pub landing : String → String
landing role = if str_eq role "super_admin" then "/admin/dashboard" else "/dashboard"
