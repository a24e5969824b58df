-- ===== src/Browser.antt =====
-- What the portal keeps in the browser: `localStorage`, and what a failed request carries
-- (the fields of an axios error that portal/src reads).
use mutell_demo.Prelude.{ℕ, String, Option, none, some, is_truthy, Bool, false}
use Prim.Native.String

-- The three keys of `localStorage` that the portal uses; `none` is a key that is not set.
pub record Storage : Type 0 where
  pub access_token : Option String
  pub refresh_token : Option String
  pub theme : Option String

abbrev pub empty_storage : Storage
empty_storage = record { access_token = none; refresh_token = none; theme = none }

-- `error.response`, with the fields of its `data` that error messages are made of.
pub record ErrorResponse : Type 0 where
  pub status : ℕ
  pub detail : Option String
  pub message : Option String

-- `none` is a request that got no response.
pub record Failure : Type 0 where
  pub response : Option ErrorResponse

-- `error.response?.status`
abbrev pub status_of : Failure → Option ℕ
status_of f = elim f.response [ none ↦ none | some r ↦ some r.status ]

-- A stored token in a condition: it is there, and not empty.
abbrev pub has_token : Option String → Bool
has_token none = false
has_token (some t) = is_truthy t

-- Text in a template literal; `null` is spelled out.
abbrev pub in_template : Option String → String
in_template none = "null"
in_template (some t) = t

-- `Bearer ${token}`
abbrev pub bearer : Option String → String
bearer token = String.◌++◌ "Bearer " (in_template token)

-- `err?.response?.data?.detail` and `err?.response?.data?.message`
abbrev pub detail_of : Failure → Option String
detail_of f = elim f.response [ none ↦ none | some r ↦ r.detail ]

abbrev pub message_of : Failure → Option String
message_of f = elim f.response [ none ↦ none | some r ↦ r.message ]

-- `removeItem` of both tokens, and `setItem` of both.
abbrev pub clear_tokens : Storage → Storage
clear_tokens st = record st { access_token = none; refresh_token = none }

abbrev pub set_tokens : String → String → Storage → Storage
set_tokens access refresh st = record st {
  access_token = some access;
  refresh_token = some refresh;
}

-- What an awaited request comes to.
pub data Answer {ℓ} (A : Type ℓ) : Type ℓ where
  ok : A → Answer A
  err : Failure → Answer A

-- `toast.success` and `toast.error`.
pub data Toast : Type 0 where
  success : String → Toast
  failure : String → Toast
