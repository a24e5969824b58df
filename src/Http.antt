-- ===== src/Http.antt =====
-- A request of the portal as portal/src/services hands it to the axios client: method, path, query
-- parameters and body. Both objects leave out a key whose value is `undefined`, as axios does for
-- parameters and `JSON.stringify` for a body.
use mutell_demo.Prelude.{ℕ, String, Bool, Option, none, some, List, [], ◌∷◌}

pub data Value : Type 0 where
  str : String → Value
  num : ℕ → Value
  bool : Bool → Value
  strs : List String → Value

abbrev pub Object : Type 0
Object = List (String × Value)

pub data Method : Type 0 where
  get post put patch delete : Method

pub data Body : Type 0 where
  empty : Body
  object : Object → Body
  array : List Object → Body

-- What the service hands on of the response: `r.data`, or the field `data` of that.
pub data Unwrap : Type 0 where
  data_of data_of_data : Unwrap

pub record Endpoint : Type 0 where
  pub method : Method
  pub path : String
  pub params : Object
  pub body : Body
  pub unwrap : Unwrap

-- A key that is always there, and one that may be `undefined`.
abbrev pub always {ℓ} : {A : Type ℓ} → String → (A → Value) → A → Object
always k f v = (k, f v) ∷ []

unfoldable pub maybe {ℓ} : {A : Type ℓ} → String → (A → Value) → Option A → Object
maybe k f none = []
maybe k f (some v) = (k, f v) ∷ []

-- The object given as `{ params }`, where the argument may be missing.
abbrev pub params_of {ℓ} : {A : Type ℓ} → (A → Object) → Option A → Object
params_of f none = []
params_of f (some p) = f p
