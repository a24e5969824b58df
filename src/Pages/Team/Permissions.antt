-- ===== src/Pages/Team/Permissions.antt =====
-- What the permissions dialog of portal/src/app/(app)/team/page.tsx saves.
use mutell_demo.Prelude.{
  ◌&&◌, ◌≡◌, refl, ap, ◌∙◌, String, Bool, true, none, some, List, [], ◌∷◌, map, any, str_eq,
  is_truthy, coalesce, false, if◌then◌else◌, lookup, assign, lookup-assign, eq_iff, arith,
}
use mutell_demo.Types.Auth.{Permission, PermissionsResponse}
use mutell_demo.Pages.Team.{
  TeamPage, granted_of, build_state, load_permissions, open_permissions, set_permission, state_of,
  save_permissions,
}

-- The key is one of the list.
abbrev pub listed : String → List String → Bool
listed key keys = any (λ k. str_eq k key) keys

lookup-build_state :
    (key : String) (keys : List String) (fetched : List Permission) (state : List (String × Bool))
    → lookup key (build_state keys fetched state)
      ≡ (if listed key keys then some (granted_of key fetched) else lookup key state)
unfolding build_state
lookup-build_state key [] fetched state = refl
lookup-build_state key (k ∷ keys) fetched state = ground (
  arith,
  lookup-build_state key keys fetched (assign k (granted_of k fetched) state),
  lookup-assign k key (granted_of k fetched) state,
  eq_iff k key,
  eq_iff key k,
)

built_only :
    (key : String) (keys : List String) (fetched : List Permission)
    → lookup key (build_state keys fetched [])
      ≡ (if listed key keys then some (granted_of key fetched) else none)
unfolding lookup
built_only key keys fetched = lookup-build_state key keys fetched []

-- The permissions of some keys, by what is granted.
abbrev pub permissions_by : (String → Bool) → List String → List Permission
permissions_by granted keys =
    map (λ (key : String). record { permission = key; granted = granted key }) keys

permissions_by_same :
    (f g : String → Bool) (keys : List String)
    → ((key : String) → f key ≡ g key)
    → permissions_by f keys ≡ permissions_by g keys
permissions_by_same f g [] same = refl
permissions_by_same f g (k ∷ keys) same =
    λ i. record { permission = k; granted = same k i } ∷ permissions_by_same f g keys same i

module _ (keys : List String) (p : TeamPage) (target : String)
    (full : is_truthy target ≡ true) where
  saved :
      p.permissions_target ≡ some target
      → save_permissions keys p ≡ some (target, permissions_by (state_of p) keys)
  unfolding save_permissions
  saved aimed = rw aimed (rw full refl)

  loaded :
      (fetched : PermissionsResponse)
      → p.permissions_target ≡ some target
      → load_permissions keys (some fetched) p
        ≡ record p { permissions_state = build_state keys fetched.permissions [] }
  unfolding load_permissions
  loaded fetched aimed =
      rw (load_permissions, aimed)
        (rw full (λ i. record p {
          permissions_target = aimed i;
          permissions_state = build_state keys fetched.permissions [];
        }))

-- The state of one key after the effect, and after a switch is set.
pub state_of-load :
    (keys : List String) (fetched : PermissionsResponse) (p : TeamPage) (target key : String)
    → p.permissions_target ≡ some target
    → is_truthy target ≡ true
    → listed key keys ≡ true
    → state_of (load_permissions keys (some fetched) p) key ≡ granted_of key fetched.permissions
state_of-load keys fetched p target key aimed full known =
    let built : lookup key (build_state keys fetched.permissions [])
        ≡ some (granted_of key fetched.permissions) =
      rw (built_only key keys fetched.permissions) (rw known refl) in
    ap (λ q. state_of q key) (loaded keys p target full fetched aimed)
    ∙ ap (λ o. coalesce o false) built

pub state_of-set_permission :
    (checked : Bool) (key : String) (p : TeamPage)
    → state_of (set_permission key checked p) key ≡ checked
unfolding set_permission
state_of-set_permission checked key p =
    ground (arith, lookup-assign key key checked p.permissions_state, eq_iff key key)

-- When the permissions of the target, an id that is not empty, have come, a switch is set and the
-- dialog is saved, the request is for the target and names every key of the schema, with what the
-- switch says for the key of the switch, and for any other what the server said, a key that it did
-- not name counting as not granted; but so does a key that was not in the schema yet when the
-- permissions came.
pub save_permissions-load :
    (built keys : List String) (fetched : PermissionsResponse) (p : TeamPage) (target key : String)
    (checked : Bool)
    → p.permissions_target ≡ some target
    → is_truthy target ≡ true
    → save_permissions keys (set_permission key checked (load_permissions built (some fetched) p))
      ≡ some (
        target,
        permissions_by
            (λ k.
              if str_eq k key then checked else listed k built && granted_of k fetched.permissions)
            keys,
      )
unfolding set_permission
save_permissions-load built keys fetched p target key checked aimed full =
    let q = set_permission key checked (load_permissions built (some fetched) p) in
    let load = loaded built p target full fetched aimed in
    saved keys q target full (ap (λ (r : TeamPage). r.permissions_target) load ∙ aimed)
    ∙ ap (λ (ps : List Permission). some (target, ps))
        (permissions_by_same (state_of q) _ keys (λ k. rw load (
          ground (
            arith,
            lookup-assign key k checked (build_state built fetched.permissions []),
            built_only k built fetched.permissions,
          ))))

-- When the dialog is opened for a user, whose id is not empty, and saved before that user's
-- permissions have come, the request gives that user what the switches said before the dialog was
-- opened.
pub save_permissions-early :
    (keys : List String) (p : TeamPage) (target : String)
    → is_truthy target ≡ true
    → save_permissions keys (load_permissions keys none (open_permissions target p))
      ≡ some (target, permissions_by (state_of p) keys)
unfolding save_permissions load_permissions open_permissions
save_permissions-early keys p target full = rw full refl
