-- ===== src/Pages/Admin/Users/Limits.antt =====
-- The limit of concurrent evaluations, as portal/src/app/(app)/admin/users/page.tsx and
-- portal/src/app/(app)/team/page.tsx take it from a text.
use mutell_demo.Prelude.{
  ℕ, ◌≤◌, ◌≡◌, refl, ◌⊎◌, inl, inr, ◌||◌, none, some, ltb, parse_int, Bool-cases, Option-cases,
  arith,
}
use mutell_demo.Types.Auth.{UserResponse, UpdateUserRequest}
use mutell_demo.Pages.Admin.Users.{AdminUsersPage, update_start}
use mutell_demo.Pages.Team.{concurrency_of}

-- A change of the limit alone.
abbrev pub limit_only : ℕ → UpdateUserRequest
limit_only limit = record {
  full_name = none;
  role = none;
  status = none;
  max_concurrent_evaluations = some limit;
}

-- With the dialog of a user open, for any text in it: the admin page sends a limit of at least 1
-- and the team page takes the same one from that text, or the admin page sends nothing where the
-- team page takes 1.
pub limits_agree :
    (p : AdminUsersPage) (user : UserResponse)
    → p.editing_user ≡ some user
    → ((limit : ℕ) × (1 ≤ limit)
        × (update_start p ≡ some (user.id, limit_only limit))
        × (concurrency_of p.edit_concurrency ≡ limit))
      ⊎ ((update_start p ≡ none) × (concurrency_of p.edit_concurrency ≡ 1))
unfolding update_start concurrency_of
limits_agree p user editing = elim (Option-cases (parse_int p.edit_concurrency)) [
  | inl e ↦ inr (rw editing (rw (update_start, e) refl), rw (concurrency_of, e) refl)
  | inr (val, e) ↦ elim (Bool-cases (val.0 || ltb val.1 1)) [
    | inl bad ↦
        inr (rw editing (rw (update_start, e) (rw bad refl)), rw (concurrency_of, e) (rw bad refl))
    | inr good ↦ inl (
      val.1,
      ground arith,
      rw editing (rw (update_start, e) (rw good refl)),
      rw (concurrency_of, e) (rw good refl),
    )
  ]
]
