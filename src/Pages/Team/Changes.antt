-- ===== src/Pages/Team/Changes.antt =====
-- What the dialog for a member of portal/src/app/(app)/team/page.tsx sends.
use mutell_demo.Prelude.{
  ℕ, ◌≤◌, ◌≡◌, refl, String, none, some, decimal, parse_int, parse_int-decimal, Option-cases, inl,
  inr, arith,
}
use mutell_demo.Types.Auth.{UserResponse}
use mutell_demo.Pages.Team.{TeamPage, open_edit, concurrency_of, update_start}

concurrency_of-ge : (typed : String) → 1 ≤ concurrency_of typed
unfolding concurrency_of
concurrency_of-ge typed = elim (Option-cases (parse_int typed)) [
  | inl e ↦ rw (concurrency_of, e) (omega arith)
  | inr (n, e) ↦ rw (concurrency_of, e) (ground arith)
]

-- A dialog that is opened for a user whose limit of concurrent evaluations is at least 1 and saved
-- as it is sends the user's own name, role and limit, and no status; and whatever text is typed as
-- the limit, the number sent is at least 1.
pub update_start-open_edit :
    (p : TeamPage) (user : UserResponse) (typed : String)
    → 1 ≤ user.max_concurrent_evaluations
    → (update_start (open_edit user p)
        ≡ some (
          user.id,
          record {
            full_name = some user.full_name;
            role = some user.role;
            status = none;
            max_concurrent_evaluations = some user.max_concurrent_evaluations;
          },
        ))
      × ((limit : ℕ) × (1 ≤ limit)
          × (update_start (record (open_edit user p) { edit_concurrency = typed })
              ≡ some (
                user.id,
                record {
                  full_name = some user.full_name;
                  role = some user.role;
                  status = none;
                  max_concurrent_evaluations = some limit;
                },
              )))
unfolding update_start open_edit
update_start-open_edit p user typed some_limit =
    let limit : concurrency_of (decimal user.max_concurrent_evaluations)
        ≡ user.max_concurrent_evaluations =
      unfold concurrency_of in
      rw (concurrency_of, parse_int-decimal user.max_concurrent_evaluations) (ground arith) in
    (rw limit refl, (concurrency_of typed, concurrency_of-ge typed, refl))
