-- ===== src/Pages/Admin/AuditLog/Tests.antt =====
-- The filters of portal/src/app/(app)/admin/audit-log/page.tsx.
use mutell_demo.Prelude.{◌≡◌, refl, none, some}
use mutell_demo.Pages.Admin.AuditLog.{opened, step, query, pick_from, set_page, per_page}

-- A date goes on to count when its picker is cleared; a new filter starts at the first page.
date_kept :
    query (step (pick_from none) (step (set_page 3) (step (pick_from (some "2025-03-01")) opened)))
    ≡ record {
      page = some 1;
      per_page = some per_page;
      action = none;
      date_from = some "2025-03-01";
      date_to = none;
    }
unfolding query step
date_kept = refl
