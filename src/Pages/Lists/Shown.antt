-- ===== src/Pages/Lists/Shown.antt =====
-- The pages with a list show what their query returned, portal/src/app/(app).
use mutell_demo.Prelude.{ℕ, ◌≡◌, String, Bool, false, Option, List}
use mutell_demo.Types.Plan.{Plan}
use mutell_demo.Types.Terminal.{Terminal}
use mutell_demo.Types.Tenant.{Tenant}
use mutell_demo.Types.Auth.{UserResponse, PermissionsSchemaResponse, PermissionsResponse}
use mutell_demo.Types.Ai.{AiConfig, AiConfigListResponse, AiProviderOption, AiProvider}
use mutell_demo.Types.Report.{Report}
use mutell_demo.Types.Query.{AuditEntry, AuditLogResponse}
use mutell_demo.Format.{Locale, truncate}
use mutell_demo.Screen.Labels.{labels, loaded}
use mutell_demo.Screen.Scores.{Scores}
use mutell_demo.Pages.Admin.Plans.{PlansPage, plans_view}
use mutell_demo.Pages.Tenants.{AdminTenantsPage}
use mutell_demo.Pages.Tenants.View.{AdminTenantsResponse, tenants_view}
use mutell_demo.Pages.Admin.Users.{AdminUsersPage, AdminUsersResponse, users_view}
use mutell_demo.Pages.Admin.AuditLog.{AuditLogPage, audit_view}
use mutell_demo.Pages.Team.{TeamPage}
use mutell_demo.Pages.Team.View.{UserListResponse, Busy, team_view}
use mutell_demo.Pages.Terminals.{TerminalsPage}
use mutell_demo.Pages.Terminals.View.{TerminalListResponse, terminals_view}
use mutell_demo.Pages.Reports.{ReportsPage, ReportListResponse, reports_view}
use mutell_demo.Types.Slot.{Slot}
use mutell_demo.Pages.Admin.Providers.{ProvidersPage, providers_view}
use mutell_demo.Pages.Slots.{SlotsPage}
use mutell_demo.Pages.Slots.View.{SlotListResponse, slots_view}
use mutell_demo.Pages.Settings.Ai.{AiPage}
use mutell_demo.Pages.Settings.Ai.View.{ai_view}
use mutell_demo.Pages.Lists.Admin.{
  plan_labels, tenant_labels, tenants_of, user_labels, users_of, entry_labels, entries_of,
  provider_labels,
}
use mutell_demo.Pages.Lists.Tenant.{member_labels, members_of, terminal_labels, terminals_of}
use mutell_demo.Pages.Lists.Slots.{slot_labels, slots_of}
use mutell_demo.Pages.Lists.Work.{report_labels, reports_of, config_labels, configs_of}

-- Each of ten pages with a list (plans, tenants, users, AI providers, audit log, team, terminals,
-- reports, AI configurations, slots) shows the items that its query returned, each once, in their
-- order and under its own id, in a row whose first text is its own name, title, action or provider
-- or, for a slot, after the box that an administrator has, its truncated id. It does so whatever dialogs are open and requests under way,
-- the dialog for the models of a provider apart; and it shows none while the query loads, or when it
-- has returned nothing.
pub items_shown :
    {W : Type 0} ⦃s : Scores W⦄ (l : Locale) (is_loading allowed creating updating deleting : Bool)
    (page : ℕ) (plans : Option (List Plan)) (plans_page : PlansPage)
    (tenants : Option AdminTenantsResponse) (options : List (String × String))
    (tenants_page : AdminTenantsPage) (users : Option AdminUsersResponse)
    (users_page : AdminUsersPage) (log : Option AuditLogResponse) (log_page : AuditLogPage)
    (members : Option UserListResponse) (schema : Option PermissionsSchemaResponse)
    (fetched : Option PermissionsResponse) (busy : Busy) (team_page : TeamPage)
    (terminals : Option TerminalListResponse) (terminals_page : TerminalsPage)
    (reports : Option ReportListResponse) (reports_page : ReportsPage)
    (configs : Option AiConfigListResponse) (providers : Option (List AiProviderOption))
    (ai_page : AiPage) (all_providers : Option (List AiProvider)) (providers_page : ProvidersPage)
    (slots : Option (SlotListResponse W)) (all_terminals : Option (List Terminal))
    (slots_page : SlotsPage)
    → (labels (plans_view l is_loading plans creating updating plans_page)
        ≡ loaded is_loading (λ (x : Plan). (x.id, x.name)) plans)
      × (labels
            (tenants_view l is_loading tenants options creating updating deleting page tenants_page)
          ≡ loaded is_loading (λ (x : Tenant). (x.id, x.name)) (tenants_of tenants))
      × (labels (users_view l is_loading users updating users_page)
          ≡ loaded is_loading (λ (x : UserResponse). (x.id, x.full_name)) (users_of users))
      × (labels (audit_view l is_loading log log_page)
          ≡ loaded is_loading (λ (x : AuditEntry). (x.id, x.action)) (entries_of log))
      × (labels (team_view l is_loading members schema fetched busy page team_page)
          ≡ loaded is_loading (λ (x : UserResponse). (x.id, x.full_name)) (members_of members))
      × (labels
            (terminals_view l is_loading terminals creating updating deleting page terminals_page)
          ≡ loaded is_loading (λ (x : Terminal). (x.id, x.name)) (terminals_of terminals))
      × (labels (reports_view l allowed is_loading reports creating deleting reports_page)
          ≡ loaded is_loading (λ (x : Report). (x.id, x.title)) (reports_of reports))
      × (labels (ai_view allowed is_loading configs providers creating updating deleting ai_page)
          ≡ loaded is_loading (λ (x : AiConfig). (x.id, x.provider_name)) (configs_of configs))
      × (labels (
            providers_view is_loading all_providers updating
              (record providers_page { models_open = false }))
          ≡ loaded is_loading (λ (x : AiProvider). (x.id, x.display_name)) all_providers)
      × (labels (slots_view l allowed is_loading slots all_terminals updating slots_page)
          ≡ loaded is_loading (λ (x : Slot W). (x.id, truncate x.id 8)) (slots_of slots))
items_shown l is_loading allowed creating updating deleting page plans plans_page tenants options
      tenants_page users users_page log log_page members schema fetched busy team_page terminals
      terminals_page reports reports_page configs providers ai_page all_providers providers_page
      slots all_terminals slots_page =
    (
      plan_labels l is_loading plans creating updating plans_page,
      tenant_labels l is_loading tenants options creating updating deleting page tenants_page,
      user_labels l is_loading users updating users_page,
      entry_labels l is_loading log log_page,
      member_labels l is_loading members schema fetched busy page team_page,
      terminal_labels l is_loading terminals creating updating deleting page terminals_page,
      report_labels l allowed is_loading reports creating deleting reports_page,
      config_labels allowed is_loading configs providers creating updating deleting ai_page,
      provider_labels is_loading all_providers updating providers_page,
      slot_labels l allowed is_loading slots all_terminals updating slots_page,
    )
