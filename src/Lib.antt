-- ===== src/Lib.antt =====
-- The portal of Mutell (portal/src): a Next.js application through which shops look at evaluated
-- sales conversations and administer users, terminals, plans and AI providers.
--
-- Parts and how they interact. Pages call hooks (portal/src/hooks), hooks hand queries and mutations
-- to react-query and call services (portal/src/services), services hand requests to one axios client
-- (portal/src/lib/api.ts). Its interceptors read and write the tokens in `localStorage`, which the
-- session context (portal/src/stores/auth-store.tsx) and the sign-in pages write as well. Layouts
-- and role hooks (portal/src/lib/hooks.ts) decide by the user of the context what is shown.
--
-- Files:
--   Prelude    shared library names, Boolean tests, lists, maps by key, text
--   Browser    `localStorage`, the fields of an axios error, messages
--   Api        lib/api.ts: the interceptors, `processQueue` and the token refresh
--   Session    stores/auth-store.tsx: AuthProvider; SignOut is its `logout` over the client, and
--              Tab is the session and the client over one storage
--   Access     lib/hooks.ts, app/page.tsx, app/(app)/layout.tsx, app/(app)/admin/layout.tsx
--   Types      types/*.ts: unions, requests, responses, and the objects that are sent
--   Http       a request as a service hands it to axios
--   Services   services/*.ts: one function for each method
--   Hooks      hooks/*.ts but useGoBack and useModal, which are in Widgets: one function for each
--              hook; Cache is react-query's side
--   Pages      the pages under app: Auth the sign-in pages and settings/security, Slots, SlotDetail
--              (slots/[id]), Team, Terminals, Tenants (admin/tenants and settings/organization),
--              Reports, Dashboard, Analytics, Account (profile and settings/billing), Settings (ai
--              and notifications), Admin (plans, ai-providers, audit-log, users, tenants/[id],
--              health and dashboard). Each holds the handlers, and its View, or its end, what the
--              page shows. Edits says what dialogs leave behind, Lists what lists show, and
--              Ranges the dates that the dashboard and the analytics ask for
--   Screen     what a page shows: the parts of components/common, ui and form, the badges, and the
--              colours of scores; Clicks, Laws and Labels are about the clicks and items of a page
--   Format     lib/format.ts
--   Widgets    components that keep a state of their own: Select, Switch, ChartTab, the menus of
--              ActionMenu, dialogs, useModal and useGoBack
--   Paging     components/tables/Pagination.tsx
--   Layout     context/*.tsx, layout/Backdrop.tsx, layout/AppHeader.tsx (Header), and
--              layout/AppSidebar.tsx (Menu, with Routes, the pages by the folders of app)
--
-- Time. JavaScript runs the code between two awaits without a break. Such a stretch is one function
-- here: in Api each is an event of `step`, and a list of events in any order is an interleaving of
-- any number of calls; in Session and Pages a handler is cut in two at its await, and the answer is
-- an argument. All loops go over lists, or over a count that the code gives; the printing of a
-- number has the number itself as fuel, which is enough since each step leaves its tenth.
--
-- What is assumed. axios sends a configuration again as it is, its own fields and `_retry`
-- included. A `localStorage` key is read as its text, or as nothing. The server's answers have
-- the shapes that types/*.ts declare; counts and page numbers are natural numbers. react-query's
-- comparison of keys is a parameter with two documented laws (Hooks.Cache.QueryClient). Dates,
-- their texts and Intl are a parameter (Format.Locale, and Pages.Ranges.Dates for date-fns), and
-- so are scores, which have fractions (Screen.Scores); the laws of their comparison are those of
-- all numbers of JavaScript, NaN among them.
--
-- What is shown. A page is a function from its state and the answers of its queries to the list of
-- its visible parts, in the order of the document. A button, a menu and a row name what a click on
-- them does, so that a list of parts says what a user can do. A part does not say how it is nested,
-- its styles, icons, placeholders and the initials of names.
--
-- Not modelled: styles, icons and decorative animations, flatpickr's date picker, heights
-- that the browser measures, the terminal agent, and the backend, but for who may change a tenant
-- and what becomes of it (Pages.Edits, of backend/app/routers/tenants.py).
mod Prelude
pub mod Browser
pub mod Types
pub mod Api
pub mod Session
pub mod Access
pub mod Http
pub mod Services
pub mod Hooks
pub mod Pages
pub mod Paging
pub mod Layout
pub mod Screen
pub mod Format
pub mod Widgets
