-- ===== src/Lib.antt =====
-- Verification of the web front end of Indica AÍ, a referral platform: a tenant's dashboard, where
-- programs, commissions and payouts are managed; the partner's pages, where leads are referred and
-- the Pix key is kept; the packages that both share; and the tracking widget of the tenants'
-- sites. The front end talks to a Go back end over JSON. What a page relies on there is modelled
-- beside the page.
--
-- The parts, and how the modules correspond to the code:
--
-- Programs is the making of a program. Programs/Tiers is
-- web/packages/ui/src/components/tier-builder.tsx: update_tier, add_tier and remove_tier are its
-- functions of those names, and edit is any input of a row. Programs/Form is
-- web/apps/dashboard/app/(app)/programas/novo/page.tsx: default_tiers_for, handle_preset_change,
-- build_reward and build_backend_rules, and change for the inputs; Form/Submit is publish, cut at
-- its await into publish and published. Programs/Server is Validate of
-- internal/domain/rules/schema.go and the checks of Create in
-- internal/api/handlers/programs/handler.go; Programs/Acceptance puts the two sides together, and
-- Programs/Preview is web/packages/ui/src/components/reward-rule-preview.tsx with the rules that
-- the page gives it.
--
-- Dashboard/Api is web/apps/dashboard/app/lib/api.ts: Types has its interfaces, Endpoints a value
-- for each call, which says method, path, query and body. Http is its request: build_request is
-- what fetch is given and settle what becomes of the answer. Dashboard/Saques and
-- Dashboard/Comissoes are the pages of payouts and commissions,
-- web/apps/dashboard/app/(app)/saques/page.tsx and comissoes/page.tsx: State has the useState
-- variables, a handler is cut at its await into begin and finish, View has what is shown. Tasks
-- has the requests in flight, which the pages share; Saques/Answers has the runs of answers
-- without a click; in Saques/Traces and Comissoes/Traces a step is a click, an input or the answer
-- to any request in flight, so that a trace is any interleaving of them. Saques/Server and
-- Comissoes/Laws have the transitions of the back end's handlers in
-- internal/api/handlers/payouts/handler.go and internal/api/handlers/rewards/handler.go.
--
-- Dashboard/Auditoria is app/(app)/auditoria/page.tsx: the three answers of its Promise.all are
-- arrivals that come in any order, View has its tables and details, Scores what Check of
-- internal/domain/fraud/engine.go and Summary of internal/api/handlers/audit/handler.go give it.
-- Dashboard/Indicacoes is indicacoes/table.tsx with sheet.tsx: a World has the page, the sheet
-- that is mounted with its number, and the requests of both; render mounts or unmounts the sheet
-- after each step, and an answer to a save reaches only the sheet that sent it. Traces has its
-- steps, Tracked what the page knows of its requests, Stuck the states after a failed load, and
-- Races two sheets one after the other. Dashboard/Parceiros is parceiros/table.tsx and sheet.tsx,
-- with Convidar for convidar-sheet.tsx and page.tsx, Dashboard/Overview is dashboard/page.tsx, and
-- Programs/Listing programas/page.tsx. Dashboard/SignIn has the pages of app/(auth),
-- Dashboard/Sidebar app/components/sidebar.tsx, Dashboard/Tenants
-- app/(admin)/admin/tenants/page.tsx, and Dashboard/Words the texts of optional fields that the
-- pages share.
--
-- Dashboard/Guard is AuthGuard of web/apps/dashboard/app/components/auth-guard.tsx, and
-- Public/Redirect the redirect of a referral link, web/apps/public/app/r/[slug]/page.tsx, with
-- app/components/cookie-banner.tsx in Public/CookieBanner.
--
-- Partner is web/apps/partner. Api is app/lib/api.ts. Phone, Split and Referral are the page
-- app/(app)/parceiro/indicacoes/nova/page.tsx: normalizePhone, the flexible split with the effect
-- that keeps its shares, and handleSubmit. Split also has the test of FlexibleSplitEvaluator in
-- internal/domain/rules/evaluators.go. Settings is app/(app)/parceiro/configuracoes/page.tsx, and
-- Pix its Pix key, with ValidatePixKey of internal/api/handlers/payouts/handler.go. Home, Extrato
-- and Indicacoes are the pages parceiro/page.tsx, extrato/page.tsx and indicacoes/page.tsx, Badges
-- the labels they share; SignIn and Verify are the pages of app/(auth), and Guard is
-- app/components/auth-guard.tsx.
--
-- Client is web/packages/api-client: createClient of src/index.ts in Client and the calls of the
-- other files in Client/Endpoints. CopyLink is
-- web/packages/ui/src/components/copy-link-button.tsx. Toast is
-- web/packages/ui/src/hooks/use-toast.ts: the module variables are one Store, with the timers that
-- setTimeout holds and the mounted hooks; a hook that unmounts runs the clean-ups of its effects.
-- Tracking is web/packages/tracking/src/widget.ts: Cookies has getCookie and setCookie, Visitor
-- the visitor's id and the referral code, Widget init with the keys of the JSON object that it
-- sends. A World says whether the browser takes a Secure cookie, which is what setCookie asks for.
--
-- Js has what the sources use of JavaScript: strings as lists of UTF-16 units, trim, split,
-- decimal numbers, URLSearchParams, the URI codecs, JSON values as the pages read them,
-- Promise.all of two, and regular expressions with a matcher and a relation for the texts that
-- they describe. Prelude has shared names, lists and integers; Tests runs the theorems on concrete
-- inputs.
--
-- Bounds. Numbers are not bounded, except that a goal's target has to fit Go's int. An amount or a
-- percentage that a user types is a count of thousandths, a share of a split one of
-- half-thousandths, a percentage of the overview one of hundredths; the rounding of floating point
-- is left out. Number(v) of an input is given as parsed, and finite. encode_uri leaves surrogates
-- out, and lower covers ASCII and Latin-1. The name of a cookie consists of letters, digits and
-- underscores, as the only one in use does. Recursion is structural; the decimal digits of n take
-- n + 1 of fuel, and one step divides n by ten.
--
-- Parameters. fetch, the page, the clock and the random numbers are arguments. A rejected fetch
-- has a message of the browser's, zod's test of an e-mail address is is_email, and null_message is
-- the engine's message about a property of null.
--
-- Not modelled: markup and the formats of money and dates; the settings of the dashboard, which
-- are static text, the other static pages, and the middleware, which lets every request through;
-- the delays of timers and navigation; the back end beyond what is named above.
pub mod Prelude
pub mod Js
pub mod Http
pub mod Client
pub mod CopyLink
pub mod Dashboard
pub mod Programs
pub mod Partner
pub mod Public
pub mod Toast
pub mod Tracking
pub mod Tests
