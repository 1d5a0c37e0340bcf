-- ===== src/Lib.antt =====
-- The web console of OpenTask, a scheduler of tasks: the client of its HTTP interface and the parts of
-- the console that keep state or decide.
--
-- The console (ui/vite-opentask/src) talks to the server through a generated client (apis-gen): its
-- methods build requests (apis), whose bodies and answers are encoded and decoded by models (models),
-- and hand them to a runtime (runtime.ts), which adds headers and a query, passes the request through
-- middleware, fetches, and turns bad answers into exceptions. The console configures the client
-- (apis/config.ts) with a middleware that adds the token of the browser's storage and rejects every
-- answer but 200. Its pages are reached through tables of routes (routes) with a guard that wants a
-- user, whom the store reads from the token (store, lib/jwt-decode.ts), and show toasts
-- (components/ui/use-toast.ts). Its forms call the client in mutations, whose handlers change the
-- page, and its lists in queries, whose answers they render as tables.
--
-- Common     names, tests on numbers, lists, results and integers that all modules share
-- Js         values of the language, their texts, JSON, URI components and exceptions. An object is
--            its list of properties; numbers are integers; a date is a time value or invalid. What
--            the platform decides (`toISOString`, `Date.parse`, the texts of its objects) is the
--            record `Platform`, with the law that parsing the ISO text of a time gives the time.
-- Models     apis-gen/models: `from_json`, `from_json_typed` and `to_json` are the functions
--            ...FromJSON, ...FromJSONTyped and ...ToJSON of each file. Models/BaseResponse is the
--            pattern of the twelve envelopes, which Models/Responses instantiates.
-- Runtime    apis-gen/runtime.ts: Runtime/Config (Configuration), Runtime/Fetch (BaseAPI),
--            Runtime/Query (querystring), Runtime/Mime (isJsonMime, with its regular expression
--            matched by derivatives in Runtime/Regex, and the types that it stands for in
--            Runtime/Mime/Types). Asynchronous code is `Io W A`: a function
--            of the world that gives a value or an exception, and the next world.
-- Apis       apis-gen/apis: one module for each class, the patterns of its methods in Apis itself
-- AppConfig  apis/config.ts
-- Toast      components/ui/use-toast.ts: the module's variables are the record `Toaster`; Toast/Steps
--            has the steps of a page as a relation, Toast/Steps/Ending the timers that end
-- Routing    routes/utils.tsx, routes/index.tsx, routes/modules and the guard of
--            routes/auth-router.tsx
-- Session    lib/jwt-decode.ts and store/index.tsx; what they call of the browser is the record `Host`
-- Stepper    components/ui/stepper.tsx (StepperProvider, useStepper) and the buttons of
--            pages/taskInfos/components/new-task-form.tsx
--            Stepper/Layout is how the steps are placed, Stepper/Steps what is rendered of one
-- Forms      pages/login/components/user-auth-form.tsx and, of pages/taskInfos/components,
--            switch-status.tsx and new-task-form.tsx; Forms/Fields is components/ui/form.tsx. A
--            page is the record `Page`; useMutation is the record `Mutations`, the schemas and the
--            form library are `Library`, both with the laws that their documentation gives.
-- Pages      the lists: components/date-table, apis/index.tsx and, of pages/taskInfos,
--            pages/taskLogs and pages/clients, index.tsx, tool-bar.tsx and columns.tsx. Pages/Home is
--            pages/home/components. The table of the table library is `Table` of Pages/Paging and
--            of Pages/Toolbars.
-- Layout     components/nav, components/sidebar, components/dashboard-nav.tsx, theme, and of layout
--            app-sidebar.tsx and user-nav.tsx
-- Tests      a concrete platform and client, and runs of the theorems
--
-- Every definition is structurally recursive and runs; the only fuel is that of the decimal digits of
-- a number n in Js/Text, n + 1, which is more than it has digits.
--
-- Other packages' code is a parameter with the laws that its documentation gives, and Tests shows that
-- they can hold: the mutations of @tanstack/react-query (Forms), the schemas and forms of zod and
-- react-hook-form (Forms/NewTask), and the tables of @tanstack/react-table (Pages).
--
-- Not modelled: the server and the executors (C#), the markup of the pages and the component
-- library, the drawer, which no page imports, what a query does between its calls, the matching of
-- URLs by the router, the delay of the timers, numbers that are no integers, and
-- the exponents in the texts of numbers from 10^21 on. The steps of a call
-- run one after another: calls that overlap are sequences of `Io`.
pub mod Common
pub mod Js
pub mod Models
pub mod Runtime
pub mod Apis
pub mod AppConfig
pub mod Toast
pub mod Routing
pub mod Session
pub mod Forms
pub mod Layout
pub mod Pages
pub mod Stepper
pub mod Tests
