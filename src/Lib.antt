-- ===== src/Lib.antt =====
-- The web client of the agentic RAG application, frontend/src of the repository, and what it relies on of the
-- server, src.
--
-- The client is a React application over an HTTP API. Its parts and the files that model them:
--   Api      frontend/src/lib/api.ts. `Api/Cookie` is readCookie, `Api/Csrf` the request interceptor,
--            `Api/Stream` streamChat with its read loop, `Api/Errors` what pages read of a failed call.
--            `Api/Stream/Frames` describes the frames as the server writes them. `Api/Shapes` are JSON values
--            and the shapes that either side declares for them, `Api/Shapes/Client` the client's interfaces.
--   Types    frontend/src/lib/types.ts, the records of the API.
--   Format   frontend/src/lib/utils.ts, formatBytes.
--   Auth     frontend/src/context/AuthContext.tsx, who is signed in.
--   Routing  frontend/src/App.tsx and components/Routes.tsx: the table of routes and the two guards.
--   Layout   frontend/src/components/Layout.tsx, the frame around protected pages.
--   Forms    frontend/src/pages/Login.tsx, Register.tsx, ForgotPassword.tsx and ResetPassword.tsx.
--   Users, Documents, Chat, Support
--            the pages of the same names in frontend/src/pages. `Chat/Session` is the chat page over time,
--            `Chat/Session/History` what can be said of it from outside.
--   System, Dashboard, Profile, Home
--            frontend/src/pages/System.tsx with the four tables System*.tsx (`System/Tables`),
--            Dashboard.tsx with AdminDashboard.tsx (`Dashboard/Admin`), Profile.tsx and Home.tsx.
--   Boundary frontend/src/components/ErrorBoundary.tsx.
--   Queries  the calls of useQuery in all pages: their keys, paths and types (`Queries/Keys`), and which of
--            them the pages invalidate when something changes (`Queries/Refresh`).
--   Server   `Server/Schemas` and `Server/Routes`: src/schemas.py and the routes of src/api/routers, the bodies
--            that they take and the answers that they declare. `Server/Accounts`: src/api/routers/auth.py,
--            src/auth/deps.py, the handlers of src/api/routers/admin.py that act on an account, and
--            src/cli.py. `Server/Tickets`: src/api/routers/support.py. `Server/Csrf`: the handler of
--            `GET /auth/csrf` with src/auth/cookies.py.
--   Contract the client against the server: the paths that its calls read and the requests that its pages send
--            against the routes, its interfaces against the schemas, what the page of accounts
--            offers against the server's guard (`Contract/Guards`), and the token that goes with a request
--            against the server's check (`Contract/Csrf`).
--   Ui       what a page shows and calls; Text: JavaScript strings as lists of UTF-16 code units;
--   Base     names and lemmas that all of them share; Tests: the theorems at concrete inputs.
--
-- A page's state is the record of its `useState`s and refs. A handler takes the state and returns the
-- new one with the list of calls that it makes (requests, toasts, invalidated queries, navigation), in
-- the source's words: `on_click` or `step` for events, `on_settled` for the end of a mutation. A view
-- is the list of the page's widgets in document order, from the state and a snapshot of its
-- queries; `Ui.clicks` are the events that it offers. Chat sends a message by `Chat/Sending`, which
-- calls `Api/Stream` with the callback that changes the page's state; `Chat/Session` takes the same message
-- apart into steps, between which the user goes on. The answers of the network are arguments, so a
-- theorem quantifies over everything that the server can do.
--
-- The server's tables are records of lists of rows. A handler takes the tables, and what it draws at random as
-- arguments, and returns the new tables with an answer or a refusal. A path reaches the first route in order
-- whose template it fills, as the framework documents. The shapes of bodies say which fields there are and of
-- which kind; bounds on lengths are left out.
--
-- Parameters stand for code outside the repository: JSON.parse, TextDecoder (with the documented
-- property that pieces decode to the text of the whole), fetch, the test of one path by react-router
-- (with the property that a static path matches itself alone), zod's email test, dates, toUpperCase,
-- the arithmetic on scores, and on the server the hashes of tokens and passwords and Python's lower and
-- strip, and what the browser makes of its cookies when an answer sets one (with the property that the cookie
-- then has that value). React Query's cache of messages is an interface with `get` and `set`
-- (with the property that it gives back what is set), and its test whether an invalidation reaches a
-- key is taken to match every key that the given one begins.
--
-- Fuel: `Routing.settle` follows redirects on fuel, and 2 is shown to be enough; the interceptor runs
-- on its own request with a depth of 2, shown to be enough too. The read loop is structural in
-- the reads.
--
-- Not modelled: the styled components in frontend/src/components/ui, which wrap a component library
-- and have no logic of their own; the build and main.tsx, which configure and mount; and the
-- server's documents, conversations, ingestion, retrieval and agents, which work on stores and models outside
-- the repository. Layout, icons, styling and scrolling are left out of views,
-- and so are React Query's timers (staleTime, retry, and when it drops what no page shows).
pub mod Base
pub mod Text
pub mod Types
pub mod Api
pub mod Ui
pub mod Auth
pub mod Routing
pub mod Server
pub mod Forms
pub mod Format
pub mod Documents
pub mod Chat
pub mod Contract
pub mod Users
pub mod Layout
pub mod Support
pub mod System
pub mod Dashboard
pub mod Profile
pub mod Boundary
pub mod Home
pub mod Queries
pub mod Tests
