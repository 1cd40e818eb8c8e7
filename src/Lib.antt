-- ===== src/Lib.antt =====
-- The web client of the change quality agent, in frontend/src: what it shows of a session and of
-- a running SOP quality check, how it follows their event streams, how it loads and changes
-- data, what its forms submit, who is signed in, and which pages that opens.
--
-- Parts and files:
--   Base      shared names: lists, texts, sorting, JSON values (Base/Json), and objects used as
--             maps (Base/Dict), which also answer for the names that they inherit from
--             `Object.prototype`; Base/Scan is how JavaScript trims and splits a text, Base/Uri
--             its `encodeURIComponent`, and Base/Text/Decimal the reading of printed numbers.
--   Session   frontend/src/features/sessions. Types and Reducer are types.ts and reducer.ts;
--             Stream is the hook `useSessionStream` of hooks.ts as a machine: `step` takes one
--             action of the outside (a new session, the history, an event source opening,
--             bringing an event or failing, the timer), and the sources made are numbered; Wire
--             is `parseSessionStreamEvent`. Bounded, Greatest, Delivery, LiveText, Groups,
--             Connection, Resume, Listeners and Liveness hold the proofs; Refinement and Orders compare the
--             reducer with a log in which every number is written once.
--   Check     frontend/src/features/sop-quality-checks. Types and Reducer are types.ts and
--             reducer.ts up to line 211; Projection is `projectSessionStateToSopView`, which
--             shows a session as a check; Hook is `useSopQualityCheck` as a machine, and Result
--             what it returns, Page the two hooks together; Observer is
--             components/SopQualityCheckObserver.tsx, what is shown of a check; Wire is
--             `parseSopQualityCheckEvent` and the number of an event. Nodes, Frame,
--             Lifecycle, Order, Live, Turns, Followed, Switching and the children of
--             Projection hold the proofs.
--   Async     the data hooks. Request and Features are the lists and details of
--             frontend/src/features/mcp, agents and llmProviders, guarded by a request number;
--             Effect is frontend/src/features/sop/hooks.ts, guarded by a flag of each run;
--             Mutation is `runMutation`, and Wrappers the API calls that are bound to it.
--             Latest, Closures and Pending hold the proofs.
--   Auth      frontend/src/features/auth/AuthContext.tsx; Races holds the proofs.
--   Routing   frontend/src/app/routing: the route table and `ProtectedRoute`; Access holds the
--             proofs.
--   Mcp       frontend/src/features/mcp/components/McpServerForm.tsx: Form is what a submission
--             checks and sends, Filling the effect that fills the form; Menu is
--             components/McpRowActionsMenu.tsx. Secrets, Texts, Untouched and Keys hold the
--             proofs.
--   Providers frontend/src/features/llmProviders: Texts and Form are components/
--             LlmProviderForm.tsx, Testing is the testing of models of pages/
--             LlmProviderDetailPage.tsx. Reading, Submitting, Untouched and Tested hold the
--             proofs.
--   Agents    frontend/src/features/agents/components/AgentForm.tsx: Form is its state and its
--             effects, Saving what may be chosen and what is saved. Settling, Submitting,
--             Untouched and Choices hold the proofs.
--   Chat      frontend/src/features/sop/pages/ChatPage.tsx: Page is the page as a machine over
--             what the user and the server do; Starts holds the proofs.
--   Http      frontend/src/lib/apiClient.ts, and what the hooks make of a thrown value.
--   Api       frontend/src/features/*/api.ts: Calls is the request that each function makes,
--             Answers what it makes of an answer that the HTTP client does not read. Parts,
--             Reading and Distinct hold the proofs.
--   Pages     the pages of servers, providers and agents under frontend/src/features/*/pages.
--             A handler is a tree of what it asks the user, calls, loads again and navigates to
--             (Handler); Servers, Providers and Agents have the handlers, Views what a page
--             shows of its load. Steps, Saving, Deleting and Shown hold the proofs.
--   Tables    the list pages and their tables, McpServerTable.tsx, AgentTable.tsx and
--             LlmProviderTable.tsx: Rows is which rows are shown, Cells what is shown of them.
--             Narrowing and the end of Cells hold the proofs.
--   Workspace frontend/src/app/App.tsx and WorkspaceSidebar.tsx (Shell), and DevUserPicker.tsx
--             and DevUserSwitcher.tsx of frontend/src/features/auth (Accounts), and
--             frontend/src/app/RecentSopSidebarPanel.tsx (Recent). Clicks, SignIn and Listing
--             hold the proofs.
-- How they interact: the pages call the data hooks, which call the HTTP client;
-- `useSopQualityCheck` gives the session of a running check to `useSessionStream`, and shows the
-- projection of that session in place of its own nodes; the hooks' mutations make the calls of
-- the API modules, which the pages' handlers await; the routes and the sidebar read the state of
-- the signed-in user, which the picker and the switcher change.
--
-- Conventions: a number that the client reads (a sequence, an id, a status) is natural, and
-- a coordinate of the menu of a server a whole number, which may be negative (Base/Int). An
-- object used as a map is a list of its keys and values in the order of insertion; that
-- JavaScript lists keys that look like array indices first is not modelled, and no result
-- depends on it but for the order of nodes. The value of an unchecked cast has the type
-- declared. An exception is `none`, or an outcome of its own. An asynchronous function is split
-- at each `await`: one step up to it and one behind it, and a sequence of steps is an
-- interleaving. React's renders and effects run to their end between two steps. The body of a
-- request is the value whose JSON text is sent. The parameters are `JSON.parse`,
-- `JSON.stringify`, `new URL` in the form of an MCP server, and `localeCompare`, `toLowerCase`
-- and the writing of a date, which depend on the browser; `trim`, the splitting of texts, the cut
-- at a sign, `encodeURIComponent` and `parseInt` are defined in Base and Check/Wire. All loops are
-- structural; the only fuel is that of `decimal`, one more than the number printed, which has
-- fewer digits.
--
-- Not modelled: the server (Python), markup, layouts, the contents of the pages' details, and
-- `fetch`.
pub mod Api
pub mod Base
pub mod Async
pub mod Agents
pub mod Auth
pub mod Routing
pub mod Http
pub mod Session
pub mod Tables
pub mod Workspace
pub mod Check
pub mod Mcp
pub mod Pages
pub mod Providers
pub mod Chat
