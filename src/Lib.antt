-- ===== src/Lib.antt =====
-- The web front end of mini-drop: a React application that creates profiling tasks, follows them
-- while they are collected and analysed, and shows their results. This library models the
-- application's logic; markup, animation and styles are left out.
--
-- The parts, and the files that model them:
-- - Base: JavaScript's texts, lists, numbers and stable sort, as far as the source uses them; the
--   children of Text have the lemmas on splitting, trimming and printing.
-- - Domain (web/src/domain.ts): the interfaces are records (AgentInfo, HotmethodTask), the label
--   tables functions; parseTaskParams, formatDate, formatRelativeTime, formatDuration and
--   basename.
-- - Api (web/src/api/index.ts): a reply is an ApiResponse or a Failure; each exported function is
--   a constructor of Call with its method, path and query; the interceptors and getCookie.
-- - Effects: a handler gives a Run, the new state and the effects in order: requests, navigation,
--   cookies, alerts and object URLs.
-- - Polling (web/src/taskPolling.ts): waitForTaskResult, whose bound is the source's 120 rounds.
--   A Round holds what the server and the abort signal do in it.
-- - Flame (web/src/components/FlameGraph.tsx): Tree, the parser of collapsed stacks and the
--   fallback tree; Chart, the life of the chart in its container from the component's effects,
--   also for the DiffFlamePanel of web/src/pages/FlameDiff.tsx, which differs in its sizes.
-- - TaskResult (web/src/pages/TaskResult.tsx): Labels, Refresh (the interval), Panels (tabs),
--   Bytes, Artifacts, Rows, Evidence, State, and Load with Requests, where each request of
--   loadTask is a function; Load.Turns has loads that overlap, one turn at a time: the requests
--   of one try block but the Memray page's are answered in one turn. Under View, what the tabs
--   show: Attribution (parseAttributionReport), Info, Ebpf and Memory.
-- - Auth (web/src/store/useAuth.ts): the store; LoginPage with its View (web/src/pages/Login.tsx);
--   Guard (web/src/components/ErrorBoundary.tsx, web/src/router.tsx and the redirect of
--   web/src/layouts/AppLayout.tsx) and Layout, the rest of AppLayout;
--   Cookies, where the store and the interceptor of Api meet in the browser's cookies, an
--   interface CookieJar.
-- - Creation: what the pages that create tasks share; Modal, its View and Edits
--   (web/src/components/CreateTaskModal.tsx): the checks, what is shown, and the fields in any
--   order.
-- - TaskList (web/src/pages/TaskList.tsx) and Home (web/src/pages/Home.tsx), each with its View.
--   TaskList.Table has the rows and pages; TaskList.Pollers joins the life of the page, the same
--   in both, with the polling it starts: the clean-up aborts the poller that the page's ref names.
-- - Timeline (web/src/pages/ContinuousTimeline.tsx): the runs of the flame graph's effect are
--   numbered, and an answer carries the number of its run; Windows, the list with its filter;
--   Events, what the visitor does while requests for the list overlap; View.
-- - Groups (web/src/pages/Groups.tsx) and Schedule (web/src/components/ScheduleTasksPanel.tsx), each
--   with its View.
-- - Diff (web/src/pages/FlameDiff.tsx): the two task ids and the request; Events, requests that
--   overlap; Tree, transformNode; Panel, the DiffFlamePanel with its chart; View.
-- - Agents (web/src/pages/Agents.tsx): the loading and the cards; Detail
--   (web/src/pages/AgentDetail.tsx).
-- - Settings (web/src/pages/Settings.tsx): the three requests, the form, and what is shown.
--
-- The pages interact through the store of Auth, through Api and through addresses. A reply is an
-- argument of the handler that waits for it; a handler runs to its end with no other event of its
-- page in between, except in Polling, Timeline, Flame.Chart, TaskResult.Load.Turns,
-- TaskList.Pollers, Diff.Events and Diff.Panel, where events are explicit. There an event, the
-- rendering that it causes and the effects of that rendering are one step.
--
-- Sizes, counts and codes are natural numbers; what a form holds is a Number, which may be NaN,
-- infinite or lie between two integers. Texts are read by code point. JSON.parse,
-- decodeURIComponent, encodeURIComponent, toFixed, sums of doubles, dates and the locale are
-- parameters. The fuel of the two loops with a bound is the source's own: 120 rounds of polling,
-- five units of bytes.
--
-- Not modelled: the Go, C++ and Python programs of the repository; the drawing of flame graphs by
-- d3-flame-graph, which is given a tree, a size and a term to highlight; and the effect of the result
-- page that sends a continuous task on to its timeline.
pub mod Base
pub mod Domain
pub mod Api
pub mod Agents
pub mod Effects
pub mod Polling
pub mod Flame
pub mod TaskResult
pub mod Auth
pub mod Creation
pub mod TaskList
pub mod Home
pub mod Timeline
pub mod Groups
pub mod Schedule
pub mod Settings
pub mod Diff
