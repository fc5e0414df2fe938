-- ===== src/Lib.antt =====
-- The AI ERP frontend: the logic of its TypeScript sources, under frontend/src.
--
-- The program is a single-page application. Its screens read and change projects, schedules and
-- plans through an HTTP client. Around that stand the parts with behaviour of their own: the session
-- that ends once and for every caller, the store that outlives the screens and remembers refusals and
-- attempts whose result is uncertain, the recovery after a lost answer, and the calendar.
--
-- Which file models which part:
--   Base, Base/*     helpers: tests, lists, texts as code points, a `Map` as an association list
--   Browser          the window, the session storage and the dispatched events
--   GoogleReturn     frontend/src/google-return-context.ts
--   Session          frontend/src/session.ts: `generation`, `terminated`; each function is one here
--   Api              frontend/src/api/client.ts: `parse`, `read`, `mutate`
--   State            frontend/src/state.ts: Denials (`recordAccessDenial` to `accessRead`), Attempts,
--                    Sharing, Events (every call that changes the store), Hooks (`use...`), Lookup
--                    (`useProject`), Policy (`acknowledgement`, `capabilities`, `calendarStatus`), Keys
--                    (`keys`, `refreshSchedule`)
--   ScheduleTime     frontend/src/schedule-time-mutation.ts
--   ProjectStart     frontend/src/screens/ProjectStart.tsx: the attempt to create a project
--   QueryCache       one query of the cache, as far as the share dialog relies on it
--   ShareDialog      frontend/src/screens/Account.tsx: `ShareInvitationDialog`, its two changes, the
--                    reads and `recover`
--   Invitations      frontend/src/screens/Account.tsx: `normalizeCode`, `legacyInvitationPath` and the
--                    texts that the dialog shows
--   Auth             frontend/src/screens/Account.tsx: `Auth` and `AccountSwitch`
--   JoinPreview      frontend/src/screens/Account.tsx: `JoinPreview`
--   ScheduleForm     frontend/src/screens/ScheduleForm.tsx: the draft, Prefill (`contextPrefill`), Emails,
--                    Body (`buildBody`), Conflict (the saves, their answers and conflicts), Rights
--                    (`recoverAccess`, with the refusals of State)
--   Schedules        frontend/src/screens/Schedules.tsx: Workspace (`readWorkspaceCalendar`), Writes
--                    (`saveChange`, `recover`, the dialog of times), Gesture (`CalendarEvent`)
--   Endpoints        frontend/src/api/client.ts: the table `api`
--   Routes           frontend/src/App.tsx: `Routes`
--   Overview         frontend/src/project-overview.ts: the path of a plan item, Selection
--                    (`selectGoals`, `selectRisks`, ...), Paging (`readOverviewSchedules`)
--   Plan             frontend/src/screens/ProjectPlan.tsx: `pathFor`, `parentPathFor`, `validParent`
--   Shell            frontend/src/App.tsx: `App`, the end of the session by an answer
--   Unsaved          frontend/src/unsaved-changes.ts
--   Time             frontend/src/time.ts: `civilDateBoundary`, Resolve (`localDateTimeToUtc`), Views
--                    (`viewWindow`)
--   Calendar         frontend/src/screens/calendar-direct-manipulation.ts: Snap, Lanes,
--                    Changes (`applyMonthChange`, `applyWeekMove`, `applyWeekResize`)
--
-- A function of the source is a function here under the same words. Module variables are records
-- that are passed along. An asynchronous function is split where it waits, and what the rest of the
-- program does meanwhile is a list of events of the session or of the store, over which the theorems
-- range. A promise is its outcome; a response of the server is an argument.
--
-- Bounds: the project lookup reads 10001 pages of 100 rows, the overview's schedules 50 pages of 20
-- and a calendar 10 pages of 100, as the source does. `normalizeCode` calls itself for the code in a
-- link, which is no link: its fuel of two is enough. `planPath` climbs on fuel, and a plan that lies
-- in layers needs no more than its depth; `pathFor` needs one more than the rows of the plan and the
-- item, in any plan. The bisection of `civilDateBoundary` runs on 29 steps, which close its four
-- days. Every other loop is a recursion on a list. Instants are whole milliseconds from 0 on, and
-- business revisions are natural numbers. Civil days are numbers in their order and times of day are
-- milliseconds, where the source has texts in a fixed layout and fractions of minutes.
--
-- Parameters: the time zone of the host (`Intl`), `Date.parse`, `localDateTimeToUtc` where a part only
-- calls it, `localeCompare`, `encodeURIComponent`, `trim`, `crypto.randomUUID`, and the answers of the
-- server. Not modelled: markup and focus, the query cache's own bookkeeping, the generated types of
-- the contract, and the backend.
pub mod Base
pub mod Browser
pub mod GoogleReturn
pub mod Session
pub mod State
pub mod Api
pub mod ScheduleTime
pub mod Calendar
pub mod ProjectStart
pub mod Endpoints
pub mod Routes
pub mod Overview
pub mod Plan
pub mod Unsaved
pub mod Time
pub mod Shell
pub mod QueryCache
pub mod ShareDialog
pub mod Invitations
pub mod Auth
pub mod ScheduleForm
pub mod Schedules
pub mod JoinPreview
