-- ===== src/Lib.antt =====
-- The browser client of ChocoboFix, its two interfaces: the React client under client/src and the
-- first interface, web/app.js with web/i18n.js. The service that answers them, the solver and the
-- validator are C++ and are not modelled; what they reply is data of the models.
--
-- The parts and their files:
--
-- - Api: client/src/lib/api.js. Every call of the service goes through `request`, which answers
--   from the cache of immutable files, joins a read that is under way or starts `raw`. `raw` waits
--   for one of four connections (Api/Limiter: `acquire`, `release`, `cancel`), then for the reply.
--   Api/Requests has the state of the module (`token`, `epoch`, `immutable`, `inflight`) and the
--   requests under way; Api/Requests/Replies has the fate of a reply, with the session listener of
--   client/src/state/auth.jsx. Both are step functions over events, and a run is a list of events
--   in any order: replies, aborts, time-outs and changes of session interleave freely.
-- - Resource: client/src/lib/useResource.js, through which the views call Api: the numbered runs,
--   the controllers that are aborted and what is shown. React's part is the event `change`, which
--   runs the cleanup of the last effect and then the effect, first of all when the view appears.
-- - Jobs: `Generate` of client/src/routes/ProjectDetail.jsx, the creation and the polling of the
--   three jobs. A timer and the request that it sends are one event, the reply. The function given
--   to `setJobs`, which calls `onDone`, runs once, as in a production build; React's StrictMode runs
--   it twice in development.
-- - Csv: `parseCsv` of web/app.js (Csv/Quoted) and the reader without quotes of
--   client/src/lib/useProjectSchedule.js (Csv/Plain). A text is the list of its UTF-16 code units.
-- - Plan: client/src/lib/planChoice.js (`choosePlan`, `planState`), the comparison of scenarios in
--   client/src/routes/Project.jsx, and `stateOf`, `currentVersion` and `nextAction` of web/app.js.
-- - Upload: client/src/lib/instanceFiles.js (`matchFiles`), `upload` of
--   client/src/routes/ProjectUpload.jsx up to the form it sends, and `add` of web/app.js.
-- - Schedule: client/src/lib/scheduleModel.js (`filterRows`, `groupRows`, and in
--   Schedule/Activities and Schedule/Sorted `activityRows` and `sortRows`) over the rows that
--   client/src/lib/useProjectSchedule.js builds; Schedule/Join is how it joins them from the files
--   that Csv/Plain reads, the instance's detail and the assignments.
-- - Session: `AuthProvider` of client/src/state/auth.jsx. It holds the state of Api/Requests and of
--   Photos and calls `setToken`, `clearCache` and `forgetPhotos` of them; a call of the service is a
--   flow with the session it was sent in, and its reply an event.
-- - SignIn: the form of client/src/routes/SignIn.jsx, which calls `signIn` of Session.
-- - Photos: client/src/lib/photos.js, with the loads under way; each of a load's continuations is
--   an event.
-- - Wizard: `pollJob` of web/app.js and the handler of the wizard that runs a generation.
-- - Desk: the opened project of web/app.js, `openProject`, `refreshVersions`, `useInstance`,
--   `loadResult` and `signOutLocal`; it reads its files by Csv/Quoted and has the versions of Plan.
-- - Forms: the assignment of a coordinator in client/src/components/ActivityDetail.jsx
--   (Forms/Assign), the panel of accounts in client/src/routes/Settings.jsx (Forms/Accounts) and
--   the form that makes a project in client/src/routes/Projects.jsx (Forms/Creation).
-- - Prefs: the preferences of client/src/state/prefs.jsx, read from the storage and written to it.
-- - Pages: the list's pages and the timeline's weeks of client/src/routes/Schedules.jsx, and the
--   cursors of client/src/lib/useProjectIndex.js.
-- - Language: the four tables of web/i18n.js, as they stand, and `T` of web/app.js.
-- - Labels: the four tables of client/src/lib/i18n.js and its `t`.
-- - Prelude: the names and lemmas that the parts share. JavaScript's `Map` is an association list
--   in insertion order (Prelude/JsMap), `Array.prototype.sort` a stable insertion sort
--   (Prelude/Sort), `String(n)` the decimal digits (Prelude/Decimal).
--
-- Parts use each other as the code does: Session changes the state of Api/Requests and Photos,
-- Schedule and Desk read their files by Csv, Wizard has the versions of Plan and the texts of Language;
-- Upload and Plan are over values that Api's replies carry, and Pages cuts the rows of Schedule.
-- No other part reads another's state.
--
-- Numbers. Ids, weeks and counts are natural numbers; a subtraction that could be negative stands
-- under `max`, as in the code. A date, a name or a number that may be missing is an Option.
-- `digits_from` is on fuel: `decimal n` starts with n + 1 rounds, and each round divides by ten,
-- so that n + 1 rounds are enough. `poll_job`, a loop without an end of its own, is on fuel: it asks
-- once per unit, so that when the reply of round n is the first that ends it, n + 1 are enough.
-- All other loops are structural.
--
-- Parameters. `toLowerCase`, `Number` and the order of `localeCompare` are arguments of Schedule;
-- `sort_rows-AreInOrder` supposes that the comparison of two ids is an order, no other theorem
-- anything of them. The type of a reply's body is a parameter of Api, that of an instance's detail
-- one of Desk. `JSON.parse` gives back the fields that `JSON.stringify` wrote.
--
-- Not modelled: the views and their markup, styles, the browser's router; of api.js
-- the table of end points; the parts of web/app.js that only build markup; and the program outside
-- the browser.
pub mod Api
pub mod Csv
pub mod Desk
pub mod Forms
pub mod Jobs
pub mod Labels
pub mod Language
pub mod Pages
pub mod Photos
pub mod Plan
pub mod Prefs
pub mod Prelude
pub mod Resource
pub mod Schedule
pub mod Session
pub mod SignIn
pub mod Upload
pub mod Wizard
