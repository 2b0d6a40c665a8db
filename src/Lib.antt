-- ===== src/Lib.antt =====
-- Verification library of titra, a time tracker on Meteor and MongoDB.
--
-- The server keeps its state in documents of MongoDB, which updates one document atomically. The
-- parts modelled here are those that make several such updates safe against concurrent requests,
-- repeated requests and lost answers, and the dates, pages and limits that requests are made of.
--
-- * Revision (imports/utils/resourceRevision.js): the entity tags under which the API hands out a
--   document's revision counter, and how `If-Match` is read back; Revision/TimecardDate
--   (imports/utils/timecardRevision.js) does so for the date of a time entry. Revision/Decimal
--   holds the numerals, Revision/RoundTrip the laws.
-- * Timer (imports/api/users/server/timerTransitions.js): the running timer of a user.
--   Timer/Profile has the fields of `users.profile` and the functions on them, Timer/Start
--   `startTimerAtomic`, Timer/Stop `stopTimerAtomic` and `getTimerState`. A handler is its decision
--   on the document that was read (`decide_start`, `decide_stop`), its update (a selector and a
--   modifier) and its answer; `others k` is what other requests do to the database before its k-th
--   call. Timer/History and Timer/Replay follow the consumed operations through any sequence of
--   writes, Timer/Refinement and Timer/Recovery are about the handlers' answers.
-- * Fence (imports/api/projects/server/projectChildFence.js): child writers reserve a project, and
--   an empty project is deleted under a lock that reservations exclude. Fence/Project has the
--   fields, Fence/Writers the reservations, Fence/Children the operations under a reservation,
--   Fence/Deletion the deletion, Fence/Recovery the clearing of a reservation that a dead process
--   left, Fence/Inspection the inspection of all reservations of a project, with its identifiers in
--   Fence/Inspection/Ids and its reports in Fence/Inspection/Previews. Fence/System is any number of
--   processes, each at its place in its handler, that interleave their calls, with recoveries that
--   are taken to spare running writers; Fence/Orphans has the invariant.
-- * Webhook (imports/api/webhookreceipts/server/store.js): the receipt of a webhook event.
--   Webhook/Receipts has the document and the updates, Webhook/Store `claim`, `complete` and
--   `fail`, Webhook/Claims what a granted claim did, Webhook/Leases any sequence of writes.
-- * TaskGraph (imports/api/tasks/server/taskGraphFence.js): a project task is deleted under a lock of
--   its project, on the same documents as Fence. TaskGraph/Lock has the lock, TaskGraph/Deletion the
--   deletion, with the caller's callbacks on a world of their own, TaskGraph/Recovery the clearing of
--   a lock that a dead process left. A found task carries the fingerprint that
--   `taskRecoveryFingerprint` gives it; that function is not modelled, as it hashes.
-- * Idempotency (server/apiIdempotency.js): API creates under an `Idempotency-Key`.
--   Idempotency/Reservations has the stored reservation and its checks, Idempotency/Resumption and
--   Idempotency/Execution `executeIdempotentCreate` over the store, with the caller's `create`,
--   `recover` and `beforeCreate` on a world of their own, Idempotency/Replay the answers to
--   repeated requests. The canonical JSON of a request is not modelled: its fingerprint and the
--   hash function are arguments.
-- * Calendar (imports/utils/timecardDate.js): calendar dates, and times of day.
--   Calendar/Civil has the UTC calendar that JavaScript's Date keeps, Calendar/DateOnly the texts
--   of dates, Calendar/Instant the texts of instants, Calendar/Time start and end times. Years run
--   from 0 to 9999, the search for a day's year has one round per day number, which is more than
--   there are years, and hours are exact fractions.
-- * Pagination (server/apiPagination.js): pages of time entries by keyset. Pagination/Cursor has
--   `encodeCursor` and `decodeCursor`, Pagination/Options `parsePageOptions`, Pagination/Page
--   `fetchTimeentryPage` and the bounds of reads without pages, Pagination/Walk a client that
--   follows the cursors, with as many rounds as there are documents and one more. JSON, base64url
--   and the hash of a scope are parameters (`Codec`), with what Node.js documents of them as
--   `IsCodec`.
-- * Lifecycle (imports/api/projects/server/projectLifecycle.js): who may see, edit, archive and
--   delete a project. A project is its fields by name. Lifecycle/Details has the fields that may be
--   edited and their checks, Lifecycle/View what a caller sees, Lifecycle/Archive and Lifecycle/Edit
--   the writes, which compare a snapshot of the whole project. Fields whose type the schema rules out
--   are compared and shown, but their methods (`includes` of a string) are not modelled.
-- * RateLimit (server/apiRateLimit.js): token buckets for addresses and users. RateLimit/Buckets has
--   one request, RateLimit/Rate a sequence of them, RateLimit/Size the number of buckets. Tokens are
--   counted in parts of 1/60 000, exactly.
-- * Limits (imports/utils/limitParameter.js, pageParameter.js, resourceLimits.js and
--   detailedTimeQuery.js): the limit and the page of a list, from the address to the query.
--   Limits/Accepted has the composition.
-- * Common, the shared vocabulary: tests on numbers, equality as an interface, lists, membership,
--   results. Common/Documents has a stored field: missing, of its expected type (`held`), or of
--   another (`junk`).
--   Common/Collection is the driver: `updateOne`, `findOneAndUpdate` and `deleteOne` on the one
--   document a selector names are parameters with their documented behaviour as laws, where a
--   rejected promise leaves open whether the write took effect.
--
-- Times are milliseconds since the epoch as ℕ, an invalid Date or clock is `none`. Revisions are ℕ
-- and are compared with the largest safe integer of JavaScript where the code does so. Text is the
-- list of its character codes. A thrown error is `throw` with a constructor for its code; the texts
-- of messages are left out. No definition runs on fuel: every loop of the modelled code runs over
-- a list.
--
-- Not modelled: routes, publications, sign-in, integrations, mail, the user interface and the
-- deployment scripts, which are for the most part calls of the framework, of libraries or of remote
-- services; and the methods of projects, tasks, time entries, users and dashboards.
pub mod Common
pub mod Revision
pub mod Timer
pub mod Fence
pub mod Webhook
pub mod TaskGraph
pub mod Idempotency
pub mod Calendar
pub mod Pagination
pub mod Lifecycle
pub mod RateLimit
pub mod Limits
