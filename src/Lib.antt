-- ===== src/Lib.antt =====
-- A verification library for attenda-api, an Express and Prisma service for attendance, leave,
-- shifts and payroll of organizations. It follows the parts of the service whose correctness is
-- more than a query: the arithmetic of time and breaks, time entries, the rotation of sessions, the
-- queues that hand events and notifications on, monthly accrual, rates of pay, access and the review
-- of requests, and requests and jobs that run once.
--
-- The parts and their files
--   Base          what the parts share: Boolean tests, lists over native numbers (Base/Lists), signed
--                 numbers (Base/Int), and a database table as an interface (Base/Tables).
--   Shift         src/utils/shift.ts: `hhmm_to_mins`, `late_minutes`, `early_out_minutes`,
--                 `adherence_score` and `shift_auto_checkout_due` stand for hhmmToMins, lateMinutes,
--                 earlyOutMinutes, adherenceScore and shiftAutoCheckoutDue.
--   Breaks        src/utils/attendance.ts: closing open breaks, totals, deduction of missed breaks,
--                 net hours and extra minutes (settleAttendanceBreaks and its helpers). It uses the
--                 wall clock of Shift.
--   Sessions      src/services/refreshTokens.ts: refresh tokens in families, rotated once each; a
--                 reused token shuts its family, over the tables and the Redis keys.
--   Outbox        src/services/outbox.ts: claim of a batch, publication, backoff, dead letters.
--   Webhooks      src/services/webhookDelivery.ts: the fan-out that Outbox calls, and the queue of
--                 deliveries with its attempts, backoff, replay and the health of an endpoint.
--   Notify        src/services/notificationDelivery.ts: the queue of notifications, with preferences,
--                 quiet hours, digests, attempts and backoff.
--   Usage         src/services/whatsappUsage.ts: messages reserved against a monthly limit.
--   Accrual       src/services/leaveAccrual.ts: configuration, amounts and the monthly run.
--   Markers       src/services/schedulerState.ts: markers that run a job once for a subject and period,
--                 with their cleanup, and the machine of a key that they implement.
--   PayRates      src/services/payRates.ts: the rates of pay of an employee, one after another.
--   LatePolicy    src/services/latePolicy.ts: tiers of lateness, points, and the totals of a window.
--   Access        src/services/authorization.ts, src/services/locationScope.ts and the guards of
--                 src/services/approval-workflows.ts: permissions and reviewer scope.
--   Days          src/services/holidays.ts: the holidays of a range and the working days between them.
--   TimeEntries   src/routes/time-tracking.ts: timers, time entries and the submission of a week.
--   Reviews       src/services/approval-workflows.ts: reviewApproval, the decision on a request of each
--                 of the eight types, which uses Access, Days and the rows of TimeEntries.
--   Idempotency   src/middleware/idempotency.ts: one record per key, before and after the handler.
-- A part's own file holds its records and operations, one function for each function of the source
-- and with its name in snake case; its child modules hold the theorems, and its Tests concrete runs.
--
-- State and outside code. An operation takes the tables it writes and returns them. A table is the
-- interface `Table` of Base/Tables: create, updateMany and deleteMany of the client, by their effect
-- on the rows in order of creation; `list_table` meets it. A transaction is one operation, so that an
-- interleaving of workers is a sequence of operations; where its body throws, `transaction` of
-- Reviews/Claim gives back the state before it, as `$transaction` of the client does. date-fns-tz,
-- the JWT library and Redis are records of operations with the documented laws that the code relies
-- on. The clock, new identifiers, hashes, signatures, JSON texts and the answers of endpoints are
-- arguments.
--
-- Bounds. Instants are milliseconds and identifiers numbers, without an upper limit. Amounts of leave
-- are hundredths of a day, the scale of their columns. Subtraction stops at 0, which is the source's
-- Math.max with 0, or is out of reach for dates and instants from 1970 on; signed differences of
-- times use the integers of Base/Int.
-- All recursion is on lists or on the structure of a number, the count of the days or the years of
-- a range among them: there is no fuel. Dates are days from 1970-01-01.
--
-- Not modelled: routes that only query, the transports (mail, push, storage, messaging), PDF and CSV
-- output, the assistant, the timers of the scheduler, and the SQL of the migrations, since they are
-- input and output or the database's own; the nightly scan of lateness, payroll and schedule
-- compliance, which are separate from the parts above.
pub mod Base
pub mod Days
pub mod Shift
pub mod Breaks
pub mod Sessions
pub mod Webhooks
pub mod Usage
pub mod Notify
pub mod TimeEntries
pub mod Outbox
pub mod Markers
pub mod Accrual
pub mod PayRates
pub mod LatePolicy
pub mod Access
pub mod Reviews
pub mod Idempotency
