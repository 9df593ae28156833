-- ===== src/Lib.antt =====
-- Expentra: the approval workflow of expenses, the ledger of department budgets behind it, and the
-- access rules that guard both.
--
-- An expense is drafted, submitted, approved stage by stage along a chain of approval levels, and
-- reimbursed; a rejected expense can be reopened as a draft. Each service call loads rows, checks,
-- and writes in one transaction: the expense, a decision, the budget row of the department and
-- year, and events for the outbox. The modules follow the program:
--
-- Prelude                 names of the libraries, Boolean tests, lists, strings, integers, results
-- Runtime, Reference      clock, configuration and runtime; core/utils/entity-reference.repository.ts
--                         and database/helpers/entity-reference.util.ts
-- Entities, Store         database/entities; the tables behind the repositories and a transaction
-- Authorization.Types     modules/authorization/constants/permissions.ts and types
-- Authorization.Grants    matching/permission-grants.ts, matching/scope-access.ts and
--                         services/permission-evaluator.service.ts
-- Authorization.Access    policies/approval-access.policy.ts and policies/expense-access.policy.ts
-- Authorization.Policy    services/access-policy.service.ts (the checks that throw),
--                         policies/role-assignment.policy.ts, policies/separation-of-duties.rules.ts
-- Authorization.Mapper    mappers/auth-user.mapper.ts
-- Budget.Period           modules/budget/utils/budget-period.util.ts
-- Budget.Sync             utils/expense-budget-sync.util.ts, queries/budget-committed.query.ts and
--                         `syncCommittedAmountForExpenseTransition` of services/budget.service.ts
-- Budget.Ledger, .Books, .Drafts   the sums that the budget rows stand for, as an invariant
-- Budget.Usage, .Evaluation        queries/department-budget-summary.query.ts, and the evaluations
--                         of a submission and of an approval in services/budget.service.ts
-- Budget.Administration   the creation, update, recalculation and reconciliation of budgets in
--                         services/budget.service.ts, and what they leave
-- Budget.Period.Midnight  the search for the midnight of a year in zones of a fixed offset
-- Approval.Routing, .Chain         modules/approval/services/approval-routing.service.ts
-- Approval.Delegation     services/delegation.service.ts; Lending and Revoking under it are on who
--                         may act as a delegate and on the end of a delegation
-- Approval.Decision       `approve` of services/approval.service.ts and its helpers
-- Approval.Rejection      `reject`, and the actions by reference and in bulk, of the same file
-- Approval.Levels         services/approval-level.service.ts with the cache of
--                         services/approval-level-catalog.service.ts, and what they keep
-- Approval.Queue          services/actionable-approval-queue.service.ts over the levels that the cache of
--                         Approval.Levels serves, and what is in the queue
-- Expense.Support         modules/expense/services/expense-mutation.support.ts
-- Expense.Comments        modules/expense/services/expense-comment.service.ts, the comments
-- Expense.Submit, .Draft, .Reimbursement   the services of these names in modules/expense/services;
--                         Stored and Reopened under them are on the rows that they leave, as is
--                         Stored under Approval.Decision and Approval.Rejection
-- Policy.Json, .Types     the values of policy configurations; modules/policy/types and the enums
-- Policy.Resolvers, .Description   modules/policy/engine/field-resolvers
-- Policy.Validator        modules/policy/engine/policy-config.validator.ts
-- Policy.History, .Evaluator       engine/policy-evaluation.cache.ts, engine/condition-evaluator.ts
-- Policy.Engine           engine/policy-engine.service.ts
-- Policy.Rules            modules/policy/services/expense-policy.service.ts
-- Policy.Submission       the engine in the place of the interface that a submission calls
-- Idempotency             core/idempotency: the interceptor as a machine with a step for each access
--                         to Redis or call of the handler, in Idempotency.System interleaved; under it
--                         who holds the lock, where replies come from, schedules, races and keys
-- RateLimiter             core/rate-limiter: lua/sliding-window.lua and rate-limiter.service.ts; Window
--                         and Bursts under it are on what the script allows
-- RateLimiter.Guard       guards/rate-limit.guard.ts
-- Outbox                  core/outbox: services/outbox.service.ts over the rows of the table
-- Outbox.Delivery         services/domain-event-idempotency.service.ts, the registry and dispatcher of
--                         handlers, processors/domain-event.processor.ts; a run is two steps, up to the
--                         answer to `setIfNotExists` and from the call of the handler, between which
--                         other attempts may step, and each may end with a throw or a worker that stops
-- Outbox.Relay            processors/outbox-relay.processor.ts
-- Outbox.Publishing       `scheduleRelay`, services/domain-event.publisher.ts and
--                         services/outbox-relay-scheduler.service.ts
-- Outbox.EndToEnd         an event from its publication to the queue
-- Outbox.Redaction        utils/domain-event-payload-redaction.util.ts
-- Workflow                runs of calls, as a step relation on the database, and the recalculation
--                         after them
-- Samples, Samples.Calls, Samples.Zones, Samples.Strings, Examples   a small organisation, calls
--                         computed on it, a zone an hour ahead of UTC, an order of strings, the tests
--
-- A definition has the name of the function it models, in lower case with underscores. Calls that
-- throw return a `Result`; a transaction drops the writes of a call that throws. The body of a
-- transaction is a pure function of the tables, so the pessimistic locks, under which the program
-- runs these bodies one after the other, have no counterpart. In Idempotency the steps of requests
-- interleave, and a key in Redis may expire between any two; in Outbox.Delivery the steps of runs
-- do, with keys that stay, since their end after seven days is left out. Amounts are minor units
-- and natural numbers, as are identifiers and years; a time is a number of milliseconds, and a
-- call reads the clock once. Percentages are hundredths of a percent. Tables hold the rows that
-- are not deleted, and saving an entity over its row follows TypeORM: a property that is undefined
-- is skipped and the column keeps its value. The services set no property of an expense to null,
-- so `none` in an entity that is saved writes nothing; what a call returns is the entity, and
-- `saved_row` of Store is the row that is stored. References that the program draws at random are
-- arguments of the operations that insert. The search for midnight in a zone keeps its bound of 48
-- attempts and its fallback, and the wait for a stored record its 30 attempts; the other loops are
-- recursion on a list. `Intl.DateTimeFormat`, `Date.UTC`, `toUpperCase` and `toISOString` are
-- parameters (`Zone`, `Runtime`), as are the conversions between numbers and strings (`Js`); a
-- number that is not finite is `none`. `IExpensePolicyService.assertCompliant` is a parameter of
-- `submit`, which Policy.Submission fills with the engine. The active policies are those that the
-- engine read; its cache, and that of the approval levels, are the state of one process, whose
-- calls do not overlap. The sorted sets of Redis are a parameter (`SortedSets`) with the
-- documented behaviour of their commands as a hypothesis; that a key of a set expires once its
-- window has passed is left out, since its members are all dropped at the next look by then. The
-- queue of domain events keeps its jobs by identifier, and when a call of it throws is an
-- argument. `publish` of Store stands for an entry of the table whose rows are those of Outbox.
--
-- Not modelled: escalation, the policy catalog, the listings, exports and summaries that only
-- read, the event of an overspend, the timeline of an expense, users, roles and departments as
-- records to administer, abilities and the registry of capabilities, reports, notifications,
-- authentication, and the framework's glue. They are input and output, third-party clients, or
-- parts that later work can add.
pub mod Prelude
pub mod Entities
pub mod Store
pub mod Authorization
pub mod Budget
pub mod Runtime
pub mod Reference
pub mod Approval
pub mod Policy
pub mod Expense
pub mod Idempotency
pub mod RateLimiter
pub mod Outbox
pub mod Workflow
pub mod Samples
pub mod Examples
