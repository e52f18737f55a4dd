-- ===== src/Lib.antt =====
-- OwnSIS, a student information system: the core of its backend (backend/src).
--
-- Admissions (backend/src/admissions) takes applications from draft to enrollment: the service
-- checks the actor, reads policies, quotas and reviews from the repository, decides, writes an
-- audit intent before each decision and its outcome after it, and hands an accepted applicant to a
-- registrar. Scheduling (backend/src/scheduling) keeps timetable sessions, detects conflicts,
-- scores preferences, generates a timetable for the sessions that activities miss, and replaces the
-- stored one by it. Entitlements (backend/src/entitlements) keeps plans, subscriptions and
-- overrides, and resolves which features an organization has. The outbox (backend/src/outbox)
-- stores events and leases them to workers, which hand them to handlers. Grading
-- (backend/src/grading) records official grades, revises them with their whole history, and takes
-- evidence of external grades. Of academics (backend/src/academics) the evaluation of a course
-- selection is here.
--
--   - Prelude: names of the libraries passed on, Boolean tests and equality (Tests, Equality),
--     list functions over native numbers (Lists), Python's dict (Dict), integers (Int), All, Any
--     and lists related place by place (Quantifiers), lengths and sums (Sums), members
--     of mapped lists (Members).
--   - Core: the error classes (core/errors.py), the actor contexts (core/context.py), datetime
--     values (Time), text tests (Text), decimals (Decimal), and service methods as actions on a
--     state that may raise (Exec), with the rules that carry a relation of states, or of a part
--     of them, through them (Exec/Relates, Exec/Views).
--   - Admissions: Status, Models and Reservation are admissions/domain/models.py, a data class
--     being a record and a check_ function for its __post_init__; Repository with
--     Repository/Seats, Quotas and Conversions is InMemoryAdmissionsRepository of
--     admissions/infrastructure/repository.py; Service with Service/Reads, Intake, Decide and
--     Enroll is AdmissionsService of admissions/application/service.py (get_application and the
--     other methods named like one of the repository have the prefix service_). Proofs:
--     Lifecycle, Repository/Capacity, Keyed and Writes, Service/Audited, Service/Idempotent,
--     Service/Progress.
--   - Scheduling: Windows, Sessions, Context and Generation are scheduling/domain/models.py,
--     Conflicts and Soft with Soft/Timing, Balance and Detect are detect_hard_conflicts and
--     detect_soft_constraint_violations of scheduling/domain/constraints.py, Replacement is
--     scheduling/domain/replacement.py, Generator with Generator/Generate is
--     scheduling/application/generator.py, Repository is InMemorySchedulingRepository and
--     InMemoryTeacherAvailabilityRepository of scheduling/infrastructure/repository.py, Service
--     with Service/Manage and Apply is TimetableService of scheduling/application/service.py.
--     Proofs: Intervals, Recurrence, Feasible, Replaced, Beside, Attempts, Placing, Drafts,
--     Unscheduled, Generated, Returns, Saves, Booked, Swapped, Timetabled.
--   - Entitlements: Models is entitlements/domain/models.py, Tables is
--     SQLAlchemyEntitlementRepository of entitlements/infrastructure/repository.py over
--     dictionaries keyed by the unique constraints of its tables (assign_row, current_row and
--     put_override are its assign_subscription, get_current_subscription and set_override),
--     Service and Resolve are EntitlementService of entitlements/application/service.py. Proofs:
--     Resolution, Subscribed, Entitled, Lifecycle, Intents, Stored,
--     Governed, Methods, Handled.
--   - Outbox: Rows is SQLAlchemyOutboxRepository of outbox/infrastructure/repository.py, Worker
--     is OutboxWorker of outbox/application/worker.py. Proofs: Steps, Leases, Settled,
--     Batches, Retries.
--   - Grading: Scales and Grades are grading/domain/models.py (resolve_score is the method
--     resolve of a scale), Repository is InMemoryGradingRepository and
--     InMemoryExternalGradeEvidenceDirectory of grading/infrastructure/repository.py, Service
--     with Service/Record, Revise and External is OfficialGradingService of
--     grading/application/service.py. Proofs: Resolves and Resolved, Summary, Rules, Ledger with
--     its children, Closure.
--   - Academics: Models is part of academics/domain/models.py, Selection is
--     academics/domain/policies.py. Proofs: Declared, Admissible, Meetings.
--   - Tests: runs on small inputs, and each theorem at one.
--
-- How the code is read. An exception is its class, the message is left out. A UUID is a number of
-- 128 bits, in which the order of str(uuid) is that of the numbers. A datetime is an instant in
-- microseconds with a fixed offset from UTC, or with none; zones whose offset changes, and the
-- TypeError when naive and aware values are compared, are not modelled. A Decimal is an integer
-- over a power of ten in grading, where its arithmetic is exact and a quotient is kept as the pair
-- of its terms, and an integer count of a small unit elsewhere. A number whose constructor refuses
-- negative values, or that counts, is a natural number. Asynchronous methods are atomic steps: the
-- in-memory repository holds a lock in each method that checks before it writes. The clock's
-- readings and the identifiers from new_uuid7 are arguments. What the code takes from elsewhere is
-- a parameter: the target directory, the deposit verifier, the registrar and the audit sink (the
-- record Ports), the port on organizations and the audit sink of entitlements (EntitlementPorts),
-- the academic directories, the guard of a term and the audit sink of grading (GradingPorts), the
-- directories, the entitlement, the audit sink and the generator of scheduling (SchedulingPorts),
-- the texts of identifiers and numbers and uuid5 (Texts), str.casefold and str.isalnum. In the
-- tables of entitlements uniqueness is part of the model, not a result, and a foreign key to
-- another table of them is a test that raises the conflict; the one to organizations is left out,
-- since the service asks the port. A handler of outbox events
-- is a function that says whether it failed, and which rows SKIP LOCKED skips is an argument.
--
-- The loop of ScheduledSession.occurrences runs on fuel: one round more than whole steps fit
-- between the start and the limit.
--
-- Not modelled: the routers and the other SQLAlchemy repositories (thin layers over libraries), the
-- lists of the entitlement catalogue, the methods over the availability windows of teachers, and
-- the other packages of backend/src.
pub mod Prelude
pub mod Core
pub mod Admissions
pub mod Scheduling
pub mod Entitlements
pub mod Outbox
pub mod Academics
pub mod Grading
pub mod Tests
