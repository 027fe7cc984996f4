-- ===== src/Lib.antt =====
-- A model of the learning management backend, and the theorems that make it correct.
--
-- The backend is a set of modules under backend/src/lms/modules. Modelled are the module `learning`
-- (who is enrolled in which published course, and how far the learner is) and the module `courses`
-- (how a course version is written, checked, reviewed, published and succeeded); of the module
-- `identity` the authentication of a caller and the tenant context.
-- Learning reads a published course at the version its enrollment is pinned to; the courses module
-- decides which version is published.
--
-- Where each part stands:
--   Prelude          lists, counting, integers, Boolean tests; Prelude.Exec is code that changes a
--                    state and may raise.
--   Json             JSON values, for payloads and content projections.
--   Learning.Types, Learning.Errors, Learning.Policies
--                    backend/src/lms/modules/learning/types.py, errors.py, policies.py.
--   Learning.Store   the rows of backend/src/lms/modules/learning/models.py and
--                    backend/src/lms/modules/tenancy/models.py as a database of lists,
--                    and `unit_of_work`, which takes back what a raising block wrote.
--   Learning.Payloads, Learning.Idempotency, Learning.Facts
--                    backend/src/lms/modules/learning/persistence.py: `_response_payload` and
--                    `_response_from_payload`, `reserve` and `complete`, `append`.
--   Learning.Repository
--                    `DjangoLearningRepository` of
--                    backend/src/lms/modules/learning/repositories.py, a file for each of
--                    catalogue, enrollments, progress and playback.
--   Learning.Service `LearningService` of backend/src/lms/modules/learning/services.py:
--                    `create_enrollment`, `revoke_enrollment`, `progress` and the two queries, over a
--                    record of ports.
--                    Replay, Atomic and Conflict are about its commands, Samples and Runs
--                    are data to run them on.
--   Learning.Progress, Learning.Enrollment, Learning.Playback
--                    the theorems on progress, enrollments and lesson playback.
--   Courses.Types, Courses.Errors, Courses.Policies
--                    backend/src/lms/modules/courses/types.py, errors.py, policies.py; Lifecycle
--                    and History are about them. Courses.Commands has the commands, answers and
--                    facts of types.py.
--   Courses.Validation
--                    backend/src/lms/modules/courses/validation.py: Collector and Formats have the
--                    collector and the checks of single values, Documents the rich text, Inputs,
--                    Requests and Identifiers the commands, Complete the course for review. Decides
--                    says what a check decides and composes it; Document, Transition, Curriculum,
--                    Unrepeated and Course apply it.
--   Courses.Hashing  `content_projection` and `canonical_content_hash` of
--                    backend/src/lms/modules/courses/hashing.py.
--   Courses.Successor
--                    `_copy_successor` of backend/src/lms/modules/courses/services.py.
--   Courses.Service  `CourseLifecycleService` of the same file: Ports has its protocols and guards,
--                    Curriculum `_materialize_curriculum`, Drafts the creation and the edits,
--                    Transitions `transition_version`, Payloads its request and its facts,
--                    Successors `create_successor_draft`, Commands the calls with their validation
--                    and transaction. Admitted and Reviewed say what a transition needs and makes,
--                    Decided and Ready compare the code with it; Bound, Edges, Evolved and
--                    Outcome are about the service; Memory and Runs are data to run them on.
--   Identity.Service, Identity.Context
--                    `IdentityService` of backend/src/lms/modules/identity/services.py with
--                    entities.py, and context.py: the settings of a connection while a request runs.
--
-- How the code is read. A handler is a function from a `World` to a result and a `World`; an
-- exception is the error of the result, and what was written before it stays written until the unit
-- of work (`_learning_transaction` of backend/src/lms/api/learning_composition.py) takes it back.
-- The world counts the identifiers drawn and the clock's readings, so that `new_uuid` and `now` are
-- functions of a count. A table is a list of rows; `filter(...).first()` is the first row that
-- passes, an insertion appends and raises where a unique key is taken, a `save` replaces the row
-- that was read. A Python `int` that a caller sends is an integer ℤ; counts, row versions and
-- positions are naturals, as the tables hold them. A validation collects its errors in a list of at
-- most a hundred. The texts of idempotency operations are constructors, which differ as the texts
-- do. A node of a document whose type has no hash makes Python raise a TypeError, which is an
-- error of its own, also where other errors were collected before. The course service runs on a
-- database of any type, through its ports; what its unit of work leaves of a block that raises is
-- one of them. An identifier is a natural that is only compared, an instant a natural. Every
-- recursion is on a list or on a payload, but for the decimal digits of an index in an error's
-- path, whose fuel is the index and one more: a number has no more digits.
--
-- Parameters: the token verifier and the readers of profiles and sessions, the authorization ports,
-- the port of published courses, the repository, idempotency, fact and publication source ports of
-- the course service, the identifier factories, the clocks, and the SHA-256 digests of JSON texts
-- and of idempotency keys; the database connection of a request, with the ends of a transaction and
-- the settings. A theorem that needs something of the authorization port, or of the settings of a
-- connection as PostgreSQL documents them, says so among its hypotheses.
--
-- Not modelled: the dashboard with its signed cursor; the locks of the database and interleaved
-- transactions; row-level security and the other checks of the schema, but for the unique keys and
-- the completed count; the repository of courses behind the course service's port; the canonical
-- JSON text that is hashed; the verification of tokens; the modules tenancy, documents and
-- course_generation; the HTTP layer and the web client.
pub mod Prelude
pub mod Json
pub mod Learning
pub mod Courses
pub mod Identity
