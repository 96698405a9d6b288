-- ===== src/Lib.antt =====
-- Incident garden is a status page: a catalog of services and groups, events (incidents and
-- maintenance) that give services a status while they last, and notifications about them.
-- This library models the core of it and states what makes it correct.
--
-- The parts:
-- Domain.antt: the entities and enumerations of internal/domain (event.go, service.go). A named
--   string type keeps its named values as constructors, with one constructor for any other string.
-- Inputs.antt: the inputs of internal/events/service.go.
-- Store.antt: Postgres as the services see it. The tables of migrations/ are lists of rows. There
--   is a pool (`db`), one open transaction (`tx`), and a list that says which of the statements to
--   come the server refuses. An operation of a service is an `Action`, from a world to a result and
--   a world. Store/Steps, Store/Quiet and Store/Tables hold the rules that carry a property from the
--   statements to a whole operation: a preorder that every statement respects, what an operation
--   that fails has left untouched, and what one that returns has established.
-- Events/Repository.antt and Catalog/Repository.antt: the statements of
--   internal/events/postgres/repository.go and internal/catalog/postgres/repository.go, each a
--   function from the tables to a reply (rows, an empty result, a violated constraint), and the view
--   v_service_effective_status of migrations/000015.
-- Events/Compose.antt: the helpers of `AddUpdate` that change an event's services and groups.
--   Events/Create.antt, Events/Update.antt, Events/Delete.antt: `CreateEvent`, `AddUpdate`,
--   `DeleteEvent`, whole, each call in the order of the source. Go's map in `CreateEvent` is an
--   association list, and the order of a run over it is a parameter. The modules below them are
--   named for what they prove.
-- Events/History.antt: the three operations in any order, returning or failing, as a step relation,
--   with what stays true over time (History/Invariant, History/Closed).
-- Catalog/Effective.antt: what the status page shows. Catalog/Slug.antt, Catalog/Service.antt
--   and Catalog/Groups.antt: `validateSlug` and the operations of internal/catalog/service.go on
--   services and on groups; the statements that they run are in
--   Catalog/Repository/Writes and Catalog/Repository/Archive. The modules below Catalog/Service are
--   named for what they prove.
-- Notifications/Queue.antt, Queue/Fetch and Queue/Recovery: the table notification_queue and the
--   statements on it in internal/notifications/postgres/repository.go. Notifications/Worker.antt:
--   processBatch of internal/notifications/worker.go with all it calls. The state is the record
--   `Mail`: the queue, the channels, what the server refuses, what the senders answer, the calls of
--   the senders. Worker/Budget, Worker/Batch and Worker/Rounds bound the calls of any schedule;
--   Queue/Crash has a worker that crashes between the fetch and the mark.
-- Notifications/Codes.antt: the verification of an e-mail channel by code (`verifyEmailCode` of
--   internal/notifications/service.go), on tables of its own.
-- Errors.antt and Routine.antt: the errors of the services, and the operations over any state that
--   `Store` and `Pool` share: `try`, `finally`, loops, with rules in Routine/Steps, Ends, Returns, Fails.
-- Pool.antt: a service without transactions, each statement of which commits by itself, over any
--   tables, with the list of refused statements and the clock.
-- Identity.antt: internal/identity and the middleware. Users.antt has the entities of
--   internal/domain/user.go and the tables; Repository.antt the statements of
--   internal/identity/postgres/repository.go; Jwt.antt internal/identity/jwt; Service.antt, Reset.antt
--   and Admin.antt the operations of internal/identity/service.go; Access.antt the middleware of
--   internal/pkg/httputil/middleware.go. bcrypt, crypto/rand and the JWT library are the record
--   `Crypto`; what a theorem asks of them is among its hypotheses. The handler of a new user and the
--   e-mail sender are recorded calls.
--
-- The loops are structural recursion over the slices they run over, so no fuel is needed.
--
-- Not modelled: the HTTP handlers and their validation tags, the templates, the plain list queries,
-- the tags of services, rendering, the senders (their answers are an input), and float64 (a parameter
-- of the worker's back-off). Of the table notification_queue the tables of `Store` have only what the
-- deletion of an event removes. A goroutine that sends a notice is the notice itself, in the order in
-- which the code starts it. One operation reads one time. Operations run one after the other:
-- isolation between transactions is Postgres's, and a fault list covers the errors that it reports.
pub mod Prelude
pub mod Errors
pub mod Routine
pub mod Domain
pub mod Pool
pub mod Inputs
pub mod Store
pub mod Events
pub mod Catalog
pub mod Identity
pub mod Notifications
