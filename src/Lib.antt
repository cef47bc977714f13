-- ===== src/Lib.antt =====
-- A model of the core of the PyAirtable Go services, and what is proved of it.
--
-- The program keeps its users, tenants and workspaces as event-sourced aggregates. A call on an
-- aggregate checks its rules, changes the fields and raises an event on the root that the aggregate
-- embeds (domain/shared). A repository (pkg/repositories) saves the pending events through the event
-- store (pkg/eventstore), which checks the version that the caller expects against the table
-- domain_events, and loads an aggregate by reading its events back. The versions that a process has
-- seen, its locks and the resolvers of conflicts are pkg/repository/optimistic_concurrency.go. Events
-- go to other systems through the table of an outbox (pkg/outbox), which workers poll, and to the
-- webhooks of customers through the webhook-service, with retries and dead letters. The
-- permission-service decides what a user may do, by direct permissions and by roles. Calls of other
-- services go through a circuit breaker (pkg/circuitbreaker). In front of all services the api-gateway
-- chooses an instance for each request, by a sticky session or a load balancer over the instances that
-- its health checks have found well.
--
-- The files and the code:
--   Prelude               numbers, lists, Go maps as association lists, texts of package strings
--   Domain/Shared         domain/shared: Error errors.go, Types types.go, Event events.go, Aggregate
--                         aggregate.go; History is the form of LoadFromHistory, Stamps and Tracking
--                         are what the proofs on all aggregates share
--   Domain/User           domain/user/aggregate.go: Types, Account (NewUserAggregate, Activate,
--                         Deactivate, UpdateProfile), Roles (AddRole, RemoveRole, HasRole,
--                         HasPermission), Sessions (CreateSession, InvalidateSession,
--                         InvalidateAllSessions, VerifyEmail), History (LoadFromHistory); Commands
--                         has the calls as values, Invariants and Replay the proofs
--   Domain/Workspace      domain/workspace/aggregate.go: Types, Members (AddMember, RemoveMember,
--                         ChangeMemberRole, the permission checks), Lifecycle
--                         (NewWorkspaceAggregate, UpdateWorkspace, CreateProject, Archive), History
--                         (LoadFromHistory); Commands, Permissions, Ownership, Access, Limits and
--                         Replay have the proofs
--   Domain/Tenant         domain/tenant/aggregate.go: Types, Creation (NewTenantAggregate), Plans
--                         (UpdateTenant, ChangePlan, UpdateUsage, AddPaymentMethod, Suspend,
--                         Reactivate, CheckQuotas, IsTrialExpired), History (LoadFromHistory); Commands,
--                         Invariants and Replay have the proofs
--   EventStore            pkg/eventstore/postgres_event_store.go and the constraints of
--                         migrations/001_create_event_store.sql
--   Repositories          pkg/repositories: Save; GetByID in Users, Workspaces and Tenants.
--                         Saving, Concurrency, First and the files below the three have the proofs
--   CircuitBreaker        pkg/circuitbreaker/circuit_breaker.go, with the breakers of its utility
--                         functions in Presets; Counting, Invariant, Traffic, Requests, Recovery
--                         and Stuck have the proofs
--   Outbox                pkg/outbox/transactional_outbox.go: AddEvents, getPendingEntries,
--                         processBatch, processEntry, CleanupProcessedEntries; Runs has the calls as
--                         values; Published, Unread and Retrying have the proofs
--   OptimisticConcurrency pkg/repository/optimistic_concurrency.go: CheckOptimisticConcurrency,
--                         AcquireOptimisticLock and the others, the conflict resolvers; Exclusion,
--                         Retries and Checks have the proofs
--   Permissions           permission-service/internal/services/services.go over the queries of
--                         internal/repositories: CheckPermission; Changes has GrantPermission,
--                         RevokePermission, AssignRole and CreateRole; Roles and Assignments have the
--                         proofs
--   Routing               api-gateway/internal/routing: the registry of service_registry.go; Balancers
--                         load_balancer.go, Sessions sticky_session.go, Engine engine.go (NewEngine,
--                         selectServiceInstance, performRequest, executeRequest, RouteRequest);
--                         RoundRobin, Argmax, Weighted, Balance, Shares, Loops, Scores, Contract,
--                         Health, Registry, Sessions/Cleanup, Sessions/Kept, Retries, Selection and
--                         Sticky have the proofs
--   Webhooks              webhook-service/internal/services/delivery_service.go, with the rows of
--                         internal/models and UpdateStats of internal/repositories; Backoff and Ends
--                         have the proofs
--   Tests                 runs on small inputs
--
-- How the code is read. An aggregate is a record of its root and its other fields; a method takes it
-- and gives the changed one, beside the error if there is one. A failed type assertion that panics is
-- an outcome of its own. The clock, the identifiers of uuid.New and strings.ToLower are a parameter,
-- as is what crypto/rand, rand.Intn, the database, a publisher and an HTTP exchange answer. The health
-- score of the gateway is computed over a parameter for float64 and its operations, and the sort by
-- score keeps the order of equal scores, as sort.Slice does up to twelve entries. Instances of the
-- registry are shared by pointer: a heap maps an address to its fields. Where goroutines interleave, the
-- model has sequences of calls. Time is nanoseconds since Go's zero time. int64 numbers, uint32
-- counters and uint64 generations wrap around. An int64 version is its bit pattern, a number below 2 ^ 64:
-- it is counted up modulo 2 ^ 64 and compared in the order of signed numbers, in which the patterns from
-- 2 ^ 63 on are negative. The theorems that need room for more versions say how much.
-- The list of rows stands for the table domain_events in the order of insertion; a transaction that
-- checks the version may see other rows than those it inserts into. No definition runs on fuel: every
-- loop is over a list or counts the rounds that the code allows.
--
-- Not modelled: the domain services over the aggregates; the lookups of the repositories by email,
-- tenant or owner, which read projections; logging and statistics for display; ExecuteWithContext of the
-- breaker; the JSON form of events and of the outbox; the publishers of the outbox; the unit of work and
-- the generic repositories of pkg/repository; headers, bodies and handlers of the gateway and of the
-- webhook-service, whose breakers and limiters are those of sony/gobreaker and x/time/rate; and the other
-- packages and services, which are mostly I/O.
pub mod Prelude
pub mod Domain
pub mod EventStore
pub mod Repositories
pub mod CircuitBreaker
pub mod Outbox
pub mod OptimisticConcurrency
pub mod Permissions
pub mod Routing
pub mod Webhooks
pub mod Tests
