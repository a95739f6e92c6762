-- ===== src/Lib.antt =====
-- kscribe watches Kubernetes Warning events, opens a KscribeDiagnosis for each, asks a language model
-- for its root cause, and keeps a history of the incidents in SQLite. This library models the Go code
-- of that program as functions on explicit states, with the theorems that hold of them.
--
-- The parts and how they interact. internal/controller/event_watcher.go receives an event, asks the
-- Deduper (internal/controller/dedup.go) whether it is new, resolves the policy of its namespace
-- (internal/controller/diagnosispolicy_controller.go) and creates a KscribeDiagnosis.
-- internal/controller/kscribediagnosis_controller.go takes that object from Pending to its end: it
-- asks the rate limiter (internal/controller/ratelimit.go), mirrors the run in the store
-- (internal/store/sqlite.go), redacts the collected context (internal/enricher), runs the agent
-- (internal/agent/diagnosis_agent.go), writes the row and then the status. internal/controller/prune.go
-- deletes old objects, internal/notify tells the channels, and internal/web shows the incidents and
-- lets a user ask the model about one. cmd/kscribe/main.go puts the parts together.
--
-- Which file models which part:
--   Prelude     shared library names, tests, lists, Go's integers, maps, texts as bytes, decimal
--               numbers (Prelude/Decimal, Prelude/Atoi), white space and HTML escapes (Prelude/Space)
--   Api         api/v1alpha1: the custom resources and their phases
--   Config      internal/config/config.go
--   Errors      errors as values; Cluster: the Kubernetes API as a record of operations, and
--               Cluster/Objects the objects that are only read
--   Limiter     internal/controller/ratelimit.go: allow is Allow
--   Dedup       internal/controller/dedup.go: should_process is ShouldProcess
--   Policy      internal/controller/diagnosispolicy_controller.go: resolve_policy is ResolvePolicy
--   Watcher     internal/controller/event_watcher.go: reconcile_event is Reconcile, process_event is
--               processEvent, create_diagnosis is createDiagnosis, backfill_spec the body of
--               backfillExistingDiagnosis; Watcher/Names: EventKey and diagnosisName
--   Agent       internal/agent/diagnosis_agent.go: run is Run, loop its loop, repair_rca is repairRCA;
--               Agent/Stream: llm.go; Agent/OpenAi: openai.go and provider.go, complete is Complete;
--               Agent/Streaming: complete_stream is CompleteStream
--   Store       internal/store/sqlite.go: a method is a function on the tables of Db;
--               Store/Pruning: prune is Prune; Store/Transaction: the transactions that it and
--               runMigrations open;
--               Store/Migrations: migrations.go, run_migrations is runMigrations
--   Enricher    internal/enricher/payload.go and redactor.go: redact_snapshot is RedactSnapshot;
--               Enricher/Parts, Enricher/Builder: context_builder.go, build_snapshot is BuildSnapshot
--   Notify      internal/notify: multi is Multi; Notify/Render: the texts of email.go, slack.go and
--               jira.go; Notify/Senders: the Notify methods of the channels
--   Reconciler  internal/controller/kscribediagnosis_controller.go: Reconciler/Flow holds Reconcile
--               from its first fetch to the second, Reconciler/Conclude what follows, Reconciler/Marks
--               the status mutations
--   Retention   internal/controller/prune.go: prune_diagnosis_crs is PruneDiagnosisCRs
--   Web         internal/web: Web/Login is auth.go, Web/Broker broker.go, Web/Chat the bounds of chat.go
--               and Web/Chat/Turn its RunChat, Web/Server the handlers of server.go and viewmodel.go
--   Tools       internal/controller/tool_executor.go: execute is Execute; and internal/agent/tools.go
--   Operator    cmd/kscribe/main.go: notifiers_of and chosen_notifier are its choice of the channels,
--               run_pruner is runPruner
--
-- State. A method takes the state that it reads and answers the next one. What is outside this
-- repository (the API server, the model, the tools, SQLite's driver, encoding/json, regexp, client-go)
-- is a parameter: an operation on a state W of the world, or a function. An injected or read clock is
-- an argument, in nanoseconds. A mutex makes a method one step. Texts that are cut or compared bytewise
-- are lists of bytes. A method of the store gets the fault that the driver reports, if any; where one
-- of several statements can fail, there is a fault for each.
--
-- Bounds. The loop of the agent recurs on its number of rounds, which is the configured one, or five
-- where that is not positive: no fuel is added. All other loops run over lists. Token counts are added
-- in 64 bits with wrap-around; the length of the hash of a name is 32 bits. The digits of a number are
-- written with the number itself as fuel, which is enough. The loop of connection attempts
-- has fuel for three turns, which Agent/Streaming/Pieces shows to be enough.
--
-- Not modelled: the routes, headers and pages of the web server and the loops that wait for events, the
-- scanning of database rows, the loading of the configuration, the metrics, the wiring of the programs and
-- the generated code. The order among incidents with equal stored times, the LIKE operator and the
-- regular expressions are parameters; diagnoses with equal stored times stand by their ids; the %q verb
-- is written for names that need no escapes. A chat turn is modelled with no other write to the store
-- between its steps, and a login submission with no other between its two.
pub mod Prelude
pub mod Api
pub mod Config
pub mod Errors
pub mod Cluster
pub mod Limiter
pub mod Dedup
pub mod Policy
pub mod Watcher
pub mod Agent
pub mod Store
pub mod Enricher
pub mod Notify
pub mod Reconciler
pub mod Retention
pub mod Web
pub mod Tools
pub mod Operator
