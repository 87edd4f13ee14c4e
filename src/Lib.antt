-- ===== src/Lib.antt =====
-- A verification library for IntelliQ, the planning assistant of construction sites. The program
-- is a FastAPI service (apps/api/src/app) over a relational store, with a simulation engine that
-- proposes strategies and an upstream system, Timecue, that owns the tasks. The parts that are
-- modelled here are what the store promises its callers, how an approved execution is carried out,
-- how the durable jobs are queued and run, how the tokens of a session are renewed, the readiness of
-- planning inputs, the schedule of one sample of the simulation, and the choice of strategies.
--
-- Prelude, with Prelude/*: equality tests, lists, results with an error, texts as code points,
--   and Prelude/Table, a database table with a primary key (`db.get`, `db.merge`, `db.add`,
--   `delete`).
-- Store, with Store/*: apps/api/src/app/persistence/store.py. Store/Rows has one record for each
--   row class; every other module has the methods on some of the tables, under the methods' names:
--   Leases (acquire_lease, renew_lease, release_lease), Records (get_record, list_records,
--   save_record, save_records), Planning (get_planning, save_planning, save_snapshot), Analyses,
--   Signals, Decisions, Calibrations and Sessions. A method is a function of the store; one that raises
--   returns an error and the transaction leaves the store as it was.
-- Execution, with Execution/*: apps/api/src/app/services/execution.py (Readback, Dependencies)
--   and `_continue_execution` and `cancel_execution` of apps/api/src/app/api/v4_routes.py (Steps,
--   Continue, Cancel). The HTTP
--   client of the upstream system, the lease and the storage are operations of a parameter, the
--   environment, with a state of its own; the model writes every effect to a log.
-- Simulation, with Simulation/*: apps/api/src/app/simulation/engine.py, the schedule of one sample.
--   Calendar has the capacity that a worker has in a slot, Readiness the tests of a task, Sample the
--   state of `_run_sample`, and Sample/Slots its loop. The floats are a parameter with their
--   operations, a time zone is its two conversions, and the workability of a task in a slot, which
--   `_task_workability` reads from weather profiles, is a function of the sample. The prepared
--   action and the drawn efforts are given. Actions has the composition and the bundling of
--   candidate actions, over any types of items with an equality.
--   Actions/Evaluated drops the actions that would be sampled twice. Validation is
--   `_validate_task_graph`. Outcomes has `_summarize_outcomes` for one project, with the histogram
--   and the quantiles; Ranking, with Ranking/*, the measures of a candidate, the keys of the three
--   policies (Keys), the tests of improvement (Material) and `_select_strategies` (Selection), on
--   the outcomes of Outcomes. Ranking/Order has Python's tuple order, `min`, `sorted` and the loops
--   that skip what was seen. Evaluation has `_evaluate_candidate`, `_strategy_result` and
--   `evaluate_portfolio` from the candidates to the strategies. The preparation of an action, its
--   samples and its guardrails are a parameter there, an engine, since a schedule is an opaque value to
--   the evaluation.
-- Graph, with Graph/*: the depth-first search for a cycle that `has_cycle` and `_validate_task_graph`
--   share. It runs on fuel, one more than there are nodes, which is the longest chain of nodes that
--   are visited at the same time.
-- Domain, with Domain/*: apps/api/src/app/domain/status.py and readiness.py (Readiness for the
--   issues, Cycles for the cycle test).
-- Jobs, with Jobs/*: apps/api/src/app/workers. Records has the job record and `save_job` of
--   service.py on the store's workflow records, Enqueue its `enqueue_analysis`, Relay what
--   `relay_outbox` of worker.py does with one row, Access its permission check, Stages and Run
--   its `run_analysis_job` from the claim of the lease to the exception handlers, Schedule the
--   due dates of scheduler.py and Daily the dispatch of one organization's schedule. The
--   authentication service, the two pipelines (services/portfolio and services/knowledge_jobs),
--   the clock and the moments at which the lease is found lost are fields of a delivery; a
--   pipeline is a list of events, phase reports and writes of its own, with an answer, which may
--   be the cancellation of the job by the queue. A dispatch of the daily schedule takes what it read
--   of the schedule as an argument, which may be older than the store; from the claim of its lease
--   to the release nothing else happens. A time
--   zone and the texts of dates and times are a parameter of the schedule.
-- Auth, with Auth/*: apps/api/src/app/api/auth_service.py in the live mode: Login has `login`,
--   Refresh has `refresh`, `current` and `logout`. Calls has the calls of the store, the vault, the
--   upstream service and the clock as a parameter, which may change its surroundings as other
--   processes do, and the journal of the calls. The loop that waits for a lease runs on fuel; 301
--   rounds last for its 15 seconds.
-- Samples: the theorems at concrete inputs.
--
-- Instants are microseconds in ℕ; a clock reading, a random token and an id that `uuid4` draws are
-- arguments. Where a method reads the clock several times in one transaction, the readings are one
-- instant. `json.loads(json.dumps(x))` is `x`, and the parts of a document that no method looks
-- into are a value of a type parameter. Transactions run one after the other; the unique
-- constraints are those of the schema. `datetime.fromisoformat` and `isoformat` are parameters.
-- Loops run over lists and end with them; beside the graph search and the wait for a lease only
-- `slot_starts` runs on fuel, the microseconds up to the horizon, of which every round uses an hour.
--
-- Not modelled: the guardrails and the preparation of an action, the generation of candidates, the
-- parsing of simulation inputs, HTTP routing, the fixture mode of the sessions, the renewal of a job's lease beside its run, the
-- adapters of external services, the web client, document import and search, and schema
-- migrations, which call libraries or format data.
pub mod Auth
pub mod Domain
pub mod Execution
pub mod Graph
pub mod Jobs
pub mod Prelude
pub mod Samples
pub mod Simulation
pub mod Store
