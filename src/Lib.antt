-- ===== src/Lib.antt =====
-- The automation of the transaction platform (automation/src/txplatform): it disturbs a Kubernetes
-- cluster by scenarios, and puts the cluster back. Calls that leave the process (the Kubernetes
-- API, HTTP, the clock, the disk) are parameters, records of operations whose laws are records too;
-- a statement that changes a state or raises is a function of type Exec, so that what was changed
-- before a raise stays.
--
-- - Common: tests, lists, dictionaries, sorting and Exec, shared by all parts.
--
-- - Kube: kube.py. The context guard, readiness rules and wait_for, whose loop runs on fuel: a
--   second of the timeout for each round and one more, which is enough since every round that goes
--   on sleeps for the interval.
--
-- - Schema: scenarios/schema.py. Scenario files and their validators; a float is a whole number of
--   thousandths.
--
-- - RunLock: runlock.py. The experiment lock, a Lease; other processes act between the calls of
--   one.
--
-- - Journal: scenarios/journal.py. The write-ahead journal and the plan that undoes it; the file
--   is the list of its entries.
--
-- - Control: scenarios/control.py. The operator actions, over the interface Cluster with the laws
--   IsKubernetes; Control/Sample is a cluster in memory.
--
-- - Engine: scenarios/engine.py. The changes that a run makes and their restore, on the operator
--   actions and the journal. Kubernetes actions of one scenario run one after the other here, where
--   the program runs them in threads of their own.
--
-- - Experiment: scenarios/engine.py. A run from start to finish, its pre-flight, the restore of
--   interrupted runs and the reset, over the interface Phases of what its phases do
--   (Experiment/Checking, Restoring and Running); Experiment/Ending says how a run ends, and
--   Experiment/Interrupted what the restore of interrupted runs undoes. A verification that raises
--   leaves the record as it was before.
--
-- - Secrets: secrets.py. Secrets that are generated once, and TLS Secrets.
--
-- - Versions: versions.py. What pins of images are accepted, and their split; texts are code
--   points.
--
-- - Expectations: scenarios/expectations.py. The verdicts on what the traffic produced.
--
-- - Records: scenarios/records.py. The record of a run, and the runs on disk as a dictionary.
--
-- - Workload: scenarios/workload.py. When a step's requests start, what is sent and kept of them,
--   and the tampering of tokens; an offset is an exact fraction, and the requests of a step follow
--   one another.
--
-- - Jaeger and Prometheus: jaeger.py and prometheus.py. The clients' queries over HTTP as a
--   parameter, and the waiting for a trace, whose loop has a second of the timeout for each round.
--
-- - Contracts: scenarios/contracts.py. The telemetry contracts, over the interface Backend and the
--   parts of Python's library in Library; Contracts/Logic says what a contract that finds nothing
--   wrong shows, and Contracts/Passed and Contracts/Verdicts say it of the flows and of verify.
--
-- - Traces: traces.py. Spans, the queries of a trace and the grouping of spans.
--
-- - TraceChecks: scenarios/tracechecks.py. The checks on one trace, each with what its passing
--   means; Python's int on a value that is no number is a parameter, a function that does not raise.
--   The spans that a check speaks of are described in TraceChecks/Once, Gaps and Compensating; the
--   lists that comprehensions select, in Common/Selected.
--
-- - Validation: validation/framework.py. Running a suite of checks, which may raise, with its
--   cleanup.
--
-- - Pki: pki.py. When certificates are kept or made again; verification of a certificate is a
--   parameter, an issuer is known by its key, and the clock stands still within a call.
--
-- - Helm: helm.py. What is done with a pending release before an upgrade, over the interface
--   HelmApi.
--
-- - Preflight: preflight.py. The findings on a workstation, without their messages.
--
-- Not modelled: the bodies of requests, the interleaving of a run's tasks, the deployment of the
-- cluster, the command lines, and the services, which are C#.
pub mod Common
pub mod Contracts
pub mod Control
pub mod Engine
pub mod Expectations
pub mod Experiment
pub mod Helm
pub mod Jaeger
pub mod Journal
pub mod Kube
pub mod Pki
pub mod Preflight
pub mod Prometheus
pub mod Records
pub mod RunLock
pub mod Schema
pub mod Secrets
pub mod TraceChecks
pub mod Traces
pub mod Validation
pub mod Versions
pub mod Workload
