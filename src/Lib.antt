-- ===== src/Lib.antt =====
-- bjorn2scan finds the vulnerabilities of the container images and of the hosts of a Kubernetes
-- cluster, or of one machine. Its parts, and how they interact:
--
-- A scan server (k8s-scan-server) or an agent (bjorn2scan-agent) tells a container manager
-- (scanner-core/containers/manager.go) which containers run. The manager keeps them, has the
-- database record them, asks the database for the state of their images, and asks a job queue
-- (scanner-core/scanning/queue.go) for scans. The queue's one worker retrieves an SBOM for the job's
-- image, scans it with grype, and stores both in the database (scanner-core/database/scanning.go),
-- whose status column (scanner-core/database/status.go) the manager reads again. SBOMs of hosts
-- leave out the paths of sbom-generator-shared/exclusions, and the agent and the cluster update
-- themselves by the version policy of bjorn2scan-agent/updater/version.go and
-- k8s-update-controller/controller/version.go.
--
-- Which file models which part:
--
-- - Container, Status: the types of scanner-core/containers/types.go and the constants and methods
--   of scanner-core/database/status.go, with Go's names in snake case.
-- - Database: the tables of images, containers and nodes, and the operations on them. Tables has the
--   rows, the statements and the transactions; Images and Blobs have scanner-core/database/scanning.go
--   for one image, Bulk the queries on many; Instances and Reconcile have
--   scanner-core/database/instances.go; Maintenance has ResetInterruptedScans and ReapStuckScans and
--   Batches has batchInsert of scanner-core/database/db.go, on a flat list of values; Nodes, NodeBulk,
--   Grouping, NodeScans and NodeReports have scanner-core/database/nodes.go. An operation is a function
--   of the database that gives its result and the database behind it; a statement may fail, by its
--   number, as a parameter says. Triples, Keeping and Success have the rules for such programs: what
--   holds behind a success, what is kept anyway, and when they succeed. The other files are lemmas on
--   what the operations leave in the tables, named for what they are about.
-- - Scanning: Queue and Host are the methods of JobQueue, as functions from the queue to the queue
--   or to the way the call leaves the lock (`Enqueued`). Steps runs calls and turns of the worker in
--   any order (`Event`), with producers that wait; Threads is finer: its relation `Step` has the
--   instants between the worker's tests and its wait, the signals of the condition and who they
--   wake. Pipeline is processJob and processVulnerabilityScan, HostPipeline is processHostJob and
--   processHostVulnerabilityScan. The other files are lemmas, named for what they are about.
-- - Jobs: Rescan has the rescan-database job of scanner-core/jobs with the queries that it makes,
--   Cleanup the cleanup job.
-- - Containers: Store is DatabaseInterface, a record of functions on a state, Manager has the methods
--   of Manager on containers, CatchUp has SetScanQueue and CatchUpScans. The queue's calls are a list
--   of the jobs that are asked for. Backed makes the database the manager's store.
-- - Scheduler: Jobs has scanner-core/scheduler as functions from the scheduler to the scheduler, and
--   runs of calls, timers that fire and executions that end, in any order.
-- - Nodes: Manager has scanner-core/nodes/manager.go, whose database is a record of functions as
--   well (`NodeStore`); Backed makes the database the manager's store. The removal's loop
--   over four attempts is a recursion on their number.
-- - Versions: ShouldUpdate and FindLatestVersion. Exclusions: MergeExclusions, the network mounts and
--   BuildExclusions, with the functions of Go's library that they use on texts in Paths.
-- - Base: shared names, tests, lists, maps, results, lists of texts. Examples: tests and instances.
--
-- Bounds and fuel. Go's counters, lengths and depths are natural numbers here: no code relies on
-- their wrapping. A negative depth limit means no limit in Go, as 0 does here. Loops are structural
-- recursion on their lists, but the worker's loop, which is infinite in Go: `worker` runs it on
-- fuel, one unit for each job and one for the turn that finds the queue empty, so that any fuel
-- above the queue's depth runs it until it sleeps or exits.
--
-- Parameters: SQLite's failures and the clock (`Engine.fault`, `Engine.now`), gzip, reading the JSON of
-- an SBOM and of a report, the SBOM retrievers, grype and the readiness of its database (`Tools`,
-- `HostTools`), the updater of grype's database (`Updater`), semantic versions (`Semver`, with the laws
-- of their precedence in `HasPrecedence`), and the contents of the file of the mounts (`Files`). The
-- queries that the manager relies on are fields of `Store`; what it expects of them stands in
-- `IsReading` and `IsReadingBulk`; for nodes, in `IsAnswering`. The database has these laws, as both
-- files Backed show.
--
-- Not modelled: logging, metrics and HTTP handlers; the tables of packages and vulnerabilities of
-- images and the parsing into them; the scores of the vulnerabilities of nodes; the schema's
-- migrations; the refresh job; loading grype's database; the clients of Kubernetes, Docker and
-- containerd; the updates themselves, behind their policy. They are input and output, or parts of
-- their own behind the interfaces above. In Threads, Shutdown's cancelling and its broadcast are one
-- step, so a producer that waits between them and misses the broadcast is not modelled.
pub mod Base
pub mod Container
pub mod Scheduler
pub mod Status
pub mod Database
pub mod Scanning
pub mod Containers
pub mod Nodes
pub mod Versions
pub mod Exclusions
pub mod Jobs
pub mod Examples
