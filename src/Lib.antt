-- ===== src/Lib.antt =====
-- Subprovisioner is a CSI plugin that provisions block volumes as qcow2 images inside an existing file
-- system volume. A controller service creates, clones, snapshots and expands images by running
-- Kubernetes jobs that mount the backing volume; a node service exposes an image as a block device
-- by a replica set that runs a storage daemon; a monitor deletes the image of a claim that is being
-- deleted and then takes the plugin's finalizer off. All of them coordinate only through the claim's
-- annotations: its state (idle, expanding, cloning, snapshotting, staged) and its list of nodes.
--
-- Files, with the code that they model:
--   Base            shared names, Booleans, lists, int64 with its wrap-around, dictionaries
--   Strconv         strconv.FormatInt and ParseInt on int64
--   Kube            the surroundings: objects, errors, the calls that leave the plugin with their
--                   answers (Calls), programs as trees of calls (Prog), what a program promises
--                   whatever the answers are (Contract), runs against an environment (Run), code of
--                   other packages as parameters (Libraries), the retry helper (Retries)
--   Common          pkg/csiplugin/common: Config (config.go), NodeSet and Pvc (pvc.go; Pvc.Abstract is
--                   its abstract machine on a state and a set of nodes, a quotient of lists), Job
--                   (job.go), ReplicaSet (replicaset.go), Snapshot (volumesnapshot.go), Util
--                   (util.go)
--   Controller      pkg/csiplugin/controller: Capacity (validateCapacity), Create (CreateVolume),
--                   Snapshot (CreateSnapshot), Expand (ControllerExpandVolume), Static (requests
--                   without calls), all of csi.go, and Monitor (monitor.go: the handling of claims
--                   and the queue, in Informer the informer and the start of the controller);
--                   Contents says what patches and jobs are to hold, in texts of its own
--   Node            pkg/csiplugin/node/csi.go: Stage (NodeStageVolume, NodeUnstageVolume), Publish
--                   (the others, with the mode bits in Modes)
--   Cluster         several of these programs at work on one claim: the API server with its versions,
--                   the steps, the roles of the programs (Roles, Taking, Removing, Workers), the
--                   invariant, what a step makes of the claim (Changes), the abstract machine that
--                   the claim follows (Refining), and what follows while a program has the volume
--                   (Exclusive, Going, Beginning, Joining, Overlapping), while a node has it
--                   (Staying, Daemons) and when the claim is being deleted (Sealed, Sealing,
--                   Deleting)
--   Scripts         the scripts of the clone and the snapshot jobs in controller/csi.go, on a directory
--                   of images
--   Ending          the requests and the monitor's items against surroundings that settle in time
--   Plugin          pkg/csiplugin/run.go: the set-up of the two plugins, the gRPC interceptor
--   Identity        pkg/csiplugin/identity/csi.go
--   CommandLine     cmd/csi-plugin/main.go
--   Tests           concrete inputs for the theorems
--
-- A function of the source that calls out is a program: each call to the API server, the file system,
-- the clock, the queue or the context is a node of the tree with one branch for each answer, so that
-- a theorem over all branches is one over every server, every failure and every interleaving with
-- other clients between two calls. An error that the source returns ends the program with `fail`. A
-- history lists the calls so far with their answers, the latest first. `Meets Allowed Post h m` says
-- that the program `m`, run behind the history `h`, makes each call only where `Allowed` lets it, and
-- that `Post` holds of the history and the outcome at its end.
--
-- The three polling loops take a number of rounds and end as `unfinished` when it is used up; the
-- source polls without a bound. The number is a variable everywhere: what is said of programs is for
-- every number of rounds, and where a loop is to return, the rounds that it needs are a hypothesis:
-- within them the job, the replica set or the file that is polled for is read as settled. The
-- monitor's worker loop takes a number of items in the same way.
--
-- Integers of the source are int64 with Go's wrap-around and truncated division. Maps are association
-- lists; the order in which Go walks a map's keys is a parameter. Other parameters are the retry
-- helper, which makes one or more attempts and a further one only after a conflict, SHA-256, and the
-- queue's key functions.
--
-- In Cluster the server holds one claim. It accepts an update whose version is the claim's, gives
-- each accepted write a version that was not used before, and may report an error for a write that
-- it made. Merge patches keep the deletion timestamp. Anybody else may change the claim, but not the
-- plugin's two annotations, and may set the deletion timestamp but not take it back. The workers are
-- the parts of the handlers from the state update on, the whole of `NodeStageVolume`, and the
-- monitor's handling of the claim.
--
-- In Scripts the tools are parameters with their documented effects on names and files; each may
-- fail, and a run may be cut off before each command. Sizes and permissions of images are left out.
--
-- Not modelled: the informer and the queue themselves, which are libraries, so that what they tell
-- the handlers and what the queue answers are parameters; the foreground
-- propagation policy of deletions, the server's reaction to which is its own; the values in log
-- messages; the script of an expansion, which the model carries as a text;
-- scripts/qsd-with-nbd.sh; tests and deployment.
pub mod Base
pub mod Strconv
pub mod Kube
pub mod Common
pub mod Controller
pub mod Node
pub mod Cluster
pub mod Plugin
pub mod Identity
pub mod CommandLine
pub mod Scripts
pub mod Ending
pub mod Tests
