-- ===== src/Lib.antt =====
-- The MCG OSD deployer: an operator that installs, monitors and removes NooBaa (the Multicloud Object
-- Gateway) on OpenShift Dedicated, and a readiness probe beside it.
--
-- The program and its parts. main.go reads the environment, makes sure that a ManagedMCG resource
-- exists, and starts one reconciler. Every event on a watched object leads to a run of `Reconcile`
-- (controllers/managedmcg_controller.go), which fetches the ManagedMCG, computes the states of four
-- components from the cluster, and then follows one of three paths: a ManagedMCG that is being deleted
-- has NooBaa removed and then its finalizer; one that exists has the finalizer added and all resources
-- brought to their desired state; and where there is none, the operator's own CSV is deleted once the
-- addon's deletion key is there. The status is written at the end. controllers/monitoring_alert.go
-- holds the reconciliation of the monitoring resources, controllers/mcg_bucket.go the handlers of
-- bucket class events, and readinessProbe/ a web server that reads the status of the ManagedMCG.
--
-- Which file models which part:
--   Cluster/Api          api/v1alpha1/managedmcg_types.go
--   Cluster/Meta, Monitoring, Objects, Zero
--                        the objects of the cluster: of each kind the fields that the operator touches
--   Cluster/Platform     the client and the helpers of other projects: `Platform`, a parameter
--   Exec                 Go's results: a value, an error, or a panic, with the state after them
--   Utils                utils/utils.go and utils/resources.go
--   Templates            templates/
--   Console              console/console.go
--   Controller/Reconciler, Calls, Status, Uninstall, Storage, Plugin, Phases, Setup
--                        controllers/managedmcg_controller.go
--   Controller/Access    the access markers of controllers/managedmcg_controller.go, as a table
--   Controller/Bucket    controllers/mcg_bucket.go; Bucket/Race and Bucket/Round hold the two parts that
--                        use a pointer field of the reconciler, access by access, beside
--                        reconciliations that replace it, and Controller/Shared such a field
--   Controller/Callbacks the callbacks that all these files give to `CreateOrUpdate`, by name
--   Controller/Setup/Watches
--                        the watches of controllers/managedmcg_controller.go, all together
--   Controller/Monitoring and its children
--                        controllers/monitoring_alert.go
--   Readiness            readinessProbe/main.go and readinessProbe/readiness/server.go
--   Startup              main.go, with api/v1alpha1/groupversion_info.go in Startup/Scheme
--   Safety               which requests a reconciliation sends, over all paths
--   Lifecycle            what the operator promises, apart from how it comes to it: the stages of a
--                        ManagedMCG with the requests that each permits, histories of steps of the
--                        program in any order, and how a deletion makes progress
--   Panics               where the operator may panic, over all paths
--   Tests                a concrete server, and the theorems at concrete data
-- A function has the name of the source in snake case, as `removeNoobaa` is `remove_noobaa`. Where one
-- function of the source is cut in pieces, the comment above a piece says which part it is.
--
-- State. A method of the reconciler is a program on a pair: the record `Reconciler`, which has the
-- fields of the source that change, and the platform's state. A pointer to an object that the client
-- fills is a field that is written back after the call, the object after a failed call included.
-- `CreateOrUpdate` is a call of the platform that takes the callback of the source. What it leaves in
-- its object is written back only where the source reads it again before the next fetch.
--
-- What is a parameter. The API server may answer anything at any time: the platform's state is any
-- type, and each call, reads too, may change it, since others write to the cluster as well. The laws
-- in `IsLawful` are documented behaviour: a write request can be found in the log of writes,
-- `CreateOrUpdate` makes a fetch, runs its callback and creates or updates its object, a poll ends
-- well only after its condition was true, and at once where it is true at first, a test for a reason
-- sees through wrapping, and numbers are printed differently. Tests/Server has a platform with all of
-- these laws. Others stand at the theorems that need them: a reference to an owner that is there is
-- left as it is (`RefersOnce`), the handler behind `Owns` finds it (`FindsOwner`), and a package adds
-- the versions that it documents to a scheme (`AddsOwn`). In Bucket/Race and Bucket/Round a fetch is
-- a function of the object that it is given, since each handler makes one.
--
-- Interleaving. In a history of Lifecycle/History, a reconciliation, a handler and a start are one
-- step each. What others do to the cluster stands between the steps, and, since every call may change
-- the platform's state, within them too. The handlers of bucket class events run in the informer's
-- goroutine, beside a reconciliation. They share with it `r.objectBucketClaim`, which Bucket/Race
-- has, and `r.bucketClass`, which Bucket/Round has: in both, each access to the field is one step, the
-- accesses come in any order, and the field is a pointer into a store of objects. Of the other fields
-- the handlers use the client, the context and the log.
--
-- Bounds and fuel. The loop over the alerting addresses has no bound in the source; it has fuel here,
-- one round more than there are addon parameters. No other function takes fuel. A conversion to
-- `int32` keeps its wrap-around. Ready replicas, an `int32` of the server, are integers.
--
-- What is not modelled: log lines, contexts, nil ones included, the flags and the health checks of
-- main.go, generated code, the manifests under config/ and bundle/, and everything under
-- vendor/. The manager, the controller builder, and the probe's client and HTTP server are
-- parameters of `main`, `setup_with_manager` and `probe_exit_code`; the handlers and the predicate
-- that controller-runtime brings along for watches are those of `enqueued`. The texts of errors
-- are shortened. JSON and YAML encoding, and the rules embedded from controllers/noobaa-rules.yaml,
-- are parameters. The label that `setNoobaaDesiredState` sets is left out, since its caller copies
-- the spec alone.
pub mod Base
pub mod Exec
pub mod Cluster
pub mod Utils
pub mod Controller
pub mod Console
pub mod Readiness
pub mod Templates
pub mod Startup
pub mod Safety
pub mod Lifecycle
pub mod Panics
mod Tests
