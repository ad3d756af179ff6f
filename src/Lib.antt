-- ===== src/Lib.antt =====
-- The cluster registrar: a controller that keeps one ArgoCD cluster Secret for each child cluster
-- that a labelled namespace holds.
--
-- How the program works. A key is the name of a source namespace. ReconcileOne reads the
-- namespace and decides: gone, its registrations are collected; found, the registrations of a
-- predecessor of the same name are collected, the namespace's kubeconfig Secret is discovered and
-- parsed, the cluster Secret is applied, and what the namespace registered under other names
-- before is demoted. Reconcile does this for every key and then audits the owned Secrets.
--
-- Which file models which part (paths from the root of the repository).
-- - Common and below: texts as lists of bytes, maps with string keys as association lists, the
--   parts of strings, path, sort and maps that the program uses, and the lemmas on them.
-- - Labels, Provider, Config: the label keys, the presets and provider specs, and the checked
--   configuration (internal/registrar/registrar.go).
-- - Kube, Runtime, Libraries: the fields of the Kubernetes objects that are read and written,
--   those of client-go and controller-runtime that are set, and what the program calls of other
--   libraries.
-- - Api: the calls of the Kubernetes API, the clock, the metrics, and of what connects and starts
--   the process. A step of the program is a tree of calls that waits for each answer. Api/Calls
--   says that every call satisfies a predicate, whatever the answers; Api/Safe judges each call by
--   the calls and answers before; Api/Reach is the step relation, the calls that a program comes
--   to; Api/Server runs a program against a server and says what a server gives back; Api/Store is
--   the store of the target namespace with its resource versions, as the API documents it, where
--   others write between any two calls.
-- - Argo, Kubeconfig, Kubeconfig/Parse: the kubeconfig, its current cluster and user, and the
--   credential that is carried over (internal/registrar/kubeconfig.go).
-- - Exec: the translation of exec plugins (internal/registrar/exec.go).
-- - Propagate, Registrar, Discover, Ownership, Apply, Collect, Reconcile: the steps of
--   internal/registrar/registrar.go under the names of their functions, in snake case: propagate,
--   discoverOne, checkOwnership, claimContestedName, claimServer, apply, changed, demote,
--   collectOne, collectStaleUID, deleteOrphan, deleteExpired, ReconcileOne, Reconcile.
-- - Expiry, Audit: the expiry buckets (internal/registrar/expiry.go) and AuditUnrouted with the
--   gauges (internal/registrar/metrics.go). Metrics: the series that exist from the start.
-- - Controller: Reconciler.Reconcile and done (internal/registrar/controller.go), which decide when
--   a key comes back; Controller/Manager: managerOptions and the checks of Start; Controller/Seed:
--   the seeder of Start, with the number of polls until it is cancelled as an argument.
-- - Options: what the flags decide, resolveProviders and buildOptions (cmd/root.go), and the name of
--   the lease (internal/registrar/registrar.go); Options/Command: the defaults of the flags and the
--   choice between one sweep and the controller.
-- - Startup: BaseRestConfig, ClientFor, New (internal/registrar/registrar.go), Start
--   (internal/registrar/controller.go), RunE (cmd/root.go) and the exit code (main.go), with the
--   calls of client-go and controller-runtime answered in any way.
-- - Tests and below: concrete objects and runs.
--
-- State and failure. The program keeps no state between two keys, so the state is the cluster,
-- which others write at any time: the model makes no assumption on the answers of the API server.
-- Errors are values that name the failed call; their texts and the log lines are left out. Go's
-- maps are association lists, a nil map and an empty one are not told apart, and the model reads
-- a map by key only or after sorting. Times are natural numbers of nanoseconds; a duration stops
-- at the bounds of int64 as in the source. Every loop is structural, so there is no fuel.
--
-- Parameters (Libraries). YAML and JSON, url.Parse, path.Match, the validation functions of
-- k8s.io/apimachinery, the format of the time stamps, base64, PEM, x509 and sha256 are
-- arguments, and the theorems hold for all of them.
--
-- Not modelled: what the manager of controller-runtime does while it runs, other than to call the
-- reconciler and the seeder, which are modelled by themselves; the parsing of arguments, the
-- declarations of the metrics, the signals, and the texts of logs and errors.
pub mod Common
pub mod Labels
pub mod Kube
pub mod Runtime
pub mod Api
pub mod Argo
pub mod Kubeconfig
pub mod Libraries
pub mod Exec
pub mod Provider
pub mod Config
pub mod Propagate
pub mod Registrar
pub mod Discover
pub mod Ownership
pub mod Apply
pub mod Collect
pub mod Expiry
pub mod Audit
pub mod Metrics
pub mod Reconcile
pub mod Controller
pub mod Startup
pub mod Options
pub mod Tests
