-- ===== src/Lib.antt =====
-- A model of the nghttpx ingress controller, and theorems on it. The program watches the objects of a
-- Kubernetes cluster, makes a configuration of nghttpx from the ingresses, writes it to files, tells the
-- running nghttpx of it, and writes the addresses at which it is reached to the ingresses' status.
--
-- The parts, from the command inwards:
--   Main: pkg/cmd/main.go, and the fields that `NewLoadBalancerController` of pkg/controller/controller.go
--     sets. `main` is the checks of `main` up to the running of the controller; `check` is the health check.
--     Main/Handlers: which addresses the server of `registerHandlers` serves.
--   Controller/Lifecycle: `Stop`, as the steps of its calls, which may interleave, and the waiting for the
--     informers. Controller/Running: `Run` side by side with `Start` of the nghttpx process, as a step
--     relation. Controller/Resync: `depResyncPeriod`.
--   Controller/Notifications: the handlers of the informers, one function for each, and `notify`, the table
--     of them that `NewLoadBalancerController` sets up. Controller/References: which objects they look at.
--     Notifications/Meaning says which objects count, from the objects alone.
--   Controller/Sync: `sync`, `getConfigMap`, `ReadConfig` and `worker`. Controller/Sync/Installed puts
--     the manager of pkg/nghttpx behind `sync`. Controller/Sync/Heeded says what the informers do to
--     the caches, and which changes `sync` does not see, and Controller/Sync/Stays what the filters say
--     when another informer comes between; Controller/Sync/Unlost puts the informers, the
--     queue and the worker side by side as a step relation, and Controller/Sync/Settled the manager behind
--     them.
--   Controller/Upstreams: `getUpstreamServers` and `getDefaultUpstream`, with child modules for the paths of
--     an ingress, the credentials, and the backends of an upstream, for what it reads of the caches (Frame,
--     Unread), and for the order of the ingresses (Unordered). Controller/Upstreams/Config says what comes out
--     from the objects alone. Controller/Endpoints: `getEndpoints`.
--     Controller/Credentials: the methods that read TLS secrets. Controller/Annotation:
--     pkg/controller/annotation.go and `validateIngressClass`.
--   Controller/Status: `syncIngress` and what it calls. Controller/Addresses: the lists of addresses of
--     pkg/controller/util.go. Controller/Names: its `ParseNSName` and `IsValidService`.
--   Nghttpx/Types, Nghttpx/Tls, Nghttpx/Pems, Nghttpx/Files, Nghttpx/Reload: pkg/nghttpx, from the records of
--     types.go to `CheckAndReload` of command.go, with the templates' `Execute` as a parameter.
--     Nghttpx/Diff: the diff that `needsReload` logs, which the other modules leave out. Nghttpx/Setup:
--     `NewManager` of main.go. Nghttpx/Process: `Start` of command.go, as a step relation.
--
-- A Go function is a function of the same name in snake case, and a loop of it is a function by recursion on
-- the list that it runs over, with the loop's variables as accumulators. Where a function can only fail, its
-- result is a `Try`, an error message or a value; where it can also panic, it is a `Result`; where it acts on
-- files, processes or the API server, it takes the state of that world and returns the next one (`Io` of
-- Nghttpx/Io, `Act` of Controller/Act). Indexing a slice panics out of range (Common/Arrays), and loops that
-- compact a slice in place store to an array and are compared with plain recursion. Numbers of the cluster
-- are integers; `int32(p)` wraps around (Common/Int). No function needs fuel: all of them are structural.
-- In Controller/Running every step but those of the worker, the informers and the loop of the status is
-- counted; each of these has a run of its own elsewhere.
--
-- Parameters: the caches of the informers (`Caches`), the API server, `net.ParseIP` and `wait.Poll`
-- (`Client`, with `ClientLaws`), the work queue (`WorkQueue`, with `QueueLaws`), the operations on files,
-- processes and connections (`Os`, with `FileLaws` and `PollLaw`), the making of directories and the parsing
-- of templates (`Host`), `float64` (`Floats`, with `FloatLaws`), the multiplexers of net/http (`Muxes`), PEM
-- and X.509 (`Crypto`), `sort.Slice` (`Sorter`, which gives an ascending permutation and need not be stable),
-- `reflect.DeepEqual`, and the other functions of the Kubernetes libraries that are called (`Libraries`). Each
-- set of laws is met by an instance in a Fixtures or Tests module, on which the theorems are applied.
--
-- Not modelled: logging; the rate limiter, which only makes `sync` wait; listing and watching by the
-- informers; the parsing of the command line; the serving of HTTP; `handleSigterm`, which calls `Stop` when
-- the signal comes; and the texts of the templates. In Controller/Sync/Unlost and Controller/Sync/Settled the
-- informers run side by side, each with its events between its cache and its handler, and so do the worker
-- and they; the services do not change there, since their informer has no handler; a handler reads the
-- caches in one moment, and so does a synchronisation, at some time after `Get`. Time does not occur: a poll
-- is a call that ends somehow.

pub mod Common
pub mod Api
pub mod Nghttpx
pub mod Controller
pub mod Main
