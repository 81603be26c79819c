-- ===== src/Lib.antt =====
-- libvirt-rest-api: a REST service over libvirt, modelled and verified part by part.
--
-- The program. `cmd/libvirt-rest-api/main.go` reads the configuration (`internal/config`), connects
-- to libvirt (`internal/hypervisor`) and serves the HTTP interface (`internal/api`). A request passes
-- the wrappers recoverPanic, accessLog, securityHeaders and cors, the mux with its dispatch on the
-- method, the check of the bearer token, and a handler, which asks the interface `Service` and writes
-- one response. The hypervisor's actions take a lock for their domain; libvirt's event callback
-- publishes to a broker, which numbers the events, keeps the last ones and feeds the subscribers.
--
-- Which file models what:
--   Base: numbers, lists, texts as lists of bytes, and the parts of `strings`, `strconv` and
--     `encoding/hex` that the program calls.
--   Channel: Go's buffered channels as values; sending on a closed channel, closing one twice, and
--     a send that would block are `none`.
--   Broker: internal/hypervisor/events.go. `EventBroker` is eventBroker, `publish`, `subscribe`,
--     `cancel`, `after_cursor` and `close_broker` are its methods; the mutex makes each of them one
--     step. Broker.System interleaves publishers, clients that receive, and a close; Broker.Invariant
--     holds in every state that is reached, Broker.Delivery says what the clients are given.
--   Locks: the domain action locks of internal/hypervisor/libvirt.go. Locks.System interleaves any
--     number of threads that run lockDomainAction or lockDomainActionContext and the unlock.
--   Errors, Service, Values: the errors, values and interface of internal/hypervisor/service.go, and
--     the values of the libvirt binding. `Call` has a constructor for each method of the interface; a
--     service is a function of the calls before.
--   Hypervisor: internal/hypervisor/libvirt.go and internal/hypervisor/snapshots.go over the libvirt
--     binding, which answers by everything that was asked of it before. `Op` is what it can be asked,
--     and the sequence of operations has the locks and the deferred releases of handles too.
--     Hypervisor.Lookup and Power are the lookup, the lock around an action and the actions; Reads,
--     Stats and Display the reads; Snapshots, Snapshots.Order and Snapshots.Listing the snapshots.
--     Freed, Bracket, Actions, Success, Confirmed, Missing, Snapshots.Bracket and Snapshots.Changes
--     are about the operations that a call asks for, Refines about what the actions do to the state
--     of a domain, and Scoped says which operations a method may ask for.
--   Hypervisor.Connection: `Connect`, `Close`, `Subscribe` and the lifecycle callback of
--     internal/hypervisor/libvirt.go, with the variables of the package. Once is about what is done
--     once, Uses about a service from its connection on.
--   Config: internal/config/config.go. Config.Load is `Load`; Spaces, Listen, Tokens and Origins are
--     what it calls. Config.Sound says what a configuration that was loaded keeps to.
--   Api: internal/api/server.go. Api.Http has the response writer, of which each write may fail,
--     and the monad that handlers run in, with panics; Api.Auth the tokens; Api.Validate and
--     Api.Decode the checks of requests; Api.Handlers the handlers; Api.Middleware the wrappers;
--     Api.Routes the registry and the table of `New`, over Api.Mux. Api.Keeps carries an
--     invariant through every handler, the dispatch and the wrappers, once for all invariants;
--     Api.Safety applies it; Api.Answered does the same for the answer.
--   System: the server over the hypervisor. `perform` answers each call of the interface by the
--     method of internal/hypervisor, so that a request causes a sequence of libvirt operations.
--   Process: cmd/libvirt-rest-api/main.go. `run` is the effects that the process has and how it
--     ends; a `World` is what the outside does.
--
-- Parameters. The libvirt binding, the decoder of encoding/json with unknown fields disallowed
-- (`Json`), the encoder and decoders of encoding/xml (`SnapshotXml` and those of Stats and Display),
-- `slices.SortFunc`, `http.MaxBytesReader` (`limit`), `url.Parse` and `net.ParseIP` (`Net`), the order
-- in which a map is visited (`Visits`), the environment and the signals (`World`) are arguments;
-- nothing is assumed of them but where a theorem says so. Api.Mux models what the program uses of
-- `http.ServeMux`: the patterns that `HandleFunc` refuses, malformed ones and such as conflict, and the
-- matching of clean paths; a pattern is ASCII and begins with a slash, and the redirects that a mux
-- answers to paths that are not clean are left out. Of encoding/json the encoder is modelled as far as
-- it fails, for a time after the year 9999. The frames of the event stream are kept as the events
-- that they print.
--
-- Bounds. Nothing runs on fuel: every loop is a structural recursion. Event numbers are 64 bits wide
-- and wrap where the source does; a run is as long as it likes below 2^64 - 1 events. The number
-- of threads and of clients is arbitrary. The creation time of a snapshot is a number of seconds for
-- which `time.Unix` does not wrap.
--
-- Not modelled: that the goroutine of libvirt's event loop runs for ever (one turn of it is), a
-- call of `Connect` while another is under way, and the deadlines of the shutdown. The locks stand in
-- the operations of an action as two steps; what their interleavings do is modelled on its own, in
-- Locks. Times are taken from outside, log lines are kept as what they are about, and Go's scheduler
-- is any order of steps. The tests and the files for building and deploying are left aside.
mod Base
mod Channel
mod Errors
mod Values
pub mod Broker
pub mod Locks
pub mod Service
pub mod Hypervisor
pub mod Api
pub mod Config
pub mod System
pub mod Process
