-- ===== src/Lib.antt =====
-- Verification library of wasm-platform: the Rust services that serve HTTP and topic messages with
-- WebAssembly guests.
--
-- Parts of the program, and the files that model them:
-- * lib/platform-common/src/artifacts.rs (Platform/Artifacts): `Sha256Digest::parse`, `from_bytes` and
--   `verify`, and `verify_wasm`. SHA-256 printed as text is the parameter `sha256_hex`.
-- * lib/platform-common/src/identity.rs (Platform/Identity): `validate_token`, `authorize`, `review`
--   and `authorize_status`. The answer of the API server and the JSON decoder are arguments.
-- * components/module-cache/src/cache.rs (ModuleCache/Store, ModuleCache/Server): `Store` with
--   `touch`, `get` and `insert`, where the loop that evicts is recursion on the recency queue, one
--   entry in each round; then `get_module`, `put_module` and `authenticate` over `CacheState`. An
--   upload waits for its body between two accesses of the state, so that `System` has the waiting
--   uploads and the unfinished responses, and a run is a list of events in any order.
-- * components/gateway/src/route_table.rs and route_sync.rs (Gateway/Routes): `RouteTable`, the
--   snapshot, the update stream, the authority that a session publishes, and the retry delay of the
--   loop.
-- * components/gateway/src/nats.rs (Gateway/Pending): `PendingReplies`, with the history of who
--   reserved which id and who was sent which reply.
-- * components/gateway/src/supervisor.rs with config.rs (Gateway/Requests):
--   `RequestSupervisor::handle` up to the admission, `dispatch`, `read_body`, `BoundedPayload`,
--   `RequestLease` and `decode_response`.
-- * components/execution-host/src/config.rs (Host/Config): `AppRegistry`, snapshots, updates and
--   diffs.
-- * components/execution-host/src/modules.rs (Host/Modules): the registration of compiled components
--   within its bounds, and `prepare`, which chooses the bytes to compile; Host/Load is a whole load,
--   with the manifest, the blob and the cache of the files below.
-- * components/execution-host/src/preparation_metrics.rs (Host/Preparation) and dispatch_metrics.rs
--   (Host/Dispatch): the accounting of preparations, and of messages, tasks and executions.
-- * components/execution-host/src/invocation.rs (Host/Invocation): an `Invocation` with its deadline,
--   its cancellation, its cleanup and the guard of its execution, over the `Inner` of
--   dispatch_metrics.rs.
-- * components/execution-host/src/invocation_supervisor.rs with nats.rs (Host/Supervisor): Jobs has
--   the executions and replies and what `collect` does with them; Loop has the branches of `run`, of
--   the loss of authority and of the shutdown, and the intake; Steps has the tasks, the drain, and all
--   of it as events in any order. The authority and the answers of the registries are arguments of the
--   events.
-- * components/execution-host/src/oci.rs (Host/Oci): Responses, Registries and Downloads; Approved
--   says what a reference names, and Plaintext where requests go without TLS. The URL and
--   reference parsers, JSON and the HTTP client are arguments. Cache is the client of the module cache
--   (components/execution-host/src/module_cache.rs) with `ProjectedTokenReader::read`.
-- * components/execution-host/src/config_sync.rs (Host/Session): the session with the operator, over
--   the registries of Host/Config and Host/Modules, the pools and the declared metrics.
-- * components/execution-host/src/redis_client.rs, host_kv.rs, sql_pool.rs, host_sql.rs, metrics.rs
--   and host_metrics.rs (Host/Calls: Redis, Keys, Pools, Sql, UserMetrics, MetricSync): the host calls
--   of a guest. The commands of Redis, the answers of the database and the metrics library are
--   arguments.
--
-- How they interact: the gateway learns its routes from the operator, admits a request under a lease,
-- publishes it, and waits for the reply that `PendingReplies` routes back. The execution host learns
-- its functions from the operator (`run_config_sync`, `AppRegistry`), prepares their modules from the
-- module cache or the OCI registry (`prepare`, `manifest`, `pull`), and registers them within bounds.
-- Its supervisor takes messages from the intake, runs each of them as an `Invocation` within its
-- budget, whose guest calls the host, and replies to it; the supervisor owns every guard that
-- dispatch_metrics.rs counts. The module cache authenticates its clients by a token review
-- (`authorize`) and keeps artifacts by digest (`verify_wasm`).
--
-- Conventions: a `HashMap` is an association list (Base/Map), text is its UTF-8 bytes, `usize` and
-- `u64` are natural numbers, and the counters that the source adds to atomically wrap at 2 ^ 64.
-- Methods that take `&mut self` or lock a mutex return the new state beside their result. All loops
-- are structural recursion, so that no fuel is used; loops that wait for events are steps. Clocks,
-- network answers, decoders and the compiler are arguments.
--
-- Not modelled: the process start, sockets, TLS and gRPC clients, log and metrics text, the linking of
-- guests with Wasmtime, the conversion of SQL rows, the messages that guests publish, and the Go
-- operator: I/O, calls of libraries, or parts that stand beside these.
pub mod Base
pub mod Platform
pub mod ModuleCache
pub mod Gateway
pub mod Host
