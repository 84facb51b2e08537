-- ===== src/Lib.antt =====
-- The control plane of Llama Wrangler, which puts one endpoint in front of a fleet of Ollama nodes: a
-- request passes the gate of its kind, waits for a slot, is routed to a node by policy, stays with the
-- node of its session if it asks for that, and in consensus mode is answered by several nodes at once.
--
-- The parts, and the files that model them:
--
-- Config.antt: the settings of internal/config/config.go that the other parts read.
--
-- Auth.antt: Auth/Gate is internal/httpapi/auth.go, with `requireAdmin`, `requireClientAPIKey` and
-- `validClientAPIKey` as functions from a request and the known keys to a verdict. Auth/Limiter is
-- internal/httpapi/auth_limiter.go, with `registerFailure` and `reset` on the map of attempts. The
-- admin gate asks the limiter before it refuses a token.
--
-- Queue.antt: internal/httpapi/queue.go. Queue/Scheduler is `queueScheduler`: `configure`, `acquire`
-- (the steps `enter` and `abandon`), `release` and `dispatchLocked`. Each runs under the lock, so
-- concurrent requests are a list of events in the order of the lock, which `run` works through. The
-- fuel of the dispatching loop is the number of waiters, which is enough since each round takes one out
-- of the queue. Queue/Tracker is `queueTracker`, the metadata of current and finished requests.
--
-- Appstate.antt: internal/appstate/state.go. Appstate/Node is the node as it is stored, Appstate/Normal
-- `normalizeNode`, and Appstate/Enrollment `UpsertNode`, `AddEnrollmentRequest` and
-- `RegisterEnrollmentNode`; Appstate/Keys has the client keys, the audit and the approvals. Routing
-- reads the nodes that they store.
--
-- Routing.antt: internal/routing/routing.go. Routing/Policy has `classify` and `score`,
-- Routing/Placement the benchmark summaries, Routing/Plan what a request asks for,
-- Routing/Search the loops over the nodes and the models, and Routing/Select `Select` itself, which
-- reads the nodes of the state and the subscribers of the configuration.
--
-- Session.antt: `ApplyAffinity` of internal/session/session.go, applied to what `Select` chose, with
-- `UpdateSession` of internal/appstate/state.go.
--
-- Consensus.antt: internal/consensus/engine.go. Consensus/Content reads what a response says and gives
-- its signature; Consensus/Engine is `Evaluate`, which groups the candidates by signature.
--
-- Proxy.antt: internal/httpapi/server.go, error_compat.go and consensus.go, where the parts meet.
-- Proxy/Request is `acquireQueue` and `marshalProxy`: a request with its slot is parsed (Proxy/Meta),
-- routed by `Select`, and answered either by the selected node with the affinity of its session and
-- the fallback nodes (Proxy/Forward, `forwardWithFallback`), or by a consensus (Proxy/Fanout and
-- Proxy/ForwardConsensus, `forwardConsensus`), which ends in `Evaluate`. Proxy/Copy is
-- `copyUpstreamResponse` and Proxy/Answer what the client is sent. The nodes are parameters: what each
-- answers, and what stands in the way. The answers to a consensus arrive as a list of events, in any
-- order, and the time ends after the last of them at the latest: Proxy/Heard tells from the list whom
-- the collection hears and why it ends, and Proxy/Cause from an answer why it is a failure. What
-- `json.Unmarshal` leaves of a body that it refuses is a parameter.
--
-- Benchmark.antt: internal/httpapi/benchmark_jobs.go, with the benchmark settings of
-- internal/config/config.go in Benchmark/Settings. A job is a Go map of named values
-- (Benchmark/Job); Benchmark/Jobs has the list of a node's jobs and `scheduleBenchmarkJobRetry`,
-- Benchmark/Reconcile `reconcileBenchmarkJobsForNode`, Benchmark/Handlers what the handlers for
-- subscribers do to a job and its node, and Benchmark/Complete `completeBenchmarkJobWithResult`.
-- Benchmark/Life is the step relation of a job's life. Benchmark/Background is
-- internal/httpapi/benchmark_scheduler_background.go, the ticks at which jobs are reconciled,
-- and Benchmark/Background/Spacing the calls of it over time.
--
-- Common.antt: Boolean tests, lists, integers over the native numbers, texts, association lists for
-- maps, how many keys they have, and stable sorting.
--
-- Conventions: `int` is an unbounded integer or a natural number where the code keeps it from being
-- negative; times and durations are nanoseconds, and the clock is an argument. Floating point numbers
-- (`Numbers`, `Floats`), the JSON decoder and encoder (`Platform`) and the parsing of URLs and
-- addresses (`Network`) are records of operations that the definitions take, with no law assumed of
-- them. A map that is only looked up and stored into is an association list with each key once; the
-- map of nodes is a list in the order in which it is read.
--
-- Not modelled: HTTP input and output, files, random tokens, regular expressions, telemetry, the pages
-- of the user interface, and as yet the results of benchmarks, the handlers for settings and
-- nodes, the secret store and the rest of the application state.
pub mod Common
pub mod Config
pub mod Appstate
pub mod Queue
pub mod Auth
pub mod Routing
pub mod Session
pub mod Consensus
pub mod Proxy
pub mod Benchmark
