-- ===== src/Lib.antt =====
-- Verification of agent-ledger, a reverse proxy between agents and the APIs of language models that
-- meters each call, keeps budgets and limits, and watches agents for loops.
--
-- The program and its files. A request passes the proxy (internal/proxy/proxy.go): the key is
-- taken from the headers and looked up in the blocklist, the agent's session is tracked, the rate
-- limiter and then the budget manager may refuse, and the breaker stands before the upstream. The
-- reply's usage is priced by the meter and handed to the recorder, which writes it to a store; a
-- streamed reply is read on its way through. MCP servers have their own interceptor, which prices
-- tool calls and hands records to the same recorder. Alerts of tracker and budgets go to notifiers.
--
--   Base       lists, Go's int64, maps as association lists in the order of iteration, instants,
--              and the interface of float64, with thousandths as an instance for examples
--   Breaker    internal/budget/circuit_breaker.go: RoundTrip is round_trip, with allow,
--              record_failure and record_success; Streak and Gate hold the proofs
--   RateLimit  internal/ratelimit/limiter.go: Allow is allow; Windows, Bounds, Runs, Burst and
--              Eviction hold the proofs
--   Budget     internal/budget/budget.go: Rules (the match and evaluation of rules), Spend (the
--              totals and their cache) and Manager (Check); Evaluation, Caching and Strictest prove
--   Agent      internal/agent: Session (data), Detector (detector.go) and Tracker (session.go)
--   Meter      internal/meter: Pricing (the price table), Cost (meter.go), Encoding (estimator.go)
--   Ledger     internal/ledger: Usage (models.go), Recorder (recorder.go) and Store (sqlite.go, whose
--              statements are functions on lists of rows; Costs is QueryCosts)
--   Mcp        internal/mcp: Interceptor (interceptor.go and jsonrpc.go), Pricing (pricing.go) and
--              HttpProxy (httpproxy.go)
--   Alert      internal/alert: alert.go and ratelimit.go
--   Access     internal/provider/provider.go, internal/tenant/tenant.go, internal/admin/blocklist.go
--   Provider   internal/provider: the match, path and parser of each provider (Compat, Anthropic,
--              Azure, Gemini, Cohere) and Registry (registry.go), which picks one; Registry/Mux is
--              the part of cmd/agentledger/serve.go that routes paths to the proxy
--   Proxy      internal/proxy: Handler (ServeHTTP of proxy.go, over the parts above), Rewrite and
--              Response (rewrite and modifyResponse of proxy.go) and Stream (streaming.go), with
--              package bytes as far as it uses it
--   Admin      internal/admin: Store (store.go) and Api (handlers.go), which changes the rules of
--              the budget manager and the list of the blocklist
--   Dashboard  internal/dashboard/handlers.go, over the queries of the store
--
-- State is passed from an operation to the next one; what an operation does to others (metrics, a
-- notifier, the store, the tracker) is a list of effects in its result. Where a lock is held for a
-- whole operation, operations come one after another; the recorder, which has none, is a relation
-- of steps. An operation that reads the clock is given the instants; an int is an int64 that wraps
-- around. Amounts in dollars are of any type with the operations of float64, and the laws of its
-- comparison stand as a hypothesis where they are needed. Logging is left out everywhere.
--
-- Parameters of the models. Code that is not in the repository: filepath.Match, encoding/json, the
-- parser of URLs and of numbers, SHA-256, tiktoken, the calendar, and the row that SQLite picks for
-- the columns that are neither grouped nor summed, and what its SUM and AVG make of a column. The budget manager, the admin API and the
-- dashboard take the ledger's queries as parameters, which Store fills; Handler and Stream take
-- whether a provider matches a request, and what its parsers answer, as parameters, which the
-- functions of Provider fill.
--
-- Bounds: loops are structural, except that over a stream's buffer, which runs on as much fuel as
-- the buffer has bytes; an event takes at least two of them. The tracker's cap of 10000 sessions is
-- the source's.
--
-- Not modelled: errorHandler and the JSON of the proxy's errors; PostgreSQL, whose statements are
-- those of SQLite with other placeholders, and the store's time series, latencies and histories,
-- with the handlers of internal/dashboard that hand them on; the pipes of internal/mcp/stdio.go; the
-- senders of internal/alert; internal/otel; the loading of internal/config; cmd/agentledger but for
-- the routes of the proxy, and which of two patterns that fit a path ServeMux prefers. They are
-- mostly glue around libraries. Calls of the admin API come one after another, and a query of the
-- store does not fail but where its own statement makes it fail.
mod Base
pub mod Breaker
pub mod RateLimit
pub mod Budget
pub mod Agent
pub mod Meter
pub mod Ledger
pub mod Mcp
pub mod Alert
pub mod Access
pub mod Provider
pub mod Proxy
pub mod Admin
pub mod Dashboard
