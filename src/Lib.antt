-- ===== src/Lib.antt =====
-- D-API, a gateway that forwards OpenAI and Anthropic requests to several upstreams.
--
-- A request passes the admission control (internal/gateway/limits.go), the loop over the upstreams
-- that can serve it (internal/gateway/handler.go), and a relay of the response, whole
-- (internal/gateway/stream.go over the budgets of resources.go) or as a stream whose events are
-- watched for token counts (internal/gateway/usage.go). Beside that the monitor and the alert engine
-- (internal/ops, internal/alerts) turn readings into notifications.
--
-- Files and the code they model:
--   Core, Core/Routing: internal/core/types.go (`Supports`, `UpstreamModel`, `Allows`) and the choice
--     of the upstreams in internal/gateway/handler.go.
--   Gateway/Proxy: the loop of `proxy` in handler.go. What the network and the client do is given
--     for each attempt; the log entry with its attempts and the calls of `markSuccess` and
--     `markFailure` are the result.
--   Gateway/Handler: `authenticate` and `proxy` around that loop, from the key to the log entry, for a
--     request that runs alone; Gateway/Gate/Trace lets requests interleave at the gate.
--   Gateway/HealthLocks: `markSuccess`, `markFailure` and the states that they share, with the steps
--     of concurrent requests in Gateway/HealthLocks/Threads.
--   Gateway/Headers, Gateway/Transport: the headers, the bodies and the clients of transport.go.
--   Gateway/Relay: `relayStreamWithMetrics` of stream.go.
--   Gateway/Limits, Gateway/Models: the limits that `newHandler` sets and the handler `models`.
--   Gateway/Gate, Gateway/Rate: `requestGate` and `requestRateLimiter` of limits.go.
--   Gateway/Budget: `byteBudget` and `responseBuffer` of resources.go and the loop of
--     `readResponseWithMetrics` in stream.go.
--   Gateway/Usage, Gateway/Sse: usage.go.
--   Gateway/Recorder: recorder.go, with the queue, the goroutine and the fallback in
--     Gateway/Recorder/Worker.
--   Store/Cache: internal/store/cache.go; Store/Cache/Fresh lets loaders and writers interleave.
--   Store/LoadGate: internal/store/load_gate.go.
--   Store/Health, Store/Balance: `saveHealth` and `SaveBalance` of internal/store/upstreams.go, with
--     their SQL statements as functions of a row.
--   Store/Outbox, App/Worker: the rows of internal/store/notifications.go under their SQL statements,
--     and the worker of internal/app/notifications.go that delivers from them.
--   Store/Pricing: the price of a request and the cache of prices in internal/store/pricing.go.
--   App/Drain: cmd/dapi/shutdown.go. Admin/Login: `loginLimiter` of internal/httpapi/admin.go, and
--     `login` as the calls that it makes of it, between which those of other logins may come.
--   Netguard: internal/netguard/netguard.go. Ops/Paths: internal/ops/probe_cache.go.
--   Ops/Incident: internal/ops/incident.go. Ops/Pending: the queues of internal/ops/monitor.go.
--   Alerts/Engine: `handle` and `RunOnce` of internal/alerts/engine.go. Alerts/States:
--     `PruneAlertStates` of internal/store/alerts.go.
--
-- Conventions. A method that changes its receiver returns the new state; a mutex makes a method one
-- step, and interleavings are sequences of such steps. A channel is a number, and those that are
-- closed are a list. Times and durations are natural numbers of
-- nanoseconds since Go's zero time, so `IsZero` is a comparison with 0 and `a.Sub(b) >= d` is
-- `b + d ≤ a`; durations of 292 years, at which Go's saturate, do not occur. Identifiers, counters and
-- sizes are natural numbers; token counts are int64 with their wrap-around. Maps are association
-- lists with one binding for each key.
-- The rows that a claim of notifications gives out are listed in the order in which they are picked,
-- which the database does not promise. A statement that fails changes nothing. A slice that is nil is `none` where the
-- callee may tell it from an empty one.
-- Loops are recursions on the list that they range over; the loop of `Feed` takes its input's length
-- as fuel, which is enough since each round takes at least one byte; the splitting of a batch
-- of log entries takes the batch's length, since each half is shorter.
--
-- Parameters: the JSON decoding of a stream event and `bytes.TrimSpace` (Gateway/Sse),
-- `strings.TrimSpace` (Core), the functions on header names (Gateway/Headers), texts and
-- addresses, the resolver and the connections (Netguard), the JSON decoder (Gateway/Transport),
-- `sort.Strings` (Gateway/Models), the growth of slices by Go's `append` (Gateway/Budget), the
-- answers of the repository, the notifier and the clock (Alerts/Engine, Gateway/Handler,
-- App/Worker), the arithmetic of prices in floating point (Store/Pricing), the repository of log
-- entries with its context (Gateway/Recorder), the signs of amounts of money
-- (Store/Balance), and `pq.Array` (Alerts/States).
--
-- Not modelled: the archive of alert events, the other SQL statements, HTTP itself, the
-- administration API, the probes' parsing of vendor answers, encryption, the web client.
pub mod Admin
pub mod Alerts
pub mod App
pub mod Base
pub mod Core
pub mod Gateway
pub mod Netguard
pub mod Ops
pub mod Store
