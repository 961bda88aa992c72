-- ===== src/Lib.antt =====
-- Lyraflow: the logic of the analytics server's ingest path, caches, identity and query compilers, and of
-- its browser SDK. The program is a TypeScript monorepo; its parts are one process that shares state between
-- requests on one event loop, and a script in a page that shares storage with other tabs.
--
-- How the parts interact. A page queues events (packages/sdk-browser/src/queue.ts) and posts batches of
-- them (transport.ts). The server resolves the write key to a project (packages/server/src/auth/
-- project-cache.ts), decides the quota (ingest/quota.ts) from the figures of ingest/counters.ts, and
-- holds accepted rows until they are inserted (ingest/buffer.ts). A login is limited by
-- auth/rate-limit.ts. Identity ranges (packages/core/src/identity/ranges.ts) say who a device belonged
-- to at each instant, and segment results are kept for a while by segments/cache.ts, which a deletion
-- clears. A segment is a tree (packages/core/src/segments/ast.ts) that is validated and compiled to one
-- query with bound parameters (compile.ts and the files beside it). A funnel (packages/core/src/funnels)
-- is compiled to a query over a chain of conditions, which embeds the queries of the segments in its
-- steps, and its figures are counted from the levels that the query returns. A retention report
-- (packages/core/src/retention) is compiled in the same way.
--
-- Files and code:
--   Prelude.antt        lists and Boolean tests on native numbers, membership, map keys (Prelude/Keys),
--                       orders of texts by code units (Prelude/Orders), and `${number}:${text}` keys
--                       (Prelude/Decimal).
--   JsMap.antt          the language's `Map`, with its insertion order; JsMap/Laws, Unique, Weights.
--   Auth/RateLimit      packages/server/src/auth/rate-limit.ts: `check`, `record`, `reset`; `record_key`
--                       is the body of the loop in `record`. Evict, Live, Record and Lockout hold the
--                       proofs.
--   Auth/ProjectCache   packages/server/src/auth/project-cache.ts: `#read`, `#store`, and `#lookup` split
--                       at its await into `begin_lookup` and `end_lookup`. Bounds, Scan, Answers:
--                       proofs.
--   Ingest/Buffer       packages/server/src/ingest/buffer.ts: `add`, `#flushBatch` split into
--                       `flush_batch` and `settle`, `drain`. Laws, Drain, Written: proofs.
--   Ingest/ControlChars packages/core/src/ingest/control-chars.ts: `escapeControlCharacters`. Plain: proofs.
--   Ingest/Counters     packages/server/src/ingest/counters.ts: `record`, `pendingAccepted`,
--                       `persistedAccepted`, and `flush` as `begin_flush` and one `settle` for each
--                       statement. Changes, Kept and Totals: proofs.
--   Ingest/Quota        packages/server/src/ingest/quota.ts: `isOverQuota`; Decision joins it to the
--                       counters.
--   Funnels/Spine       packages/core/src/funnels/spine.ts: `funnelSpine`. Placements: proofs.
--   Funnels/Levels      packages/core/src/funnels/levels.ts: `summarise`. Arrays, Reached,
--                       Steps and Branches: proofs.
--   Funnels/Syntax      packages/core/src/funnels/ast.ts: a funnel after parsing.
--   Funnels/Validate    packages/core/src/funnels/validate.ts: `validateFunnel`, `validateRange`,
--                       `funnelCostWarnings`. Caps: proofs.
--   Funnels/Chains      packages/core/src/funnels/compile.ts: the chains of conditions and the texts
--                       around them; People: `levelPredicate`, `peopleAfter` and the counts; Compile:
--                       `stepCondition` and `compileFunnel`. Replaced, Injection, Binding and Bound:
--                       proofs.
--   Identity/Resolve    packages/core/src/identity/resolve.ts: `resolvedPersonExpr`; Privacy/Suppression:
--                       `notSuppressedExpr` of packages/core/src/privacy/suppression.ts.
--   Identity/Ranges     packages/core/src/identity/ranges.ts: `deriveTiling`, `coalesceContiguous`.
--                       Events, Sorted, Owner, Tiling, Coalesce: proofs.
--   Retention/Validate  packages/core/src/retention/ast.ts: `validateRetention`. Caps: proofs.
--   Retention/Compile   packages/core/src/retention/compile.ts: `compileRetention`, with the texts
--                       of Retention/Texts. Injection and Bound: proofs. Retention/Cells: `measurableCells`
--                       and `periodEnd`. Days: proofs.
--   Segments/Cache      packages/server/src/segments/cache.ts: `get` is `read`, `set` is `store`,
--                       `#drop` is `drop_key`, `clearProject`. Bounds, Drops, Clears, Fresh: proofs.
--   Segments/Syntax     packages/core/src/segments/ast.ts: the tree after parsing. A number is of a type
--                       that is a parameter, and a behaviour carries the identity of its object.
--   Segments/Validate   packages/core/src/segments/validate.ts: `walk`, `validateTree`,
--                       `countBehaviourNodes`, `costWarnings`. Counts, Caps, Costs: proofs.
--   Segments/Params     packages/core/src/segments/params.ts: `Params`; Dates: `chDateTime` and
--                       instants.ts. Alike, Bound and Zones: proofs.
--   Segments/Operators  packages/core/src/segments/predicates.ts, with Predicates; Base: base.ts;
--                       Behaviour: behaviour.ts; Compile: compile.ts. Injection and Bound: proofs.
--   Segments/Replace    a tree with other values, which the proofs on the text of a query compare it to;
--                       Segments/Samples: what the runs of the compilers share.
--   Sdk/Json            what the language's JSON keeps of the values of an event. Laws: proofs.
--   Sdk/Queue           packages/sdk-browser/src/queue.ts: one tab's queue over shared storage. Bounds
--                       and Tabs: proofs.
--   Sdk/Transport       packages/sdk-browser/src/transport.ts: `#run` and `#attempt`, split at the
--                       awaits of the response and of its body, over the operations `QueueOps` of a
--                       queue, which Queued fills with Sdk/Queue. Laws, Replies, Stopped: proofs.
--
-- How state and concurrency are modelled. Each class is a record of its private fields and each method a
-- function on it. A method with an `await` is cut there, and what the event loop interleaves is a list
-- of events that `step` and `run` go through. A run of the transport that ends clears its guard in the
-- same step, though the language does so in the microtask after it. Fields that only record what was done (`written` and `lost` of a buffer, `posts` and `warnings` of a transport,
-- `rows` of the counters, the table that their statements write) are named in their files.
--
-- How the compilers are modelled. A compiler takes the parameters that are bound so far and returns its
-- text and the parameters after it, or the error that is thrown (Segments/Params). A text is a list of
-- code units. What the language does to dates and to the text of a number is the record `Platform` of
-- Segments/Params/Dates, a parameter. Maps from objects to aliases, and from steps to their audiences,
-- are keyed by identity and by position.
--
-- Numbers and clocks. The quota of a project is a whole number, as its column is. Counts are native
-- natural numbers; none reaches the size at which a double loses units. An instant is a number of milliseconds from a point before every instant in use, so that a
-- difference of instants is written as a sum on the other side. A clock reading is an argument of the
-- call that takes it.
--
-- Fuel. The loops that delete an entry each turn (`evict_loop`, `trim`) take the size of their map as
-- fuel, which is enough since no turn adds one. `print` of Prelude/Decimal takes a number
-- larger than the one it prints.
--
-- Not modelled: what SQL means to Postgres and ClickHouse, HTTP routes and their schemas, the command
-- line, the migrations and the dashboard's screens, whose logic is that of the databases, of the web
-- framework or of the browser; and the limits on names and keys, the deletion of old events, and the
-- workers of privacy.
pub mod Prelude
pub mod Privacy
pub mod JsMap
pub mod Auth
pub mod Ingest
pub mod Retention
pub mod Sdk
pub mod Segments
pub mod Funnels
pub mod Identity
