-- ===== src/Lib.antt =====
-- AltScan indexes EVM chains: `apps/indexer` reads blocks from a pool of RPC endpoints and writes them
-- to a database, and the explorer serves it. This library models the parts of the indexer that decide
-- what is stored, skipped, rolled back and healed, the rate limiter of the explorer, the OAuth server,
-- the budget of a metered provider, and the backfill of older pages from that provider.
--
-- The parts and their files:
--   Health      apps/indexer/src/endpoint-health.ts: streaks of failures for each endpoint and kind of
--               request, demotion, and the order in which a call tries the endpoints.
--   Failover    apps/indexer/src/rpc-failover.ts: a block or a read is tried on one endpoint after the
--               other, in the order of Health. Failover.Errors holds the two marks of a thrown value.
--   Poison      apps/indexer/src/poison-block.ts: the counts of clean failures, which rest on the mark
--               `exhausted-clean` of Failover, and the test that makes a block a candidate.
--   Db          packages/db/schema.ts and apps/indexer/src/ensure-schema.ts: the tables as lists of rows,
--               with the columns that the modelled code reads or writes. Db.Heights is what the
--               statements ask of a range of heights.
--   Gaps        apps/indexer/src/index-gaps.ts: the record of a skipped range or of a quarantined block.
--   Reorg       apps/indexer/src/reorg-handler.ts: the check of the stored tip against the chain on one
--               endpoint and on the pool, through Failover; Reorg.Rollback is the rollback of Db.
--   Healer      apps/indexer/src/gap-healer.ts: one tick that re-indexes what Gaps recorded;
--               Healer.Selection chooses and claims the gap.
--   Poll        apps/indexer/src/index.ts: the steps of the poll loop, which move the cursor and use
--               Poison, Gaps, Failover's marks and Reorg's rollback; Poll.Resume is where it starts.
--   TransferWriter  apps/indexer/src/block-processor.ts: the asynchronous writer of token transfers, whose
--               watermark the poll loop moves past abandoned ranges and rewinds in a reorg. An event is
--               what runs between two awaits; .Kept and .History carry a property through all of them.
--   RateLimit   packages/explorer-core/src/rate-limit.ts: the in-memory limiter and its fallback.
--   InternalTx  apps/indexer/src/internal-tx.ts: the rows of value-moving frames of a call trace.
--   OAuth       packages/oauth/src/server.ts, checks.ts, tokens.ts and crypto.ts: the registration of clients,
--               the sign-in of an address, the single-use code and the access token. .Base64 is the text
--               of the tokens' parts, .Layout what their JSON says, .Bearer the header. The platform's
--               hashing, `btoa`, JSON and URLs are a record of functions, the code store is an interface.
--   Moralis     packages/providers/src/moralis.ts: the gate that spends the monthly compute units and the
--               hourly and daily calls of a provider, with its ledger in Redis or in memory.
--   Backfill    apps/indexer/src/backfill-worker.ts, with backfill-budget.ts and postgres-text.ts beside it, and
--               apps/explorer/lib/backfill-trigger.ts: the queue of entities whose older pages are cached,
--               claimed under a lease by any number of workers. .Rows is a page's way into the tables, .Page
--               a page of work, .Worker the rounds, a statement at a time; .Due says which rows a claim
--               may take and in which order; .Pages and .Rounds carry a property through them.
--   Prelude     Boolean tests, lists over the native numbers, and JavaScript's Map and Set.
--
-- How the code corresponds to the model. A function keeps its name in this library's spelling
-- (`recordFailure` is `record_failure`). State that a closure or a module holds is a record that the
-- operations take and return. A call that may throw returns a value that says so. The clock is an
-- argument: one reading, or a function of the number of earlier readings where the code reads it more
-- than once. What the code awaits from outside is a parameter of any behaviour: the work on a block, a
-- read, the driver's reply, the healer's calls. An endpoint is a number, and identity of endpoints is
-- equality of numbers. A map is an association list in insertion order with one entry for a key.
--
-- Bounds and fuel. Heights, counts and milliseconds are natural numbers; where the source's difference
-- may be negative, the model compares sums instead, or a file says what happens at 0. A loop
-- is a recursion on the list it goes over, or on the number of rounds that the source's bound gives,
-- as in `find_fork_point`, whose rounds are those from the start to the floor. Only the fold of
-- TransferWriter runs on fuel, the largest written height: each round goes up by one and needs a written height.
--
-- Not modelled: SQL below the level of a statement, transactions of other processes except as the
-- behaviour of a parameter, logging, the redaction of secrets in log lines, the rest of the start-up
-- of index.ts, the block processor but for the transfer writer, retention, webhooks, the
-- discovery documents and the HTML of the OAuth server, and the explorer's and the admin's pages. Of the
-- backfill: the sizes of the disk and the politeness towards the provider, whose outcome, the types that a
-- claim leaves out, is any set; and a transaction that commits while its answer is lost, since a write
-- that throws is taken to be rolled back.
pub mod Prelude
pub mod Poison
pub mod Health
pub mod Failover
pub mod Db
pub mod Gaps
pub mod Reorg
pub mod RateLimit
pub mod TransferWriter
pub mod InternalTx
pub mod Healer
pub mod Poll
pub mod Moralis
pub mod Backfill
pub mod OAuth
