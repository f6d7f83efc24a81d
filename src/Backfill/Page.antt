-- ===== src/Backfill/Page.antt =====
-- apps/indexer/src/backfill-worker.ts: `processOnePage`, from the provider's reply on. The transaction commits
-- the rows and the watermark together; where it fails, `write_failed` runs after it.
use altscan.Prelude.{
  ℕ, zero, suc, ◌+◌, min, Bool, true, false, ◌&&◌, List, [], ◌∷◌, Option, none, some, String, leb,
  ltb, ◌===◌, string_eq, if◌then◌else◌,
}
use Prim.Native.String.{◌++◌ as joined}
use altscan.Backfill.{
  Status, pending, partial, complete, capped, error, Watermark, Config, fenced_update,
}
use altscan.Backfill.Text.{sanitize_token_metadata}
use altscan.Backfill.Rows.{
  ProviderTx, ProviderTokenTransfer, HistoryInsertRow, TransferInsertRow, Js, map_history_rows,
  map_transfer_rows, upsert_address_txs, upsert_token_transfers,
}

-- What `processOnePage` returns: a status that it stored, or `lease_lost`.
pub data PageStatus : Type 0 where
  moved_to : Status → PageStatus
  lease_lost : PageStatus

pub data FailReason : Type 0 where
  not_configured disabled rate_limited upstream_error : FailReason

pub data Page : Type 0 where
  txs_page : List ProviderTx → (cursor : Option String) → Page
  transfers_page : List ProviderTokenTransfer → (cursor : Option String) → Page

-- What the provider's method gives: a page, a reason, or an error with its text.
pub data Reply : Type 0 where
  page : Page → Reply
  refused : FailReason → Reply
  raised : (text : String) → Reply

-- The three tables that a page touches.
pub record Tables : Type 0 where
  pub watermarks : List Watermark
  pub backfill_address_txs : List HistoryInsertRow
  pub backfill_token_transfers : List TransferInsertRow

abbrev pub with_watermarks : Tables → List Watermark → Tables
with_watermarks db rows = record db { watermarks = rows }

abbrev pub idle_status : Watermark → Status
idle_status e = if ltb 0 e.rows_written then partial else pending

abbrev pub moved : Status → Bool → PageStatus
moved status held = if held then moved_to status else lease_lost

-- One fenced UPDATE on its own.
abbrev pub fenced : Watermark → Status → (Watermark → Watermark) → Tables → PageStatus × Tables
fenced e status set db =
    let r = fenced_update e set db.watermarks in (moved status r.0, with_watermarks db r.1)

abbrev pub no_cursor : Option String → Bool
no_cursor none = true
no_cursor (some s) = s === ""

abbrev pub page_cursor : Page → Option String
page_cursor (txs_page txs cursor) = cursor
page_cursor (transfers_page transfers cursor) = cursor

module _ (js : Js) (cfg : Config) where
  -- The UPDATE after an error of the provider or of a write.
  abbrev pub as_error : (now : ℕ) (text : String) → Watermark → Watermark
  as_error now text w = record w {
    status = error;
    attempts = w.attempts + 1;
    last_error = some (sanitize_token_metadata text "unknown error" 500);
    last_attempt_at = some now;
  }

  unfoldable pub write_failed : (now : ℕ) (text : String) → Watermark → Tables → PageStatus × Tables
  write_failed now text e db = fenced e error (as_error now text) db

  abbrev pub operational : FailReason → Bool
  operational upstream_error = false
  operational _ = true

  abbrev pub reason_text : FailReason → String
  reason_text not_configured = "not_configured"
  reason_text disabled = "disabled"
  reason_text rate_limited = "rate_limited"
  reason_text upstream_error = "upstream_error"

  abbrev pub refused_status : FailReason → Watermark → Status
  refused_status reason e =
      if operational reason
      then idle_status e
      else if leb cfg.max_attempts (e.attempts + 1) && ltb 0 e.rows_written
      then capped
      else error

  abbrev pub as_refused : (now : ℕ) → FailReason → Status → Watermark → Watermark
  as_refused now reason status w = record w {
    status = status;
    attempts = w.attempts + (if operational reason then 0 else 1);
    last_error = some (reason_text reason);
    last_attempt_at = some now;
  }

  unfoldable pub page_refused : (now : ℕ) → FailReason → Watermark → Tables → PageStatus × Tables
  page_refused now reason e db =
      let status = refused_status reason e in fenced e status (as_refused now reason status) db

  abbrev pub uncacheable : (skipped : ℕ) → String
  uncacheable skipped =
      joined "uncacheable page: " (joined (js.numeral skipped) " row(s) without usable log_index")

  abbrev pub as_uncacheable : (skipped : ℕ) → Watermark → Watermark
  as_uncacheable skipped w = record w { status = capped; last_error = some (uncacheable skipped) }

  abbrev pub least : List ℕ → Option ℕ → Option ℕ
  least [] otherwise = otherwise
  least (n ∷ ns) otherwise = elim (least ns none) [ none ↦ some n | some m ↦ some (min n m) ]

  abbrev pub blocks_of_txs : List ProviderTx → List ℕ
  blocks_of_txs [] = []
  blocks_of_txs (t ∷ txs) = js.number t.block_number ∷ blocks_of_txs txs

  abbrev pub blocks_of_transfers : List ProviderTokenTransfer → List ℕ
  blocks_of_transfers [] = []
  blocks_of_transfers (t ∷ transfers) = js.number t.block_number ∷ blocks_of_transfers transfers

  abbrev pub page_status : (cursor : Option String) (total : ℕ) → Status
  page_status cursor total =
      if no_cursor cursor
      then complete
      else if leb cfg.max_rows_per_entity total
      then capped
      else partial

  abbrev pub as_written :
      Status → (total : ℕ) (cursor : Option String) (min_block : Option ℕ) → Watermark → Watermark
  as_written status total cursor min_block w = record w {
    status = status;
    rows_written = total;
    oldest_cursor = cursor;
    backfilled_through_block = min_block;
    attempts = 0;
    last_error = none;
  }

  -- The transaction: rows and watermark, or neither when the fence refuses.
  abbrev pub commit :
      Watermark
      → (cursor : Option String) (min_block : Option ℕ) (written : ℕ) (upserted : Tables) → Tables
      → PageStatus × Tables
  commit e cursor min_block written upserted db =
      let total = e.rows_written + written in
      let status = page_status cursor total in
      let r = fenced_update e (as_written status total cursor min_block) upserted.watermarks in
      if r.0 then (moved_to status, with_watermarks upserted r.1) else (lease_lost, db)

  abbrev pub commit_txs :
      Watermark → List ProviderTx → (cursor : Option String) → Tables → PageStatus × Tables
  commit_txs e txs cursor db =
      let r = upsert_address_txs (map_history_rows js e.entity_id txs) db.backfill_address_txs in
      commit e cursor (least (blocks_of_txs txs) e.backfilled_through_block) r.0
        (record db { backfill_address_txs = r.1 }) db

  abbrev pub commit_transfers :
      Watermark
      → List ProviderTokenTransfer
      → (cursor : Option String) → List TransferInsertRow × ℕ
      → Tables
      → PageStatus × Tables
  commit_transfers e transfers cursor (rows, zero) db =
      let r = upsert_token_transfers rows db.backfill_token_transfers in
      commit e cursor (least (blocks_of_transfers transfers) e.backfilled_through_block) r.0
        (record db { backfill_token_transfers = r.1 }) db
  commit_transfers e transfers cursor (rows, suc skipped) db =
      fenced e capped (as_uncacheable (suc skipped)) db

  unfoldable pub page_answered : Watermark → Page → Tables → PageStatus × Tables
  page_answered e (txs_page txs cursor) db = commit_txs e txs cursor db
  page_answered e (transfers_page transfers cursor) db =
      commit_transfers e transfers cursor (map_transfer_rows js e.entity_id transfers) db

  -- `processOnePage` once the reply is there, when nothing of the transaction fails.
  unfoldable pub process_reply : (now : ℕ) → Watermark → Reply → Tables → PageStatus × Tables
  unfolding write_failed page_refused page_answered
  process_reply now e (page p) db = page_answered e p db
  process_reply now e (refused reason) db = page_refused now reason e db
  process_reply now e (raised text) db = write_failed now text e db
