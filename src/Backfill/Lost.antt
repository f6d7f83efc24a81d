-- ===== src/Backfill/Lost.antt =====
-- apps/indexer/src/backfill-worker.ts: a worker that has lost its lease.
use altscan.Prelude.{
  String, ◌+◌, ℕ, zero, suc, ◌≡◌, refl, ap, ◌∙◌, Bool, false, List, [], ◌∷◌, Option, some,
  if◌then◌else◌, any_by, arith,
}
use altscan.Backfill.{
  Status, Watermark, Config, capped, error, fenced_update, holds_lease, update_where, to_ms,
}
use altscan.Backfill.Rows.{
  Js, HistoryInsertRow, upsert_address_txs, upsert_token_transfers, map_history_rows,
  ProviderTokenTransfer, TransferInsertRow, map_transfer_rows,
}
use altscan.Backfill.Page.{
  Page, txs_page, transfers_page, Reply, page, refused, raised, lease_lost, Tables, with_watermarks,
  fenced, moved, process_reply, write_failed, page_refused, page_answered, commit, commit_transfers,
  as_uncacheable, page_status, as_written, moved_to, least, blocks_of_txs, blocks_of_transfers,
  refused_status, as_refused, as_error,
}
use altscan.Backfill.Settled.{fenced_update-stamped}

update_where-none :
    (p : Watermark → Bool) (set : Watermark → Watermark) (rows : List Watermark)
    → any_by p rows ≡ false
    → update_where p set rows ≡ rows
unfolding update_where
update_where-none p set [] h = refl
update_where-none p set (w ∷ rows) h =
    let none_of : (p w ≡ false) × (any_by p rows ≡ false) = ground arith in
    rw none_of.0 (ap (λ ws. w ∷ ws) (update_where-none p set rows none_of.1))

module _ (js : Js) (cfg : Config) (e : Watermark) (t : ℕ) (stamp : e.last_attempt_at ≡ some t)
    (db : Tables) (lost : any_by (holds_lease e.id (to_ms t)) db.watermarks ≡ false) where
  refused_update :
      (set : Watermark → Watermark) → fenced_update e set db.watermarks ≡ (false, db.watermarks)
  refused_update set =
      fenced_update-stamped e set t db.watermarks stamp
      ∙ rw (lost, update_where-none (holds_lease e.id (to_ms t)) set db.watermarks lost) refl

  fenced-lost :
      (status : Status) (set : Watermark → Watermark) → fenced e status set db ≡ (lease_lost, db)
  fenced-lost status set =
      ap (λ (r : Bool × List Watermark). (moved status r.0, with_watermarks db r.1))
        (refused_update set)

  -- The transaction of a page, whose fence refuses it.
  commit-lost :
      (cursor : Option String) (min_block : Option ℕ) (written : ℕ) (txs : List HistoryInsertRow)
      (transfers : List TransferInsertRow)
      → commit js cfg e cursor min_block written
          (record db { backfill_address_txs = txs; backfill_token_transfers = transfers })
          db
        ≡ (lease_lost, db)
  commit-lost cursor min_block written txs transfers =
      let total = e.rows_written + written in
      let status = page_status js cfg cursor total in
      let upserted : Tables = record db {
        backfill_address_txs = txs;
        backfill_token_transfers = transfers;
      } in
      ap
        (λ (r : Bool × List Watermark).
          if r.0 then (moved_to status, with_watermarks upserted r.1) else (lease_lost, db))
        (refused_update (as_written js cfg status total cursor min_block))

  transfers-lost :
      (transfers : List ProviderTokenTransfer) (cursor : Option String)
      (mapped : List TransferInsertRow × ℕ)
      → commit_transfers js cfg e transfers cursor mapped db ≡ (lease_lost, db)
  transfers-lost transfers cursor (rows, zero) =
      commit-lost cursor
        (least js cfg (blocks_of_transfers js cfg transfers) e.backfilled_through_block)
        (upsert_token_transfers rows db.backfill_token_transfers).0 db.backfill_address_txs
        (upsert_token_transfers rows db.backfill_token_transfers).1
  transfers-lost transfers cursor (rows, suc skipped) =
      fenced-lost capped (as_uncacheable js cfg (suc skipped))

  answered-lost : (p : Page) → page_answered js cfg e p db ≡ (lease_lost, db)
  unfolding page_answered
  answered-lost (txs_page txs cursor) =
      let rows = map_history_rows js e.entity_id txs in
      commit-lost cursor (least js cfg (blocks_of_txs js cfg txs) e.backfilled_through_block)
        (upsert_address_txs rows db.backfill_address_txs).0
        (upsert_address_txs rows db.backfill_address_txs).1 db.backfill_token_transfers
  answered-lost (transfers_page transfers cursor) =
      transfers-lost transfers cursor (map_transfer_rows js e.entity_id transfers)

  -- Where no running row carries the stamp of a claim any more, whatever the provider replied leaves all
  -- three tables as they were, and the page ends with the lease lost.
  pub process_reply-lost :
      (now : ℕ) (reply : Reply) → process_reply js cfg now e reply db ≡ (lease_lost, db)
  unfolding process_reply write_failed page_refused
  process_reply-lost now (page p) = answered-lost p
  process_reply-lost now (refused reason) =
      let status = refused_status js cfg reason e in
      fenced-lost status (as_refused js cfg now reason status)
  process_reply-lost now (raised text) = fenced-lost error (as_error js cfg now text)
