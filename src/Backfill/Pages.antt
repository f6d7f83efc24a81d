-- ===== src/Backfill/Pages.antt =====
-- apps/indexer/src/backfill-worker.ts: every way in which a page ends leaves the tails whole.
use altscan.Prelude.{
  ℕ, zero, suc, ◌+◌, ◌≡◌, refl, sym, ap, subst, ◌∙◌, inl, inr, true, false, List, Option, some,
  String, Bool-cases, if-both, any_by, All, map, length, arith,
}
use altscan.Backfill.{complete, capped, Watermark, Config, fenced_update}
use altscan.Backfill.Rows.{
  ProviderTx, ProviderTokenTransfer, HistoryInsertRow, TransferInsertRow, Js, same_tx,
  same_transfer, insert_new, history_row, map_history_rows, map_transfers, map_transfer_rows,
  upsert_address_txs, upsert_token_transfers,
}
use altscan.Backfill.Page.{
  Page, txs_page, transfers_page, Reply, page, refused, raised, PageStatus, Tables, no_cursor,
  page_cursor, page_status, as_written, commit, commit_transfers, page_answered, process_reply,
  as_uncacheable, least, blocks_of_txs, blocks_of_transfers,
}
use altscan.Backfill.Worker.{Provider, State, done}
use altscan.Backfill.Fence.{holder}
use altscan.Backfill.Tail.{
  Whole, ongoing, finished, Covered, next, Stored, Grows, is_complete, Covered-Grows,
}
use altscan.Backfill.Stored.{
  insert_new-keeps, insert_new-All, same_tx_refl, same_transfer_refl, All-of_map, map_transfers-All,
}
use altscan.Backfill.Settled.{Sound, Sound-settled, Sound-idle}
use altscan.Backfill.Updates.{Current-Covered, Sound-fenced, Sound-refused, Sound-write_failed}

module _ (js : Js) (provider : Provider) where
  module _ (s : State) (h : Sound js provider s) (i : ℕ) (e : Watermark)
      (holds : holder (s.phase i) ≡ some e) where
    module _ (cfg : Config) (cursor : Option String) (min_block : Option ℕ) (written : ℕ)
        (txs : List HistoryInsertRow) (transfers : List TransferInsertRow) where
      abbrev upserted : Tables
      upserted = record s.db { backfill_address_txs = txs; backfill_token_transfers = transfers }

      abbrev total : ℕ
      total = e.rows_written + written

      status-complete :
          (c : Option String) (n : ℕ) → no_cursor c ≡ true → page_status js cfg c n ≡ complete
      status-complete c n last = rw last refl

      status-short :
          (c : Option String) (n : ℕ)
          → no_cursor c ≡ false
          → is_complete (page_status js cfg c n) ≡ false
      status-short c n more = ground (arith, more)

      written-Whole :
          (w : Watermark)
          → Covered js provider upserted w.entity_type w.entity_id w.oldest_cursor
          → Stored js upserted w.entity_id (provider w.entity_type w.entity_id w.oldest_cursor)
          → page_cursor (provider w.entity_type w.entity_id w.oldest_cursor) ≡ cursor
          → Whole js provider upserted
              (as_written js cfg (page_status js cfg cursor total) total cursor min_block w)
      written-Whole w before stored to = elim (Bool-cases (no_cursor cursor)) [
        | inl last ↦
            finished w.oldest_cursor (status-complete cursor total last) before stored
              (ap no_cursor to ∙ last)
        | inr more ↦ ongoing (status-short cursor total more) (next before stored to)
      ]

      Sound-commit :
          Grows s.db upserted
          → Stored js upserted e.entity_id (provider e.entity_type e.entity_id e.oldest_cursor)
          → page_cursor (provider e.entity_type e.entity_id e.oldest_cursor) ≡ cursor
          → Sound js provider (done i (commit js cfg e cursor min_block written upserted s.db).1 s)
      Sound-commit grows stored to =
          if-both (λ (r : PageStatus × Tables). Sound js provider (done i r.1 s))
            (fenced_update e
              (as_written js cfg (page_status js cfg cursor total) total cursor min_block)
              s.db.watermarks).0
            (λ _.
              Sound-settled js provider s h i e holds
                (as_written js cfg (page_status js cfg cursor total) total cursor min_block)
                (λ w. refl) (λ w. inl refl) upserted grows
                (λ w m c.
                  written-Whole w
                    (Covered-Grows js provider s.db upserted w.entity_type w.entity_id grows
                      (Current-Covered js provider s.db e w c (h.whole w m)))
                    (rw (c.same_type, c.same_entity, c.same_cursor) stored)
                    (rw (c.same_type, c.same_entity, c.same_cursor) to)))
            (λ _. Sound-idle js provider s i h)

    Stored-txs :
        (txs : List ProviderTx) (cursor : Option String) (db : Tables)
        → db.backfill_address_txs
          ≡ (upsert_address_txs (map_history_rows js e.entity_id txs) s.db.backfill_address_txs).1
        → Stored js db e.entity_id (txs_page txs cursor)
    unfolding Stored upsert_address_txs map_history_rows
    Stored-txs txs cursor db is_table =
        All-of_map (λ row. any_by (same_tx row) db.backfill_address_txs ≡ true)
          (history_row js (js.to_lower e.entity_id)) txs
          (subst
            (λ table.
              All (λ row. any_by (same_tx row) table ≡ true)
                (map (history_row js (js.to_lower e.entity_id)) txs))
            (sym is_table)
            (insert_new-All same_tx same_tx_refl
              (map (history_row js (js.to_lower e.entity_id)) txs) s.db.backfill_address_txs))

    Stored-transfers :
        (transfers : List ProviderTokenTransfer) (cursor : Option String) (db : Tables)
        → (map_transfer_rows js e.entity_id transfers).1 ≡ 0
        → db.backfill_token_transfers
          ≡ (upsert_token_transfers
              (map_transfer_rows js e.entity_id transfers).0
              s.db.backfill_token_transfers).1
        → Stored js db e.entity_id (transfers_page transfers cursor)
    unfolding Stored upsert_token_transfers map_transfer_rows
    Stored-transfers transfers cursor db none_skipped is_table =
        map_transfers-All js (js.to_lower e.entity_id)
          (λ row. any_by (same_transfer row) db.backfill_token_transfers ≡ true) transfers
          none_skipped
          (subst
            (λ table.
              All (λ row. any_by (same_transfer row) table ≡ true)
                (map_transfers js (js.to_lower e.entity_id) transfers).0)
            (sym is_table)
            (insert_new-All same_transfer same_transfer_refl
              (map_transfers js (js.to_lower e.entity_id) transfers).0
              s.db.backfill_token_transfers))

    Sound-txs_page :
        (cfg : Config) (txs : List ProviderTx) (cursor : Option String)
        → txs_page txs cursor ≡ provider e.entity_type e.entity_id e.oldest_cursor
        → Sound js provider (done i (page_answered js cfg e (txs_page txs cursor) s.db).1 s)
    unfolding page_answered upsert_address_txs
    Sound-txs_page cfg txs cursor asked =
        let rows = map_history_rows js e.entity_id txs in
        let table = insert_new same_tx rows s.db.backfill_address_txs in
        Sound-commit cfg cursor (least js cfg (blocks_of_txs js cfg txs) e.backfilled_through_block)
          (length rows) table s.db.backfill_token_transfers
          (record {
            txs = λ p there.
                insert_new-keeps same_tx same_tx_refl p rows s.db.backfill_address_txs there;
            transfers = λ p there. there;
          })
          (subst (Stored js (record s.db { backfill_address_txs = table }) e.entity_id) asked
            (Stored-txs txs cursor (record s.db { backfill_address_txs = table }) refl))
          (ap page_cursor (sym asked))

    Sound-transfers_page :
        (cfg : Config) (transfers : List ProviderTokenTransfer) (cursor : Option String)
        → transfers_page transfers cursor ≡ provider e.entity_type e.entity_id e.oldest_cursor
        → (mapped : List TransferInsertRow × ℕ)
        → map_transfer_rows js e.entity_id transfers ≡ mapped
        → Sound js provider (done i (commit_transfers js cfg e transfers cursor mapped s.db).1 s)
    unfolding upsert_token_transfers
    Sound-transfers_page cfg transfers cursor asked (rows, zero) is_mapped =
        let table = insert_new same_transfer rows s.db.backfill_token_transfers in
        Sound-commit cfg cursor
          (least js cfg (blocks_of_transfers js cfg transfers) e.backfilled_through_block)
          (length rows) s.db.backfill_address_txs table
          (record {
            txs = λ p there. there;
            transfers = λ p there.
                insert_new-keeps same_transfer same_transfer_refl p rows
                  s.db.backfill_token_transfers there;
          })
          (subst (Stored js (record s.db { backfill_token_transfers = table }) e.entity_id) asked (
            Stored-transfers transfers cursor (record s.db { backfill_token_transfers = table })
              (ap (λ (m : List TransferInsertRow × ℕ). m.1) is_mapped)
              (ap
                (λ (m : List TransferInsertRow × ℕ).
                  insert_new same_transfer m.0 s.db.backfill_token_transfers)
                (sym is_mapped))))
          (ap page_cursor (sym asked))
    Sound-transfers_page cfg transfers cursor asked (rows, suc skipped) is_mapped =
        Sound-fenced js provider s h i e holds capped (as_uncacheable js cfg (suc skipped))
          (λ w. refl) (λ w. inl refl) (λ w. refl) (λ w. refl) (λ w. refl) (λ w. refl)

    Sound-answered :
        (cfg : Config) (p : Page)
        → p ≡ provider e.entity_type e.entity_id e.oldest_cursor
        → Sound js provider (done i (page_answered js cfg e p s.db).1 s)
    unfolding page_answered
    Sound-answered cfg (txs_page txs cursor) asked = Sound-txs_page cfg txs cursor asked
    Sound-answered cfg (transfers_page transfers cursor) asked =
        Sound-transfers_page cfg transfers cursor asked (map_transfer_rows js e.entity_id transfers)
          refl

    pub Sound-process_reply :
        (cfg : Config) (reply : Reply)
        → ((p : Page) → reply ≡ page p → p ≡ provider e.entity_type e.entity_id e.oldest_cursor)
        → Sound js provider (done i (process_reply js cfg s.clock e reply s.db).1 s)
    unfolding process_reply
    Sound-process_reply cfg (page p) asked = Sound-answered cfg p (asked p refl)
    Sound-process_reply cfg (refused reason) asked =
        Sound-refused js provider s h i e holds cfg reason
    Sound-process_reply cfg (raised text) asked =
        Sound-write_failed js provider s h i e holds cfg text
