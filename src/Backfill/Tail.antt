-- ===== src/Backfill/Tail.antt =====
-- apps/indexer/src/backfill-worker.ts: what the cached tail of an entity has, page by page from the newest.
use altscan.Prelude.{ℕ, ◌≡◌, Bool, true, false, [], ◌∷◌, Option, none, some, String, any_by, All}
use altscan.Backfill.{EntityType, Status, complete, Watermark}
use altscan.Backfill.Rows.{
  ProviderTokenTransfer, HistoryInsertRow, TransferInsertRow, Js, history_row, transfer_row,
  usable_index, same_tx, same_transfer,
}
use altscan.Backfill.Page.{Page, txs_page, transfers_page, Tables, no_cursor, page_cursor}
use altscan.Backfill.Worker.{Provider}

abbrev pub is_complete : Status → Bool
is_complete complete = true
is_complete _ = false

-- No row of the two tables is lost.
pub record Grows (db db' : Tables) : Type 0 where
  pub txs :
      (p : HistoryInsertRow → Bool)
      → any_by p db.backfill_address_txs ≡ true
      → any_by p db'.backfill_address_txs ≡ true
  pub transfers :
      (p : TransferInsertRow → Bool)
      → any_by p db.backfill_token_transfers ≡ true
      → any_by p db'.backfill_token_transfers ≡ true

module _ (js : Js) where
  -- A row of the key that the transfer has.
  abbrev pub StoredTransfer : Tables → (entity_id : String) → ProviderTokenTransfer → Type 0
  StoredTransfer db id r =
      (index : ℕ) × (usable_index js r.log_index ≡ some index)
      × (any_by (same_transfer (transfer_row js (js.to_lower id) r index))
            db.backfill_token_transfers
          ≡ true)

  -- Every entry of a page has its row in the table.
  unfoldable pub Stored : Tables → (entity_id : String) → Page → Type 0
  Stored db id (txs_page txs cursor) =
      All (λ t. any_by (same_tx (history_row js (js.to_lower id) t)) db.backfill_address_txs ≡ true)
        txs
  Stored db id (transfers_page transfers cursor) = All (StoredTransfer db id) transfers

  pub Stored-Grows :
      (db db' : Tables) (id : String) (p : Page) → Grows db db' → Stored db id p → Stored db' id p
  unfolding Stored
  Stored-Grows db db' id (txs_page [] cursor) g h = tt
  Stored-Grows db db' id (txs_page (t ∷ txs) cursor) g (own, rest) = (
    g.txs (same_tx (history_row js (js.to_lower id) t)) own,
    Stored-Grows db db' id (txs_page txs cursor) g rest,
  )
  Stored-Grows db db' id (transfers_page [] cursor) g h = tt
  Stored-Grows db db' id (transfers_page (r ∷ transfers) cursor) g ((index, usable, own), rest) = (
    (index, usable, g.transfers (same_transfer (transfer_row js (js.to_lower id) r index)) own),
    Stored-Grows db db' id (transfers_page transfers cursor) g rest,
  )

module _ (js : Js) (provider : Provider) where
  -- All pages before a cursor are stored, from the first one on.
  pub data Covered (db : Tables) (ty : EntityType) (id : String) : Option String → Type 0 where
    start : Covered db ty id none
    next :
        {c d : Option String}
        → Covered db ty id c
        → Stored js db id (provider ty id c)
        → page_cursor (provider ty id c) ≡ d
        → Covered db ty id d

  -- A tail without a hole: all pages before the row's cursor, and all there are once it is complete.
  pub data Whole (db : Tables) (w : Watermark) : Type 0 where
    ongoing :
        is_complete w.status ≡ false
        → Covered db w.entity_type w.entity_id w.oldest_cursor
        → Whole db w
    finished :
        (c : Option String)
        → w.status ≡ complete
        → Covered db w.entity_type w.entity_id c
        → Stored js db w.entity_id (provider w.entity_type w.entity_id c)
        → no_cursor (page_cursor (provider w.entity_type w.entity_id c)) ≡ true
        → Whole db w

  pub Covered-Grows :
      (db db' : Tables) (ty : EntityType) (id : String) {c : Option String}
      → Grows db db'
      → Covered db ty id c
      → Covered db' ty id c
  Covered-Grows db db' ty id g start = start
  Covered-Grows db db' ty id g (next {c} h stored to) =
      next (Covered-Grows db db' ty id g h) (Stored-Grows js db db' id (provider ty id c) g stored)
        to

  pub Whole-Grows : (db db' : Tables) (w : Watermark) → Grows db db' → Whole db w → Whole db' w
  Whole-Grows db db' w g (ongoing going h) =
      ongoing going (Covered-Grows db db' w.entity_type w.entity_id g h)
  Whole-Grows db db' w g (finished c done h stored last) =
      finished c done (Covered-Grows db db' w.entity_type w.entity_id g h)
        (Stored-Grows js db db' w.entity_id (provider w.entity_type w.entity_id c) g stored) last
