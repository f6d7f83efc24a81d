-- ===== src/Backfill/Rows.antt =====
-- apps/indexer/src/backfill-worker.ts: from a provider's page to the rows of the two tables, and the upserts.
use Prim.Native.String.{[] as end_of_text, ◌∷◌ as followed_by}
use altscan.Prelude.{
  ℕ, ◌+◌, ◌*◌, Bool, true, not, ◌&&◌, ◌||◌, List, [], ◌∷◌, ◌++◌, Option, none, some, String, map,
  leb, ◌==◌, ◌===◌, string_eq, if◌then◌else◌, any_by, length, is_digit,
}
use altscan.Backfill.Text.{sanitize_nullable_text}

-- The fields that the worker reads.
pub record ProviderTx : Type 0 where
  pub hash : String
  pub block_number : String
  pub block_timestamp : String
  pub from_address : String
  pub to_address : Option String
  pub value : String
  pub category : String
  pub summary : String
  pub possible_spam : Bool

pub record ProviderTokenTransfer : Type 0 where
  pub tx_hash : String
  pub log_index : Option String
  pub block_number : String
  pub block_timestamp : String
  pub from_address : String
  pub to_address : String
  pub token_address : String
  pub token_symbol : String
  pub token_decimals : String
  pub value : String
  pub value_formatted : String

pub record HistoryInsertRow : Type 0 where
  pub address : String
  pub tx_hash : String
  pub block_number : ℕ
  pub block_timestamp : ℕ
  pub from_address : String
  pub to_address : Option String
  pub value : String
  pub category : Option String
  pub summary : Option String
  pub possible_spam : Bool

pub record TransferInsertRow : Type 0 where
  pub scope_address : String
  pub tx_hash : String
  pub log_index : ℕ
  pub token_address : String
  pub from_address : String
  pub to_address : String
  pub value : String
  pub value_formatted : Option String
  pub token_symbol : Option String
  pub token_decimals : Option ℕ
  pub block_number : ℕ
  pub block_timestamp : ℕ

-- JavaScript's `toLowerCase`, `Number` of a numeral, the numeral of a number, and `Date` of a text, in
-- milliseconds.
pub record Js : Type 0 where
  pub to_lower : String → String
  pub number : String → ℕ
  pub numeral : ℕ → String
  pub date_ms : String → ℕ

unfoldable all_digits : String → Bool
all_digits end_of_text = true
all_digits (followed_by c s) = is_digit c && all_digits s

-- `^\d+$`
unfoldable pub is_numeral : String → Bool
unfolding all_digits
is_numeral s = not (s === "") && all_digits s

abbrev pub max_log_index : ℕ
max_log_index = 2_147_483_647

module _ (js : Js) where
  unfoldable pub parse_block_timestamp : String → ℕ
  parse_block_timestamp ts = if is_numeral ts then js.number ts * 1_000 else js.date_ms ts

  abbrev pub history_row : (scope : String) → ProviderTx → HistoryInsertRow
  history_row scope t = record {
    address = scope;
    tx_hash = js.to_lower t.hash;
    block_number = js.number t.block_number;
    block_timestamp = parse_block_timestamp t.block_timestamp;
    from_address = t.from_address;
    to_address = t.to_address;
    value = t.value;
    category = sanitize_nullable_text (some t.category) (some 64);
    summary = sanitize_nullable_text (some t.summary) none;
    possible_spam = t.possible_spam;
  }

  unfoldable pub map_history_rows : (address : String) → List ProviderTx → List HistoryInsertRow
  map_history_rows address txs = map (history_row (js.to_lower address)) txs

  -- An index that is no numeral, or not below the greatest of an int4, is not usable.
  abbrev pub usable_index : Option String → Option ℕ
  usable_index none = none
  usable_index (some s) =
      if not (is_numeral s) || leb max_log_index (js.number s) then none else some (js.number s)

  abbrev pub transfer_row : (scope : String) → ProviderTokenTransfer → ℕ → TransferInsertRow
  transfer_row scope r index = record {
    scope_address = scope;
    tx_hash = js.to_lower r.tx_hash;
    log_index = index;
    token_address = r.token_address;
    from_address = r.from_address;
    to_address = r.to_address;
    value = r.value;
    value_formatted = sanitize_nullable_text (some r.value_formatted) none;
    token_symbol = sanitize_nullable_text (some r.token_symbol) (some 64);
    token_decimals =
        if is_numeral r.token_decimals then some (js.number r.token_decimals) else none;
    block_number = js.number r.block_number;
    block_timestamp = parse_block_timestamp r.block_timestamp;
  }

  abbrev pub with_index :
      (scope : String)
      → ProviderTokenTransfer
      → Option ℕ
      → List TransferInsertRow × ℕ
      → List TransferInsertRow × ℕ
  with_index scope r none (rows, skipped) = (rows, skipped + 1)
  with_index scope r (some index) (rows, skipped) = (transfer_row scope r index ∷ rows, skipped)

  -- The rows, and how many transfers have none.
  unfoldable pub map_transfers :
      (scope : String) → List ProviderTokenTransfer → List TransferInsertRow × ℕ
  map_transfers scope [] = ([], 0)
  map_transfers scope (r ∷ transfers) =
      with_index scope r (usable_index r.log_index) (map_transfers scope transfers)

  unfoldable pub map_transfer_rows :
      (scope : String) → List ProviderTokenTransfer → List TransferInsertRow × ℕ
  unfolding map_transfers
  map_transfer_rows scope transfers = map_transfers (js.to_lower scope) transfers

-- The primary keys, and `ON CONFLICT DO NOTHING`.
abbrev pub same_tx : HistoryInsertRow → HistoryInsertRow → Bool
same_tx a b = (a.address === b.address) && (a.tx_hash === b.tx_hash)

abbrev pub same_transfer : TransferInsertRow → TransferInsertRow → Bool
same_transfer a b =
    (a.scope_address === b.scope_address)
    && (a.tx_hash === b.tx_hash)
    && (a.log_index == b.log_index)

module _ {A : Type 0} (same : A → A → Bool) where
  unfoldable pub insert_new : List A → List A → List A
  insert_new [] table = table
  insert_new (row ∷ rows) table =
      insert_new rows (if any_by (same row) table then table else table ++ row ∷ [])

-- `upsertAddressTxs` and `upsertTokenTransfers`: what they report, and the table.
unfoldable pub upsert_address_txs :
    List HistoryInsertRow → List HistoryInsertRow → ℕ × List HistoryInsertRow
unfolding insert_new
upsert_address_txs rows table = (length rows, insert_new same_tx rows table)

unfoldable pub upsert_token_transfers :
    List TransferInsertRow → List TransferInsertRow → ℕ × List TransferInsertRow
unfolding insert_new
upsert_token_transfers rows table = (length rows, insert_new same_transfer rows table)
