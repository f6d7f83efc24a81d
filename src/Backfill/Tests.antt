-- ===== src/Backfill/Tests.antt =====
-- The theorems of apps/indexer/src/backfill-worker.ts on a history of two pages and one entity.
use mathlib.Core.List.{Memᴰ}
use mathlib.Core.List.Memᴰ.{head}
use altscan.Prelude.{
  ℕ, ◌+◌, ◌≤◌, ◌≡◌, refl, true, false, List, [], ◌∷◌, none, some, String, ◌==◌, get, put, arith,
  text_length, ◌≢◌, map, if◌then◌else◌, trim_left, trim_right,
}
use altscan.Backfill.{
  address_txs, complete, Watermark, Config, claimable, comes_before, first_of, update_where,
  stamped, claim_next_entity, fenced_update, error, running,
}
use altscan.Backfill.Text.{sanitize_nullable_text, strip, storable, slice}
use altscan.Backfill.Storable.{is_storable, sanitize_nullable_text-Fits}
use altscan.Backfill.Rows.{ProviderTx, Js, map_history_rows, insert_new, upsert_address_txs}
use altscan.Backfill.Page.{txs_page, page, Tables, lease_lost, process_reply, page_answered}
use altscan.Backfill.Worker.{
  Provider, idle, State, Event, enqueue, claim, reserve, verify, provider_answers, process, crash,
  wait, reserve_page, new_watermark, step, run, enqueue_backfill,
}
use altscan.Backfill.Due.{IsDue, Precedes, cooled_down}
use altscan.Backfill.Claim.{claim_next_entity-first}
use altscan.Backfill.Budget.{pages_used, pages_reserved, pages_reserved-cap}
use altscan.Backfill.Lost.{process_reply-lost}
use altscan.Backfill.Tail.{Whole}
use altscan.Backfill.History.{Fresh, run-Whole}

abbrev js : Js
js = record { to_lower = λ s. s; number = λ s. 7; numeral = λ n. ""; date_ms = λ s. 0 }

abbrev cfg : Config
cfg = record {
  lease_sec = 300;
  max_attempts = 8;
  max_rows_per_entity = 2_000;
  max_pages_per_hour = 2;
}

abbrev tx : String → ProviderTx
tx hash = record {
  hash = hash;
  block_number = "7";
  block_timestamp = "0";
  from_address = "0x1";
  to_address = none;
  value = "1";
  category = "send";
  summary = "";
  possible_spam = false;
}

abbrev provider : Provider
provider entity_type id none = txs_page (tx "0xb" ∷ []) (some "older")
provider entity_type id (some cursor) = txs_page (tx "0xa" ∷ []) none

abbrev start_state : State
start_state = record {
  db = record { watermarks = []; backfill_address_txs = []; backfill_token_transfers = [] };
  budget = [];
  next_id = 1;
  clock = 5_000;
  phase = λ i. idle;
}

abbrev round : ℕ → List Event → List Event
round i events =
    claim i (λ t. false) (λ id. false)
    ∷ reserve i
    ∷ verify i
    ∷ provider_answers i
    ∷ process i
    ∷ events

-- A first page, then a worker that crashes with its claim, whose lease another one takes over.
abbrev events : List Event
events =
    enqueue address_txs "0x1"
    ∷ round 0 (claim 0 (λ t. false) (λ id. false) ∷ crash 0 ∷ wait 400_000_000 ∷ round 1 [])

abbrev final : Watermark
final = record {
  id = 1;
  entity_type = address_txs;
  entity_id = "0x1";
  status = complete;
  backfilled_through_block = some 7;
  oldest_cursor = none;
  rows_written = 2;
  attempts = 0;
  last_attempt_at = some 400_005_000;
  last_error = none;
  created_at = 5_000;
}

is_there : Memᴰ final (run js cfg provider events start_state).db.watermarks
unfolding run step enqueue_backfill claim_next_entity claimable comes_before first_of update_where
    fenced_update reserve_page process_reply page_answered upsert_address_txs map_history_rows
    insert_new get put
is_there = head refl

fresh : Fresh start_state
fresh = record { no_watermarks = refl; all_idle = λ i. refl }

run-Whole_example : Whole js provider (run js cfg provider events start_state).db final
run-Whole_example = run-Whole js cfg (omega arith) provider events start_state final fresh is_there

pages_reserved-cap_example :
    pages_used 0 [] + pages_reserved js cfg provider 0 events start_state ≤ 2
unfolding get
pages_reserved-cap_example =
    pages_reserved-cap js cfg provider 0 events start_state (omega arith) (omega arith)

abbrev queued : Watermark
queued = new_watermark address_txs "0x1" 1 5_000

-- Both rows are due, and the one that was never tried goes first.
abbrev failed_row : Watermark
failed_row = record queued { id = 2; status = error; attempts = 1; last_attempt_at = some 1_000 }

claim_next_entity-first_example :
    (w : Watermark) × Memᴰ w (failed_row ∷ queued ∷ [])
    × IsDue cfg 9_000_000 w
    × (false ≡ false)
    × (w.id == 3 ≡ false)
    × Precedes w failed_row
    × (claim_next_entity cfg 9_000_000 (λ t. false) (λ id. id == 3) (failed_row ∷ queued ∷ []) ≡ (
      some (record w { status = running; last_attempt_at = some 9_000_000 }),
      map
          (λ u.
            if u.id == w.id
            then record u { status = running; last_attempt_at = some 9_000_000 }
            else u)
          (failed_row ∷ queued ∷ []),
    ))
claim_next_entity-first_example =
    claim_next_entity-first cfg 9_000_000 (λ t. false) (λ id. id == 3) (failed_row ∷ queued ∷ [])
      failed_row (head refl) (cooled_down 1_000 refl (omega arith) refl (omega arith)) refl refl

abbrev taken_over : Tables
taken_over = record {
  watermarks = stamped 400_005_000 queued ∷ [];
  backfill_address_txs = [];
  backfill_token_transfers = [];
}

process_reply-lost_example :
    process_reply js cfg 400_006_000
      (stamped 5_000 queued)
      (page (txs_page (tx "0xb" ∷ []) none))
      taken_over
    ≡ (lease_lost, taken_over)
process_reply-lost_example =
    process_reply-lost js cfg (stamped 5_000 queued) 5_000 refl taken_over refl 400_006_000
      (page (txs_page (tx "0xb" ∷ []) none))

-- A padded name, cut to the width of its column.
sanitize_nullable_text-Fits_example :
    (is_storable "CAK" ≡ true) × (◌≢◌ {A = String} "CAK" "") × (text_length "CAK" ≤ 3)
unfolding sanitize_nullable_text strip storable trim_left trim_right slice
sanitize_nullable_text-Fits_example =
    sanitize_nullable_text-Fits (some "  CAKE") (some 3) "CAK" refl
