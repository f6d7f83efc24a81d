-- ===== src/Backfill.antt =====
-- apps/indexer/src/backfill-worker.ts, postgres-text.ts, backfill-budget.ts and packages/db/schema.ts: the lazy
-- backfill of an address's history from a provider, one page at a time. Its tables are lists of rows in
-- their order; times are microseconds. The file is the data and the claim of an entity; .Rows maps a
-- provider's page to rows, .Page is one page of work, .Worker the loop of any number of workers on one
-- database. Disk pressure and politeness decide whether and what to claim, so they are the choice of
-- the event that claims.
pub mod Text
pub mod Storable
pub mod Rows
pub mod Page
pub mod Worker
pub mod Claim
pub mod Members
pub mod Fence
pub mod Ended
pub mod Taken
pub mod Enqueued
pub mod Stored
pub mod Tail
pub mod Settled
pub mod Updates
pub mod Pages
pub mod Claims
pub mod Due
pub mod Rounds
pub mod History
pub mod Lost
pub mod Budget
mod Tests
use altscan.Prelude.{
  ℕ, ◌+◌, ◌*◌, ◌/◌, ◌^◌, min, Bool, true, false, not, ◌&&◌, ◌||◌, List, [], ◌∷◌, Option, none, some,
  String, map, ltb, ◌==◌, if◌then◌else◌, any_by, filter_by,
}

pub data EntityType : Type 0 where
  address_txs token_transfers : EntityType

pub data Status : Type 0 where
  pending partial running complete capped error : Status

-- A row of `backfill_watermarks`.
pub record Watermark : Type 0 where
  pub id : ℕ
  pub entity_type : EntityType
  pub entity_id : String
  pub status : Status
  pub backfilled_through_block : Option ℕ
  pub oldest_cursor : Option String
  pub rows_written : ℕ
  pub attempts : ℕ
  pub last_attempt_at : Option ℕ
  pub last_error : Option String
  pub created_at : ℕ

pub record Config : Type 0 where
  pub lease_sec : ℕ
  pub max_attempts : ℕ
  pub max_rows_per_entity : ℕ
  pub max_pages_per_hour : ℕ

abbrev pub seconds : ℕ → ℕ
seconds n = n * 1_000_000

-- `date_trunc('milliseconds', t)`
abbrev pub to_ms : ℕ → ℕ
to_ms t = t / 1_000 * 1_000

abbrev pub is_running : Status → Bool
is_running running = true
is_running _ = false

abbrev pub is_partial : Status → Bool
is_partial partial = true
is_partial _ = false

-- `last_attempt_at < now() - n seconds`, which a missing time does not meet.
abbrev older_than : (now n : ℕ) → Option ℕ → Bool
older_than now n none = false
older_than now n (some t) = ltb (t + seconds n) now

abbrev missing_or_older : (now n : ℕ) → Option ℕ → Bool
missing_or_older now n none = true
missing_or_older now n (some t) = ltb (t + seconds n) now

abbrev cooldown_sec : (attempts : ℕ) → ℕ
cooldown_sec attempts = min (2 ^ min attempts 11) 1_800

-- The status part of the WHERE of `buildClaimSql`.
unfoldable pub claimable : Config → (now : ℕ) → Watermark → Bool
claimable cfg now w = elim w.status [
  | pending ↦ true
  | partial ↦ true
  | running ↦ older_than now cfg.lease_sec w.last_attempt_at
  | error ↦
      ltb w.attempts cfg.max_attempts
      && missing_or_older now (cooldown_sec w.attempts) w.last_attempt_at
  | _ ↦ false
]

abbrev pub time_before : Option ℕ → Option ℕ → Bool
time_before none none = false
time_before none (some t) = true
time_before (some s) none = false
time_before (some s) (some t) = ltb s t

-- `ORDER BY (status = 'partial') DESC, last_attempt_at ASC NULLS FIRST, created_at ASC`
unfoldable pub comes_before : Watermark → Watermark → Bool
comes_before a b =
    if is_partial a.status && not (is_partial b.status)
    then true
    else if is_partial b.status && not (is_partial a.status)
    then false
    else if time_before a.last_attempt_at b.last_attempt_at
    then true
    else if time_before b.last_attempt_at a.last_attempt_at
    then false
    else ltb a.created_at b.created_at

abbrev pub sooner : Watermark → Option Watermark → Watermark
sooner w none = w
sooner w (some other) = if comes_before other w then other else w

-- `ORDER BY ... LIMIT 1`
unfoldable pub first_of : List Watermark → Option Watermark
first_of [] = none
first_of (w ∷ ws) = some (sooner w (first_of ws))

-- `UPDATE ... WHERE`
unfoldable pub update_where :
    (Watermark → Bool) → (Watermark → Watermark) → List Watermark → List Watermark
update_where p set rows = map (λ w. if p w then set w else w) rows

abbrev pub stamped : (now : ℕ) → Watermark → Watermark
stamped now w = record w { status = running; last_attempt_at = some (to_ms now) }

abbrev pub claim_row :
    (now : ℕ) → Option Watermark → List Watermark → Option Watermark × List Watermark
claim_row now none rows = (none, rows)
claim_row now (some w) rows =
    (some (stamped now w), update_where (λ v. v.id == w.id) (stamped now) rows)

-- `claimNextEntity`. Rows that another transaction has locked are skipped.
unfoldable pub claim_next_entity :
    Config
    → (now : ℕ) → (excluded : EntityType → Bool) → (locked : ℕ → Bool) → List Watermark
    → Option Watermark × List Watermark
claim_next_entity cfg now excluded locked rows =
    claim_row now
      (first_of (
        filter_by (λ w. claimable cfg now w && not (excluded w.entity_type) && not (locked w.id))
          rows))
      rows

-- `stampOf`, through a `Date`.
abbrev pub stamp_of : Watermark → Option ℕ
stamp_of e = elim e.last_attempt_at [ none ↦ none | some t ↦ some (to_ms t) ]

abbrev pub same_time : Option ℕ → ℕ → Bool
same_time none t = false
same_time (some s) t = s == t

abbrev pub holds_lease : (id stamp : ℕ) → Watermark → Bool
holds_lease id stamp w = (w.id == id) && is_running w.status && same_time w.last_attempt_at stamp

-- `fencedUpdate`: whether a row moved, and the rows.
unfoldable pub fenced_update :
    Watermark → (Watermark → Watermark) → List Watermark → Bool × List Watermark
unfolding update_where
fenced_update e set rows = elim (stamp_of e) [
  | none ↦ (false, rows)
  | some t ↦ (any_by (holds_lease e.id t) rows, update_where (holds_lease e.id t) set rows)
]
