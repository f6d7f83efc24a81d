-- ===== src/Backfill/Worker.antt =====
-- apps/indexer/src/backfill-worker.ts: the loop of the worker, and enqueueBackfill of
-- apps/explorer/lib/backfill-trigger.ts. Any number of workers run on one database; a step is one
-- statement or transaction of one of them, one reply of the provider, a crash, or time. A worker that
-- crashes, or whose statement throws, starts its round again.
use altscan.Prelude.{
  ℕ, ◌+◌, ◌/◌, Bool, true, false, ◌&&◌, List, [], ◌∷◌, ◌++◌, Option, none, some, String, ltb, ◌==◌,
  ◌===◌, nat_eq, string_eq, if◌then◌else◌, any_by, get, put,
}
use altscan.Backfill.{
  EntityType, address_txs, token_transfers, pending, Watermark, Config, claim_next_entity,
  fenced_update,
}
use altscan.Backfill.Rows.{Js}
use altscan.Backfill.Page.{
  FailReason, Page, Reply, page, refused, raised, Tables, with_watermarks, idle_status, fenced,
  write_failed, process_reply,
}

-- The provider's page of an entity from a cursor. What is past is immutable, so it is a function.
abbrev pub Provider : Type 0
Provider = EntityType → (entity_id : String) → (cursor : Option String) → Page

-- Where a worker stands in its round.
pub data Phase : Type 0 where
  idle : Phase
  claimed denied reserved paging : Watermark → Phase
  answered : Watermark → Reply → Phase
  failing : Watermark → (text : String) → Phase

pub record State : Type 0 where
  pub db : Tables
  -- `backfill_budget`: pages by the hour.
  pub budget : List (ℕ × ℕ)
  -- The next value of the sequence of `id`, which a conflict spends too.
  pub next_id : ℕ
  pub clock : ℕ
  pub phase : ℕ → Phase

-- `i` is the worker.
pub data Event : Type 0 where
  enqueue : EntityType → (entity_id : String) → Event
  claim : (i : ℕ) (excluded : EntityType → Bool) (locked : ℕ → Bool) → Event
  reserve release verify provider_answers process crash : (i : ℕ) → Event
  provider_refuses : (i : ℕ) → FailReason → Event
  provider_raises write_throws : (i : ℕ) (text : String) → Event
  wait : (microseconds : ℕ) → Event

abbrev pub hour : ℕ → ℕ
hour t = t / 3_600_000_000

abbrev pub reserve_after : Config → (now : ℕ) → List (ℕ × ℕ) → Option ℕ → Bool × List (ℕ × ℕ)
reserve_after cfg now budget none = (true, put (hour now) 1 budget)
reserve_after cfg now budget (some used) =
    if ltb used cfg.max_pages_per_hour
    then (true, put (hour now) (used + 1) budget)
    else (false, budget)

-- `reservePage`
unfoldable pub reserve_page : Config → (now : ℕ) → List (ℕ × ℕ) → Bool × List (ℕ × ℕ)
reserve_page cfg now budget = reserve_after cfg now budget (get (hour now) budget)

-- `releaseClaim`
unfoldable pub release_claim : Watermark → Tables → Tables
release_claim e db = (fenced e (idle_status e) (λ w. record w { status = idle_status e }) db).1

abbrev pub same_type : EntityType → EntityType → Bool
same_type address_txs address_txs = true
same_type token_transfers token_transfers = true
same_type _ _ = false

abbrev pub new_watermark : EntityType → (entity_id : String) (id now : ℕ) → Watermark
new_watermark entity_type entity_id id now = record {
  id = id;
  entity_type = entity_type;
  entity_id = entity_id;
  status = pending;
  backfilled_through_block = none;
  oldest_cursor = none;
  rows_written = 0;
  attempts = 0;
  last_attempt_at = none;
  last_error = none;
  created_at = now;
}

abbrev pub set_phase : ℕ → Phase → State → State
set_phase i p s = record s { phase = λ j. if j == i then p else s.phase j }

abbrev pub done : ℕ → Tables → State → State
done i db s = set_phase i idle (record s { db = db })

module _ (js : Js) (cfg : Config) (provider : Provider) where
  -- `ON CONFLICT (entity_type, entity_id) DO NOTHING`
  unfoldable pub enqueue_backfill : EntityType → (entity_id : String) → State → State
  enqueue_backfill entity_type entity_id s = record s {
    db = with_watermarks s.db (
        if any_by
          (λ w. same_type w.entity_type entity_type && (w.entity_id === js.to_lower entity_id))
          s.db.watermarks
        then s.db.watermarks
        else s.db.watermarks
          ++ new_watermark entity_type (js.to_lower entity_id) s.next_id s.clock ∷ []);
    next_id = s.next_id + 1;
  }

  abbrev pub after_claim : ℕ → Option Watermark × List Watermark → State → State
  after_claim i (none, rows) s = s
  after_claim i (some e, rows) s =
      set_phase i (claimed e) (record s { db = with_watermarks s.db rows })

  abbrev pub after_reserve : ℕ → Watermark → Bool × List (ℕ × ℕ) → State → State
  after_reserve i e (granted, budget) s =
      set_phase i (if granted then reserved e else denied e) (record s { budget = budget })

  abbrev pub after_verify : ℕ → Watermark → Bool × List Watermark → State → State
  after_verify i e (held, rows) s =
      set_phase i (if held then paging e else idle) (record s { db = with_watermarks s.db rows })

  abbrev pub ask : Watermark → Page
  ask e = provider e.entity_type e.entity_id e.oldest_cursor

  -- A round, statement by statement; an event at another phase does nothing.
  abbrev pub try_claim :
      (excluded : EntityType → Bool) (locked : ℕ → Bool) → ℕ → Phase → State → State
  try_claim excluded locked i idle s =
      after_claim i (claim_next_entity cfg s.clock excluded locked s.db.watermarks) s
  try_claim excluded locked i _ s = s

  abbrev pub try_reserve : ℕ → Phase → State → State
  try_reserve i (claimed e) s = after_reserve i e (reserve_page cfg s.clock s.budget) s
  try_reserve i _ s = s

  abbrev pub try_release : ℕ → Phase → State → State
  try_release i (denied e) s = done i (release_claim e s.db) s
  try_release i _ s = s

  abbrev pub try_verify : ℕ → Phase → State → State
  try_verify i (reserved e) s = after_verify i e (fenced_update e (λ w. w) s.db.watermarks) s
  try_verify i _ s = s

  abbrev pub try_reply : (Watermark → Reply) → ℕ → Phase → State → State
  try_reply reply i (paging e) s = set_phase i (answered e (reply e)) s
  try_reply reply i _ s = s

  abbrev pub try_process : ℕ → Phase → State → State
  try_process i (answered e reply) s = done i (process_reply js cfg s.clock e reply s.db).1 s
  try_process i (failing e text) s = done i (write_failed js cfg s.clock text e s.db).1 s
  try_process i _ s = s

  -- The transaction of a page throws, and is rolled back.
  abbrev pub try_throw : (text : String) → ℕ → Phase → State → State
  try_throw text i (answered e (page p)) s = set_phase i (failing e text) s
  try_throw text i _ s = s

  unfoldable pub step : Event → State → State
  unfolding enqueue_backfill
  step (enqueue entity_type entity_id) s = enqueue_backfill entity_type entity_id s
  step (claim i excluded locked) s = try_claim excluded locked i (s.phase i) s
  step (reserve i) s = try_reserve i (s.phase i) s
  step (release i) s = try_release i (s.phase i) s
  step (verify i) s = try_verify i (s.phase i) s
  step (provider_answers i) s = try_reply (λ e. page (ask e)) i (s.phase i) s
  step (provider_refuses i reason) s = try_reply (λ e. refused reason) i (s.phase i) s
  step (provider_raises i text) s = try_reply (λ e. raised text) i (s.phase i) s
  step (process i) s = try_process i (s.phase i) s
  step (write_throws i text) s = try_throw text i (s.phase i) s
  step (crash i) s = set_phase i idle s
  step (wait d) s = record s { clock = s.clock + d }

  unfoldable pub run : List Event → State → State
  unfolding step
  run [] s = s
  run (event ∷ events) s = run events (step event s)
