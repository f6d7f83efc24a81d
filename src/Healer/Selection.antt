-- ===== src/Healer/Selection.antt =====
-- apps/indexer/src/gap-healer.ts: what the healer is given, the state of a height, and which gap a tick
-- selects and claims.
use altscan.Prelude.{
  ℕ, ◌+◌, Bool, true, false, not, ◌&&◌, ◌||◌, List, [], ◌∷◌, Option, none, some, String, ltb, leb,
  ◌==◌, string_eq, if◌then◌else◌, length, filter_by, any_by, map,
}
use altscan.Poison.{Knob, integer, unusable}
use altscan.Db.{Db, IndexGap, has_block, has_poison}
use altscan.Db.Heights.{generate_series, missing, newest, raised_to}

pub record HealDeps : Type 0 where
  pub reindex_block : ℕ → Db → Db × Option String
  pub read_lag : ℕ → Option ℕ
  pub resume_window : ℕ
  pub owner : String
  pub flush_transfers : Option (Db → Db × Bool)
  pub now : ℕ
  pub clock : ℕ → ℕ
  pub db_clock : ℕ → ℕ
  pub floor : Option ℕ

abbrev pub lag_recheck_every : ℕ
lag_recheck_every = 10

abbrev pub default_heal_lease_ms : ℕ
default_heal_lease_ms = 600_000

abbrev pub lease_safety_ms : ℕ
lease_safety_ms = 30_000

abbrev pub default_heal_batch : ℕ
default_heal_batch = 25

abbrev pub default_heal_max_lag : ℕ
default_heal_max_lag = 50

pub data HealOutcome : Type 0 where
  idle : HealOutcome
  skipped : (lag : Option ℕ) → HealOutcome
  progressed : (from_block to_block repaired : ℕ) → HealOutcome
  healed : (from_block to_block repaired : ℕ) → HealOutcome
  failed : (from_block to_block repaired : ℕ) (error : String) → HealOutcome

abbrev pub lag_ceiling_of : Knob → ℕ
lag_ceiling_of (integer n) = n
lag_ceiling_of unusable = default_heal_max_lag

abbrev pub lease_ms_of : Knob → ℕ
lease_ms_of (integer n) =
    if ltb (lease_safety_ms + lease_safety_ms) n then n else default_heal_lease_ms
lease_ms_of unusable = default_heal_lease_ms

abbrev pub next_of : Option ℕ → Option ℕ
next_of none = none
next_of (some c) = some (c + 1)

abbrev pub verify_from : Option ℕ → IndexGap → ℕ
verify_from floor g = raised_to g.from_block floor

abbrev pub heal_from : Option ℕ → IndexGap → ℕ
heal_from floor g = raised_to (raised_to g.from_block floor) (next_of g.heal_cursor)

-- The block is there, and its transactions are not as many as it says.
unfoldable pub mismatched : Db → ℕ → Bool
mismatched db n =
    any_by
      (λ b.
        (b.number == n)
        && not (length (filter_by (λ t. t.block_number == n) db.transactions) == b.tx_count))
      db.blocks

-- A defect that the tick can never act on.
abbrev pub blocked : Db → ℕ → Bool
blocked db n = (has_poison n db.poison_blocks && not (has_block n db.blocks)) || mismatched db n

unfoldable pub unfinishable : Option ℕ → Db → IndexGap → Bool
unfolding mismatched missing
unfinishable floor db g =
    any_by (blocked db) (generate_series (verify_from floor g) g.to_block)
    && not (any_by (missing db) (generate_series (heal_from floor g) g.to_block))

abbrev pub clear_of_resume : ℕ → ℕ → Option ℕ → Bool
clear_of_resume window to_block none = false
clear_of_resume window to_block (some tip) = ltb (to_block + window) tip

abbrev pub is_none {ℓ} : {A : Type ℓ} → Option A → Bool
is_none none = true
is_none (some a) = false

abbrev pub above_floor : Option ℕ → ℕ → Bool
above_floor none to_block = true
above_floor (some floor) to_block = leb floor to_block

unfoldable pub selectable : HealDeps → Db → IndexGap → Bool
unfolding unfinishable
selectable deps db g =
    is_none g.healed_at
    && above_floor deps.floor g.to_block
    && clear_of_resume deps.resume_window g.to_block (newest db.blocks)
    && not (unfinishable deps.floor db g)

-- `ORDER BY g.from_block LIMIT 1`
abbrev pub older : IndexGap → Option IndexGap → Option IndexGap
older g none = some g
older g (some h) = if leb g.from_block h.from_block then some g else some h

unfoldable pub candidate : HealDeps → Db → List IndexGap → Option IndexGap
unfolding selectable
candidate deps db [] = none
candidate deps db (g ∷ gs) =
    let rest = candidate deps db gs in if selectable deps db g then older g rest else rest

abbrev pub lapsed : ℕ → Option ℕ → Bool
lapsed now none = true
lapsed now (some until) = ltb until now

-- `UPDATE index_gaps … WHERE from_block = n AND …`
unfoldable pub update_gaps :
    (IndexGap → Bool) → (IndexGap → IndexGap) → List IndexGap → List IndexGap
update_gaps p f gs = map (λ g. if p g then f g else g) gs

abbrev pub claimed : HealDeps → ℕ → IndexGap → Db → Db
claimed deps lease_ms chosen db = record db {
  index_gaps =
      update_gaps (λ g. g.from_block == chosen.from_block)
        (λ g. record g {
          heal_lease_owner = some deps.owner;
          heal_lease_until = some (deps.db_clock 0 + lease_ms);
        })
        db.index_gaps;
}
