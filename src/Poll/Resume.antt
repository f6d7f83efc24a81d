-- ===== src/Poll/Resume.antt =====
-- apps/indexer/src/index.ts: where the indexer starts, with or without the asynchronous transfer writer. The
-- code's `lastIndexed` may be -1, where the first block is 0; the model keeps the block after it, and
-- the block after the writer's watermark. The column of `indexer_cursor` is none when it or its row is
-- absent; it holds no negative number.
use native.Mathlib.Decide.{ℕ_discrete, dec_le}
use altscan.Prelude.{
  some-injective, none≢some, subst, ap, sym, ◌∙◌, ℕ, zero, suc, ◌+◌, ◌-◌, ◌≤◌, ◌<◌, min, max, ◌≡◌,
  refl, inl, inr, Bool, true, false, List, [], ◌∷◌, Option, none, some, ltb, leb, or_zero,
  if◌then◌else◌, filter_by, arith, Bool-cases,
}
use altscan.Db.{Db}
use altscan.Db.Heights.{count_up, generate_series, missing, newest}

pub record Resume : Type 0 where
  -- `lastIndexed + 1`
  pub next_block : ℕ
  pub backfill_until : Option ℕ
  -- One above what `initTransferWriter` is given, where it is called.
  pub seeded_above : Option ℕ
  pub transfers_durable_block : Option ℕ

-- `MIN` of what counts up.
abbrev pub least_of : List ℕ → Option ℕ
least_of [] = none
least_of (n ∷ ns) = some n

-- The query of the resume scan.
unfoldable pub first_missing : Db → (scan_from max_indexed : ℕ) → Option ℕ
first_missing db scan_from max_indexed =
    least_of (filter_by (missing db) (generate_series scan_from max_indexed))

-- `getOrInitDurableBlock`: the watermark, and the column.
unfoldable pub get_or_init_durable_block : Option ℕ → (max_indexed : ℕ) → ℕ × Option ℕ
get_or_init_durable_block stored max_indexed =
    if ltb 0 (or_zero stored) then (or_zero stored, stored) else (max_indexed, some max_indexed)

-- `base`
abbrev pub scanned : (max_indexed : ℕ) → Option ℕ → ℕ × Option ℕ
scanned max_indexed none = (max_indexed + 1, none)
scanned max_indexed (some n) = (n, some max_indexed)

abbrev pub from_watermark : (max_indexed : ℕ) → ℕ × Option ℕ → ℕ × Option ℕ → Resume
from_watermark max_indexed (w, stored) (next, until) =
    let first = min next (w + 1) in
    record {
      next_block = first;
      backfill_until =
          if leb first max_indexed then some (max (or_zero until) max_indexed) else until;
      seeded_above = some (w + 1);
      transfers_durable_block = stored;
    }

abbrev pub from_blocks :
    (async : Bool) (max_indexed : ℕ) (stored : Option ℕ) → ℕ × Option ℕ → Resume
from_blocks async max_indexed stored base =
    if async
    then from_watermark max_indexed (get_or_init_durable_block stored max_indexed) base
    else record {
      next_block = base.0;
      backfill_until = base.1;
      seeded_above = none;
      transfers_durable_block = stored;
    }

-- At a height of its own choice, with nothing scanned.
abbrev pub from_scratch : (async : Bool) (first : ℕ) (stored : Option ℕ) → Resume
from_scratch async first stored = record {
  next_block = first;
  backfill_until = none;
  seeded_above = if async then some first else none;
  transfers_durable_block = stored;
}

-- `getResumeCursor`
unfoldable pub get_resume_cursor :
    (async : Bool) (resume_gap_scan_blocks start_block : ℕ) → Db → (stored : Option ℕ) → Resume
get_resume_cursor async resume_gap_scan_blocks start_block db stored = elim (newest db.blocks) [
  | none ↦ from_scratch async start_block stored
  | some max_indexed ↦ from_blocks async max_indexed stored (
      scanned max_indexed
        (first_missing db (max start_block (max_indexed - resume_gap_scan_blocks)) max_indexed))
]

-- The start of `main`.
unfoldable pub start_at :
    (async : Bool) (resume_gap_scan_blocks force_start start_block : ℕ)
    → Db
    → (stored : Option ℕ) → Resume
unfolding get_resume_cursor
start_at async resume_gap_scan_blocks force_start start_block db stored =
    if ltb 0 force_start
    then from_scratch async force_start stored
    else get_resume_cursor async resume_gap_scan_blocks start_block db stored

least_of-none :
    (p : ℕ → Bool) (lo count n : ℕ)
    → least_of (filter_by p (count_up lo count)) ≡ none
    → lo ≤ n
    → n < lo + count
    → p n ≡ false
least_of-none p lo zero n h low high = absurd (omega arith)
least_of-none p lo (suc count) n h low high = elim (Bool-cases (p lo)) [
  | inl first ↦ absurd (let h' = (rw first at h) in cc)
  | inr no_hole ↦ elim (ℕ_discrete n lo) [
    | yes same ↦ rw same no_hole
    | no other ↦ least_of-none p (suc lo) count n (rw no_hole at h) (omega arith) (omega arith)
  ]
]

least_of-some :
    (p : ℕ → Bool) (lo count x : ℕ)
    → least_of (filter_by p (count_up lo count)) ≡ some x
    → (lo ≤ x) × (x < lo + count) × (p x ≡ true) × ((n : ℕ) → lo ≤ n → n < x → p n ≡ false)
least_of-some p lo zero x h = absurd cc
least_of-some p lo (suc count) x h = elim (Bool-cases (p lo)) [
  | inl first ↦
      let is_lo : lo ≡ x = some-injective (rw first at h) in
      (
        omega (arith, is_lo),
        omega (arith, is_lo),
        subst (λ y. p y ≡ true) is_lo first,
        λ n low high. absurd (omega (arith, is_lo, low, high)),
      )
  | inr no_hole ↦
      let (low, high, is_hole, lower) = least_of-some p (suc lo) count x (rw no_hole at h) in
      (
        omega (arith, low),
        omega (arith, high),
        is_hole,
        λ n from below. elim (ℕ_discrete n lo) [
          | yes same ↦ rw same no_hole
          | no other ↦ lower n (omega (arith, from, other)) below
        ],
      )
]

-- What the block that is indexed next is.
pub data Halt (db : Db) (max_indexed : ℕ) (r : Resume) : Type 0 where
  at_the_tip : r.next_block ≡ max_indexed + 1 → Halt db max_indexed r
  at_a_hole : missing db r.next_block ≡ true → Halt db max_indexed r
  at_the_watermark : r.seeded_above ≡ some r.next_block → Halt db max_indexed r

abbrev pub Resumed : (db : Db) (scan_from max_indexed : ℕ) → Resume → Type 0
Resumed db scan_from max_indexed r =
    (r.next_block ≤ max_indexed + 1)
    × ((n : ℕ) → scan_from ≤ n → n < r.next_block → missing db n ≡ false)
    × ((w : ℕ) → r.seeded_above ≡ some w → r.next_block ≤ w)
    × Halt db max_indexed r
    × (r.backfill_until ≡ (if leb r.next_block max_indexed then some max_indexed else none))

-- What the scan gives: the block above the newest one and no range, or the first hole.
data Based (db : Db) (scan_from max_indexed : ℕ) (b : ℕ × Option ℕ) : Type 0 where
  whole :
      b.0 ≡ max_indexed + 1
      → b.1 ≡ none
      → ((n : ℕ) → scan_from ≤ n → n < b.0 → missing db n ≡ false)
      → Based db scan_from max_indexed b
  holed :
      b.0 ≤ max_indexed
      → b.1 ≡ some max_indexed
      → missing db b.0 ≡ true
      → ((n : ℕ) → scan_from ≤ n → n < b.0 → missing db n ≡ false)
      → Based db scan_from max_indexed b

module _ (db : Db) (scan_from max_indexed : ℕ) where
  scanned-Based :
      (o : Option ℕ)
      → first_missing db scan_from max_indexed ≡ o
      → Based db scan_from max_indexed (scanned max_indexed o)
  unfolding first_missing
  scanned-Based none is_none = whole refl refl (λ n low below.
      least_of-none (missing db) scan_from (suc max_indexed - scan_from) n is_none low
        (omega arith))
  scanned-Based (some x) is_x =
      let (low, high, is_hole, lower) =
        least_of-some (missing db) scan_from (suc max_indexed - scan_from) x is_x in
      holed (omega (arith, low, high)) refl is_hole lower

  -- The cursor is at the end of the scan, or at the watermark.
  Halt-from_watermark :
      (w : ℕ) (stored : Option ℕ) (b : ℕ × Option ℕ)
      → (min b.0 (w + 1) ≡ b.0 → Halt db max_indexed (from_watermark max_indexed (w, stored) b))
      → Halt db max_indexed (from_watermark max_indexed (w, stored) b)
  Halt-from_watermark w stored b scan = elim (dec_le b.0 (w + 1)) [
    | yes within ↦ scan (omega (arith, within))
    | no above ↦ at_the_watermark (ap (λ n. some n) (omega (arith, above)))
  ]

  until_tip :
      (first : ℕ) (u : Option ℕ)
      → u ≡ none
      → (if leb first max_indexed then some (max (or_zero u) max_indexed) else u)
        ≡ (if leb first max_indexed then some max_indexed else none)
  until_tip first u is_none = ground (arith, is_none)

  until_hole :
      (first : ℕ) (u : Option ℕ)
      → first ≤ max_indexed
      → u ≡ some max_indexed
      → (if leb first max_indexed then some (max (or_zero u) max_indexed) else u)
        ≡ (if leb first max_indexed then some max_indexed else none)
  until_hole first u low is_some = ground (arith, low, is_some)

  from_watermark-Resumed :
      (w : ℕ) (stored : Option ℕ) (b : ℕ × Option ℕ)
      → Based db scan_from max_indexed b
      → Resumed db scan_from max_indexed (from_watermark max_indexed (w, stored) b)
  from_watermark-Resumed w stored b (whole at_tip until clear) = (
    omega (arith, at_tip),
    λ n low below. clear n low (omega (arith, below)),
    λ v e. omega (arith, some-injective {A = ℕ} e),
    Halt-from_watermark w stored b (λ same. at_the_tip (same ∙ at_tip)),
    until_tip (min b.0 (w + 1)) b.1 until,
  )
  from_watermark-Resumed w stored b (holed low until is_hole clear) = (
    omega (arith, low),
    λ n from below. clear n from (omega (arith, below)),
    λ v e. omega (arith, some-injective {A = ℕ} e),
    Halt-from_watermark w stored b
        (λ same. at_a_hole (subst (λ n. missing db n ≡ true) (sym same) is_hole)),
    until_hole (min b.0 (w + 1)) b.1 (omega (arith, low)) until,
  )

  plain-Resumed :
      (stored : Option ℕ) (b : ℕ × Option ℕ)
      → Based db scan_from max_indexed b
      → Resumed db scan_from max_indexed (from_blocks false max_indexed stored b)
  plain-Resumed stored b (whole at_tip until clear) = (
    omega (arith, at_tip),
    clear,
    λ w e. elim (none≢some e) [ ],
    at_the_tip at_tip,
    ground (arith, at_tip, until),
  )
  plain-Resumed stored b (holed low until is_hole clear) = (
    omega (arith, low),
    clear,
    λ w e. elim (none≢some e) [ ],
    at_a_hole is_hole,
    ground (arith, low, until),
  )

  from_blocks-Resumed :
      (async : Bool) (stored : Option ℕ) (b : ℕ × Option ℕ)
      → Based db scan_from max_indexed b
      → Resumed db scan_from max_indexed (from_blocks async max_indexed stored b)
  from_blocks-Resumed true stored b h =
      from_watermark-Resumed (get_or_init_durable_block stored max_indexed).0
        (get_or_init_durable_block stored max_indexed).1 b h
  from_blocks-Resumed false stored b h = plain-Resumed stored b h

-- Where blocks are indexed already, the start is the first height that has work: no height of the scanned
-- window below it is a hole, nothing below it has transfers that may not be written, and it is itself the
-- height above the newest block, a hole, or the one above the watermark that the writer is given. The
-- range up to the newest block is to be backfilled exactly when the start is not above it. The writer,
-- where it runs, is given the stored watermark, or the newest block where there is none.
pub get_resume_cursor-Resumed :
    (async : Bool) (window start max_indexed : ℕ) (db : Db) (stored : Option ℕ)
    → newest db.blocks ≡ some max_indexed
    → Resumed db
        (max start (max_indexed - window))
        max_indexed
        (get_resume_cursor async window start db stored)
      × ((get_resume_cursor async window start db stored).seeded_above ≡ (
          if async
          then some ((if ltb 0 (or_zero stored) then or_zero stored else max_indexed) + 1)
          else none))
unfolding get_resume_cursor get_or_init_durable_block
get_resume_cursor-Resumed async window start max_indexed db stored newest_is =
    let scan_from = max start (max_indexed - window) in
    rw (get_resume_cursor, newest_is)
      (
        from_blocks-Resumed db scan_from max_indexed async stored
            (scanned max_indexed (first_missing db scan_from max_indexed))
            (scanned-Based db scan_from max_indexed (first_missing db scan_from max_indexed) refl),
        ground arith,
      )
