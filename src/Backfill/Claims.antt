-- ===== src/Backfill/Claims.antt =====
-- apps/indexer/src/backfill-worker.ts: a claim, as the first statement of a round, keeps what Settled states.
use mathlib.Core.List.{Memᴰ}
use altscan.Prelude.{
  ℕ, ◌≤◌, ◌≡◌, refl, sym, ap, subst, ◌∙◌, inl, inr, Bool, true, false, not, ◌&&◌, List, Option,
  none, some, ◌==◌, ==_iff, all_three, if◌then◌else◌, if-both, filter_by, mem_of_filter_by,
  some-injective, false≢true, arith,
}
use altscan.Backfill.{
  EntityType, Watermark, Config, claimable, claim_next_entity, claim_row, first_of, stamped,
  update_where,
}
use altscan.Backfill.Members.{mem_of_update_where, first_of-mem}
use altscan.Backfill.Rows.{Js}
use altscan.Backfill.Page.{Page, page, Tables, with_watermarks}
use altscan.Backfill.Worker.{
  Provider, Phase, idle, claimed, denied, reserved, paging, answered, failing, State, set_phase,
  try_claim, after_claim,
}
use altscan.Backfill.Fence.{holder}
use altscan.Backfill.Taken.{Fenced-claimed}
use altscan.Backfill.Tail.{Whole, ongoing, finished, Grows, is_complete, Whole-Grows}
use altscan.Backfill.Settled.{Sound, asked-set_phase, holders, holder-set_phase}

-- Other watermarks leave the two tables as they are.
pub with_watermarks-Grows :
    (db : Tables) (rows : List Watermark) → Grows db (with_watermarks db rows)
with_watermarks-Grows db rows = record { txs = λ p h. h; transfers = λ p h. h }

claimable-short :
    (cfg : Config) (now : ℕ) (w : Watermark)
    → claimable cfg now w ≡ true
    → is_complete w.status ≡ false
unfolding claimable
claimable-short cfg now w h = ground arith

claimed_no_page : (w e : Watermark) (q : Page) → claimed w ≡ answered e (page q) → ⊥
claimed_no_page w e q h = ground (arith, h)

module _ (js : Js) (cfg : Config) (lease : 1 ≤ cfg.lease_sec) (provider : Provider) where
  claimed-Whole :
      (db : Tables) (now : ℕ) (w : Watermark)
      → claimable cfg now w ≡ true
      → Whole js provider db w
      → Whole js provider db (stamped now w)
  claimed-Whole db now w can (ongoing going h) = ongoing refl h
  claimed-Whole db now w can (finished c over h stored last) =
      elim (false≢true (sym (claimable-short cfg now w can) ∙ ap is_complete over)) [ ]

  module _ (s : State) (h : Sound js provider s) (i : ℕ) where
    Sound-taken :
        (w : Watermark)
        → s.phase i ≡ idle
        → Memᴰ w s.db.watermarks
        → claimable cfg s.clock w ≡ true
        → Sound js provider (
            set_phase i (claimed (stamped s.clock w)) (record s {
              db =
                  with_watermarks s.db
                    (update_where (λ v. v.id == w.id) (stamped s.clock) s.db.watermarks);
            }))
    Sound-taken w free m can = record {
      fenced_claims =
          Fenced-claimed cfg lease s.next_id s.db.watermarks s.clock (holders s) h.fenced_claims i w
            m can (λ j. holder (if j == i then claimed (stamped s.clock w) else s.phase j))
            (λ j f held. elim (holder-set_phase i (claimed (stamped s.clock w)) s.phase j f held) [
              | inl (same, own) ↦ inl (same, sym (some-injective own))
              | inr (other, before) ↦ inr before
            ]);
      asked =
          asked-set_phase js provider s i (claimed (stamped s.clock w)) h
            (λ e q same. elim (claimed_no_page (stamped s.clock w) e q same) [ ]);
      whole = λ v mv.
          let (a, ma, va) =
            mem_of_update_where (λ x. x.id == w.id) (stamped s.clock) v s.db.watermarks mv in
          Whole-Grows js provider s.db
            (with_watermarks s.db
              (update_where (λ x. x.id == w.id) (stamped s.clock) s.db.watermarks))
            v (with_watermarks-Grows s.db _)
            (subst (Whole js provider s.db) (sym va) (
              if-both (Whole js provider s.db) (a.id == w.id)
                (λ own.
                  let is_w = h.fenced_claims.unique a w ma m ((==_iff a.id w.id).0 own) in
                  claimed-Whole s.db s.clock a (ap (claimable cfg s.clock) is_w ∙ can)
                    (h.whole a ma))
                (λ _. h.whole a ma)));
    }

    taking :
        (excluded : EntityType → Bool) (locked : ℕ → Bool)
        → s.phase i ≡ idle
        → (o : Option Watermark)
        → first_of (
            filter_by
              (λ w. claimable cfg s.clock w && not (excluded w.entity_type) && not (locked w.id))
              s.db.watermarks)
          ≡ o
        → Sound js provider (after_claim js cfg provider i (claim_row s.clock o s.db.watermarks) s)
    taking excluded locked free none found = h
    taking excluded locked free (some w) found =
        let p = λ (v : Watermark).
          claimable cfg s.clock v && not (excluded v.entity_type) && not (locked v.id) in
        let (m, passes) =
          mem_of_filter_by p w s.db.watermarks
            (first_of-mem (filter_by p s.db.watermarks) w found) in
        Sound-taken w free m
          (all_three (claimable cfg s.clock w) (not (excluded w.entity_type)) (not (locked w.id))
            passes).0

    pub Sound-claim :
        (excluded : EntityType → Bool) (locked : ℕ → Bool) (p : Phase)
        → s.phase i ≡ p
        → Sound js provider (try_claim js cfg provider excluded locked i p s)
    unfolding claim_next_entity
    Sound-claim excluded locked idle at = taking excluded locked at _ refl
    Sound-claim excluded locked (claimed e) at = h
    Sound-claim excluded locked (denied e) at = h
    Sound-claim excluded locked (reserved e) at = h
    Sound-claim excluded locked (paging e) at = h
    Sound-claim excluded locked (answered e reply) at = h
    Sound-claim excluded locked (failing e text) at = h
