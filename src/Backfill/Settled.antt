-- ===== src/Backfill/Settled.antt =====
-- apps/indexer/src/backfill-worker.ts: what an UPDATE that ends a claim leaves: the claims of the other workers and
-- the tails of all rows.
use mathlib.Core.List.{Memᴰ}
use altscan.Prelude.{
  ℕ, ◌≡◌, ◌≢◌, refl, sym, subst, ◌∙◌, inl, inr, ◌⊎◌, Bool, List, Option, some, ◌==◌, ==_iff,
  if◌then◌else◌, Bool-cases, if-both, any_by, none≢some, false≢true, arith,
}
use altscan.Backfill.{Watermark, fenced_update, stamp_of, holds_lease, update_where, to_ms}
use altscan.Backfill.Members.{mem_of_update_where}
use altscan.Backfill.Rows.{Js}
use altscan.Backfill.Page.{Page, page, Tables, with_watermarks}
use altscan.Backfill.Worker.{Provider, Phase, idle, answered, State, set_phase, done}
use altscan.Backfill.Fence.{holder, Current, Fenced, Fenced-less, holds-Current}
use altscan.Backfill.Ended.{Fenced-settled}
use altscan.Backfill.Tail.{Whole, Whole-Grows, Grows}

abbrev pub holders : State → ℕ → Option Watermark
holders s i = holder (s.phase i)

pub fenced_update-stamped :
    (e : Watermark) (set : Watermark → Watermark) (t : ℕ) (rows : List Watermark)
    → e.last_attempt_at ≡ some t
    → fenced_update e set rows ≡ (
      any_by (holds_lease e.id (to_ms t)) rows,
      update_where (holds_lease e.id (to_ms t)) set rows,
    )
unfolding fenced_update
fenced_update-stamped e set t rows at = rw at refl

stamp_of-stamped :
    (e : Watermark) (t : ℕ) → e.last_attempt_at ≡ some t → stamp_of e ≡ some (to_ms t)
stamp_of-stamped e t at = rw at refl

-- Whom a change of one worker's phase leaves with which claim.
pub holder-set_phase :
    (i : ℕ) (p : Phase) (phase : ℕ → Phase) (j : ℕ) (f : Watermark)
    → holder (if j == i then p else phase j) ≡ some f
    → ((j ≡ i) × (holder p ≡ some f)) ⊎ ((j ≢ i) × (holder (phase j) ≡ some f))
holder-set_phase i p phase j f h = elim (Bool-cases (j == i)) [
  | inl same ↦ inl ((==_iff j i).0 same, rw same at h)
  | inr other ↦ inr (λ same. false≢true (sym other ∙ (==_iff j i).1 same), rw other at h)
]

module _ (js : Js) (provider : Provider) where
  -- The claims are fenced, a page that a worker holds is the provider's, and every tail is whole.
  pub record Sound (s : State) : Type 0 where
    pub fenced_claims : Fenced s.next_id s.db.watermarks s.clock (holders s)
    pub asked :
        (i : ℕ) (e : Watermark) (p : Page)
        → s.phase i ≡ answered e (page p)
        → p ≡ provider e.entity_type e.entity_id e.oldest_cursor
    pub whole : (w : Watermark) → Memᴰ w s.db.watermarks → Whole js provider s.db w

  pub asked-set_phase :
      (s : State) (i : ℕ) (p : Phase)
      → Sound s
      → ((e : Watermark) (q : Page)
          → p ≡ answered e (page q)
          → q ≡ provider e.entity_type e.entity_id e.oldest_cursor)
      → (j : ℕ) (e : Watermark) (q : Page) → (if j == i then p else s.phase j) ≡ answered e (page q)
      → q ≡ provider e.entity_type e.entity_id e.oldest_cursor
  asked-set_phase s i p h own j e q at = elim (Bool-cases (j == i)) [
    | inl same ↦ own e q (rw same at at)
    | inr other ↦ h.asked j e q (rw other at at)
  ]

  -- A worker moves on in its round, or gives up its claim.
  pub Sound-phase :
      (s : State) (i : ℕ) (p : Phase)
      → Sound s
      → ((f : Watermark) → holder p ≡ some f → holder (s.phase i) ≡ some f)
      → ((e : Watermark) (q : Page)
          → p ≡ answered e (page q)
          → q ≡ provider e.entity_type e.entity_id e.oldest_cursor)
      → Sound (set_phase i p s)
  Sound-phase s i p h keeps own = record {
    fenced_claims =
        Fenced-less s.next_id s.db.watermarks s.db.watermarks s.clock s.clock (holders s)
          (holders (set_phase i p s)) h.fenced_claims (λ w m. m) (omega arith)
          (λ j f holds. elim (holder-set_phase i p s.phase j f holds) [
            | inl (same, held) ↦ subst (λ k. holder (s.phase k) ≡ some f) (sym same) (keeps f held)
            | inr (other, held) ↦ held
          ]);
    asked = asked-set_phase s i p h own;
    whole = h.whole;
  }

  not_page : (e : Watermark) (q : Page) → idle ≡ answered e (page q) → ⊥
  not_page e q h = ground (arith, h)

  pub Sound-idle : (s : State) (i : ℕ) → Sound s → Sound (set_phase i idle s)
  Sound-idle s i h =
      Sound-phase s i idle h (λ f none'. elim (none≢some none') [ ])
        (λ e q same. elim (not_page e q same) [ ])

  module _ (s : State) (h : Sound s) (i : ℕ) (e : Watermark) (holds : holder (s.phase i) ≡ some e)
      (set : Watermark → Watermark) (same_id : (w : Watermark) → (set w).id ≡ w.id)
      (timed : (w : Watermark)
        → ((set w).last_attempt_at ≡ w.last_attempt_at) ⊎ ((set w).last_attempt_at ≡ some s.clock))
      (db : Tables) (grows : Grows s.db db)
      (own : (w : Watermark)
        → Memᴰ w s.db.watermarks
        → Current e w
        → Whole js provider db (set w)) where
    settled-Whole :
        (t : ℕ) (w : Watermark)
        → stamp_of e ≡ some t
        → Memᴰ w s.db.watermarks
        → Whole js provider db (if holds_lease e.id t w then set w else w)
    settled-Whole t w at m =
        if-both (Whole js provider db) (holds_lease e.id t w)
          (λ passes. own w m (
            holds-Current s.next_id s.db.watermarks s.clock (holders s) h.fenced_claims i e holds t
              at w m passes))
          (λ _. Whole-Grows js provider s.db db w grows (h.whole w m))

    settled_less :
        (rows : List Watermark) (j : ℕ) (f : Watermark)
        → holders (done i (with_watermarks db rows) s) j ≡ some f
        → (holders s j ≡ some f) × (j ≢ i)
    settled_less rows j f held = elim (holder-set_phase i idle s.phase j f held) [
      | inl (same, nothing) ↦ elim (none≢some nothing) [ ]
      | inr (other, kept) ↦ (kept, other)
    ]

    pub Sound-settled :
        Sound (done i (with_watermarks db (fenced_update e set s.db.watermarks).1) s)
    Sound-settled =
        let stamp = h.fenced_claims.has_stamp i e holds in
        let at : stamp_of e ≡ some (to_ms stamp.at) = stamp_of-stamped e stamp.at stamp.stamp in
        let t = to_ms stamp.at in
        subst (λ (r : Bool × List Watermark). Sound (done i (with_watermarks db r.1) s))
          (sym (fenced_update-stamped e set stamp.at s.db.watermarks stamp.stamp))
          (record {
            fenced_claims =
                Fenced-settled s.next_id s.db.watermarks s.clock (holders s) h.fenced_claims i e
                  holds t at set same_id timed
                  (holders (
                    done i
                      (with_watermarks db (update_where (holds_lease e.id t) set s.db.watermarks))
                      s))
                  (settled_less (update_where (holds_lease e.id t) set s.db.watermarks));
            asked = asked-set_phase s i idle h (λ f q same. elim (not_page f q same) [ ]);
            whole = λ w m.
                let (a, ma, wa) =
                  mem_of_update_where (holds_lease e.id t) set w s.db.watermarks m in
                Whole-Grows js provider db
                  (with_watermarks db (update_where (holds_lease e.id t) set s.db.watermarks)) w
                  (record { txs = λ p there. there; transfers = λ p there. there })
                  (subst (Whole js provider db) (sym wa) (settled-Whole t a at ma));
          })
