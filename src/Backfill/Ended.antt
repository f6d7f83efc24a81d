-- ===== src/Backfill/Ended.antt =====
-- apps/indexer/src/backfill-worker.ts: a fenced UPDATE that ends a claim keeps what Fence states of the others.
use mathlib.Core.List.{Memᴰ}
use altscan.Prelude.{
  ℕ, ◌≤◌, ◌<◌, ◌≡◌, refl, sym, ap, subst, ◌∙◌, inl, inr, ◌⊎◌, true, List, Option, some,
  if◌then◌else◌, some-injective, if-both, ◌≢◌, arith,
}
use altscan.Backfill.{Watermark, stamp_of, holds_lease, update_where}
use altscan.Backfill.Members.{mem_of_update_where}
use altscan.Backfill.Fence.{Current, Stale, Fenced, to_ms_mono, holds_lease_iff, holds-Current}

module _ (next : ℕ) (rows : List Watermark) (clock : ℕ) (held : ℕ → Option Watermark)
    (h : Fenced next rows clock held) (i : ℕ) (e : Watermark) (holds : held i ≡ some e) (t : ℕ)
    (at : stamp_of e ≡ some t) where
  -- After a fenced UPDATE that ends the claim, what keeps the row's id and either keeps its time or sets
  -- it to the present leaves the other claims as they must be.
  module _ (set : Watermark → Watermark) (same_id : (w : Watermark) → (set w).id ≡ w.id)
      (timed : (w : Watermark)
        → ((set w).last_attempt_at ≡ w.last_attempt_at) ⊎ ((set w).last_attempt_at ≡ some clock))
      (held' : ℕ → Option Watermark)
      (less : (j : ℕ) (f : Watermark) → held' j ≡ some f → (held j ≡ some f) × (j ≢ i)) where
    after : Watermark → Watermark
    after w = if holds_lease e.id t w then set w else w

    after-id : (w : Watermark) → (after w).id ≡ w.id
    unfolding after
    after-id w =
        if-both (λ (v : Watermark). v.id ≡ w.id) (holds_lease e.id t w) (λ _. same_id w) (λ _. refl)

    after-past :
        (w : Watermark) (s : ℕ) → Memᴰ w rows → (after w).last_attempt_at ≡ some s → s ≤ clock
    unfolding after
    after-past w s m =
        if-both (λ (v : Watermark). v.last_attempt_at ≡ some s → s ≤ clock) (holds_lease e.id t w)
          (λ _ moved. elim (timed w) [
            | inl kept ↦ h.past w s m (sym kept ∙ moved)
            | inr now ↦ omega (arith, some-injective {A = ℕ} (sym now ∙ moved))
          ])
          (λ _ kept. h.past w s m kept)

    -- Another worker's claim on the row that moves is a stale one.
    moved_on :
        (j : ℕ) (f w : Watermark)
        → held j ≡ some f
        → j ≢ i
        → Memᴰ w rows
        → w.id ≡ f.id
        → holds_lease e.id t w ≡ true
        → Stale f (set w)
    moved_on j f w was other m same passes = elim (h.stands j f w was m same) [
      | inl current ↦
          let mine = holds-Current next rows clock held h i e holds t at w m passes in
          let ids : f.id ≡ e.id = sym same ∙ (holds_lease_iff e.id t w passes).0 in
          elim (other (h.apart j i f e was holds ids (sym current.same_time ∙ mine.same_time))) [ ]
      | inr stale ↦ elim (timed w) [
        | inl kept ↦ record {
          claimed_at = stale.claimed_at;
          touched_at = stale.touched_at;
          claim_time = stale.claim_time;
          row_time = kept ∙ stale.row_time;
          later = stale.later;
        }
        | inr now ↦ record {
          claimed_at = stale.claimed_at;
          touched_at = clock;
          claim_time = stale.claim_time;
          row_time = now;
          later = omega (
            arith,
            stale.later,
            to_ms_mono stale.touched_at clock (h.past w stale.touched_at m stale.row_time),
          );
        }
      ]
    ]

    after-stands :
        (j : ℕ) (f w : Watermark)
        → held' j ≡ some f
        → Memᴰ w rows
        → w.id ≡ f.id
        → Current f (after w) ⊎ Stale f (after w)
    unfolding after
    after-stands j f w hf m same =
        let (was, other) = less j f hf in
        if-both (λ v. Current f v ⊎ Stale f v) (holds_lease e.id t w)
          (λ passes. inr (moved_on j f w was other m same passes)) (λ _. h.stands j f w was m same)

    pub Fenced-settled : Fenced next (update_where (holds_lease e.id t) set rows) clock held'
    unfolding after
    Fenced-settled = record {
      unique = λ v w m n same.
          let (a, ma, va) = mem_of_update_where (holds_lease e.id t) set v rows m in
          let (b, mb, wb) = mem_of_update_where (holds_lease e.id t) set w rows n in
          let ids : a.id ≡ b.id =
            sym (after-id a)
            ∙ ap (λ (x : Watermark). x.id) (sym va)
            ∙ same
            ∙ ap (λ (x : Watermark). x.id) wb
            ∙ after-id b in
          va ∙ ap after (h.unique a b ma mb ids) ∙ sym wb;
      numbered = λ w m.
          let (a, ma, wa) = mem_of_update_where (holds_lease e.id t) set w rows m in
          subst (λ n. n < next) (sym (ap (λ (x : Watermark). x.id) wa ∙ after-id a))
            (h.numbered a ma);
      claims_numbered = λ j f hf. h.claims_numbered j f (less j f hf).0;
      past = λ w s m timed_at.
          let (a, ma, wa) = mem_of_update_where (holds_lease e.id t) set w rows m in
          after-past a s ma (ap (λ (x : Watermark). x.last_attempt_at) (sym wa) ∙ timed_at);
      has_stamp = λ j f hf. h.has_stamp j f (less j f hf).0;
      stands = λ j f w hf m same.
          let (a, ma, wa) = mem_of_update_where (holds_lease e.id t) set w rows m in
          subst (λ x. Current f x ⊎ Stale f x) (sym wa)
            (after-stands j f a hf ma
              (sym (after-id a) ∙ ap (λ (x : Watermark). x.id) (sym wa) ∙ same));
      apart =
          λ j k f g hf hg same times. h.apart j k f g (less j f hf).0 (less k g hg).0 same times;
    }
