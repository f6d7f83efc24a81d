-- ===== src/Backfill/Taken.antt =====
-- apps/indexer/src/backfill-worker.ts: a claim keeps what Fence states of the claims that are held.
use mathlib.Core.List.{Memᴰ}
use altscan.Prelude.{
  ℕ, ◌+◌, ◌≤◌, ◌<◌, ◌≡◌, refl, sym, ap, subst, ◌∙◌, inl, inr, ◌⊎◌, true, List, Option, some, ◌==◌,
  ==_iff, if◌then◌else◌, some-injective, if-both, arith,
}
use altscan.Backfill.{
  Watermark, Config, to_ms, update_where, stamped, claimable, older_than, seconds,
}
use altscan.Backfill.Members.{mem_of_update_where}
use altscan.Backfill.Fence.{Current, Stale, Fenced, to_ms_mono, to_ms-le}

to_ms_twice : (t : ℕ) → to_ms (to_ms t) ≡ to_ms t
to_ms_twice t = omega arith

older_than-some :
    (now n t : ℕ) (o : Option ℕ) → o ≡ some t → older_than now n o ≡ true → t + seconds n < now
older_than-some now n t o at h = ground (arith, at, h)

module _ (cfg : Config) (lease : 1 ≤ cfg.lease_sec) (next : ℕ) (rows : List Watermark) (clock : ℕ)
    (held : ℕ → Option Watermark) (h : Fenced next rows clock held) where
  -- A row that can be claimed was claimed in an earlier millisecond, if at all.
  claimed_before :
      (j : ℕ) (f w : Watermark)
      → held j ≡ some f
      → Memᴰ w rows
      → w.id ≡ f.id
      → claimable cfg clock w ≡ true
      → (t : ℕ) × (f.last_attempt_at ≡ some t) × (t < to_ms clock)
  unfolding claimable
  claimed_before j f w hf m same can = elim (h.stands j f w hf m same) [
    | inl current ↦
        let s = h.has_stamp j f hf in
        let waited =
          older_than-some clock cfg.lease_sec s.at w.last_attempt_at (current.same_time ∙ s.stamp)
            (rw current.now_running at can) in
        (s.at, s.stamp, omega (arith, waited, lease))
    | inr stale ↦ (
      stale.claimed_at,
      stale.claim_time,
      omega (
        arith,
        stale.later,
        to_ms_mono stale.touched_at clock (h.past w stale.touched_at m stale.row_time),
      ),
    )
  ]

  module _ (i : ℕ) (w : Watermark) (m : Memᴰ w rows) (can : claimable cfg clock w ≡ true)
      (held' : ℕ → Option Watermark)
      (less : (j : ℕ) (f : Watermark)
        → held' j ≡ some f
        → ((j ≡ i) × (f ≡ stamped clock w)) ⊎ (held j ≡ some f)) where
    taken : Watermark → Watermark
    taken v = if v.id == w.id then stamped clock v else v

    taken-id : (v : Watermark) → (taken v).id ≡ v.id
    unfolding taken
    taken-id v = if-both (λ (x : Watermark). x.id ≡ v.id) (v.id == w.id) (λ _. refl) (λ _. refl)

    taken-past :
        (v : Watermark) (t : ℕ) → Memᴰ v rows → (taken v).last_attempt_at ≡ some t → t ≤ clock
    unfolding taken
    taken-past v t n =
        if-both (λ (x : Watermark). x.last_attempt_at ≡ some t → t ≤ clock) (v.id == w.id)
          (λ _ now. omega (arith, some-injective {A = ℕ} now, to_ms-le clock))
          (λ _ kept. h.past v t n kept)

    taken-own : (v : Watermark) → Memᴰ v rows → v.id ≡ w.id → taken v ≡ stamped clock w
    unfolding taken
    taken-own v n same =
        rw ((==_iff v.id w.id).1 same) (ap (λ x. stamped clock x) (h.unique v w n m same))

    taken-stands :
        (j : ℕ) (f v : Watermark)
        → held' j ≡ some f
        → Memᴰ v rows
        → v.id ≡ f.id
        → Current f (taken v) ⊎ Stale f (taken v)
    unfolding taken
    taken-stands j f v hf n same = elim (less j f hf) [
      | inl (_, own) ↦
          let is_new = taken-own v n (same ∙ ap (λ (x : Watermark). x.id) own) in
          inl (
            subst (λ x. Current f x) (sym is_new)
              (subst (λ x. Current x (stamped clock w)) (sym own)
                (record {
                  now_running = refl;
                  same_time = refl;
                  same_type = refl;
                  same_entity = refl;
                  same_cursor = refl;
                })))
      | inr before ↦ other before
    ]
      where
        other : held j ≡ some f → Current f (taken v) ⊎ Stale f (taken v)
        other before =
            if-both (λ x. Current f x ⊎ Stale f x) (v.id == w.id)
              (λ own.
                let is_w = h.unique v w n m ((==_iff v.id w.id).0 own) in
                let (t, at, early) =
                  claimed_before j f w before m (sym (ap (λ (x : Watermark). x.id) is_w) ∙ same)
                    can in
                inr (record {
                  claimed_at = t;
                  touched_at = to_ms clock;
                  claim_time = at;
                  row_time = refl;
                  later = omega (arith, early, to_ms_twice clock);
                }))
              (λ _. h.stands j f v before n same)

    -- An older claim on the row has another time.
    times_differ :
        (j : ℕ) (f : Watermark)
        → held j ≡ some f
        → w.id ≡ f.id
        → f.last_attempt_at ≡ some (to_ms clock)
        → ⊥
    times_differ j f hf same now =
        let (t, at, early) = claimed_before j f w hf m same can in
        omega (arith, early, some-injective {A = ℕ} (sym at ∙ now))

    taken-apart :
        (j k : ℕ) (f g : Watermark)
        → held' j ≡ some f
        → held' k ≡ some g
        → f.id ≡ g.id
        → f.last_attempt_at ≡ g.last_attempt_at
        → j ≡ k
    taken-apart j k f g hf hg same times = by (less j f hf) (less k g hg)
      where
        by :
            ((j ≡ i) × (f ≡ stamped clock w)) ⊎ (held j ≡ some f)
            → ((k ≡ i) × (g ≡ stamped clock w)) ⊎ (held k ≡ some g)
            → j ≡ k
        by (inl (ji, _)) (inl (ki, _)) = ji ∙ sym ki
        by (inl (_, own)) (inr before) =
            elim (times_differ k g before (sym (ap (λ (x : Watermark). x.id) own) ∙ same)
              (sym times ∙ ap (λ (x : Watermark). x.last_attempt_at) own)) [ ]
        by (inr before) (inl (_, own)) =
            elim (times_differ j f before (sym (ap (λ (x : Watermark). x.id) own) ∙ sym same)
              (times ∙ ap (λ (x : Watermark). x.last_attempt_at) own)) [ ]
        by (inr one) (inr two) = h.apart j k f g one two same times

    pub Fenced-claimed :
        Fenced next (update_where (λ v. v.id == w.id) (stamped clock) rows) clock held'
    unfolding taken
    Fenced-claimed = record {
      unique = λ u v mu mv same.
          let (a, ma, ua) = mem_of_update_where (λ x. x.id == w.id) (stamped clock) u rows mu in
          let (b, mb, vb) = mem_of_update_where (λ x. x.id == w.id) (stamped clock) v rows mv in
          let ids : a.id ≡ b.id =
            sym (taken-id a)
            ∙ ap (λ (x : Watermark). x.id) (sym ua)
            ∙ same
            ∙ ap (λ (x : Watermark). x.id) vb
            ∙ taken-id b in
          ua ∙ ap taken (h.unique a b ma mb ids) ∙ sym vb;
      numbered = λ v mv.
          let (a, ma, va) = mem_of_update_where (λ x. x.id == w.id) (stamped clock) v rows mv in
          subst (λ n. n < next) (sym (ap (λ (x : Watermark). x.id) va ∙ taken-id a))
            (h.numbered a ma);
      claims_numbered = λ j f hf. elim (less j f hf) [
        | inl (_, own) ↦
            subst (λ n. n < next) (sym (ap (λ (x : Watermark). x.id) own)) (h.numbered w m)
        | inr before ↦ h.claims_numbered j f before
      ];
      past = λ v t mv at.
          let (a, ma, va) = mem_of_update_where (λ x. x.id == w.id) (stamped clock) v rows mv in
          taken-past a t ma (ap (λ (x : Watermark). x.last_attempt_at) (sym va) ∙ at);
      has_stamp = λ j f hf. elim (less j f hf) [
        | inl (_, own) ↦ record {
          at = to_ms clock;
          stamp = ap (λ (x : Watermark). x.last_attempt_at) own;
          whole = to_ms_twice clock;
        }
        | inr before ↦ h.has_stamp j f before
      ];
      stands = λ j f v hf mv same.
          let (a, ma, va) = mem_of_update_where (λ x. x.id == w.id) (stamped clock) v rows mv in
          subst (λ x. Current f x ⊎ Stale f x) (sym va)
            (taken-stands j f a hf ma
              (sym (taken-id a) ∙ ap (λ (x : Watermark). x.id) (sym va) ∙ same));
      apart = taken-apart;
    }
