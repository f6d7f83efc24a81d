-- ===== src/Backfill/Updates.antt =====
-- apps/indexer/src/backfill-worker.ts: the updates of a row that write no page leave the tails whole.
use altscan.Prelude.{
  ℕ, ◌≡◌, refl, sym, ap, ◌∙◌, inl, inr, ◌⊎◌, false, some, String, false≢true, arith,
}
use altscan.Backfill.{Status, running, complete, error, Watermark, Config}
use altscan.Backfill.Rows.{Js}
use altscan.Backfill.Page.{
  FailReason, Tables, idle_status, write_failed, page_refused, refused_status, as_refused, as_error,
  fenced,
}
use altscan.Backfill.Worker.{Provider, State, done, release_claim}
use altscan.Backfill.Fence.{holder, Current}
use altscan.Backfill.Tail.{Whole, ongoing, finished, Covered, Grows, is_complete}
use altscan.Backfill.Settled.{Sound, Sound-settled}

same_tables : (db : Tables) → Grows db db
same_tables db = record { txs = λ p h. h; transfers = λ p h. h }

module _ (js : Js) (provider : Provider) where
  -- The pages before the cursor of a row that is being worked on.
  pub Current-Covered :
      (db : Tables) (e w : Watermark)
      → Current e w
      → Whole js provider db w
      → Covered js provider db w.entity_type w.entity_id w.oldest_cursor
  Current-Covered db e w c (ongoing going h) = h
  Current-Covered db e w c (finished d over h stored last) =
      elim (running≢complete (sym c.now_running ∙ over)) [ ]
    where
      running≢complete : running ≡ complete → ⊥
      running≢complete same = false≢true (ap is_complete same)

  module _ (s : State) (h : Sound js provider s) (i : ℕ) (e : Watermark)
      (holds : holder (s.phase i) ≡ some e) where
    -- An UPDATE that moves neither the cursor nor the entity, to a status short of complete.
    pub Sound-fenced :
        (status : Status) (set : Watermark → Watermark)
        → ((w : Watermark) → (set w).id ≡ w.id)
        → ((w : Watermark)
            → ((set w).last_attempt_at ≡ w.last_attempt_at)
              ⊎ ((set w).last_attempt_at ≡ some s.clock))
        → ((w : Watermark) → is_complete (set w).status ≡ false)
        → ((w : Watermark) → (set w).entity_type ≡ w.entity_type)
        → ((w : Watermark) → (set w).entity_id ≡ w.entity_id)
        → ((w : Watermark) → (set w).oldest_cursor ≡ w.oldest_cursor)
        → Sound js provider (done i (fenced e status set s.db).1 s)
    Sound-fenced status set same_id timed short same_type same_entity same_cursor =
        Sound-settled js provider s h i e holds set same_id timed s.db (same_tables s.db) (λ w m c.
          ongoing (short w) (
            rw (same_type w, same_entity w, same_cursor w)
              (Current-Covered s.db e w c (h.whole w m))))

    pub Sound-write_failed :
        (cfg : Config) (text : String)
        → Sound js provider (done i (write_failed js cfg s.clock text e s.db).1 s)
    unfolding write_failed
    Sound-write_failed cfg text =
        Sound-fenced error (as_error js cfg s.clock text) (λ w. refl) (λ w. inr refl) (λ w. refl)
          (λ w. refl) (λ w. refl) (λ w. refl)

    refused_status-short :
        (cfg : Config) (reason : FailReason) → is_complete (refused_status js cfg reason e) ≡ false
    refused_status-short cfg reason = ground arith

    pub Sound-refused :
        (cfg : Config) (reason : FailReason)
        → Sound js provider (done i (page_refused js cfg s.clock reason e s.db).1 s)
    unfolding page_refused
    Sound-refused cfg reason =
        Sound-fenced (refused_status js cfg reason e)
          (as_refused js cfg s.clock reason (refused_status js cfg reason e)) (λ w. refl)
          (λ w. inr refl) (λ w. refused_status-short cfg reason) (λ w. refl) (λ w. refl) (λ w. refl)

    idle_status-short : is_complete (idle_status e) ≡ false
    idle_status-short = ground arith

    pub Sound-release : Sound js provider (done i (release_claim e s.db) s)
    unfolding release_claim
    Sound-release =
        Sound-fenced (idle_status e) (λ w. record w { status = idle_status e }) (λ w. refl)
          (λ w. inl refl) (λ w. idle_status-short) (λ w. refl) (λ w. refl) (λ w. refl)
