-- ===== src/Backfill/History.antt =====
-- apps/indexer/src/backfill-worker.ts: the tails of all entities through any steps of any workers.
use mathlib.Core.List.{Memᴰ}
use mathlib.Core.List.Memᴰ.{head, tail}
use altscan.Prelude.{
  ℕ, ◌+◌, ◌≤◌, ◌≡◌, refl, sym, ap, subst, ◌∙◌, inl, inr, List, [], ◌∷◌, ◌++◌, some, String, ◌===◌,
  string_eq, ◌&&◌, any_by, if-both, mem_of_append, arith, none≢some,
}
use altscan.Backfill.{EntityType, Watermark, Config}
use altscan.Backfill.Rows.{Js}
use altscan.Backfill.Page.{FailReason, Page, Reply, page, refused, raised, with_watermarks}
use altscan.Backfill.Worker.{
  Provider, idle, answered, State, Event, enqueue, claim, reserve, release, verify,
  provider_answers, provider_refuses, provider_raises, process, write_throws, crash, wait,
  enqueue_backfill, new_watermark, same_type, step, run, ask,
}
use altscan.Backfill.Fence.{holder, Fenced-less}
use altscan.Backfill.Enqueued.{Fenced-enqueued, Fenced-spent}
use altscan.Backfill.Tail.{Whole, ongoing, start, Whole-Grows}
use altscan.Backfill.Settled.{Sound, Sound-idle, holders}
use altscan.Backfill.Claims.{with_watermarks-Grows, Sound-claim}
use altscan.Backfill.Rounds.{
  Sound-reserve, Sound-released, Sound-verify, Sound-reply, Sound-process, Sound-throw,
}

-- No entity is queued and no worker has begun; the two tables may hold anything.
pub record Fresh (s : State) : Type 0 where
  pub no_watermarks : s.db.watermarks ≡ []
  pub all_idle : (i : ℕ) → s.phase i ≡ idle

page-injective : {p q : Page} → page p ≡ page q → p ≡ q
page-injective h = ground (arith, h)

refused≢page : {r : FailReason} {q : Page} → refused r ≡ page q → ⊥
refused≢page h = ground (arith, h)

idle≢answered : {e : Watermark} {r : Reply} → idle ≡ answered e r → ⊥
idle≢answered h = ground (arith, h)

raised≢page : {text : String} {q : Page} → raised text ≡ page q → ⊥
raised≢page h = ground (arith, h)

module _ (js : Js) (cfg : Config) (lease : 1 ≤ cfg.lease_sec) (provider : Provider) where
  Fresh-Sound : (s : State) → Fresh s → Sound js provider s
  Fresh-Sound s f = record {
    fenced_claims = record {
      unique = λ v w m n same. elim (empty v m) [ ];
      numbered = λ w m. elim (empty w m) [ ];
      claims_numbered = λ i e held. elim (unheld i e held) [ ];
      past = λ w t m at. elim (empty w m) [ ];
      has_stamp = λ i e held. elim (unheld i e held) [ ];
      stands = λ i e w held m same. elim (unheld i e held) [ ];
      apart = λ i j e g he hg same times. elim (unheld i e he) [ ];
    };
    asked = λ i e p at. elim (idle≢answered (sym (f.all_idle i) ∙ at)) [ ];
    whole = λ w m. elim (empty w m) [ ];
  }
    where
      empty : (w : Watermark) → Memᴰ w s.db.watermarks → ⊥
      empty w m = elim (subst (λ rows. Memᴰ w rows) f.no_watermarks m) [ ]

      unheld : (i : ℕ) (e : Watermark) → holder (s.phase i) ≡ some e → ⊥
      unheld i e held = none≢some (ap holder (sym (f.all_idle i)) ∙ held)

  Sound-enqueue :
      (entity_type : EntityType) (entity_id : String) (s : State)
      → Sound js provider s
      → Sound js provider (enqueue_backfill js cfg provider entity_type entity_id s)
  unfolding enqueue_backfill
  Sound-enqueue entity_type entity_id s h =
      let id = js.to_lower entity_id in
      let new = new_watermark entity_type id s.next_id s.clock in
      if-both
        (λ rows.
          Sound js provider (record s { db = with_watermarks s.db rows; next_id = s.next_id + 1 }))
        (any_by (λ w. same_type w.entity_type entity_type && (w.entity_id === id)) s.db.watermarks)
        (λ _. record {
          fenced_claims =
              Fenced-spent s.next_id s.db.watermarks s.clock (holders s) h.fenced_claims;
          asked = h.asked;
          whole = h.whole;
        })
        (λ _. record {
          fenced_claims =
              Fenced-enqueued s.next_id s.db.watermarks s.clock (holders s) new h.fenced_claims refl
                refl;
          asked = h.asked;
          whole = λ w m.
              Whole-Grows js provider s.db (with_watermarks s.db (s.db.watermarks ++ new ∷ [])) w
                (with_watermarks-Grows s.db (s.db.watermarks ++ new ∷ []))
                (elim (mem_of_append w s.db.watermarks (new ∷ []) m) [
                  | inl old ↦ h.whole w old
                  | inr last ↦ begun w last
                ]);
        })
    where
      begun :
          (w : Watermark)
          → Memᴰ w (new_watermark entity_type (js.to_lower entity_id) s.next_id s.clock ∷ [])
          → Whole js provider s.db w
      begun w (head e) = subst (Whole js provider s.db) (sym e) (ongoing refl start)
      begun w (tail m) = elim m [ ]

  Sound-step :
      (event : Event) (s : State)
      → Sound js provider s
      → Sound js provider (step js cfg provider event s)
  unfolding step
  Sound-step (enqueue entity_type entity_id) s h = Sound-enqueue entity_type entity_id s h
  Sound-step (claim i excluded locked) s h =
      Sound-claim js cfg lease provider s h i excluded locked (s.phase i) refl
  Sound-step (reserve i) s h = Sound-reserve js cfg lease provider s h i (s.phase i) refl
  Sound-step (release i) s h = Sound-released js cfg lease provider s h i (s.phase i) refl
  Sound-step (verify i) s h = Sound-verify js cfg lease provider s h i (s.phase i) refl
  Sound-step (provider_answers i) s h =
      Sound-reply js cfg lease provider s h i (λ e. page (ask js cfg provider e))
        (λ e q same. sym (page-injective same)) (s.phase i) refl
  Sound-step (provider_refuses i reason) s h =
      Sound-reply js cfg lease provider s h i (λ e. refused reason)
        (λ e q same. elim (refused≢page same) [ ]) (s.phase i) refl
  Sound-step (provider_raises i text) s h =
      Sound-reply js cfg lease provider s h i (λ e. raised text)
        (λ e q same. elim (raised≢page same) [ ]) (s.phase i) refl
  Sound-step (process i) s h = Sound-process js cfg lease provider s h i (s.phase i) refl
  Sound-step (write_throws i text) s h =
      Sound-throw js cfg lease provider s h i text (s.phase i) refl
  Sound-step (crash i) s h = Sound-idle js provider s i h
  Sound-step (wait d) s h = record {
    fenced_claims =
        Fenced-less s.next_id s.db.watermarks s.db.watermarks s.clock (s.clock + d) (holders s)
          (holders s) h.fenced_claims (λ w m. m) (omega arith) (λ i e held. held);
    asked = h.asked;
    whole = h.whole;
  }

  Sound-run :
      (events : List Event) (s : State)
      → Sound js provider s
      → Sound js provider (run js cfg provider events s)
  unfolding run
  Sound-run [] s h = h
  Sound-run (event ∷ events) s h =
      Sound-run events (step js cfg provider event s) (Sound-step event s h)

  -- No cached tail ever has a hole. From a start at which nothing is queued, through any steps, replies,
  -- failures and crashes of any number of workers, each entity's row is backed by the tables: every entry
  -- of every page before its cursor has a row, and once it is complete, of all pages. The lease is at
  -- least a second, and the provider's page of an entity and a cursor does not change.
  pub run-Whole :
      (events : List Event) (s : State) (w : Watermark)
      → Fresh s
      → Memᴰ w (run js cfg provider events s).db.watermarks
      → Whole js provider (run js cfg provider events s).db w
  run-Whole events s w fresh m = (Sound-run events s (Fresh-Sound s fresh)).whole w m
