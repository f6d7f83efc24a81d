-- ===== src/Backfill/Rounds.antt =====
-- apps/indexer/src/backfill-worker.ts: the statements of a round after its claim keep what Settled states.
use mathlib.Core.List.{Memᴰ}
use altscan.Prelude.{
  ℕ, ◌≤◌, ◌≡◌, refl, sym, ap, subst, ◌∙◌, Bool, true, false, List, some, String, if-both,
  false≢true, arith,
}
use altscan.Backfill.{Watermark, Config, fenced_update, to_ms, holds_lease}
use altscan.Backfill.Members.{mem_of_update_where}
use altscan.Backfill.Rows.{Js}
use altscan.Backfill.Page.{Page, Reply, page, refused, raised, with_watermarks}
use altscan.Backfill.Worker.{
  Provider, Phase, idle, claimed, denied, reserved, paging, answered, failing, State, set_phase,
  try_reserve, try_release, try_verify, try_reply, try_process, try_throw, reserve_page,
}
use altscan.Backfill.Fence.{holder, Fenced-less}
use altscan.Backfill.Tail.{Whole-Grows}
use altscan.Backfill.Settled.{Sound, Sound-phase, Sound-idle, holders, fenced_update-stamped}
use altscan.Backfill.Updates.{Sound-write_failed, Sound-release}
use altscan.Backfill.Pages.{Sound-process_reply}
use altscan.Backfill.Claims.{with_watermarks-Grows}

abbrev is_answer : Phase → Bool
is_answer (answered e (page q)) = true
is_answer _ = false

no_page : (p : Phase) (e : Watermark) (q : Page) → is_answer p ≡ false → p ≡ answered e (page q) → ⊥
no_page p e q plain same = false≢true (sym plain ∙ ap is_answer same)

answered-injective :
    {e f : Watermark} {r t : Reply} → answered e r ≡ answered f t → (e ≡ f) × (r ≡ t)
answered-injective h = ground (arith, h)

module _ (js : Js) (cfg : Config) (lease : 1 ≤ cfg.lease_sec) (provider : Provider) where
  module _ (s : State) (h : Sound js provider s) (i : ℕ) where
    -- The worker goes on with its claim.
    goes_on :
        (s' : State) (p q : Phase)
        → Sound js provider s'
        → s'.phase i ≡ p
        → holder q ≡ holder p
        → is_answer q ≡ false
        → Sound js provider (set_phase i q s')
    goes_on s' p q h' at same plain =
        Sound-phase js provider s' i q h' (λ f held. ap holder at ∙ sym same ∙ held)
          (λ e r is_page. elim (no_page q e r plain is_page) [ ])

    pub Sound-reserve :
        (p : Phase) → s.phase i ≡ p → Sound js provider (try_reserve js cfg provider i p s)
    Sound-reserve (claimed e) at =
        let r = reserve_page cfg s.clock s.budget in
        let s' = record s { budget = r.1 } in
        let h' : Sound js provider (record s { budget = r.1 }) = record {
          fenced_claims = h.fenced_claims;
          asked = h.asked;
          whole = h.whole;
        } in
        if-both (λ q. Sound js provider (set_phase i q (record s { budget = r.1 }))) r.0
          (λ _. goes_on (record s { budget = r.1 }) (claimed e) (reserved e) h' at refl refl)
          (λ _. goes_on (record s { budget = r.1 }) (claimed e) (denied e) h' at refl refl)
    Sound-reserve idle at = h
    Sound-reserve (denied e) at = h
    Sound-reserve (reserved e) at = h
    Sound-reserve (paging e) at = h
    Sound-reserve (answered e reply) at = h
    Sound-reserve (failing e text) at = h

    pub Sound-released :
        (p : Phase) → s.phase i ≡ p → Sound js provider (try_release js cfg provider i p s)
    Sound-released (denied e) at = Sound-release js provider s h i e (ap holder at)
    Sound-released idle at = h
    Sound-released (claimed e) at = h
    Sound-released (reserved e) at = h
    Sound-released (paging e) at = h
    Sound-released (answered e reply) at = h
    Sound-released (failing e text) at = h

    fewer :
        (e w : Watermark)
        → holder (s.phase i) ≡ some e
        → Memᴰ w (fenced_update e (λ v. v) s.db.watermarks).1
        → Memᴰ w s.db.watermarks
    fewer e w holds m =
        let stamp = h.fenced_claims.has_stamp i e holds in
        let (a, ma, wa) =
          mem_of_update_where (holds_lease e.id (to_ms stamp.at)) (λ v. v) w s.db.watermarks
            (subst (λ (r : Bool × List Watermark). Memᴰ w r.1)
              (fenced_update-stamped e (λ v. v) stamp.at s.db.watermarks stamp.stamp) m) in
        subst (λ x. Memᴰ x s.db.watermarks)
          (sym (
            wa
            ∙ if-both (λ (x : Watermark). x ≡ a) (holds_lease e.id (to_ms stamp.at) a) (λ _. refl)
                (λ _. refl)))
          ma

    pub Sound-verify :
        (p : Phase) → s.phase i ≡ p → Sound js provider (try_verify js cfg provider i p s)
    Sound-verify (reserved e) at =
        let rows = (fenced_update e (λ v. v) s.db.watermarks).1 in
        let h' : Sound js provider (record s { db = with_watermarks s.db rows }) = record {
          fenced_claims =
              Fenced-less s.next_id s.db.watermarks rows s.clock s.clock (holders s) (holders s)
                h.fenced_claims (λ w m. fewer e w (ap holder at) m) (omega arith)
                (λ j f held. held);
          asked = h.asked;
          whole = λ w m.
              Whole-Grows js provider s.db (with_watermarks s.db rows) w
                (with_watermarks-Grows s.db rows) (h.whole w (fewer e w (ap holder at) m));
        } in
        if-both
          (λ q. Sound js provider (set_phase i q (record s { db = with_watermarks s.db rows })))
          (fenced_update e (λ v. v) s.db.watermarks).0
          (λ _.
            goes_on (record s { db = with_watermarks s.db rows }) (reserved e) (paging e) h' at refl
              refl)
          (λ _. Sound-idle js provider (record s { db = with_watermarks s.db rows }) i h')
    Sound-verify idle at = h
    Sound-verify (claimed e) at = h
    Sound-verify (denied e) at = h
    Sound-verify (paging e) at = h
    Sound-verify (answered e reply) at = h
    Sound-verify (failing e text) at = h

    pub Sound-reply :
        (reply : Watermark → Reply)
        → ((e : Watermark) (q : Page)
            → reply e ≡ page q
            → q ≡ provider e.entity_type e.entity_id e.oldest_cursor)
        → (p : Phase) → s.phase i ≡ p
        → Sound js provider (try_reply js cfg provider reply i p s)
    Sound-reply reply own (paging e) at =
        Sound-phase js provider s i (answered e (reply e)) h (λ f held. ap holder at ∙ held)
          (λ f q same.
            let (one, two) = answered-injective same in
            subst (λ (x : Watermark). q ≡ provider x.entity_type x.entity_id x.oldest_cursor) one
              (own e q two))
    Sound-reply reply own idle at = h
    Sound-reply reply own (claimed e) at = h
    Sound-reply reply own (denied e) at = h
    Sound-reply reply own (reserved e) at = h
    Sound-reply reply own (answered e given) at = h
    Sound-reply reply own (failing e text) at = h

    pub Sound-process :
        (p : Phase) → s.phase i ≡ p → Sound js provider (try_process js cfg provider i p s)
    Sound-process (answered e reply) at =
        Sound-process_reply js provider s h i e (ap holder at) cfg reply
          (λ p same. h.asked i e p (at ∙ ap (λ r. answered e r) same))
    Sound-process (failing e text) at =
        Sound-write_failed js provider s h i e (ap holder at) cfg text
    Sound-process idle at = h
    Sound-process (claimed e) at = h
    Sound-process (denied e) at = h
    Sound-process (reserved e) at = h
    Sound-process (paging e) at = h

    pub Sound-throw :
        (text : String) (p : Phase)
        → s.phase i ≡ p
        → Sound js provider (try_throw js cfg provider text i p s)
    Sound-throw text (answered e (page q)) at =
        goes_on s (answered e (page q)) (failing e text) h at refl refl
    Sound-throw text (answered e (refused reason)) at = h
    Sound-throw text (answered e (raised words)) at = h
    Sound-throw text idle at = h
    Sound-throw text (claimed e) at = h
    Sound-throw text (denied e) at = h
    Sound-throw text (reserved e) at = h
    Sound-throw text (paging e) at = h
    Sound-throw text (failing e words) at = h
