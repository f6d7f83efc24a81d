-- ===== src/Backfill/Enqueued.antt =====
-- apps/explorer/lib/backfill-trigger.ts: a new row keeps what Fence states of the claims that are held.
use mathlib.Core.List.{Memᴰ}
use mathlib.Core.List.Memᴰ.{head, tail}
use altscan.Prelude.{
  ℕ, ◌+◌, ◌<◌, ◌≡◌, sym, ap, subst, ◌∙◌, inl, inr, ◌⊎◌, List, [], ◌∷◌, ◌++◌, Option, none,
  none≢some, mem_of_append, arith,
}
use altscan.Backfill.{Watermark}
use altscan.Backfill.Fence.{Fenced}

-- A new row takes the sequence's next id, and has no time.
pub Fenced-enqueued :
    (next : ℕ) (rows : List Watermark) (clock : ℕ) (held : ℕ → Option Watermark) (new : Watermark)
    → Fenced next rows clock held
    → new.id ≡ next
    → new.last_attempt_at ≡ none
    → Fenced (next + 1) (rows ++ new ∷ []) clock held
Fenced-enqueued next rows clock held new h fresh untimed = record {
  unique = λ v w m n same.
      one v w (mem_of_append v rows (new ∷ []) m) (mem_of_append w rows (new ∷ []) n) same;
  numbered = λ w m. elim (mem_of_append w rows (new ∷ []) m) [
    | inl old ↦ omega (arith, h.numbered w old)
    | inr last ↦ omega (arith, fresh, ap (λ (x : Watermark). x.id) (only w last))
  ];
  claims_numbered = λ i e holds. omega (arith, h.claims_numbered i e holds);
  past = λ w t m at. elim (mem_of_append w rows (new ∷ []) m) [
    | inl old ↦ h.past w t old at
    | inr last ↦
        elim (none≢some
          (sym untimed ∙ ap (λ (x : Watermark). x.last_attempt_at) (sym (only w last)) ∙ at)) [ ]
  ];
  has_stamp = h.has_stamp;
  stands = λ i e w holds m same. elim (mem_of_append w rows (new ∷ []) m) [
    | inl old ↦ h.stands i e w holds old same
    | inr last ↦
        let clash : e.id ≡ next = sym same ∙ ap (λ (x : Watermark). x.id) (only w last) ∙ fresh in
        elim (less_self next (subst (λ n. n < next) clash (h.claims_numbered i e holds))) [ ]
  ];
  apart = h.apart;
}
  where
    less_self : (n : ℕ) → n < n → ⊥
    less_self n below = omega (arith, below)

    only : (w : Watermark) → Memᴰ w (new ∷ []) → w ≡ new
    only w (head e) = e
    only w (tail m) = elim m [ ]

    new_id : (v w : Watermark) → Memᴰ v rows → w ≡ new → v.id ≡ w.id → ⊥
    new_id v w m is_new same =
        let clash : v.id ≡ next = same ∙ ap (λ (x : Watermark). x.id) is_new ∙ fresh in
        less_self next (subst (λ n. n < next) clash (h.numbered v m))

    one :
        (v w : Watermark)
        → Memᴰ v rows ⊎ Memᴰ v (new ∷ [])
        → Memᴰ w rows ⊎ Memᴰ w (new ∷ [])
        → v.id ≡ w.id
        → v ≡ w
    one v w (inl m) (inl n) same = h.unique v w m n same
    one v w (inl m) (inr n) same = elim (new_id v w m (only w n) same) [ ]
    one v w (inr m) (inl n) same = elim (new_id w v n (only v m) (sym same)) [ ]
    one v w (inr m) (inr n) same = only v m ∙ sym (only w n)

-- A conflict spends an id of the sequence and adds no row.
pub Fenced-spent :
    (next : ℕ) (rows : List Watermark) (clock : ℕ) (held : ℕ → Option Watermark)
    → Fenced next rows clock held
    → Fenced (next + 1) rows clock held
Fenced-spent next rows clock held h = record {
  unique = h.unique;
  numbered = λ w m. omega (arith, h.numbered w m);
  claims_numbered = λ i e holds. omega (arith, h.claims_numbered i e holds);
  past = h.past;
  has_stamp = h.has_stamp;
  stands = h.stands;
  apart = h.apart;
}
