-- ===== src/Backfill/Budget.antt =====
-- apps/indexer/src/backfill-worker.ts: the pages that the workers reserve in an hour.
use altscan.Prelude.{
  String, ℕ, ◌+◌, ◌≤◌, ◌≡◌, refl, sym, ap, ◌∙◌, inl, inr, Bool, true, false, ◌&&◌, List, [], ◌∷◌,
  Option, none, some, ltb, ◌==◌, ==_iff, nat_eq, if◌then◌else◌, Bool-cases, if-both, get, put,
  get-put, arith, or_zero,
}
use altscan.Backfill.{Config, EntityType, Watermark, claim_next_entity}
use altscan.Backfill.Page.{Reply, page, refused, raised}
use altscan.Backfill.Rows.{Js}
use altscan.Backfill.Worker.{
  Provider, Phase, idle, claimed, denied, reserved, paging, answered, failing, State, Event,
  enqueue, claim, reserve, release, verify, provider_answers, provider_refuses, provider_raises,
  process, write_throws, crash, wait, hour, reserve_page, reserve_after, step, try_claim,
  try_reserve, try_release, try_verify, try_reply, try_process, try_throw, after_claim, ask,
  enqueue_backfill,
}

abbrev pub pages_used : (h : ℕ) → List (ℕ × ℕ) → ℕ
pages_used h budget = or_zero (get h budget)

abbrev counts : Phase → Bool
counts (claimed e) = true
counts _ = false

-- Whether an event reserves a page in an hour.
abbrev pub reserves : Config → (h : ℕ) → Event → State → Bool
reserves cfg h (reserve i) s =
    counts (s.phase i) && (hour s.clock == h) && (reserve_page cfg s.clock s.budget).0
reserves cfg h _ s = false

module _ (js : Js) (cfg : Config) (provider : Provider) where
  unfoldable pub pages_reserved : (h : ℕ) → List Event → State → ℕ
  pages_reserved h [] s = 0
  pages_reserved h (event ∷ events) s =
      let rest = pages_reserved h events (step js cfg provider event s) in
      if reserves cfg h event s then rest + 1 else rest

  used-put :
      (h k v : ℕ) (budget : List (ℕ × ℕ))
      → pages_used h (put k v budget) ≡ (if k == h then v else pages_used h budget)
  used-put h k v budget = ap or_zero (get-put k h v budget) ∙ ground arith

  -- What an attempt to reserve at some hour does to the pages of an hour.
  abbrev Reserved : (h k before : ℕ) → Bool × List (ℕ × ℕ) → Type 0
  Reserved h k before r =
      (pages_used h r.1 ≡ before + (if (k == h) && r.0 then 1 else 0))
      × ((before ≤ cfg.max_pages_per_hour) → pages_used h r.1 ≤ cfg.max_pages_per_hour)

  put-Reserved :
      (h k used : ℕ) (budget : List (ℕ × ℕ))
      → pages_used k budget ≡ used
      → used + 1 ≤ cfg.max_pages_per_hour
      → Reserved h k (pages_used h budget) (true, put k (used + 1) budget)
  put-Reserved h k used budget was fits =
      by (k == h) (==_iff k h).0 (used-put h k (used + 1) budget)
    where
      by :
          (b : Bool)
          → (b ≡ true → k ≡ h)
          → (pages_used h (put k (used + 1) budget) ≡ (if b then used + 1 else pages_used h budget))
          → (pages_used h (put k (used + 1) budget)
              ≡ pages_used h budget + (if b && true then 1 else 0))
            × ((pages_used h budget ≤ cfg.max_pages_per_hour)
                → pages_used h (put k (used + 1) budget) ≤ cfg.max_pages_per_hour)
      by true same now =
          let was_h : pages_used h budget ≡ used =
            ap (λ n. pages_used n budget) (sym (same refl)) ∙ was in
          (omega (arith, now, was_h), λ low. omega (arith, now, fits))
      by false same now = (omega (arith, now), λ low. omega (arith, now, low))

  after-Reserved :
      (h now : ℕ) (budget : List (ℕ × ℕ)) (o : Option ℕ)
      → 1 ≤ cfg.max_pages_per_hour
      → get (hour now) budget ≡ o
      → Reserved h (hour now) (pages_used h budget) (reserve_after cfg now budget o)
  after-Reserved h now budget none some_pages is =
      put-Reserved h (hour now) 0 budget (ap or_zero is) some_pages
  after-Reserved h now budget (some used) some_pages is =
      if-both (Reserved h (hour now) (pages_used h budget)) (ltb used cfg.max_pages_per_hour)
        (λ room. put-Reserved h (hour now) used budget (ap or_zero is) (ground (arith, room)))
        (λ full. (unreserved (hour now == h), λ low. low))
    where
      unreserved :
          (b : Bool) → pages_used h budget ≡ pages_used h budget + (if b && false then 1 else 0)
      unreserved b = ground arith

  -- Every other statement leaves the ledger alone.
  claim-budget :
      (i : ℕ) (s : State) (o : Option Watermark × List Watermark)
      → (after_claim js cfg provider i o s).budget ≡ s.budget
  claim-budget i s (none, rows) = refl
  claim-budget i s (some e, rows) = refl

  try_claim-budget :
      (excluded : EntityType → Bool) (locked : ℕ → Bool) (i : ℕ) (s : State) (p : Phase)
      → (try_claim js cfg provider excluded locked i p s).budget ≡ s.budget
  try_claim-budget excluded locked i s idle =
      claim-budget i s (claim_next_entity cfg s.clock excluded locked s.db.watermarks)
  try_claim-budget excluded locked i s (claimed e) = refl
  try_claim-budget excluded locked i s (denied e) = refl
  try_claim-budget excluded locked i s (reserved e) = refl
  try_claim-budget excluded locked i s (paging e) = refl
  try_claim-budget excluded locked i s (answered e reply) = refl
  try_claim-budget excluded locked i s (failing e text) = refl

  try_release-budget :
      (i : ℕ) (s : State) (p : Phase) → (try_release js cfg provider i p s).budget ≡ s.budget
  try_release-budget i s idle = refl
  try_release-budget i s (claimed e) = refl
  try_release-budget i s (denied e) = refl
  try_release-budget i s (reserved e) = refl
  try_release-budget i s (paging e) = refl
  try_release-budget i s (answered e reply) = refl
  try_release-budget i s (failing e text) = refl

  try_verify-budget :
      (i : ℕ) (s : State) (p : Phase) → (try_verify js cfg provider i p s).budget ≡ s.budget
  try_verify-budget i s idle = refl
  try_verify-budget i s (claimed e) = refl
  try_verify-budget i s (denied e) = refl
  try_verify-budget i s (reserved e) = refl
  try_verify-budget i s (paging e) = refl
  try_verify-budget i s (answered e reply) = refl
  try_verify-budget i s (failing e text) = refl

  try_reply-budget :
      (reply : Watermark → Reply) (i : ℕ) (s : State) (p : Phase)
      → (try_reply js cfg provider reply i p s).budget ≡ s.budget
  try_reply-budget reply i s idle = refl
  try_reply-budget reply i s (claimed e) = refl
  try_reply-budget reply i s (denied e) = refl
  try_reply-budget reply i s (reserved e) = refl
  try_reply-budget reply i s (paging e) = refl
  try_reply-budget given i s (answered e reply) = refl
  try_reply-budget reply i s (failing e text) = refl

  try_process-budget :
      (i : ℕ) (s : State) (p : Phase) → (try_process js cfg provider i p s).budget ≡ s.budget
  try_process-budget i s idle = refl
  try_process-budget i s (claimed e) = refl
  try_process-budget i s (denied e) = refl
  try_process-budget i s (reserved e) = refl
  try_process-budget i s (paging e) = refl
  try_process-budget i s (answered e reply) = refl
  try_process-budget i s (failing e text) = refl

  throw-budget :
      (text : String) (i : ℕ) (s : State) (e : Watermark) (r : Reply)
      → (try_throw js cfg provider text i (answered e r) s).budget ≡ s.budget
  throw-budget text i s e (page q) = refl
  throw-budget text i s e (refused reason) = refl
  throw-budget text i s e (raised words) = refl

  try_throw-budget :
      (text : String) (i : ℕ) (s : State) (p : Phase)
      → (try_throw js cfg provider text i p s).budget ≡ s.budget
  try_throw-budget text i s idle = refl
  try_throw-budget text i s (claimed e) = refl
  try_throw-budget text i s (denied e) = refl
  try_throw-budget text i s (reserved e) = refl
  try_throw-budget text i s (paging e) = refl
  try_throw-budget text i s (answered e given) = throw-budget text i s e given
  try_throw-budget words i s (failing e text) = refl

  -- A step and the pages of an hour.
  Accounted : (h : ℕ) → State → Bool → State → Type 0
  Accounted h s one s' =
      (pages_used h s'.budget ≡ pages_used h s.budget + (if one then 1 else 0))
      × ((pages_used h s.budget ≤ cfg.max_pages_per_hour)
          → pages_used h s'.budget ≤ cfg.max_pages_per_hour)

  untouched : (h : ℕ) (s s' : State) → s'.budget ≡ s.budget → Accounted h s false s'
  unfolding Accounted
  untouched h s s' same =
      let used : pages_used h s'.budget ≡ pages_used h s.budget = ap (pages_used h) same in
      (omega (arith, used), λ low. omega (arith, used, low))

  reserve-Accounted :
      (h i : ℕ) (s : State) (p : Phase)
      → 1 ≤ cfg.max_pages_per_hour
      → Accounted h s
          (counts p && (hour s.clock == h) && (reserve_page cfg s.clock s.budget).0)
          (try_reserve js cfg provider i p s)
  unfolding Accounted reserve_page
  reserve-Accounted h i s (claimed e) some_pages =
      after-Reserved h s.clock s.budget (get (hour s.clock) s.budget) some_pages refl
  reserve-Accounted h i s idle some_pages = untouched h s s refl
  reserve-Accounted h i s (denied e) some_pages = untouched h s s refl
  reserve-Accounted h i s (reserved e) some_pages = untouched h s s refl
  reserve-Accounted h i s (paging e) some_pages = untouched h s s refl
  reserve-Accounted h i s (answered e reply) some_pages = untouched h s s refl
  reserve-Accounted h i s (failing e text) some_pages = untouched h s s refl

  step-Accounted :
      (h : ℕ) (event : Event) (s : State)
      → 1 ≤ cfg.max_pages_per_hour
      → Accounted h s (reserves cfg h event s) (step js cfg provider event s)
  unfolding step enqueue_backfill
  step-Accounted h (enqueue entity_type entity_id) s some_pages = untouched h s _ refl
  step-Accounted h (claim i excluded locked) s some_pages =
      untouched h s _ (try_claim-budget excluded locked i s (s.phase i))
  step-Accounted h (reserve i) s some_pages = reserve-Accounted h i s (s.phase i) some_pages
  step-Accounted h (release i) s some_pages = untouched h s _ (try_release-budget i s (s.phase i))
  step-Accounted h (verify i) s some_pages = untouched h s _ (try_verify-budget i s (s.phase i))
  step-Accounted h (provider_answers i) s some_pages =
      untouched h s _ (try_reply-budget (λ e. page (ask js cfg provider e)) i s (s.phase i))
  step-Accounted h (provider_refuses i reason) s some_pages =
      untouched h s _ (try_reply-budget (λ e. refused reason) i s (s.phase i))
  step-Accounted h (provider_raises i text) s some_pages =
      untouched h s _ (try_reply-budget (λ e. raised text) i s (s.phase i))
  step-Accounted h (process i) s some_pages = untouched h s _ (try_process-budget i s (s.phase i))
  step-Accounted h (write_throws i text) s some_pages =
      untouched h s _ (try_throw-budget text i s (s.phase i))
  step-Accounted h (crash i) s some_pages = untouched h s _ refl
  step-Accounted h (wait d) s some_pages = untouched h s _ refl

  add_one : (a b c m : ℕ) → b + c ≤ m → b ≡ a + 1 → a + (c + 1) ≤ m
  add_one a b c m h k = omega (arith, h, k)

  add_none : (a b c m : ℕ) → b + c ≤ m → b ≡ a + 0 → a + c ≤ m
  add_none a b c m h k = omega (arith, h, k)

  -- The pages of an hour that the ledger has and those that a run reserves in it stay within the cap of
  -- at least one, whatever the workers, their crashes and the provider do. A page once reserved is never
  -- given back.
  pub pages_reserved-cap :
      (h : ℕ) (events : List Event) (s : State)
      → 1 ≤ cfg.max_pages_per_hour
      → pages_used h s.budget ≤ cfg.max_pages_per_hour
      → pages_used h s.budget + pages_reserved h events s ≤ cfg.max_pages_per_hour
  unfolding pages_reserved Accounted
  pages_reserved-cap h [] s some_pages low = omega (arith, low)
  pages_reserved-cap h (event ∷ events) s some_pages low =
      let s' = step js cfg provider event s in
      let (used, kept) = step-Accounted h event s some_pages in
      let rest = pages_reserved-cap h events (step js cfg provider event s) some_pages (kept low) in
      elim (Bool-cases (reserves cfg h event s)) [
        | inl one ↦ rw one (add_one _ _ _ _ rest (rw one at used))
        | inr nothing ↦ rw nothing (add_none _ _ _ _ rest (rw nothing at used))
      ]
