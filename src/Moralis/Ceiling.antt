-- ===== src/Moralis/Ceiling.antt =====
-- packages/providers/src/moralis.ts: what the calls of a billing cycle spend, and what an admitted call rests on.
use altscan.Prelude.{
  ℕ, ◌+◌, ◌-◌, ◌≤◌, ◌≡◌, refl, sym, ap, subst, ◌∙◌, inl, inr, Bool, true, false, List, [], ◌∷◌,
  Option, none, some, String, ltb, leb, ==_iff, ◌===◌, string_eq, if◌then◌else◌, Bool-cases,
  if-both, All, arith, false≢true,
}
use altscan.Moralis.{
  Bucket, Env, Clock, Month, month_key, same_month, MemCu, Memory, roll_cu, roll_mem_windows,
  is_rate_limited_memory, unavailable, Ledgers, is_rate_limited, Acquired, ok, acquire, settled,
  in_memory, with_key,
}

pub record Call : Type 0 where
  pub now : Clock
  pub bucket : Bucket
  pub cost : ℕ

abbrev pub cost_if : Acquired → ℕ → ℕ
cost_if (ok key) cost = cost
cost_if _ cost = 0

-- What the admitted ones of some calls without Redis cost.
unfoldable pub spent : Env → List Call → Ledgers → ℕ
spent env [] l = 0
spent env (call ∷ calls) l =
    let r = acquire env call.now unavailable call.bucket call.cost l in
    cost_if r.0 call.cost + spent env calls r.1

abbrev pub InCycle : Env → Month → Call → Type 0
InCycle env k call = month_key call.now env.cycle_day ≡ k

-- What the memory ledger has of a cycle.
abbrev pub used_in : Month → Memory → ℕ
used_in k mem = (roll_cu k mem.cu).used

same_month_refl : (k : Month) → same_month k k ≡ true
same_month_refl k = rw ((==_iff k.y k.y).1 refl, (==_iff k.m k.m).1 refl)

roll_cu_twice : (k : Month) (cu : MemCu) → roll_cu k (roll_cu k cu) ≡ roll_cu k cu
roll_cu_twice k cu = elim (Bool-cases (same_month cu.month k)) [
  | inl same ↦ rw (same, same)
  | inr another ↦ rw (another, same_month_refl k)
]

same_month-roll_cu : (k : Month) (cu : MemCu) → same_month (roll_cu k cu).month k ≡ true
same_month-roll_cu k cu = elim (Bool-cases (same_month cu.month k)) [
  | inl same ↦ rw (same, same)
  | inr another ↦ rw (another, same_month_refl k)
]

used-charged :
    (k : Month) (cu : MemCu) (cost : ℕ)
    → (roll_cu k (record { month = (roll_cu k cu).month; used = (roll_cu k cu).used + cost })).used
      ≡ (roll_cu k cu).used + cost
used-charged k cu cost = rw (same_month-roll_cu k cu) refl

-- An answer adds to the ledger of the cycle what it admits, within what is left.
abbrev Within : Env → Month → (cost : ℕ) → Memory → Bool × Memory → Type 0
Within env k cost mem r =
    let charge = if r.0 then 0 else cost in
    (used_in k r.1 ≡ used_in k mem + charge) × (charge ≤ env.cu_max - used_in k mem)

is_rate_limited_memory-Within :
    (env : Env) (now : Clock) (b : Bucket) (cost : ℕ) (mem : Memory)
    → Within env (month_key now env.cycle_day) cost mem (is_rate_limited_memory env now b cost mem)
unfolding is_rate_limited_memory roll_mem_windows
is_rate_limited_memory-Within env now b cost mem =
    let k = month_key now env.cycle_day in
    let P = Within env k cost mem in
    let rolled = roll_mem_windows env now b mem in
    let same : used_in k rolled ≡ used_in k mem =
      ap (λ (cu : MemCu). cu.used) (roll_cu_twice k mem.cu) in
    let refused : P (true, rolled) = (omega (arith, same), omega arith) in
    if-both P (ltb env.cu_max (rolled.cu.used + cost)) (λ _. refused)
      (λ fits.
        if-both P (leb (env.caps b).daily_max (rolled.counters b).daily) (λ _. refused)
          (λ _.
            if-both P (leb (env.caps b).hourly_max (rolled.counters b).hourly) (λ _. refused)
              (λ _. (used-charged k mem.cu cost, ground (arith, fits)))))

abbrev WithinAcquired : Env → Month → (cost : ℕ) → Memory → Acquired × Ledgers → Type 0
WithinAcquired env k cost mem r =
    (used_in k r.1.memory ≡ used_in k mem + cost_if r.0 cost)
    × (cost_if r.0 cost ≤ env.cu_max - used_in k mem)

settled-Within :
    (env : Env) (k : Month) (cost : ℕ) (l : Ledgers) (key : String) (r : Bool × Memory)
    → Within env k cost l.memory r
    → WithinAcquired env k cost l.memory (settled key (in_memory r l))
settled-Within env k cost l key (true, mem) h = h
settled-Within env k cost l key (false, mem) h = h

unchanged-Within :
    (env : Env) (k : Month) (mem : Memory)
    → (used_in k mem ≡ used_in k mem + 0) × (0 ≤ env.cu_max - used_in k mem)
unchanged-Within env k mem = (omega arith, omega arith)

with_key-Within :
    (env : Env) (now : Clock) (b : Bucket) (cost : ℕ) (l : Ledgers) (key : Option String)
    → env.has_redis_url ≡ false
    → WithinAcquired env
        (month_key now env.cycle_day)
        cost
        l.memory
        (with_key env now unavailable b cost l key)
unfolding is_rate_limited
with_key-Within env now b cost l none no_redis =
    unchanged-Within env (month_key now env.cycle_day) l.memory
with_key-Within env now b cost l (some key) no_redis =
    let k = month_key now env.cycle_day in
    let P = WithinAcquired env k cost l.memory in
    if-both P (key === "") (λ _. unchanged-Within env k l.memory)
      (λ _.
        if-both (λ r. P (settled key r)) env.has_redis_url
          (λ redis. elim (false≢true (sym no_redis ∙ redis)) [ ])
          (λ _.
            settled-Within env k cost l key (is_rate_limited_memory env now b cost l.memory)
              (is_rate_limited_memory-Within env now b cost l.memory)))

acquire-Within :
    (env : Env) (now : Clock) (b : Bucket) (cost : ℕ) (l : Ledgers)
    → env.has_redis_url ≡ false
    → WithinAcquired env
        (month_key now env.cycle_day)
        cost
        l.memory
        (acquire env now unavailable b cost l)
unfolding acquire
acquire-Within env now b cost l no_redis =
    let k = month_key now env.cycle_day in
    if-both (WithinAcquired env k cost l.memory) env.disabled (λ _. unchanged-Within env k l.memory)
      (λ _. with_key-Within env now b cost l env.api_key no_redis)

-- Without Redis, the admitted calls of one billing cycle cost no more than what the monthly ceiling leaves
-- of it, whatever the ledger holds at first.
pub spent-ceiling :
    (env : Env) (k : Month) (calls : List Call) (l : Ledgers)
    → env.has_redis_url ≡ false
    → All (InCycle env k) calls
    → spent env calls l ≤ env.cu_max - used_in k l.memory
unfolding spent
spent-ceiling env k [] l no_redis all = omega arith
spent-ceiling env k (call ∷ calls) l no_redis (cycle, all) =
    let (kept, charge) =
      subst
        (λ k'.
          WithinAcquired env k' call.cost l.memory
            (acquire env call.now unavailable call.bucket call.cost l))
        cycle (acquire-Within env call.now call.bucket call.cost l no_redis) in
    let rest =
      spent-ceiling env k calls (acquire env call.now unavailable call.bucket call.cost l).1
        no_redis all in
    omega (arith, kept, charge, rest)
