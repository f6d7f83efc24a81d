-- ===== src/Moralis/Committed.antt =====
-- packages/providers/src/moralis.ts: an admitted call of a deployment with Redis.
use altscan.Prelude.{ℕ, zero, suc, ◌+◌, ◌≤◌, ◌≡◌, Bool, true, false, string_eq}
use altscan.Moralis.{Bucket, Env, Key, Keys, counted, Contact, runs, Ledgers, Acquired, ok}

abbrev pub is_ok : Acquired → Bool
is_ok (ok key) = true
is_ok _ = false

-- One counter goes up by an amount that its cap leaves room for.
pub record Charged (amount cap : ℕ) (before after : Key) : Type 0 where
  pub fits : counted before + amount ≤ cap
  pub charged : counted after ≡ counted before + amount
  pub armed : after.expires ≡ true

pub record Committed (env : Env) (contact : Contact) (b : Bucket) (cost : ℕ) (l : Ledgers)
    (left : Ledgers) : Type 0 where
  pub reached : contact ≡ runs
  pub cu_charged : Charged cost env.cu_max l.keys.cu left.keys.cu
  pub hourly_charged : Charged 1 (env.caps b).hourly_max l.keys.hourly left.keys.hourly
  pub daily_charged : Charged 1 (env.caps b).daily_max l.keys.daily left.keys.daily
  pub memory_kept : left.memory ≡ l.memory
  pub writable : left.unwritable ≡ false

module _ (env : Env) (b : Bucket) (cost : ℕ) where
  -- What the script's answer to a call means for its keys.
  abbrev Admitted : Keys → ℕ × Keys → Type 0
  Admitted keys (zero, left) =
      Charged cost env.cu_max keys.cu left.cu
      × Charged 1 (env.caps b).hourly_max keys.hourly left.hourly
      × Charged 1 (env.caps b).daily_max keys.daily left.daily
  Admitted keys (suc n, left) = Unit

  abbrev IfOk : Contact → Ledgers → Acquired × Ledgers → Type 0
  IfOk contact l r = is_ok r.0 ≡ true → Committed env contact b cost l r.1
