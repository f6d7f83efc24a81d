-- ===== src/Moralis.antt =====
-- packages/providers/src/moralis.ts: the gate in front of every metered call. It spends compute units of a
-- monthly ceiling and one call of a bucket's hourly and daily caps, from a ledger in Redis or, where
-- there is no Redis, in memory. The HTTP calls and the health report are left out.
pub mod Ceiling
pub mod Committed
mod Tests
use altscan.Prelude.{
  ℕ, zero, suc, ◌+◌, Bool, true, false, not, ◌&&◌, ◌||◌, Option, none, some, String, ltb, leb, ◌==◌,
  ◌===◌, string_eq, if◌then◌else◌,
}

pub data Bucket : Type 0 where
  history holders assets : Bucket

pub record Caps : Type 0 where
  pub hourly_max : ℕ
  pub daily_max : ℕ

-- The environment as the code reads it: `monthlyCuMax()`, `cycleStartDay()` and `BUCKET_CAPS`.
pub record Env : Type 0 where
  pub cu_max : ℕ
  pub cycle_day : ℕ
  pub caps : Bucket → Caps
  pub disabled : Bool
  pub api_key : Option String
  pub has_redis_url : Bool

-- The readings of the clock in a call: milliseconds, and the UTC date, its month from 0.
pub record Clock : Type 0 where
  pub ms : ℕ
  pub year : ℕ
  pub month : ℕ
  pub date : ℕ

-- A key of a billing cycle; its text is the year and the two digits of the month.
pub record Month : Type 0 where
  pub y : ℕ
  pub m : ℕ

abbrev month_before : ℕ → ℕ → Month
month_before (suc y) zero = record { y = y; m = 12 }
month_before zero zero = record { y = 0; m = 12 }
month_before y (suc m) = record { y = y; m = m + 1 }

unfoldable pub month_key : Clock → (day : ℕ) → Month
month_key now day =
    if ltb now.date day
    then month_before now.year now.month
    else record { y = now.year; m = now.month + 1 }

abbrev pub same_month : Month → Month → Bool
same_month a b = (a.y == b.y) && (a.m == b.m)

pub record MemCounter : Type 0 where
  pub hourly : ℕ
  pub hourly_start : ℕ
  pub daily : ℕ
  pub daily_start : ℕ

pub record MemCu : Type 0 where
  pub month : Month
  pub used : ℕ

pub record Memory : Type 0 where
  pub counters : Bucket → MemCounter
  pub cu : MemCu

abbrev pub hourly_window : ℕ
hourly_window = 3_600_000

abbrev pub daily_window : ℕ
daily_window = 86_400_000

abbrev pub same_bucket : Bucket → Bucket → Bool
same_bucket history history = true
same_bucket holders holders = true
same_bucket assets assets = true
same_bucket _ _ = false

abbrev pub with_counter : Bucket → MemCounter → (Bucket → MemCounter) → Bucket → MemCounter
with_counter b c counters other = if same_bucket b other then c else counters other

abbrev pub roll_hourly : (now : ℕ) → MemCounter → MemCounter
roll_hourly now c =
    if ltb (c.hourly_start + hourly_window) now
    then record { hourly = 0; hourly_start = now; daily = c.daily; daily_start = c.daily_start }
    else c

abbrev pub roll_daily : (now : ℕ) → MemCounter → MemCounter
roll_daily now c =
    if ltb (c.daily_start + daily_window) now
    then record { hourly = c.hourly; hourly_start = c.hourly_start; daily = 0; daily_start = now }
    else c

abbrev pub roll_cu : Month → MemCu → MemCu
roll_cu key cu = if same_month cu.month key then cu else record { month = key; used = 0 }

unfoldable pub roll_mem_windows : Env → Clock → Bucket → Memory → Memory
roll_mem_windows env now b mem = record {
  counters = with_counter b (roll_daily now.ms (roll_hourly now.ms (mem.counters b))) mem.counters;
  cu = roll_cu (month_key now env.cycle_day) mem.cu;
}

abbrev pub charged : (cost : ℕ) → Bucket → Memory → Memory
charged cost b mem =
    let c = mem.counters b in
    record {
      counters =
          with_counter b
            (record {
              hourly = c.hourly + 1;
              hourly_start = c.hourly_start;
              daily = c.daily + 1;
              daily_start = c.daily_start;
            })
            mem.counters;
      cu = record { month = mem.cu.month; used = mem.cu.used + cost };
    }

-- True when the call is refused, with what is left of the ledger.
unfoldable pub is_rate_limited_memory : Env → Clock → Bucket → (cost : ℕ) → Memory → Bool × Memory
is_rate_limited_memory env now b cost mem =
    let rolled = roll_mem_windows env now b mem in
    if ltb env.cu_max (rolled.cu.used + cost)
    then (true, rolled)
    else if leb (env.caps b).daily_max (rolled.counters b).daily
    then (true, rolled)
    else if leb (env.caps b).hourly_max (rolled.counters b).hourly
    then (true, rolled)
    else (false, charged cost b rolled)

-- A counter in Redis: missing, what INCRBY can go on from, or something else.
pub data Raw : Type 0 where
  missing malformed : Raw
  number : ℕ → Raw

pub record Key : Type 0 where
  pub value : Raw
  pub expires : Bool

-- The three keys that a call names.
pub record Keys : Type 0 where
  pub cu : Key
  pub hourly : Key
  pub daily : Key

abbrev pub counted : Key → ℕ
counted key = elim key.value [ number n ↦ n | _ ↦ 0 ]

abbrev pub read_counter : Key → Key
read_counter key = elim key.value [
  | malformed ↦ record { value = missing; expires = false }
  | missing ↦ key
  | number n ↦ key
]

-- INCRBY, and the lifetime that is armed where there is none.
abbrev pub incremented : ℕ → Key → Key
incremented n key = record { value = number (counted key + n); expires = true }

-- The script `ADMIT_LUA`.
unfoldable pub admit : (cost cu_max : ℕ) → Caps → Keys → ℕ × Keys
admit cost cu_max caps keys =
    let read : Keys = record {
      cu = read_counter keys.cu;
      hourly = read_counter keys.hourly;
      daily = read_counter keys.daily;
    } in
    if ltb cu_max (counted keys.cu + cost)
    then (1, read)
    else if ltb caps.hourly_max (counted keys.hourly + 1)
    then (2, read)
    else if ltb caps.daily_max (counted keys.daily + 1)
    then (3, read)
    else (
      0,
      record {
        cu = incremented cost read.cu;
        hourly = incremented 1 read.hourly;
        daily = incremented 1 read.daily;
      },
    )

-- What becomes of the call of Redis: there is no client or it is known to be down; `eval` throws, with
-- whatever the keys hold then; or the script runs.
pub data Contact : Type 0 where
  unavailable : Contact
  throws : Keys → Contact
  runs : Contact

pub record Ledgers : Type 0 where
  pub keys : Keys
  pub memory : Memory
  pub unwritable : Bool

abbrev pub answer : ℕ × Keys → Ledgers → Bool × Ledgers
answer (zero, keys) l = (false, record { keys = keys; memory = l.memory; unwritable = false })
answer (suc n, keys) l =
    (true, record { keys = keys; memory = l.memory; unwritable = l.unwritable })

abbrev pub in_memory : Bool × Memory → Ledgers → Bool × Ledgers
in_memory (limited, memory) l =
    (limited, record { keys = l.keys; memory = memory; unwritable = l.unwritable })

-- Where Redis is configured but did not answer, the call is refused.
abbrev pub without_redis : Env → Clock → Bucket → (cost : ℕ) → Ledgers → Bool × Ledgers
without_redis env now b cost l =
    if env.has_redis_url
    then (true, l)
    else in_memory (is_rate_limited_memory env now b cost l.memory) l

unfoldable pub is_rate_limited :
    Env → Clock → Contact → Bucket → (cost : ℕ) → Ledgers → Bool × Ledgers
is_rate_limited env now runs b cost l = answer (admit cost env.cu_max (env.caps b) l.keys) l
is_rate_limited env now (throws keys) b cost l =
    without_redis env now b cost (record { keys = keys; memory = l.memory; unwritable = true })
is_rate_limited env now unavailable b cost l = without_redis env now b cost l

pub data Acquired : Type 0 where
  ok : (api_key : String) → Acquired
  disabled not_configured rate_limited : Acquired

abbrev pub settled : String → Bool × Ledgers → Acquired × Ledgers
settled key (limited, l) = (if limited then rate_limited else ok key, l)

abbrev pub with_key :
    Env → Clock → Contact → Bucket → (cost : ℕ) → Ledgers → Option String → Acquired × Ledgers
with_key env now contact b cost l none = (not_configured, l)
with_key env now contact b cost l (some key) =
    if key === ""
    then (not_configured, l)
    else settled key (is_rate_limited env now contact b cost l)

unfoldable pub acquire : Env → Clock → Contact → Bucket → (cost : ℕ) → Ledgers → Acquired × Ledgers
acquire env now contact b cost l =
    if env.disabled then (disabled, l) else with_key env now contact b cost l env.api_key
