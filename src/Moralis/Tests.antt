-- ===== src/Moralis/Tests.antt =====
-- The theorems of packages/providers/src/moralis.ts on a ceiling of 100 units.
use altscan.Prelude.{ℕ, ◌-◌, ◌≤◌, ◌≡◌, refl, Bool, true, false, List, [], ◌∷◌, some, All}
use altscan.Moralis.{
  history, assets, Env, Clock, Month, month_key, missing, number, runs, Ledgers, acquire, admit,
  is_rate_limited,
}
use altscan.Moralis.Ceiling.{Call, spent, InCycle, used_in, spent-ceiling}
use altscan.Moralis.Committed.{is_ok, Committed}

abbrev env : (redis : Bool) → Env
env redis = record {
  cu_max = 100;
  cycle_day = 26;
  caps = λ b. record { hourly_max = 2; daily_max = 3 };
  disabled = false;
  api_key = some "key";
  has_redis_url = redis;
}

abbrev at : (ms date : ℕ) → Clock
at ms date = record { ms = ms; year = 2026; month = 8; date = date }

abbrev cycle : Month
cycle = record { y = 2026; m = 8 }

abbrev ledgers : Ledgers
ledgers = record {
  keys = record {
    cu = record { value = number 60; expires = true };
    hourly = record { value = number 1; expires = true };
    daily = record { value = missing; expires = false };
  };
  memory = record {
    counters = λ b. record { hourly = 0; hourly_start = 0; daily = 0; daily_start = 0 };
    cu = record { month = cycle; used = 30 };
  };
  unwritable = false;
}

abbrev calls : List Call
calls =
    record { now = at 10 24; bucket = history; cost = 50 }
    ∷ record { now = at 20 25; bucket = assets; cost = 25 }
    ∷ record { now = at 30 25; bucket = history; cost = 20 }
    ∷ []

in_cycle : All (InCycle (env false) cycle) calls
unfolding month_key
in_cycle = (refl, (refl, (refl, tt)))

spent-ceiling_example : spent (env false) calls ledgers ≤ 100 - used_in cycle ledgers.memory
spent-ceiling_example = spent-ceiling (env false) cycle calls ledgers refl in_cycle

admitted : is_ok (acquire (env true) (at 10 24) runs history 40 ledgers).0 ≡ true
unfolding acquire is_rate_limited admit
admitted = refl
