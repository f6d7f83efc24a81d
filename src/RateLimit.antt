-- ===== src/RateLimit.antt =====
-- packages/explorer-core/src/rate-limit.ts: the in-memory limiter, the choice between it and Redis,
-- and the key of a visitor. The module's `rateLimitMap` and `lastFullSweep` are the state `Limiter`,
-- and the clock is an argument. Redis' reply, `isCloudflareIp`, `trim` and the splitting of a header
-- at its commas are parameters.
pub mod Size
pub mod Windows
mod Tests
use altscan.Prelude.{
  ℕ, ◌+◌, ◌-◌, Bool, true, false, not, ◌&&◌, List, [], ◌∷◌, Option, none, some, String, ltb, leb,
  ◌===◌, string_eq, if◌then◌else◌, length, get, put, keep, delete,
}

pub record Entry : Type 0 where
  pub count : ℕ
  pub reset_at : ℕ

pub record Limiter : Type 0 where
  pub rate_limit_map : List (String × Entry)
  pub last_full_sweep : ℕ

abbrev pub window_ms : ℕ
window_ms = 60000

abbrev pub max_map_size : ℕ
max_map_size = 10000

abbrev pub full_sweep_min_interval_ms : ℕ
full_sweep_min_interval_ms = 1000

pub empty_limiter : Limiter
empty_limiter = record { rate_limit_map = []; last_full_sweep = 0 }

-- The body of the cleanup timer, and the loop of `makeRoom`: the expired windows go.
unfoldable pub sweep : ℕ → List (String × Entry) → List (String × Entry)
sweep now m = keep (λ _ e. not (ltb e.reset_at now)) m

-- `while (rateLimitMap.size >= MAX_MAP_SIZE)`: the oldest key is the first one.
unfoldable pub evict : List (String × Entry) → List (String × Entry)
evict [] = []
evict (oldest ∷ m) =
    let rest = evict m in if leb max_map_size (length (oldest ∷ m)) then rest else oldest ∷ m

unfoldable pub make_room : ℕ → Limiter → Limiter
unfolding sweep evict
make_room now s =
    if leb full_sweep_min_interval_ms (now - s.last_full_sweep)
    then record { rate_limit_map = evict (sweep now s.rate_limit_map); last_full_sweep = now }
    else record s { rate_limit_map = evict s.rate_limit_map }

-- `if (rateLimitMap.size >= MAX_MAP_SIZE) makeRoom(now)`
unfoldable pub room_for_one : ℕ → Limiter → Limiter
room_for_one now s = if leb max_map_size (length s.rate_limit_map) then make_room now s else s

-- The branch without a live window: the key is inserted anew, at the end.
unfoldable pub open_window : ℕ → String → Limiter → Limiter
unfolding room_for_one
open_window now key s =
    let emptied = record s { rate_limit_map = delete key s.rate_limit_map } in
    let roomy = room_for_one now emptied in
    record roomy {
      rate_limit_map =
          put key (record { count = 1; reset_at = now + window_ms }) roomy.rate_limit_map;
    }

unfoldable pub check_entry : ℕ → String → ℕ → Option Entry → Limiter → Bool × Limiter
unfolding open_window
check_entry now key max_requests none s = (true, open_window now key s)
check_entry now key max_requests (some e) s =
    if ltb e.reset_at now
    then (true, open_window now key s)
    else if leb max_requests e.count
    then (false, s)
    else (
      true,
      record s { rate_limit_map = put key (record e { count = e.count + 1 }) s.rate_limit_map },
    )

unfoldable pub check_rate_limit_memory : ℕ → String → ℕ → Limiter → Bool × Limiter
unfolding check_entry
check_rate_limit_memory now key max_requests s =
    check_entry now key max_requests (get key s.rate_limit_map) s

-- What the counter in Redis answers: it is not configured or known to be down, the command fails, or
-- the new count comes back.
pub data RedisReply : Type 0 where
  no_redis redis_error : RedisReply
  redis_count : ℕ → RedisReply

pub check_rate_limit : RedisReply → ℕ → String → ℕ → Limiter → Bool × Limiter
unfolding check_rate_limit_memory
check_rate_limit (redis_count n) now key max_requests s = (leb n max_requests, s)
check_rate_limit _ now key max_requests s = check_rate_limit_memory now key max_requests s

pub get_rate_limit_map_size : Limiter → ℕ
get_rate_limit_map_size s = length s.rate_limit_map

module _ (trim : String → String) (split_commas : String → List String) where
  abbrev pub or_unknown : String → String
  or_unknown s = if s === "" then "unknown" else s

  abbrev pub last_part : String → List String → String
  last_part part [] = part
  last_part part (next ∷ parts) = last_part next parts

  unfoldable pub extract_client_ip : Option String → String
  extract_client_ip none = "unknown"
  extract_client_ip (some header) =
      if header === "" then "unknown" else or_unknown (trim (last_part "" (split_commas header)))

  -- The argument is `headers.get` of the two headers.
  pub client_ip_from_headers :
      (is_cloudflare_ip : String → Bool) (x_forwarded_for cf_connecting_ip : Option String) → String
  unfolding extract_client_ip
  client_ip_from_headers is_cloudflare_ip forwarded none = extract_client_ip forwarded
  client_ip_from_headers is_cloudflare_ip forwarded (some header) =
      let peer = extract_client_ip forwarded in
      if not (trim header === "") && is_cloudflare_ip peer then trim header else peer
