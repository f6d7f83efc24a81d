-- ===== src/RateLimit/Size.antt =====
-- The history of the in-memory limiter of packages/explorer-core/src/rate-limit.ts, and how many windows it
-- holds.
use altscan.Prelude.{
  ℕ, ◌+◌, ◌≤◌, ◌<◌, ◌≡◌, inl, inr, Bool, true, false, not, List, [], ◌∷◌, some, String, arith, ltb,
  ◌===◌, string_eq, if◌then◌else◌, Bool-cases, Option-cases, length, get, put, delete,
  length-put-le, length-keep-le,
}
use altscan.RateLimit.{
  Limiter, Entry, window_ms, max_map_size, sweep, evict, make_room, room_for_one, open_window,
  check_entry, check_rate_limit_memory, get_rate_limit_map_size,
}

-- What happens to the limiter: a request, or the cleanup timer.
pub data Event : Type 0 where
  request : (now : ℕ) (key : String) (max_requests : ℕ) → Event
  cleanup : (now : ℕ) → Event

unfoldable pub after : Event → Limiter → Bool × Limiter
unfolding check_rate_limit_memory sweep
after (request now key m) s = check_rate_limit_memory now key m s
after (cleanup now) s = (true, record s { rate_limit_map = sweep now s.rate_limit_map })

unfoldable pub after_all : List Event → Limiter → Limiter
unfolding after
after_all [] s = s
after_all (event ∷ events) s = after_all events (after event s).1

length-evict-lt : (m : List (String × Entry)) → length (evict m) < max_map_size
unfolding evict
length-evict-lt [] = omega arith
length-evict-lt (e ∷ m) = ground (arith, length-evict-lt m)

length-make_room-lt :
    (now : ℕ) (s : Limiter) → length (make_room now s).rate_limit_map < max_map_size
unfolding make_room
length-make_room-lt now s =
    ground (arith, length-evict-lt (sweep now s.rate_limit_map), length-evict-lt s.rate_limit_map)

length-room_for_one-lt :
    (now : ℕ) (s : Limiter) → length (room_for_one now s).rate_limit_map < max_map_size
unfolding room_for_one
length-room_for_one-lt now s = ground (arith, length-make_room-lt now s)

length-open_window-le :
    (now : ℕ) (key : String) (s : Limiter)
    → length (open_window now key s).rate_limit_map ≤ max_map_size
unfolding open_window
length-open_window-le now key s =
    let emptied : Limiter = record s { rate_limit_map = delete key s.rate_limit_map } in
    let roomy = room_for_one now emptied in
    omega (
      arith,
      length-room_for_one-lt now emptied,
      length-put-le key (record { count = 1; reset_at = now + window_ms }) roomy.rate_limit_map,
    )

pub length-put_old :
    (key : String) (e f : Entry) (m : List (String × Entry))
    → get key m ≡ some f
    → length (put key e m) ≡ length m
unfolding get put
length-put_old key e f [] h = ground arith
length-put_old key e f ((k, v) ∷ m) h = elim (Bool-cases (k === key)) [
  | inl same ↦ rw same (omega arith)
  | inr other ↦
      let later : get key m ≡ some f = by_other k other h in
      rw other (omega (arith, length-put_old key e f m later))
]
  where
    by_other :
        (k : String)
        → (k === key) ≡ false
        → (if k === key then some v else get key m) ≡ some f
        → get key m ≡ some f
    by_other k other h = ground arith

length-check-le :
    (now : ℕ) (key : String) (m : ℕ) (s : Limiter)
    → length s.rate_limit_map ≤ max_map_size
    → length (check_rate_limit_memory now key m s).1.rate_limit_map ≤ max_map_size
unfolding check_rate_limit_memory check_entry
length-check-le now key m s h = elim (Option-cases (get key s.rate_limit_map)) [
  | inl new ↦ rw new (length-open_window-le now key s)
  | inr (e, old) ↦ rw old (
      ground (
        arith,
        length-open_window-le now key s,
        length-put_old key (record e { count = e.count + 1 }) e s.rate_limit_map old,
      ))
]

-- However many keys send requests, in whatever order and between whichever clean-ups, the limiter
-- holds at most 10 000 windows.
pub get_rate_limit_map_size-after_all :
    (events : List Event) (s : Limiter)
    → get_rate_limit_map_size s ≤ max_map_size
    → get_rate_limit_map_size (after_all events s) ≤ max_map_size
unfolding after_all after get_rate_limit_map_size sweep
get_rate_limit_map_size-after_all [] s h = h
get_rate_limit_map_size-after_all (request now key m ∷ events) s h =
    get_rate_limit_map_size-after_all events (check_rate_limit_memory now key m s).1
      (length-check-le now key m s h)
get_rate_limit_map_size-after_all (cleanup now ∷ events) s h =
    get_rate_limit_map_size-after_all events
      (record s { rate_limit_map = sweep now s.rate_limit_map })
      (omega (arith, length-keep-le (λ _ e. not (ltb e.reset_at now)) s.rate_limit_map))
