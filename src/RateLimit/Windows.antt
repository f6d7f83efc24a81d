-- ===== src/RateLimit/Windows.antt =====
-- What the in-memory limiter of packages/explorer-core/src/rate-limit.ts admits in a window.
use altscan.Prelude.{
  ℕ, ◌+◌, ◌-◌, ◌≤◌, ◌<◌, min, ◌≡◌, refl, ◌∙◌, subst, inl, inr, Bool, true, false, not, List, [],
  ◌∷◌, Option, none, some, String, arith, ltb, leb, ◌===◌, string_eq, if◌then◌else◌, Bool-cases,
  Option-cases, length, All, get, put, keep, delete, get-put_self, get-delete, length-put-le,
  length-keep-le, length-delete-le, get-put_other,
}
use altscan.RateLimit.{
  Limiter, Entry, window_ms, max_map_size, sweep, room_for_one, open_window, check_entry,
  check_rate_limit_memory,
}
use altscan.RateLimit.Size.{Event, request, cleanup, after, length-put_old}

abbrev pub is_for : String → Event → Bool
is_for key (request now k m) = k === key
is_for key (cleanup now) = false

-- How many requests of a key are admitted.
unfoldable pub admitted : String → List Event → Limiter → ℕ
unfolding after
admitted key [] s = 0
admitted key (event ∷ events) s =
    let more = admitted key events (after event s).1 in
    if is_for key event then (if (after event s).0 then more + 1 else more) else more

pub requests_of : String → List Event → ℕ
requests_of key [] = 0
requests_of key (event ∷ events) =
    let more = requests_of key events in if is_for key event then more + 1 else more

length-sweep-le : (now : ℕ) (m : List (String × Entry)) → length (sweep now m) ≤ length m
unfolding sweep
length-sweep-le now m = length-keep-le (λ _ e. not (ltb e.reset_at now)) m

get-sweep :
    (now : ℕ) (key : String) (e : Entry) (m : List (String × Entry))
    → now ≤ e.reset_at
    → get key m ≡ some e
    → get key (sweep now m) ≡ some e
unfolding sweep get keep
get-sweep now key e [] live h = ground arith
get-sweep now key e ((k, v) ∷ m) live h = ground (arith, get-sweep now key e m live)

below_cap :
    (m : List (String × Entry)) (s : Limiter)
    → length m ≤ length s.rate_limit_map
    → length s.rate_limit_map < max_map_size
    → leb max_map_size (length m) ≡ false
below_cap m s h room = ground arith

-- While there is room, a new window of another key leaves the window of `key` as it is.
get-open_window_other :
    (now : ℕ) (key k : String) (s : Limiter)
    → (k === key) ≡ false
    → length s.rate_limit_map < max_map_size
    → (get key (open_window now k s).rate_limit_map ≡ get key s.rate_limit_map)
      × (length (open_window now k s).rate_limit_map ≤ length s.rate_limit_map + 1)
unfolding open_window room_for_one
get-open_window_other now key k s other room =
    let fresh : Entry = record { count = 1; reset_at = now + window_ms } in
    let emptied = delete k s.rate_limit_map in
    let small : leb max_map_size (length emptied) ≡ false =
      below_cap emptied s (length-delete-le k s.rate_limit_map) room in
    rw small (
      (get-put_other key k fresh emptied other ∙ kept),
      omega (arith, length-put-le k fresh emptied, length-delete-le k s.rate_limit_map),
    )
  where
    kept : get key (delete k s.rate_limit_map) ≡ get key s.rate_limit_map
    kept =
        rw (get-delete k key s.rate_limit_map)
          (ground (arith, string_eq.beq_iff k key, string_eq.beq_iff key k))

get-check_other :
    (now : ℕ) (key k : String) (m : ℕ) (s : Limiter)
    → (k === key) ≡ false
    → length s.rate_limit_map < max_map_size
    → (get key (check_rate_limit_memory now k m s).1.rate_limit_map ≡ get key s.rate_limit_map)
      × (length (check_rate_limit_memory now k m s).1.rate_limit_map ≤ length s.rate_limit_map + 1)
unfolding check_rate_limit_memory check_entry
get-check_other now key k m s other room = elim (Option-cases (get k s.rate_limit_map)) [
  | inl new ↦ rw new (get-open_window_other now key k s other room)
  | inr (e, old) ↦ rw old (
      let counted : Entry = record e { count = e.count + 1 } in
      ground (
        arith,
        get-open_window_other now key k s other room,
        get-put_other key k counted s.rate_limit_map other,
        length-put_old k counted e s.rate_limit_map old,
      ))
]

-- A request of a key whose window is live.
check-live :
    (now : ℕ) (key : String) (m : ℕ) (s : Limiter) (e : Entry)
    → get key s.rate_limit_map ≡ some e
    → now ≤ e.reset_at
    → check_rate_limit_memory now key m s ≡ (
        if leb m e.count then (false, s) else (
          true,
          record s { rate_limit_map = put key (record e { count = e.count + 1 }) s.rate_limit_map },
        ))
unfolding check_rate_limit_memory check_entry
check-live now key m s e old live = rw old (ground arith)

abbrev found : Option Entry → List Entry
found none = []
found (some e) = e ∷ []

-- A stretch of one window of `key`: nothing in it is later than the window's end, and every request
-- of the key comes with the same limit.
abbrev pub InWindow : (key : String) (max_requests reset_at : ℕ) → Event → Type 0
InWindow key m reset_at (request now k limit) = (now ≤ reset_at) × (k ≡ key → limit ≡ m)
InWindow key m reset_at (cleanup now) = now ≤ reset_at

admitted-live :
    (key : String) (m : ℕ) (events : List Event) (s : Limiter) (e : Entry)
    → get key s.rate_limit_map ≡ some e
    → All (InWindow key m e.reset_at) events
    → length s.rate_limit_map + length events < max_map_size
    → admitted key events s ≡ min (m - e.count) (requests_of key events)
unfolding admitted requests_of after
admitted-live key m [] s e old all room = omega arith
admitted-live key m (cleanup now ∷ events) s e old (live, all) room =
    admitted-live key m events (record s { rate_limit_map = sweep now s.rate_limit_map }) e
      (get-sweep now key e s.rate_limit_map live old) all
      (swept (length-sweep-le now s.rate_limit_map))
  where
    swept :
        length (sweep now s.rate_limit_map) ≤ length s.rate_limit_map
        → length (sweep now s.rate_limit_map) + length events < max_map_size
    swept h = omega arith
admitted-live key m (request now k limit ∷ events) s e old ((live, same), all) room =
    elim (Bool-cases (k === key)) [
      | inr other ↦
          let kept = get-check_other now key k limit s other (omega arith) in
          rw other (
            admitted-live key m events (check_rate_limit_memory now k limit s).1 e (kept.0 ∙ old)
              all (omega (arith, kept.1)))
      | inl own ↦
          let is_key : k ≡ key = (string_eq.beq_iff k key).0 own in
          let is_m : limit ≡ m = same is_key in
          rw (own, is_key, is_m, check-live now key m s e old live)
            (elim (Bool-cases (leb m e.count)) [
              | inl full ↦ rw full (
                  let more = admitted-live key m events s e old all (omega arith) in
                  ground (arith, more))
              | inr below ↦ rw below (
                  let counted : Entry = record e { count = e.count + 1 } in
                  let grown : Limiter = record s {
                    rate_limit_map = put key counted s.rate_limit_map;
                  } in
                  let more =
                    admitted-live key m events grown counted
                      (get-put_self key counted s.rate_limit_map) all
                      (omega (arith, length-put_old key counted e s.rate_limit_map old)) in
                  ground (arith, more))
            ])
    ]

-- A request that opens a window of `key`: there is none, or it has expired.
opens :
    (now : ℕ) (key : String) (m : ℕ) (s : Limiter)
    → All (λ e. e.reset_at < now) (found (get key s.rate_limit_map))
    → check_rate_limit_memory now key m s ≡ (true, open_window now key s)
unfolding check_rate_limit_memory check_entry
opens now key m s expired = elim (Option-cases (get key s.rate_limit_map)) [
  | inl new ↦ rw new
  | inr (e, old) ↦
      let past : e.reset_at < now =
        (subst (λ o. All (λ e. e.reset_at < now) (found o)) old expired).0 in
      rw old (ground arith)
]

get-open_window :
    (now : ℕ) (key : String) (s : Limiter)
    → length s.rate_limit_map < max_map_size
    → (get key (open_window now key s).rate_limit_map
        ≡ some (record { count = 1; reset_at = now + window_ms }))
      × (length (open_window now key s).rate_limit_map ≤ length s.rate_limit_map + 1)
unfolding open_window room_for_one
get-open_window now key s room =
    let fresh : Entry = record { count = 1; reset_at = now + window_ms } in
    let emptied = delete key s.rate_limit_map in
    let small : leb max_map_size (length emptied) ≡ false =
      below_cap emptied s (length-delete-le key s.rate_limit_map) room in
    rw small (
      get-put_self key fresh emptied,
      omega (arith, length-put-le key fresh emptied, length-delete-le key s.rate_limit_map),
    )

-- From a request that opens a window of a key, to the end of that window, the key has exactly as many
-- requests admitted as it sends, up to its limit, whatever other keys do meanwhile. It is assumed
-- that the limit is at least 1, and that the map has room for one window more at each step.
pub admitted-one_window :
    (key : String) (m now : ℕ) (events : List Event) (s : Limiter)
    → 1 ≤ m
    → All (λ e. e.reset_at < now) (found (get key s.rate_limit_map))
    → All (InWindow key m (now + window_ms)) events
    → length s.rate_limit_map + 1 + length events < max_map_size
    → admitted key (request now key m ∷ events) s
      ≡ min m (requests_of key (request now key m ∷ events))
unfolding admitted requests_of after
admitted-one_window key m now events s some_allowed expired all room =
    let fresh : Entry = record { count = 1; reset_at = now + window_ms } in
    let window = get-open_window now key s (omega arith) in
    let more =
      admitted-live key m events (open_window now key s) fresh window.0 all
        (omega (arith, window.1)) in
    rw (opens now key m s expired, (string_eq.beq_iff key key).1 refl, more) (omega arith)
