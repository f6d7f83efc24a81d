-- ===== src/RateLimit/Tests.antt =====
-- The theorems of packages/explorer-core/src/rate-limit.ts on a few requests.
use altscan.Prelude.{◌≡◌, ◌≤◌, refl, List, [], ◌∷◌, arith, min, get}
use altscan.RateLimit.{empty_limiter, get_rate_limit_map_size, max_map_size}
use altscan.RateLimit.Size.{Event, request, cleanup, after_all, get_rate_limit_map_size-after_all}
use altscan.RateLimit.Windows.{admitted, requests_of, admitted-one_window}

abbrev requests : List Event
requests = request 5 "a" 2 ∷ request 6 "b" 2 ∷ cleanup 7 ∷ request 60_001 "a" 2 ∷ []

get_rate_limit_map_size-after_all_example :
    get_rate_limit_map_size (after_all requests empty_limiter) ≤ max_map_size
unfolding get_rate_limit_map_size empty_limiter
get_rate_limit_map_size-after_all_example =
    get_rate_limit_map_size-after_all requests empty_limiter (omega arith)

admitted-one_window_example :
    admitted "a" (request 1 "a" 2 ∷ requests) empty_limiter
    ≡ min 2 (requests_of "a" (request 1 "a" 2 ∷ requests))
unfolding get empty_limiter
admitted-one_window_example =
    admitted-one_window "a" 2 1 requests empty_limiter (omega arith) tt
      (
        (omega arith, λ e. refl),
        ((omega arith, λ e. refl), (omega arith, ((omega arith, λ e. refl), tt))),
      )
      (omega arith)
