-- ===== src/Security/Tests.antt =====
-- Runs of the limiters of src/security/rate-limiter.ts.
use sync_engine.Base.{ℕ, ◌+◌, ◌≡◌, ◌≤◌, inl, refl, true, some, List, [], ◌∷◌, arith, min, length}
use sync_engine.Base.Map
use sync_engine.Base.Map.{Map}
use sync_engine.Security.RateLimiter
use sync_engine.Security.RateLimiter.{RateLimiter, RateLimitEntry, check, cleanup}
use sync_engine.Security.RateLimiter.Window.{run_checks, granted_per_window}
use sync_engine.Security.RateLimiter.Cleanup
use sync_engine.Security.RateLimiter.Cleanup.{check-cleanup}

-- Two requests in ten milliseconds; "b" has used one of its own.
abbrev two_per_ten : RateLimiter
two_per_ten = record {
  limits = ("b", record { count = 1; reset_at = 12 }) ∷ [];
  window_ms = 10;
  max_requests = 2;
  ticking = true;
  blocked = 0;
  allowed = 1;
}

abbrev times : List ℕ
times = 5 ∷ 6 ∷ 7 ∷ []

third_denied : (run_checks two_per_ten "a" (5 ∷ 6 ∷ 7 ∷ 15 ∷ [])).1 ≡ 3
unfolding run_checks check RateLimiter.current RateLimiter.decide Map.get Map.set
third_denied = refl

granted_per_window_example : (run_checks two_per_ten "a" times).1 ≡ min (length times) 2
unfolding Map.get
granted_per_window_example =
    granted_per_window two_per_ten "a" 5 (6 ∷ 7 ∷ []) (inl refl) (omega arith, (omega arith, tt))

b_in_reach : (e : RateLimitEntry) → Map.get two_per_ten.limits "b" ≡ some e → e.reset_at ≤ 6 + 10
unfolding Map.get
b_in_reach e h = ground arith

valid : Cleanup.IsValid two_per_ten
unfolding Cleanup.IsValid Map.Distinct Map.get
valid = (refl, tt)

-- The second tier has no request left for "b".
abbrev tiers : Map RateLimiter
tiers = ("burst", two_per_ten) ∷ ("total", record two_per_ten { max_requests = 1 }) ∷ []
