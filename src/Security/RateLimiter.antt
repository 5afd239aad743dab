-- ===== src/Security/RateLimiter.antt =====
-- `RateLimiter` of src/security/rate-limiter.ts. The clock is an argument of each call.
pub mod Window
pub mod Cleanup
use sync_engine.Base.{
  ℕ, ◌+◌, ◌-◌, String, Bool, true, false, Option, none, some, [], leb, ltb, ◌==◌, if◌then◌else◌,
}
use sync_engine.Base.Int.{ℤ, pos}
use sync_engine.Base.Map
use sync_engine.Base.Map.{Map}

pub record RateLimitEntry : Type 0 where
  pub count : ℕ
  pub reset_at : ℕ

pub record RateLimitResult : Type 0 where
  pub allowed : Bool
  pub remaining : ℤ
  pub reset_at : ℕ
  pub retry_after_ms : Option ℕ

-- `ticking` says whether `cleanupInterval` is set.
pub record RateLimiter : Type 0 where
  pub limits : Map RateLimitEntry
  pub window_ms : ℕ
  pub max_requests : ℕ
  pub ticking : Bool
  pub blocked : ℕ
  pub allowed : ℕ

-- `n || d`
abbrev pub or_config : Option ℕ → ℕ → ℕ
or_config none d = d
or_config (some n) d = if n == 0 then d else n

-- The last two arguments are the values of the configuration.
unfoldable pub create : Option ℕ → Option ℕ → ℕ → ℕ → RateLimiter
create window_ms max_requests window max_default = record {
  limits = [];
  window_ms = or_config window_ms window;
  max_requests = or_config max_requests max_default;
  ticking = false;
  blocked = 0;
  allowed = 0;
}

unfoldable pub start : RateLimiter → RateLimiter
start l = record l { ticking = true }

unfoldable pub stop : RateLimiter → RateLimiter
stop l = record l { ticking = false; limits = [] }

-- The entry that a check counts on: the stored one, unless there is none or its window is over.
unfoldable pub current : RateLimiter → String → ℕ → RateLimitEntry
current l key now = elim (Map.get l.limits key) [
  | none ↦ record { count = 0; reset_at = now + l.window_ms }
  | some e ↦ if leb e.reset_at now then record { count = 0; reset_at = now + l.window_ms } else e
]

-- The part of `check` after the entry is found; its count has been raised.
unfoldable pub decide : RateLimiter → ℕ → RateLimitEntry → RateLimiter × RateLimitResult
decide l now e =
    if ltb l.max_requests e.count
    then (
      record l { blocked = l.blocked + 1 },
      record {
        allowed = false;
        remaining = pos 0;
        reset_at = e.reset_at;
        retry_after_ms = some (e.reset_at - now);
      },
    )
    else (
      record l { allowed = l.allowed + 1 },
      record {
        allowed = true;
        remaining = pos (l.max_requests - e.count);
        reset_at = e.reset_at;
        retry_after_ms = none;
      },
    )

unfoldable pub check : RateLimiter → String → ℕ → RateLimiter × RateLimitResult
unfolding current decide
check l key now =
    let e = current l key now in
    let e' : RateLimitEntry = record e { count = e.count + 1 } in
    decide (record l { limits = Map.set l.limits key e' }) now e'

unfoldable pub reset : RateLimiter → String → RateLimiter
reset l key = record l { limits = Map.delete l.limits key }

-- An entry whose window has not passed.
abbrev pub is_live : ℕ → String → RateLimitEntry → Bool
is_live now key e = ltb now e.reset_at

unfoldable pub cleanup : RateLimiter → ℕ → RateLimiter
cleanup l now = record l { limits = Map.keep_if (is_live now) l.limits }

pub record Stats : Type 0 where
  pub tracked_keys : ℕ
  pub blocked : ℕ
  pub allowed : ℕ

abbrev pub get_stats : RateLimiter → Stats
get_stats l = record { tracked_keys = Map.size l.limits; blocked = l.blocked; allowed = l.allowed }
