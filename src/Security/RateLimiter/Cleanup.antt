-- ===== src/Security/RateLimiter/Cleanup.antt =====
-- The periodic cleanup cannot be observed.
use sync_engine.Base.{ℕ, ◌+◌, ◌≤◌, ◌≡◌, sym, ◌∙◌, String, some, arith}
use sync_engine.Base.Map
use sync_engine.Base.Map.Laws.{get-set_self, get-keep_if, Distinct-set}
use sync_engine.Security.RateLimiter.{
  RateLimitEntry, RateLimiter, current, decide, check, cleanup, is_live,
}

-- The map of entries never holds a key twice.
unfoldable pub IsValid : RateLimiter → Type 0
IsValid l = Map.Distinct l.limits

pub check-IsValid :
    (l : RateLimiter) (key : String) (now : ℕ) → IsValid l → IsValid (check l key now).0
unfolding check IsValid
check-IsValid l key now v = ground (
  arith,
  Distinct-set l.limits key
      (record { count = (current l key now).count + 1; reset_at = (current l key now).reset_at }) v,
)

pub current-cleanup :
    (l : RateLimiter) (key : String) (t now : ℕ)
    → IsValid l
    → t ≤ now
    → current (cleanup l t) key now ≡ current l key now
unfolding current cleanup IsValid
current-cleanup l key t now v h = ground (arith, get-keep_if (is_live t) l.limits key v)

abbrev raised : RateLimitEntry → RateLimitEntry
raised e = record e { count = e.count + 1 }

check-current :
    (l : RateLimiter) (key : String) (now : ℕ)
    → ((check l key now).1 ≡ (decide l now (raised (current l key now))).1)
      × (Map.get (check l key now).0.limits key ≡ some (raised (current l key now)))
unfolding check
check-current l key now = ground (arith, get-set_self l.limits key (raised (current l key now)))

decide-cleanup :
    (l : RateLimiter) (t now : ℕ) (e : RateLimitEntry)
    → (decide (cleanup l t) now e).1 ≡ (decide l now e).1
unfolding decide cleanup
decide-cleanup l t now e = ground arith

-- When no key has two entries, whether and when the cleanup has run makes no difference to the answer to any later check, nor to
-- the entry that it leaves for the key.
pub check-cleanup :
    (l : RateLimiter) (key : String) (t now : ℕ)
    → IsValid l
    → t ≤ now
    → ((check (cleanup l t) key now).1 ≡ (check l key now).1)
      × (Map.get (check (cleanup l t) key now).0.limits key
          ≡ Map.get (check l key now).0.limits key)
check-cleanup l key t now v h =
    let same = current-cleanup l key t now v h in
    (
      (check-current (cleanup l t) key now).0
          ∙ rw same (decide-cleanup l t now _)
          ∙ sym (check-current l key now).0,
      (check-current (cleanup l t) key now).1 ∙ rw same (sym (check-current l key now).1),
    )
