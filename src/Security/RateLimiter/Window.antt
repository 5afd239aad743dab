-- ===== src/Security/RateLimiter/Window.antt =====
-- What a limiter grants within one window, and what a check leaves alone.
use sync_engine.Base.{
  ℕ, ◌+◌, ◌-◌, ◌≤◌, ◌<◌, ◌≡◌, ◌≢◌, ◌⊎◌, inl, inr, String, none, some, List, [], ◌∷◌, arith, ltb,
  min, length, All, eq_iff, if◌then◌else◌, Option-cases,
}
use sync_engine.Base.Map
use sync_engine.Base.Map.Laws.{get-set, get-set_self}
use sync_engine.Security.RateLimiter.{RateLimitEntry, RateLimiter, current, check}

-- A run of checks of one key at the given times, with the number of those that are allowed.
unfoldable pub run_checks : RateLimiter → String → List ℕ → RateLimiter × ℕ
run_checks l key [] = (l, 0)
run_checks l key (t ∷ ts) =
    let (l', r) = check l key t in
    let (l'', n) = run_checks l' key ts in (l'', (if r.allowed then 1 else 0) + n)

-- A check within the stored window raises that entry's count, and answers by it.
pub check_in_window :
    (l : RateLimiter) (key : String) (now : ℕ) (e : RateLimitEntry)
    → Map.get l.limits key ≡ some e
    → now < e.reset_at
    → let (l', r) = check l key now in
      (Map.get l'.limits key ≡ some (record e { count = e.count + 1 }))
      × (l'.max_requests ≡ l.max_requests)
      × (r.allowed ≡ ltb e.count l.max_requests)
unfolding check
check_in_window l key now e h lt =
    ground (arith, get-set_self l.limits key (record e { count = e.count + 1 }))

run_in_window :
    (l : RateLimiter) (key : String) (e : RateLimitEntry) (ts : List ℕ)
    → Map.get l.limits key ≡ some e
    → All (λ t. t < e.reset_at) ts
    → (run_checks l key ts).1 ≡ min (length ts) (l.max_requests - e.count)
unfolding run_checks
run_in_window l key e [] h b = omega arith
run_in_window l key e (t ∷ ts) h b =
    let step = check_in_window l key t e h b.0 in
    ground (
      arith,
      step,
      run_in_window (check l key t).0 key (record e { count = e.count + 1 }) ts step.0 b.1,
    )

-- No window is running for the key at the time.
abbrev pub IsOpening : RateLimiter → String → ℕ → Type 0
IsOpening l key now =
    (Map.get l.limits key ≡ none)
    ⊎ ((e : RateLimitEntry) × (Map.get l.limits key ≡ some e) × (e.reset_at ≤ now))

pub check_opening :
    (l : RateLimiter) (key : String) (now : ℕ)
    → IsOpening l key now
    → let (l', r) = check l key now in
      (Map.get l'.limits key ≡ some (record { count = 1; reset_at = now + l.window_ms }))
      × (l'.max_requests ≡ l.max_requests)
      × (r.allowed ≡ ltb 0 l.max_requests)
unfolding check
check_opening l key now (inl h) =
    ground (arith, get-set_self l.limits key (record { count = 1; reset_at = now + l.window_ms }))
check_opening l key now (inr (e, h, b)) =
    ground (arith, get-set_self l.limits key (record { count = 1; reset_at = now + l.window_ms }))

-- Of the checks of one key from the one that opens a window on, all made before that window ends,
-- exactly the first `maxRequests` are allowed, or all if there are fewer.
pub granted_per_window :
    (l : RateLimiter) (key : String) (t : ℕ) (ts : List ℕ)
    → IsOpening l key t
    → All (λ u. u < t + l.window_ms) ts
    → (run_checks l key (t ∷ ts)).1 ≡ min (length (t ∷ ts)) l.max_requests
unfolding run_checks
granted_per_window l key t ts o b =
    let step = check_opening l key t o in
    ground (
      arith,
      step,
      run_in_window (check l key t).0 key (record { count = 1; reset_at = t + l.window_ms }) ts
          step.0 b,
    )

-- Where the stored window of the key, if there is one, ends at most one window from now: a check of one key counts once, as allowed or as blocked, by what it answers; an answer that
-- denies names a wait of at most one window that ends when the window does; and the entries of the
-- other keys stay as they were.
pub check_effects :
    (l : RateLimiter) (key : String) (now : ℕ)
    → ((e : RateLimitEntry) → Map.get l.limits key ≡ some e → e.reset_at ≤ now + l.window_ms)
    → let (l', r) = check l key now in
      (l'.allowed ≡ (if r.allowed then l.allowed + 1 else l.allowed))
      × (l'.blocked ≡ (if r.allowed then l.blocked else l.blocked + 1))
      × ((w : ℕ) → r.retry_after_ms ≡ some w → (now + w ≡ r.reset_at) × (w ≤ l.window_ms))
      × ((j : String) → key ≢ j → Map.get l'.limits j ≡ Map.get l.limits j)
unfolding check
check_effects l key now h = (
  ground arith,
  ground arith,
  λ w p. elim (Option-cases (Map.get l.limits key)) [
    | inl e ↦ ground arith
    | inr (x, e) ↦ ground (arith, h x)
  ],
  λ j ne. ground (
    arith,
    eq_iff key j,
    get-set l.limits key j
        (record { count = (current l key now).count + 1; reset_at = (current l key now).reset_at }),
  ),
)
