-- ===== src/Security/TieredRateLimiter.antt =====
-- `TieredRateLimiter` of src/security/rate-limiter.ts: a check asks the tiers in their order and
-- stops at the first that denies.
use sync_engine.Base.{
  ℕ, ◌≡◌, refl, ◌⊎◌, inl, inr, String, true, false, none, some, [], ◌∷◌, if◌then◌else◌, Bool-cases,
}
use sync_engine.Base.Int.{negsuc}
use sync_engine.Base.Map
use sync_engine.Base.Map.{Map}
use sync_engine.Security.RateLimiter
use sync_engine.Security.RateLimiter.{RateLimiter, RateLimitResult}

pub record TieredRateLimiter : Type 0 where
  pub tiers : Map RateLimiter

-- The last two arguments are the values of the configuration.
pub add_tier : TieredRateLimiter → String → ℕ → ℕ → ℕ → ℕ → TieredRateLimiter
unfolding RateLimiter.create RateLimiter.start
add_tier s name window_ms max_requests window max_default = record {
  tiers = Map.set s.tiers name (
      RateLimiter.start
        (RateLimiter.create (some window_ms) (some max_requests) window max_default));
}

abbrev pub allowed_result : RateLimitResult
allowed_result = record {
  allowed = true;
  remaining = negsuc 0;
  reset_at = 0;
  retry_after_ms = none;
}

-- The loop of `check` over the tiers.
pub check_tiers : Map RateLimiter → String → ℕ → Map RateLimiter × RateLimitResult
check_tiers [] key now = ([], allowed_result)
check_tiers ((name, limiter) ∷ rest) key now =
    let (limiter', result) = RateLimiter.check limiter key now in
    let later : Map RateLimiter × RateLimitResult = check_tiers rest key now in
    if result.allowed
    then ((name, limiter') ∷ later.0, later.1)
    else ((name, limiter') ∷ rest, result)

pub check : TieredRateLimiter → String → ℕ → TieredRateLimiter × RateLimitResult
unfolding check_tiers
check s key now =
    let (tiers, result) = check_tiers s.tiers key now in (record { tiers = tiers }, result)

-- `stop` of each limiter acts on objects that the cleared map no longer holds.
pub stop : TieredRateLimiter → TieredRateLimiter
stop s = record { tiers = [] }

-- Every tier allows the check, asked on its own.
abbrev pub AllAllow : Map RateLimiter → String → ℕ → Type 0
AllAllow [] key now = Unit
AllAllow ((name, limiter) ∷ rest) key now =
    ((RateLimiter.check limiter key now).1.allowed ≡ true) × AllAllow rest key now

-- The first tier that denies the check, asked on its own, answers with this result.
pub data Denies (key : String) (now : ℕ) : Map RateLimiter → RateLimitResult → Type 0 where
  here :
      (name : String) (limiter : RateLimiter) (rest : Map RateLimiter)
      → (RateLimiter.check limiter key now).1.allowed ≡ false
      → Denies key now ((name, limiter) ∷ rest) (RateLimiter.check limiter key now).1
  later :
      (name : String) (limiter : RateLimiter) {rest : Map RateLimiter} {r : RateLimitResult}
      → (RateLimiter.check limiter key now).1.allowed ≡ true
      → Denies key now rest r
      → Denies key now ((name, limiter) ∷ rest) r

-- A tier has been asked once, or not at all; once one tier was not asked, none after it was.
pub data Asked (key : String) (now : ℕ) : Map RateLimiter → Map RateLimiter → Type 0 where
  end : (m : Map RateLimiter) → Asked key now m m
  next :
      (name : String) (limiter : RateLimiter) {m m' : Map RateLimiter}
      → Asked key now m m'
      → Asked key now ((name, limiter) ∷ m) ((name, (RateLimiter.check limiter key now).0) ∷ m')

-- The check is allowed, with the result that names no limit, when each tier on its own allows it;
-- otherwise it is denied, and the answer is that of the first tier that denies. The tiers up to
-- that one have counted the check, and those after it are untouched.
pub check_tiers_cases :
    (m : Map RateLimiter) (key : String) (now : ℕ)
    → ((AllAllow m key now × ((check_tiers m key now).1 ≡ allowed_result))
        ⊎ (Denies key now m (check_tiers m key now).1
            × ((check_tiers m key now).1.allowed ≡ false)))
      × Asked key now m (check_tiers m key now).0
unfolding check_tiers
check_tiers_cases [] key now = (inl (tt, refl), end [])
check_tiers_cases ((name, limiter) ∷ rest) key now =
    let ih = check_tiers_cases rest key now in
    elim (Bool-cases (RateLimiter.check limiter key now).1.allowed) [
      | inl ok ↦ rw ok (
        elim ih.0 [ inl p ↦ inl ((refl, p.0), p.1) | inr d ↦ inr (later name limiter ok d.0, d.1) ],
        next name limiter ih.1,
      )
      | inr denied ↦
          rw denied (inr (here name limiter rest denied, denied), next name limiter (end rest))
    ]
