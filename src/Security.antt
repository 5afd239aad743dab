-- ===== src/Security.antt =====
-- src/security: the rate limiters and the authentication service.
pub mod RateLimiter
pub mod TieredRateLimiter
pub mod AuthService
mod Tests
