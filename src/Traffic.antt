-- ===== src/Traffic.antt =====
-- The middleware in front of the handlers that bounds and restricts traffic: api/middleware/ratelimit.go
-- and api/middleware/origin.go.
pub mod RateLimit
pub mod Table
pub mod Origin
mod Tests
