-- ===== src/Gateway.antt =====
-- api-gateway/src: the API gateway, a NestJS process in front of the four services.
pub mod Process
pub mod CircuitBreaker
pub mod Retry
pub mod Timeout
pub mod Fallback
pub mod Config
pub mod Proxy
pub mod Routes
pub mod Auth
pub mod Throttler
pub mod Health
pub mod Tests
