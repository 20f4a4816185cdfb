-- ===== src/Gateway.antt =====
-- services/gateway-service: the limits on the rate of requests.
pub mod Limiter
pub mod Tests
