-- ===== src/Http.antt =====
-- logcenter/http.go, roundtripper.go and bodycapture.go: requests of servers and clients.
pub mod Request
pub mod Body
pub mod Replay
pub mod Middleware
pub mod Lifetime
pub mod Served
pub mod Traced
pub mod Transport
pub mod RoundTrip
pub mod Sent
pub mod Allowed
