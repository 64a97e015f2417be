-- ===== src/Exchange.antt =====
-- logcenter/external_provider_exchange.go: exchanges with other systems.
pub mod Defs
pub mod Carried
pub mod Omitted
pub mod Outcome
