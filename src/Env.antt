-- ===== src/Env.antt =====
-- logcenter/env.go: the configuration from the environment.
pub mod Defs
pub mod Failing
pub mod Items
