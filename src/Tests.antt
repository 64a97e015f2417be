-- ===== src/Tests.antt =====
-- Tests: the code on concrete inputs.
mod Data
mod Buffer
mod Values
mod Files
mod Clients
mod Runs
mod Logs
pub mod Requests
mod Http
