-- ===== src/Session.antt =====
-- internal/session: what stands between a transport and the world: the telnet decoder (telnet.go)
-- and the command allowance (quota.go).
pub mod Telnet
pub mod Quota
mod Tests
