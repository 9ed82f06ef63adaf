-- ===== src/Guardrails.antt =====
-- src/guardrails/: what stands between a recommendation and an e-mail that is sent by itself.
pub mod KillSwitch
pub mod SendCaps
pub mod Blocklist
pub mod Rollback
