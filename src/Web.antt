-- ===== src/Web.antt =====
-- The webhook side of the program, web/: what is received, where it is routed, and the cooldown.
pub mod Json
pub mod Dispatch
pub mod Event
pub mod Cooldown
pub mod Webhook
