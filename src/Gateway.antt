-- ===== src/Gateway.antt =====
-- aisecure/gateway.py and aisecure/safety.py: the managed text gateway.
pub mod Safety
pub mod Evidence
pub mod Label
pub mod Send
pub mod Allowed
