-- ===== src/Status.antt =====
-- src/status: the request sampling behind /status.
pub mod Report
pub mod Minutes
pub mod Sample
