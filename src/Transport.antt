-- ===== src/Transport.antt =====
-- worker/backfill_transport: the governed requests of the historical backfill.
pub mod Gates
pub mod Throttle
pub mod Requester
pub mod Classify
