-- ===== src/Capture.antt =====
-- worker/market_capture: the requests that a capture run makes to the exchange's public interface, and
-- the state that the run ends in.
pub mod Http
pub mod Completeness
