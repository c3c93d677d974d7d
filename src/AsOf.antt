-- ===== src/AsOf.antt =====
-- worker/financial_asof: what a query at a time sees of the facts.
pub mod Supersession
pub mod Configuration
pub mod Availability
pub mod Knowledge
pub mod Visible
pub mod Query
