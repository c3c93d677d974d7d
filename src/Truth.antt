-- ===== src/Truth.antt =====
-- worker/financial_truth and the V8 comparison of worker/financial_validation.py: what F6 concludes
-- about one economic fact from the source observations of several documents.
pub mod Values
pub mod Observations
pub mod Reconcile
pub mod Selection
pub mod Partition
pub mod Identity
pub mod Admission
mod Tests
