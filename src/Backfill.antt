-- ===== src/Backfill.antt =====
-- worker/financial_backfill, worker/backfill_documents and worker/backfill_f6: the governed backfill
-- ledger, and what moves a document's work item through it.
pub mod States
pub mod Documents
