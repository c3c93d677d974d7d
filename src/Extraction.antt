-- ===== src/Extraction.antt =====
-- worker/financial_values.py: what the extraction of a statement reads from a printed cell, and how it
-- joins the pieces of a number that the extractor of the document's words has split.
pub mod Numbers
pub mod Patterns
pub mod Parse
pub mod Merge
mod Tests
