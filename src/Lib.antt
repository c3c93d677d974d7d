-- ===== src/Lib.antt =====
-- Verification of the worker of the CSE financial intelligence platform (worker/).
--
-- The program collects the daily market data and the financial reports that the Colombo Stock
-- Exchange publishes, and concludes from the reports what a company's figures are. A scheduler decides
-- which trading dates are captured and when. A capture makes its requests under a fixed discipline,
-- with a minimum distance between requests, bounded retries and a circuit breaker. A backfill works
-- through items of past documents, each of which moves by a table of transitions, and its slices
-- start and make requests only through release gates that leave room for the daily capture. From the
-- values that the documents report, read from printed cells and admitted by rules, one observation is
-- made per document and fact; the observations
-- of one fact are reconciled into a state, an interval and a representative. An as-of query looks only
-- at what had been recorded by its horizon and was available by its cutoff, and drops the observations
-- that a later version of a document supersedes.
--
-- The files, and the code that each models:
--   Base                  tests, lists, sorting and integers that the other parts share
--   Backfill.States       worker/financial_backfill/states.py (`TRANSITIONS`, `allowed`, `check`, the
--                         sets of states); States.Rules and States.History hold the theorems on rows
--                         and on histories of checked events
--   Backfill.Documents    the documents' work items: `plan_documents` and `first_state` of
--                         worker/backfill_documents/planning.py, `disposition` and `live_state` of
--                         outcomes.py, `decide` of worker/backfill_f6/promotion.py and `evaluate` of
--                         readiness.py
--   Scheduler.Schedule    worker/scheduler/schedule.py (`colombo_date`, `candidate_dates`, `due_at`,
--                         `next_attempt_at`, `ScheduleSettings.validate`)
--   Scheduler.Planner     worker/scheduler/planner.py (`evidence`, `capture_attempts`, `decide`,
--                         `resume_request_estimate`);
--                         Planner.Story holds the theorem on the history of one item
--   Scheduler.Wakeup      worker/scheduler/wakeup.py: `_discover` over the rows of store.py, and in
--                         Wakeup.Reconcile `_sync` and `_reconcile`, in Wakeup.Actions
--                         `_capture_one` and `run`; the interface `P2` stands for what
--                         worker/market_capture answers
--   Capture.Http          worker/market_capture/http.py (`Throttle`, `classify`, `Requester._attempt`,
--                         `Requester.fetch`) and `RequestPolicy.backoff` of market_capture/config.py
--   Capture.Completeness  `_expected`, `_derived` and `decide_state` of market_capture/completeness.py
--   Transport.Classify    worker/backfill_transport/classify.py (`classify_json`, `classify_cdn`,
--                         `outcome_class`)
--   Transport.Gates       worker/backfill_transport/gates.py (`BudgetView`, `p3_reserve`,
--                         `quiet_window`, `start_refusals`, `request_refusals`)
--   Transport.Throttle    worker/backfill_transport/throttle.py (`seed_seconds`, `SliceThrottle`)
--   Transport.Requester   `request` of worker/backfill_transport/requester.py, with the counters of
--                         slice.py
--   Extraction            worker/financial_values.py (`parse_value`, `looks_numeric`, `is_fragment`,
--                         `merge_numeric_fragments`), on the word of worker/pdf_words.py: its
--                         patterns are functions on the characters of a text
--   Truth.Values          `compare_values` of worker/financial_validation.py, and `compare_members`,
--                         `finest`, `interval` of worker/financial_truth/observations.py
--   Truth.Observations    `observation` of the same file
--   Truth.Selection       `select_runs` and `ReconciliationConfiguration.refusal` of
--                         worker/financial_truth/reconciliation.py
--   Truth.Partition       worker/financial_truth/op1.py (`_term`, `_record`, `evaluate`,
--                         `operations_decision`)
--   Truth.Identity        the checks of `EconomicFactIdentity` (financial_truth/identity.py)
--   Truth.Admission       `admit` of worker/financial_truth/admission.py
--   Truth.Reconcile       `reconcile_fact` of worker/financial_truth/reconciliation.py
--   AsOf.Supersession     worker/financial_asof/supersession.py (`s1`, `s2`, `s3`, `bases`, `derive`),
--                         and the step of `_recomputed` (financial_asof/selection.py) that drops
--   AsOf.Configuration    worker/financial_asof/config.py (`in_force`, `resolve`)
--   AsOf.Availability     worker/financial_asof/availability.py (`filing_availability`,
--                         `version_availability`, `document_availability`) and times.py
--   AsOf.Knowledge        worker/financial_asof/knowledge.py (`known_at`)
--   AsOf.Visible          what a query may look at: worker/financial_asof/selection.py (step 1 of
--                         `_recomputed`, `canonical_validation_run`)
--   AsOf.Query            worker/financial_asof/query.py (`query`, `Query.governing_horizon`,
--                         `Query.with_cutoff`) and pit.py (`require_point_in_time`,
--                         `require_live`, `dataset`, `timeline`)
-- The theorems of a part stand in its child modules, tests and examples in its Tests module.
--
-- How the model stands to the code. A record or data type has the fields or cases that the
-- modelled operations read; an exception is a case of a result, or `none`. Identifiers that the
-- code only compares (keys, hashes, hosts, filings) are natural numbers. Dates are ordinals,
-- local times and moments are microseconds, and times in Capture.Http are in any fine unit.
-- Decimals are integers at one scale, as the code's decimal context traps every inexact result; a
-- printed value is its coefficient with its decimals. A loop over a sequence is structural
-- recursion: `candidate_dates` and `fetch` recurse on the number of rounds that Python's loop
-- makes, and `merge_numeric_fragments` on the number of words, of which each of its rounds takes
-- one at least, so no fuel can run out. What is not the code's own is a parameter: in
-- States.History the stripping of a text, in Capture.Http and Transport.Requester the world that
-- answers a request, in Scheduler.Wakeup the archive and the answers of P2, in Backfill.Documents
-- the digest and the acceptance of a path, in AsOf.Query the evaluation of a query, in
-- Truth.Identity the tables of concepts and the test of a currency code, and in AsOf.Visible the
-- merged metadata of a filing.
--
-- Not modelled: the stores and loaders over PostgreSQL, the preflights that compare a database with
-- the expected schema, command lines and reports, the extraction of words and tables from documents,
-- the network session and the spool on disk, and the annotations, hashes and messages that results
-- carry along but no modelled operation reads.
pub mod Base
pub mod Backfill
pub mod Scheduler
pub mod Truth
pub mod AsOf
pub mod Capture
pub mod Extraction
pub mod Transport
