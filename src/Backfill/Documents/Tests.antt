-- ===== src/Backfill/Documents/Tests.antt =====
-- Documents on their way through the ledger: the theorems about them.
use Prim.Native.String.{String}
use cse_analysis.Base.{ℕ, ◌≡◌, refl, true, false, some, [], ◌∷◌, ◌⊎◌, ◌↔◌, All}
use cse_analysis.Scheduler.Schedule.{colombo_moment}
use cse_analysis.Backfill.States.{
  discovered, retry_wait, requesting, persisted, reconciled, document, promote, record_outcome,
  allowed, retrieval_failed,
}
use cse_analysis.Backfill.Documents.{
  Filing, DocumentItem, promoted, plan_item, plan_current, in_window, window_bounds,
  path_is_current, decide_promotion, is_final_document, evaluate, issuer_ready, open_filings, judge,
  current_item, retryable, live_state, disposition, download_failed, unexpected_status,
}
use cse_analysis.Backfill.Documents.Legal.{promotes, decide_promotion-promotes, live_state-allowed}
use cse_analysis.Backfill.Documents.Ready.{IsSettled, issuer_ready-final_iff}

abbrev bare : String → String
bare t = t

abbrev double : ℕ → ℕ
double p = p

abbrev days : ℕ × ℕ
days = (738158, 738188)

abbrev noon : ℕ
noon = 63777000000000000

abbrev filing : Filing
filing = record { cse_filing_id = 7; path = some 44; uploaded_at = some noon; issuer_id = some 3 }

abbrev item : DocumentItem
item = record {
  filing = 7;
  path_sha256 = some 44;
  state = reconciled;
  path = some 44;
  uploaded_at = some noon;
}

abbrev new_item : DocumentItem
new_item = record item { state = discovered }

it_is_in : in_window (some noon) days ≡ true
unfolding in_window window_bounds colombo_moment
it_is_in = refl

it_is_persisted :
    plan_item double days true new_item
    ≡ promoted persisted promote "evidence: an F5 run of this document under the armed versions"
unfolding plan_item in_window window_bounds colombo_moment path_is_current plan_current
it_is_persisted = refl

a_limit_is_retried :
    disposition
      (record {
        outcome = download_failed;
        category = unexpected_status;
        consumer_succeeded = false;
        cleanup_deleted = true;
        cleanup_status_failed = false;
        http_status = some 429;
      })
      false
    ≡ retryable
unfolding disposition
a_limit_is_retried = refl

decide_promotion-promotes_example :
    promotes persisted (decide_promotion persisted true true true) ≡ true
decide_promotion-promotes_example = decide_promotion-promotes persisted true true true refl

live_state-allowed_example :
    (allowed document (some requesting) retry_wait record_outcome ≡ true)
    × ((retry_wait ≡ retry_wait) ⊎ (retry_wait ≡ retrieval_failed))
unfolding live_state
live_state-allowed_example = live_state-allowed retryable 1 3 retry_wait refl

its_issuer_is_ready : issuer_ready (evaluate double (filing ∷ []) (item ∷ []) days) 3 ≡ true
unfolding issuer_ready evaluate open_filings judge current_item is_final_document in_window
    window_bounds colombo_moment
its_issuer_is_ready = refl

issuer_ready-final_iff_example :
    (issuer_ready (evaluate double (filing ∷ []) (item ∷ []) days) 3 ≡ true)
    ↔ All (IsSettled double (item ∷ []) days 3) (filing ∷ [])
issuer_ready-final_iff_example = issuer_ready-final_iff double (filing ∷ []) (item ∷ []) days 3
