-- ===== src/Transport/Classify/Tests.antt =====
-- An answer of the feed, and one of the CDN: the theorems about them.
use cse_analysis.Base.{◌≡◌, refl, false, none, some}
use cse_analysis.Capture.Http.{Exchange, json_ok}
use cse_analysis.Transport.Classify.{classify_cdn, forbidden_or_missing}

abbrev limited : Exchange
limited = record {
  status = some 429;
  error_kind = none;
  parse_status = some (json_ok false);
  retry_after = none;
}

missing : classify_cdn 403 none false ≡ forbidden_or_missing
unfolding classify_cdn
missing = refl
