-- ===== src/Transport/Gates/Tests.antt =====
-- A slice on a Monday morning, and a request of it: the theorems about them.
use cse_analysis.Base.{ℕ, ◌+◌, ◌*◌, ◌≤◌, ◌≡◌, refl, true, false, none, some, [], ◌∷◌}
use cse_analysis.Scheduler.Schedule.{
  Snapshot, aware, colombo_moment, colombo_date, due_at, window_closes_at,
}
use cse_analysis.Transport.Gates.{
  Arming, BudgetView, P3View, StartSnapshot, hb_s2, hb_s3, document_kind, covers, p3_reserve,
  request_refusals, start_refusals, arming_refusals, decision_refusals, clock_refusals,
  work_refusals, quiet_window, quiet_on, stage_stopped, claim_refusals,
}
use cse_analysis.Transport.Gates.Budgets.{request-leaves_p3}

-- From 15:00 to 23:00
abbrev afternoon : Snapshot
afternoon = record {
  settings_id = none;
  earliest_start_local = 54000000000;
  window_close_local = 82800000000;
  retry_base_minutes = 30;
  retry_max_minutes = 120;
  max_attempts = 4;
  no_session_confirmations = 2;
}

abbrev p3 : P3View
p3 = record {
  armed = true;
  schedule = afternoon;
  daily_request_budget = 400;
  closed_today = false;
  item_final = false;
}

abbrev budget_view : BudgetView
budget_view = record {
  phase2_requests = 100;
  p2_requests = 20;
  daily_request_budget = 300;
  combined_daily_ceiling = some 1000;
  p3_reserve = 400;
}

abbrev decision : Arming
decision = record {
  id = 7;
  armed = true;
  armed_stages = hb_s2 ∷ hb_s3 ∷ [];
  user_agent = 1;
  host = 2;
  version_tuple = 3;
  slice_max_seconds = 1800;
}

-- 10:00 in Colombo on the Monday of ordinal 738158
abbrev morning : ℕ
morning = 738158 * 86400000000 + 16200000000

abbrev slice : StartSnapshot
slice = record {
  now = morning;
  stage = hb_s3;
  kind = document_kind;
  arming = some decision;
  contact_problem = false;
  runtime_user_agent = some 1;
  hostname = 2;
  running_versions = 3;
  preflight_problems = 0;
  phase2_blocks = 0;
  p2_blocks = 0;
  stage_stopped = false;
  budget = some budget_view;
  p3 = p3;
  clock_synchronized = some true;
  last_runner_time = none;
  unblocked_block_attempts = 0;
}

nothing_refused : start_refusals slice ≡ []
unfolding start_refusals arming_refusals clock_refusals quiet_window quiet_on colombo_date due_at
    window_closes_at colombo_moment covers decision_refusals work_refusals
nothing_refused = refl

its_date : colombo_date (aware morning) ≡ some 738158
unfolding colombo_date
its_date = refl

three_circuits : stage_stopped (true ∷ true ∷ true ∷ false ∷ []) 3 ≡ true
unfolding stage_stopped
three_circuits = refl

claims_used : claim_refusals 2 (some 3) ≡ []
unfolding claim_refusals
claims_used = refl

let_through : request_refusals (some decision) decision hb_s3 document_kind budget_view 6 ≡ []
unfolding request_refusals covers
let_through = refl

reserve_held : budget_view.p3_reserve ≡ p3_reserve p3 738158
unfolding p3_reserve
reserve_held = refl

request-leaves_p3_example : (100 + 6 ≤ 300) × ((100 + 6) + (20 + 400) ≤ 1000)
request-leaves_p3_example =
    request-leaves_p3 (some decision) decision hb_s3 document_kind budget_view 5 1000 p3 738158 refl
      reserve_held refl let_through
