-- ===== src/Transport/Gates.antt =====
-- worker/backfill_transport/gates.py: the release gates, decided over a snapshot.
--
-- A refusal is its code; the messages are left out. Moments are microseconds and dates ordinals, as in
-- Scheduler.Schedule. Hosts, User-Agents and version tuples are only compared, so they are numbers. Of
-- the blocks a snapshot holds how many are unacknowledged.
pub mod Budgets
pub mod Starts
mod Tests
use cse_analysis.Base.{
  ℕ, zero, suc, ◌+◌, ◌-◌, ◌*◌, Bool, true, false, not, ◌&&◌, ◌||◌, Option, none, some, List, [],
  ◌∷◌, ◌++◌, ltb, leb, ◌==◌, if◌then◌else◌, any, all, length, map, is_some,
}
use cse_analysis.Scheduler.Schedule.{
  Snapshot, due_at, window_closes_at, colombo_date, is_candidate_trading_day, aware,
}

pub data Stage : Type 0 where
  hb_s2 hb_s3 hb_s4 : Stage

pub data RequestKind : Type 0 where
  json_kind document_kind : RequestKind

-- `STAGE_KINDS`
abbrev pub stage_kind : Stage → RequestKind
stage_kind hb_s2 = json_kind
stage_kind hb_s3 = document_kind
stage_kind hb_s4 = document_kind

abbrev pub same_kind : RequestKind → RequestKind → Bool
same_kind json_kind json_kind = true
same_kind document_kind document_kind = true
same_kind _ _ = false

abbrev same_stage : Stage → Stage → Bool
same_stage hb_s2 hb_s2 = true
same_stage hb_s3 hb_s3 = true
same_stage hb_s4 hb_s4 = true
same_stage _ _ = false

-- `DOCUMENT_WORST_CASE_REQUESTS`, `QUIET_WINDOW_MARGIN_SECONDS`, `CLOCK_BACKWARDS_TOLERANCE_SECONDS`
abbrev pub document_worst_case_requests : ℕ
document_worst_case_requests = 6

abbrev pub second_us : ℕ
second_us = 1000000

abbrev pub quiet_window_margin_seconds : ℕ
quiet_window_margin_seconds = 60

abbrev pub clock_backwards_tolerance_seconds : ℕ
clock_backwards_tolerance_seconds = 300

-- `P3View`; the two local times stand in a schedule, of which only they are read.
pub record P3View : Type 0 where
  pub armed : Bool
  pub schedule : Snapshot
  pub daily_request_budget : ℕ
  pub closed_today : Bool
  pub item_final : Bool

pub record BudgetView : Type 0 where
  pub phase2_requests : ℕ
  pub p2_requests : ℕ
  pub daily_request_budget : ℕ
  pub combined_daily_ceiling : Option ℕ
  pub p3_reserve : ℕ

-- `max(0, a - b)` is the subtraction of the natural numbers.
abbrev pub daily_remaining : BudgetView → ℕ
daily_remaining b = b.daily_request_budget - b.phase2_requests

abbrev pub combined_remaining : BudgetView → Option ℕ
combined_remaining b = elim b.combined_daily_ceiling [
  | none ↦ none
  | some c ↦ some (c - (b.phase2_requests + b.p2_requests + b.p3_reserve))
]

abbrev at_least : ℕ → Option ℕ → Bool
at_least n none = true
at_least n (some c) = leb n c

unfoldable pub covers : BudgetView → ℕ → Bool
covers b n = leb n (daily_remaining b) && at_least n (combined_remaining b)

-- P3's capture of a date can still happen.
abbrev pub p3_can_capture : P3View → ℕ → Bool
p3_can_capture p3 today =
    p3.armed && (is_candidate_trading_day today && (not p3.closed_today && not p3.item_final))

unfoldable pub p3_reserve : P3View → ℕ → ℕ
p3_reserve p3 today =
    if not p3.armed || (not (is_candidate_trading_day today) || (p3.closed_today || p3.item_final))
    then 0
    else p3.daily_request_budget

-- `quiet_window` on the Colombo date of `now`. The opening is written without the subtraction:
-- `due - margin <= now`.
unfoldable pub quiet_on : ℕ → P3View → ℕ → ℕ → Bool
quiet_on today p3 slice_max_seconds now =
    if not (is_candidate_trading_day today) || (p3.closed_today || p3.item_final)
    then false
    else leb (due_at today p3.schedule)
        (now + (slice_max_seconds + quiet_window_margin_seconds) * second_us)
      && ltb now (window_closes_at today p3.schedule)

unfoldable pub quiet_window : ℕ → P3View → ℕ → Bool
unfolding quiet_on
quiet_window now p3 slice_max_seconds =
    if not p3.armed then false else elim (colombo_date (aware now)) [
      | none ↦ false
      | some today ↦ quiet_on today p3 slice_max_seconds now
    ]

-- An arming decision
pub record Arming : Type 0 where
  pub id : ℕ
  pub armed : Bool
  pub armed_stages : List Stage
  pub user_agent : ℕ
  pub host : ℕ
  pub version_tuple : ℕ
  pub slice_max_seconds : ℕ

pub data Refusal : Type 0 where
  preflight disarmed stage contact user_agent host versions clock : Refusal
  blocked stage_stopped_refusal budget quiet arming_changed item_max : Refusal

abbrev pub refuse_if : Bool → Refusal → List Refusal
refuse_if true r = r ∷ []
refuse_if false r = []

abbrev pub stage_armed : Stage → Arming → Bool
stage_armed s a = any (same_stage s) a.armed_stages

-- `contact_problem or not runtime_user_agent`, `elif` it is not the armed one
abbrev pub contact_refusals : Bool → Option ℕ → Arming → List Refusal
contact_refusals true ua a = contact ∷ []
contact_refusals false none a = contact ∷ []
contact_refusals false (some ua) a = refuse_if (not (ua == a.user_agent)) user_agent

pub record StartSnapshot : Type 0 where
  pub now : ℕ
  pub stage : Stage
  pub kind : RequestKind
  pub arming : Option Arming
  pub contact_problem : Bool
  pub runtime_user_agent : Option ℕ
  pub hostname : ℕ
  pub running_versions : ℕ
  pub preflight_problems : ℕ
  pub phase2_blocks : ℕ
  pub p2_blocks : ℕ
  pub stage_stopped : Bool
  pub budget : Option BudgetView
  pub p3 : P3View
  pub clock_synchronized : Option Bool
  pub last_runner_time : Option ℕ
  pub unblocked_block_attempts : ℕ

-- Past the return on a decision that is not in force.
pub decision_refusals : StartSnapshot → Arming → List Refusal
decision_refusals s a =
    refuse_if (not (same_kind (stage_kind s.stage) s.kind)) stage
    ++ (refuse_if (not (stage_armed s.stage a)) stage
        ++ (contact_refusals s.contact_problem s.runtime_user_agent a
            ++ (refuse_if (not (s.hostname == a.host)) host
                ++ refuse_if (not (a.version_tuple == s.running_versions)) versions)))

unfoldable pub arming_refusals : Option Arming → StartSnapshot → List Refusal
arming_refusals none s = disarmed ∷ []
arming_refusals (some a) s = if not a.armed then disarmed ∷ [] else decision_refusals s a

abbrev pub went_backwards : ℕ → Option ℕ → Bool
went_backwards now none = false
went_backwards now (some last) = ltb (now + clock_backwards_tolerance_seconds * second_us) last

unfoldable pub clock_refusals : ℕ → Option Bool → Option ℕ → List Refusal
clock_refusals now (some true) last = refuse_if (went_backwards now last) clock
clock_refusals now _ last = clock ∷ []

abbrev pub repeat : ℕ → Refusal → List Refusal
repeat zero r = []
repeat (suc n) r = r ∷ repeat n r

abbrev pub needed : RequestKind → ℕ
needed document_kind = document_worst_case_requests
needed json_kind = 1

abbrev pub covered : Option BudgetView → ℕ → Bool
covered none n = false
covered (some b) n = covers b n

pub work_refusals : StartSnapshot → Arming → List Refusal
work_refusals s a =
    refuse_if (not (covered s.budget (needed s.kind))) budget
    ++ refuse_if (quiet_window s.now s.p3 a.slice_max_seconds) quiet

pub armed_refusals : StartSnapshot → Option Arming → List Refusal
armed_refusals s none = []
armed_refusals s (some a) = if not a.armed then [] else work_refusals s a

unfoldable pub start_refusals : StartSnapshot → List Refusal
unfolding armed_refusals
start_refusals s =
    repeat s.preflight_problems preflight
    ++ (arming_refusals s.arming s
        ++ (refuse_if (ltb 0 (s.phase2_blocks + s.unblocked_block_attempts)) blocked
            ++ (refuse_if (ltb 0 s.p2_blocks) blocked
                ++ (refuse_if s.stage_stopped stage_stopped_refusal
                    ++ (armed_refusals s s.arming
                        ++ clock_refusals s.now s.clock_synchronized s.last_runner_time)))))

-- `request_refusals`, the slice's own decision being the one that it started under
unfoldable pub request_refusals :
    Option Arming → Arming → Stage → RequestKind → BudgetView → ℕ → List Refusal
request_refusals none slice s k b need = disarmed ∷ []
request_refusals (some a) slice s k b need =
    if not a.armed
    then disarmed ∷ []
    else if not (a.id == slice.id)
    then arming_changed ∷ []
    else if not (stage_armed s a) || not (same_kind (stage_kind s) k)
    then stage ∷ []
    else if not (covers b need)
    then budget ∷ []
    else []

unfoldable pub claim_refusals : ℕ → Option ℕ → List Refusal
claim_refusals claims none = item_max ∷ []
claim_refusals claims (some item_max_attempts) = refuse_if (leb item_max_attempts claims) item_max

abbrev pub take_up_to {ℓ} : {A : Type ℓ} → ℕ → List A → List A
take_up_to zero xs = []
take_up_to (suc n) [] = []
take_up_to (suc n) (x ∷ xs) = x ∷ take_up_to n xs

-- `stage_stopped`: whether each completed lease ended `circuit_open`, newest first
unfoldable pub stage_stopped : List Bool → ℕ → Bool
stage_stopped completed slices =
    let recent = take_up_to slices completed in length recent == slices && all (λ r. r) recent
