-- ===== src/Backfill/States.antt =====
-- worker/financial_backfill/states.py: the work-item state machine as its table of transitions,
-- the shape check of one transition, and the sets of states computed from the table.
pub mod Rules
pub mod History
mod Tests
use Prim.Native.String as Text
use Prim.Native.String.{String}
use text.Mathlib.Text.{◌==◌ as str_eq}
use cse_analysis.Base.{
  ℕ, ◌≡◌, Bool, true, false, ◌&&◌, ◌||◌, not, Option, none, some, List, [], ◌∷◌, ◌++◌, map, ltb,
  if◌then◌else◌, any, keep, same,
}

-- `KINDS`
pub data Kind : Type 0 where
  feed_window listing document link_pass validate reconcile audit : Kind

-- `ACTIONS`
pub data Action : Type 0 where
  create claim record_outcome expire promote resume requeue : Action

-- `ALL_STATES`
pub data State : Type 0 where
  pending requesting succeeded partial failed retry_wait blocked abandoned : State
  discovered excluded processing persisted retrieval_failed consumer_failed cleanup_failed : State
  validated reconciled needs_validation : State

-- One row of the table; `none` is `NONE`, the "from" state of an item's first event.
pub record Transition : Type 0 where
  pub kind : Kind
  pub from : Option State
  pub to : State
  pub action : Action

pub Kind-discrete : Discrete Kind
Kind-discrete = hlevel

pub State-discrete : Discrete State
State-discrete = hlevel

pub Transition-discrete : Discrete Transition
Transition-discrete = hlevel

-- `CSE_KINDS`, `DISCOVERY_KINDS`, `OTHER_KINDS`
abbrev pub is_cse_kind : Kind → Bool
is_cse_kind feed_window = true
is_cse_kind listing = true
is_cse_kind document = true
is_cse_kind _ = false

abbrev pub discovery_kinds : List Kind
discovery_kinds = feed_window ∷ listing ∷ []

abbrev pub other_kinds : List Kind
other_kinds = link_pass ∷ validate ∷ reconcile ∷ audit ∷ []

abbrev row : Kind → Option State → State → Action → Transition
row k f t a = record { kind = k; from = f; to = t; action = a }

-- `_DISCOVERY`, at one kind
abbrev discovery_rows : Kind → List Transition
discovery_rows k =
    row k none pending create
    ∷ row k (some pending) requesting claim
    ∷ row k (some retry_wait) requesting claim
    ∷ row k (some requesting) succeeded record_outcome
    ∷ row k (some requesting) partial record_outcome
    ∷ row k (some requesting) failed record_outcome
    ∷ row k (some requesting) retry_wait record_outcome
    ∷ row k (some requesting) blocked record_outcome
    ∷ row k (some retry_wait) failed record_outcome
    ∷ row k (some requesting) abandoned expire
    ∷ row k (some abandoned) pending promote
    ∷ row k (some abandoned) succeeded promote
    ∷ row k (some abandoned) partial promote
    ∷ row k (some blocked) pending resume
    ∷ row k (some succeeded) pending requeue
    ∷ row k (some partial) pending requeue
    ∷ row k (some failed) pending requeue
    ∷ []

-- `_DOCUMENT`
abbrev document_rows : List Transition
document_rows =
    row document none discovered create
    ∷ row document none excluded create
    ∷ row document (some discovered) pending promote
    ∷ row document (some discovered) excluded record_outcome
    ∷ row document (some pending) requesting claim
    ∷ row document (some retry_wait) requesting claim
    ∷ row document (some requesting) processing record_outcome
    ∷ row document (some requesting) retry_wait record_outcome
    ∷ row document (some requesting) retrieval_failed record_outcome
    ∷ row document (some requesting) blocked record_outcome
    ∷ row document (some requesting) cleanup_failed record_outcome
    ∷ row document (some processing) persisted record_outcome
    ∷ row document (some processing) consumer_failed record_outcome
    ∷ row document (some processing) cleanup_failed record_outcome
    ∷ row document (some processing) retry_wait record_outcome
    ∷ row document (some processing) failed record_outcome
    ∷ row document (some retry_wait) retrieval_failed record_outcome
    ∷ row document (some retry_wait) failed record_outcome
    ∷ row document (some requesting) abandoned expire
    ∷ row document (some processing) abandoned expire
    ∷ row document (some abandoned) pending promote
    ∷ row document (some discovered) persisted promote
    ∷ row document (some pending) persisted promote
    ∷ row document (some retry_wait) persisted promote
    ∷ row document (some abandoned) persisted promote
    ∷ row document (some persisted) validated promote
    ∷ row document (some validated) reconciled promote
    ∷ row document (some persisted) needs_validation promote
    ∷ row document (some validated) needs_validation promote
    ∷ row document (some reconciled) needs_validation promote
    ∷ row document (some needs_validation) validated promote
    ∷ row document (some blocked) pending resume
    ∷ row document (some excluded) pending requeue
    ∷ row document (some retrieval_failed) pending requeue
    ∷ row document (some consumer_failed) pending requeue
    ∷ row document (some cleanup_failed) pending requeue
    ∷ row document (some failed) pending requeue
    ∷ []

-- `_OTHER`, at one kind
abbrev other_rows : Kind → List Transition
other_rows k =
    row k none pending create
    ∷ row k (some pending) succeeded record_outcome
    ∷ row k (some pending) failed record_outcome
    ∷ row k (some succeeded) pending requeue
    ∷ row k (some failed) pending requeue
    ∷ []

abbrev rows_of : (Kind → List Transition) → List Kind → List Transition
rows_of f [] = []
rows_of f (k ∷ ks) = f k ++ rows_of f ks

-- `TRANSITIONS`
abbrev pub transitions : List Transition
transitions =
    rows_of discovery_rows discovery_kinds ++ (document_rows ++ rows_of other_rows other_kinds)

-- `allowed`; `from_state or NONE` is the option itself
unfoldable pub allowed : Kind → Option State → State → Action → Bool
unfolding Transition-discrete
allowed k f t a =
    any (same Transition-discrete (record { kind = k; from = f; to = t; action = a })) transitions

-- `{t for kind, _, t, _ in TRANSITIONS if kind == k}`, as a membership test
unfoldable pub is_state : Kind → State → Bool
unfolding Kind-discrete State-discrete
is_state k s = any (λ r. same Kind-discrete r.kind k && same State-discrete r.to s) transitions

abbrev pub is_requeue : Action → Bool
is_requeue requeue = true
is_requeue _ = false

abbrev from_is : State → Option State → Bool
from_is s none = false
from_is s (some f) = same State-discrete f s

-- `FINAL[k]`: left only by an explicit re-queue, or not at all
unfoldable pub is_final : Kind → State → Bool
unfolding is_state Kind-discrete State-discrete
is_final k s =
    is_state k s
    && not (
        any (λ r. same Kind-discrete r.kind k && (from_is s r.from && not (is_requeue r.action)))
          transitions)

abbrev same_from : Option State → Option State → Bool
same_from none none = true
same_from (some a) (some b) = same State-discrete a b
same_from _ _ = false

-- `next_states`: the pairs of a target and its action
unfoldable pub next_states : Kind → Option State → List (State × Action)
unfolding Kind-discrete State-discrete
next_states k f =
    map (λ r. (r.to, r.action))
      (keep (λ r. same Kind-discrete r.kind k && same_from f r.from) transitions)

-- `EXCLUSION_REASONS`
abbrev pub exclusion_reasons : List String
exclusion_reasons = "out_of_window" ∷ "window_undetermined" ∷ "no_document" ∷ "invalid_path" ∷ []

-- `REQUEUE_REASON_MIN`
abbrev pub requeue_reason_min : ℕ
requeue_reason_min = 10

-- The three ways in which `check` raises `IllegalTransition`.
pub data IllegalTransition : Type 0 where
  not_legal exclusion_reason_missing requeue_reason_short : IllegalTransition

abbrev pub is_excluded : State → Bool
is_excluded excluded = true
is_excluded _ = false

-- `reason or ""`
abbrev pub reason_text : Option String → String
reason_text none = ""
reason_text (some t) = t

abbrev pub is_exclusion_reason : Option String → Bool
is_exclusion_reason none = false
is_exclusion_reason (some t) = any (str_eq t) exclusion_reasons

-- `check`, over Python's `str.strip`; `none` is a return with no exception.
unfoldable pub check :
    (String → String)
    → Kind
    → Option State
    → State
    → Action
    → Option String
    → Option IllegalTransition
check strip k f t a reason =
    if not (allowed k f t a)
    then some not_legal
    else if is_excluded t && not (is_exclusion_reason reason)
    then some exclusion_reason_missing
    else if is_requeue a && ltb (Text.count (strip (reason_text reason))) requeue_reason_min
    then some requeue_reason_short
    else none
