-- ===== src/Backfill/States/History.antt =====
-- The history of a work item: its events, newest first, each of which passed `check` when it was
-- appended. What the table promises of every history, by induction on how it was written.
use Prim.Native.String as Text
use Prim.Native.String.{String}
use cse_analysis.Base.{
  ℕ, ◌+◌, ◌≤◌, ◌≡◌, refl, Bool, true, false, not, ◌&&◌, Option, none, some, List, [], ◌∷◌, arith,
  all, leb, count, implies,
}
use cse_analysis.Backfill.States.{
  Kind, State, Action, Transition, pending, requesting, processing, retry_wait, persisted,
  validated, reconciled, needs_validation, create, claim, allowed, check, is_cse_kind,
  is_exclusion_reason, reason_text, requeue_reason_min, is_excluded, is_requeue,
}
use cse_analysis.Backfill.States.Rules.{row_law, check-allowed, check-excluded, check-requeue}

pub record Event : Type 0 where
  pub to : State
  pub action : Action
  pub reason : Option String

-- `History strip k s es`: `es` is a history of an item of kind `k` that has left it in state `s`.
pub data History (strip : String → String) (k : Kind) : Option State → List Event → Type 0 where
  empty : History strip k none []
  append :
      {s : Option State} {es : List Event} (e : Event)
      → check strip k s e.to e.action e.reason ≡ none
      → History strip k s es
      → History strip k (some e.to) (e ∷ es)

abbrev pub is_claim : Action → Bool
is_claim claim = true
is_claim _ = false

abbrev pub is_create : Action → Bool
is_create create = true
is_create _ = false

-- The states that a slice may claim an item from.
abbrev pub is_ready : State → Bool
is_ready pending = true
is_ready retry_wait = true
is_ready _ = false

abbrev ready : Option State → Bool
ready none = false
ready (some s) = is_ready s

abbrev pub is_in_flight : State → Bool
is_in_flight requesting = true
is_in_flight processing = true
is_in_flight _ = false

-- The states in which a document's candidates are stored.
abbrev pub is_stored : State → Bool
is_stored persisted = true
is_stored validated = true
is_stored reconciled = true
is_stored needs_validation = true
is_stored _ = false

abbrev pub is_persisted : State → Bool
is_persisted persisted = true
is_persisted _ = false

abbrev stored : Option State → Bool
stored none = false
stored (some s) = is_stored s

abbrev absent : Option State → Bool
absent none = true
absent (some _) = false

claim_row : Transition → Bool
claim_row r = implies (is_claim r.action) (ready r.from && not (is_ready r.to))

create_row : Transition → Bool
create_row r =
    implies (is_create r.action) (absent r.from) && implies (absent r.from) (is_create r.action)

-- Storage is entered by `persisted` alone, from outside, and is never left.
stored_row : Transition → Bool
stored_row r =
    implies (stored r.from) (is_stored r.to && not (is_persisted r.to))
    && implies (not (stored r.from)) (implies (is_stored r.to) (is_persisted r.to))

flight_row : Transition → Bool
flight_row r = implies (is_in_flight r.to) (is_cse_kind r.kind)

abbrev pub one_if : Bool → ℕ
one_if true = 1
one_if false = 0

module _ (strip : String → String) (k : Kind) where
  allows :
      (s : Option State) (e : Event)
      → check strip k s e.to e.action e.reason ≡ none
      → allowed k s e.to e.action ≡ true
  allows s e h = check-allowed strip k s e.to e.action e.reason h

  -- Every claim uses up one event that made the item pending or retryable: there are at most as
  -- many claims as such events, and one fewer while the item still waits to be claimed.
  pub claims-le :
      {s : Option State} {es : List Event}
      → History strip k s es
      → count (λ e. is_claim e.action) es + one_if (ready s) ≤ count (λ e. is_ready e.to) es
  unfolding claim_row
  claims-le empty = omega arith
  claims-le (append {s = s} e ok h) =
      ground (arith, row_law claim_row k s e.to e.action refl (allows s e ok), claims-le h)

  -- An item is created once, by its first event.
  pub creates-eq :
      {s : Option State} {es : List Event}
      → History strip k s es
      → count (λ e. is_create e.action) es ≡ one_if (not (absent s))
  unfolding create_row
  creates-eq empty = refl
  creates-eq (append {s = s} e ok h) =
      ground (arith, row_law create_row k s e.to e.action refl (allows s e ok), creates-eq h)

  -- A history holds exactly one `persisted` event where the item's state is persisted or one of the
  -- states behind it, and none elsewhere: what was stored is never lost and never stored again.
  pub persisted-eq :
      {s : Option State} {es : List Event}
      → History strip k s es
      → count (λ e. is_persisted e.to) es ≡ one_if (stored s)
  unfolding stored_row
  persisted-eq empty = refl
  persisted-eq (append {s = s} e ok h) =
      ground (arith, row_law stored_row k s e.to e.action refl (allows s e ok), persisted-eq h)

  -- Only the kinds whose requests go to CSE are ever in flight.
  pub in_flight-cse :
      {s : State} {es : List Event}
      → History strip k (some s) es
      → is_in_flight s ≡ true
      → is_cse_kind k ≡ true
  unfolding flight_row
  in_flight-cse (append {s = s} e ok h) f =
      ground (arith, row_law flight_row k s e.to e.action refl (allows s e ok))

-- The event carries the reason that it must: a listed one for an exclusion, ten characters for a
-- re-queue.
abbrev pub is_reasoned : (String → String) → Event → Bool
is_reasoned strip e =
    implies (is_excluded e.to) (is_exclusion_reason e.reason)
    && implies (is_requeue e.action)
        (leb requeue_reason_min (Text.count (strip (reason_text e.reason))))

-- Every exclusion of an accepted history carries a listed reason, and every re-queue a reason of
-- ten characters at least.
pub reasons-given :
    (strip : String → String) (k : Kind) {s : Option State} {es : List Event}
    → History strip k s es
    → all (is_reasoned strip) es ≡ true
reasons-given strip k empty = refl
reasons-given strip k (append {s = s} e ok h) = ground (
  arith,
  check-excluded strip k s e.to e.action e.reason ok,
  check-requeue strip k s e.to e.action e.reason ok,
  reasons-given strip k h,
)
