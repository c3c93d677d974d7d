-- ===== src/Backfill/States/Tests.antt =====
-- Runs of the state machine, and its theorems at a concrete history.
use Prim.Native.String.{String}
use cse_analysis.Base.{◌≡◌, refl, false, Option, none, some, List, [], ◌∷◌, count}
use cse_analysis.Backfill.States.{
  State, Action, document, feed_window, discovered, pending, requesting, persisted, retry_wait,
  failed, create, claim, record_outcome, promote, requeue, allowed, check, next_states, is_final,
  not_legal, requeue_reason_short, validated,
}
use cse_analysis.Backfill.States.History.{Event, History, empty, append, persisted-eq, is_persisted}

-- A strip that strips nothing: the texts of the tests have no blanks at their ends.
abbrev bare : String → String
bare s = s

abbrev event : State → Action → Option String → Event
event t a r = record { to = t; action = a; reason = r }

-- A document that was retried, failed, was queued again by the operator and was stored.
abbrev events : List Event
events =
    event persisted promote none
    ∷ event pending requeue (some "the source is back")
    ∷ event failed record_outcome none
    ∷ event retry_wait record_outcome none
    ∷ event requesting claim none
    ∷ event pending promote none
    ∷ event discovered create none
    ∷ []

events-History : History bare document (some persisted) events
unfolding check allowed
events-History = append _ refl (
    append _ refl
      (append _ refl (append _ refl (append _ refl (append _ refl (append _ refl empty))))))

persisted-eq_example : count (λ e. is_persisted e.to) events ≡ 1
persisted-eq_example = persisted-eq bare document events-History

abbrev in_flight : List Event
in_flight = event requesting claim none ∷ event pending create none ∷ []

short_reason :
    check bare document (some failed) pending requeue (some "again") ≡ some requeue_reason_short
unfolding check allowed
short_reason = refl

no_shortcut : check bare document (some discovered) validated promote none ≡ some not_legal
unfolding check allowed
no_shortcut = refl

after_blocked :
    next_states feed_window (some retry_wait) ≡ (requesting, claim) ∷ (failed, record_outcome) ∷ []
unfolding next_states
after_blocked = refl

persisted_open : is_final document persisted ≡ false
unfolding is_final
persisted_open = refl
