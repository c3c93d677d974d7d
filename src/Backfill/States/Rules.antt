-- ===== src/Backfill/States/Rules.antt =====
-- Facts read off the table of transitions once, by evaluation, and handed to any transition that
-- `allowed` or `check` accepts.
use Prim.Native.String as Text
use Prim.Native.String.{String}
use cse_analysis.Base.{
  ◌≡◌, refl, Bool, true, false, ◌&&◌, Option, none, some, ◌≤◌, arith, all, any-true, all-mem, same,
  same-true, sym, subst, implies,
}
use cse_analysis.Backfill.States.{
  Kind, State, Action, Transition, Transition-discrete, transitions, allowed, check, pending,
  requeue, is_requeue, is_excluded, is_final, is_exclusion_reason, reason_text, requeue_reason_min,
}

-- A property that every row has holds of every transition that is allowed.
pub row_law :
    (p : Transition → Bool) (k : Kind) (f : Option State) (t : State) (a : Action)
    → all p transitions ≡ true
    → allowed k f t a ≡ true
    → p (record { kind = k; from = f; to = t; action = a }) ≡ true
unfolding allowed
row_law p k f t a every h =
    let r : Transition = record { kind = k; from = f; to = t; action = a } in
    let (x, m, e) = any-true (same Transition-discrete r) transitions h in
    subst (λ y. p y ≡ true) (sym (same-true Transition-discrete r x e)) (all-mem p every m)

-- What a transition that passes `check` satisfies.
pub check-allowed :
    (strip : String → String) (k : Kind) (f : Option State) (t : State) (a : Action)
    (reason : Option String)
    → check strip k f t a reason ≡ none
    → allowed k f t a ≡ true
unfolding check
check-allowed strip k f t a reason h = ground arith

pub check-excluded :
    (strip : String → String) (k : Kind) (f : Option State) (t : State) (a : Action)
    (reason : Option String)
    → check strip k f t a reason ≡ none
    → is_excluded t ≡ true
    → is_exclusion_reason reason ≡ true
unfolding check
check-excluded strip k f t a reason h e = ground arith

pub check-requeue :
    (strip : String → String) (k : Kind) (f : Option State) (t : State) (a : Action)
    (reason : Option String)
    → check strip k f t a reason ≡ none
    → is_requeue a ≡ true
    → requeue_reason_min ≤ Text.count (strip (reason_text reason))
unfolding check
check-requeue strip k f t a reason h e = ground arith

abbrev is_pending : State → Bool
is_pending pending = true
is_pending _ = false

abbrev is_final_from : Kind → Option State → Bool
is_final_from k none = false
is_final_from k (some s) = is_final k s

final_row : Transition → Bool
final_row r = implies (is_final_from r.kind r.from) (is_requeue r.action && is_pending r.to)

final_row-all : all final_row transitions ≡ true
unfolding final_row is_final
final_row-all = refl

-- A final state is left only by an operator's re-queue, to `pending`.
pub final-requeue :
    (k : Kind) (s t : State) (a : Action)
    → is_final k s ≡ true
    → allowed k (some s) t a ≡ true
    → (a ≡ requeue) × (t ≡ pending)
unfolding final_row
final-requeue k s t a f h = ground (arith, row_law final_row k (some s) t a final_row-all h)
