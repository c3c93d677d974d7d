-- ===== src/Transport/Gates/Budgets.antt =====
-- What the gate before every request keeps: the budgets, and P3's share of the combined one.
use cse_analysis.Base.{ℕ, suc, ◌+◌, ◌≤◌, ◌≡◌, true, Option, some, [], arith, ◌↔◌}
use cse_analysis.Transport.Gates.{
  BudgetView, P3View, Arming, Stage, RequestKind, covers, p3_can_capture, p3_reserve,
  request_refusals, stage_armed, same_kind, stage_kind,
}

-- A budget covers some requests exactly when they fit under the daily budget and, where there is a
-- combined ceiling, under it together with P2's requests and P3's reserve.
covers-suc :
    (b : BudgetView) (n c : ℕ)
    → b.combined_daily_ceiling ≡ some c
    → covers b (suc n) ≡ true
    → (b.phase2_requests + suc n ≤ b.daily_request_budget)
      × ((b.phase2_requests + suc n) + (b.p2_requests + b.p3_reserve) ≤ c)
unfolding covers
covers-suc b n c e h = ground arith

request-covers :
    (now : Option Arming) (slice : Arming) (s : Stage) (k : RequestKind) (b : BudgetView) (n : ℕ)
    → request_refusals now slice s k b n ≡ []
    → covers b n ≡ true
unfolding request_refusals
request-covers now slice s k b n h = ground arith

p3_reserve-eq :
    (p3 : P3View) (today : ℕ)
    → p3_can_capture p3 today ≡ true
    → p3_reserve p3 today ≡ p3.daily_request_budget
unfolding p3_reserve
p3_reserve-eq p3 today h = ground arith

-- While P3 can still capture today and the budget holds back P3's reserve, requests that are not
-- refused stay within Phase 2's own daily budget, and leave the whole of P3's daily budget free under
-- the combined ceiling.
pub request-leaves_p3 :
    (now : Option Arming) (slice : Arming) (s : Stage) (k : RequestKind) (b : BudgetView) (n c : ℕ)
    (p3 : P3View) (today : ℕ)
    → p3_can_capture p3 today ≡ true
    → b.p3_reserve ≡ p3_reserve p3 today
    → b.combined_daily_ceiling ≡ some c
    → request_refusals now slice s k b (suc n) ≡ []
    → (b.phase2_requests + suc n ≤ b.daily_request_budget)
      × ((b.phase2_requests + suc n) + (b.p2_requests + p3.daily_request_budget) ≤ c)
request-leaves_p3 now slice s k b n c p3 today can held ceiling h =
    let q = covers-suc b n c ceiling (request-covers now slice s k b (suc n) h) in
    let r = p3_reserve-eq p3 today can in let f = q.0 in let g = q.1 in (f, omega arith)

-- A request is let through exactly when the decision in force is armed, is the one that the slice
-- started under, is armed for the stage and its kind of request, and the budget covers the request.
pub request_refusals_iff :
    (a slice : Arming) (s : Stage) (k : RequestKind) (b : BudgetView) (n : ℕ)
    → (request_refusals (some a) slice s k b n ≡ []) ↔ (
        (a.armed ≡ true)
        × (a.id ≡ slice.id)
        × (stage_armed s a ≡ true)
        × (same_kind (stage_kind s) k ≡ true)
        × (covers b n ≡ true))
unfolding request_refusals
request_refusals_iff a slice s k b n = ground arith
