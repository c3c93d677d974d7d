-- ===== src/Transport/Gates/Starts.antt =====
-- A slice starts exactly when every gate lets it.
use cse_analysis.Base.{
  ℕ, zero, suc, ◌+◌, ◌≡◌, refl, Bool, true, false, not, Option, none, some, List, [], ◌∷◌, ◌++◌,
  arith, ◌==◌, ltb, if◌then◌else◌, subst,
}
use cse_analysis.Transport.Gates.{
  Arming, StartSnapshot, Refusal, start_refusals, arming_refusals, decision_refusals, work_refusals,
  disarmed, budget, quiet, blocked, stage_stopped_refusal, armed_refusals, clock_refusals,
  refuse_if, repeat, contact_refusals, went_backwards, covered, needed, quiet_window, same_kind,
  stage_kind, stage_armed,
}

++-nil {ℓ} : {A : Type ℓ} (xs ys : List A) → (xs ++ ys) ≡ [] → (xs ≡ []) × (ys ≡ [])
++-nil [] ys h = (refl, h)
++-nil (x ∷ xs) ys h = cc

refuse_if-nil : (b : Bool) (r : Refusal) → refuse_if b r ≡ [] → b ≡ false
refuse_if-nil b r h = ground arith

repeat-nil : (n : ℕ) (r : Refusal) → repeat n r ≡ [] → n ≡ 0
repeat-nil zero r h = refl
repeat-nil (suc n) r h = cc

contact_refusals-nil :
    (problem : Bool) (ua : Option ℕ) (a : Arming)
    → contact_refusals problem ua a ≡ []
    → (problem ≡ false) × (ua ≡ some a.user_agent)
contact_refusals-nil problem ua a h = ground arith

clock_refusals-nil :
    (now : ℕ) (synced : Option Bool) (last : Option ℕ)
    → clock_refusals now synced last ≡ []
    → (synced ≡ some true) × (went_backwards now last ≡ false)
unfolding clock_refusals
clock_refusals-nil now synced last h = ground arith

-- What an arming decision has to say of a slice.
pub record Armed (s : StartSnapshot) (a : Arming) : Type 0 where
  pub armed : a.armed ≡ true
  pub kind : same_kind (stage_kind s.stage) s.kind ≡ true
  pub stage : stage_armed s.stage a ≡ true
  pub contact : s.contact_problem ≡ false
  pub user_agent : s.runtime_user_agent ≡ some a.user_agent
  pub host : s.hostname ≡ a.host
  pub versions : a.version_tuple ≡ s.running_versions

not-false : (b : Bool) → not b ≡ false → b ≡ true
not-false b h = ground arith

decision_refusals-Armed :
    (s : StartSnapshot) (a : Arming) → a.armed ≡ true → decision_refusals s a ≡ [] → Armed s a
unfolding decision_refusals
decision_refusals-Armed s a y h =
    let h1 = ++-nil (refuse_if (not (same_kind (stage_kind s.stage) s.kind)) Refusal.stage) _ h in
    let h2 = ++-nil (refuse_if (not (stage_armed s.stage a)) Refusal.stage) _ h1.1 in
    let h3 = ++-nil (contact_refusals s.contact_problem s.runtime_user_agent a) _ h2.1 in
    let h4 = ++-nil (refuse_if (not (s.hostname == a.host)) Refusal.host) _ h3.1 in
    let c = contact_refusals-nil s.contact_problem s.runtime_user_agent a h3.0 in
    record {
      armed = y;
      kind = not-false _ (refuse_if-nil _ Refusal.stage h1.0);
      stage = not-false _ (refuse_if-nil _ Refusal.stage h2.0);
      contact = c.0;
      user_agent = c.1;
      host = let e = h4.0 in ground arith;
      versions = let e = h4.1 in ground arith;
    }

refused-nil :
    (b : Bool) (xs : List Refusal)
    → (if not b then disarmed ∷ [] else xs) ≡ []
    → (b ≡ true) × (xs ≡ [])
refused-nil true xs h = (refl, h)
refused-nil false xs h = cc

unless-nil : (b : Bool) (xs : List Refusal) → b ≡ true → (if not b then [] else xs) ≡ [] → xs ≡ []
unless-nil true xs e h = h
unless-nil false xs e h = cc

arming-Armed :
    (o : Option Arming) (s : StartSnapshot)
    → arming_refusals o s ≡ []
    → (a : Arming) × (o ≡ some a) × Armed s a
unfolding arming_refusals
arming-Armed none s h = cc
arming-Armed (some a) s h =
    let q = refused-nil a.armed (decision_refusals s a) h in
    (a, refl, decision_refusals-Armed s a q.0 q.1)

armed-work :
    (s : StartSnapshot) (a : Arming)
    → a.armed ≡ true
    → armed_refusals s (some a) ≡ []
    → (covered s.budget (needed s.kind) ≡ true)
      × (quiet_window s.now s.p3 a.slice_max_seconds ≡ false)
unfolding armed_refusals work_refusals
armed-work s a y h =
    let h' = unless-nil a.armed (work_refusals s a) y h in
    let q = ++-nil (refuse_if (not (covered s.budget (needed s.kind))) budget) _ h' in
    (not-false _ (refuse_if-nil _ budget q.0), refuse_if-nil _ quiet q.1)

-- What every start that is not refused has.
pub record MayStart (s : StartSnapshot) (a : Arming) : Type 0 where
  pub preflight : s.preflight_problems ≡ 0
  pub decision : s.arming ≡ some a
  pub armed : Armed s a
  pub phase2_blocks : s.phase2_blocks + s.unblocked_block_attempts ≡ 0
  pub p2_blocks : s.p2_blocks ≡ 0
  pub running : s.stage_stopped ≡ false
  pub budget : covered s.budget (needed s.kind) ≡ true
  pub quiet : quiet_window s.now s.p3 a.slice_max_seconds ≡ false
  pub synchronized : s.clock_synchronized ≡ some true
  pub forward : went_backwards s.now s.last_runner_time ≡ false

-- A slice that no gate refuses starts under an armed decision of the owner for its stage, its contact,
-- its host and its versions, with no problem of the preflight, no block of Phase 2 or P2 to be
-- acknowledged, a stage that its circuit breaker has not stopped, a budget for its next unit of work,
-- outside P3's quiet window, and with a synchronised clock that has not gone backwards.
pub start-MayStart : (s : StartSnapshot) → start_refusals s ≡ [] → (a : Arming) × MayStart s a
unfolding start_refusals
start-MayStart s h =
    let h1 = ++-nil (repeat s.preflight_problems Refusal.preflight) _ h in
    let h2 = ++-nil (arming_refusals s.arming s) _ h1.1 in
    let h3 =
      ++-nil (refuse_if (ltb 0 (s.phase2_blocks + s.unblocked_block_attempts)) blocked) _ h2.1 in
    let h4 = ++-nil (refuse_if (ltb 0 s.p2_blocks) blocked) _ h3.1 in
    let h5 = ++-nil (refuse_if s.stage_stopped stage_stopped_refusal) _ h4.1 in
    let h6 = ++-nil (armed_refusals s s.arming) _ h5.1 in
    let (a, e, armed) = arming-Armed s.arming s h2.0 in
    let h6' : armed_refusals s (some a) ≡ [] = subst (λ o. armed_refusals s o ≡ []) e h6.0 in
    let work = armed-work s a armed.armed h6' in
    let c = clock_refusals-nil s.now s.clock_synchronized s.last_runner_time h6.1 in
    (
      a,
      record {
        preflight = repeat-nil s.preflight_problems Refusal.preflight h1.0;
        decision = e;
        armed = armed;
        phase2_blocks = let z = refuse_if-nil _ blocked h3.0 in ground arith;
        p2_blocks = let z = refuse_if-nil _ blocked h4.0 in ground arith;
        running = refuse_if-nil _ stage_stopped_refusal h5.0;
        budget = work.0;
        quiet = work.1;
        synchronized = c.0;
        forward = c.1;
      },
    )
