-- ===== src/Scheduler/Planner/Runs.antt =====
-- What `evidence` concludes from the runs of a date.
use mathlib.Core.List.{Memᴰ}
use cse_analysis.Base.{
  ℕ, ◌≡◌, ◌≢◌, refl, true, false, ◌||◌, Option, none, some, List, arith, ◌⊎◌, any, keep, last?,
  last?-keep, is_some-last?, is_some, inl, inr,
}
use cse_analysis.Scheduler.Planner.{
  Run, evidence, evidence_of, run_succeeded?, shows_session?, no_session?, anomaly?, is_resumable,
  not_missed?,
}

evidence_of-captured :
    (d : ℕ) (a b c : Option Run) (ns an : List Run) (o : Option Run)
    → (evidence_of d a b c ns an o).captured ≡ (is_some a || is_some b)
unfolding evidence_of
evidence_of-captured d (some a) b c ns an o = refl
evidence_of-captured d none (some b) c ns an o = refl
evidence_of-captured d none none (some c) ns an o = refl
evidence_of-captured d none none none ns an (some o) = refl
evidence_of-captured d none none none ns an none = refl

-- Where a run is to be resumed, it is the run that the evidence names, it can be resumed, and it has
-- shown the date's session or no session that rules the date out.
evidence_of-resumable :
    (d : ℕ) (a b c : Option Run) (ns an : List Run) (o : Option Run) {r : ℕ}
    → (evidence_of d a b c ns an o).resumable_run ≡ some r
    → (x : Run) × ((evidence_of d a b c ns an o).run ≡ some x)
      × (x.id ≡ r)
      × (is_resumable x.state ≡ true)
      × (((b ≡ some x) ⊎ ((o ≡ some x) × (no_session? d x ≡ false) × (anomaly? d x ≡ false))))
unfolding evidence_of
evidence_of-resumable d (some a) b c ns an o h = cc
evidence_of-resumable d none (some b) c ns an o h = (b, refl, ground arith, ground arith, inl refl)
evidence_of-resumable d none none (some c) ns an o h = cc
evidence_of-resumable d none none none ns an (some o) h =
    (o, refl, ground arith, ground arith, inr (refl, ground arith, ground arith))
evidence_of-resumable d none none none ns an none h = cc

evidence_of-run :
    (d : ℕ) (a b c : Option Run) (ns an : List Run) (o : Option Run)
    → (evidence_of d a b c ns an o).captured ≡ true
    → (evidence_of d a b c ns an o).run ≢ none
unfolding evidence_of
evidence_of-run d (some a) b c ns an o h e = cc
evidence_of-run d none (some b) c ns an o h e = cc
evidence_of-run d none none (some c) ns an o h e = cc
evidence_of-run d none none none ns an (some o) h e = cc
evidence_of-run d none none none ns an none h e = cc

module _ (d : ℕ) (runs : List Run) where
  -- The session of the date counts as captured exactly when some run of the date succeeded, or
  -- archived a summary of the date's own session.
  pub captured-eq :
      (evidence d runs).captured ≡ (any run_succeeded? runs || any shows_session? runs)
  unfolding evidence
  captured-eq = rw (
    ← is_some-last? run_succeeded? runs,
    ← is_some-last? shows_session? runs,
    evidence_of-captured d (last? (keep run_succeeded? runs)) (last? (keep shows_session? runs)),
  )

  -- A run that is to be resumed is one of the runs of the date, in a state that can be resumed, and
  -- its archived snapshot, if it has one, does not show that the date had another session.
  pub resumable-mem :
      {r : ℕ}
      → (evidence d runs).resumable_run ≡ some r
      → (x : Run) × Memᴰ x runs
        × (x.id ≡ r)
        × (is_resumable x.state ≡ true)
        × ((shows_session? x ≡ true) ⊎ ((no_session? d x ≡ false) × (anomaly? d x ≡ false)))
  unfolding evidence
  resumable-mem h =
      let ns = keep (no_session? d) (keep not_missed? runs) in
      let an = keep (anomaly? d) (keep not_missed? runs) in
      let shown = last? (keep shows_session? runs) in
      let latest = last? (keep not_missed? runs) in
      let (x, _, i, r, w) =
        evidence_of-resumable d (last? (keep run_succeeded? runs)) shown
          (last? (keep (λ r. r.missed_record) runs)) ns an latest h in
      elim w [
        | inl e ↦ let (m, t) = last?-keep shows_session? runs e in (x, m, i, r, inl t)
        | inr (e, n, a) ↦ (x, (last?-keep not_missed? runs e).0, i, r, inr (n, a))
      ]

  pub captured-run : (evidence d runs).captured ≡ true → (evidence d runs).run ≢ none
  unfolding evidence
  captured-run =
      evidence_of-run d (last? (keep run_succeeded? runs)) (last? (keep shows_session? runs))
        (last? (keep (λ r. r.missed_record) runs)) (keep (no_session? d) (keep not_missed? runs))
        (keep (anomaly? d) (keep not_missed? runs)) (last? (keep not_missed? runs))
