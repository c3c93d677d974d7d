-- ===== src/AsOf/Visible/Validated.antt =====
-- Which validation run speaks for an F5 run.
use mathlib.Core.List.{Memᴰ}
use cse_analysis.Base.{
  ℕ, ◌≤◌, ◌<◌, ◌≡◌, refl, sym, ap, Bool, ◌&&◌, true, false, Option, none, some, List, [], ◌∷◌,
  arith, keep, keep-mem, Bool-cases, Option-cases, inl, inr, ◌⊎◌, All, All-mem, mem-All, map,
  mem-map, mem-map_of, mem-keep, mem-null?, null?, leb, ltb,
}
use cse_analysis.Truth.Values.Extrema.{latest_by-All, best-mem, best-cons}
use cse_analysis.AsOf.Availability.{latest}
use cse_analysis.AsOf.Visible.{
  ValidationRun, Decision, MetadataAsOf, one, tied_runs, canonical_validation_run, link_at,
  decided_by, admits, published, may_be, one_of, same_time,
}

same_time-eq : (a b : Option ℕ) → same_time a b ≡ true → a ≡ b
same_time-eq a b h = ground arith

one_of-mem : (vs : List ValidationRun) (v : ValidationRun) → one_of vs ≡ one v → Memᴰ v vs
unfolding one_of
one_of-mem [] v h = cc
one_of-mem (x ∷ []) v h = Memᴰ.head (cc)
one_of-mem (x ∷ y ∷ vs) v h = cc

admits-parts :
    (versions horizon : ℕ) (link : Option ℕ) (v : ValidationRun)
    → admits versions horizon link v ≡ true
    → (v.versions ≡ versions) × (v.recorded_at ≤ horizon) × (v.issuer_link_id ≡ link)
admits-parts versions horizon link v h =
    (ground arith, ground arith, same_time-eq v.issuer_link_id link (ground arith))

-- The issuer decision in force at a horizon: none where each was decided after it; otherwise one that
-- was decided by it, and no later one was.
abbrev pub IsInForce : List Decision → ℕ → Option ℕ → Type 0
IsInForce ds horizon none = All (λ (d : Decision). horizon < d.decided_at) ds
IsInForce ds horizon (some i) =
    ((d : Decision) × Memᴰ d ds × (d.id ≡ i) × (d.decided_at ≤ horizon))
    × All (λ (d : Decision). (horizon < d.decided_at) ⊎ (d.id ≤ i)) ds

link_at-cons :
    (ds : List Decision) (horizon : ℕ) (d : Decision)
    → Memᴰ d ds
    → d.decided_at ≤ horizon
    → Memᴰ d.id (map (λ d. d.id) (keep (decided_by horizon) ds))
link_at-cons ds horizon d m l =
    mem-map_of (λ (d : Decision). d.id) (mem-keep (decided_by horizon) m (ground arith))

best-none : (xs : List ℕ) → latest xs ≡ none → xs ≡ []
best-none [] h = refl
best-none (x ∷ xs) h = let (k, e) = best-cons (λ a b. ltb b a) x xs in cc

link_at-IsInForce : (ds : List Decision) (horizon : ℕ) → IsInForce ds horizon (link_at ds horizon)
unfolding link_at
link_at-IsInForce ds horizon =
    let ids = map (λ (d : Decision). d.id) (keep (decided_by horizon) ds) in
    elim (Option-cases (latest ids)) [
      | inl e ↦ rw e (
          mem-All _ ds (λ d m. elim (Bool-cases (leb d.decided_at horizon)) [
            | inl l ↦
                (let k = mem-null? (link_at-cons ds horizon d m (ground arith)) in
                  let n : null? ids ≡ true = rw (best-none ids e) refl in cc)
            | inr l ↦ ground arith
          ]))
      | inr (i, e) ↦
          let (d, m, k) =
            mem-map (λ (d : Decision). d.id) (keep (decided_by horizon) ds)
              (best-mem (λ a b. ltb b a) ids i e) in
          let q = keep-mem (decided_by horizon) ds m in
          rw e (
            (d, q.0, sym k, ground arith),
            mem-All _ ds (λ d m. elim (Bool-cases (leb d.decided_at horizon)) [
              | inl l ↦ inr (
                  All-mem (λ x. x ≤ i) (latest_by-All ids i e)
                    (link_at-cons ds horizon d m (ground arith)))
              | inr l ↦ inl (ground arith)
            ]),
          )
    ]

same_time_refl : (a : Option ℕ) → same_time a a ≡ true
same_time_refl none = refl
same_time_refl (some a) = ground arith

IsInForce-unique :
    (ds : List Decision) (horizon : ℕ) (a b : Option ℕ)
    → IsInForce ds horizon a
    → IsInForce ds horizon b
    → a ≡ b
IsInForce-unique ds horizon none none x y = refl
IsInForce-unique ds horizon none (some j) x ((d, m, e, l), y) =
    let late = All-mem (λ (d : Decision). horizon < d.decided_at) x m in absurd (omega arith)
IsInForce-unique ds horizon (some i) none ((d, m, e, l), x) y =
    let late = All-mem (λ (d : Decision). horizon < d.decided_at) y m in absurd (omega arith)
IsInForce-unique ds horizon (some i) (some j) ((d, m, e, l), x) ((d', m', e', l'), y) =
    let p = All-mem (λ (d : Decision). (horizon < d.decided_at) ⊎ (d.id ≤ i)) x m' in
    let q = All-mem (λ (d : Decision). (horizon < d.decided_at) ⊎ (d.id ≤ j)) y m in
    ap some (ground arith)

-- A validation run that may speak for the F5 run
abbrev pub IsEligible : List Decision → Option ℕ → ℕ → ℕ → ValidationRun → Type 0
IsEligible ds uploaded_at versions horizon v =
    (v.versions ≡ versions)
    × (v.recorded_at ≤ horizon)
    × IsInForce ds horizon v.issuer_link_id
    × (v.publication_uploaded_at ≡ uploaded_at)

module _ (ds : List Decision) (uploaded_at : Option ℕ) (versions horizon : ℕ) where
  abbrev passes : ValidationRun → Bool
  passes v = admits versions horizon (link_at ds horizon) v && published uploaded_at v

  passes-IsEligible :
      (v : ValidationRun) → passes v ≡ true → IsEligible ds uploaded_at versions horizon v
  passes-IsEligible v h =
      let (a, b, c) = admits-parts versions horizon (link_at ds horizon) v (ground arith) in
      (
        a,
        b,
        rw c (link_at-IsInForce ds horizon),
        same_time-eq v.publication_uploaded_at uploaded_at (ground arith),
      )

  IsEligible-passes :
      (v : ValidationRun) → IsEligible ds uploaded_at versions horizon v → passes v ≡ true
  IsEligible-passes v (a, b, c, d) =
      let q =
        IsInForce-unique ds horizon v.issuer_link_id (link_at ds horizon) c
          (link_at-IsInForce ds horizon) in
      let same : same_time v.issuer_link_id (link_at ds horizon) ≡ true =
        rw q (same_time_refl (link_at ds horizon)) in
      let same' : published uploaded_at v ≡ true = rw d (same_time_refl uploaded_at) in ground arith

one_of-only :
    (vs : List ValidationRun) (v w : ValidationRun) → one_of vs ≡ one v → Memᴰ w vs → w ≡ v
unfolding one_of
one_of-only [] v w h m = cc
one_of-only (x ∷ []) v w h (Memᴰ.head e) = cc
one_of-only (x ∷ []) v w h (Memᴰ.tail m) = elim m [ ]
one_of-only (x ∷ y ∷ vs) v w h m = cc

-- The canonical validation run of an F5 run is the one that had been recorded by the horizon under the
-- versions asked for, used the issuer decision in force at the horizon (none where every decision came
-- after it; otherwise a decision by the horizon that no other by the horizon follows), and used the
-- publication time of the metadata: no other validation run of the F5 run did so. And it is chosen only
-- where that time does not depend on a tie.
pub canonical-one :
    (ds : List Decision) (meta : MetadataAsOf) (vs : List ValidationRun) (versions horizon : ℕ)
    (v : ValidationRun)
    → canonical_validation_run ds meta vs versions horizon ≡ one v
    → Memᴰ v vs
      × (meta.tie ≡ false)
      × IsEligible ds meta.uploaded_at versions horizon v
      × All (λ w. (w ≡ v) ⊎ (¬ IsEligible ds meta.uploaded_at versions horizon w)) vs
unfolding canonical_validation_run
canonical-one ds meta vs versions horizon v h = elim (Bool-cases meta.tie) [
  | inl e ↦
      let h' : tied_runs
            (keep (may_be meta) (keep (admits versions horizon (link_at ds horizon)) vs))
          ≡ one v =
        rw e at h in
      cc
  | inr e ↦
      let held = keep (admits versions horizon (link_at ds horizon)) vs in
      let h' : one_of (keep (published meta.uploaded_at) held) ≡ one v = rw e at h in
      let k = keep-mem (published meta.uploaded_at) held (one_of-mem _ v h') in
      let m = keep-mem (admits versions horizon (link_at ds horizon)) vs k.0 in
      (
        m.0,
        e,
        passes-IsEligible ds meta.uploaded_at versions horizon v (ground (arith, m.1, k.1)),
        mem-All _ vs (λ w mw. elim (Bool-cases (passes ds meta.uploaded_at versions horizon w)) [
          | inl p ↦ inl (
              one_of-only (keep (published meta.uploaded_at) held) v w h' (
                mem-keep (published meta.uploaded_at)
                  (mem-keep (admits versions horizon (link_at ds horizon)) mw (ground arith))
                  (ground arith)))
          | inr p ↦
              inr (λ el. let p' = IsEligible-passes ds meta.uploaded_at versions horizon w el in cc)
        ]),
      )
]
