-- ===== src/AsOf/Configuration/InForce.antt =====
-- The designation in force, and what a query resolves to.
use mathlib.Core.List.{Memᴰ}
use cse_analysis.Base.{
  ℕ, ◌≤◌, ◌<◌, ◌≡◌, refl, true, false, Option, none, some, List, ◌∷◌, arith, All, keep, keep-mem,
}
use cse_analysis.Truth.Values.Extrema.{best-mem, best-All}
use cse_analysis.AsOf.Configuration.{
  Designation, canonical, eligible, higher_id, in_force, F8Configuration, Evidence, resolved,
  resolve, resolve_row, resolve_f6, resolve_designated,
}

-- The designation in force at a time is one of its purpose, recorded at or before that time, and none
-- of those has a higher id.
pub in_force-best :
    (ds : List Designation) (at purpose : ℕ) (d : Designation)
    → in_force ds at purpose ≡ some d
    → Memᴰ d ds
      × (d.purpose ≡ purpose)
      × (d.recorded_at ≤ at)
      × All (λ (x : Designation). x.id ≤ d.id) (keep (eligible at purpose) ds)
unfolding in_force
in_force-best ds at purpose d h =
    let kept =
      keep-mem (eligible at purpose) ds (best-mem higher_id (keep (eligible at purpose) ds) d h) in
    let e = kept.1 in
    (
      kept.0,
      ground arith,
      ground arith,
      best-All higher_id (λ a b. b.id ≤ a.id) (λ a. omega arith) (λ a b c p q. omega arith)
          (λ a b p. ground arith) (λ a b p. ground arith) (keep (eligible at purpose) ds) d h,
    )

ineligible : (d : Designation) (at purpose : ℕ) → at < d.recorded_at → eligible at purpose d ≡ false
ineligible d at purpose h = ground arith

row-designations :
    (e : Evidence) (ds : List Designation) (row : Option (Option F8Configuration))
    (d : Option Designation)
    → resolve_row (record e { designations = ds }) row d ≡ resolve_row e row d
unfolding resolve_row
row-designations e ds none d = refl
row-designations e ds (some none) d = refl
row-designations e ds (some (some c)) d = refl

designated-designations :
    (e : Evidence) (ds : List Designation) (d : Option Designation)
    → resolve_designated (record e { designations = ds }) d ≡ resolve_designated e d
unfolding resolve_designated
designated-designations e ds none = refl
designated-designations e ds (some d) =
    row-designations e ds (e.f8_configurations d.configuration_id) (some d)

-- A designation that is recorded later changes nothing at an earlier time: what a query resolves to at
-- a governing time, pinned or not, stays what it was.
pub resolve-later :
    (e : Evidence) (d : Designation) (pinned : Option ℕ) (at : ℕ)
    → at < d.recorded_at
    → resolve (record e { designations = d ∷ e.designations }) pinned at ≡ resolve e pinned at
unfolding resolve in_force
resolve-later e d (some k) at h =
    row-designations e (d ∷ e.designations) (e.f8_configurations k) none
resolve-later e d none at h =
    rw (ineligible d at canonical h)
      (designated-designations e (d ∷ e.designations) (in_force e.designations at canonical))

resolve_row-implemented :
    (e : Evidence) (row : Option (Option F8Configuration)) (d designated : Option Designation)
    (c : F8Configuration)
    → resolve_row e row d ≡ resolved c designated
    → (c.implemented ≡ true) × (e.f6_configurations c.f6_configuration_id ≡ some true)
unfolding resolve_row resolve_f6
resolve_row-implemented e row d designated c h = ground arith

resolve_designated-implemented :
    (e : Evidence) (d designated : Option Designation) (c : F8Configuration)
    → resolve_designated e d ≡ resolved c designated
    → (c.implemented ≡ true) × (e.f6_configurations c.f6_configuration_id ≡ some true)
unfolding resolve_designated
resolve_designated-implemented e none designated c h = cc
resolve_designated-implemented e (some d) designated c h =
    resolve_row-implemented e (e.f8_configurations d.configuration_id) (some d) designated c h

-- A query computes only under a configuration whose rule versions are implemented, and whose F6
-- configuration is registered and of the implemented versions.
pub resolve-implemented :
    (e : Evidence) (pinned : Option ℕ) (at : ℕ) (designated : Option Designation)
    (c : F8Configuration)
    → resolve e pinned at ≡ resolved c designated
    → (c.implemented ≡ true) × (e.f6_configurations c.f6_configuration_id ≡ some true)
unfolding resolve
resolve-implemented e (some k) at designated c h =
    resolve_row-implemented e (e.f8_configurations k) none designated c h
resolve-implemented e none at designated c h =
    resolve_designated-implemented e (in_force e.designations at canonical) designated c h
