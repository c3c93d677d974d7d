-- ===== src/AsOf/Availability/Floors.antt =====
-- No version becomes available too early.
use mathlib.Core.List.{Memᴰ}
use cse_analysis.Base.{
  ℕ, ◌+◌, ◌≤◌, ◌≡◌, refl, sym, ◌∙◌, ap, subst, true, Option, none, some, List, [], ◌∷◌, map, ltb,
  arith, keep, mem-keep, keep-mem, mem-++, mem-++_left, mem-++_right, mem-map_of, null?, inl, inr,
  Bool-cases, mem-map,
}
use cse_analysis.Scheduler.Schedule.{day_us, colombo_moment}
use cse_analysis.Truth.Values.Extrema.{latest_by-le, best-mem}
use cse_analysis.AsOf.Supersession.{gather}
use cse_analysis.AsOf.Availability.{
  Seen, SourceInstant, InstantKind, Endpoint, Run, Role, base, later, unordered,
  VersionAvailability, FilingAvailability, date_of, colombo_end_of_day, is_colombo_midnight,
  effective_of, instant_of, instants_of, latest, observed_by, filing_by, filing_availability,
  version_at, version_by, version_availability, recorded_by, of_document, role_of, present_times,
  latest_of,
}

-- A date-only value counts from the end of its day, so nothing is moved forward, and none by more than
-- a day.
pub effective_of-bounds : (t : ℕ) → (t ≤ effective_of t) × (effective_of t ≤ t + day_us)
unfolding effective_of date_of colombo_end_of_day is_colombo_midnight colombo_moment
effective_of-bounds t = ground arith

mem-gather {ℓ κ} :
    {A : Type ℓ} {B : Type κ} (f : A → List B) {x : A} {y : B} (xs : List A)
    → Memᴰ x xs
    → Memᴰ y (f x)
    → Memᴰ y (gather f xs)
mem-gather f [] m h = elim m [ ]
mem-gather f {y = y} (z ∷ zs) (Memᴰ.head e) h =
    mem-++_left (gather f zs) (subst (λ u. Memᴰ y (f u)) e h)
mem-gather f (z ∷ zs) (Memᴰ.tail m) h = mem-++_right (f z) (mem-gather f zs m h)

instant_of-effective :
    (e : Endpoint) (k : InstantKind) (f : Option (Option ℕ)) {i : SourceInstant}
    → Memᴰ i (instant_of e k f)
    → i.effective ≡ effective_of i.value
instant_of-effective e k (some (some v)) (Memᴰ.head q) = rw q refl
instant_of-effective e k (some (some v)) (Memᴰ.tail m) = elim m [ ]
instant_of-effective e k (some none) m = elim m [ ]
instant_of-effective e k none m = elim m [ ]

instants_of-effective :
    (o : Seen) {i : SourceInstant} → Memᴰ i (instants_of o) → i.effective ≡ effective_of i.value
instants_of-effective o m = elim (mem-++ (instant_of o.endpoint InstantKind.upload o.uploaded) m) [
  | inl l ↦ instant_of-effective o.endpoint InstantKind.upload o.uploaded l
  | inr r ↦ instant_of-effective o.endpoint InstantKind.authorization o.authorized r
]

-- A filing with an observed value has a time, no earlier than the value.
filing-le :
    (seen : List Seen) (horizon : ℕ) {o : Seen} {i : SourceInstant}
    → Memᴰ o seen
    → observed_by horizon o ≡ true
    → Memᴰ i (instants_of o)
    → (f : ℕ) × ((filing_availability seen horizon).at ≡ some f) × (i.value ≤ f)
unfolding filing_availability filing_by
filing-le seen horizon {o} {i} m h mi =
    let known =
      mem-gather instants_of (keep (observed_by horizon) seen) (mem-keep (observed_by horizon) m h)
        mi in
    let (f, e, le) =
      latest_by-le (map (λ j. j.effective) (gather instants_of (keep (observed_by horizon) seen)))
        (mem-map_of (λ (j : SourceInstant). j.effective) known) in
    let q = instants_of-effective o mi in
    let b = effective_of-bounds i.value in let b0 = b.0 in (f, e, omega arith)

latest-le : (f t' t : ℕ) (ts : List ℕ) → latest (f ∷ t' ∷ ts) ≡ some t → f ≤ t
latest-le f t' t ts h =
    let (m, e, le) = latest_by-le (f ∷ t' ∷ ts) (Memᴰ.head refl) in
    let q : some m ≡ some t = sym e ∙ h in ground arith

version_at-le :
    (r : Role) (f : ℕ) (times : List ℕ) (t : ℕ) → (version_at r (some f) times).0 ≡ some t → f ≤ t
unfolding version_at
version_at-le base f times t h = ground arith
version_at-le later f [] t h = cc
version_at-le later f (t' ∷ ts) t h = latest-le f t' t ts h
version_at-le unordered f [] t h = cc
version_at-le unordered f (t' ∷ ts) t h = latest-le f t' t ts h

abbrev at_of : Option VersionAvailability → Option ℕ
at_of none = none
at_of (some va) = va.at

version_by-at :
    (filing : FilingAvailability) (runs : List Run) (sha : ℕ) (va : VersionAvailability)
    → version_by filing runs sha ≡ some va
    → va.at
      ≡ (version_at (role_of runs sha) filing.at (
          present_times (
            latest_of (λ r. r.cdn_last_modified) (keep (of_document sha) runs)
            ∷ latest_of (λ r. r.path_epoch_at) (keep (of_document sha) runs)
            ∷ []))).0
unfolding version_by
version_by-at filing runs sha va h = elim (Bool-cases (null? (keep (of_document sha) runs))) [
  | inl e ↦ let h' : none ≡ some va = rw e at h in cc
  | inr e ↦ let h' = rw e at h in sym (ap at_of h')
]

-- A version is available no earlier than any upload or authorization that was observed of its filing
-- by the horizon, whatever was observed since and whichever of the filing's versions it is.
pub version-not_early :
    (seen : List Seen) (runs : List Run) (sha horizon : ℕ) (va : VersionAvailability) (t : ℕ)
    (o : Seen) (i : SourceInstant)
    → version_availability seen runs sha horizon ≡ some va
    → va.at ≡ some t
    → Memᴰ o seen
    → observed_by horizon o ≡ true
    → Memᴰ i (instants_of o)
    → i.value ≤ t
unfolding version_availability
version-not_early seen runs sha horizon va t o i h e m k mi =
    let (f, fe, le) = filing-le seen horizon m k mi in
    let q =
      version_by-at (filing_availability seen horizon) (keep (recorded_by horizon) runs) sha va h in
    let times = present_times (
      latest_of (λ r. r.cdn_last_modified)
        (keep (of_document sha) (keep (recorded_by horizon) runs))
      ∷ latest_of (λ r. r.path_epoch_at) (keep (of_document sha) (keep (recorded_by horizon) runs))
      ∷ []) in
    let r = role_of (keep (recorded_by horizon) runs) sha in
    let v : (version_at r (some f) times).0 ≡ some t =
      subst (λ a. (version_at r a times).0 ≡ some t) fe (sym q ∙ e) in
    let le' = version_at-le r f times t v in omega arith

later_observed : (o : Seen) (e e' : ℕ) → e ≤ e' → observed_by e o ≡ true → observed_by e' o ≡ true
later_observed o e e' le h = ground arith

mem-gather_inv {ℓ κ} :
    {A : Type ℓ} {B : Type κ} (f : A → List B) {y : B} (xs : List A)
    → Memᴰ y (gather f xs)
    → (x : A) × Memᴰ x xs × Memᴰ y (f x)
mem-gather_inv f [] m = elim m [ ]
mem-gather_inv f (x ∷ xs) m = elim (mem-++ (f x) m) [
  | inl l ↦ (x, Memᴰ.head refl, l)
  | inr r ↦ let (z, mz, q) = mem-gather_inv f xs r in (z, Memᴰ.tail mz, q)
]

-- As the horizon moves on, a filing's time never moves back, and it is never lost.
pub filing-monotone :
    (seen : List Seen) (e e' t : ℕ)
    → e ≤ e'
    → (filing_availability seen e).at ≡ some t
    → (t' : ℕ) × ((filing_availability seen e').at ≡ some t') × (t ≤ t')
unfolding filing_availability filing_by
filing-monotone seen e e' t le h =
    let (i, mi, q) =
      mem-map (λ (j : SourceInstant). j.effective) (gather instants_of (keep (observed_by e) seen))
        (best-mem (λ a b. ltb b a) _ t h) in
    let (o, mo, mio) = mem-gather_inv instants_of (keep (observed_by e) seen) mi in
    let k = keep-mem (observed_by e) seen mo in
    let mi' =
      mem-gather instants_of (keep (observed_by e') seen)
        (mem-keep (observed_by e') k.0 (later_observed o e e' le k.1)) mio in
    let (t', e'', le') =
      latest_by-le (map (λ j. j.effective) (gather instants_of (keep (observed_by e') seen)))
        (mem-map_of (λ (j : SourceInstant). j.effective) mi') in
    (t', e'', rw q le')
