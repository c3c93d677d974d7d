-- ===== src/AsOf/Knowledge/Chains.antt =====
-- An observation is known once its whole chain is, and not before.
use mathlib.Core.List.{Memᴰ}
use cse_analysis.Base.{
  ℕ, ◌≤◌, ◌≡◌, true, false, Option, none, some, List, [], ◌∷◌, map, All, null?, Bool-cases, inl,
  inr, ◌⊎◌, Option-cases, ltb, arith,
}
use cse_analysis.Truth.Values.{best}
use cse_analysis.Truth.Values.Extrema.{latest_by-All, best-All, best-mem}
use cse_analysis.AsOf.Availability.{Seen, latest}
use cse_analysis.AsOf.Knowledge.{
  Chain, Found, RunRow, ValidationRow, known_at, links, missing_terms, links_of, missing_of,
  first_observation, earlier,
}

known_at-whole : (c : Chain) (t : ℕ) → (known_at c).at ≡ some t → null? (missing_terms c) ≡ true
unfolding known_at
known_at-whole c t h = elim (Bool-cases (null? (missing_terms c))) [
  | inl e ↦ e
  | inr e ↦ let h' : none ≡ some t = rw e at h in cc
]

known_at-latest :
    (c : Chain) (t : ℕ)
    → (known_at c).at ≡ some t
    → latest (map (λ l. l.found.time) (links c)) ≡ some t
unfolding known_at
known_at-latest c t h = let e = known_at-whole c t h in rw e at h

first_is_first :
    (seen : List Seen) (o : Found)
    → first_observation seen ≡ some o
    → ((x : Seen) × Memᴰ x seen × (o.time ≡ x.observed_at))
      × All (λ (x : Seen). o.time ≤ x.observed_at) seen
unfolding first_observation
first_is_first seen o h = elim (Option-cases (best earlier seen)) [
  | inl e ↦ let h' : none ≡ some o = rw (e, first_observation) at h in cc
  | inr (x, e) ↦
      let h' : some (record { key = x.id; time = x.observed_at }) ≡ some o =
        rw (e, first_observation) at h in
      let q : o.time ≡ x.observed_at = cc in
      (
        (x, best-mem earlier seen x e, q),
        rw q (
            best-All earlier (λ (a b : Seen). a.observed_at ≤ b.observed_at) (λ a. omega arith)
              (λ a b c p q. omega arith) (λ a b p. ground arith) (λ a b p. ground arith) seen x e),
      )
]

-- A row that is there, and was by a time; a run with its classification; a validation run with the
-- issuer decision, if it names one.
abbrev pub IsFoundBy : ℕ → Option Found → Type 0
IsFoundBy t none = ⊥
IsFoundBy t (some f) = f.time ≤ t

abbrev pub IsRunBy : ℕ → Option RunRow → Type 0
IsRunBy t none = ⊥
IsRunBy t (some r) = (r.row.time ≤ t) × IsFoundBy t r.classification

abbrev pub IsDecidedBy : ℕ → Option (Option Found) → Type 0
IsDecidedBy t none = Unit {0}
IsDecidedBy t (some d) = IsFoundBy t d

abbrev pub IsValidatedBy : ℕ → Option ValidationRow → Type 0
IsValidatedBy t none = ⊥
IsValidatedBy t (some v) = (v.row.time ≤ t) × IsDecidedBy t v.decision

-- A time at which one of the rows was recorded
abbrev pub IsFoundAt : ℕ → Option Found → Type 0
IsFoundAt t none = ⊥
IsFoundAt t (some f) = t ≡ f.time

abbrev pub IsRunAt : ℕ → Option RunRow → Type 0
IsRunAt t none = ⊥
IsRunAt t (some r) = (t ≡ r.row.time) ⊎ IsFoundAt t r.classification

abbrev pub IsDecidedAt : ℕ → Option (Option Found) → Type 0
IsDecidedAt t none = ⊥
IsDecidedAt t (some d) = IsFoundAt t d

abbrev pub IsValidatedAt : ℕ → Option ValidationRow → Type 0
IsValidatedAt t none = ⊥
IsValidatedAt t (some v) = (t ≡ v.row.time) ⊎ IsDecidedAt t v.decision

-- A time by which all was there, and not before
abbrev IsWhole : ℕ → Option Found → Option RunRow → Option ValidationRow → Found → Type 0
IsWhole t o r v s =
    IsFoundBy t o
    × IsRunBy t r
    × IsValidatedBy t v
    × (s.time ≤ t)
    × (IsFoundAt t o ⊎ (IsRunAt t r ⊎ (IsValidatedAt t v ⊎ (t ≡ s.time))))

whole_parts :
    (t : ℕ) (o k : Option Found) (d : Option (Option Found)) (r v s : Found)
    → let run : Option RunRow = some (record { row = r; classification = k }) in
      let validation : Option ValidationRow = some (record { row = v; decision = d }) in
      null? (missing_of o run validation) ≡ true
      → latest (map (λ l. l.found.time) (links_of o run validation s)) ≡ some t
      → IsWhole t o run validation s
whole_parts t none k d r v s n e = cc
whole_parts t (some o) none d r v s n e = cc
whole_parts t (some o) (some k) (some none) r v s n e = cc
whole_parts t (some o) (some k) none r v s n e =
    let a = latest_by-All (o.time ∷ k.time ∷ r.time ∷ v.time ∷ s.time ∷ []) t e in
    let m = best-mem (λ a b. ltb b a) (o.time ∷ k.time ∷ r.time ∷ v.time ∷ s.time ∷ []) t e in
    (
      a.0,
      (a.1.1.0, a.1.0),
      (a.1.1.1.0, tt),
      a.1.1.1.1.0,
      elim m [
        | Memᴰ.head q ↦ inl q
        | Memᴰ.tail (Memᴰ.head q) ↦ inr (inl (inr q))
        | Memᴰ.tail (Memᴰ.tail (Memᴰ.head q)) ↦ inr (inl (inl q))
        | Memᴰ.tail (Memᴰ.tail (Memᴰ.tail (Memᴰ.head q))) ↦ inr (inr (inl (inl q)))
        | Memᴰ.tail (Memᴰ.tail (Memᴰ.tail (Memᴰ.tail (Memᴰ.head q)))) ↦ inr (inr (inr q))
        | Memᴰ.tail (Memᴰ.tail (Memᴰ.tail (Memᴰ.tail (Memᴰ.tail x)))) ↦ elim x [ ]
      ],
    )
whole_parts t (some o) (some k) (some (some d)) r v s n e =
    let a = latest_by-All (o.time ∷ k.time ∷ d.time ∷ r.time ∷ v.time ∷ s.time ∷ []) t e in
    let m =
      best-mem (λ a b. ltb b a) (o.time ∷ k.time ∷ d.time ∷ r.time ∷ v.time ∷ s.time ∷ []) t e in
    (
      a.0,
      (a.1.1.1.0, a.1.0),
      (a.1.1.1.1.0, a.1.1.0),
      a.1.1.1.1.1.0,
      elim m [
        | Memᴰ.head q ↦ inl q
        | Memᴰ.tail (Memᴰ.head q) ↦ inr (inl (inr q))
        | Memᴰ.tail (Memᴰ.tail (Memᴰ.head q)) ↦ inr (inr (inl (inr q)))
        | Memᴰ.tail (Memᴰ.tail (Memᴰ.tail (Memᴰ.head q))) ↦ inr (inl (inl q))
        | Memᴰ.tail (Memᴰ.tail (Memᴰ.tail (Memᴰ.tail (Memᴰ.head q)))) ↦ inr (inr (inl (inl q)))
        | Memᴰ.tail (Memᴰ.tail (Memᴰ.tail (Memᴰ.tail (Memᴰ.tail (Memᴰ.head q))))) ↦
            inr (inr (inr q))
        | Memᴰ.tail (Memᴰ.tail (Memᴰ.tail (Memᴰ.tail (Memᴰ.tail (Memᴰ.tail x))))) ↦ elim x [ ]
      ],
    )

whole :
    (t : ℕ) (o : Option Found) (r : Option RunRow) (v : Option ValidationRow) (s : Found)
    → null? (missing_of o r v) ≡ true
    → latest (map (λ l. l.found.time) (links_of o r v s)) ≡ some t
    → IsWhole t o r v s
whole t none r v s n e = cc
whole t (some o) none v s n e = cc
whole t (some o) (some r) none s n e = elim (Option-cases r.classification) [
  | inl k ↦ let n' : false ≡ true = rw k at n in cc
  | inr (f, k) ↦ let n' : false ≡ true = rw k at n in cc
]
whole t (some o) (some r) (some v) s n e =
    whole_parts t (some o) r.classification v.decision r.row v.row s n e

-- The time at which an observation is known is the time at which the last row of its chain was
-- recorded: by it the filing had been observed, the F5 run and its classification were there, so were the
-- validation run, with the issuer decision where it names one, and the observation itself; and it is
-- the time of one of these, the filing's being that of its first observation.
pub known_at-links :
    (c : Chain) (t : ℕ)
    → (known_at c).at ≡ some t
    → (o : Found) × (first_observation c.seen ≡ some o)
      × ((x : Seen) × Memᴰ x c.seen × (o.time ≡ x.observed_at))
      × All (λ (x : Seen). o.time ≤ x.observed_at) c.seen
      × (o.time ≤ t)
      × IsRunBy t c.run
      × IsValidatedBy t c.validation
      × (c.stored.time ≤ t)
      × ((t ≡ o.time) ⊎ (IsRunAt t c.run ⊎ (IsValidatedAt t c.validation ⊎ (t ≡ c.stored.time))))
unfolding links missing_terms
known_at-links c t h =
    let w =
      whole t (first_observation c.seen) c.run c.validation c.stored (known_at-whole c t h)
        (known_at-latest c t h) in
    elim (Option-cases (first_observation c.seen)) [
      | inl e ↦ absurd (rw e at w.0)
      | inr (o, e) ↦
          let f = first_is_first c.seen o e in
          (o, e, f.0, f.1, rw e at w.0, w.1, w.2, w.3, rw e at w.4)
    ]
