-- ===== src/AsOf/Visible/Shown.antt =====
-- What a mode shows passes its own test again document by document, and rests on nothing recorded
-- later.
use mathlib.Core.List.{Memᴰ}
use cse_analysis.Base.{
  ℕ, ◌≡◌, refl, sym, ◌∙◌, ap, subst, Bool, true, false, not, ◌&&◌, Option, none, some, List, [],
  ◌∷◌, map, arith, All, All-mem, mem-All, keep, null?, mem-keep, keep-mem, mem-map, mem-map_of,
  mem-null?, keep_idem, keep_comm, Bool-cases, Option-cases, ◌⊎◌, inl, inr, ltb, mem-uncons, ◌==◌,
  any-true,
}
use cse_analysis.Truth.Values.{minimum}
use cse_analysis.Truth.Values.Extrema.{best-mem, best-cons}
use cse_analysis.AsOf.Availability.{
  Run, observed_by, recorded_by, document_at, present_times, version_availability,
}
use cse_analysis.AsOf.Availability.Horizon.{version_availability-kept}
use cse_analysis.AsOf.Visible.{
  Mode, known, available, current, Evidence, version, time_of, visible, visible_at, shown,
  known_runs, filings_of, document_time, pending_runs, distinct, is_in, has_document, of_filing,
}

present-mem : (ats : List (Option ℕ)) {t : ℕ} → Memᴰ t (present_times ats) → Memᴰ (some t) ats
present-mem [] m = elim m [ ]
present-mem (none ∷ ats) m = Memᴰ.tail (present-mem ats m)
present-mem (some a ∷ ats) (Memᴰ.head e) = Memᴰ.head (ap some e)
present-mem (some a ∷ ats) (Memᴰ.tail m) = Memᴰ.tail (present-mem ats m)

minimum-some : (x : ℕ) (xs : List ℕ) → ¬ (minimum (x ∷ xs) ≡ none)
minimum-some x xs h = let (k, e) = best-cons ltb x xs in let q : some k ≡ none = sym e ∙ h in cc

-- The earliest of the times that pass passes.
document-visible :
    (mode : Mode) (cutoff : ℕ) (a : Option ℕ) (ats : List (Option ℕ))
    → All (λ b. visible_at mode cutoff b ≡ true) (a ∷ ats)
    → visible_at mode cutoff (document_at (a ∷ ats)) ≡ true
unfolding document_at
document-visible mode cutoff a ats every = elim (Option-cases (minimum (present_times (a ∷ ats)))) [
  | inr (t, e) ↦ rw e (
      All-mem (λ b. visible_at mode cutoff b ≡ true) every
        (present-mem (a ∷ ats) (best-mem ltb (present_times (a ∷ ats)) t e)))
  | inl e ↦ rw e (none-visible mode a every.0 e)
]
  where
    none-visible :
        (mode : Mode) (a : Option ℕ)
        → visible_at mode cutoff a ≡ true
        → minimum (present_times (a ∷ ats)) ≡ none
        → visible_at mode cutoff none ≡ true
    none-visible known a h e = refl
    none-visible current a h e = refl
    none-visible available none h e = h
    none-visible available (some t) h e = absurd (minimum-some t (present_times ats) e)

distinct-mem : (xs : List ℕ) {x : ℕ} → Memᴰ x (distinct xs) → Memᴰ x xs
distinct-mem [] m = elim m [ ]
distinct-mem (y ∷ ys) {x} m = elim (Bool-cases (is_in y (distinct ys))) [
  | inl e ↦ let m' : Memᴰ x (distinct ys) = rw e at m in Memᴰ.tail (distinct-mem ys m')
  | inr e ↦
      let m' : Memᴰ x (y ∷ distinct ys) = rw e at m in
      elim (mem-uncons m') [ inl q ↦ Memᴰ.head q | inr t ↦ Memᴰ.tail (distinct-mem ys t) ]
]

distinct-cons : (x : ℕ) (xs : List ℕ) → null? (distinct (x ∷ xs)) ≡ false
distinct-cons x xs = elim (Bool-cases (is_in x (distinct xs))) [
  | inr e ↦ rw e refl
  | inl e ↦ let (y, m, q) = any-true (λ z. z == x) (distinct xs) e in rw e (mem-null? m)
]

times-visible :
    (mode : Mode) (cutoff : ℕ) (ats : List (Option ℕ))
    → null? ats ≡ false
    → All (λ b. visible_at mode cutoff b ≡ true) ats
    → visible_at mode cutoff (document_at ats) ≡ true
times-visible mode cutoff [] n every = cc
times-visible mode cutoff (a ∷ ats) n every = document-visible mode cutoff a ats every

map-null? {ℓ κ} : {A : Type ℓ} {B : Type κ} (f : A → B) (xs : List A) → null? (map f xs) ≡ null? xs
map-null? f [] = refl
map-null? f (x ∷ xs) = refl

distinct-null? : (xs : List ℕ) → null? xs ≡ false → null? (distinct xs) ≡ false
distinct-null? [] h = cc
distinct-null? (x ∷ xs) h = distinct-cons x xs

document-eq : (r : Run) (sha : ℕ) → has_document sha r ≡ true → r.document ≡ sha
document-eq r sha h = ground arith

has_own : (r : Run) → has_document r.document r ≡ true
has_own r = ground arith

module _ (mode : Mode) (cutoff : ℕ) (e : Evidence) (horizon : ℕ) where
  filing-visible :
      (sha f : ℕ)
      → Memᴰ f (filings_of (shown mode cutoff e horizon) sha)
      → visible_at mode cutoff (time_of (version e horizon f sha)) ≡ true
  unfolding filings_of shown visible
  filing-visible sha f m =
      let (r, mr, q) = mem-map (λ (r : Run). r.filing) _ (distinct-mem _ m) in
      let k = keep-mem (has_document sha) (shown mode cutoff e horizon) mr in
      let v = keep-mem (visible mode cutoff e horizon) (known_runs e horizon) k.0 in
      subst (λ g. visible_at mode cutoff (time_of (version e horizon g sha)) ≡ true) (sym q)
        (subst (λ d. visible_at mode cutoff (time_of (version e horizon r.filing d)) ≡ true)
          (document-eq r sha k.1) v.1)

  -- The document of every version that a mode shows passes the mode's test again over the filings that
  -- are shown: the `EvidenceError` on a visible document that fails its own test is never raised.
  pub shown-visible :
      (r : Run)
      → Memᴰ r (shown mode cutoff e horizon)
      → visible_at mode cutoff (document_time mode cutoff e horizon r.document) ≡ true
  unfolding document_time filings_of
  shown-visible r m =
      let filings = filings_of (shown mode cutoff e horizon) r.document in
      let own =
        mem-map_of (λ (x : Run). x.filing) (mem-keep (has_document r.document) m (has_own r)) in
      let n : null? (map (λ f. time_of (version e horizon f r.document)) filings) ≡ false =
        map-null? (λ f. time_of (version e horizon f r.document)) filings
        ∙ distinct-null? _ (mem-null? own) in
      times-visible mode cutoff (map (λ f. time_of (version e horizon f r.document)) filings) n (
        mem-All (λ b. visible_at mode cutoff b ≡ true) _
          (λ b mb.
            let (f, mf, q) = mem-map (λ f. time_of (version e horizon f r.document)) filings mb in
            subst (λ x. visible_at mode cutoff x ≡ true) (sym q) (filing-visible r.document f mf)))

both : {a b : Bool} → a ≡ false → b ≡ true → (not a && b) ≡ true
both {a} {b} h k = ground arith

-- In the mode KNOWN every run that is held is shown, or pending, or another filing of its document is
-- shown: no document is dropped without a trace.
pub known-accounted :
    (cutoff : ℕ) (e : Evidence) (horizon : ℕ) (r : Run)
    → Memᴰ r (known_runs e horizon)
    → Memᴰ r (shown known cutoff e horizon)
      ⊎ (Memᴰ r (pending_runs cutoff e horizon)
          ⊎ (null? (filings_of (shown known cutoff e horizon) r.document) ≡ false))
unfolding shown pending_runs
known-accounted cutoff e horizon r m = elim (Bool-cases (visible known cutoff e horizon r)) [
  | inl v ↦ inl (mem-keep (visible known cutoff e horizon) m v)
  | inr v ↦ elim (Bool-cases (null? (filings_of (shown known cutoff e horizon) r.document))) [
    | inl n ↦ inr (inl (mem-keep _ m (both v n)))
    | inr n ↦ inr (inr n)
  ]
]

keep_ext {ℓ} :
    {A : Type ℓ} (p q : A → Bool) (xs : List A) → ((x : A) → p x ≡ q x) → keep p xs ≡ keep q xs
keep_ext p q [] h = refl
keep_ext p q (x ∷ xs) h = rw (h x, keep_ext p q xs h) refl

map_ext {ℓ κ} :
    {A : Type ℓ} {B : Type κ} (f g : A → B) (xs : List A)
    → ((x : A) → f x ≡ g x)
    → map f xs ≡ map g xs
map_ext f g [] h = refl
map_ext f g (x ∷ xs) h = rw (h x, map_ext f g xs h) refl

-- The evidence that had been recorded by a horizon.
unfoldable pub up_to : ℕ → Evidence → Evidence
up_to horizon e = record {
  runs = keep (recorded_by horizon) e.runs;
  seen_of = λ f. keep (observed_by horizon) (e.seen_of f);
}

version-up_to :
    (e : Evidence) (horizon f sha : ℕ)
    → version (up_to horizon e) horizon f sha ≡ version e horizon f sha
unfolding version up_to
version-up_to e horizon f sha =
    ap (λ rs. version_availability (keep (observed_by horizon) (e.seen_of f)) rs sha horizon)
      (keep_comm (of_filing f) (recorded_by horizon) e.runs)
    ∙ version_availability-kept (e.seen_of f) (keep (of_filing f) e.runs) sha horizon

shown-up_to :
    (mode : Mode) (cutoff : ℕ) (e : Evidence) (horizon : ℕ)
    → shown mode cutoff (up_to horizon e) horizon ≡ shown mode cutoff e horizon
unfolding shown up_to visible
shown-up_to mode cutoff e horizon =
    ap (keep (visible mode cutoff (up_to horizon e) horizon))
      (keep_idem (recorded_by horizon) e.runs)
    ∙ keep_ext (visible mode cutoff (up_to horizon e) horizon) (visible mode cutoff e horizon)
        (known_runs e horizon)
        (λ r.
          ap (λ v. visible_at mode cutoff (time_of v))
            (version-up_to e horizon r.filing r.document))

-- No look-ahead: what a query shows at a horizon, and when each document was available, is the same
-- over the evidence that had been recorded by the horizon as over all that has been recorded since.
pub visible-up_to :
    (mode : Mode) (cutoff : ℕ) (e : Evidence) (horizon sha : ℕ)
    → (shown mode cutoff (up_to horizon e) horizon ≡ shown mode cutoff e horizon)
      × (document_time mode cutoff (up_to horizon e) horizon sha
          ≡ document_time mode cutoff e horizon sha)
unfolding document_time
visible-up_to mode cutoff e horizon sha =
    let s = shown-up_to mode cutoff e horizon in
    (
      s,
      ap
            (λ rs.
              document_at
                (map (λ f. time_of (version (up_to horizon e) horizon f sha)) (filings_of rs sha)))
            s
          ∙ ap document_at (
              map_ext (λ f. time_of (version (up_to horizon e) horizon f sha))
                (λ f. time_of (version e horizon f sha))
                (filings_of (shown mode cutoff e horizon) sha)
                (λ f. ap time_of (version-up_to e horizon f sha))),
    )
