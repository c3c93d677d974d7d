-- ===== src/AsOf/Supersession/Survivors.antt =====
-- Which observations of a fact outlive the supersession of its versions.
use mathlib.Core.List.{Memᴰ}
use cse_analysis.Base.{
  mem-null?, ℕ, suc, ◌≤◌, ◌≡◌, refl, ◌∙◌, sym, ap, ◌↔◌, Bool, true, false, not, ◌&&◌, ◌||◌, Option,
  none, some, List, [], ◌∷◌, ◌++◌, arith, null?, any, ltb, ◌==◌, All, All-mem, Bool-cases, ◌⊎◌, inl,
  inr, any-true, mem-any, any-false, mem-keep, keep-mem, sort_by, mem-sort_by, sort_by-All, mem-All,
}
use cse_analysis.Truth.Values.{best}
use cse_analysis.Truth.Values.Extrema.{best-mem, best-All, best-cons}
use cse_analysis.AsOf.Supersession.{
  Candidate, DocumentTimes, supersedes, later_than, so_key, ambiguities_of, derive, derive_sorted,
  kept, gather, dropped_entry, by_key,
}
use cse_analysis.AsOf.Supersession.Order.{supersedes-declared}

any-++ {ℓ} :
    {A : Type ℓ} (p : A → Bool) (xs ys : List A) → any p (xs ++ ys) ≡ (any p xs || any p ys)
any-++ p [] ys = refl
any-++ p (x ∷ xs) ys = let ih = any-++ p xs ys in ground arith

any-gather {ℓ κ} :
    {A : Type ℓ} {B : Type κ} (p : B → Bool) (f : A → List B) (xs : List A)
    → any p (gather f xs) ≡ any (λ x. any p (f x)) xs
any-gather p f [] = refl
any-gather p f (x ∷ xs) =
    any-++ p (f x) (gather f xs) ∙ ap (λ b. any p (f x) || b) (any-gather p f xs)

any-dropped_entry :
    (times : DocumentTimes) (cands : List Candidate) (k : ℕ) (o : Candidate)
    → any (λ (d : ℕ × List ℕ). d.0 == k) (dropped_entry times cands o)
      ≡ ((so_key o == k) && any (λ s. supersedes times s o) cands)
any-dropped_entry times cands k o = elim (Bool-cases (any (λ s. supersedes times s o) cands)) [
  | inl e ↦ rw e (ground arith)
  | inr e ↦ rw e (ground arith)
]

any_ext {ℓ} :
    {A : Type ℓ} (p q : A → Bool) (xs : List A) → ((x : A) → p x ≡ q x) → any p xs ≡ any q xs
any_ext p q [] h = refl
any_ext p q (x ∷ xs) h = rw (h x, any_ext p q xs h) refl

-- No two of the candidates have one key, which identifies a source observation.
unfoldable pub KeysDistinct : List Candidate → Type 0
KeysDistinct cands = (a b : Candidate) → Memᴰ a cands → Memᴰ b cands → so_key a ≡ so_key b → a ≡ b

-- An entry names a candidate exactly when another supersedes it.
any-dropped :
    (times : DocumentTimes) (cands : List Candidate) (c : Candidate)
    → KeysDistinct cands
    → Memᴰ c cands
    → any (λ (d : ℕ × List ℕ). d.0 == so_key c) (gather (dropped_entry times cands) cands)
      ≡ any (λ s. supersedes times s c) cands
unfolding KeysDistinct
any-dropped times cands c distinct m =
    let hit : Candidate → Bool =
      λ o. (so_key o == so_key c) && any (λ s. supersedes times s o) cands in
    any-gather (λ d. d.0 == so_key c) (dropped_entry times cands) cands
    ∙ any_ext (λ o. any (λ d. d.0 == so_key c) (dropped_entry times cands o)) hit cands
        (any-dropped_entry times cands (so_key c))
    ∙ elim (Bool-cases (any (λ s. supersedes times s c) cands)) [
      | inl e ↦ mem-any hit m (ground arith) ∙ sym e
      | inr e ↦ elim (Bool-cases (any hit cands)) [
        | inr n ↦ n ∙ sym e
        | inl y ↦
            let (o, mo, h) = any-true hit cands y in
            let k : so_key o ≡ so_key c = ground arith in
            let q : o ≡ c = distinct o c mo m k in
            let t : any (λ s. supersedes times s o) cands ≡ true = ground arith in
            let t' : any (λ s. supersedes times s c) cands ≡ true = rw (← q) t in cc
      ]
    ]

sorted-mem : (cands : List Candidate) (c : Candidate) → Memᴰ c (sort_by by_key cands) → Memᴰ c cands
sorted-mem cands c =
    All-mem (λ x. Memᴰ x cands)
      (sort_by-All by_key (λ x. Memᴰ x cands) cands (mem-All (λ x. Memᴰ x cands) cands (λ x m. m)))

KeysDistinct-sorted :
    (cands : List Candidate) → KeysDistinct cands → KeysDistinct (sort_by by_key cands)
unfolding KeysDistinct
KeysDistinct-sorted cands h a b ma mb = h a b (sorted-mem cands a ma) (sorted-mem cands b mb)

-- Whether the records of a fact drop a candidate.
dropped? : List Candidate → DocumentTimes → Candidate → Bool
dropped? cands times c =
    any (λ (d : ℕ × List ℕ). d.0 == so_key c) (derive cands times).superseded_by

dropped-derive :
    (cands : List Candidate) (times : DocumentTimes) (c : Candidate)
    → KeysDistinct cands
    → Memᴰ c cands
    → dropped? cands times c ≡ (
        null? (ambiguities_of times (sort_by by_key cands))
        && any (λ s. supersedes times s c) (sort_by by_key cands))
unfolding dropped? derive derive_sorted
dropped-derive cands times c distinct m =
    let sorted = sort_by by_key cands in
    elim (Bool-cases (null? (ambiguities_of times sorted))) [
      | inr e ↦ rw e refl
      | inl e ↦ rw e (
          any-dropped times sorted c (KeysDistinct-sorted cands distinct)
            (mem-sort_by by_key cands m))
    ]

derived-ambiguities :
    (cands : List Candidate) (times : DocumentTimes)
    → null? (derive cands times).ambiguities ≡ null? (ambiguities_of times (sort_by by_key cands))
unfolding derive derive_sorted
derived-ambiguities cands times =
    elim (Bool-cases (null? (ambiguities_of times (sort_by by_key cands)))) [
      | inl e ↦ rw e refl
      | inr e ↦ rw e e
    ]

any-sorted :
    (times : DocumentTimes) (cands : List Candidate) (c : Candidate)
    → any (λ s. supersedes times s c) (sort_by by_key cands) ≡ any (λ s. supersedes times s c) cands
any-sorted times cands c =
    let hit : Candidate → Bool = λ s. supersedes times s c in
    elim (Bool-cases (any hit cands)) [
      | inl e ↦
          let (s, m, h) = any-true hit cands e in mem-any hit (mem-sort_by by_key cands m) h ∙ sym e
      | inr e ↦ elim (Bool-cases (any hit (sort_by by_key cands))) [
        | inr n ↦ n ∙ sym e
        | inl y ↦
            let (s, m, h) = any-true hit (sort_by by_key cands) y in
            let f = any-false hit e (sorted-mem cands s m) in cc
      ]
    ]

not-&&_iff : (x y z : Bool) → x ≡ (y && z) → (not x ≡ true) ↔ ((y ≡ false) ⊎ (z ≡ false))
not-&&_iff x y z h = ground arith

dropped_iff :
    (cands : List Candidate) (times : DocumentTimes) (c : Candidate)
    → KeysDistinct cands
    → Memᴰ c cands
    → (not (dropped? cands times c) ≡ true) ↔ (
        (null? (derive cands times).ambiguities ≡ false)
        ⊎ (any (λ s. supersedes times s c) cands ≡ false))
dropped_iff cands times c distinct m =
    let d = dropped-derive cands times c distinct m in
    let e : (null? (ambiguities_of times (sort_by by_key cands))
          && any (λ s. supersedes times s c) (sort_by by_key cands))
        ≡ (null? (derive cands times).ambiguities && any (λ s. supersedes times s c) cands) =
      rw (derived-ambiguities cands times, any-sorted times cands c) refl in
    not-&&_iff (dropped? cands times c) (null? (derive cands times).ambiguities)
      (any (λ s. supersedes times s c) cands) (d ∙ e)

-- Of candidates with distinct keys, one is kept exactly when the fact has an ambiguity, which keeps
-- them all, or no candidate supersedes it.
pub kept-derive_iff :
    (cands : List Candidate) (times : DocumentTimes) (c : Candidate)
    → KeysDistinct cands
    → Memᴰ c cands
    → Memᴰ c (kept (derive cands times) cands) ↔ (
        (null? (derive cands times).ambiguities ≡ false)
        ⊎ (any (λ s. supersedes times s c) cands ≡ false))
unfolding kept dropped?
kept-derive_iff cands times c distinct m =
    let keeps : Candidate → Bool = λ x. not (dropped? cands times x) in
    let iff = dropped_iff cands times c distinct m in
    (λ k. iff.0 (keep-mem keeps cands k).1, λ h. mem-keep keeps m (iff.1 h))

-- `None` before every instant
rank : Option ℕ → ℕ
rank none = 0
rank (some t) = suc t

latest : List Candidate → Option Candidate
latest = best (λ a b. ltb (rank b.available_at) (rank a.available_at))

latest-cons : (c : Candidate) (cs : List Candidate) → (k : Candidate) × (latest (c ∷ cs) ≡ some k)
unfolding latest
latest-cons c cs = best-cons (λ a b. ltb (rank b.available_at) (rank a.available_at)) c cs

not_later : (a b : Option ℕ) → rank b ≤ rank a → later_than b a ≡ false
unfolding rank
not_later a b h = ground arith

-- Nothing supersedes the latest of the candidates.
latest-unsuperseded :
    (times : DocumentTimes) (cands : List Candidate) (c : Candidate)
    → latest cands ≡ some c
    → any (λ s. supersedes times s c) cands ≡ false
unfolding latest
latest-unsuperseded times cands c h = elim (Bool-cases (any (λ s. supersedes times s c) cands)) [
  | inr e ↦ e
  | inl e ↦
      let (s, m, q) = any-true (λ s. supersedes times s c) cands e in
      let bound : All (λ x. rank x.available_at ≤ rank c.available_at) cands =
        best-All (λ a b. ltb (rank b.available_at) (rank a.available_at))
          (λ a b. rank b.available_at ≤ rank a.available_at) (λ a. omega arith)
          (λ a b c p q. omega arith) (λ a b p. ground arith) (λ a b p. ground arith) cands c h in
      let r = All-mem (λ x. rank x.available_at ≤ rank c.available_at) bound m in
      let n = not_later c.available_at s.available_at r in
      let l = (supersedes-declared times s c q).1 in cc
]

-- Supersession never empties a fact: of candidates with distinct keys, one at least is kept.
pub kept-nonempty :
    (times : DocumentTimes) (c : Candidate) (cs : List Candidate)
    → KeysDistinct (c ∷ cs)
    → null? (kept (derive (c ∷ cs) times) (c ∷ cs)) ≡ false
unfolding latest
kept-nonempty times c cs distinct =
    let (k, e) = latest-cons c cs in
    let m : Memᴰ k (c ∷ cs) =
      best-mem (λ a b. ltb (rank b.available_at) (rank a.available_at)) (c ∷ cs) k e in
    mem-null? (
      (kept-derive_iff (c ∷ cs) times k distinct m).1
        (inr (latest-unsuperseded times (c ∷ cs) k e)))
