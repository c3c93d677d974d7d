-- ===== src/Truth/Selection/Latest.antt =====
-- The run selected for a document is its latest accepted one.
use mathlib.Core.List.{Memᴰ}
use cse_analysis.Base.{
  ℕ, ◌≡◌, refl, sym, ap, subst, ◌∙◌, Bool, true, false, not, ◌&&◌, Option, none, some, List, [],
  ◌∷◌, map, arith, All, mem-All, any, any-true, any-false, mem-uncons, mem-map, mem-map_of,
  mem-keep, mem-sort_by, sort_by, sort_by-All, All-mem, leb, keep, keep-mem, Bool-cases,
  Option-cases, inl, inr, ◌==◌,
}
use cse_analysis.Truth.Values.{best}
use cse_analysis.Truth.Values.Extrema.{best-mem, best-All}
use cse_analysis.Truth.Selection.{
  F5RunRef, ReconciliationConfiguration, RunSelection, Selection, comes_later, choose,
  select_documents, document_keys, select_sorted, select_runs, unique_runs, is_accepted,
  of_document, is_unrecorded, same_time, same_run, has_id, clashes, distinct, is_in, id_le,
}

abbrev NotBefore : F5RunRef → F5RunRef → Type 0
NotBefore a b = comes_later b a ≡ false

choose-latest :
    (rs : List F5RunRef) (r : F5RunRef)
    → choose rs ≡ some r
    → Memᴰ r rs × All (λ s. comes_later s r ≡ false) rs
unfolding choose
choose-latest [] r h = (best-mem comes_later [] r h, tt)
choose-latest (x ∷ []) r h =
    let q : x ≡ r = cc in
    (Memᴰ.head (sym q), (subst (λ y. comes_later x y ≡ false) q (ground arith), tt))
choose-latest (x ∷ y ∷ rs) r h = elim (Bool-cases (any is_unrecorded (x ∷ y ∷ rs))) [
  | inl e ↦ let h' : none ≡ some r = rw e at h in cc
  | inr e ↦
      let h' : best comes_later (x ∷ y ∷ rs) ≡ some r = rw e at h in
      (
        best-mem comes_later (x ∷ y ∷ rs) r h',
        best-All comes_later NotBefore (λ a. ground arith) (λ a b c p q. ground arith)
            (λ a b p. ground arith) (λ a b p. p) (x ∷ y ∷ rs) r h',
      )
]

-- What a selection of a document promises
abbrev pub IsSelected : List F5RunRef → RunSelection → Type 0
IsSelected accepted d =
    (d.accepted_runs ≡ keep (of_document d.document_sha256) accepted)
    × Memᴰ d.selected d.accepted_runs
    × All (λ s. comes_later s d.selected ≡ false) d.accepted_runs

select_documents-IsSelected :
    (accepted : List F5RunRef) (shas : List ℕ) (ds : List RunSelection)
    → select_documents accepted shas ≡ some ds
    → (map (λ (d : RunSelection). d.document_sha256) ds ≡ shas) × All (IsSelected accepted) ds
unfolding select_documents
select_documents-IsSelected accepted [] ds h =
    let q : [] ≡ ds = cc in
    subst
      (λ xs. (map (λ (d : RunSelection). d.document_sha256) xs ≡ []) × All (IsSelected accepted) xs)
      q (refl, tt)
select_documents-IsSelected accepted (sha ∷ shas) ds h =
    elim (Option-cases (choose (keep (of_document sha) accepted))) [
      | inl e ↦ let h' : none ≡ some ds = rw (select_documents, e) at h in cc
      | inr (r, e) ↦ elim (Option-cases (select_documents accepted shas)) [
        | inl f ↦ let h' : none ≡ some ds = rw (select_documents, e, f) at h in cc
        | inr (rest, f) ↦
            let d : RunSelection = record {
              document_sha256 = sha;
              selected = r;
              accepted_runs = keep (of_document sha) accepted;
            } in
            let h' : some (d ∷ rest) ≡ some ds = rw (select_documents, e, f) at h in
            let q : d ∷ rest ≡ ds = cc in
            let (names, all) = select_documents-IsSelected accepted shas rest f in
            subst
              (λ xs.
                (map (λ (d : RunSelection). d.document_sha256) xs ≡ sha ∷ shas)
                × All (IsSelected accepted) xs)
              q
              (let c = choose-latest (keep (of_document sha) accepted) r e in
                (ap (λ ns. sha ∷ ns) names, ((refl, c.0, c.1), all)))
      ]
    ]

time_eq : (a b : Option ℕ) → same_time a b ≡ true → a ≡ b
time_eq a b h = ground arith

run_eq : (a b : F5RunRef) → same_run a b ≡ true → a ≡ b
run_eq a b h =
    let t = time_eq a.recorded_at b.recorded_at (ground arith) in
    let e1 : a.f5_run_id ≡ b.f5_run_id = ground arith in
    let e2 : a.cse_filing_id ≡ b.cse_filing_id = ground arith in
    let e3 : a.document_sha256 ≡ b.document_sha256 = ground arith in
    let e4 : a.f3_version ≡ b.f3_version = ground arith in
    let e5 : a.f4_version ≡ b.f4_version = ground arith in
    let e6 : a.f5_version ≡ b.f5_version = ground arith in
    let e7 : a.other_fields ≡ b.other_fields = ground arith in cc

not_clashing : (p q : Bool) → (p && not q) ≡ false → p ≡ true → q ≡ true
not_clashing p q h k = ground arith

-- The runs by id are the runs.
unique_runs-mem :
    (runs us : List F5RunRef)
    → unique_runs runs ≡ some us
    → ((r : F5RunRef) → Memᴰ r runs → Memᴰ r us) × ((r : F5RunRef) → Memᴰ r us → Memᴰ r runs)
unfolding unique_runs
unique_runs-mem [] us h =
    let q : [] ≡ us = cc in (λ r m. elim m [ ], λ r m. subst (λ xs. Memᴰ r xs) (sym q) m)
unique_runs-mem (x ∷ runs) us h = elim (Option-cases (unique_runs runs)) [
  | inl e ↦ let h' : none ≡ some us = rw (unique_runs, e) at h in cc
  | inr (vs, e) ↦
      let (to, from) = unique_runs-mem runs vs e in
      elim (Bool-cases (clashes x vs)) [
        | inl c ↦ let h' : none ≡ some us = rw (unique_runs, e, c) at h in cc
        | inr c ↦ elim (Bool-cases (any (has_id x.f5_run_id) vs)) [
          | inl k ↦
              let h' : some vs ≡ some us = rw (unique_runs, e, c, k) at h in
              let q : vs ≡ us = cc in
              let (y, my, ey) = any-true (has_id x.f5_run_id) vs k in
              let same =
                not_clashing (has_id x.f5_run_id y) (same_run x y)
                  (any-false (λ s. has_id x.f5_run_id s && not (same_run x s)) c my) ey in
              let own : Memᴰ x vs = subst (λ z. Memᴰ z vs) (sym (run_eq x y same)) my in
              (
                λ r m.
                    subst (λ zs. Memᴰ r zs) q
                      (elim (mem-uncons m) [
                        | inl i ↦ subst (λ z. Memᴰ z vs) (sym i) own
                        | inr t ↦ to r t
                      ]),
                λ r m. Memᴰ.tail (from r (subst (λ zs. Memᴰ r zs) (sym q) m)),
              )
          | inr k ↦
              let h' : some (x ∷ vs) ≡ some us = rw (unique_runs, e, c, k) at h in
              let q : x ∷ vs ≡ us = cc in
              (
                λ r m.
                    subst (λ zs. Memᴰ r zs) q
                      (elim (mem-uncons m) [ inl i ↦ Memᴰ.head i | inr t ↦ Memᴰ.tail (to r t) ]),
                λ r m. elim (mem-uncons (subst (λ zs. Memᴰ r zs) (sym q) m)) [
                  | inl i ↦ Memᴰ.head i
                  | inr t ↦ Memᴰ.tail (from r t)
                ],
              )
        ]
      ]
]

distinct-mem : (xs : List ℕ) {x : ℕ} → Memᴰ x xs → Memᴰ x (distinct xs)
distinct-mem [] m = elim m [ ]
distinct-mem (y ∷ ys) {x} m = elim (Bool-cases (is_in y (distinct ys))) [
  | inl e ↦ rw e (elim (mem-uncons m) [
    | inl q ↦
        let (z, mz, ez) = any-true (λ z. z == y) (distinct ys) e in
        let zy : z ≡ y = ground arith in subst (λ v. Memᴰ v (distinct ys)) (zy ∙ sym q) mz
    | inr t ↦ distinct-mem ys t
  ])
  | inr e ↦
      rw e (elim (mem-uncons m) [ inl q ↦ Memᴰ.head q | inr t ↦ Memᴰ.tail (distinct-mem ys t) ])
]

document_keys-mem :
    (accepted : List F5RunRef) {r : F5RunRef}
    → Memᴰ r accepted
    → Memᴰ r.document_sha256 (document_keys accepted)
unfolding document_keys
document_keys-mem accepted m =
    mem-sort_by leb _ (distinct-mem _ (mem-map_of (λ (x : F5RunRef). x.document_sha256) m))

sorted-mem : (us : List F5RunRef) {r : F5RunRef} → Memᴰ r (sort_by id_le us) → Memᴰ r us
sorted-mem us m =
    All-mem (λ x. Memᴰ x us)
      (sort_by-All id_le (λ x. Memᴰ x us) us (mem-All (λ x. Memᴰ x us) us (λ x mx. mx))) m

select_sorted-documents :
    (c : ReconciliationConfiguration) (runs : List F5RunRef) (sel : Selection)
    → select_sorted c runs ≡ some sel
    → select_documents (keep (is_accepted c) runs) (document_keys (keep (is_accepted c) runs))
      ≡ some sel.documents
unfolding select_sorted
select_sorted-documents c runs sel h =
    let accepted = keep (is_accepted c) runs in
    elim (Option-cases (select_documents accepted (document_keys accepted))) [
      | inl e ↦ let h' : none ≡ some sel = rw (select_sorted, e) at h in cc
      | inr (ds, e) ↦
          let h' : some
                (record { documents = ds; excluded_runs = keep (λ r. not (is_accepted c r)) runs })
              ≡ some sel =
            rw (select_sorted, e) at h in
          let q : record { documents = ds; excluded_runs = keep (λ r. not (is_accepted c r)) runs }
              ≡ sel =
            cc in
          e ∙ ap (λ (x : Selection). some x.documents) q
    ]

own_document : (sha : ℕ) (r : F5RunRef) → of_document sha r ≡ true → r.document_sha256 ≡ sha
own_document sha r h = ground arith

is_own : (sha : ℕ) (r : F5RunRef) → r.document_sha256 ≡ sha → of_document sha r ≡ true
is_own sha r h = ground arith

-- For every run that the configuration accepts, the selection has its document, and the run selected for
-- it is one of the given runs of that document which the configuration accepts too, and to which the
-- run is not later: not by its recorded time, and not by its id at an equal time.
pub select_runs-latest :
    (runs : List F5RunRef) (c : ReconciliationConfiguration) (sel : Selection) (r : F5RunRef)
    → select_runs runs c ≡ some sel
    → Memᴰ r runs
    → is_accepted c r ≡ true
    → (d : RunSelection) × Memᴰ d sel.documents
      × (d.document_sha256 ≡ r.document_sha256)
      × (Memᴰ d.selected runs
          × (is_accepted c d.selected ≡ true)
          × (d.selected.document_sha256 ≡ r.document_sha256))
      × (comes_later r d.selected ≡ false)
unfolding select_runs
select_runs-latest runs c sel r h m a = elim (Option-cases (unique_runs runs)) [
  | inl e ↦ let h' : none ≡ some sel = rw (select_runs, e) at h in cc
  | inr (us, e) ↦
      let sorted = sort_by id_le us in
      let accepted = keep (is_accepted c) sorted in
      let (to, from) = unique_runs-mem runs us e in
      let chosen = select_sorted-documents c sorted sel (rw (select_runs, e) at h) in
      let (names, every) =
        select_documents-IsSelected accepted (document_keys accepted) sel.documents chosen in
      let mine = mem-keep (is_accepted c) (mem-sort_by id_le us (to r m)) a in
      let (d, md, q) =
        mem-map (λ (d : RunSelection). d.document_sha256) sel.documents
          (subst (λ ns. Memᴰ r.document_sha256 ns) (sym names) (document_keys-mem accepted mine)) in
      let (its, ms, latest) = All-mem (IsSelected accepted) every md in
      let k =
        keep-mem (of_document d.document_sha256) accepted
          (subst (λ rs. Memᴰ d.selected rs) its ms) in
      let k2 = keep-mem (is_accepted c) sorted k.0 in
      (
        d,
        md,
        sym q,
        (
          from d.selected (sorted-mem us k2.0),
          k2.1,
          own_document d.document_sha256 d.selected k.1 ∙ sym q,
        ),
        All-mem (λ s. comes_later s d.selected ≡ false) latest
            (subst (λ rs. Memᴰ r rs) (sym its)
              (mem-keep (of_document d.document_sha256) mine (is_own d.document_sha256 r q))),
      )
]
