-- ===== src/Truth/Partition/Adds.antt =====
-- What a passing partition shows, and which rows it admits.
use mathlib.Core.List.{Memᴰ}
use cse_analysis.Base.{
  ℕ, ◌+◌, ◌≤◌, ◌≡◌, refl, ap, ◌∙◌, subst, Bool, true, false, not, ◌&&◌, Option, none, some, List,
  [], ◌∷◌, ◌++◌, map, keep, any, is_none, null?, leb→le, All, All-mem, mem-All, mem-map, mem-map_of,
  any-false, any-true, keep-mem, sort_by-All, Bool-cases, inl, inr, arith, ◌==◌, ==_iff, mem-++,
  ◌⊎◌, leb,
}
use cse_analysis.Base.Int.{ℤ, ◌+ℤ◌, ◌-ℤ◌}
use cse_analysis.Truth.Values.{abs_ℤ, differ, minimum}
use cse_analysis.Truth.Values.Extrema.{minimum-All}
use cse_analysis.Truth.Values.Finest.{differ-false}
use cse_analysis.Truth.Partition.{
  Operations, continuing, discontinued, total_or_unstated, section_label, TermRow, Term,
  multiple_values, missing, nil, non_numeric, not_normalized, add_amount, usable_with, usable,
  is_nil_state, is_numeric_state, amounts_of, common_amount, term_of, pass, Op1Outcome, Op1Record,
  is_common, rows_of, record_reasons, adds_up, is_from_section, validated_keys, record_of,
  Candidate, members_of, record_at, record_for, decide_outcome, decide_basis, OperationsBasis,
  row_label, no_label, fail, insufficient_evidence, is_section, in_group, operations_decision,
  unusable_terms, mismatches, all_rows,
}

-- A row that prints a value, with a half-unit no less than the term's
abbrev pub Prints : ℤ → ℕ → TermRow → Type 0
Prints v h r =
    (is_numeric_state r.value_state ≡ true) × (k : ℕ) × (r.normalized ≡ some (v, k)) × (h ≤ k)

amounts_of-mem_add :
    {x : ℤ × ℕ} (o : Option (ℤ × ℕ)) {xs : List (ℤ × ℕ)} → Memᴰ x xs → Memᴰ x (add_amount o xs)
amounts_of-mem_add none m = m
amounts_of-mem_add (some y) m = Memᴰ.tail m

amounts_of-mem :
    {r : TermRow} {rows : List TermRow} (x : ℤ × ℕ)
    → Memᴰ r rows
    → r.normalized ≡ some x
    → Memᴰ x (amounts_of rows)
amounts_of-mem x (Memᴰ.head e) h = rw (← e, h) (Memᴰ.head refl)
amounts_of-mem x (Memᴰ.tail {x = y} m) h = amounts_of-mem_add y.normalized (amounts_of-mem x m h)

usable_parts : {v w : ℤ} {h k : ℕ} → usable v h ≡ usable w k → (v ≡ w) × (h ≡ k)
usable_parts e = (cc, cc)

usable_with-least :
    (v w : ℤ) (o : Option ℕ) (h : ℕ) → usable_with v o ≡ usable w h → (v ≡ w) × (o ≡ some h)
usable_with-least v w none h e = cc
usable_with-least v w (some k) h e = (cc, cc)

common_amount-usable :
    (xs : List (ℤ × ℕ)) (v : ℤ) (h : ℕ)
    → common_amount xs ≡ usable v h
    → {x : ℤ × ℕ} → Memᴰ x xs
    → (x.0 ≡ v) × (h ≤ x.1)
unfolding common_amount
common_amount-usable [] v h e m = elim m [ ]
common_amount-usable (y ∷ ys) v h e {x} m = elim (Bool-cases (differ (map (λ z. z.0) (y ∷ ys)))) [
  | inl d ↦ let e' : multiple_values ≡ usable v h = rw d at e in cc
  | inr d ↦
      let e' : usable_with y.0 (minimum (map (λ z. z.1) (y ∷ ys))) ≡ usable v h = rw d at e in
      let (p, q) = usable_with-least y.0 v (minimum (map (λ z. z.1) (y ∷ ys))) h e' in
      (
        differ-false (map (λ z. z.0) (y ∷ ys)) x.0 y.0 d (mem-map_of (λ z. z.0) m) (Memᴰ.head refl)
            ∙ p,
        All-mem (λ k. h ≤ k) (minimum-All (map (λ z. z.1) (y ∷ ys)) h q) (mem-map_of (λ z. z.1) m),
      )
]

is_none-false : {A : Type 0} (o : Option A) → is_none o ≡ false → (x : A) × (o ≡ some x)
is_none-false none h = cc
is_none-false (some x) h = (x, refl)

pair_eq : (x : ℤ × ℕ) (v : ℤ) → x.0 ≡ v → x ≡ (v, x.1)
pair_eq x v p = ap (λ w. (w, x.1)) p

pub term_of-usable :
    (rows : List TermRow) (v : ℤ) (h : ℕ)
    → term_of rows ≡ usable v h
    → (null? rows ≡ false) × All (Prints v h) rows
unfolding term_of
term_of-usable rows v h e = elim (Bool-cases (null? rows)) [
  | inl a ↦ let e' : missing ≡ usable v h = rw a at e in cc
  | inr a ↦ elim (Bool-cases (any (λ r. is_nil_state r.value_state) rows)) [
    | inl b ↦ let e' : nil ≡ usable v h = rw (a, b) at e in cc
    | inr b ↦ elim (Bool-cases (any (λ r. not (is_numeric_state r.value_state)) rows)) [
      | inl c ↦ let e' : non_numeric ≡ usable v h = rw (a, b, c) at e in cc
      | inr c ↦ elim (Bool-cases (any (λ r. is_none r.normalized) rows)) [
        | inl d ↦ let e' : not_normalized ≡ usable v h = rw (a, b, c, d) at e in cc
        | inr d ↦
            let e' : common_amount (amounts_of rows) ≡ usable v h = rw (a, b, c, d) at e in
            (
              a,
              mem-All (Prints v h) rows (λ r m.
                  let (x, q) =
                    is_none-false r.normalized (any-false (λ s. is_none s.normalized) d m) in
                  let (p, l) =
                    common_amount-usable (amounts_of rows) v h e' (amounts_of-mem x m q) in
                  let n : not (is_numeric_state r.value_state) ≡ false =
                    any-false (λ s. not (is_numeric_state s.value_state)) c m in
                  (ground arith, x.1, q ∙ ap some (pair_eq x v p), l)),
            )
      ]
    ]
  ]
]

-- The continuing and the discontinued value add up to the total within what is printed.
pub record IsPartition (ms : List (Operations × TermRow)) : Type 0 where
  pub value : Operations → ℤ
  pub half_unit : Operations → ℕ
  pub is_there : (o : Operations) → null? (rows_of o ms) ≡ false
  pub printed : (o : Operations) → All (Prints (value o) (half_unit o)) (rows_of o ms)
  pub adds :
      abs_ℤ (value continuing +ℤ value discontinued -ℤ value total_or_unstated)
      ≤ half_unit continuing + half_unit discontinued + half_unit total_or_unstated
  pub one_currency : is_common (map (λ r. r.currency) (all_rows ms)) ≡ true
  pub one_type : is_common (map (λ r. r.value_type) (all_rows ms)) ≡ true

abbrev by_operations {ℓ} : {A : Type ℓ} → A → A → A → Operations → A
by_operations a b t continuing = a
by_operations a b t discontinued = b
by_operations a b t total_or_unstated = t

adds_up-usable :
    (a b t : Term)
    → adds_up a b t ≡ true
    → (v : Operations → ℤ) × (h : Operations → ℕ) × (a ≡ usable (v continuing) (h continuing))
      × (b ≡ usable (v discontinued) (h discontinued))
      × (t ≡ usable (v total_or_unstated) (h total_or_unstated))
      × (abs_ℤ (v continuing +ℤ v discontinued -ℤ v total_or_unstated)
          ≤ h continuing + h discontinued + h total_or_unstated)
unfolding adds_up
adds_up-usable (usable c hc) (usable d hd) (usable t ht) e =
    (by_operations c d t, by_operations hc hd ht, refl, refl, refl, leb→le _ _ e)
adds_up-usable _ _ _ e = cc

no_mismatch :
    (rows : List TermRow)
    → null? (mismatches rows) ≡ true
    → (is_common (map (λ r. r.currency) rows) ≡ true)
      × (is_common (map (λ r. r.value_type) rows) ≡ true)
no_mismatch rows h = ground arith

no_reasons :
    (ms : List (Operations × TermRow))
    → null? (record_reasons ms) ≡ true
    → null? (mismatches (all_rows ms)) ≡ true
unfolding record_reasons
no_reasons ms h = elim (Bool-cases (null? (unusable_terms ms))) [
  | inl e ↦ rw e at h
  | inr e ↦ let h' : null? (unusable_terms ms) ≡ true = rw e at h in cc
]

abbrev is_pass : Op1Outcome → Bool
is_pass pass = true
is_pass _ = false

terms-usable :
    (ms : List (Operations × TermRow)) (v : Operations → ℤ) (h : Operations → ℕ)
    → term_of (rows_of continuing ms) ≡ usable (v continuing) (h continuing)
    → term_of (rows_of discontinued ms) ≡ usable (v discontinued) (h discontinued)
    → term_of (rows_of total_or_unstated ms) ≡ usable (v total_or_unstated) (h total_or_unstated)
    → (o : Operations) → (null? (rows_of o ms) ≡ false) × All (Prints (v o) (h o)) (rows_of o ms)
terms-usable ms v h p q r continuing = term_of-usable _ _ _ p
terms-usable ms v h p q r discontinued = term_of-usable _ _ _ q
terms-usable ms v h p q r total_or_unstated = term_of-usable _ _ _ r

record_of-pass :
    (ms : List (Operations × TermRow)) → is_pass (record_of ms).outcome ≡ true → IsPartition ms
unfolding record_of
record_of-pass ms h = elim (Bool-cases (null? (record_reasons ms))) [
  | inr e ↦ let h' : false ≡ true = rw e at h in cc
  | inl e ↦
      elim (Bool-cases (
        adds_up (term_of (rows_of continuing ms)) (term_of (rows_of discontinued ms))
          (term_of (rows_of total_or_unstated ms)))) [
            | inr a ↦ let h' : false ≡ true = rw (e, a) at h in cc
            | inl a ↦
                let (v, hu, p, q, r, l) = adds_up-usable _ _ _ a in
                let (cur, typ) = no_mismatch (all_rows ms) (no_reasons ms e) in
                record {
                  value = v;
                  half_unit = hu;
                  is_there = λ o. (terms-usable ms v hu p q r o).0;
                  printed = λ o. (terms-usable ms v hu p q r o).1;
                  adds = l;
                  one_currency = cur;
                  one_type = typ;
                }
          ]
]

-- A validated key is that of a section-derived row of one of the two parts.
abbrev pub IsPart : List (Operations × TermRow) → ℕ → TermRow → Type 0
IsPart ms k r =
    (Memᴰ r (rows_of continuing ms) ⊎ Memᴰ r (rows_of discontinued ms))
    × (is_from_section r ≡ true)
    × (k ≡ r.source_key)

validated_keys-mem :
    (ms : List (Operations × TermRow)) (k : ℕ)
    → Memᴰ k (validated_keys ms)
    → (r : TermRow) × IsPart ms k r
unfolding validated_keys
validated_keys-mem ms k m =
    let rows = rows_of continuing ms ++ rows_of discontinued ms in
    let keys = map (λ r. r.source_key) (keep is_from_section rows) in
    let m' =
      All-mem (λ x. Memᴰ x keys)
        (sort_by-All leb (λ x. Memᴰ x keys) keys (mem-All (λ x. Memᴰ x keys) keys (λ x n. n))) m in
    let (r, n, q) = mem-map (λ s. s.source_key) (keep is_from_section rows) m' in
    let (n', s) = keep-mem is_from_section rows n in (r, (mem-++ (rows_of continuing ms) n', s, q))

pass-keys :
    (ms : List (Operations × TermRow)) {k : ℕ}
    → Memᴰ k (record_of ms).validated
    → Memᴰ k (validated_keys ms)
unfolding record_of
pass-keys ms m = elim (Bool-cases (null? (record_reasons ms))) [
  | inr e ↦ elim (rw e at m) [ ]
  | inl e ↦
      elim (Bool-cases (
        adds_up (term_of (rows_of continuing ms)) (term_of (rows_of discontinued ms))
          (term_of (rows_of total_or_unstated ms)))) [
            | inl a ↦ rw (e, a) at m
            | inr a ↦ elim (rw (e, a) at m) [ ]
          ]
]

passing :
    (o : Op1Outcome) (k : ℕ) (keys : List ℕ)
    → (decide_outcome o k keys).lift ≡ true
    → (is_pass o ≡ true) × Memᴰ k keys
passing pass k keys h = elim (Bool-cases (any (λ x. x == k) keys)) [
  | inl e ↦
      let (x, m, q) = any-true (λ y. y == k) keys e in
      (refl, subst (λ y. Memᴰ y keys) ((==_iff x k).0 q) m)
  | inr e ↦ let h' : false ≡ true = rw e at h in cc
]
passing fail k keys h = cc
passing insufficient_evidence k keys h = cc

abbrev lifts : OperationsBasis → ℕ → Option Op1Record → Bool
lifts b k r = (decide_basis b k r).lift

-- Where a candidate's record lifts its refusal
lift-record :
    (b : OperationsBasis) (key g : ℕ) (concept : Option ℕ) (cs : List Candidate)
    → lifts b key (record_for g concept cs) ≡ true
    → (is_section b ≡ true)
      × (k : ℕ) × (concept ≡ some k)
      × IsPartition (members_of g k cs)
      × (r : TermRow) × IsPart (members_of g k cs) key r
unfolding record_at
lift-record row_label key g concept cs h = cc
lift-record no_label key g concept cs h = cc
lift-record section_label key g none cs h = cc
lift-record section_label key g (some k) cs h =
    elim (Bool-cases (any (λ c. in_group g k c && is_from_section c.row) cs)) [
      | inr e ↦ let h' : false ≡ true = rw e at h in cc
      | inl e ↦
          let ms = members_of g k cs in
          let (p, m) = passing (record_of ms).outcome key (record_of ms).validated (rw e at h) in
          let (r, q) = validated_keys-mem ms key (pass-keys ms m) in
          (refl, k, refl, record_of-pass ms p, r, q)
    ]

-- A section heading's operations are admitted, and the refusal that rests on them lifted, only for
-- a row that a section heading labels, and only where the statement column shows a partition for
-- its concept: the continuing and the discontinued value, each printed by a numeric row, of one
-- currency and one type and with no row of another value, add up to the total within the
-- half-units that are printed. And the row is one of the two parts.
pub operations_decision-lift :
    (c : Candidate) (cs : List Candidate)
    → (operations_decision c cs).lift ≡ true
    → (is_from_section c.row ≡ true)
      × (k : ℕ) × (c.concept ≡ some k)
      × IsPartition (members_of c.group k cs)
      × (r : TermRow) × IsPart (members_of c.group k cs) c.row.source_key r
unfolding operations_decision
operations_decision-lift c cs h =
    lift-record c.row.operations_basis c.row.source_key c.group c.concept cs h
