-- ===== src/Capture/Completeness/Succeeded.antt =====
-- What it takes for a run to succeed.
use mathlib.Core.List.{Memᴰ}
use cse_analysis.Base.{
  mem-null?, ℕ, ◌≡◌, refl, sym, subst, Bool, true, false, not, ◌||◌, Option, none, some, List, [],
  ◌∷◌, arith, ◌↔◌, ◌⊎◌, All, All-mem, mem-All, keep, null?, mem-keep, Bool-cases, Option-cases, inl,
  inr, last?, last?-keep, any-true, mem-any, mem-uncons, mem-++_left, mem-++_right, mem-sort_by,
  leb, ◌==◌,
}
use cse_analysis.Capture.Completeness.{
  SecurityResult, RawStatus, produced, already_present, raw_failed, not_expected, CStatus, complete,
  c_status, is_produced, lookup, has_observation, is_in, distinct, expected_symbols, RunState,
  succeeded, Sweep, metadata_sweep, market_capture, decide_state, evidence_state,
}

-- A capture succeeds exactly when it was not stopped, its trade summary was captured in a session of
-- the trading date, the universe is known, and the expected observations are complete.
pub capture-succeeded_iff :
    (a b : Bool) (c : CStatus) (session : Option Bool) (stopped : Option RunState)
    → (decide_state (market_capture a b c session) stopped ≡ succeeded)
      ↔ ((stopped ≡ none) × (a ≡ true) × (session ≡ some true) × (b ≡ true) × (c ≡ complete))
unfolding decide_state evidence_state
capture-succeeded_iff a b c session stopped = ground arith

-- A sweep succeeds exactly when it was not stopped, the universe was captured, and all that it planned
-- is archived.
pub sweep-succeeded_iff :
    (a : Bool) (sw : Sweep) (stopped : Option RunState)
    → (decide_state (metadata_sweep a sw) stopped ≡ succeeded)
      ↔ ((stopped ≡ none) × (a ≡ true) × (sw.archived ≡ sw.planned))
unfolding decide_state evidence_state
sweep-succeeded_iff a sw stopped = ground arith

complete-null :
    (rows : List SecurityResult) (expected : List ℕ)
    → c_status rows expected ≡ complete
    → null? (keep (λ s. not (is_produced rows s)) expected) ≡ true
unfolding c_status
complete-null rows expected h = ground arith

succeeded-produced :
    (rows : List SecurityResult) (expected : List ℕ) (a b : Bool) (session : Option Bool)
    (stopped : Option RunState)
    → decide_state (market_capture a b (c_status rows expected) session) stopped ≡ succeeded
    → All (λ s. is_produced rows s ≡ true) expected
succeeded-produced rows expected a b session stopped h =
    let iff = capture-succeeded_iff a b (c_status rows expected) session stopped in
    let q = iff.0 h in
    let n = complete-null rows expected q.4 in
    mem-All (λ s. is_produced rows s ≡ true) expected
      (λ s m. elim (Bool-cases (is_produced rows s)) [
        | inl e ↦ e
        | inr e ↦
            let k = mem-null? (mem-keep (λ t. not (is_produced rows t)) m (ground arith)) in cc
      ])

-- A row of the latest pass is about the security, and its observation was produced or was there before.
abbrev pub IsObserved : List SecurityResult → ℕ → Type 0
IsObserved rows s =
    (r : SecurityResult) × Memᴰ r rows
    × (r.symbol ≡ s)
    × ((r.raw_status ≡ produced) ⊎ (r.raw_status ≡ already_present))

has_observation-cases :
    (x : RawStatus) → has_observation x ≡ true → (x ≡ produced) ⊎ (x ≡ already_present)
has_observation-cases produced h = inl refl
has_observation-cases already_present h = inr refl
has_observation-cases raw_failed h = cc
has_observation-cases not_expected h = cc

is_produced-IsObserved :
    (rows : List SecurityResult) (s : ℕ) → is_produced rows s ≡ true → IsObserved rows s
unfolding is_produced lookup
is_produced-IsObserved rows s h =
    elim (Option-cases (last? (keep (λ (r : SecurityResult). r.symbol == s) rows))) [
      | inl e ↦ let h' : false ≡ true = rw (e, is_produced) at h in cc
      | inr (r, e) ↦
          let h' : has_observation r.raw_status ≡ true = rw (e, is_produced) at h in
          let (m, own) = last?-keep (λ (r : SecurityResult). r.symbol == s) rows e in
          (r, m, ground arith, has_observation-cases r.raw_status h')
    ]

is_in-mem : (s : ℕ) (xs : List ℕ) → is_in s xs ≡ true → Memᴰ s xs
is_in-mem s xs h =
    let (x, m, e) = any-true (λ x. x == s) xs h in
    let q : x ≡ s = ground arith in subst (λ y. Memᴰ y xs) q m

mem-is_in : (s : ℕ) (xs : List ℕ) → Memᴰ s xs → is_in s xs ≡ true
mem-is_in s xs m = mem-any (λ x. x == s) m (ground arith)

mem-distinct : (s : ℕ) (xs : List ℕ) → Memᴰ s xs → Memᴰ s (distinct xs)
mem-distinct s [] m = elim m [ ]
mem-distinct s (x ∷ xs) m = elim (Bool-cases (is_in x xs)) [
  | inl e ↦ rw e (elim (mem-uncons m) [
    | inl q ↦ mem-distinct s xs (subst (λ y. Memᴰ y xs) (sym q) (is_in-mem x xs e))
    | inr t ↦ mem-distinct s xs t
  ])
  | inr e ↦
      rw e (elim (mem-uncons m) [ inl q ↦ Memᴰ.head q | inr t ↦ Memᴰ.tail (mem-distinct s xs t) ])
]

-- The trade summary's symbols are expected, and with the fallback those of the universe.
module _ (usyms ts_by : List ℕ) (fallback : Bool) (s : ℕ) where
  universe_expected :
      Memᴰ s usyms
      → (is_in s ts_by || fallback) ≡ true
      → Memᴰ s (expected_symbols usyms ts_by fallback)
  unfolding expected_symbols
  universe_expected m h = mem-keep _ (mem-++_left _ m) h

  summary_expected : Memᴰ s ts_by → Memᴰ s (expected_symbols usyms ts_by fallback)
  unfolding expected_symbols
  summary_expected m =
      let known = mem-is_in s ts_by m in
      elim (Bool-cases (is_in s usyms)) [
        | inl e ↦ universe_expected (is_in-mem s usyms e) (ground arith)
        | inr e ↦
            mem-keep _
              (mem-++_right usyms (
                mem-sort_by leb _
                  (mem-distinct s _ (mem-keep (λ x. not (is_in x usyms)) m (ground arith)))))
              (ground arith)
      ]

-- A market capture succeeds only if it was not stopped, its trade summary was captured in a session of
-- the trading date, the universe is known, and there are observations, in the rows of its latest
-- pass, of each security of the trade summary, whether the universe has it or not, and, where the
-- absent ones are asked for, of each security of the universe.
pub succeeded-IsObserved :
    (rows : List SecurityResult) (usyms ts_by : List ℕ) (fallback a b : Bool)
    (session : Option Bool) (stopped : Option RunState)
    → decide_state
        (market_capture a b (c_status rows (expected_symbols usyms ts_by fallback)) session)
        stopped
      ≡ succeeded
    → (stopped ≡ none)
      × (a ≡ true)
      × (session ≡ some true)
      × (b ≡ true)
      × All (IsObserved rows) ts_by
      × All (λ s. (fallback ≡ false) ⊎ IsObserved rows s) usyms
succeeded-IsObserved rows usyms ts_by fallback a b session stopped h =
    let expected = expected_symbols usyms ts_by fallback in
    let (stop, trade, own, universe, c) =
      (capture-succeeded_iff a b (c_status rows expected) session stopped).0 h in
    let p = succeeded-produced rows expected a b session stopped h in
    let seen = λ (s : ℕ) (m : Memᴰ s expected).
      is_produced-IsObserved rows s (All-mem (λ s. is_produced rows s ≡ true) p m) in
    (
      stop,
      trade,
      own,
      universe,
      mem-All (IsObserved rows) ts_by (λ s m. seen s (summary_expected usyms ts_by fallback s m)),
      mem-All (λ s. (fallback ≡ false) ⊎ IsObserved rows s) usyms
          (λ s m. elim (Bool-cases fallback) [
            | inr e ↦ inl e
            | inl e ↦ inr (seen s (universe_expected usyms ts_by fallback s m (ground arith)))
          ]),
    )
