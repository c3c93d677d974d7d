-- ===== src/Backfill/Documents/Ready.antt =====
-- When an issuer is ready to be reconciled, its documents are done.
use mathlib.Core.List.{Memᴰ}
use cse_analysis.Base.{
  ℕ, ◌≡◌, refl, ◌∙◌, [], ◌∷◌, Bool, true, false, not, ◌&&◌, ◌||◌, Option, none, some, List, arith,
  all, keep, map, keep-mem, mem-map, sym, ap, ◌≢◌, ◌↔◌, ◌==◌, null?, All, All-mem, mem-All,
  mem-keep, mem-map_of, null-no_mem, implies, ◌⊎◌, inl, inr, Bool-cases, Option-cases,
}
use cse_analysis.Backfill.States.{
  Kind, document, State, Action, Transition, transitions, allowed, is_requeue, is_final,
}
use cse_analysis.Backfill.States.Rules.{row_law}
use cse_analysis.Backfill.Documents.{
  Filing, DocumentItem, Judged, is_final_document, judge, evaluate, issuer_ready, open_filings,
  in_window, current_item, final_state, of_issuer,
}

abbrev document_row : Kind → Bool
document_row document = true
document_row _ = false

abbrev final_from : Option State → Bool
final_from none = false
final_from (some s) = is_final_document s

final_stays_row : Transition → Bool
final_stays_row r =
    implies (document_row r.kind && final_from r.from)
      (is_requeue r.action || is_final_document r.to)

final_stays_row-all : all final_stays_row transitions ≡ true
unfolding final_stays_row is_final_document is_final
final_stays_row-all = refl

-- A document that readiness counts as final stays so, whatever the ledger records of it, until an
-- operator re-queues it.
pub final-stays :
    (s t : State) (a : Action)
    → is_final_document s ≡ true
    → allowed document (some s) t a ≡ true
    → (is_requeue a ≡ true) ⊎ (is_final_document t ≡ true)
unfolding final_stays_row
final-stays s t a f h =
    let r = row_law final_stays_row document (some s) t a final_stays_row-all h in ground arith

judge-final :
    (sha256 : ℕ → ℕ) (items : List DocumentItem) (f : Filing)
    → (judge sha256 items f).final ≡ true
    → (i : DocumentItem) × (current_item sha256 items f ≡ some i)
      × (is_final_document i.state ≡ true)
unfolding judge final_state
judge-final sha256 items f h = elim (Option-cases (current_item sha256 items f)) [
  | inl e ↦ let h' : false ≡ true = rw e at h in cc
  | inr (i, e) ↦ (i, e, rw e at h)
]

holds_open :
    (j : Judged) (i : ℕ)
    → j.final ≡ false
    → j.issuer_id ≡ some i
    → (not j.final && of_issuer (some i) j) ≡ true
holds_open j i n e = ground arith

judge-issuer :
    (sha256 : ℕ → ℕ) (items : List DocumentItem) (f : Filing)
    → (judge sha256 items f).issuer_id ≡ f.issuer_id
unfolding judge
judge-issuer sha256 items f = refl

-- The issuer of a filing is ready only when each of its filings in the window has an item for the
-- filing's current path, and that item is final.
ready-final :
    (sha256 : ℕ → ℕ) (filings : List Filing) (items : List DocumentItem) (w : ℕ × ℕ) (issuer : ℕ)
    (f : Filing)
    → issuer_ready (evaluate sha256 filings items w) issuer ≡ true
    → Memᴰ f filings
    → in_window f.uploaded_at w ≡ true
    → f.issuer_id ≡ some issuer
    → (i : DocumentItem) × (current_item sha256 items f ≡ some i)
      × (is_final_document i.state ≡ true)
unfolding issuer_ready evaluate open_filings
ready-final sha256 filings items w issuer f ready m inside e =
    let j = judge sha256 items f in
    let mj = mem-map_of (judge sha256 items) (mem-keep (λ x. in_window x.uploaded_at w) m inside) in
    elim (Bool-cases j.final) [
      | inl y ↦ judge-final sha256 items f y
      | inr n ↦ absurd (
          null-no_mem ready
            (mem-keep _ mj (holds_open j issuer n (judge-issuer sha256 items f ∙ e))))
    ]

issuer-cases : (a : Option ℕ) (issuer : ℕ) → (a ≡ some issuer) ⊎ (a ≢ some issuer)
issuer-cases none issuer = inr (λ e. cc)
issuer-cases (some a) issuer = elim (Bool-cases (a == issuer)) [
  | inl e ↦ inl (ground arith)
  | inr e ↦ inr (λ h. let q : a ≡ issuer = cc in ground arith)
]

-- A filing that does not hold its issuer back: out of the window, of no issuer or another, or with an item
-- for its current path that is final
abbrev pub IsSettled : (ℕ → ℕ) → List DocumentItem → ℕ × ℕ → ℕ → Filing → Type 0
IsSettled sha256 items w issuer f =
    (in_window f.uploaded_at w ≡ false)
    ⊎ ((f.issuer_id ≢ some issuer)
        ⊎ ((i : DocumentItem) × (current_item sha256 items f ≡ some i)
            × (is_final_document i.state ≡ true)))

final-judge :
    (sha256 : ℕ → ℕ) (items : List DocumentItem) (f : Filing) (i : DocumentItem)
    → current_item sha256 items f ≡ some i
    → is_final_document i.state ≡ true
    → (judge sha256 items f).final ≡ true
unfolding judge final_state
final-judge sha256 items f i e h = rw (e, h)

of_issuer-eq :
    (issuer : ℕ) (j : Judged) → of_issuer (some issuer) j ≡ true → j.issuer_id ≡ some issuer
of_issuer-eq issuer j h = ground arith

no_mem-null? {ℓ} : {A : Type ℓ} (xs : List A) → ((x : A) → ¬ Memᴰ x xs) → null? xs ≡ true
no_mem-null? [] h = refl
no_mem-null? (x ∷ xs) h = absurd (h x (Memᴰ.head refl))

settled-ready :
    (sha256 : ℕ → ℕ) (filings : List Filing) (items : List DocumentItem) (w : ℕ × ℕ) (issuer : ℕ)
    → All (IsSettled sha256 items w issuer) filings
    → issuer_ready (evaluate sha256 filings items w) issuer ≡ true
unfolding issuer_ready evaluate open_filings
settled-ready sha256 filings items w issuer settled =
    let inside_window = keep (λ (x : Filing). in_window x.uploaded_at w) filings in
    let is_held = λ (x : Judged). not x.final && of_issuer (some issuer) x in
    no_mem-null? (keep is_held (map (judge sha256 items) inside_window)) (λ j m.
      let (mj, held) = keep-mem is_held (map (judge sha256 items) inside_window) m in
      let held' : (not j.final && of_issuer (some issuer) j) ≡ true = held in
      let (f, mf, e) = mem-map (judge sha256 items) inside_window mj in
      let (m0, inside) = keep-mem (λ (x : Filing). in_window x.uploaded_at w) filings mf in
      let inside' : in_window f.uploaded_at w ≡ true = inside in
      elim (All-mem (IsSettled sha256 items w issuer) settled m0) [
        | inl out ↦ cc
        | inr (inl other) ↦
            let own = of_issuer-eq issuer j (ground arith) in
            other
              (sym (judge-issuer sha256 items f) ∙ (ap (λ (j : Judged). j.issuer_id) (sym e) ∙ own))
        | inr (inr (i, c, final)) ↦
            let y = final-judge sha256 items f i c final in
            let y' : j.final ≡ true = rw e y in ground arith
      ])

-- An issuer is ready to be reconciled exactly when each filing that the discovery knows is out of the
-- window, or of no issuer or another one, or has an item for its current path that is final.
pub issuer_ready-final_iff :
    (sha256 : ℕ → ℕ) (filings : List Filing) (items : List DocumentItem) (w : ℕ × ℕ) (issuer : ℕ)
    → (issuer_ready (evaluate sha256 filings items w) issuer ≡ true)
      ↔ All (IsSettled sha256 items w issuer) filings
issuer_ready-final_iff sha256 filings items w issuer = (
  λ ready. mem-All (IsSettled sha256 items w issuer) filings (λ f m.
      elim (Bool-cases (in_window f.uploaded_at w)) [
        | inr out ↦ inl out
        | inl inside ↦ elim (issuer-cases f.issuer_id issuer) [
          | inr other ↦ inr (inl other)
          | inl own ↦ inr (inr (ready-final sha256 filings items w issuer f ready m inside own))
        ]
      ]),
  settled-ready sha256 filings items w issuer,
)
