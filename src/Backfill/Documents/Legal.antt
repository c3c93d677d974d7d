-- ===== src/Backfill/Documents/Legal.antt =====
-- Every move of a document's work item that is decided outside a slice is one that the table allows.
use Prim.Native.String.{String}
use cse_analysis.Base.{
  ℕ, ◌≡◌, refl, subst, sym, Bool, true, ◌&&◌, none, some, List, [], ◌∷◌, arith, is_none, Bool-cases,
  Option-cases, inl, inr, ◌⊎◌,
}
use cse_analysis.Backfill.States.{
  State, Action, document, discovered, pending, retry_wait, requesting, excluded, persisted,
  retrieval_failed, create, promote, record_outcome, check, allowed,
}
use cse_analysis.Backfill.Documents.{
  Filing, DocumentItem, Planned, promoted, superseded, window_changed, untouched, plan_item,
  plan_current, is_planned, is_discovered, first_state, live_state, decide_promotion,
  is_persisted_family, Disposition,
}

module _ (strip : String → String) where
  -- Whether a planned move of an item, from a state, passes `check`.
  pub legal : State → Planned → Bool
  legal s (promoted t a r) = is_none (check strip document (some s) t a (some r))
  legal s _ = true

  persisted-legal :
      (s : State)
      → is_planned s ≡ true
      → legal s (
          promoted persisted promote
            "evidence: an F5 run of this document under the armed versions")
        ≡ true
  unfolding legal check allowed
  persisted-legal s h = ground arith

  discovered-eq : (s : State) → is_discovered s ≡ true → s ≡ discovered
  discovered-eq s h = ground arith

  discovered-legal :
      (s : State) (t : State) (a : Action) (r : String)
      → is_discovered s ≡ true
      → legal discovered (promoted t a r) ≡ true
      → legal s (promoted t a r) ≡ true
  discovered-legal s t a r d h =
      subst (λ x. legal x (promoted t a r) ≡ true) (sym (discovered-eq s d)) h

  undisturbed :
      (s : State)
      → (legal s superseded ≡ true) × (legal s window_changed ≡ true) × (legal s untouched ≡ true)
  unfolding legal
  undisturbed s = (refl, refl, refl)

  from_discovered :
      (legal discovered
          (promoted pending promote "eligible: in W, discovery closed, no F5 run of this document")
        ≡ true)
      × (legal discovered (promoted excluded record_outcome "window_undetermined") ≡ true)
      × (legal discovered (promoted excluded record_outcome "out_of_window") ≡ true)
  unfolding legal check allowed
  from_discovered = (refl, refl, refl)

  plan_current-legal :
      (sha256 : ℕ → ℕ) (w : ℕ × ℕ) (evidenced : Bool) (item : DocumentItem)
      → is_planned item.state ≡ true
      → legal item.state (plan_current sha256 w evidenced item) ≡ true
  unfolding plan_current
  plan_current-legal sha256 w evidenced item h =
      let u = undisturbed item.state in
      ground (
        arith,
        persisted-legal item.state h,
        λ (d : is_discovered item.state ≡ true).
            discovered-legal item.state pending promote
              "eligible: in W, discovery closed, no F5 run of this document" d from_discovered.0,
      )

  -- What planning does with an item that it looks at, a promotion or none, passes the ledger's check.
  pub plan_item-legal :
      (sha256 : ℕ → ℕ) (w : ℕ × ℕ) (evidenced : Bool) (item : DocumentItem)
      → is_planned item.state ≡ true
      → legal item.state (plan_item sha256 w evidenced item) ≡ true
  unfolding plan_item
  plan_item-legal sha256 w evidenced item h = ground (
    arith,
    plan_current-legal sha256 w evidenced item h,
    λ (d : is_discovered item.state ≡ true).
        discovered-legal item.state excluded record_outcome "window_undetermined" d
          from_discovered.1,
    λ (d : is_discovered item.state ≡ true).
        discovered-legal item.state excluded record_outcome "out_of_window" d from_discovered.2,
  )

  -- A new item of any filing is created as the ledger's check wants it, its reason included.
  pub first_state-check :
      (accepts : ℕ → Bool) (f : Filing)
      → is_none
          (check strip document none (first_state accepts f).0 create (first_state accepts f).1)
        ≡ true
  unfolding first_state check allowed
  first_state-check accepts f = elim (Bool-cases (is_none f.uploaded_at)) [
    | inl e ↦ rw e refl
    | inr e ↦ elim (Option-cases f.path) [
      | inl n ↦ rw (e, n) refl
      | inr (q, n) ↦ elim (Bool-cases (accepts q)) [
        | inl a ↦ rw (e, n, a) refl
        | inr a ↦ rw (e, n, a) refl
      ]
    ]
  ]

-- The events of a list, one after the other from a state, are allowed promotions.
pub promotes : State → List State → Bool
promotes s [] = true
promotes s (t ∷ ts) = allowed document (some s) t promote && promotes t ts

-- Promotions from validations are ones that the table allows, each from the state that the one before
-- it left.
pub decide_promotion-promotes :
    (s : State) (canonical ever now : Bool)
    → is_persisted_family s ≡ true
    → promotes s (decide_promotion s canonical ever now) ≡ true
unfolding promotes decide_promotion allowed
decide_promotion-promotes s canonical ever now h = ground arith

abbrev last_state : State → List State → State
last_state s [] = s
last_state s (t ∷ ts) = last_state t ts

-- Promoted as far as its evidence goes, an item is not promoted again on the same evidence.
pub decide_promotion-settles :
    (s : State) (canonical ever now : Bool)
    → decide_promotion (last_state s (decide_promotion s canonical ever now)) canonical ever now
      ≡ []
unfolding decide_promotion
decide_promotion-settles s canonical ever now = ground arith

-- A failed retrieval leaves a requested document in a state that the table allows, which waits for
-- another try only where the claims are below the maximum or the failure was local.
pub live_state-allowed :
    (d : Disposition) (claims item_max : ℕ) (t : State)
    → live_state d claims item_max ≡ some t
    → (allowed document (some requesting) t record_outcome ≡ true)
      × ((t ≡ retry_wait) ⊎ (t ≡ retrieval_failed))
unfolding live_state allowed
live_state-allowed d claims item_max t h = ground arith
