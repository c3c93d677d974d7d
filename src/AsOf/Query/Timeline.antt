-- ===== src/AsOf/Query/Timeline.antt =====
-- What a query's times allow, and what a timeline gives a consumer.
use cse_analysis.Base.{
  ℕ, ◌≤◌, ◌≡◌, refl, ap, sym, ◌∙◌, subst, Bool, true, false, not, ◌&&◌, ◌||◌, Option, none, some,
  List, [], ◌∷◌, ltb, leb, ◌==◌, is_none, implies, Bool-cases, inl, inr, arith, if◌then◌else◌,
}
use cse_analysis.Scheduler.Schedule.{Datetime, aware, naive}
use cse_analysis.AsOf.Query.{
  QueryMode, known_recorded, known, available, current, Refused, horizon_before_cutoff,
  identity_unresolved, invalid_configuration, result_hash_mismatch, current_not_point_in_time,
  horizon_required, Answer, refused, answer, ◌>>=◌, is_live, is_current, is_available,
  is_point_in_time, Query, governing_horizon, optional_instant, check_times, holds, query,
  configuration_fits, with_cutoff, as_datetime, AsOfResult, require_point_in_time, at_cutoff,
  at_cutoffs, timeline, is_labelled,
}

bind-answer {ℓ κ} :
    {A : Type ℓ} {B : Type κ} (o : Answer A) (f : A → Answer B) {b : B}
    → (o >>= f) ≡ answer b
    → (x : A) × (o ≡ answer x) × (f x ≡ answer b)
bind-answer (refused r) f h = cc
bind-answer (answer x) f h = (x, refl, h)

holds-true : (r : Refused) (b c : Bool) → holds r b ≡ answer c → b ≡ true
holds-true r true c h = refl
holds-true r false c h = cc

-- The times that a mode takes: no cutoff for CURRENT, a cutoff and no horizon for the live modes, and
-- for AVAILABLE a cutoff that no horizon precedes
abbrev pub fits_times : QueryMode → Option ℕ → Option ℕ → Bool
fits_times current none h = true
fits_times known_recorded (some t) none = true
fits_times known (some t) none = true
fits_times available (some t) none = true
fits_times available (some t) (some h) = leb t h
fits_times _ _ _ = false

check_times-fits :
    (m : QueryMode) (t h : Option ℕ) (b : Bool)
    → check_times m t h ≡ answer b
    → fits_times m t h ≡ true
unfolding check_times
check_times-fits current none h b e = refl
check_times-fits current (some t) h b e = cc
check_times-fits known_recorded none h b e = cc
check_times-fits known_recorded (some t) none b e = refl
check_times-fits known_recorded (some t) (some h) b e = cc
check_times-fits known none h b e = cc
check_times-fits known (some t) none b e = refl
check_times-fits known (some t) (some h) b e = cc
check_times-fits available none h b e = cc
check_times-fits available (some t) none b e = refl
check_times-fits available (some t) (some h) b e = elim (Bool-cases (ltb h t)) [
  | inl l ↦ let e' : refused horizon_before_cutoff ≡ answer b = rw l at e in cc
  | inr l ↦ ground arith
]

optional-datetime : (h : Option ℕ) → optional_instant (as_datetime h) ≡ answer h
unfolding optional_instant
optional-datetime none = refl
optional-datetime (some t) = refl

optional-aware :
    (d : Datetime) (t : Option ℕ)
    → optional_instant (some d) ≡ answer t
    → (x : ℕ) × (d ≡ aware x) × (t ≡ some x)
unfolding optional_instant
optional-aware (aware x) t e = (x, refl, cc)
optional-aware (naive x) t e = cc

answer-eq {ℓ} : {A : Type ℓ} (a b : A) → answer a ≡ answer b → a ≡ b
answer-eq a b e = cc

module _ (is_issuer is_configuration : ℕ → Bool) where
  query-fits :
      (i : ℕ) (m : QueryMode) (d : Datetime) (h c : Option ℕ) (q : Query)
      → query is_issuer is_configuration i (some m) (some d) (as_datetime h) c ≡ answer q
      → (t : ℕ) × (d ≡ aware t)
        × (q.mode ≡ m)
        × (q.information_cutoff ≡ some t)
        × (q.knowledge_horizon ≡ h)
        × (fits_times m (some t) h ≡ true)
  unfolding query
  query-fits i m d h c q e =
      let (_, _, e1) = bind-answer (holds identity_unresolved (is_issuer i)) _ e in
      let (t, p, e2) = bind-answer (optional_instant (some d)) _ e1 in
      let (h', p', e3) = bind-answer (optional_instant (as_datetime h)) _ e2 in
      let (b, k, e4) = bind-answer (check_times m t h') _ e3 in
      let (_, _, e5) =
        bind-answer (holds invalid_configuration (configuration_fits is_issuer is_configuration c))
          _ e4 in
      let (x, d_is, t_is) = optional-aware d t p in
      let h_is : h' ≡ h = answer-eq h' h (sym p' ∙ optional-datetime h) in
      let fit : fits_times m t h' ≡ true = check_times-fits m t h' b k in
      let q_is = answer-eq _ q e5 in
      (
        x,
        d_is,
        ap (λ y. y.mode) (sym q_is),
        ap (λ y. y.information_cutoff) (sym q_is) ∙ t_is,
        ap (λ y. y.knowledge_horizon) (sym q_is) ∙ h_is,
        subst (λ y. fits_times m (some x) y ≡ true) h_is
            (subst (λ y. fits_times m y h' ≡ true) t_is fit),
      )

-- A result of a point-in-time mode that re-proves its hash, of a query as of a cutoff: the horizon
-- that governs the query is the cutoff for the live modes, and not before it.
pub record IsAsOf (evaluate : Query → Answer AsOfResult) (base : Query) (d : Datetime)
    (r : AsOfResult) : Type 0 where
  pub asked : Query
  pub moment : ℕ
  pub horizon : ℕ
  pub cutoff_is : d ≡ aware moment
  pub asked_cutoff : asked.information_cutoff ≡ some moment
  pub asked_mode : asked.mode ≡ base.mode
  pub governed : governing_horizon asked ≡ some horizon
  pub not_before : moment ≤ horizon
  pub live_at_cutoff : implies (is_live asked.mode) (horizon == moment) ≡ true
  pub evaluated : evaluate asked ≡ answer r
  pub point_in_time : is_point_in_time r.mode ≡ true
  pub labelled : is_labelled r.mode r.label ≡ true
  pub proved : r.verified ≡ true

-- The horizon that governs a query whose times fit its mode
governing :
    (m : QueryMode) (t : ℕ) (h : Option ℕ)
    → fits_times m (some t) h ≡ true
    → not (is_available m && is_none h) ≡ true
    → (g : ℕ) × ((if is_live m then some t else h) ≡ some g)
      × (t ≤ g)
      × (implies (is_live m) (g == t) ≡ true)
governing current t h f n = cc
governing known_recorded t none f n = (t, refl, omega arith, ground arith)
governing known_recorded t (some h) f n = cc
governing known t none f n = (t, refl, omega arith, ground arith)
governing known t (some h) f n = cc
governing available t none f n = cc
governing available t (some h) f n = (h, refl, ground arith, refl)

checks :
    (v b : Bool) (r p : AsOfResult)
    → (if not v
        then refused result_hash_mismatch
        else if b
        then refused current_not_point_in_time
        else answer r)
      ≡ answer p
    → (r ≡ p) × (v ≡ true) × (b ≡ false)
checks false b r p e = cc
checks true true r p e = cc
checks true false r p e = (answer-eq r p e, refl, refl)

point_in_time-parts :
    (r p : AsOfResult)
    → require_point_in_time r ≡ answer p
    → (r ≡ p)
      × (is_point_in_time r.mode ≡ true)
      × (is_labelled r.mode r.label ≡ true)
      × (r.verified ≡ true)
unfolding require_point_in_time
point_in_time-parts r p e =
    let (q, v, b) =
      checks r.verified (not (is_point_in_time r.mode) || not (is_labelled r.mode r.label)) r p e in
    (q, ground arith, ground arith, v)

module _ (is_issuer is_configuration : ℕ → Bool) (evaluate : Query → Answer AsOfResult) where
  at_cutoff-IsAsOf :
      (base : Query) (d : Datetime) (r : AsOfResult)
      → at_cutoff is_issuer is_configuration evaluate base d ≡ answer r
      → IsAsOf evaluate base d r
  unfolding at_cutoff with_cutoff governing_horizon
  at_cutoff-IsAsOf base d r e =
      let (q, asked, e1) = bind-answer (with_cutoff is_issuer is_configuration base d) _ e in
      let (b, has, e2) =
        bind-answer
          (holds horizon_required (not (is_available q.mode && is_none q.knowledge_horizon))) _
          e1 in
      let (r', ev, e3) = bind-answer (evaluate q) _ e2 in
      let (same, pit, lab, ver) = point_in_time-parts r' r e3 in
      let (t, d_is, m_is, t_is, h_is, fit) =
        query-fits is_issuer is_configuration base.issuer_id base.mode d base.knowledge_horizon
          base.f8_configuration_id q asked in
      let fit' =
        subst (λ h. fits_times q.mode (some t) h ≡ true) (sym h_is)
          (subst (λ m. fits_times m (some t) base.knowledge_horizon ≡ true) (sym m_is) fit) in
      let (g, gov, le, live) =
        governing q.mode t q.knowledge_horizon fit' (holds-true horizon_required _ b has) in
      record {
        asked = q;
        moment = t;
        horizon = g;
        cutoff_is = d_is;
        asked_cutoff = t_is;
        asked_mode = m_is;
        governed = ap (λ x. if is_live q.mode then x else q.knowledge_horizon) t_is ∙ gov;
        not_before = le;
        live_at_cutoff = live;
        evaluated = ev ∙ ap answer same;
        point_in_time = ap (λ x. is_point_in_time x.mode) (sym same) ∙ pit;
        labelled = ap (λ x. is_labelled x.mode x.label) (sym same) ∙ lab;
        proved = ap (λ x. x.verified) (sym same) ∙ ver;
      }

  -- One result for each cutoff, in order
  abbrev pub AreAsOf : Query → List Datetime → List AsOfResult → Type 0
  AreAsOf base [] [] = Unit
  AreAsOf base (d ∷ ds) (r ∷ rs) = IsAsOf evaluate base d r × AreAsOf base ds rs
  AreAsOf base _ _ = ⊥

  at_cutoffs-AreAsOf :
      (base : Query) (ds : List Datetime) (rs : List AsOfResult)
      → at_cutoffs is_issuer is_configuration evaluate base ds ≡ answer rs
      → AreAsOf base ds rs
  unfolding at_cutoffs
  at_cutoffs-AreAsOf base [] [] e = tt
  at_cutoffs-AreAsOf base [] (r ∷ rs) e = cc
  at_cutoffs-AreAsOf base (d ∷ ds) rs e =
      let (r', one, e1) = bind-answer (at_cutoff is_issuer is_configuration evaluate base d) _ e in
      let (rs', others, e2) =
        bind-answer (at_cutoffs is_issuer is_configuration evaluate base ds) _ e1 in
      subst (λ xs. AreAsOf base (d ∷ ds) xs) (answer-eq (r' ∷ rs') rs e2)
        (at_cutoff-IsAsOf base d r' one, at_cutoffs-AreAsOf base ds rs' others)

  -- A timeline that is not refused has one result for each cutoff, in their order, and looks past
  -- none of them by the query: each result is that of a query of the base query's mode at that
  -- cutoff, whose governing horizon is the cutoff itself in the live modes, and in AVAILABLE a
  -- horizon not before it. And each result is of a point-in-time mode with that mode's label,
  -- never CURRENT, and re-proves its hash.
  pub timeline-AreAsOf :
      (base : Query) (ds : List Datetime) (rs : List AsOfResult)
      → timeline is_issuer is_configuration evaluate base ds ≡ answer rs
      → AreAsOf base ds rs
  unfolding timeline
  timeline-AreAsOf base ds rs e = elim (Bool-cases (is_current base.mode)) [
    | inl c ↦ let e' : refused current_not_point_in_time ≡ answer rs = rw c at e in cc
    | inr c ↦ at_cutoffs-AreAsOf base ds rs (rw c at e)
  ]
