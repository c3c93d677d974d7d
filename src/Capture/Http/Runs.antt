-- ===== src/Capture/Http/Runs.antt =====
-- The sessions of a run, and the rule by which what one attempt keeps is kept by a fetch and a run.
use cse_analysis.Base.{
  ℕ, zero, suc, ◌+◌, ◌≡◌, refl, Bool, false, Option, [], Bool-cases, inl, inr, ◌⊎◌, ◌==◌,
}
use cse_analysis.Capture.Http.{
  RequestPolicy, World, Session, Verdict, done, stop, retry, Fetched, returned, attempt,
  next_verdict, out_of_budget, slept, fetch_from, fetch, seed,
}

Verdict-cases :
    (v : Verdict)
    → ((b : Bool) × (v ≡ done b)) ⊎ (((k : _) × (v ≡ stop k)) ⊎ ((d : ℕ) × (v ≡ retry d)))
Verdict-cases (done b) = inl (b, refl)
Verdict-cases (stop k) = inr (inl (k, refl))
Verdict-cases (retry d) = inr (inr (d, refl))

-- A session before its first request.
abbrev pub fresh : RequestPolicy → ℕ → Option ℕ → Session
fresh p now ago = record {
  now = now;
  last_end = seed p now ago;
  requests_made = 0;
  consecutive_failures = 0;
  sent = [];
}

module _ (p : RequestPolicy) (max_requests : Option ℕ) (w : World) where
  -- The sessions between the fetches of a run: each fetch returned, as a stop ends the run, and time
  -- passes between them.
  pub data Reached : Session → Type 0 where
    begin : (now : ℕ) (ago : Option ℕ) → Reached (fresh p now ago)
    next :
        {s : Session} (allowed : ℕ) (b : Bool) (d : ℕ)
        → Reached s
        → (fetch p max_requests w allowed s).0 ≡ returned b
        → Reached (slept d (fetch p max_requests w allowed s).1)

  -- `Post` holds however a fetch ends, and `I` where it returns.
  abbrev pub Ends : (Session → Type 0) → (Session → Type 0) → Fetched × Session → Type 0
  Ends I Post r = Post r.1 × ((b : Bool) → r.0 ≡ returned b → I r.1)

  module _ (I Post : Session → Type 0) (weaken : (s : Session) → I s → Post s)
      (step : (s : Session) → I s → out_of_budget max_requests s ≡ false → Post (attempt p w s))
      (back : (s : Session) (i : ℕ) (last b : Bool)
        → I s
        → out_of_budget max_requests s ≡ false
        → next_verdict p max_requests w s i last ≡ done b
        → I (attempt p w s))
      (again : (s : Session) (i : ℕ) (last : Bool) (d : ℕ)
        → I s
        → out_of_budget max_requests s ≡ false
        → next_verdict p max_requests w s i last ≡ retry d
        → I (slept d (attempt p w s))) where
    pub fetch_from-Ends :
        (left i : ℕ) (s : Session) → I s → Ends I Post (fetch_from p max_requests w left i s)
    unfolding fetch_from
    fetch_from-Ends zero i s h = (weaken s h, λ b e. h)
    fetch_from-Ends (suc left) i s h = elim (Bool-cases (out_of_budget max_requests s)) [
      | inl e ↦ rw (fetch_from, e) (weaken s h, λ b q. h)
      | inr e ↦ elim (Verdict-cases (next_verdict p max_requests w s i (left == 0))) [
        | inl (b, v) ↦ rw (fetch_from, e, v) (step s h e, λ c q. back s i (left == 0) b h e v)
        | inr (inl (k, v)) ↦ rw (fetch_from, e, v) (step s h e, λ c q. cc)
        | inr (inr (d, v)) ↦
            rw (fetch_from, e, v)
              (fetch_from-Ends left (i + 1) (slept d (attempt p w s))
                (again s i (left == 0) d h e v))
      ]
    ]

    module _ (start : (now : ℕ) (ago : Option ℕ) → I (fresh p now ago))
        (rest : (s : Session) (d : ℕ) → I s → I (slept d s)) where
      -- What holds of every session of a run.
      pub Reached-rule : {s : Session} → Reached s → I s
      unfolding fetch
      Reached-rule (begin now ago) = start now ago
      Reached-rule (next {s = s} allowed b d r e) =
          rest (fetch p max_requests w allowed s).1 d
            ((fetch_from-Ends allowed 0 s (Reached-rule r)).1 b e)

      -- What holds however the next fetch of a run ends.
      pub fetch-rule :
          {s : Session} (allowed : ℕ) → Reached s → Post (fetch p max_requests w allowed s).1
      unfolding fetch
      fetch-rule {s} allowed r = (fetch_from-Ends allowed 0 s (Reached-rule r)).0
