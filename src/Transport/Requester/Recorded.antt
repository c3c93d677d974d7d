-- ===== src/Transport/Requester/Recorded.antt =====
-- Every request of the requester is recorded before it is sent, and keeps its distance.
use cse_analysis.Base.{
  ℕ, zero, suc, ◌+◌, ◌-◌, ◌≡◌, refl, Bool, true, false, not, ◌&&◌, List, [], ◌∷◌, arith, leb, ◌==◌,
  if◌then◌else◌, Bool-cases, inl, inr,
}
use cse_analysis.Capture.Http.{RequestPolicy}
use cse_analysis.Transport.Classify.{classify_json, is_ok}
use cse_analysis.Transport.Throttle.{Request}
use cse_analysis.Transport.Throttle.Apart.{IsTracked, pass-IsTracked, request-IsTracked}
use cse_analysis.Transport.Requester.{
  Entry, intent_row, journal_line, sent, Next, ends, retries, End, Slice, Around, Decided, intended,
  notes, unsent, sends, records, decided_of, attempt, request_from, request, slept,
  conclude_attempt, recorded_outcome, succeeded, durability_stop,
}

abbrev pub is_journaled : List Entry → Bool
is_journaled (journal_line ∷ intent_row ∷ es) = true
is_journaled _ = false

-- Right before each request, its journal line was written, and before that its intent row.
abbrev pub is_ahead : List Entry → Bool
is_ahead [] = true
is_ahead (sent r ∷ es) = is_journaled es && is_ahead es
is_ahead (_ ∷ es) = is_ahead es

abbrev pub sent_of : List Entry → List Request
sent_of [] = []
sent_of (sent r ∷ es) = r ∷ sent_of es
sent_of (_ ∷ es) = sent_of es

-- What a slice that has made requests promises of its log
pub record IsSound (p : RequestPolicy) (s : Slice) : Type 0 where
  pub ahead : is_ahead s.log ≡ true
  pub spaced : IsTracked p s.throttle (sent_of s.log)

module _ (p : RequestPolicy) where
  branch-IsSound :
      {B : Type 0} (b : Bool) (x y : B × Slice)
      → (b ≡ true → IsSound p x.1)
      → (b ≡ false → IsSound p y.1)
      → IsSound p (if b then x else y).1
  branch-IsSound true x y f g = f refl
  branch-IsSound false x y f g = g refl

  intended-IsSound : (a : Around) (s : Slice) → IsSound p s → IsSound p (intended a s)
  unfolding intended
  intended-IsSound a s h = elim (Bool-cases a.intent_committed) [
    | inl e ↦ rw e (record { ahead = h.ahead; spaced = h.spaced })
    | inr e ↦ rw e (record { ahead = h.ahead; spaced = h.spaced })
  ]

  notes-IsSound : (a : Around) (s : Slice) → IsSound p s → IsSound p (notes a s)
  unfolding notes
  notes-IsSound a s h = elim (Bool-cases a.journaled) [
    | inl e ↦ rw e (record { ahead = h.ahead; spaced = h.spaced })
    | inr e ↦ rw e (record { ahead = h.ahead; spaced = h.spaced })
  ]

  unsent-IsSound : (s : Slice) → IsSound p s → IsSound p (unsent s)
  unfolding unsent
  unsent-IsSound s h = record { ahead = h.ahead; spaced = h.spaced }

  records-IsSound : (a : Around) (d : Decided) (s : Slice) → IsSound p s → IsSound p (records a d s)
  unfolding records
  records-IsSound a d s h = elim (Bool-cases a.spooled) [
    | inl e ↦ elim (Bool-cases a.committed) [
      | inl f ↦ rw (e, f) (record { ahead = h.ahead; spaced = h.spaced })
      | inr f ↦ rw (e, f) (record { ahead = h.ahead; spaced = h.spaced })
    ]
    | inr e ↦ elim (Bool-cases a.committed) [
      | inl f ↦ rw (e, f) (record { ahead = h.ahead; spaced = h.spaced })
      | inr f ↦ rw (e, f) (record { ahead = h.ahead; spaced = h.spaced })
    ]
  ]

  sends-IsSound :
      (a : Around) (s : Slice)
      → a.intent_committed ≡ true
      → a.journaled ≡ true
      → IsSound p s
      → IsSound p (sends p a (notes a (intended a s)))
  unfolding sends notes intended
  sends-IsSound a s i j h =
      rw (i, j)
        (record {
          ahead = h.ahead;
          spaced = request-IsTracked p a.lag a.took s.throttle (sent_of s.log) h.spaced;
        })

  attempt-IsSound :
      (a : Around) (i : ℕ) (last : Bool) (s : Slice)
      → a.intent_committed ≡ true
      → IsSound p s
      → IsSound p (attempt p a i last s).1
  unfolding attempt
  attempt-IsSound a i last s c h =
      let s1 = sends p a (notes a (intended a s)) in
      branch-IsSound (not a.journaled) _ _
        (λ e. unsent-IsSound _ (notes-IsSound a _ (intended-IsSound a s h)))
        (λ e.
          let out =
            records-IsSound a (decided_of p a s1 last) s1 (sends-IsSound a s c (ground arith) h) in
          branch-IsSound (not a.committed) _ _ (λ _. out) (λ _. out))

  slept-IsSound : (d : ℕ) (s : Slice) → IsSound p s → IsSound p (slept d s)
  slept-IsSound d s h = record {
    ahead = h.ahead;
    spaced = pass-IsTracked p d s.throttle (sent_of s.log) h.spaced;
  }

  next-IsSound :
      (next : Next) (s1 : Slice) (rest : ℕ → End × Slice)
      → IsSound p s1
      → ((d : ℕ) → IsSound p (rest d).1)
      → IsSound p (elim next as (λ _. End × Slice) [ ends e ↦ (e, s1) | retries d ↦ rest d ]).1
  next-IsSound (ends e) s1 rest k r = k
  next-IsSound (retries d) s1 rest k r = r d

  request_from-IsSound :
      (w : ℕ → Around) (left i : ℕ) (s : Slice)
      → IsSound p s
      → IsSound p (request_from p w left i s).1
  unfolding request_from
  request_from-IsSound w zero i s h = h
  request_from-IsSound w (suc left) i s h = elim (Bool-cases (w i).admitted) [
    | inr e ↦ rw (e, request_from) h
    | inl e ↦
        let s1 = (attempt p (w i) i (left == 0) s).1 in
        rw (e, request_from)
          (branch-IsSound (not (w i).intent_committed) _ _ (λ _. h)
            (λ c.
              let k = attempt-IsSound (w i) i (left == 0) s (ground arith) h in
              next-IsSound (attempt p (w i) i (left == 0) s).0 s1
                (λ d. request_from p w left (i + 1) (slept d s1)) k
                (λ d. request_from-IsSound w left (i + 1) (slept d s1) (slept-IsSound d s1 k))))
  ]

  -- A logical request keeps the log of its slice sound: right before each request to the source its
  -- intent row and its journal line were written, whatever failed before, and it starts the minimum
  -- interval after each request before it has ended.
  pub request-IsSound :
      (attempts_per_request : ℕ) (w : ℕ → Around) (s : Slice)
      → IsSound p s
      → IsSound p (request p attempts_per_request w s).1
  unfolding request
  request-IsSound n w s h = elim (Bool-cases (leb n s.json_attempts)) [
    | inl e ↦ rw e h
    | inr e ↦ rw e (request_from-IsSound w (n - s.json_attempts) 0 s h)
  ]

concluded-durable :
    (p : RequestPolicy) (a : Around) (d : Decided) (i : ℕ) (last : Bool)
    → conclude_attempt p
        (classify_json a.exchange)
        (recorded_outcome (classify_json a.exchange) d.block a.spooled)
        a.spooled
        d
        i
        last
      ≡ ends succeeded
    → (a.spooled ≡ true) × (is_ok (classify_json a.exchange) ≡ true)
unfolding conclude_attempt recorded_outcome
concluded-durable p a d i last h = ground arith

-- An attempt ends a request as a success only with an ok outcome whose journal line, spool copy and
-- outcome row were all written: what could not be made durable never counts.
pub attempt-durable :
    (p : RequestPolicy) (a : Around) (i : ℕ) (last : Bool) (s : Slice)
    → (attempt p a i last s).0 ≡ ends succeeded
    → (a.journaled ≡ true)
      × (a.spooled ≡ true)
      × (a.committed ≡ true)
      × (is_ok (classify_json a.exchange) ≡ true)
unfolding attempt intended notes sends
attempt-durable p a i last s h = elim (Bool-cases a.journaled) [
  | inr j ↦ let h' : ends durability_stop ≡ ends succeeded = rw (j, attempt) at h in cc
  | inl j ↦ elim (Bool-cases a.committed) [
    | inr c ↦ let h' : ends durability_stop ≡ ends succeeded = rw (j, c, attempt) at h in cc
    | inl c ↦
        let d = decided_of p a (sends p a (notes a (intended a s))) last in
        let r = concluded-durable p a d i last (rw (j, c, attempt) at h) in (j, r.0, c, r.1)
  ]
]
