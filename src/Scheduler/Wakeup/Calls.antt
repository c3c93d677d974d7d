-- ===== src/Scheduler/Wakeup/Calls.antt =====
-- A wake-up makes at most one capture, and only through its gates.
use cse_analysis.Base.{
  ℕ, ◌≡◌, refl, sym, ◌∙◌, Bool, true, false, not, ◌&&◌, ◌⊎◌, Option, none, some, List, [], ◌∷◌,
  ◌++◌, arith, keep, Bool-cases, Option-cases, inl, inr,
}
use cse_analysis.Scheduler.Schedule.{ScheduleSettings, colombo_date, aware}
use cse_analysis.Scheduler.Planner.{Item, Decision}
use cse_analysis.Scheduler.Wakeup.{P2, Call, Wake, Rows, discover, open_items, is_date}
use cse_analysis.Scheduler.Wakeup.Reconcile.{reconcile, reconcile_all}
use cse_analysis.Scheduler.Wakeup.Actions.{
  Host, agent_approved, gates_open, first_capture, run_on, with_rows, begun, current_rows,
  recovered, run, is_only,
}
use cse_analysis.Scheduler.Wakeup.Quiet.{is_request, reconcile-IsQuiet}
use cse_analysis.Scheduler.Wakeup.Captures.{capture_one-affordable}

-- The requests of a wake are those of another, and at most one more behind an open gate.
abbrev AtMostOne : (Archive : Type 0) → Bool → Wake Archive → Wake Archive → Type 0
AtMostOne Archive gate w w' =
    (keep is_request w'.calls ≡ keep is_request w.calls)
    ⊎ ((gate ≡ true)
        × (call : Call) × (keep is_request w'.calls ≡ keep is_request w.calls ++ call ∷ []))

and-true : (a b : Bool) → a ≡ true → b ≡ true → (a && b) ≡ true
and-true a b h k = ground arith

not-false : (a : Bool) → a ≡ false → not a ≡ true
not-false a h = ground arith

module _ {Archive : Type 0} (p2 : P2 Archive) (now : ℕ) where
  reconcile_all-requests :
      (blocks : Bool) (ignore : ℕ → Bool) (is : List Item) (w : Wake Archive)
      → keep is_request (reconcile_all p2 now blocks ignore is w).0.calls ≡ keep is_request w.calls
  unfolding reconcile_all
  reconcile_all-requests blocks ignore [] w = refl
  reconcile_all-requests blocks ignore (i ∷ is) w =
      reconcile_all-requests blocks ignore is
        (reconcile p2 now i blocks (ignore i.trading_date) true w).0
      ∙ (reconcile-IsQuiet p2 now i blocks (ignore i.trading_date) true w).same_requests

  -- What stands between a wake-up and a request, once it is past the gates of the host
  abbrev pub capture_gate : ScheduleSettings → Host → Bool → Bool
  capture_gate s host blocks =
      not blocks && (agent_approved s host.user_agent && host.spool_writable)

  first_capture-requests :
      (s : ScheduleSettings) (host : Host) (today : ℕ) (blocks : Bool) (cs : List (Item × Decision))
      (w : Wake Archive)
      → AtMostOne Archive
          (capture_gate s host blocks)
          w
          (first_capture p2 now s host today blocks cs w).1
  unfolding first_capture
  first_capture-requests s host today blocks [] w = inl refl
  first_capture-requests s host today blocks ((i, dec) ∷ cs) w =
      elim (capture_one-affordable p2 now i s host today blocks dec w) [
        | inl q ↦ inl q.same_requests
        | inr (b, a, o, out) ↦ elim out [
          | inl q ↦ inl q.same_requests
          | inr (event, call, c, afford) ↦
              inr (
                and-true (not blocks) _ (not-false blocks b) (and-true _ _ a o),
                call,
                c.one_request,
              )
        ]
      ]

  run_on-requests :
      (s : ScheduleSettings) (host : Host) (today : ℕ) (only : Option ℕ) (ignore : Bool)
      (w : Wake Archive)
      → AtMostOne Archive
          (capture_gate s host (p2.blocked w.archive))
          w
          (run_on p2 now s host today only ignore w).1
  unfolding run_on
  run_on-requests s host today only ignore w =
      let blocks = p2.blocked w.archive in
      let all = reconcile_all p2 now blocks (λ d. ignore && is_date only d) (open_items w) w in
      let q = reconcile_all-requests blocks (λ d. ignore && is_date only d) (open_items w) w in
      elim (first_capture-requests s host today blocks
        (keep (λ c. is_only only c.0.trading_date) all.1) all.0) [
          | inl e ↦ inl (e ∙ q)
          | inr (g, call, e) ↦ inr (g, call, rw (sym q) e)
        ]

module _ {Archive : Type 0} (p2 : P2 Archive) where
  abbrev pub run_gate : ScheduleSettings → Host → ℕ → Option ℕ → Archive → Bool
  run_gate s host now last archive =
      s.armed
      && (gates_open s host now last
          && capture_gate p2 now s host (p2.blocked (p2.recover archive)))

  begun-requests :
      (s : ScheduleSettings) (host : Host) (now : ℕ) (only : Option ℕ) (ignore : Bool) (today : ℕ)
      (r : Option Rows) (w : Wake Archive)
      → AtMostOne Archive
          (capture_gate p2 now s host (p2.blocked w.archive))
          w
          (begun p2 s host now only ignore today r w).1
  unfolding begun with_rows
  begun-requests s host now only ignore today none w = inl refl
  begun-requests s host now only ignore today (some r) w =
      run_on-requests p2 now s host today only ignore (with_rows p2 r w)

  -- A wake-up makes at most one request-making call of P2. It makes none unless the scheduler is armed,
  -- on the armed host, with a synchronized clock that has not gone back, no block is unacknowledged after
  -- P2's recovery, the owner approved the configured user agent, and the spool is writable.
  pub run-requests :
      (s : ScheduleSettings) (host : Host) (now : ℕ) (last confirm only : Option ℕ) (ignore : Bool)
      (w : Wake Archive)
      → let w' = (run p2 s host now last confirm only ignore w).1 in
        (keep is_request w'.calls ≡ keep is_request w.calls)
        ⊎ ((run_gate s host now last w.archive ≡ true)
            × (call : Call) × (keep is_request w'.calls ≡ keep is_request w.calls ++ call ∷ []))
  unfolding run
  run-requests s host now last confirm only ignore w = elim (Bool-cases s.armed) [
    | inr a ↦ rw a (inl refl)
    | inl a ↦ elim (Bool-cases (gates_open s host now last)) [
      | inr g ↦ rw (a, g) (inl refl)
      | inl g ↦ elim (Option-cases s.start_date) [
        | inl d ↦ rw (a, g, d) (inl refl)
        | inr (first, d) ↦ elim (Option-cases (colombo_date (aware now))) [
          | inl t ↦ rw (a, g, d, t) (inl refl)
          | inr (today, t) ↦
              elim (begun-requests s host now only ignore today
                (discover s first today confirm now (current_rows p2 w)) (recovered p2 w)) [
                  | inl e ↦ rw (a, g, d, t) (inl e)
                  | inr (c, call, e) ↦ rw (a, g, d, t) (inr (c, call, e))
                ]
        ]
      ]
    ]
  ]
