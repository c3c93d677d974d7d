-- ===== src/Capture/Completeness.antt =====
-- worker/market_capture/completeness.py: which securities a run was expected to produce observations
-- of, how complete they are, and the state that the run ends in (`_expected`, the part C of
-- `_derived`, `decide_state`). Symbols are numbers, and a universe lists its symbols.
pub mod Succeeded
mod Tests
use cse_analysis.Base.{
  ℕ, zero, suc, Bool, true, false, not, ◌&&◌, ◌||◌, Option, none, some, List, [], ◌∷◌, ◌++◌, ◌==◌,
  leb, if◌then◌else◌, any, all, keep, null?, last?, sort_by, count,
}

pub data RawStatus : Type 0 where
  produced already_present raw_failed not_expected : RawStatus

-- A row of the latest pass, as far as C reads it
pub record SecurityResult : Type 0 where
  pub symbol : ℕ
  pub raw_status : RawStatus

abbrev pub is_in : ℕ → List ℕ → Bool
is_in s xs = any (λ x. x == s) xs

-- `sorted(set(xs))`: sorted, and each element once
abbrev pub distinct : List ℕ → List ℕ
distinct [] = []
distinct (x ∷ xs) = let rest = distinct xs in if is_in x xs then rest else x ∷ rest

-- `_expected`: the universe, the symbols of the trade summary and whether absent ones are asked for
unfoldable pub expected_symbols : List ℕ → List ℕ → Bool → List ℕ
unfolding sort_by
expected_symbols usyms ts_by absent_fallback =
    keep (λ s. is_in s ts_by || absent_fallback)
      (usyms ++ sort_by leb (distinct (keep (λ s. not (is_in s usyms)) ts_by)))

abbrev pub has_observation : RawStatus → Bool
has_observation produced = true
has_observation already_present = true
has_observation _ = false

-- `by = {r["symbol"]: r for r in rows}`: of several rows of one symbol, the last
unfoldable pub lookup : List SecurityResult → ℕ → Option SecurityResult
lookup rows s = last? (keep (λ r. r.symbol == s) rows)

unfoldable pub is_produced : List SecurityResult → ℕ → Bool
is_produced rows s = elim (lookup rows s) [ none ↦ false | some r ↦ has_observation r.raw_status ]

pub data CStatus : Type 0 where
  not_derived complete partial_c none_c : CStatus

-- `c_status` of `_derived`
unfoldable pub c_status : List SecurityResult → List ℕ → CStatus
c_status rows expected =
    if null? rows
    then not_derived
    else if not (null? expected) && null? (keep (λ s. not (is_produced rows s)) expected)
    then complete
    else if not (null? (keep (is_produced rows) expected))
    then partial_c
    else none_c

pub data RunState : Type 0 where
  blocked failed partial succeeded : RunState

pub record Sweep : Type 0 where
  pub planned : ℕ
  pub archived : ℕ

-- What `summarize` found of a run, by its kind; `session` is whether the session matches the trading
-- date, where there is evidence of one.
pub data Summary : Type 0 where
  metadata_sweep : (a_captured : Bool) → Sweep → Summary
  market_capture : (a_captured b_known : Bool) → CStatus → (session : Option Bool) → Summary

abbrev is_complete : CStatus → Bool
is_complete complete = true
is_complete _ = false

abbrev matches : Option Bool → Bool
matches (some true) = true
matches _ = false

pub evidence_state : Summary → RunState
evidence_state (metadata_sweep a sw) =
    if not a
    then failed
    else if sw.archived == sw.planned
    then succeeded
    else if leb 1 sw.archived
    then partial
    else failed
evidence_state (market_capture a b c session) =
    if not a || not (matches session)
    then failed
    else if b && is_complete c
    then succeeded
    else partial

abbrev stop_early : Option RunState → RunState → RunState
stop_early none s = s
stop_early (some _) succeeded = partial
stop_early (some _) s = s

-- `decide_state`; a run that was stopped comes with the state of its stop.
unfoldable pub decide_state : Summary → Option RunState → RunState
unfolding evidence_state
decide_state summary (some blocked) = blocked
decide_state summary stopped = stop_early stopped (evidence_state summary)
