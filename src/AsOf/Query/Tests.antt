-- ===== src/AsOf/Query/Tests.antt =====
-- Queries, datasets and a timeline at concrete inputs.
use cse_analysis.Base.{ℕ, Bool, true, ◌≡◌, refl, Option, some, none, [], ◌∷◌}
use cse_analysis.Scheduler.Schedule.{aware, naive}
use cse_analysis.AsOf.Query.{
  QueryMode, known, available, current, label_of, Refused, Answer, refused, answer, Query,
  AsOfResult, query, optional_instant, check_times, with_cutoff, require_point_in_time,
  require_live, require_all, dataset, at_cutoff, at_cutoffs, timeline, naive_timestamp,
  cutoff_not_allowed, horizon_before_cutoff, horizon_required, current_not_point_in_time,
  mixed_modes, not_live_mode,
}
use cse_analysis.AsOf.Query.Timeline.{AreAsOf, timeline-AreAsOf}

abbrev any_number : ℕ → Bool
any_number n = true

abbrev sealed : QueryMode → AsOfResult
sealed m = record { mode = m; label = label_of m; result_hash = 77; verified = true }

abbrev evaluated : Query → Answer AsOfResult
evaluated q = answer (sealed q.mode)

abbrev base_at : Option ℕ → Query
base_at h = record {
  issuer_id = 4;
  mode = available;
  information_cutoff = some 50;
  knowledge_horizon = h;
  f8_configuration_id = none;
}

abbrev refusal_of {ℓ} : {A : Type ℓ} → Answer A → Option Refused
refusal_of (refused r) = some r
refusal_of (answer a) = none

query_refusals :
    refusal_of (query any_number any_number 4 (some current) (some (aware 9)) none none)
      ∷ refusal_of (query any_number any_number 4 (some known) (some (naive 9)) none none)
      ∷ refusal_of
          (query any_number any_number 4 (some available) (some (aware 9)) (some (aware 8)) none)
      ∷ refusal_of (query any_number any_number 4 (some known) (some (aware 9)) none none)
      ∷ []
    ≡ some cutoff_not_allowed ∷ some naive_timestamp ∷ some horizon_before_cutoff ∷ none ∷ []
unfolding query optional_instant check_times
query_refusals = refl

dataset_refusals :
    refusal_of (dataset (sealed known ∷ sealed current ∷ []))
      ∷ refusal_of (dataset (sealed known ∷ sealed available ∷ []))
      ∷ refusal_of (dataset (sealed known ∷ sealed known ∷ []))
      ∷ []
    ≡ some current_not_point_in_time ∷ some mixed_modes ∷ none ∷ []
unfolding dataset require_all require_point_in_time
dataset_refusals = refl

live_refusal : require_live (sealed available) ≡ refused not_live_mode
unfolding require_live require_point_in_time
live_refusal = refl

no_horizon :
    timeline any_number any_number evaluated (base_at none) (aware 100 ∷ [])
    ≡ refused horizon_required
unfolding timeline at_cutoffs at_cutoff with_cutoff query optional_instant check_times
    require_point_in_time
no_horizon = refl

two_cutoffs :
    timeline any_number any_number evaluated (base_at (some 500)) (aware 100 ∷ aware 500 ∷ [])
    ≡ answer (sealed available ∷ sealed available ∷ [])
unfolding timeline at_cutoffs at_cutoff with_cutoff query optional_instant check_times
    require_point_in_time
two_cutoffs = refl

timeline-AreAsOf_example :
    AreAsOf any_number any_number evaluated
      (base_at (some 500))
      (aware 100 ∷ aware 500 ∷ [])
      (sealed available ∷ sealed available ∷ [])
timeline-AreAsOf_example =
    timeline-AreAsOf any_number any_number evaluated (base_at (some 500))
      (aware 100 ∷ aware 500 ∷ []) (sealed available ∷ sealed available ∷ []) two_cutoffs
