-- ===== src/AsOf/Supersession.antt =====
-- worker/financial_asof/supersession.py: when one visible observation of a fact supersedes another,
-- by a basis that the source itself declares, and when the evidence is too ambiguous to drop any.
--
-- Instants, keys, documents and filings are numbers. A candidate's filings are sorted and distinct,
-- as its caller makes them. The references that a record cites as evidence are left out, and the
-- ambiguities stand in the order of the loops, not sorted.
pub mod Order
pub mod Survivors
mod Tests
use cse_analysis.Base.{
  ℕ, Bool, true, false, not, ◌&&◌, ◌||◌, Option, none, some, List, [], ◌∷◌, ◌++◌, map, leb, ltb,
  ◌==◌, if◌then◌else◌, any, keep, all, null?, is_none, sort_by,
}
use cse_analysis.Truth.Values.{best, minimum}
use cse_analysis.Truth.Observations.{Observation, pair_disagrees}
use cse_analysis.Truth.Reconcile.{across, is_internal}

pub data DocumentType : Type 0 where
  errata_or_reissue amendment other_type : DocumentType

pub data TypeStatus : Type 0 where
  confirmed document_only other_status : TypeStatus

pub record Candidate : Type 0 where
  pub observation : Observation
  pub document_type : DocumentType
  pub type_status : TypeStatus
  pub available_at : Option ℕ
  pub filings : List ℕ

abbrev pub so_key : Candidate → ℕ
so_key c = c.observation.so_key

abbrev pub document : Candidate → ℕ
document c = c.observation.document

-- `S1_TYPES`, `S1_STATUSES`
abbrev is_s1_type : DocumentType → Bool
is_s1_type errata_or_reissue = true
is_s1_type amendment = true
is_s1_type other_type = false

abbrev is_s1_status : TypeStatus → Bool
is_s1_status confirmed = true
is_s1_status document_only = true
is_s1_status other_status = false

abbrev pub s1 : Candidate → Bool
s1 c = is_s1_type c.document_type && is_s1_status c.type_status

abbrev pub s1_unclear : Candidate → Bool
s1_unclear c = is_s1_type c.document_type && not (is_s1_status c.type_status)

abbrev pub s2 : Candidate → Bool
s2 c = any (λ m. m.restated) c.observation.members

abbrev pub common_filings : Candidate → Candidate → List ℕ
common_filings a b = keep (λ f. any (λ g. g == f) b.filings) a.filings

-- The document's own times under a filing: CDN Last-Modified values, and path epochs.
abbrev pub DocumentTimes : Type 0
DocumentTimes = ℕ → ℕ → List ℕ × List ℕ

pub data PairOrder : Type 0 where
  no_pair ordered unordered : PairOrder

abbrev strictly_later : Option ℕ → Option ℕ → PairOrder
strictly_later (some l) (some e) = if ltb e l then ordered else unordered
strictly_later _ _ = no_pair

-- One kind of time: `min(later) > max(earlier)` where both are present.
time_order : List ℕ → List ℕ → PairOrder
time_order later earlier = strictly_later (minimum later) (best (λ a b. ltb b a) earlier)

-- The two kinds under one filing: none unordered, and one at least ordered.
abbrev both_kinds : PairOrder → PairOrder → Bool
both_kinds unordered _ = false
both_kinds ordered unordered = false
both_kinds ordered _ = true
both_kinds no_pair ordered = true
both_kinds no_pair _ = false

unfoldable pub s3 : DocumentTimes → Candidate → Candidate → Bool
unfolding time_order
s3 times s o =
    let common = common_filings s o in
    not (null? common)
    && all
        (λ f.
          both_kinds (time_order (times f (document s)).0 (times f (document o)).0)
            (time_order (times f (document s)).1 (times f (document o)).1))
        common

pub data Basis : Type 0 where
  basis_1 basis_2 basis_3 : Basis

abbrev only : Bool → Basis → List Basis
only true b = b ∷ []
only false b = []

-- `s.available_at > o.available_at`, where both are known
abbrev pub later_than : Option ℕ → Option ℕ → Bool
later_than (some s) (some o) = ltb o s
later_than _ _ = false

-- `bases`, without the evidence
unfoldable pub bases : DocumentTimes → Candidate → Candidate → List Basis
bases times s o =
    if document s == document o
    then []
    else if not (later_than s.available_at o.available_at)
    then []
    else only (s1 s) basis_1 ++ (only (s2 s) basis_2 ++ only (s3 times s o) basis_3)

abbrev pub supersedes : DocumentTimes → Candidate → Candidate → Bool
supersedes times s o = not (null? (bases times s o))

-- An incomparable pair of members is an `InputError` there; `reconcile_fact` raises it too.
unfoldable pub disagree : Observation → Observation → Bool
disagree a b = (is_internal a || is_internal b) || across pair_disagrees a b

pub data AmbiguityKind : Type 0 where
  unknown_availability unclear_basis unordered_versions two_errata : AmbiguityKind

pub record Ambiguity : Type 0 where
  pub kind : AmbiguityKind
  pub a : ℕ
  pub b : ℕ

pub record Superseding : Type 0 where
  pub superseding : ℕ
  pub superseded : ℕ
  pub found : List Basis

pub record FactSupersession : Type 0 where
  pub records : List Superseding
  pub superseded_by : List (ℕ × List ℕ)
  pub ambiguities : List Ambiguity

abbrev ambiguity : AmbiguityKind → Candidate → Candidate → Ambiguity
ambiguity k a b = record { kind = k; a = so_key a; b = so_key b }

-- The body of the first pair of loops over the ambiguities, at an ordered pair.
ordered_ambiguity : DocumentTimes → Candidate → Candidate → List Ambiguity
ordered_ambiguity times s o =
    if document s == document o
    then []
    else if not ((s1 s || s2 s) || (s1_unclear s || not (null? (common_filings s o))))
    then []
    else if is_none s.available_at || is_none o.available_at
    then ambiguity unknown_availability s o ∷ []
    else if s1_unclear s && (later_than s.available_at o.available_at && not (supersedes times s o))
    then ambiguity unclear_basis s o ∷ []
    else []

-- The body of the second pair of loops, at an unordered pair.
pair_ambiguity : DocumentTimes → Candidate → Candidate → List Ambiguity
unfolding disagree
pair_ambiguity times a b =
    if document a == document b
    then []
    else (if not (null? (common_filings a b))
          && (not (is_none a.available_at || is_none b.available_at)
              && not (supersedes times a b || supersedes times b a))
        then ambiguity unordered_versions a b ∷ []
        else [])
      ++ (if (s1 a && s1 b) && disagree a.observation b.observation
          then ambiguity two_errata a b ∷ []
          else [])

-- `[x for a in xs for x in f(a)]`
abbrev pub gather {ℓ κ} : {A : Type ℓ} {B : Type κ} → (A → List B) → List A → List B
gather f [] = []
gather f (x ∷ xs) = f x ++ gather f xs

abbrev gather_pairs {ℓ κ} : {A : Type ℓ} {B : Type κ} → (A → A → List B) → List A → List B
gather_pairs f [] = []
gather_pairs f (x ∷ xs) = gather (f x) xs ++ gather_pairs f xs

unfoldable pub ambiguities_of : DocumentTimes → List Candidate → List Ambiguity
unfolding ordered_ambiguity pair_ambiguity
ambiguities_of times cands =
    gather (λ s. gather (ordered_ambiguity times s) cands) cands
    ++ gather_pairs (pair_ambiguity times) cands

abbrev superseding_keys : DocumentTimes → List Candidate → Candidate → List ℕ
superseding_keys times cands o = map so_key (keep (λ s. supersedes times s o) cands)

abbrev record_of : DocumentTimes → Candidate → Candidate → List Superseding
record_of times o s =
    if supersedes times s o
    then record { superseding = so_key s; superseded = so_key o; found = bases times s o } ∷ []
    else []

abbrev dropped_entry : DocumentTimes → List Candidate → Candidate → List (ℕ × List ℕ)
dropped_entry times cands o =
    if any (λ s. supersedes times s o) cands
    then (so_key o, superseding_keys times cands o) ∷ []
    else []

abbrev by_key : Candidate → Candidate → Bool
by_key a b = leb (so_key a) (so_key b)

-- `derive` over the candidates in the order of their keys.
unfoldable pub derive_sorted : DocumentTimes → List Candidate → FactSupersession
derive_sorted times cands =
    if null? (ambiguities_of times cands)
    then record {
      records = gather (λ o. gather (record_of times o) cands) cands;
      superseded_by = gather (dropped_entry times cands) cands;
      ambiguities = [];
    }
    else record { records = []; superseded_by = []; ambiguities = ambiguities_of times cands }

unfoldable pub derive : List Candidate → DocumentTimes → FactSupersession
unfolding sort_by
derive candidates times = derive_sorted times (sort_by by_key candidates)

-- `[... for s in items if s.so_key not in dropped]`, step 5 of `_recomputed` (selection.py)
unfoldable pub kept : FactSupersession → List Candidate → List Candidate
kept sup items = keep (λ c. not (any (λ d. d.0 == so_key c) sup.superseded_by)) items
