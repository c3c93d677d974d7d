-- ===== src/AsOf/Configuration.antt =====
-- worker/financial_asof/config.py: the designation in force at a time, and the configuration that a
-- query computes under. Identifiers, purposes and instants are numbers, and a registry is a function;
-- a configuration's rule versions are only compared with the implemented ones, so it carries whether
-- they are. The decoding of a stored configuration is left out: a row has its result.
pub mod InForce
mod Tests
use cse_analysis.Base.{
  ℕ, Bool, true, false, not, ◌&&◌, Option, none, some, List, [], ◌∷◌, keep, ltb, leb, ◌==◌,
  if◌then◌else◌,
}
use cse_analysis.Truth.Values.{best}

pub record Designation : Type 0 where
  pub id : ℕ
  pub purpose : ℕ
  pub recorded_at : ℕ
  pub configuration_id : ℕ

-- `PURPOSE`, the one of canonical designations
abbrev pub canonical : ℕ
canonical = 0

abbrev pub eligible : ℕ → ℕ → Designation → Bool
eligible at purpose d = (d.purpose == purpose) && leb d.recorded_at at

abbrev pub higher_id : Designation → Designation → Bool
higher_id a b = ltb b.id a.id

unfoldable pub in_force : List Designation → ℕ → ℕ → Option Designation
in_force designations at purpose = best higher_id (keep (eligible at purpose) designations)

-- `F8Configuration`, as far as a query reads it
pub record F8Configuration : Type 0 where
  pub f6_configuration_id : ℕ
  pub implemented : Bool

-- What a query may read: `none` is a row that is not registered, and `some none` a row whose
-- configuration could not be decoded.
pub record Evidence : Type 0 where
  pub designations : List Designation
  pub f8_configurations : ℕ → Option (Option F8Configuration)
  pub f6_configurations : ℕ → Option Bool

-- The codes of `Refused`
pub data Refused : Type 0 where
  no_designated_configuration configuration_not_registered configuration_not_implemented : Refused
  f6_configuration_not_registered f6_configuration_not_implemented : Refused

pub data Resolved : Type 0 where
  resolved : F8Configuration → Option Designation → Resolved
  refused : Refused → Resolved

-- From the lookup of the F6 configuration on
pub resolve_f6 : Option Bool → F8Configuration → Option Designation → Resolved
resolve_f6 none c d = refused f6_configuration_not_registered
resolve_f6 (some false) c d = refused f6_configuration_not_implemented
resolve_f6 (some true) c d = resolved c d

-- From the lookup of the F8 configuration on
pub resolve_row : Evidence → Option (Option F8Configuration) → Option Designation → Resolved
resolve_row e none d = refused configuration_not_registered
resolve_row e (some none) d = refused configuration_not_implemented
resolve_row e (some (some c)) d =
    if not c.implemented
    then refused configuration_not_implemented
    else resolve_f6 (e.f6_configurations c.f6_configuration_id) c d

pub resolve_designated : Evidence → Option Designation → Resolved
resolve_designated e none = refused no_designated_configuration
resolve_designated e (some d) = resolve_row e (e.f8_configurations d.configuration_id) (some d)

unfoldable pub resolve : Evidence → Option ℕ → ℕ → Resolved
resolve e (some pinned_id) governing_horizon = resolve_row e (e.f8_configurations pinned_id) none
resolve e none governing_horizon =
    resolve_designated e (in_force e.designations governing_horizon canonical)
