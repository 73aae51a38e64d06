-- ===== src/Baselines.antt =====
-- domain/baselines.py: the registry of immutable baselines.
pub mod Immutable
mod Tests
use multi_agent_aircraft_dev.Base.{
  any, ◌||◌, ℕ, String, refl, not, ◌&&◌, Option, none, some, List, Eq, ◌==◌, nat_eq, string_eq,
  option_eq, list_eq, pair_eq, eq_via,
}
use multi_agent_aircraft_dev.Dict.{Dict, lookup, insert}
use multi_agent_aircraft_dev.Errors.{
  ValueError, field_constraint, baseline_immutable, Result, ok, err, ◌>>=◌, ◌>>◌, raise_if,
}

pub record ExternalSystemVersion : Type 0 where
  pub system : String
  pub version : String

instance abbrev pub system_version_eq : Eq ExternalSystemVersion
system_version_eq =
    eq_via {B = String × String} (λ v. (v.system, v.version))
      (λ t. record { system = t.0; version = t.1 }) (λ v. refl)

pub record Baseline : Type 0 where
  pub id : ℕ
  pub name : String
  pub git_repository : String
  pub git_commit : String
  pub git_tag : Option String
  pub external_versions : List ExternalSystemVersion

instance abbrev pub baseline_eq : Eq Baseline
baseline_eq =
    eq_via {B = ℕ × (String × (String × (String × (Option String × List ExternalSystemVersion))))}
      (λ b. (b.id, (b.name, (b.git_repository, (b.git_commit, (b.git_tag, b.external_versions))))))
      (λ t. record {
        id = t.0;
        name = t.1.0;
        git_repository = t.1.1.0;
        git_commit = t.1.1.1.0;
        git_tag = t.1.1.1.1.0;
        external_versions = t.1.1.1.1.1;
      })
      (λ b. refl)

-- The construction of a baseline: `min_length=1` of the fields of its versions, then of its own.
unfoldable pub make_baseline : Baseline → Result ValueError Baseline
unfolding any
make_baseline b = do
  raise_if (any (λ v. v.system == "" || v.version == "") b.external_versions) field_constraint
  raise_if (b.name == "" || b.git_repository == "" || b.git_commit == "") field_constraint
  ok b

abbrev pub BaselineStore : Type 0
BaselineStore = Dict ℕ Baseline

register_over :
    Option Baseline → Baseline → BaselineStore → Result ValueError (Baseline × BaselineStore)
register_over none baseline store = ok (baseline, insert baseline.id baseline store)
register_over (some existing) baseline store = do
  raise_if (not (existing == baseline)) baseline_immutable
  ok (baseline, insert baseline.id baseline store)

-- `BaselineRegistry.register`
unfoldable pub register : Baseline → BaselineStore → Result ValueError (Baseline × BaselineStore)
unfolding register_over
register baseline store = register_over (lookup baseline.id store) baseline store
