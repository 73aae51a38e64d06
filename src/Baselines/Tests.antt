-- ===== src/Baselines/Tests.antt =====
-- A registered baseline, and a later attempt to replace it.
use multi_agent_aircraft_dev.Base.{nat_eq, ◌≡◌, refl, List, [], ◌∷◌, none, some}
use multi_agent_aircraft_dev.Dict.{lookup}
use multi_agent_aircraft_dev.Baselines.{Baseline, BaselineStore}
use multi_agent_aircraft_dev.Baselines.Immutable.{register_all, register_all-keeps}

abbrev baseline_0 : Baseline
baseline_0 = record {
  id = 3;
  name = "first";
  git_repository = "repo";
  git_commit = "c1";
  git_tag = none;
  external_versions = [];
}

abbrev attempts : List Baseline
attempts = record baseline_0 { git_commit = "c2" } ∷ record baseline_0 { id = 4 } ∷ []

abbrev store_0 : BaselineStore
store_0 = (3, baseline_0) ∷ []

stored_0 : lookup 3 store_0 ≡ some baseline_0
unfolding lookup
stored_0 = refl

register_all-keeps_example : lookup 3 (register_all attempts store_0) ≡ some baseline_0
register_all-keeps_example = register_all-keeps attempts store_0 3 stored_0
