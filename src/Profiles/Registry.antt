-- ===== src/Profiles/Registry.antt =====
-- infrastructure/profile_registry.py: the registered profiles and the active ones, as far as the
-- services read them.
use multi_agent_aircraft_dev.Base.{String, Bool, Option, List, nat_eq, string_eq, pair_eq, contains}
use multi_agent_aircraft_dev.Dict.{Dict, lookup}
use multi_agent_aircraft_dev.Profiles.{StandardProfile}

pub record ProfileStore : Type 0 where
  pub profiles : Dict (String × String) StandardProfile
  pub active : List (String × String)

-- `get`
unfoldable pub get_profile : String → String → ProfileStore → Option StandardProfile
get_profile profile_id version store = lookup (profile_id, version) store.profiles

unfoldable pub is_active : String → String → ProfileStore → Bool
is_active profile_id version store = contains (profile_id, version) store.active
