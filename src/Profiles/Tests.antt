-- ===== src/Profiles/Tests.antt =====
-- Two profiles that share an element type, their composition, and calls of the service.
use multi_agent_aircraft_dev.Base.{
  inr, arith, String, ◌≡◌, refl, true, none, some, List, [], ◌∷◌, contains, string_eq, pair_eq,
}
use multi_agent_aircraft_dev.Dict.{lookup, insert}
use multi_agent_aircraft_dev.Errors.{ok, err}
use multi_agent_aircraft_dev.ChangeControl.{l2_modify_workspace, l3_approve}
use multi_agent_aircraft_dev.Audit.{human, record_event}
use multi_agent_aircraft_dev.Gateway.World.{Actor}
use multi_agent_aircraft_dev.Models.{requirement, verification, verified_by}
use multi_agent_aircraft_dev.Profiles.{ElementTypeDefinition, StandardProfile}
use multi_agent_aircraft_dev.Profiles.Registry.{get_profile, is_active}
use multi_agent_aircraft_dev.Profiles.Engine.{
  ProfileError, several_lifecycles, validate_profile, compose,
}
use multi_agent_aircraft_dev.Profiles.Composition.{IsComposition, compose-IsComposition}
use multi_agent_aircraft_dev.Profiles.Registration.{
  profiles_in_database, register_durable, register_row, activate_profile, activate_known,
}
use multi_agent_aircraft_dev.Profiles.Service.{
  ProfileWorld, record_identity, finish, governed, registering, register, activate,
}
use multi_agent_aircraft_dev.Profiles.Steps.{
  ProfileCall, register_call, activate_call, deactivate_call, compose_call, perform, perform_all,
}
use multi_agent_aircraft_dev.Profiles.Governed.{
  IsSound, perform_all-IsSound, perform_all-immutable, perform-refused, activate-register,
}

abbrev req : ElementTypeDefinition
req = record { id = "req"; kind = requirement; attributes = [] }

abbrev test : ElementTypeDefinition
test = record { id = "test"; kind = verification; attributes = [] }

abbrev base : StandardProfile
base = record {
  id = "base";
  version = "1";
  name = "Base";
  description = none;
  element_types = req ∷ [];
  relations = [];
  lifecycles =
      record { id = "l1"; element_type_id = "req"; states = "draft" ∷ []; transitions = [] } ∷ [];
  artifacts = [];
  traceability = [];
  verification = [];
  metadata = "{}";
}

abbrev checks : StandardProfile
checks = record base {
  id = "checks";
  element_types = test ∷ req ∷ [];
  relations =
      record {
        id = "r1";
        relation_type = verified_by;
        source_type_ids = "req" ∷ [];
        target_type_ids = "test" ∷ [];
      }
      ∷ [];
  lifecycles = [];
}

abbrev json_0 : List String → String
json_0 refs = "{}"

abbrev both : StandardProfile
both = record checks {
  id = "both";
  name = "Both";
  description = some "Composition of: base@1, checks@1";
  element_types = req ∷ test ∷ [];
  lifecycles = base.lifecycles;
}

composed : compose json_0 (base ∷ checks ∷ []) "both" "1" "Both" ≡ ok both
unfolding compose
composed = refl

compose-IsComposition_example : IsComposition (base ∷ checks ∷ []) both
compose-IsComposition_example =
    compose-IsComposition json_0 (base ∷ checks ∷ []) "both" "1" "Both" both composed

-- Two valid profiles compose to one that is not: each brings a lifecycle of its own for one type.
abbrev other : StandardProfile
other = record base {
  id = "other";
  lifecycles =
      record { id = "l2"; element_type_id = "req"; states = "open" ∷ []; transitions = [] } ∷ [];
}

abbrev mixed : StandardProfile
mixed = record base {
  id = "mixed";
  name = "Mixed";
  description = some "Composition of: base@1, other@1";
  lifecycles =
      record { id = "l1"; element_type_id = "req"; states = "draft" ∷ []; transitions = [] }
      ∷ record { id = "l2"; element_type_id = "req"; states = "open" ∷ []; transitions = [] }
      ∷ [];
}

composition_invalid :
    (compose json_0 (base ∷ other ∷ []) "mixed" "1" "Mixed" ≡ ok mixed)
    × (validate_profile mixed ≡ err several_lifecycles)
unfolding compose validate_profile
composition_invalid = (refl, refl)

abbrev owner : Actor
owner = record { actor_id = "owner"; actor_type = human; authorization_level = l3_approve }

abbrev maker : Actor
maker = record { actor_id = "maker"; actor_type = human; authorization_level = l2_modify_workspace }

abbrev message_0 : ProfileError → String
message_0 e = "failed"

abbrev empty : ProfileWorld
empty = record {
  store = record { profiles = []; active = [] };
  audit = [];
  stamps = λ n. record { id = n; timestamp = n };
}

abbrev with_base : ProfileWorld
with_base = record empty { store = record { profiles = (("base", "1"), base) ∷ []; active = [] } }

abbrev calls_0 : List (Actor × ProfileCall)
calls_0 =
    (owner, register_call (record base { name = "Other" }))
    ∷ (owner, activate_call ("base", "1"))
    ∷ (maker, deactivate_call ("base", "1"))
    ∷ (owner, compose_call (base ∷ checks ∷ []) ("both", "1") "Both")
    ∷ []

empty-IsSound : IsSound empty.store
unfolding lookup contains
empty-IsSound = record {
  named = λ k p h. absurd (cc h);
  valid = λ k p h. absurd (cc h);
  active_known = λ k h. absurd (cc h);
}

perform_all-IsSound_example :
    IsSound (perform_all message_0 profiles_in_database json_0 calls_0 empty).store
perform_all-IsSound_example =
    perform_all-IsSound message_0 profiles_in_database json_0 calls_0 empty empty-IsSound

there : lookup ("base", "1") with_base.store.profiles ≡ some base
unfolding lookup
there = refl

perform_all-immutable_example :
    lookup
      ("base", "1")
      (perform_all message_0 profiles_in_database json_0 calls_0 with_base).store.profiles
    ≡ some base
perform_all-immutable_example =
    perform_all-immutable message_0 profiles_in_database json_0 calls_0 with_base ("base", "1") base
      there

perform-refused_example :
    perform message_0 profiles_in_database json_0 maker (activate_call ("base", "1")) with_base
    ≡ with_base
perform-refused_example =
    perform-refused message_0 profiles_in_database json_0 maker (activate_call ("base", "1"))
      with_base (inr (λ e. ground arith))

abbrev registered_world : ProfileWorld
registered_world = (register message_0 profiles_in_database owner base empty).1

abbrev active_world : ProfileWorld
active_world = (activate message_0 profiles_in_database owner ("base", "1") registered_world).1

registered : register message_0 profiles_in_database owner base empty ≡ (ok tt, registered_world)
unfolding register registering governed profiles_in_database register_durable register_row
    validate_profile finish record_identity record_event lookup insert
registered = refl

activated :
    activate message_0 profiles_in_database owner ("base", "1") registered_world
    ≡ (ok base, active_world)
unfolding register activate registering governed profiles_in_database register_durable register_row
    activate_profile activate_known validate_profile finish record_identity record_event lookup
    insert contains
activated = refl

activate-register_example :
    (get_profile "base" "1" registered_world.store ≡ some base)
    × (base ≡ base)
    × (get_profile "base" "1" active_world.store ≡ some base)
    × (is_active "base" "1" active_world.store ≡ true)
activate-register_example =
    activate-register message_0 profiles_in_database json_0 owner base base empty registered_world
      active_world registered activated
