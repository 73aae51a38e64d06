-- ===== src/Profiles/Service.antt =====
-- application/profile_service.py: the governed operations on the profiles. The message of an error is
-- a parameter.
use multi_agent_aircraft_dev.Base.{
  String, Bool, not, ◌||◌, Option, none, some, List, [], ◌∷◌, ◌==◌, if◌then◌else◌,
}
use multi_agent_aircraft_dev.Errors.{Result, ok, err, ◌>>=◌, ◌>>◌}
use multi_agent_aircraft_dev.ChangeControl.{l3_approve, level_eq}
use multi_agent_aircraft_dev.Audit.{
  AuditResult, success, failure, text, Reason, stated, AuditEvent, record_event, later, Stamps,
}
use multi_agent_aircraft_dev.Gateway.World.{Actor, is_ai}
use multi_agent_aircraft_dev.Profiles.{StandardProfile}
use multi_agent_aircraft_dev.Profiles.Registry.{ProfileStore}
use multi_agent_aircraft_dev.Profiles.Engine.{ProfileError, validate_profile, compose}
use multi_agent_aircraft_dev.Profiles.Registration.{Key, key_of, ProfileRegistry}

pub record ProfileWorld : Type 0 where
  pub store : ProfileStore
  pub audit : List AuditEvent
  pub stamps : Stamps

-- `GatewayServiceError`, for a missing right or with the message of an error
pub data ProfileServiceError : Type 0 where
  requires_human_l3 : ProfileServiceError
  failed : ProfileError → ProfileServiceError

-- `_record_identity`
unfoldable pub record_identity :
    Actor → String → Key → AuditResult → Option Reason → ProfileWorld → ProfileWorld
unfolding record_event
record_identity actor action key result reason w = record w {
  audit =
      record_event
        (record {
          id = (w.stamps 0).id;
          timestamp = (w.stamps 0).timestamp;
          actor_id = actor.actor_id;
          actor_type = actor.actor_type;
          authorization_level = actor.authorization_level;
          action = action;
          target_type = "standard_profile";
          target_id = none;
          result = result;
          reason = reason;
          metadata = ("profile_id", text key.0) ∷ ("profile_version", text key.1) ∷ [];
        })
        w.audit;
  stamps = later w.stamps;
}

-- `actor.is_ai or actor.authorization_level != AuthorizationLevel.L3_APPROVE`
abbrev pub lacks_right : Actor → Bool
lacks_right actor = is_ai actor || not (actor.authorization_level == l3_approve)

module _ (message : ProfileError → String) where
  -- What follows the `try` block: the record of its ending, and the answer.
  unfoldable pub finish :
      {A : Type 0}
      → Actor
      → String
      → Key
      → ProfileWorld
      → Result ProfileError (A × ProfileStore)
      → Result ProfileServiceError A × ProfileWorld
  unfolding record_identity
  finish actor action key w (err e) =
      (err (failed e), record_identity actor action key failure (some (stated (message e))) w)
  finish actor action key w (ok (a, s)) =
      (ok a, record_identity actor action key success none (record w { store = s }))

  -- A governed operation: the right, the `try` block and its record.
  unfoldable pub governed :
      {A : Type 0}
      → Actor
      → String
      → Key
      → (ProfileStore → Result ProfileError (A × ProfileStore))
      → ProfileWorld
      → Result ProfileServiceError A × ProfileWorld
  unfolding finish
  governed actor action key body w =
      if lacks_right actor
      then (err requires_human_l3, w)
      else finish actor action key w (body w.store)

  module _ (registry : ProfileRegistry) where
    -- `validate_profile`, then the registration
    unfoldable pub registering :
        StandardProfile → ProfileStore → Result ProfileError (Unit {0} × ProfileStore)
    unfolding validate_profile
    registering profile s = do
      validate_profile profile
      next ← registry.register profile s
      ok (tt, next)

    unfoldable pub register :
        Actor
        → StandardProfile
        → ProfileWorld
        → Result ProfileServiceError (Unit {0}) × ProfileWorld
    unfolding governed registering
    register actor profile w =
        governed actor "register_profile" (key_of profile) (registering profile) w

    unfoldable pub activate :
        Actor → Key → ProfileWorld → Result ProfileServiceError StandardProfile × ProfileWorld
    unfolding governed
    activate actor key w = governed actor "activate_profile" key (registry.activate key) w

    abbrev pub deactivating : Key → ProfileStore → Result ProfileError (Unit {0} × ProfileStore)
    deactivating key s = registry.deactivate key s >>= λ next. ok (tt, next)

    unfoldable pub deactivate :
        Actor → Key → ProfileWorld → Result ProfileServiceError (Unit {0}) × ProfileWorld
    unfolding governed
    deactivate actor key w = governed actor "deactivate_profile" key (deactivating key) w

    -- the composition and its registration; `json` as in `compose`
    unfoldable pub composing :
        (List String → String)
        → List StandardProfile
        → Key
        → String
        → ProfileStore
        → Result ProfileError (StandardProfile × ProfileStore)
    unfolding compose
    composing json profiles key name s = do
      composed ← compose json profiles key.0 key.1 name
      next ← registry.register composed s
      ok (composed, next)

    unfoldable pub compose_profiles :
        (List String → String)
        → Actor
        → List StandardProfile
        → Key
        → String
        → ProfileWorld
        → Result ProfileServiceError StandardProfile × ProfileWorld
    unfolding governed composing
    compose_profiles json actor profiles key name w =
        governed actor "compose_profile" key (composing json profiles key name) w
