-- ===== src/ChangeControl/Registry.antt =====
-- `SqlAlchemyChangeRequestRepository` of infrastructure/metadata_repositories.py.
use multi_agent_aircraft_dev.Base.{ℕ, Option, none, some, ◌==◌, nat_eq, if◌then◌else◌}
use multi_agent_aircraft_dev.Dict.{Dict, lookup, insert, has_key}
use multi_agent_aircraft_dev.Errors.{
  ValueError, change_request_exists, change_request_missing, Result, ok, err, ◌>>◌, raise_if,
}
use multi_agent_aircraft_dev.ChangeControl.{ChangeRequest, request_eq, require_transition}

unfoldable pub create :
    ChangeRequest → Dict ℕ ChangeRequest → Result ValueError (ChangeRequest × Dict ℕ ChangeRequest)
unfolding has_key
create request store = do
  raise_if (has_key request.id store) change_request_exists
  ok (request, insert request.id request store)

-- The state follows the gate; of the other fields only the two links are written.
update_found :
    Option ChangeRequest
    → ChangeRequest
    → Dict ℕ ChangeRequest
    → Result ValueError (ChangeRequest × Dict ℕ ChangeRequest)
update_found none request store = err change_request_missing
update_found (some stored) request store = do
  (if stored.state == request.state then ok tt else require_transition stored.state request.state)
  ok (
    request,
    insert request.id
        (record stored {
          state = request.state;
          source_baseline_id = request.source_baseline_id;
          workspace_id = request.workspace_id;
        })
        store,
  )

unfoldable pub update :
    ChangeRequest → Dict ℕ ChangeRequest → Result ValueError (ChangeRequest × Dict ℕ ChangeRequest)
unfolding update_found
update request store = update_found (lookup request.id store) request store
