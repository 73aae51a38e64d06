-- ===== src/Audit/Tests.antt =====
-- The latest review of a workspace is not the one that was recorded last, if that is older.
use multi_agent_aircraft_dev.Base.{
  ℕ, String, ◌≡◌, refl, List, [], ◌∷◌, none, some, ◌⊎◌, select, Memᴰ,
}
use multi_agent_aircraft_dev.ChangeControl.{l2_modify_workspace}
use multi_agent_aircraft_dev.Audit.{AuditEvent, human, success, latest_stored_review, first_row}
use multi_agent_aircraft_dev.Audit.Trail.{IsReviewOf, IsNewer, latest_stored_review_lem}

abbrev event : ℕ → ℕ → String → AuditEvent
event id timestamp action = record {
  id = id;
  timestamp = timestamp;
  actor_id = "checker";
  actor_type = human;
  authorization_level = l2_modify_workspace;
  action = action;
  target_type = "workspace";
  target_id = some 1;
  result = success;
  reason = none;
  metadata = [];
}

abbrev trail : List AuditEvent
trail =
    event 1 5 "independent_review"
    ∷ event 2 7 "independent_review"
    ∷ event 3 9 "close_workspace"
    ∷ event 4 6 "independent_review"
    ∷ []

latest_0 : latest_stored_review 1 trail ≡ some (event 2 7 "independent_review")
unfolding latest_stored_review select first_row
latest_0 = refl

latest_stored_review_lem_example :
    ((latest_stored_review 1 trail ≡ none) × ((f : AuditEvent) → Memᴰ f trail → ¬ IsReviewOf 1 f))
    ⊎ ((e : AuditEvent) × (latest_stored_review 1 trail ≡ some e)
        × Memᴰ e trail
        × IsReviewOf 1 e
        × ((f : AuditEvent) → Memᴰ f trail → IsReviewOf 1 f → ¬ IsNewer f e))
latest_stored_review_lem_example = latest_stored_review_lem 1 trail
