-- ===== src/Gateway/Publishes.antt =====
-- A reconciliation leaves the baselines as they were.
use multi_agent_aircraft_dev.Base.{ℕ, String, ◌∙◌, Option, none, some, List}
use multi_agent_aircraft_dev.Errors.{Exception, Result, ok, err}
use multi_agent_aircraft_dev.Evidence.{ExternalVersion}
use multi_agent_aircraft_dev.Audit.{MetaValue}
use multi_agent_aircraft_dev.Models.{EngineeringGraph}
use multi_agent_aircraft_dev.Workspaces.{Workspace}
use multi_agent_aircraft_dev.Workspaces.Registry.{WorkspaceStore}
use multi_agent_aircraft_dev.Gateway.World.{Actor, Reconciler}
use multi_agent_aircraft_dev.Gateway.Effects.{KeepsBaselines, keeps_baselines}
use multi_agent_aircraft_dev.Gateway.Reconciliation.{
  reconciled_with, reconciliation_failed, concurrent_winner, recover, try_publish, publish_result,
  publish, require_l2, reconcile_found, reconcile,
}

module _ (actor : Actor) (i : ℕ) (changes : EngineeringGraph) (hash : String) where
  reconciled_with-Keeps :
      (found : List ExternalVersion) (mark : List (String × MetaValue))
      → KeepsBaselines (reconciled_with actor i changes hash found mark)
  unfolding reconciled_with
  reconciled_with-Keeps found mark = search keeps_baselines depth 40

  reconciliation_failed-Keeps :
      (e : Exception) → KeepsBaselines (reconciliation_failed actor i changes hash e)
  unfolding reconciliation_failed
  reconciliation_failed-Keeps e = search keeps_baselines depth 40

  concurrent_winner-Keeps :
      (current : Option Workspace) → KeepsBaselines (concurrent_winner actor i changes hash current)
  unfolding concurrent_winner
  concurrent_winner-Keeps none = search reconciliation_failed-Keeps
  concurrent_winner-Keeps (some current) =
      search (keeps_baselines, reconciled_with-Keeps, reconciliation_failed-Keeps) depth 40

  recover-Keeps : (e : Exception) → KeepsBaselines (recover actor i changes hash e)
  unfolding recover
  recover-Keeps e =
      search (keeps_baselines, concurrent_winner-Keeps, reconciliation_failed-Keeps) depth 40

  publish_result-Keeps :
      (r : Result Exception (List ExternalVersion))
      → KeepsBaselines (publish_result actor i changes hash r)
  unfolding publish_result
  publish_result-Keeps (ok found) = search reconciled_with-Keeps
  publish_result-Keeps (err e) = search recover-Keeps

module _ (reconciler : Reconciler) (meanwhile : WorkspaceStore → WorkspaceStore) where
  try_publish-Keeps :
      (workspace : Workspace) (changes : EngineeringGraph) (hash : String)
      → KeepsBaselines (try_publish reconciler meanwhile workspace changes hash)
  unfolding try_publish
  try_publish-Keeps workspace changes hash = search keeps_baselines depth 40

  publish-Keeps :
      (actor : Actor) (workspace : Workspace) (i : ℕ) (changes : EngineeringGraph) (hash : String)
      → KeepsBaselines (publish reconciler meanwhile actor workspace i changes hash)
  unfolding publish
  publish-Keeps actor workspace i changes hash = record {
    at = λ w.
        let (r, x) = try_publish reconciler meanwhile workspace changes hash w in
        (publish_result-Keeps actor i changes hash r).at x
        ∙ (try_publish-Keeps workspace changes hash).at w;
  }

  pub reconcile-Keeps :
      (digest : EngineeringGraph → String) (actor : Actor) (i : ℕ)
      → KeepsBaselines (reconcile reconciler digest meanwhile actor i)
  unfolding reconcile reconcile_found require_l2
  reconcile-Keeps digest actor i =
      search (keeps_baselines, publish-Keeps, reconciled_with-Keeps) depth 60 fits 6000
