-- ===== src/Lib.antt =====
-- The Engineering Gateway (src/engineering_gateway): the governed workflow by which changes of an
-- aircraft's engineering model are staged, validated, reviewed, published and released.
--
-- A change request is bound to a workspace, which starts from a baseline or from a pinned Git
-- snapshot. Elements and relations are staged in the workspace over the canonical graph. The
-- workspace is validated against a standard profile and a budget, and is then ready for approval;
-- its change set is reconciled with the external systems and reviewed independently; a human with
-- level L3 rejects it or releases it as a new immutable baseline. Every operation runs in a
-- transaction and is recorded in an audit trail.
--
-- Files, and the code that they model (below src/engineering_gateway):
--   Base                 shared types, Boolean tests, equality, lists, sets, sorting, texts
--   Dict, Errors         association lists; the errors, one constructor for each message
--   ChangeControl        domain/change_control.py and the change requests of
--                        infrastructure/metadata_repositories.py
--   Budget               domain/budget.py
--   Evidence             the validation evidence of a workspace, ExternalVersion of domain/adapters.py
--   Workspaces           domain/workspaces.py and SqlAlchemyWorkspaceRegistry of
--                        infrastructure/metadata_repositories.py
--   Models               domain/models.py, compute_change_set_hash of domain/reconciliation.py
--   Baselines            domain/baselines.py
--   Audit                domain/audit.py and the review query of SqlAlchemyAuditSink
--   Changes              infrastructure/workspace_changes.py
--   Profiles             domain/profiles.py, application/profile_engine.py and profile_service.py,
--                        infrastructure/profile_registry.py and SqlAlchemyStandardProfileRegistry of
--                        infrastructure/metadata_repositories.py
--   Traceability         domain/traceability.py: the graph, its searches and its diagnosis
--   Validation           application/validation.py: the engine, and its interface to the services
--   Gateway              application/gateway_service.py, governed_gateway_service.py,
--                        workspace_reconciliation.py and transactional_service.py
--   Tools                domain/tool_registry.py, application/tool_invocation.py and
--                        tool_lifecycle.py, infrastructure/tool_registry_repository.py
--   AdapterReconciler    infrastructure/workspace_reconciler.py: what it plans before its first call,
--                        and the calls of the adapters as a log; the Gateway takes any reconciler
--
-- A service operation is an action on a World: what the database session holds, the audit events that
-- are written in sessions of their own, and the calls of external systems so far. It returns or
-- raises, and `transactional` takes the session's writes back when it raises. Services that a
-- deployment may leave out are options and flags of the configuration. Loops of the code are
-- structural recursion on lists, but for the two searches of the traceability graph, which run on
-- fuel: one round per relation and one more, which is enough. Numbers are unbounded, as in Python.
--
-- Parameters: SHA-256 of the JSON text of a change set and of validation inputs (`digest`), the Git
-- adapter, the adapters of external tools, urlsplit and str.strip of Python's library, and the
-- reconciler as they answer during one call, the identifiers drawn by uuid4 (numbers of 128 bits),
-- and, in a reconciliation, what other transactions commit to the workspaces while the external
-- systems work. The gateway takes the validation engine as an interface (`Validator`, with the law
-- that a result carries the hash of what was validated), which the engine fills. An exception of an adapter carries a text, and is not taken for a lost update.
--
-- Not modelled: HTTP and MCP interfaces, configuration and start-up, table definitions and row
-- conversions, the clients of external systems, the start of a project. The correlation identifiers of audit
-- events and the texts of most messages are left out, as no code branches on them; the time and the
-- identifier of an event are drawn from a stream (`stamps`) that is part of the state.
pub mod Base
pub mod Dict
pub mod Errors
pub mod ChangeControl
pub mod Budget
pub mod Evidence
pub mod Workspaces
pub mod Models
pub mod Baselines
pub mod Audit
pub mod Changes
pub mod Profiles
pub mod Validation
pub mod Gateway
pub mod Tools
pub mod Traceability
pub mod AdapterReconciler
