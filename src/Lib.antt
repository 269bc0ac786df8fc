-- ===== src/Lib.antt =====
-- A model of the core of remote-dev-skillkit, with its correctness: the control plane, the gateway
-- around it, the audit chain, the signed bundles of trusted keys, the routes of a host, the
-- lock of a workspace, the tokens of operators, and the policy on capabilities.
--
-- The program lets an agent drive a remote host. Its core is the control plane: sessions that hosts
-- and agents join by a code, a numbered event log for each session, tasks that are routed to a target
-- endpoint and run to an end there, artifacts, and leases that authorize an endpoint's polls. A gateway
-- (internal/gateway) adds an audit log and a signed bundle of the keys that hosts trust. An HTTP layer
-- (internal/httpapi) serves it, and a host (internal/hostcmd) reaches it by a pool of routes.
--
-- ControlPlane/Session, Protocol: the types of session.go and store.go, their constants as data types
--   with a constructor for any other text.
-- ControlPlane/World: what comes from outside, as an argument of the model: the clock, randomness,
--   json.Marshal, fmt.Sprint. Nothing is assumed of them.
-- ControlPlane/Store: MemoryStore, and the actions that all methods share. An action takes a state and
--   gives a result and a state, beside an error too, since Go keeps what was written before it (Exec).
-- ControlPlane/Append: appendEventLocked, WithEvent. Append/Outcome, Append/Stored and Append/Replay are about it.
-- ControlPlane/Tasks: Task.Transition, findTaskLocked. ControlPlane/Leases: NewLease,
--   issueLeaseLocked, authorizeLeaseLocked. ControlPlane/Endpoints: routing, WithEndpoint and the
--   capability ceiling. ControlPlane/Events: visibleEventsLocked.
-- ControlPlane/Lifecycle: CreateSession, CloseSession, RevokeSession, expireSessionLocked.
-- ControlPlane/Join: JoinSession, JoinByCode and UpsertHostLocked (host.go).
-- ControlPlane/Hosts: RenameHost, and SetEventHook (store.go).
-- ControlPlane/Work: AppendEvent, AppendEventBatch, SubmitTask, CancelTask, CompleteTask,
--   MarkTaskRunning. ControlPlane/Artifacts: UpsertArtifact, ResumeTask, CompactEvents,
--   SetSessionNotifyURL. ControlPlane/Reads: Session, EventsAfter, PeekEventsAfter,
--   EventsAfterForAgent, ValidateLease.
-- ControlPlane/Writes: an abstract control plane as a step relation on sessions and logs; the files
--   below it set every method against it. ControlPlane/Machine: the methods as calls, and their runs.
-- ControlPlane/Invariants: what every run keeps.
-- ControlPlane/Status: DeriveStatus and Session.Snapshot (session.go); Status/Reported is about it.
-- ControlPlane/Snapshots: RestoreSnapshot (snapshot.go); Snapshots/Restored and
--   Snapshots/Identities are about it.
-- Audit: internal/audit/chain.go, the hash chain over audit events; Audit/Evidence and Audit/Tampering
--   are about it. SHA-256 and json.Marshal are arguments.
-- Trust, Trust/Bundle: internal/model/trust.go and trust_bundle.go, the signed bundles of trusted keys, with
--   Ed25519, base 64, SHA-256 and json.Marshal as arguments. Trust/WellFormed and Trust/Updates are about
--   them.
-- Gateway: internal/gateway/memory.go, session.go and hosts.go, the control plane with an audit log (Audit)
--   and a signed bundle (Trust). Gateway/Sessions: the audited calls. Gateway/Bundles: making, renewing and
--   replacing the bundle. Gateway/Runs: runs of its methods. Gateway/Log, Gateway/Following and
--   Gateway/Renewal are about them.
-- Routes: internal/hostcmd/route_pool.go, the routes a host reaches its gateways by. Routes/Pool: the pool, the
--   choice of a route, reports. Routes/Probing: what is done with observations. A method that gives
--   up the mutex while it probes is two functions, and Routes/Moves runs them in any order. url.Parse and
--   strings.ToLower are arguments, and so are the observations of the probes. Routes/Generations,
--   Routes/Choice and Routes/Failover are about it.
-- Workspace: internal/workspace/lock.go, the lock file of a workspace. Acquire is a sequence of system
--   calls on a file with an inode; Workspace/Acquiring is about it undisturbed, Workspace/Sharing and
--   Workspace/Race about several processes. Paths and the file's encoding come from outside, and a system
--   call fails only for a file that is or is not there.
-- OperatorAuth: internal/operatorauth/auth.go, the principals and their bearer tokens, with SHA-256,
--   hex.DecodeString, sort.Strings and strings.ToLower as arguments; OperatorAuth/Soundness is about it.
-- Policy: internal/policy/capabilities.go and internal/model/host_mode.go, what a host may do in which mode;
--   Policy/Explained and Policy/Merged are about it. Policy/Capabilities: the names of the capabilities.
-- Tests: a concrete world and store, and runs on them.
--
-- Choices: the mutex makes each method of the store one action; a gateway's call of it and the
-- audit event after it are one action too, though the mutex is given up between them; JoinByCode
-- and ResumeTask give it up in between, and take what other callers do there as arguments. Times
-- are integers, nanoseconds from Go's zero time, whose sums are exact. A uint64 and an int wrap at
-- 2 ^ 64. Maps are association lists, strings are texts of code points with the length of their
-- UTF-8 in bytes, clones are the identity since no value is changed in place. The call of the event
-- hook is kept as a list of notifications. The replay state that EventsAfter returns beside an
-- error is left out. Loops are structural recursion, so no fuel is needed.
--
-- Not modelled: writing the store's snapshots (Snapshot in internal/controlplane/snapshot.go,
-- and internal/gateway/snapshot.go), the sorted list of Hosts (host.go), reading and writing audit files, and
-- the packages that are not named above, which mostly run processes, connections and files.
pub mod Prelude
pub mod Exec
pub mod ControlPlane
pub mod Audit
pub mod Trust
pub mod Gateway
pub mod Routes
pub mod Workspace
pub mod OperatorAuth
pub mod Policy
pub mod Tests
