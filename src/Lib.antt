-- ===== src/Lib.antt =====
-- AC-VJEPA: the ledgers, gates and queues of the training and release control plane.
--
-- The repository trains and deploys a video world model. Beside the networks it keeps small Python
-- components that decide which work is done, which checkpoint counts and who may change a deployment.
-- This library models those components, each from its own file, and proves what makes them correct.
--
-- Parts, their files and what stands for their code:
-- * Arbiter models recovery_deployment_arbiter.py. The record and the counters of
--   RecoveryDeploymentArbiter are the state `Arbiter`; begin_recovery, mark_recovery_ready,
--   arm_deployment and freeze_for_revision_drift are the methods of the same names, and
--   Arbiter/Inputs holds RecoveryInputs.
-- * Cursor models elastic_data_cursor_ledger.py. The two tables of ElasticCursorLedger are the state
--   `Ledger`; bootstrap, prepare_next_update, abort_uncommitted, recover_after_rendezvous and
--   commit_update are its methods. Cursor/Types has the values with their validation, Cursor/Storage
--   the reading of checkpoint bytes.
-- * Lease models resumable_simjob_ledger.py: the table of LeaseLedger is a list of `Job`s, complete is
--   `complete_job`, and Lease/Retry has retry_with_backoff.
-- * Review models hitl_quarantine_review.py: the table of ReviewLedger is a list of `CaseRow`s.
-- * Cache models verified_checkpoint_cache.py: InMemoryStrongCommitKV, DurableShardStore and
--   VerifiedReadThroughCache are three states, each with its methods.
-- * LoadGate models threadsafe_checkpoint_load_gate.py: LoadGate.antt has the admission, the gate and the
--   points of a `load` call, LoadGate/System its threads under any interleaving. A flight is named by its
--   key and generation.
-- * RailGuard models rdma_rail_chaos_guard.py: the signed approvals and the evidence in RailGuard/Types, the
--   guard and the recording executor in RailGuard.antt. The trusted executor is an interface.
-- * Audit models multimodal_hitl_tamper_evident_ledger.py: artifacts, manifests and the Merkle root in
--   Audit/Types, the tables of MultimodalAuditLedger and the methods that write them in Audit.antt, the
--   readers eligible_patch_for_data, verify_integrity and verify_local_artifacts in Audit/Integrity.
--   Of from_local_files, Audit/Integrity has the artifacts it makes of the files. Audit/Unordered is on the
--   order of the artifacts, which registering changes.
-- * Canary models shadow_canary_gate.py: ShadowCanaryGate is the state `Gate`, with record as
--   `record_outcome`, and IdentityStableRouter is `Router`. Canary/Schedule has calls that keep every
--   report and may apply it at any later time.
-- * Topology models topology_aware_update_plan.py: Topology/Types has the manifest, the telemetry, the work
--   and the plans with their validation, Topology/Assign the share of each rank and the greedy
--   assignment (a `Bin` is a rank with its work), Topology/Check validate_update_plan, and Topology.antt
--   the planner; the numbers that Python refuses to convert between int and float are those of which
--   `Floats` says so. The exchange of bytes between the ranks is not modelled.
-- * Pipeline models spsc_robot_pipeline.py: the ring SPSCRing in Pipeline.antt, with the queue that it
--   promises in Pipeline/Refinement, the halves of pop in Pipeline/Race, and the latch and one round
--   of each worker in Pipeline/Workers.
-- * Prelude has what they share: results of methods with a state, Python's integers, lists, dictionaries
--   and texts, and the SQL statements that the ledgers use.
--
-- How the code is read. A method is a function from its arguments and a state to a result and the
-- state after it, and an exception is a value of the component's own error type. A SQLite transaction
-- gives back the table of its start when its body raises. The components do not call each other: they
-- are tied by the digests and the commit names that their arguments carry. A schedule is a list of calls;
-- locks and transactions make each call one step (in LoadGate each lock section of a call is one), and
-- hitl_quarantine_review.py, which takes none in its two review calls, is read as one step for each call
-- as well. A round of a pipeline worker is one step.
--
-- Code from outside is a parameter: the digest and the JSON encoding (`Hashing`, `ByteHashing`), HMAC
-- (`Signing`), Ed25519 (`Crypto`), the names from uuid4, the files (`Files`, `Disk`), float arithmetic
-- (`Floats`) and the first eight bytes of a digest (`bucket`). Times are arguments in whole ticks, and so
-- are the durations that the source gives in float seconds; a cost and a physics prior are whole
-- numbers of a unit. Columns that are written and never read are left out.
--
-- Two loops have fuel. drain_latest has one round more than the ring has items, and the refinement shows
-- that this is enough; merkle_root has as many rounds as there are leaves, as Audit/Merkle shows.
-- retry_with_backoff counts down its attempts.
--
-- Not modelled: the networks, training and data programs (floating-point tensors of libraries), the
-- checks of configuration files, the demonstrations at the end of each file, and, so far, the
-- orchestrator, the dynamic NCCL plan and the drills.
pub mod Prelude
pub mod Arbiter
pub mod Cursor
pub mod Lease
pub mod RailGuard
pub mod Review
pub mod Cache
pub mod LoadGate
pub mod Audit
pub mod Canary
pub mod Topology
pub mod Pipeline
