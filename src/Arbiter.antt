-- ===== src/Arbiter.antt =====
-- recovery_deployment_arbiter.py: the single-writer state machine that arbitrates between the
-- recovery controller and the GitOps controller. Every method reads and writes the record while it
-- holds the lock, so a call is one step. Times are whole ticks (the source has float seconds).
pub mod Inputs
pub mod Fencing
pub mod Lifecycle
pub mod Lease
mod Tests
use acvjepa_project.Prelude.{
  ℕ, ◌+◌, String, ◌≡◌, ◌↔◌, Bool, true, false, not, ◌&&◌, ◌||◌, Option, none, some, [], arith,
  nat_beq, if◌then◌else◌, Eq, ◌==◌, nat_eq, string_eq, Result, ok, err, Exec, raise, gets, lift,
  ◌>>=◌, ◌>>◌, raise_if,
}
use mathlib.Core.Option
use acvjepa_project.Prelude.Int.{ℤ, pos, ◌+ℤ◌, ltb_ℤ, leb_ℤ}
use acvjepa_project.Prelude.Dict.{Dict, lookup, insert}
use acvjepa_project.Prelude.Hashing.{Hashing}
use acvjepa_project.Arbiter.Inputs.{
  RecoveryInputs, ArbitrationError, not_recovery_controller, recovery_lease_active,
  not_ready_recovering, input_binding_changed, not_gitops_controller, not_armable,
  git_revision_drifted, inputs_differ, not_freezer, not_drifted, stale_generation, validate, digest,
}

pub data EpochState : Type 0 where
  idle recovering recovery_ready deployment_armed frozen : EpochState

pub data Actor : Type 0 where
  recovery_controller gitops_controller admission : Actor

-- The labels under which a refusal is counted.
pub data FenceReason : Type 0 where
  lease_expired input_binding_invalid state_not_armed git_revision_mismatch : FenceReason
  stale : FenceReason

abbrev pub state_code : EpochState → ℕ
state_code idle = 0
state_code recovering = 1
state_code recovery_ready = 2
state_code deployment_armed = 3
state_code frozen = 4

abbrev pub actor_code : Actor → ℕ
actor_code recovery_controller = 0
actor_code gitops_controller = 1
actor_code admission = 2

abbrev pub reason_code : FenceReason → ℕ
reason_code lease_expired = 0
reason_code input_binding_invalid = 1
reason_code state_not_armed = 2
reason_code git_revision_mismatch = 3
reason_code stale = 4

pub state_code_iff : (a b : EpochState) → (nat_beq (state_code a) (state_code b) ≡ true) ↔ (a ≡ b)
state_code_iff a b = ground arith

pub actor_code_iff : (a b : Actor) → (nat_beq (actor_code a) (actor_code b) ≡ true) ↔ (a ≡ b)
actor_code_iff a b = ground arith

abbrev pub FenceKey : Type 0
FenceKey = Actor × FenceReason

abbrev pub key_beq : FenceKey → FenceKey → Bool
key_beq a b =
    nat_beq (actor_code a.0) (actor_code b.0) && nat_beq (reason_code a.1) (reason_code b.1)

pub key_beq_iff : (a b : FenceKey) → (key_beq a b ≡ true) ↔ (a ≡ b)
key_beq_iff (a, r) (b, s) = ground arith

instance abbrev pub state_eq : Eq EpochState
state_eq = record { same = λ a b. nat_beq (state_code a) (state_code b); same_iff = state_code_iff }

instance abbrev pub actor_eq : Eq Actor
actor_eq = record { same = λ a b. nat_beq (actor_code a) (actor_code b); same_iff = actor_code_iff }

instance abbrev pub fence_key_eq : Eq FenceKey
fence_key_eq = record { same = key_beq; same_iff = key_beq_iff }

pub record EpochRecord : Type 0 where
  pub generation : ℕ
  pub state : EpochState
  pub lease_holder : String
  pub lease_expiry : ℤ
  pub inputs : RecoveryInputs
  pub inputs_digest : String
  pub reason : Option String

pub record Arbiter : Type 0 where
  pub epoch : EpochRecord
  pub fence_rejections : Dict FenceKey ℕ

abbrev pub Action : Type 0 → Type 0
Action = Exec ArbitrationError Arbiter

-- `_reject`
unfoldable pub reject : Actor → FenceReason → Arbiter → Arbiter
reject actor reason a = record a {
  fence_rejections =
      insert (actor, reason) (Option.get_or (lookup (actor, reason) a.fence_rejections) 0 + 1)
        a.fence_rejections;
}

-- `if test: self._reject(actor, reason); raise e`
abbrev pub refuse_if : Bool → Actor → FenceReason → ArbitrationError → Action (Unit {0})
refuse_if test actor reason e a = if test then (err e, reject actor reason a) else (ok tt, a)

-- `_require_generation`
abbrev pub require_generation : ℕ → Actor → Action (Unit {0})
require_generation expected actor a =
    refuse_if (not (expected == a.epoch.generation)) actor stale stale_generation a

abbrev pub write : EpochRecord → Action EpochRecord
write r a = (ok r, record a { epoch = r })

-- The states that hold a lease.
abbrev pub holds_lease : EpochState → Bool
holds_lease recovering = true
holds_lease recovery_ready = true
holds_lease deployment_armed = true
holds_lease _ = false

module _ (h : Hashing) where
  -- `RecoveryDeploymentArbiter.__init__`
  unfoldable pub create : RecoveryInputs → Result ArbitrationError Arbiter
  create inputs = elim (digest h inputs) [
    | err e ↦ err e
    | ok d ↦ ok (record {
      epoch = record {
        generation = 0;
        state = idle;
        lease_holder = "";
        lease_expiry = pos 0;
        inputs = inputs;
        inputs_digest = d;
        reason = none;
      };
      fence_rejections = [];
    })
  ]

  unfoldable pub begin_recovery : Actor → ℕ → String → RecoveryInputs → ℤ → ℤ → Action EpochRecord
  begin_recovery actor expected holder inputs now lease_seconds = do
    raise_if (not (actor == recovery_controller) || holder == "" || leb_ℤ lease_seconds (pos 0))
        not_recovery_controller
    lift (validate inputs)
    require_generation expected actor
    current ← gets (λ a. a.epoch)
    refuse_if (holds_lease current.state && ltb_ℤ now current.lease_expiry) actor lease_expired
        recovery_lease_active
    d ← lift (digest h inputs)
    write (record {
      generation = current.generation + 1;
      state = recovering;
      lease_holder = holder;
      lease_expiry = now +ℤ lease_seconds;
      inputs = inputs;
      inputs_digest = d;
      reason = none;
    })

  unfoldable pub mark_recovery_ready : Actor → ℕ → String → RecoveryInputs → ℤ → Action EpochRecord
  mark_recovery_ready actor expected holder inputs now = do
    raise_if (not (actor == recovery_controller)) not_recovery_controller
    lift (validate inputs)
    require_generation expected actor
    current ← gets (λ a. a.epoch)
    refuse_if
        (not (current.state == recovering)
          || not (current.lease_holder == holder)
          || leb_ℤ current.lease_expiry now)
        actor lease_expired not_ready_recovering
    d ← lift (digest h inputs)
    refuse_if (not (current.inputs_digest == d)) actor input_binding_invalid input_binding_changed
    write (record current { state = recovery_ready })

  unfoldable pub arm_deployment : Actor → ℕ → RecoveryInputs → ℤ → Action EpochRecord
  arm_deployment actor expected inputs now = do
    raise_if (not (actor == gitops_controller)) not_gitops_controller
    lift (validate inputs)
    require_generation expected actor
    current ← gets (λ a. a.epoch)
    refuse_if (not (current.state == recovery_ready) || leb_ℤ current.lease_expiry now) actor
        state_not_armed not_armable
    refuse_if (not (current.inputs.git_revision == inputs.git_revision)) actor git_revision_mismatch
        git_revision_drifted
    d ← lift (digest h inputs)
    refuse_if (not (current.inputs_digest == d)) actor input_binding_invalid inputs_differ
    write (record current { state = deployment_armed })

unfoldable pub freeze_for_revision_drift : Actor → ℕ → String → Action EpochRecord
freeze_for_revision_drift actor expected observed = do
  raise_if (actor == recovery_controller || observed == "") not_freezer
  require_generation expected actor
  current ← gets (λ a. a.epoch)
  raise_if (observed == current.inputs.git_revision) not_drifted
  write (record current { state = frozen; reason = some "git_revision_drift" })

-- The calls that change the record; `snapshot` only reads it.
pub data Call : Type 0 where
  begin : Actor → ℕ → String → RecoveryInputs → ℤ → ℤ → Call
  ready : Actor → ℕ → String → RecoveryInputs → ℤ → Call
  arm : Actor → ℕ → RecoveryInputs → ℤ → Call
  freeze : Actor → ℕ → String → Call

abbrev pub expected_generation : Call → ℕ
expected_generation (begin _ n _ _ _ _) = n
expected_generation (ready _ n _ _ _) = n
expected_generation (arm _ n _ _) = n
expected_generation (freeze _ n _) = n

unfoldable pub apply : Hashing → Call → Action EpochRecord
apply h (begin actor n holder inputs now lease) = begin_recovery h actor n holder inputs now lease
apply h (ready actor n holder inputs now) = mark_recovery_ready h actor n holder inputs now
apply h (arm actor n inputs now) = arm_deployment h actor n inputs now
apply h (freeze actor n observed) = freeze_for_revision_drift actor n observed
