-- ===== src/Arbiter/Tests.antt =====
-- Concrete runs of the arbiter, and each theorem at an input of `run_smoke_test`'s kind.
use acvjepa_project.Prelude.{
  string_eq, nat_eq, ok, err, String, ◌≡◌, refl, ◌≢◌, ◌↔◌, ◌⊎◌, none, some, List, [], ◌∷◌, arith,
}
use acvjepa_project.Prelude.Int.{pos, ◌+ℤ◌, int_eq}
use acvjepa_project.Prelude.Dict.{lookup}
use acvjepa_project.Prelude.Text.{is_sha256_hex}
use acvjepa_project.Prelude.Hashing.{transparent}
use acvjepa_project.Arbiter.Inputs.{ArbitrationError, RecoveryInputs, validate, to_json, digest}
use acvjepa_project.Arbiter.Lifecycle.{
  IsBound, run-IsBound, Allowed, apply-Allowed, WasReady, armed-WasReady,
}
use acvjepa_project.Arbiter.Lease.{IsArmable, SameRecovery, lease_excludes, arm-ok_iff}
use acvjepa_project.Arbiter.Fencing.{run, fenced_forever}
use acvjepa_project.Arbiter.{
  idle, recovering, recovery_ready, deployment_armed, recovery_controller, gitops_controller, stale,
  state_eq, actor_eq, fence_key_eq, EpochRecord, Arbiter, reject, create, begin_recovery,
  mark_recovery_ready, arm_deployment, freeze_for_revision_drift, Call, begin, ready, arm, freeze,
  apply,
}

abbrev hash_a : String
hash_a = "0123456789abcdef0123456789abcdef0123456789abcdef0123456789abcdef"

abbrev old : RecoveryInputs
old = record {
  checkpoint_hash = hash_a;
  cursor_commit_id = "cursor-old";
  precision_contract_hash = hash_a;
  topology_epoch = "topology-old";
  plan_digest = hash_a;
  work_manifest_digest = hash_a;
  git_revision = "git-sha-old";
}

abbrev new : RecoveryInputs
new = record old {
  cursor_commit_id = "cursor-new";
  topology_epoch = "topology-new";
  git_revision = "git-sha-new";
}

abbrev old_digest : String
old_digest = transparent.sha256 (transparent.dumps (to_json old))

abbrev fresh : Arbiter
fresh = record {
  epoch = record {
    generation = 0;
    state = idle;
    lease_holder = "";
    lease_expiry = pos 0;
    inputs = old;
    inputs_digest = old_digest;
    reason = none;
  };
  fence_rejections = [];
}

abbrev begin_a : Call
begin_a = begin recovery_controller 0 "recovery-a" old (pos 0) (pos 30)

-- The calls of the smoke test up to the armed deployment.
abbrev schedule : List Call
schedule =
    begin_a
    ∷ freeze gitops_controller 1 "git-sha-new"
    ∷ begin recovery_controller 1 "recovery-b" new (pos 1) (pos 30)
    ∷ ready recovery_controller 1 "recovery-a" old (pos 2)
    ∷ ready recovery_controller 2 "recovery-b" new (pos 2)
    ∷ arm gitops_controller 1 old (pos 3)
    ∷ arm gitops_controller 2 new (pos 3)
    ∷ []

created : create transparent old ≡ ok fresh
unfolding create digest validate is_sha256_hex
created = refl

smoke_state : (run transparent schedule fresh).epoch.state ≡ deployment_armed
unfolding run apply begin_recovery mark_recovery_ready arm_deployment freeze_for_revision_drift
    reject digest validate is_sha256_hex ◌+ℤ◌ transparent
smoke_state = refl

smoke_rejections :
    (lookup (recovery_controller, stale) (run transparent schedule fresh).fence_rejections ≡ some 1)
    × (lookup (gitops_controller, stale) (run transparent schedule fresh).fence_rejections ≡ some 1)
unfolding run apply begin_recovery mark_recovery_ready arm_deployment freeze_for_revision_drift
    reject digest validate is_sha256_hex ◌+ℤ◌ transparent
smoke_rejections = (refl, refl)

abbrev started : EpochRecord
started = record {
  generation = 1;
  state = recovering;
  lease_holder = "recovery-a";
  lease_expiry = pos 30;
  inputs = old;
  inputs_digest = old_digest;
  reason = none;
}

begin_a-ok : (apply transparent begin_a fresh).0 ≡ ok started
unfolding apply begin_recovery digest validate is_sha256_hex ◌+ℤ◌ transparent
begin_a-ok = refl

abbrev after_begin : Arbiter
after_begin = (apply transparent begin_a fresh).1

abbrev late_worker : Call
late_worker = ready recovery_controller 0 "recovery-a" old (pos 2)

fenced_forever_example :
    let b = run transparent (freeze gitops_controller 1 "git-sha-new" ∷ []) after_begin in
    ((x : ArbitrationError) × ((apply transparent late_worker b).0 ≡ err x))
    × ((apply transparent late_worker b).1.epoch ≡ b.epoch)
fenced_forever_example =
    fenced_forever transparent recovery_controller 0 "recovery-a" old (pos 0) (pos 30) fresh started
      begin_a-ok (freeze gitops_controller 1 "git-sha-new" ∷ []) late_worker (omega arith)

idle-ne-armed : fresh.epoch.state ≢ deployment_armed
idle-ne-armed = λ e. cc e

armed-WasReady_example : WasReady transparent schedule fresh
armed-WasReady_example = armed-WasReady transparent schedule fresh idle-ne-armed smoke_state

abbrev running : Arbiter
running = record { epoch = started; fence_rejections = [] }

-- A second controller, and an early GitOps callback.
abbrev quiet_calls : List Call
quiet_calls =
    begin recovery_controller 1 "recovery-b" new (pos 29) (pos 30)
    ∷ ready recovery_controller 1 "recovery-a" old (pos 2)
    ∷ arm gitops_controller 1 old (pos 3)
    ∷ []

lease_excludes_example : SameRecovery started (run transparent quiet_calls running).epoch
lease_excludes_example = lease_excludes transparent quiet_calls running refl (omega arith)

fresh-IsBound : IsBound transparent fresh.epoch
unfolding digest validate is_sha256_hex
fresh-IsBound = refl

run-IsBound_example : IsBound transparent (run transparent schedule fresh).epoch
run-IsBound_example = run-IsBound transparent schedule fresh fresh-IsBound

abbrev verified : Arbiter
verified = record { epoch = record started { state = recovery_ready }; fence_rejections = [] }

arm-ok_iff_example :
    (apply transparent (arm gitops_controller 1 old (pos 3)) verified ≡ (
      ok (record verified.epoch { state = deployment_armed }),
      record verified { epoch = record verified.epoch { state = deployment_armed } },
    ))
    ↔ IsArmable transparent gitops_controller 1 old (pos 3) verified.epoch
arm-ok_iff_example = arm-ok_iff transparent gitops_controller 1 old (pos 3) verified

apply-Allowed_example :
    ((r : EpochRecord) × ((apply transparent begin_a fresh).0 ≡ ok r)
      × (after_begin.epoch ≡ r)
      × Allowed fresh.epoch after_begin.epoch)
    ⊎ ((x : ArbitrationError) × ((apply transparent begin_a fresh).0 ≡ err x)
        × (after_begin.epoch ≡ fresh.epoch))
apply-Allowed_example = apply-Allowed transparent begin_a fresh
