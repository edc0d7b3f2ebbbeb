-- ===== src/Arbiter/Lease.antt =====
-- The lease: who may begin a recovery while another one runs, when a deployment may be armed, and
-- how refusals are counted.
use mathlib.Core.Option
use acvjepa_project.Prelude.{
  if◌then◌else◌, string_eq, nat_eq, ◌==◌, Result, ok, Result-cases, ℕ, ◌+◌, String, ◌≡◌, refl, ap,
  ◌∙◌, ◌↔◌, inl, inr, true, false, ◌&&◌, some, List, [], ◌∷◌, arith, eq_iff, eq_refl,
}
use acvjepa_project.Prelude.Int.{ℤ, ◌+ℤ◌, ◌<ℤ◌, ltb_ℤ, int_eq, +ℤ_parts}
use acvjepa_project.Prelude.Dict.{lookup, lookup-insert}
use acvjepa_project.Prelude.Hashing.{Hashing}
use acvjepa_project.Arbiter.Fencing.{run, apply-err_epoch, apply-ok_generation}
use acvjepa_project.Arbiter.Inputs.{ArbitrationError, RecoveryInputs, digest}
use acvjepa_project.Arbiter.{
  EpochState, recovering, recovery_ready, deployment_armed, Actor, gitops_controller, FenceReason,
  FenceKey, state_eq, actor_eq, fence_key_eq, EpochRecord, Arbiter, reject, holds_lease,
  begin_recovery, mark_recovery_ready, arm_deployment, Call, begin, ready, arm, freeze, apply,
}

-- A recovery that begins has found no live lease, and takes one that ends `lease` after `now`.
pub begin-ok_lease :
    (h : Hashing) (actor : Actor) (n : ℕ) (holder : String) (i : RecoveryInputs) (now lease : ℤ)
    (a : Arbiter) (r : EpochRecord)
    → (apply h (begin actor n holder i now lease) a).0 ≡ ok r
    → (holds_lease a.epoch.state && ltb_ℤ now a.epoch.lease_expiry ≡ false)
      × (r.state ≡ recovering)
      × (r.lease_holder ≡ holder)
      × (r.lease_expiry ≡ now +ℤ lease)
      × (r.inputs ≡ i)
      × (now <ℤ r.lease_expiry)
unfolding apply begin_recovery
begin-ok_lease h actor n holder i now lease a r e = ground (arith, +ℤ_parts now lease)

-- What must hold for a call of `arm_deployment` to succeed.
pub record IsArmable (h : Hashing) (actor : Actor) (n : ℕ) (i : RecoveryInputs) (now : ℤ)
    (r : EpochRecord) : Type 0 where
  pub by_gitops : actor ≡ gitops_controller
  pub current : n ≡ r.generation
  pub verified : r.state ≡ recovery_ready
  pub in_time : now <ℤ r.lease_expiry
  pub same_revision : r.inputs.git_revision ≡ i.git_revision
  pub same_inputs : digest h i ≡ ok r.inputs_digest

pub arm-ok_IsArmable :
    (h : Hashing) (actor : Actor) (n : ℕ) (i : RecoveryInputs) (now : ℤ) (a : Arbiter)
    (r : EpochRecord)
    → (apply h (arm actor n i now) a).0 ≡ ok r
    → IsArmable h actor n i now a.epoch
unfolding apply arm_deployment digest
arm-ok_IsArmable h actor n i now a r e = grind (arith, eq_iff)

pub IsArmable-arm-ok :
    (h : Hashing) (actor : Actor) (n : ℕ) (i : RecoveryInputs) (now : ℤ) (a : Arbiter)
    → IsArmable h actor n i now a.epoch
    → apply h (arm actor n i now) a ≡ (
      ok (record a.epoch { state = deployment_armed }),
      record a { epoch = record a.epoch { state = deployment_armed } },
    )
unfolding apply arm_deployment digest
IsArmable-arm-ok h actor n i now a c =
    ground (arith, eq_iff a.epoch.inputs.git_revision i.git_revision, eq_refl a.epoch.inputs_digest)

-- A refusal adds one to the count of its actor and reason, and changes no other count.
pub reject_lem :
    (actor : Actor) (reason : FenceReason) (key : FenceKey) (a : Arbiter)
    → lookup key (reject actor reason a).fence_rejections ≡ (
        if (actor, reason) == key
        then some (Option.get_or (lookup (actor, reason) a.fence_rejections) 0 + 1)
        else lookup key a.fence_rejections)
unfolding reject
reject_lem actor reason key a = lookup-insert (actor, reason) key _ a.fence_rejections

-- Until `expiry` no other recovery is begun, and no drift is reported.
abbrev pub IsQuiet : ℤ → Call → Type 0
IsQuiet expiry (begin _ _ _ _ now _) = now <ℤ expiry
IsQuiet expiry (freeze _ _ _) = ⊥
IsQuiet expiry _ = Unit

abbrev pub AllQuiet : ℤ → List Call → Type 0
AllQuiet expiry [] = Unit
AllQuiet expiry (c ∷ cs) = IsQuiet expiry c × AllQuiet expiry cs

-- `s` is the recovery of `r`, further on: same generation, holder, expiry and inputs, lease held.
pub record SameRecovery (r s : EpochRecord) : Type 0 where
  pub held : holds_lease s.state ≡ true
  pub generation : s.generation ≡ r.generation
  pub holder : s.lease_holder ≡ r.lease_holder
  pub expiry : s.lease_expiry ≡ r.lease_expiry
  pub inputs : s.inputs ≡ r.inputs

ready-ok_eq :
    (h : Hashing) (actor : Actor) (n : ℕ) (holder : String) (i : RecoveryInputs) (now : ℤ)
    (a : Arbiter) (r : EpochRecord)
    → (apply h (ready actor n holder i now) a).0 ≡ ok r
    → r ≡ record a.epoch { state = recovery_ready }
unfolding apply mark_recovery_ready
ready-ok_eq h actor n holder i now a r e = ground arith

arm-ok_eq :
    (h : Hashing) (actor : Actor) (n : ℕ) (i : RecoveryInputs) (now : ℤ) (a : Arbiter)
    (r : EpochRecord)
    → (apply h (arm actor n i now) a).0 ≡ ok r
    → r ≡ record a.epoch { state = deployment_armed }
unfolding apply arm_deployment
arm-ok_eq h actor n i now a r e = ground arith

no_begin :
    (s : EpochState) (now expiry : ℤ)
    → holds_lease s ≡ true
    → now <ℤ expiry
    → holds_lease s && ltb_ℤ now expiry ≡ false
    → ⊥
no_begin s now expiry live quiet e = ground arith

ok-SameRecovery :
    (h : Hashing) (c : Call) (a : Arbiter) (r : EpochRecord)
    → holds_lease a.epoch.state ≡ true
    → IsQuiet a.epoch.lease_expiry c
    → (apply h c a).0 ≡ ok r
    → SameRecovery a.epoch r
ok-SameRecovery h (begin actor n holder i now lease) a r live quiet e = absurd (
    no_begin a.epoch.state now a.epoch.lease_expiry live quiet
      (begin-ok_lease h actor n holder i now lease a r e).0)
ok-SameRecovery h (ready actor n holder i now) a r live quiet e =
    rw (ready-ok_eq h actor n holder i now a r e)
      (record { held = refl; generation = refl; holder = refl; expiry = refl; inputs = refl })
ok-SameRecovery h (arm actor n i now) a r live quiet e =
    rw (arm-ok_eq h actor n i now a r e)
      (record { held = refl; generation = refl; holder = refl; expiry = refl; inputs = refl })
ok-SameRecovery h (freeze actor n observed) a r live quiet e = absurd quiet

apply-SameRecovery :
    (h : Hashing) (c : Call) (a : Arbiter)
    → holds_lease a.epoch.state ≡ true
    → IsQuiet a.epoch.lease_expiry c
    → SameRecovery a.epoch (apply h c a).1.epoch
apply-SameRecovery h c a live quiet = elim (Result-cases (apply h c a).0) [
  | inl (r, e) ↦ rw (apply-ok_generation h c a r e).1 (ok-SameRecovery h c a r live quiet e)
  | inr (x, e) ↦
      rw (apply-err_epoch h c a x e)
        (record { held = live; generation = refl; holder = refl; expiry = refl; inputs = refl })
]

-- A held lease excludes other recoveries: whatever calls arrive before it expires, as long as no
-- drift freezes the epoch, the record stays in the same recovery and keeps its lease.
pub lease_excludes :
    (h : Hashing) (cs : List Call) (a : Arbiter)
    → holds_lease a.epoch.state ≡ true
    → AllQuiet a.epoch.lease_expiry cs
    → SameRecovery a.epoch (run h cs a).epoch
unfolding run
lease_excludes h [] a live quiet = record {
  held = live;
  generation = refl;
  holder = refl;
  expiry = refl;
  inputs = refl;
}
lease_excludes h (c ∷ cs) a live (q, quiet) =
    let b = (apply h c a).1 in
    let one = apply-SameRecovery h c a live q in
    let rest = lease_excludes h cs b one.held (rw one.expiry quiet) in
    record {
      held = rest.held;
      generation = rest.generation ∙ one.generation;
      holder = rest.holder ∙ one.holder;
      expiry = rest.expiry ∙ one.expiry;
      inputs = rest.inputs ∙ one.inputs;
    }

-- A call of `arm_deployment` returns the current record, armed, and leaves an arbiter that stores it, with
-- nothing else changed, exactly when GitOps calls it for the current generation, the record is
-- RECOVERY_READY with its lease running, and the inputs are valid with the stored Git revision and the
-- stored digest.
pub arm-ok_iff :
    (h : Hashing) (actor : Actor) (n : ℕ) (i : RecoveryInputs) (now : ℤ) (a : Arbiter)
    → (apply h (arm actor n i now) a ≡ (
      ok (record a.epoch { state = deployment_armed }),
      record a { epoch = record a.epoch { state = deployment_armed } },
    ))
      ↔ IsArmable h actor n i now a.epoch
arm-ok_iff h actor n i now a = (
  λ e.
      arm-ok_IsArmable h actor n i now a (record a.epoch { state = deployment_armed })
        (ap (λ (z : Result ArbitrationError EpochRecord × Arbiter). z.0) e),
  IsArmable-arm-ok h actor n i now a,
)
