-- ===== src/Arbiter/Fencing.antt =====
-- Generation fencing: a call that names an old generation has no effect, at once or ever after.
use acvjepa_project.Prelude.{
  ℕ, ◌+◌, ◌≤◌, ◌<◌, String, ◌≡◌, ◌≢◌, inl, inr, List, [], ◌∷◌, arith, length, ok, err, Result-cases,
}
use acvjepa_project.Prelude.Hashing.{Hashing}
use acvjepa_project.Prelude.Int.{ℤ}
use acvjepa_project.Arbiter.Inputs.{RecoveryInputs, ArbitrationError}
use acvjepa_project.Arbiter.{
  Actor, Arbiter, Call, begin, ready, arm, freeze, EpochRecord, expected_generation, apply,
  begin_recovery, mark_recovery_ready, arm_deployment, freeze_for_revision_drift, reject,
  fence_key_eq, actor_eq, state_eq,
}

-- How a call moves the generation when it succeeds.
abbrev pub generation_step : Call → ℕ
generation_step (begin _ _ _ _ _ _) = 1
generation_step _ = 0

-- The calls of a schedule in turn; an exception ends only its own call.
unfoldable pub run : Hashing → List Call → Arbiter → Arbiter
run h [] a = a
run h (c ∷ cs) a = run h cs (apply h c a).1

module _ (h : Hashing) where
  -- A call that raises leaves the epoch record as it was, whatever it was called with.
  pub apply-err_epoch :
      (c : Call) (a : Arbiter) (x : ArbitrationError)
      → (apply h c a).0 ≡ err x
      → (apply h c a).1.epoch ≡ a.epoch
  unfolding apply begin_recovery mark_recovery_ready arm_deployment freeze_for_revision_drift reject
  apply-err_epoch (begin actor n holder inputs now lease) a x e = ground arith
  apply-err_epoch (ready actor n holder inputs now) a x e = ground arith
  apply-err_epoch (arm actor n inputs now) a x e = ground arith
  apply-err_epoch (freeze actor n observed) a x e = ground arith

  -- A call that succeeds named the current generation, returns the record that it stored, and moves the generation by its step.
  pub apply-ok_generation :
      (c : Call) (a : Arbiter) (r : EpochRecord)
      → (apply h c a).0 ≡ ok r
      → (expected_generation c ≡ a.epoch.generation)
        × ((apply h c a).1.epoch ≡ r)
        × (r.generation ≡ a.epoch.generation + generation_step c)
  unfolding apply begin_recovery mark_recovery_ready arm_deployment freeze_for_revision_drift reject
  apply-ok_generation (begin actor n holder inputs now lease) a r e = ground arith
  apply-ok_generation (ready actor n holder inputs now) a r e = ground arith
  apply-ok_generation (arm actor n inputs now) a r e = ground arith
  apply-ok_generation (freeze actor n observed) a r e = ground arith

module _ (h : Hashing) (c : Call) (a : Arbiter) where
  -- A call that names another generation than the current one raises and changes no epoch record.
  pub stale_call :
      expected_generation c ≢ a.epoch.generation
      → ((x : ArbitrationError) × ((apply h c a).0 ≡ err x)) × ((apply h c a).1.epoch ≡ a.epoch)
  stale_call late = elim (Result-cases (apply h c a).0) [
    | inl (r, e) ↦ absurd (late (apply-ok_generation h c a r e).0)
    | inr (x, e) ↦ ((x, e), apply-err_epoch h c a x e)
  ]

  -- No call lowers the generation, and only a call that names it can raise it.
  apply_grows :
      (a.epoch.generation ≤ (apply h c a).1.epoch.generation)
      × ((apply h c a).1.epoch.generation ≤ a.epoch.generation + 1)
  apply_grows = elim (Result-cases (apply h c a).0) [
    | inl (r, e) ↦ step c (apply-ok_generation h c a r e)
    | inr (x, e) ↦ rw (apply-err_epoch h c a x e) (omega arith)
  ]
    where
      step :
          {r : EpochRecord} (c' : Call)
          → (expected_generation c' ≡ a.epoch.generation)
            × ((apply h c a).1.epoch ≡ r)
            × (r.generation ≡ a.epoch.generation + generation_step c')
          → (a.epoch.generation ≤ (apply h c a).1.epoch.generation)
            × ((apply h c a).1.epoch.generation ≤ a.epoch.generation + 1)
      step (begin _ _ _ _ _ _) (p, q, t) = rw q (omega arith)
      step (ready _ _ _ _ _) (p, q, t) = rw q (omega arith)
      step (arm _ _ _ _) (p, q, t) = rw q (omega arith)
      step (freeze _ _ _) (p, q, t) = rw q (omega arith)

-- Over any schedule the generation grows by at most one for each call, and never falls.
pub run_grows :
    (h : Hashing) (cs : List Call) (a : Arbiter)
    → (a.epoch.generation ≤ (run h cs a).epoch.generation)
      × ((run h cs a).epoch.generation ≤ a.epoch.generation + length cs)
unfolding run
run_grows h [] a = omega arith
run_grows h (c ∷ cs) a = omega (arith, apply_grows h c a, run_grows h cs (apply h c a).1)

-- Once a recovery has begun, a call that names a generation from before it, such as a late callback
-- of an old worker or of GitOps, raises and changes no record, after any further calls.
pub fenced_forever :
    (h : Hashing) (actor : Actor) (n : ℕ) (holder : String) (i : RecoveryInputs) (now lease : ℤ)
    (a : Arbiter) (r : EpochRecord)
    → (apply h (begin actor n holder i now lease) a).0 ≡ ok r
    → (cs : List Call) (c : Call) → expected_generation c ≤ a.epoch.generation
    → let b = run h cs (apply h (begin actor n holder i now lease) a).1 in
      ((x : ArbitrationError) × ((apply h c b).0 ≡ err x)) × ((apply h c b).1.epoch ≡ b.epoch)
fenced_forever h actor n holder i now lease a r e cs c late =
    let c0 = begin actor n holder i now lease in
    let b0 = (apply h c0 a).1 in
    let (p, q, t) = apply-ok_generation h c0 a r e in
    let newer : a.epoch.generation < b0.epoch.generation = rw q (omega (arith, t)) in
    stale_call h c (run h cs b0) (omega (arith, newer, run_grows h cs b0))
