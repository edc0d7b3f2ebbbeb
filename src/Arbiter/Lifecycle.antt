-- ===== src/Arbiter/Lifecycle.antt =====
-- The lifecycle of an epoch: which transitions there are, what an armed deployment rests on, and the
-- binding of the stored digest to the stored inputs.
use acvjepa_project.Prelude.{
  ok, err, Result-cases, ◌+◌, ◌≡◌, refl, sym, ap, ◌∙◌, subst, ◌≢◌, ◌⊎◌, inl, inr, some, List, [],
  ◌∷◌, ◌++◌, arith,
}
use acvjepa_project.Prelude.Hashing.{Hashing}
use acvjepa_project.Arbiter.Inputs.{ArbitrationError, RecoveryInputs, digest}
use acvjepa_project.Arbiter.Fencing.{run, apply-err_epoch, apply-ok_generation}
use acvjepa_project.Arbiter.{
  recovering, recovery_ready, deployment_armed, frozen, EpochRecord, Arbiter, reject, create,
  begin_recovery, mark_recovery_ready, arm_deployment, freeze_for_revision_drift, Call, begin,
  ready, arm, freeze, apply,
}

-- The stored inputs pass their validation, and the stored digest is theirs.
abbrev pub IsBound : Hashing → EpochRecord → Type 0
IsBound h r = digest h r.inputs ≡ ok r.inputs_digest

-- A new arbiter is bound to the inputs that it was created with.
pub create-IsBound :
    (h : Hashing) (i : RecoveryInputs) (a : Arbiter) → create h i ≡ ok a → IsBound h a.epoch
unfolding create
create-IsBound h i a e = elim (Result-cases (digest h i)) [
  | inl (d, p) ↦ ground arith
  | inr (x, p) ↦ ground arith
]

apply-ok_IsBound :
    (h : Hashing) (c : Call) (a : Arbiter) (r : EpochRecord)
    → IsBound h a.epoch
    → (apply h c a).0 ≡ ok r
    → IsBound h r
unfolding apply begin_recovery mark_recovery_ready arm_deployment freeze_for_revision_drift reject
apply-ok_IsBound h (begin actor n holder inputs now lease) a r b e = ground arith
apply-ok_IsBound h (ready actor n holder inputs now) a r b e = ground arith
apply-ok_IsBound h (arm actor n inputs now) a r b e = ground arith
apply-ok_IsBound h (freeze actor n observed) a r b e = ground arith

apply-IsBound :
    (h : Hashing) (c : Call) (a : Arbiter) → IsBound h a.epoch → IsBound h (apply h c a).1.epoch
apply-IsBound h c a b = elim (Result-cases (apply h c a).0) [
  | inl (r, e) ↦ rw ((apply-ok_generation h c a r e).1) (apply-ok_IsBound h c a r b e)
  | inr (x, e) ↦ rw (apply-err_epoch h c a x e) b
]

-- Whatever the calls, the stored digest stays the digest of the stored, valid inputs.
pub run-IsBound :
    (h : Hashing) (cs : List Call) (a : Arbiter) → IsBound h a.epoch → IsBound h (run h cs a).epoch
unfolding run
run-IsBound h [] a b = b
run-IsBound h (c ∷ cs) a b = run-IsBound h cs (apply h c a).1 (apply-IsBound h c a b)

-- The transitions of the record: the only ones, by `apply-Allowed`.
pub data Allowed (r s : EpochRecord) : Type 0 where
  begun : s.generation ≡ r.generation + 1 → s.state ≡ recovering → Allowed r s
  readied : r.state ≡ recovering → s ≡ record r { state = recovery_ready } → Allowed r s
  armed : r.state ≡ recovery_ready → s ≡ record r { state = deployment_armed } → Allowed r s
  froze : s ≡ record r { state = frozen; reason = some "git_revision_drift" } → Allowed r s

returned-Allowed :
    (h : Hashing) (c : Call) (a : Arbiter) (r : EpochRecord)
    → (apply h c a).0 ≡ ok r
    → Allowed a.epoch r
unfolding apply begin_recovery mark_recovery_ready arm_deployment freeze_for_revision_drift reject
returned-Allowed h (begin actor n holder inputs now lease) a r e =
    begun (ground arith) (ground arith)
returned-Allowed h (ready actor n holder inputs now) a r e = readied (ground arith) (ground arith)
returned-Allowed h (arm actor n inputs now) a r e = armed (ground arith) (ground arith)
returned-Allowed h (freeze actor n observed) a r e = froze (ground arith)

-- Every call that succeeds stores the record that it returns, and takes the stored record by one of the
-- four transitions: to a new generation in RECOVERING, from RECOVERING to RECOVERY_READY, from
-- RECOVERY_READY to DEPLOYMENT_ARMED, or from any state to FROZEN; the last three change no other field
-- than the state and, for FROZEN, the reason. Every call that raises leaves the stored record.
pub apply-Allowed :
    (h : Hashing) (c : Call) (a : Arbiter)
    → ((r : EpochRecord) × ((apply h c a).0 ≡ ok r)
        × ((apply h c a).1.epoch ≡ r)
        × Allowed a.epoch (apply h c a).1.epoch)
      ⊎ ((x : ArbitrationError) × ((apply h c a).0 ≡ err x) × ((apply h c a).1.epoch ≡ a.epoch))
apply-Allowed h c a = elim (Result-cases (apply h c a).0) [
  | inl (r, e) ↦
      let stored = (apply-ok_generation h c a r e).1 in
      inl (r, e, stored, subst (Allowed a.epoch) (sym stored) (returned-Allowed h c a r e))
  | inr (x, e) ↦ inr (x, e, apply-err_epoch h c a x e)
]

-- The record of `b` came from the state of `a` by arming it.
abbrev ArmedFrom : Arbiter → Arbiter → Type 0
ArmedFrom a b =
    (a.epoch.state ≡ recovery_ready) × (b.epoch ≡ record a.epoch { state = deployment_armed })

arming :
    (r s : EpochRecord)
    → Allowed r s
    → s.state ≡ deployment_armed
    → (r.state ≡ recovery_ready) × (s ≡ record r { state = deployment_armed })
arming r s (begun p q) t = ground arith
arming r s (readied p q) t = ground (arith, ap (λ (u : EpochRecord). u.state) q)
arming r s (armed p q) t = (p, q)
arming r s (froze q) t = ground (arith, ap (λ (u : EpochRecord). u.state) q)

step_armed :
    (h : Hashing) (c : Call) (a : Arbiter)
    → (apply h c a).1.epoch.state ≡ deployment_armed
    → ((apply h c a).1.epoch ≡ a.epoch) ⊎ ArmedFrom a (apply h c a).1
step_armed h c a t = elim (Result-cases (apply h c a).0) [
  | inl (r, e) ↦
      let q = (apply-ok_generation h c a r e).1 in
      inr (rw q (arming a.epoch r (returned-Allowed h c a r e) (rw q at t)))
  | inr (x, e) ↦ inl (apply-err_epoch h c a x e)
]

-- A first part of the schedule ended in RECOVERY_READY, and the last record is that one, armed.
abbrev pub WasReady : Hashing → List Call → Arbiter → Type 0
WasReady h cs a =
    (pre : List Call) × (post : List Call) × (cs ≡ pre ++ post)
    × ((run h pre a).epoch.state ≡ recovery_ready)
    × ((run h cs a).epoch ≡ record (run h pre a).epoch { state = deployment_armed })

armed_history :
    (h : Hashing) (cs : List Call) (a : Arbiter)
    → (run h cs a).epoch.state ≡ deployment_armed
    → ((run h cs a).epoch ≡ a.epoch) ⊎ WasReady h cs a
unfolding run
armed_history h [] a e = inl refl
armed_history h (c ∷ cs) a e = elim (armed_history h cs (apply h c a).1 e) [
  | inr (pre, post, p, q, t) ↦ inr (c ∷ pre, post, ap (λ (l : List Call). c ∷ l) p, q, t)
  | inl same ↦ elim (step_armed h c a (sym (ap (λ (r : EpochRecord). r.state) same) ∙ e)) [
    | inl kept ↦ inl (same ∙ kept)
    | inr (q, t) ↦ inr ([], c ∷ cs, refl, q, same ∙ t)
  ]
]

-- If a schedule that starts with nothing armed ends with an armed deployment, then some first part
-- of it ended in RECOVERY_READY, with the same generation, holder, lease and inputs as at the end.
pub armed-WasReady :
    (h : Hashing) (cs : List Call) (a : Arbiter)
    → a.epoch.state ≢ deployment_armed
    → (run h cs a).epoch.state ≡ deployment_armed
    → WasReady h cs a
armed-WasReady h cs a fresh e = elim (armed_history h cs a e) [
  | inl same ↦ absurd (fresh (sym (ap (λ (r : EpochRecord). r.state) same) ∙ e))
  | inr found ↦ found
]
