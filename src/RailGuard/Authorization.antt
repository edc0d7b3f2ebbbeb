-- ===== src/RailGuard/Authorization.antt =====
-- What the guard lets through: a description of an authorized request, beside the code's guards.
use acvjepa_project.Prelude.Int.{ℤ, pos, ◌≤ℤ◌, leb_ℤ, int_eq}
use acvjepa_project.Prelude.Text.{code_points}
use acvjepa_project.Prelude.{
  if◌then◌else◌, string_eq, nat_eq, ◌==◌, length, contains, set_size, same_set, Result, ok, err, ℕ,
  String, ◌≡◌, refl, ◌≢◌, ◌↔◌, ◌⊎◌, Bool, true, false, not, ◌&&◌, ◌||◌, Option, none, some, List,
  [], ◌∷◌, arith, eq_iff,
}
use acvjepa_project.RailGuard.Types.{
  GuardError, interlock_absent, group_not_allowed, profile_unknown, ttl_out_of_range,
  restarts_out_of_range, not_isolated, inventory_mismatch, epoch_missing, precondition_failed,
  topology_differs, manifest_differs, checkpoint_malformed, approvers_not_distinct, Bytes, Signing,
  mac, execute, Approval, approval_payload, sign, is_owner, verify, IsolationEvidence,
  RuntimePreconditions, RailFaultExperiment, experiment_digest, GuardPolicy,
}
use acvjepa_project.RailGuard.{
  RailChaosGuard, verify_all, validate_dual_approvals, is_execute, is_phrase, Request, validate,
}

-- An approval that names its principal, is in its time, and carries the tag of its own fields and of
-- the experiment.
abbrev pub IsSigned : Signing → String → Bytes → ℤ → Approval → Type 0
IsSigned h digest secret now a =
    (a.principal ≢ "")
    × (a.issued_ns ≤ℤ now)
    × (now ≤ℤ a.expires_ns)
    × (mac h secret (approval_payload a.role a.principal digest a.issued_ns a.expires_ns)
        ≡ a.signature)

abbrev pub AreOwners : Approval → Approval → Type 0
AreOwners a b = (a.role ≡ "training_owner") × (b.role ≡ "infrastructure_owner")

-- One signed approval of each owner, from different principals, and no third.
abbrev pub AreDual : Signing → String → Bytes → ℤ → List Approval → Type 0
AreDual h digest secret now (a ∷ b ∷ []) =
    (AreOwners a b ⊎ AreOwners b a)
    × (a.principal ≢ b.principal)
    × IsSigned h digest secret now a
    × IsSigned h digest secret now b
AreDual h digest secret now _ = ⊥

-- The dedicated test pool, which is no production and shares nothing.
abbrev pub IsIsolated : GuardPolicy → IsolationEvidence → Type 0
IsIsolated p i =
    (i.environment ≡ p.required_environment)
    × (i.production ≡ false)
    × (i.dedicated_test_pool ≡ true)
    × (i.shared_fabric ≡ false)
    × (i.robot_control_active ≡ false)

abbrev pub IsInventoried : RailFaultExperiment → IsolationEvidence → Type 0
IsInventoried x i = (i.target_group ≡ x.target_group) × (contains i.allowed_rails x.rail_id ≡ true)

abbrev pub IsHealthy : RuntimePreconditions → Type 0
IsHealthy r =
    (r.latest_checkpoint_committed ≡ true)
    × (r.no_active_fault ≡ true)
    × (r.gpu_health_green ≡ true)
    × (r.nic_health_green ≡ true)
    × (r.trace_sink_writable ≡ true)

abbrev pub IsBetween : ℤ → ℤ → ℤ → Type 0
IsBetween a b x = (a ≤ℤ x) × (x ≤ℤ b)

abbrev pub IsAuthorized : Signing → RailChaosGuard → Option String → ℤ → Request → Type 0
IsAuthorized h g interlock now q =
    let x = q.experiment in
    (x.mode ≡ execute → interlock ≡ some g.policy.required_execution_phrase)
    × (contains g.policy.allowed_target_groups x.target_group ≡ true)
    × (contains g.policy.allowed_fault_profiles x.fault_profile ≡ true)
    × IsBetween (pos 1) g.policy.max_ttl_seconds x.ttl_seconds
    × IsBetween (pos 0) g.policy.max_restarts x.max_restarts
    × IsIsolated g.policy q.isolation
    × IsInventoried x q.isolation
    × (q.isolation.inventory_epoch ≢ "")
    × IsHealthy q.runtime
    × (q.runtime.topology_epoch ≡ x.expected_topology_epoch)
    × (q.runtime.work_manifest_digest ≡ x.expected_work_manifest_digest)
    × (length (code_points q.runtime.checkpoint_hash) ≡ 64)
    × AreDual h (experiment_digest h x) g.approval_secret now q.approvals

module _ (h : Signing) (digest : String) (secret : Bytes) (now : ℤ) where
  verify-ok_iff :
      (a : Approval)
      → (verify h digest secret now a ≡ ok tt)
        ↔ ((is_owner a.role ≡ true) × IsSigned h digest secret now a)
  unfolding verify
  verify-ok_iff a =
      let m = mac h secret (approval_payload a.role a.principal digest a.issued_ns a.expires_ns) in
      ground (arith, eq_iff a.principal "", eq_iff m a.signature)

  two_verified_iff :
      (a b : Approval)
      → (verify_all h digest secret now (a ∷ b ∷ []) ≡ ok tt)
        ↔ ((verify h digest secret now a ≡ ok tt) × (verify h digest secret now b ≡ ok tt))
  two_verified_iff a b = ground arith

owner_iff :
    (r : String) → (is_owner r ≡ true) ↔ ((r ≡ "training_owner") ⊎ (r ≡ "infrastructure_owner"))
owner_iff r = ground (arith, eq_iff r "training_owner", eq_iff r "infrastructure_owner")

-- An approval that an owner with a name signs for an experiment is verified for that experiment exactly
-- in its own time, from the issue to the expiry.
pub verify-sign :
    (h : Signing) (role principal digest : String) (issued expires now : ℤ) (secret : Bytes)
    → (role ≡ "training_owner") ⊎ (role ≡ "infrastructure_owner")
    → principal ≢ ""
    → (verify h digest secret now (sign h role principal digest issued expires secret) ≡ ok tt)
      ↔ ((issued ≤ℤ now) × (now ≤ℤ expires))
unfolding sign
verify-sign h role principal digest issued expires now secret owner named =
    let a = sign h role principal digest issued expires secret in
    let is = verify-ok_iff h digest secret now a in
    (
      (λ e. let (n, i, x, m) = (is.0 e).1 in (i, x)),
      (λ (i, x). is.1 ((owner_iff role).1 owner, (named, i, x, refl))),
    )

owners_of :
    (a b : Approval)
    → AreOwners a b ⊎ AreOwners b a
    → (is_owner a.role ≡ true) × (is_owner b.role ≡ true)
owners_of a b h = ground (arith, owner_iff a.role, owner_iff b.role)

guards_iff :
    (c : Bool) (n : ℕ) (r : Result GuardError (Unit {0}))
    → ((if not c || not (n == 2) then err approvers_not_distinct else r) ≡ ok tt)
      ↔ ((c ≡ true) × (n ≡ 2) × (r ≡ ok tt))
guards_iff c n r = ground arith

roles_iff :
    (r s : String)
    → (same_set (r ∷ s ∷ []) ("training_owner" ∷ "infrastructure_owner" ∷ []) ≡ true) ↔ (
        (r ≡ "training_owner") × (s ≡ "infrastructure_owner")
        ⊎ (s ≡ "training_owner") × (r ≡ "infrastructure_owner"))
roles_iff r s = ground (
  arith,
  eq_iff r "training_owner",
  eq_iff r "infrastructure_owner",
  eq_iff s "training_owner",
  eq_iff s "infrastructure_owner",
  eq_iff "training_owner" r,
  eq_iff "infrastructure_owner" r,
  eq_iff "training_owner" s,
  eq_iff "infrastructure_owner" s,
  eq_iff "training_owner" "infrastructure_owner",
)

principals_iff : (p q : String) → (set_size (p ∷ q ∷ []) ≡ 2) ↔ (p ≢ q)
principals_iff p q = ground (arith, eq_iff p q)

module _ (h : Signing) (g : RailChaosGuard) (digest : String) (now : ℤ) where
  dual_checks :
      (a b : Approval)
      → (validate_dual_approvals h g (a ∷ b ∷ []) digest now ≡ ok tt) ↔ (
          (same_set (a.role ∷ b.role ∷ []) ("training_owner" ∷ "infrastructure_owner" ∷ []) ≡ true)
          × (set_size (a.principal ∷ b.principal ∷ []) ≡ 2)
          × (verify_all h digest g.approval_secret now (a ∷ b ∷ []) ≡ ok tt))
  unfolding validate_dual_approvals
  dual_checks a b =
      let roles =
        same_set (a.role ∷ b.role ∷ []) ("training_owner" ∷ "infrastructure_owner" ∷ []) in
      let n = set_size (a.principal ∷ b.principal ∷ []) in
      let rest = verify_all h digest g.approval_secret now (a ∷ b ∷ []) in guards_iff roles n rest

  AreDual-iff :
      (l : List Approval)
      → (validate_dual_approvals h g l digest now ≡ ok tt)
        ↔ AreDual h digest g.approval_secret now l
  unfolding validate_dual_approvals
  AreDual-iff [] = ground arith
  AreDual-iff (a ∷ []) = ground arith
  AreDual-iff (a ∷ b ∷ []) = (
    (λ e.
        let (roles, differ, both) = (dual_checks a b).0 e in
        let (first, second) = (two_verified_iff h digest g.approval_secret now a b).0 both in
        (
          (roles_iff a.role b.role).0 roles,
          (principals_iff a.principal b.principal).0 differ,
          ((verify-ok_iff h digest g.approval_secret now a).0 first).1,
          ((verify-ok_iff h digest g.approval_secret now b).0 second).1,
        )),
    (λ (owners, differ, first, second).
        let (left, right) = owners_of a b owners in
        (dual_checks a b).1 (
          (roles_iff a.role b.role).1 owners,
          (principals_iff a.principal b.principal).1 differ,
          (two_verified_iff h digest g.approval_secret now a b).1 (
            (verify-ok_iff h digest g.approval_secret now a).1 (left, first),
            (verify-ok_iff h digest g.approval_secret now b).1 (right, second),
          ),
        )),
  )
  AreDual-iff (a ∷ b ∷ c ∷ l) = ground arith

-- A guard lets through what it does not stop and what the rest lets through.
guard_iff :
    {P Q : Type 0} {c : Bool} {r : Result GuardError (Unit {0})} (e : GuardError)
    → ((c ≡ false) ↔ P)
    → ((r ≡ ok tt) ↔ Q)
    → ((if c then err e else r) ≡ ok tt) ↔ (P × Q)
guard_iff e c r = ground (arith, c, r)

module _ (p : GuardPolicy) (x : RailFaultExperiment) where
  interlock_iff :
      (interlock : Option String)
      → ((is_execute x.mode && not (is_phrase p.required_execution_phrase interlock)) ≡ false)
        ↔ (x.mode ≡ execute → interlock ≡ some p.required_execution_phrase)
  interlock_iff none = ground arith
  interlock_iff (some text) = ground (arith, eq_iff text p.required_execution_phrase)

  IsIsolated-iff :
      (i : IsolationEvidence)
      → ((not (i.environment == p.required_environment)
            || i.production
            || not i.dedicated_test_pool
            || i.shared_fabric
            || i.robot_control_active)
          ≡ false)
        ↔ IsIsolated p i
  IsIsolated-iff i = ground (arith, eq_iff i.environment p.required_environment)

  inventory_iff :
      (i : IsolationEvidence)
      → ((not (i.target_group == x.target_group) || not (contains i.allowed_rails x.rail_id))
          ≡ false)
        ↔ IsInventoried x i
  inventory_iff i = ground (arith, eq_iff i.target_group x.target_group)

health_iff :
    (r : RuntimePreconditions)
    → ((not r.latest_checkpoint_committed
          || not r.no_active_fault
          || not r.gpu_health_green
          || not r.nic_health_green
          || not r.trace_sink_writable)
        ≡ false)
      ↔ IsHealthy r
health_iff r = ground arith

range_iff : (a x b : ℤ) → (not (leb_ℤ a x && leb_ℤ x b) ≡ false) ↔ IsBetween a b x
range_iff a x b = ground arith

member_iff : (b : Bool) → (not b ≡ false) ↔ (b ≡ true)
member_iff b = ground arith

present_iff : (s : String) → ((s == "") ≡ false) ↔ (s ≢ "")
present_iff s = ground (arith, eq_iff s "")

same_iff : (a b : String) → (not (a == b) ≡ false) ↔ (a ≡ b)
same_iff a b = ground (arith, eq_iff a b)

sixty_four_iff : (n : ℕ) → (not (n == 64) ≡ false) ↔ (n ≡ 64)
sixty_four_iff n = ground arith

-- validate succeeds exactly on the authorized requests: the experiment is within the policy and, when
-- it is to be executed, the interlock is set; the environment is the isolated test pool, with no
-- production, shared fabric or robot control, and its inventory names the target and the rail; the
-- checkpoint, health, topology and work manifest are as expected; and there are exactly two approvals,
-- one of a training owner and one of an infrastructure owner, of different named principals, each in
-- its time and with the right tag over this experiment.
pub validate-ok_iff :
    (h : Signing) (g : RailChaosGuard) (interlock : Option String) (now : ℤ) (q : Request)
    → (validate h g interlock now q ≡ ok tt) ↔ IsAuthorized h g interlock now q
unfolding validate
validate-ok_iff h g interlock now q =
    let x = q.experiment in
    let guards = guard_iff interlock_absent (interlock_iff g.policy x interlock) (
      guard_iff group_not_allowed
        (member_iff (contains g.policy.allowed_target_groups x.target_group))
        (guard_iff profile_unknown
          (member_iff (contains g.policy.allowed_fault_profiles x.fault_profile))
          (guard_iff ttl_out_of_range (range_iff (pos 1) x.ttl_seconds g.policy.max_ttl_seconds) (
            guard_iff restarts_out_of_range (range_iff (pos 0) x.max_restarts g.policy.max_restarts)
              (guard_iff not_isolated (IsIsolated-iff g.policy x q.isolation) (
                guard_iff inventory_mismatch (inventory_iff g.policy x q.isolation) (
                  guard_iff epoch_missing (present_iff q.isolation.inventory_epoch) (
                    guard_iff precondition_failed (health_iff q.runtime) (
                      guard_iff topology_differs
                        (same_iff q.runtime.topology_epoch x.expected_topology_epoch)
                        (guard_iff manifest_differs
                          (same_iff q.runtime.work_manifest_digest x.expected_work_manifest_digest)
                          (guard_iff checkpoint_malformed
                            (sixty_four_iff (length (code_points q.runtime.checkpoint_hash)))
                            (AreDual-iff h g (experiment_digest h x) now q.approvals)))))))))))) in
    (
      (λ done.
          let (a, (b, (c, (d, (e, (f, (i, (j, (k, (l, (m, (n, o)))))))))))) = guards.0 done in
          (a, b, c, d, e, f, i, j, k, l, m, n, o)),
      (λ (a, b, c, d, e, f, i, j, k, l, m, n, o).
          guards.1 (a, (b, (c, (d, (e, (f, (i, (j, (k, (l, (m, (n, o))))))))))))),
    )
