-- ===== src/Lease/Retry.antt =====
-- `retry_with_backoff` of resumable_simjob_ledger.py. The operation and the sleep act on a world `W`;
-- the random part of the delay is the sleep's own.
use acvjepa_project.Prelude.{Result, ok, err, ℕ, zero, suc, ◌+◌, ◌<◌, ◌≡◌, arith}

-- What the call ends with: a value, the last exception, or the failed assertion of no attempt.
pub data Outcome (E A : Type 0) : Type 0 where
  returned : A → Outcome E A
  raised : E → Outcome E A
  assertion_failed : Outcome E A

module _ {E A W : Type 0} (operation : W → Result E A × W) (sleep : ℕ → W → W) where
  -- `left` rounds of `range(attempts)` remain; the next one has the number `index`.
  unfoldable pub attempt_loop : ℕ → ℕ → Outcome E A → W → Outcome E A × W
  attempt_loop zero index last w = (last, w)
  attempt_loop (suc left) index last w =
      let (r, w') = operation w in
      elim r [
        | ok a ↦ (returned a, w')
        | err e ↦ elim left [
          | zero ↦ (raised e, w')
          | suc _ ↦ attempt_loop left (index + 1) (raised e) (sleep index w')
        ]
      ]

  unfoldable pub retry_with_backoff : ℕ → W → Outcome E A × W
  retry_with_backoff attempts w = attempt_loop attempts 0 assertion_failed w

  -- The world before the attempt of number `start + n`: after `n` failed attempts, each with its sleep.
  unfoldable pub world_before : ℕ → ℕ → W → W
  world_before start zero w = w
  world_before start (suc n) w = world_before (start + 1) n (sleep start (operation w).1)

  -- The first `n` attempts raise.
  abbrev pub AllRaise : ℕ → ℕ → W → Type 0
  AllRaise start zero w = Unit
  AllRaise start (suc n) w =
      ((e : E) × ((operation w).0 ≡ err e)) × AllRaise (start + 1) n (sleep start (operation w).1)

  first_success :
      (n attempts index : ℕ) (last : Outcome E A) (w : W) (a : A)
      → n < attempts
      → AllRaise index n w
      → (operation (world_before index n w)).0 ≡ ok a
      → attempt_loop attempts index last w ≡ (returned a, (operation (world_before index n w)).1)
  unfolding attempt_loop world_before
  first_success n zero index last w a h fails e = elim h [ ]
  first_success zero (suc left) index last w a h fails e = ground arith
  first_success (suc n) (suc zero) index last w a h fails e = absurd (omega arith)
  first_success (suc n) (suc (suc left)) index last w a h ((x, p), fails) e =
      rw (p, attempt_loop)
        (first_success n (suc left) (index + 1) (raised x) (sleep index (operation w).1) a
          (omega arith) fails e)

  last_failure :
      (n index : ℕ) (last : Outcome E A) (w : W) (e : E)
      → AllRaise index n w
      → (operation (world_before index n w)).0 ≡ err e
      → attempt_loop (suc n) index last w ≡ (raised e, (operation (world_before index n w)).1)
  unfolding attempt_loop world_before
  last_failure zero index last w e fails q = ground arith
  last_failure (suc n) index last w e ((x, p), fails) q =
      rw (p, attempt_loop)
        (last_failure n (index + 1) (raised x) (sleep index (operation w).1) e fails q)

  -- After `n` failed attempts, fewer than allowed, an attempt that succeeds ends the loop with its
  -- value, and the world has seen `n + 1` operations with a sleep between each two; if the attempt of
  -- number `n` is the last one allowed and raises too, its exception is raised, with no sleep after.
  pub retry_outcome :
      (n : ℕ) (w : W)
      → AllRaise 0 n w
      → ((attempts : ℕ) (a : A)
          → n < attempts
          → (operation (world_before 0 n w)).0 ≡ ok a
          → retry_with_backoff attempts w ≡ (returned a, (operation (world_before 0 n w)).1))
        × ((e : E)
            → (operation (world_before 0 n w)).0 ≡ err e
            → retry_with_backoff (suc n) w ≡ (raised e, (operation (world_before 0 n w)).1))
  unfolding retry_with_backoff
  retry_outcome n w fails = (
    (λ attempts a h e. first_success n attempts 0 assertion_failed w a h fails e),
    (λ e q. last_failure n 0 assertion_failed w e fails q),
  )
