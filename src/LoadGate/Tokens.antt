-- ===== src/LoadGate/Tokens.antt =====
-- The bounded admission: over every interleaving, as many tokens are out as calls are between their
-- admission and its release, and never more than the largest limit.
use acvjepa_project.Prelude.Table.{count, count-append, count-set, count_pos}
use acvjepa_project.LoadGate.System.{
  Thread, System, Event, call, go, warm, damage, quarantine, reopen, limit_to, run_thread, step,
  run, quiet,
}
use acvjepa_project.Prelude.{
  if◌then◌else◌, Option-cases, get_elem?, All, All-append, All-set, All-get, err, ℕ, ◌+◌, ◌≤◌, ◌<◌,
  String, ◌≡◌, refl, subst, inl, inr, Bool, true, false, some, List, [], ◌∷◌, arith,
}
use acvjepa_project.LoadGate.{
  Bytes, GateError, release_without_acquire, Gate, Request, Point, start, waiting, leading,
  admitting, loading, releasing, failing, publishing, finished, Input, warm_verified, advance,
  quarantine_cache_reads, reopen_cache_reads, set_limit, create, create-new_gate,
}

abbrev pub holds_token : Point → Bool
holds_token (loading _ _ _) = true
holds_token (releasing _ _) = true
holds_token _ = false

abbrev tokens : Point → ℕ
tokens p = if holds_token p then 1 else 0

-- No call meets the `RuntimeError` of a release without an acquisition.
abbrev pub is_faulty : GateError → Bool
is_faulty release_without_acquire = true
is_faulty _ = false

abbrev pub faulted : Point → Bool
faulted (failing _ e) = is_faulty e
faulted (releasing _ (err e)) = is_faulty e
faulted (finished (err e)) = is_faulty e
faulted _ = false

record Moves (g g' : Gate) (p p' : Point) (bound : ℕ) : Type 0 where
  balance : g'.admission.inflight + tokens p ≡ g.admission.inflight + tokens p'
  same_limit : g'.admission.limit ≡ g.admission.limit
  peak : g.admission.max_inflight ≤ bound → g'.admission.max_inflight ≤ bound
  seen :
      g.admission.inflight ≤ g.admission.max_inflight
      → g'.admission.inflight ≤ g'.admission.max_inflight
  clean : faulted p ≡ false → faulted p' ≡ false

module _ (sha256 : Bytes → String) (r : Request) (i : Input) (g : Gate) (bound : ℕ)
    (limited : g.admission.limit ≤ bound) where
  advance-Moves :
      (p : Point)
      → (holds_token p ≡ true → 0 < g.admission.inflight)
      → Moves g (advance sha256 r p i g).1 p (advance sha256 r p i g).0 bound
  unfolding advance
  advance-Moves start h = ground arith
  advance-Moves (waiting n deadline) h = ground arith
  advance-Moves (leading n deadline) h = ground arith
  advance-Moves (admitting n deadline before until) h = ground arith
  advance-Moves (loading n deadline before) h = ground arith
  advance-Moves (releasing n outcome) h = ground arith
  advance-Moves (failing n e) h = ground arith
  advance-Moves (publishing n payload) h = ground arith
  advance-Moves (finished result) h = ground arith

abbrev has_token : Thread → Bool
has_token t = holds_token t.point

abbrev IsClean : Thread → Type 0
IsClean t = faulted t.point ≡ false

pub record IsBalanced (bound : ℕ) (s : System) : Type 0 where
  pub limited : s.gate.admission.limit ≤ bound
  pub out : s.gate.admission.inflight ≡ count (λ t. holds_token t.point) s.threads
  pub seen : s.gate.admission.inflight ≤ s.gate.admission.max_inflight
  pub peak : s.gate.admission.max_inflight ≤ bound
  pub clean : All (λ t. faulted t.point ≡ false) s.threads

-- The event sets no limit above the bound.
abbrev pub SetsAtMost : ℕ → Event → Type 0
SetsAtMost bound (limit_to n) = n ≤ bound
SetsAtMost bound _ = Unit

module _ (sha256 : Bytes → String) (bound : ℕ) where
  run_thread-IsBalanced :
      (k : ℕ) (i : Input) (s : System) (t : Thread)
      → get_elem? s.threads k ≡ some t
      → IsBalanced bound s
      → IsBalanced bound (run_thread sha256 k i s (some t))
  run_thread-IsBalanced k i s t found b =
      let moved = (advance sha256 t.request t.point i s.gate) in
      let t' : Thread = record { request = t.request; point = moved.0 } in
      let out = b.out in
      let m =
        advance-Moves sha256 t.request i s.gate bound b.limited t.point
          (λ h. omega (arith, out, count_pos has_token s.threads k t found h)) in
      let balance = m.balance in
      let counted = count-set has_token s.threads k t t' found in
      record {
        limited = let l = m.same_limit in let l' = b.limited in omega arith;
        out = omega (arith, out, balance, counted);
        seen = m.seen b.seen;
        peak = m.peak b.peak;
        clean =
            All-set IsClean s.threads k t' b.clean
              (m.clean (All-get IsClean s.threads k t b.clean found));
      }

  step-IsBalanced :
      (e : Event) (s : System)
      → SetsAtMost bound e
      → IsBalanced bound s
      → IsBalanced bound (step sha256 e s)
  unfolding step warm_verified quarantine_cache_reads reopen_cache_reads set_limit
  step-IsBalanced (call r) s small b =
      let fresh : Thread = record { request = r; point = start } in
      record {
        limited = b.limited;
        out = let o = b.out in omega (arith, o, count-append has_token s.threads (fresh ∷ []));
        seen = b.seen;
        peak = b.peak;
        clean = All-append IsClean s.threads (fresh ∷ []) b.clean (refl, tt);
      }
  step-IsBalanced (go k i) s small b = elim (Option-cases (get_elem? s.threads k)) [
    | inl e ↦ rw e b
    | inr (t, e) ↦ rw e (run_thread-IsBalanced k i s t e b)
  ]
  step-IsBalanced (warm key payload expected) s small b = ground arith
  step-IsBalanced (damage key payload) s small b = ground arith
  step-IsBalanced quarantine s small b = ground arith
  step-IsBalanced reopen s small b = ground arith
  step-IsBalanced (limit_to n) s small b = ground arith

  run-IsBalanced :
      (es : List Event) (s : System)
      → All (SetsAtMost bound) es
      → IsBalanced bound s
      → IsBalanced bound (run sha256 es s)
  unfolding run
  run-IsBalanced [] s small b = b
  run-IsBalanced (e ∷ es) s small b =
      run-IsBalanced es (step sha256 e s) small.1 (step-IsBalanced e s small.0 b)

  create-IsBalanced :
      (limit : ℕ) (g : Gate) → create limit ≡ some g → limit ≤ bound → IsBalanced bound (quiet g)
  create-IsBalanced limit g e small =
      subst (λ x. IsBalanced bound (quiet x)) (create-new_gate limit g e)
        (record { limited = small; out = refl; seen = omega arith; peak = omega arith; clean = tt })

  -- Over every interleaving of calls on a new gate, with its own and every later limit at most `bound`:
  -- the counter of durable loads in flight is the number of calls between their admission and their
  -- release, it and its recorded maximum never pass the bound, and no call fails for
  -- releasing a token that is not out.
  pub admission-IsBalanced :
      (limit : ℕ) (g : Gate) (es : List Event)
      → create limit ≡ some g
      → limit ≤ bound
      → All (SetsAtMost bound) es
      → IsBalanced bound (run sha256 es (quiet g))
  admission-IsBalanced limit g es made small limits =
      run-IsBalanced es (quiet g) limits (create-IsBalanced limit g made small)
