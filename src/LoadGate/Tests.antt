-- ===== src/LoadGate/Tests.antt =====
-- A leader and a follower of one shard, a leader that loses its lease, and each theorem at them.
use acvjepa_project.Prelude.Int.{pos, ◌+ℤ◌, ◌-ℤ◌, int_eq}
use acvjepa_project.Prelude.Text.{code_points}
use acvjepa_project.Prelude.Dict.{lookup}
use acvjepa_project.Prelude.{
  if◌then◌else◌, string_eq, nat_eq, ◌==◌, ok, err, ℕ, ◌+◌, String, ◌≡◌, refl, false, none, some,
  List, [], ◌∷◌, arith,
}
use acvjepa_project.LoadGate.{
  Bytes, Source, durable_leader, singleflight_follower, loader_failed, fenced, Flight, name_eq,
  Request, start, leading, failing, publishing, finished, Input, advance, new_gate, create,
}
use acvjepa_project.LoadGate.System.{Thread, System, Event, call, go, damage, step, run, quiet}
use acvjepa_project.LoadGate.Tokens.{IsBalanced, admission-IsBalanced}
use acvjepa_project.LoadGate.Verified.{returned_payload-verified}
use acvjepa_project.LoadGate.Fencing.{stale_leader-fenced, stale_failure-second_leader}

abbrev hex : String
hex = "0123456789abcdef0123456789abcdef0123456789abcdef0123456789abcdef"

abbrev other_hex : String
other_hex = "f123456789abcdef0123456789abcdef0123456789abcdef0123456789abcdef"

-- Bytes that start with 1 have one digest and all others have another.
abbrev byte_digest : Bytes → String
byte_digest [] = other_hex
byte_digest (b ∷ bytes) = if b == 1 then hex else other_hex

abbrev shard : Bytes
shard = 1 ∷ 7 ∷ []

abbrev request : Request
request = record { key = "optimizer"; expected_sha256 = hex; timeout = pos 50 }

abbrev at_time : ℕ → Input
at_time n = record { now = pos n; later = pos n; loaded = some shard }

-- Two calls, one load: the first leads, the second joins its flight.
abbrev shared_load : List Event
shared_load =
    damage "optimizer" (9 ∷ [])
    ∷ call request
    ∷ call request
    ∷ go 0 (at_time 1)
    ∷ go 1 (at_time 2)
    ∷ go 0 (at_time 3)
    ∷ go 0 (at_time 4)
    ∷ go 0 (at_time 5)
    ∷ go 1 (at_time 6)
    ∷ go 0 (at_time 7)
    ∷ go 0 (at_time 8)
    ∷ go 1 (at_time 9)
    ∷ []

abbrev ended : System
ended = run byte_digest shared_load (quiet (new_gate 1))

abbrev done_with : Source → Thread
done_with source = record {
  request = request;
  point = finished (ok (record { payload = shard; source = source }));
}

one_leader :
    (ended.threads ≡ done_with durable_leader ∷ done_with singleflight_follower ∷ [])
    × (ended.gate.stats.durable_loads ≡ 1)
    × (ended.gate.stats.cache_corruptions ≡ 1)
    × (ended.gate.admission.inflight ≡ 0)
    × (lookup "optimizer" ended.gate.cache ≡ some shard)
unfolding run step advance code_points ◌+ℤ◌ ◌-ℤ◌
one_leader = (refl, refl, refl, refl, refl)

admission-IsBalanced_example : IsBalanced 1 (run byte_digest shared_load (quiet (new_gate 1)))
unfolding create
admission-IsBalanced_example =
    admission-IsBalanced byte_digest 1 1 (new_gate 1) shared_load refl (omega arith)
      (tt, (tt, (tt, (tt, (tt, (tt, (tt, (tt, (tt, (tt, (tt, (tt, tt))))))))))))

returned_payload-verified_example : byte_digest shard ≡ hex
unfolding create run step advance code_points ◌+ℤ◌ ◌-ℤ◌
returned_payload-verified_example =
    returned_payload-verified byte_digest (λ key. hex) 1 (new_gate 1) shared_load 1
      (done_with singleflight_follower) (record { payload = shard; source = singleflight_follower })
      refl (tt, (refl, (refl, (tt, (tt, (tt, (tt, (tt, (tt, (tt, (tt, (tt, tt)))))))))))) refl refl

abbrev newer_flight : Flight
newer_flight = record { deadline = pos 150; done = false; payload = none; error = none }

-- The first leader stands in its load when its lease of 50 expires and a second leader takes over.
abbrev taken_over : System
taken_over =
    run byte_digest
      (call request
        ∷ call request
        ∷ go 0 (at_time 0)
        ∷ go 0 (at_time 1)
        ∷ go 0 (at_time 2)
        ∷ go 1 (at_time 100)
        ∷ [])
      (quiet (new_gate 2))

second_leads :
    (lookup "optimizer" taken_over.gate.flights ≡ some 2)
    × (lookup ("optimizer", 2) taken_over.gate.objects ≡ some newer_flight)
unfolding run step advance code_points ◌+ℤ◌ ◌-ℤ◌
second_leads = (refl, refl)

stale_leader-fenced_example :
    let g = (run byte_digest (go 0 (at_time 101) ∷ []) taken_over).gate in
    advance byte_digest request (publishing 1 shard) (at_time 102) g ≡ (finished (err fenced), g)
unfolding run step advance code_points ◌+ℤ◌ ◌-ℤ◌
stale_leader-fenced_example =
    stale_leader-fenced byte_digest request 1 (go 0 (at_time 101) ∷ []) taken_over shard
      (at_time 102) (omega arith) refl

stale_failure-second_leader_example :
    let g' =
      (advance byte_digest request (failing 1 loader_failed) (at_time 102) taken_over.gate).1 in
    (lookup ("optimizer", 2) g'.objects ≡ some newer_flight)
    × ((advance byte_digest request start (at_time 103) g').0
        ≡ leading (taken_over.gate.next_generation + 1) (pos 103 +ℤ pos 50))
unfolding run step advance code_points ◌+ℤ◌ ◌-ℤ◌
stale_failure-second_leader_example =
    stale_failure-second_leader byte_digest request 1 2 loader_failed (at_time 102) (at_time 103)
      taken_over.gate newer_flight refl refl (omega arith) refl refl refl
