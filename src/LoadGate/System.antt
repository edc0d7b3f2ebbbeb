-- ===== src/LoadGate/System.antt =====
-- The gate with the calls of `load` that are under way, and the events that an environment can choose.
use acvjepa_project.Prelude.Int.{int_eq}
use acvjepa_project.Prelude.Dict.{insert}
use acvjepa_project.Prelude.{
  string_eq, nat_eq, get_elem?, set, ℕ, String, Option, none, some, List, [], ◌∷◌, ◌++◌,
}
use acvjepa_project.LoadGate.{
  Bytes, name_eq, Gate, Request, Point, start, Input, warm_verified, advance,
  quarantine_cache_reads, reopen_cache_reads, set_limit,
}

pub record Thread : Type 0 where
  pub request : Request
  pub point : Point

pub record System : Type 0 where
  pub gate : Gate
  pub threads : List Thread

-- `call` starts a thread, and `go` runs the thread of that number to its next point. `damage` is what an
-- untrusted cache tier can do to an entry.
pub data Event : Type 0 where
  call : Request → Event
  go : ℕ → Input → Event
  warm : String → Bytes → String → Event
  damage : String → Bytes → Event
  quarantine reopen : Event
  limit_to : ℕ → Event

module _ (sha256 : Bytes → String) where
  abbrev pub run_thread : ℕ → Input → System → Option Thread → System
  run_thread k i s none = s
  run_thread k i s (some t) =
      let (p, g) = advance sha256 t.request t.point i s.gate in
      record { gate = g; threads = set s.threads k (record { request = t.request; point = p }) }

  unfoldable pub step : Event → System → System
  step (call r) s = record s { threads = s.threads ++ record { request = r; point = start } ∷ [] }
  step (go k i) s = run_thread k i s (get_elem? s.threads k)
  step (warm key payload expected) s = record s {
    gate = (warm_verified sha256 key payload expected s.gate).1;
  }
  step (damage key payload) s = record s {
    gate = record s.gate { cache = insert key payload s.gate.cache };
  }
  step quarantine s = record s { gate = quarantine_cache_reads s.gate }
  step reopen s = record s { gate = reopen_cache_reads s.gate }
  step (limit_to n) s = record s { gate = set_limit n s.gate }

  unfoldable pub run : List Event → System → System
  run [] s = s
  run (e ∷ es) s = run es (step e s)

-- No call has started.
abbrev pub quiet : Gate → System
quiet g = record { gate = g; threads = [] }
