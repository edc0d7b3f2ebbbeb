-- ===== src/LoadGate.antt =====
-- threadsafe_checkpoint_load_gate.py: the load gate of immutable shards under any interleaving. A call of
-- `load` is a thread that stands at one of the points of `Point`; `advance` runs it from there to the next
-- place where another thread may run: through one section under a lock, or through the durable load.
-- Times are whole milliseconds. A flight object is named by its key and its generation, by which
-- the thread that made it and the followers refer to it.
pub mod System
pub mod Verified
pub mod Tokens
pub mod Fencing
mod Tests
use acvjepa_project.Prelude.Int.{ℤ, pos, ◌+ℤ◌, ◌-ℤ◌, ltb_ℤ, leb_ℤ, max_ℤ, int_eq}
use acvjepa_project.Prelude.Text.{code_points}
use acvjepa_project.Prelude.Dict.{Dict, lookup, insert, erase}
use Prim.Native.Nat.{max}
use acvjepa_project.Prelude.{
  ltb, leb, if◌then◌else◌, Bool-cases, some_inj, Eq, string_eq, nat_eq, ◌==◌, length, Result, ok,
  err, Exec, ℕ, ◌+◌, ◌-◌, String, ◌≡◌, ◌↔◌, inl, inr, Bool, true, false, not, ◌&&◌, ◌||◌, Option,
  none, some, List, [], arith, eq_iff,
}

abbrev pub Bytes : Type 0
Bytes = List ℕ

pub data Source : Type 0 where
  from_cache durable_leader singleflight_follower : Source

-- `LoadResult`
pub record LoadResult : Type 0 where
  pub payload : Bytes
  pub source : Source

-- The exceptions that `load` can end with. `loader_failed` stands for any exception of the loader.
pub data GateError : Type 0 where
  invalid_timeout invalid_request follower_timed_out leader_failed : GateError
  admission_timed_out loader_failed integrity_failed deadline_exceeded : GateError
  lease_expired fenced release_without_acquire payload_missing : GateError

-- `GateStats`
pub record GateStats : Type 0 where
  pub cache_hits : ℕ
  pub cache_corruptions : ℕ
  pub leaders : ℕ
  pub followers : ℕ
  pub durable_loads : ℕ
  pub durable_waits : ℕ
  pub failures : ℕ
  pub max_durable_inflight : ℕ

-- `_Flight`, less its generation, which is in its name.
pub record Flight : Type 0 where
  pub deadline : ℤ
  pub done : Bool
  pub payload : Option Bytes
  pub error : Option GateError

abbrev pub FlightName : Type 0
FlightName = String × ℕ

abbrev pub name_beq : FlightName → FlightName → Bool
name_beq (a, m) (b, n) = a == b && m == n

pub name_beq_iff : (j k : FlightName) → (name_beq j k ≡ true) ↔ (j ≡ k)
name_beq_iff (a, m) (b, n) = ground (arith, eq_iff a b)

instance abbrev pub name_eq : Eq FlightName
name_eq = record { same = name_beq; same_iff = name_beq_iff }

-- `ThreadSafeAdmission`
pub record Admission : Type 0 where
  pub limit : ℕ
  pub inflight : ℕ
  pub max_inflight : ℕ

-- `ThreadSafeVerifiedShardGate`; `objects` holds the flights that its threads refer to.
pub record Gate : Type 0 where
  pub cache : Dict String Bytes
  pub flights : Dict String ℕ
  pub objects : Dict FlightName Flight
  pub cache_reads_enabled : Bool
  pub next_generation : ℕ
  pub admission : Admission
  pub stats : GateStats

-- The arguments of `load`; what its loader returns is an input of the step that calls it.
pub record Request : Type 0 where
  pub key : String
  pub expected_sha256 : String
  pub timeout : ℤ

-- Where a call stands. A leader's points carry its generation and, as far as they are read later on, its
-- deadline, the time before its admission and the deadline of the admission.
pub data Point : Type 0 where
  start : Point
  waiting : ℕ → ℤ → Point
  leading : ℕ → ℤ → Point
  admitting : ℕ → ℤ → ℤ → ℤ → Point
  loading : ℕ → ℤ → ℤ → Point
  releasing : ℕ → Result GateError Bytes → Point
  failing : ℕ → GateError → Point
  publishing : ℕ → Bytes → Point
  finished : Result GateError LoadResult → Point

-- What a step reads from outside: two readings of the clock, and the loader's payload, if it is called.
pub record Input : Type 0 where
  pub now : ℤ
  pub later : ℤ
  pub loaded : Option Bytes

abbrev pub with_name : ℕ → Option Flight → Option (ℕ × Flight)
with_name n none = none
with_name n (some f) = some (n, f)

abbrev pub named_flight : String → Dict FlightName Flight → Option ℕ → Option (ℕ × Flight)
named_flight key objects none = none
named_flight key objects (some n) = with_name n (lookup (key, n) objects)

-- `self._flights.get(key)`
abbrev pub flight_of : String → Gate → Option (ℕ × Flight)
flight_of key g = named_flight key g.objects (lookup key g.flights)

-- The flight of the key after the expiry of a leader's lease: none, if it has been fenced.
abbrev pub expire_dead : String → ℤ → Gate → Option (ℕ × Flight) → Option ℕ × Gate
expire_dead key now g none = (none, g)
expire_dead key now g (some (n, f)) =
    if not f.done && leb_ℤ f.deadline now
    then (
      none,
      record g {
        objects = insert (key, n) (record f { error = some lease_expired; done = true }) g.objects;
        flights = erase key g.flights;
      },
    )
    else (some n, g)

abbrev pub join_flight : String → ℤ → Option ℕ × Gate → Point × Gate
join_flight key deadline (none, g) =
    let n = g.next_generation + 1 in
    (
      leading n deadline,
      record g {
        next_generation = n;
        objects =
            insert (key, n)
              (record { deadline = deadline; done = false; payload = none; error = none })
              g.objects;
        flights = insert key n g.flights;
        stats = record g.stats { leaders = g.stats.leaders + 1 };
      },
    )
join_flight key deadline (some n, g) =
    (waiting n deadline, record g { stats = record g.stats { followers = g.stats.followers + 1 } })

abbrev pub look_in_cache : String → Gate → Option Bytes
look_in_cache key g = if g.cache_reads_enabled then lookup key g.cache else none

-- What a finished flight gives to its followers.
abbrev pub outcome_of : Option GateError → Option Bytes → Point
outcome_of (some e) payload = finished (err leader_failed)
outcome_of none none = finished (err payload_missing)
outcome_of none (some payload) =
    finished (ok (record { payload = payload; source = singleflight_follower }))

-- The loop of a follower, each time that it holds the lock.
abbrev pub follow : ℕ → ℤ → ℤ → Option Flight → Point
follow n deadline now none = waiting n deadline
follow n deadline now (some f) =
    if not f.done
    then if leb_ℤ deadline now then finished (err follower_timed_out) else waiting n deadline
    else outcome_of f.error f.payload

-- `ThreadSafeAdmission.acquire`, each time that it holds its lock.
abbrev pub try_admit : ℕ → ℤ → ℤ → ℤ → ℤ → Gate → Point × Gate
try_admit n deadline before until now g =
    if ltb g.admission.inflight g.admission.limit
    then (
      loading n deadline before,
      record g {
        admission = record g.admission {
          inflight = g.admission.inflight + 1;
          max_inflight = max g.admission.max_inflight (g.admission.inflight + 1);
        };
      },
    )
    else if leb_ℤ until now
    then (failing n admission_timed_out, g)
    else (admitting n deadline before until, g)

abbrev pub after_release : ℕ → Result GateError Bytes → Point
after_release n (ok payload) = publishing n payload
after_release n (err e) = failing n e

-- `ThreadSafeAdmission.release` in the `finally` clause.
abbrev pub release : ℕ → Result GateError Bytes → Gate → Point × Gate
release n outcome g =
    if leb g.admission.inflight 0 then (failing n release_without_acquire, g) else (
      after_release n outcome,
      record g { admission = record g.admission { inflight = g.admission.inflight - 1 } },
    )

abbrev pub replace_found :
    (Flight → Flight) → FlightName → Dict FlightName Flight → Option Flight → Dict FlightName Flight
replace_found change name objects none = objects
replace_found change name objects (some f) = insert name (change f) objects

abbrev pub mark : (Flight → Flight) → FlightName → Dict FlightName Flight → Dict FlightName Flight
mark change name objects = replace_found change name objects (lookup name objects)

-- The `except` clause: it removes whatever flight the key has by now.
abbrev pub fail : String → ℕ → GateError → Gate → Point × Gate
fail key n e g = (
  finished (err e),
  record g {
    objects = mark (λ f. record f { error = some e; done = true }) (key, n) g.objects;
    flights = erase key g.flights;
    stats = record g.stats { failures = g.stats.failures + 1 };
  },
)

abbrev pub names : ℕ → Option ℕ → Bool
names n none = false
names n (some m) = m == n

-- `self._flights.get(key) is flight`
abbrev pub is_current : String → ℕ → Gate → Bool
is_current key n g = names n (lookup key g.flights)

-- The last section of a leader.
abbrev pub publish : String → ℕ → Bytes → Gate → Point × Gate
publish key n payload g =
    if is_current key n g
    then (
      finished (ok (record { payload = payload; source = durable_leader })),
      record g {
        cache = insert key payload g.cache;
        objects = mark (λ f. record f { payload = some payload; done = true }) (key, n) g.objects;
        flights = erase key g.flights;
      },
    )
    else (finished (err fenced), g)

module _ (sha256 : Bytes → String) where
  -- `_verify`
  abbrev pub verified : Bytes → String → Bool
  verified payload expected = sha256 payload == expected

  -- `warm_verified`
  unfoldable pub warm_verified : String → Bytes → String → Exec GateError Gate (Unit {0})
  warm_verified key payload expected g =
      if verified payload expected
      then (ok tt, record g { cache = insert key payload g.cache })
      else (err integrity_failed, g)

  -- The first section of `load`, with what the cache has.
  abbrev pub enter : Request → Input → Gate → Option Bytes → Point × Gate
  enter r i g none =
      join_flight r.key (i.now +ℤ r.timeout) (expire_dead r.key i.later g (flight_of r.key g))
  enter r i g (some payload) =
      if verified payload r.expected_sha256
      then (
        finished (ok (record { payload = payload; source = from_cache })),
        record g { stats = record g.stats { cache_hits = g.stats.cache_hits + 1 } },
      )
      else (let g' = record g {
        cache = erase r.key g.cache;
        stats = record g.stats { cache_corruptions = g.stats.cache_corruptions + 1 };
      } in
          join_flight r.key (i.now +ℤ r.timeout)
            (expire_dead r.key i.later g' (flight_of r.key g')))

  -- The durable load, its verification and the statistics of a success.
  abbrev pub load_durable : ℕ → ℤ → ℤ → String → Input → Gate → Option Bytes → Point × Gate
  load_durable n deadline before expected i g none = (releasing n (err loader_failed), g)
  load_durable n deadline before expected i g (some payload) =
      if not (verified payload expected)
      then (releasing n (err integrity_failed), g)
      else if ltb_ℤ deadline i.later
      then (releasing n (err deadline_exceeded), g)
      else (
        releasing n (ok payload),
        record g {
          stats = record g.stats {
            durable_waits =
                g.stats.durable_waits + (if ltb_ℤ (pos 1) (i.now -ℤ before) then 1 else 0);
            durable_loads = g.stats.durable_loads + 1;
            max_durable_inflight = max g.stats.max_durable_inflight g.admission.max_inflight;
          };
        },
      )

  unfoldable pub advance : Request → Point → Input → Gate → Point × Gate
  advance r start i g =
      if leb_ℤ r.timeout (pos 0)
      then (finished (err invalid_timeout), g)
      else if r.key == "" || not (length (code_points r.expected_sha256) == 64)
      then (finished (err invalid_request), g)
      else enter r i g (look_in_cache r.key g)
  advance r (waiting n deadline) i g = (follow n deadline i.now (lookup (r.key, n) g.objects), g)
  advance r (leading n deadline) i g =
      (admitting n deadline i.now (i.later +ℤ max_ℤ (pos 1) (deadline -ℤ i.now)), g)
  advance r (admitting n deadline before until) i g = try_admit n deadline before until i.now g
  advance r (loading n deadline before) i g =
      load_durable n deadline before r.expected_sha256 i g i.loaded
  advance r (releasing n outcome) i g = release n outcome g
  advance r (failing n e) i g = fail r.key n e g
  advance r (publishing n payload) i g = publish r.key n payload g
  advance r (finished result) i g = (finished result, g)

-- `quarantine_cache_reads`, `reopen_cache_reads_after_healthcheck` and `set_limit`.
unfoldable pub quarantine_cache_reads : Gate → Gate
quarantine_cache_reads g = record g { cache_reads_enabled = false }

unfoldable pub reopen_cache_reads : Gate → Gate
reopen_cache_reads g = record g { cache_reads_enabled = true }

-- A limit below one raises `ValueError` and changes nothing.
unfoldable pub set_limit : ℕ → Gate → Gate
set_limit n g = if ltb n 1 then g else record g { admission = record g.admission { limit = n } }

abbrev pub new_gate : ℕ → Gate
new_gate limit = record {
  cache = [];
  flights = [];
  objects = [];
  cache_reads_enabled = true;
  next_generation = 0;
  admission = record { limit = limit; inflight = 0; max_inflight = 0 };
  stats = record {
    cache_hits = 0;
    cache_corruptions = 0;
    leaders = 0;
    followers = 0;
    durable_loads = 0;
    durable_waits = 0;
    failures = 0;
    max_durable_inflight = 0;
  };
}

-- `__init__` of the gate and of its admission, none for the `ValueError`.
unfoldable pub create : ℕ → Option Gate
create limit = if ltb limit 1 then none else some (new_gate limit)

pub create-new_gate : (limit : ℕ) (g : Gate) → create limit ≡ some g → new_gate limit ≡ g
unfolding create
create-new_gate limit g e = elim (Bool-cases (ltb limit 1)) [
  | inl small ↦ absurd (ground arith)
  | inr large ↦ some_inj (rw large at e)
]
