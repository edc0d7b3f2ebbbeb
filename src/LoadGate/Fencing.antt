-- ===== src/LoadGate/Fencing.antt =====
-- What becomes of a leader whose flight has left the map, or has been replaced: it never publishes, but
-- its cleanup after a failure removes the flight of a newer leader.
use acvjepa_project.Prelude.Text.{code_points}
use acvjepa_project.LoadGate.System.{
  System, Event, call, go, warm, damage, quarantine, reopen, limit_to, step, run,
}
use acvjepa_project.Prelude.Int.{ℤ, pos, ◌+ℤ◌, leb_ℤ, int_eq}
use acvjepa_project.Prelude.Dict.{Dict, lookup, insert, erase, lookup-insert, lookup-erase}
use acvjepa_project.Prelude.{
  if◌then◌else◌, Bool-cases, Option-cases, string_eq, nat_eq, ◌==◌, length, get_elem?, err, ℕ, ◌+◌,
  ◌≤◌, ◌<◌, String, ◌≡◌, refl, ◌∙◌, ◌≢◌, inl, inr, true, false, not, ◌&&◌, ◌||◌, Option, none, some,
  List, [], ◌∷◌, arith, eq_refl,
}
use acvjepa_project.LoadGate.{
  Bytes, GateError, fenced, Flight, FlightName, name_eq, Gate, Request, Point, start, waiting,
  leading, admitting, loading, releasing, failing, publishing, finished, Input, expire_dead,
  join_flight, replace_found, mark, names, is_current, warm_verified, enter, advance,
  quarantine_cache_reads, reopen_cache_reads, set_limit,
}

-- The flight of generation `n` has been made and is not the key's flight.
pub record IsFenced (key : String) (n : ℕ) (g : Gate) : Type 0 where
  pub made : n ≤ g.next_generation
  pub gone : names n (lookup key g.flights) ≡ false

erase-names :
    (key other : String) (n : ℕ) (flights : Dict String ℕ)
    → names n (lookup key flights) ≡ false
    → names n (lookup key (erase other flights)) ≡ false
erase-names key other n flights h = ground (arith, lookup-erase other key flights)

insert-names :
    (key other : String) (n m : ℕ) (flights : Dict String ℕ)
    → n < m
    → names n (lookup key flights) ≡ false
    → names n (lookup key (insert other m flights)) ≡ false
insert-names key other n m flights newer h = ground (arith, lookup-insert other key m flights)

module _ (key : String) (n : ℕ) where
  expire_dead-IsFenced :
      (other : String) (now : ℤ) (g : Gate) (found : Option (ℕ × Flight))
      → IsFenced key n g
      → IsFenced key n (expire_dead other now g found).1
  expire_dead-IsFenced other now g none i = i
  expire_dead-IsFenced other now g (some (m, f)) i =
      elim (Bool-cases (not f.done && leb_ℤ f.deadline now)) [
        | inl dead ↦
            rw dead (record { made = i.made; gone = erase-names key other n g.flights i.gone })
        | inr alive ↦ rw alive i
      ]

  join_flight-IsFenced :
      (other : String) (deadline : ℤ) (found : Option ℕ × Gate)
      → IsFenced key n found.1
      → IsFenced key n (join_flight other deadline found).1
  join_flight-IsFenced other deadline (none, g) i = record {
    made = let m = i.made in omega arith;
    gone =
        insert-names key other n (g.next_generation + 1) g.flights (let m = i.made in omega arith)
          i.gone;
  }
  join_flight-IsFenced other deadline (some m, g) i = record { made = i.made; gone = i.gone }

  erased :
      (other : String) (g : Gate)
      → IsFenced key n g
      → IsFenced key n (record g { flights = erase other g.flights })
  erased other g i = record { made = i.made; gone = erase-names key other n g.flights i.gone }

  enter-IsFenced :
      (sha256 : Bytes → String) (r : Request) (j : Input) (g : Gate) (cached : Option Bytes)
      → IsFenced key n g
      → IsFenced key n (enter sha256 r j g cached).1
  enter-IsFenced sha256 r j g none i =
      join_flight-IsFenced r.key _ _ (expire_dead-IsFenced r.key j.later g _ i)
  enter-IsFenced sha256 r j g (some payload) i =
      elim (Bool-cases (sha256 payload == r.expected_sha256)) [
        | inl good ↦ rw good (record { made = i.made; gone = i.gone })
        | inr bad ↦
            let g' : Gate = record g {
              cache = erase r.key g.cache;
              stats = record g.stats { cache_corruptions = g.stats.cache_corruptions + 1 };
            } in
            rw bad (
              join_flight-IsFenced r.key _ _
                (expire_dead-IsFenced r.key j.later g' _ (record { made = i.made; gone = i.gone })))
      ]

  -- A section keeps a flight fenced.
  advance-IsFenced :
      (sha256 : Bytes → String) (r : Request) (p : Point) (j : Input) (g : Gate)
      → IsFenced key n g
      → IsFenced key n (advance sha256 r p j g).1
  unfolding advance
  advance-IsFenced sha256 r start j g i = elim (Bool-cases (leb_ℤ r.timeout (pos 0))) [
    | inl no_time ↦ rw no_time i
    | inr timed ↦
        elim (Bool-cases (r.key == "" || not (length (code_points r.expected_sha256) == 64))) [
          | inl malformed ↦ rw (timed, malformed) i
          | inr formed ↦ rw (timed, formed) (enter-IsFenced sha256 r j g _ i)
        ]
  ]
  advance-IsFenced sha256 r (waiting m deadline) j g i = i
  advance-IsFenced sha256 r (leading m deadline) j g i = i
  advance-IsFenced sha256 r (admitting m deadline before until) j g i = ground arith
  advance-IsFenced sha256 r (loading m deadline before) j g i = ground arith
  advance-IsFenced sha256 r (releasing m outcome) j g i = ground arith
  advance-IsFenced sha256 r (failing m e) j g i = record {
    made = i.made;
    gone = erase-names key r.key n g.flights i.gone;
  }
  advance-IsFenced sha256 r (publishing m payload) j g i =
      elim (Bool-cases (is_current r.key m g)) [
        | inl mine ↦
            rw mine (record { made = i.made; gone = erase-names key r.key n g.flights i.gone })
        | inr other ↦ rw other i
      ]
  advance-IsFenced sha256 r (finished result) j g i = i

  step-IsFenced :
      (sha256 : Bytes → String) (e : Event) (s : System)
      → IsFenced key n s.gate
      → IsFenced key n (step sha256 e s).gate
  unfolding step warm_verified quarantine_cache_reads reopen_cache_reads set_limit
  step-IsFenced sha256 (call r) s i = i
  step-IsFenced sha256 (go k j) s i = elim (Option-cases (get_elem? s.threads k)) [
    | inl e ↦ rw e i
    | inr (t, e) ↦ rw e (advance-IsFenced sha256 t.request t.point j s.gate i)
  ]
  step-IsFenced sha256 (warm other payload expected) s i = ground arith
  step-IsFenced sha256 (damage other payload) s i = record { made = i.made; gone = i.gone }
  step-IsFenced sha256 quarantine s i = record { made = i.made; gone = i.gone }
  step-IsFenced sha256 reopen s i = record { made = i.made; gone = i.gone }
  step-IsFenced sha256 (limit_to m) s i = ground arith

  run-IsFenced :
      (sha256 : Bytes → String) (es : List Event) (s : System)
      → IsFenced key n s.gate
      → IsFenced key n (run sha256 es s).gate
  unfolding run
  run-IsFenced sha256 [] s i = i
  run-IsFenced sha256 (e ∷ es) s i =
      run-IsFenced sha256 es (step sha256 e s) (step-IsFenced sha256 e s i)

-- Once the flight of a leader is not its key's flight any more, because its lease expired or a newer
-- leader took over, then after any further events the leader publishes nothing: its last section raises
-- and leaves the gate, with the cache and the newer flight, as it is.
pub stale_leader-fenced :
    (sha256 : Bytes → String) (r : Request) (n : ℕ) (es : List Event) (s : System) (payload : Bytes)
    (i : Input)
    → n ≤ s.gate.next_generation
    → is_current r.key n s.gate ≡ false
    → let g = (run sha256 es s).gate in
      advance sha256 r (publishing n payload) i g ≡ (finished (err fenced), g)
unfolding advance
stale_leader-fenced sha256 r n es s payload i made gone =
    let f = run-IsFenced r.key n sha256 es s (record { made = made; gone = gone }) in rw f.gone refl

mark_other :
    (change : Flight → Flight) (name other : FlightName) (objects : Dict FlightName Flight)
    → (name == other) ≡ false
    → lookup other (mark change name objects) ≡ lookup other objects
mark_other change name other objects apart = marked (lookup name objects)
  where
    marked :
        (x : Option Flight)
        → lookup other (replace_found change name objects x) ≡ lookup other objects
    marked none = refl
    marked (some f) = lookup-insert name other (change f) objects ∙ rw apart refl

-- A leader that fails after a newer flight has taken its place removes that flight from the map: the
-- object of the newer flight is as it was, and yet the next call of the key, if its arguments
-- are in order and the cache has nothing for it, becomes one more leader.
pub stale_failure-second_leader :
    (sha256 : Bytes → String) (r : Request) (n m : ℕ) (e : GateError) (i j : Input) (g : Gate)
    (f : Flight)
    → lookup r.key g.flights ≡ some m
    → lookup (r.key, m) g.objects ≡ some f
    → n ≢ m
    → lookup r.key g.cache ≡ none
    → leb_ℤ r.timeout (pos 0) ≡ false
    → (r.key == "" || not (length (code_points r.expected_sha256) == 64)) ≡ false
    → let g' = (advance sha256 r (failing n e) i g).1 in
      (lookup (r.key, m) g'.objects ≡ some f)
      × ((advance sha256 r start j g').0 ≡ leading (g.next_generation + 1) (j.now +ℤ r.timeout))
unfolding advance
stale_failure-second_leader sha256 r n m e i j g f current object newer uncached timed formed =
    let unset : (if g.cache_reads_enabled then lookup r.key g.cache else none) ≡ none =
      ground arith in
    let cleared : lookup r.key (erase r.key g.flights) ≡ none =
      lookup-erase r.key r.key g.flights ∙ rw (eq_refl r.key) refl in
    (
      mark_other (λ x. record x { error = some e; done = true }) (r.key, n) (r.key, m) g.objects
            (ground (arith, newer))
          ∙ object,
      rw (timed, formed, unset, cleared) refl,
    )
