-- ===== src/LoadGate/Verified.antt =====
-- What `load` returns, over every interleaving. A follower takes the leader's payload with no verification
-- of its own, so its digest is the leader's: the calls of one key have to agree on the digest.
use acvjepa_project.LoadGate.System.{
  Thread, System, Event, call, go, warm, damage, quarantine, reopen, limit_to, run_thread, step,
  run, quiet,
}
use acvjepa_project.Prelude.Text.{code_points}
use acvjepa_project.Prelude.Int.{ℤ, pos, ltb_ℤ, leb_ℤ, int_eq}
use acvjepa_project.Prelude.Dict.{Dict, lookup, erase, lookup-All, insert-All}
use acvjepa_project.Prelude.{
  ltb, leb, Bool-cases, Option-cases, string_eq, nat_eq, ◌==◌, length, get_elem?, All, All-append,
  All-set, All-get, Result, ok, err, ℕ, ◌+◌, String, ◌≡◌, refl, sym, ◌∙◌, subst, inl, inr, not,
  ◌&&◌, ◌||◌, Option, none, some, List, [], ◌∷◌, eq_iff,
}
use acvjepa_project.LoadGate.{
  Bytes, LoadResult, GateError, Flight, FlightName, name_eq, Gate, Request, Point, start, waiting,
  leading, admitting, loading, releasing, failing, publishing, finished, Input, with_name,
  named_flight, flight_of, expire_dead, join_flight, outcome_of, follow, after_release,
  replace_found, mark, is_current, warm_verified, enter, load_durable, advance,
  quarantine_cache_reads, reopen_cache_reads, set_limit, create, create-new_gate,
}

module _ (sha256 : Bytes → String) (digest : String → String) where
  -- The calls of a key expect one digest.
  abbrev pub Agrees : Request → Type 0
  Agrees r = r.expected_sha256 ≡ digest r.key

  abbrev IsIntact : String → Option Bytes → Type 0
  IsIntact key none = Unit
  IsIntact key (some payload) = sha256 payload ≡ digest key

  abbrev ObjectIsIntact : FlightName × Flight → Type 0
  ObjectIsIntact (name, f) = IsIntact name.0 f.payload

  abbrev PointIsIntact : String → Point → Type 0
  PointIsIntact key (releasing n (ok payload)) = sha256 payload ≡ digest key
  PointIsIntact key (publishing n payload) = sha256 payload ≡ digest key
  PointIsIntact key (finished (ok result)) = sha256 result.payload ≡ digest key
  PointIsIntact key _ = Unit

  abbrev AreIntact : Gate → Type 0
  AreIntact g = All ObjectIsIntact g.objects

  abbrev FoundIsIntact : String → Option (ℕ × Flight) → Type 0
  FoundIsIntact key none = Unit
  FoundIsIntact key (some (n, f)) = IsIntact key f.payload

  -- What a lookup finds is intact.
  abbrev HeldIsIntact : String → Option Flight → Type 0
  HeldIsIntact key none = Unit
  HeldIsIntact key (some f) = IsIntact key f.payload

  lookup-HeldIsIntact :
      (key : String) (n : ℕ) (objects : Dict FlightName Flight)
      → All ObjectIsIntact objects
      → HeldIsIntact key (lookup (key, n) objects)
  lookup-HeldIsIntact key n objects a = held (lookup (key, n) objects) refl
    where
      held : (x : Option Flight) → lookup (key, n) objects ≡ x → HeldIsIntact key x
      held none e = tt
      held (some f) e = lookup-All ObjectIsIntact (key, n) f objects a e

  flight_of-IsIntact : (key : String) (g : Gate) → AreIntact g → FoundIsIntact key (flight_of key g)
  flight_of-IsIntact key g a = named (lookup key g.flights)
    where
      with : (n : ℕ) (x : Option Flight) → HeldIsIntact key x → FoundIsIntact key (with_name n x)
      with n none h = tt
      with n (some f) h = h

      named : (x : Option ℕ) → FoundIsIntact key (named_flight key g.objects x)
      named none = tt
      named (some n) = with n (lookup (key, n) g.objects) (lookup-HeldIsIntact key n g.objects a)

  expire_dead-AreIntact :
      (key : String) (now : ℤ) (g : Gate) (found : Option (ℕ × Flight))
      → FoundIsIntact key found
      → AreIntact g
      → AreIntact (expire_dead key now g found).1
  expire_dead-AreIntact key now g none f a = a
  expire_dead-AreIntact key now g (some (n, f)) i a =
      elim (Bool-cases (not f.done && leb_ℤ f.deadline now)) [
        | inl dead ↦ rw dead (insert-All ObjectIsIntact (key, n) _ g.objects i a)
        | inr alive ↦ rw alive a
      ]

  join_flight-AreIntact :
      (key : String) (deadline : ℤ) (found : Option ℕ × Gate)
      → AreIntact found.1
      → PointIsIntact key (join_flight key deadline found).0
        × AreIntact (join_flight key deadline found).1
  join_flight-AreIntact key deadline (none, g) a =
      (tt, insert-All ObjectIsIntact (key, g.next_generation + 1) _ g.objects tt a)
  join_flight-AreIntact key deadline (some n, g) a = (tt, a)

  enter-AreIntact :
      (r : Request) (i : Input) (g : Gate) (cached : Option Bytes)
      → Agrees r
      → AreIntact g
      → PointIsIntact r.key (enter sha256 r i g cached).0 × AreIntact (enter sha256 r i g cached).1
  enter-AreIntact r i g none agrees a =
      join_flight-AreIntact r.key _ _
        (expire_dead-AreIntact r.key i.later g _ (flight_of-IsIntact r.key g a) a)
  enter-AreIntact r i g (some payload) agrees a =
      elim (Bool-cases (sha256 payload == r.expected_sha256)) [
        | inl good ↦ rw good ((eq_iff _ _).0 good ∙ agrees, a)
        | inr bad ↦
            let g' : Gate = record g {
              cache = erase r.key g.cache;
              stats = record g.stats { cache_corruptions = g.stats.cache_corruptions + 1 };
            } in
            rw bad (
              join_flight-AreIntact r.key _ _
                (expire_dead-AreIntact r.key i.later g' _ (flight_of-IsIntact r.key g' a) a))
      ]

  follow-IsIntact :
      (key : String) (n : ℕ) (deadline now : ℤ) (found : Option Flight)
      → HeldIsIntact key found
      → PointIsIntact key (follow n deadline now found)
  follow-IsIntact key n deadline now none i = tt
  follow-IsIntact key n deadline now (some f) i = elim (Bool-cases f.done) [
    | inr running ↦ elim (Bool-cases (leb_ℤ deadline now)) [
      | inl late ↦ rw (running, late) tt
      | inr early ↦ rw (running, early) tt
    ]
    | inl over ↦ rw over (outcome f.error f.payload i)
  ]
    where
      outcome :
          (e : Option GateError) (p : Option Bytes)
          → IsIntact key p
          → PointIsIntact key (outcome_of e p)
      outcome (some e) p h = tt
      outcome none none h = tt
      outcome none (some payload) h = h

  mark-AreIntact :
      (key : String) (n : ℕ) (change : Flight → Flight) (objects : Dict FlightName Flight)
      → ((f : Flight) → IsIntact key f.payload → IsIntact key (change f).payload)
      → All ObjectIsIntact objects
      → All ObjectIsIntact (mark change (key, n) objects)
  mark-AreIntact key n change objects keep a =
      marked (lookup (key, n) objects) (lookup-HeldIsIntact key n objects a)
    where
      marked :
          (x : Option Flight)
          → HeldIsIntact key x
          → All ObjectIsIntact (replace_found change (key, n) objects x)
      marked none h = a
      marked (some f) h = insert-All ObjectIsIntact (key, n) (change f) objects (keep f h) a

  load_durable-AreIntact :
      (n : ℕ) (deadline before : ℤ) (r : Request) (i : Input) (g : Gate) (loaded : Option Bytes)
      → Agrees r
      → AreIntact g
      → PointIsIntact r.key (load_durable sha256 n deadline before r.expected_sha256 i g loaded).0
        × AreIntact (load_durable sha256 n deadline before r.expected_sha256 i g loaded).1
  load_durable-AreIntact n deadline before r i g none agrees a = (tt, a)
  load_durable-AreIntact n deadline before r i g (some payload) agrees a =
      elim (Bool-cases (sha256 payload == r.expected_sha256)) [
        | inl good ↦ elim (Bool-cases (ltb_ℤ deadline i.later)) [
          | inl late ↦ rw (good, late) (tt, a)
          | inr timely ↦ rw (good, timely) ((eq_iff _ _).0 good ∙ agrees, a)
        ]
        | inr bad ↦ rw bad (tt, a)
      ]

  released :
      (key : String) (n : ℕ) (outcome : Result GateError Bytes)
      → PointIsIntact key (releasing n outcome)
      → PointIsIntact key (after_release n outcome)
  released key n (ok payload) h = h
  released key n (err e) h = tt

  advance-AreIntact :
      (r : Request) (p : Point) (i : Input) (g : Gate)
      → Agrees r
      → PointIsIntact r.key p
      → AreIntact g
      → PointIsIntact r.key (advance sha256 r p i g).0 × AreIntact (advance sha256 r p i g).1
  unfolding advance
  advance-AreIntact r start i g agrees ip a = elim (Bool-cases (leb_ℤ r.timeout (pos 0))) [
    | inl no_time ↦ rw no_time (tt, a)
    | inr timed ↦
        elim (Bool-cases (r.key == "" || not (length (code_points r.expected_sha256) == 64))) [
          | inl malformed ↦ rw (timed, malformed) (tt, a)
          | inr formed ↦ rw (timed, formed) (enter-AreIntact r i g _ agrees a)
        ]
  ]
  advance-AreIntact r (waiting n deadline) i g agrees ip a =
      (follow-IsIntact r.key n deadline i.now _ (lookup-HeldIsIntact r.key n g.objects a), a)
  advance-AreIntact r (leading n deadline) i g agrees ip a = (tt, a)
  advance-AreIntact r (admitting n deadline before until) i g agrees ip a =
      elim (Bool-cases (ltb g.admission.inflight g.admission.limit)) [
        | inl free ↦ rw free (tt, a)
        | inr full ↦ elim (Bool-cases (leb_ℤ until i.now)) [
          | inl late ↦ rw (full, late) (tt, a)
          | inr early ↦ rw (full, early) (tt, a)
        ]
      ]
  advance-AreIntact r (loading n deadline before) i g agrees ip a =
      load_durable-AreIntact n deadline before r i g i.loaded agrees a
  advance-AreIntact r (releasing n outcome) i g agrees ip a =
      elim (Bool-cases (leb g.admission.inflight 0)) [
        | inl none_out ↦ rw none_out (tt, a)
        | inr some_out ↦ rw some_out (released r.key n outcome ip, a)
      ]
  advance-AreIntact r (failing n e) i g agrees ip a =
      (tt, mark-AreIntact r.key n _ g.objects (λ f h. h) a)
  advance-AreIntact r (publishing n payload) i g agrees ip a =
      elim (Bool-cases (is_current r.key n g)) [
        | inl mine ↦ rw mine (ip, mark-AreIntact r.key n _ g.objects (λ f h. ip) a)
        | inr other ↦ rw other (tt, a)
      ]
  advance-AreIntact r (finished result) i g agrees ip a = (ip, a)

  -- A thread of an agreeing call stands at an intact point.
  abbrev ThreadIsIntact : Thread → Type 0
  ThreadIsIntact t = Agrees t.request × PointIsIntact t.request.key t.point

  IsSound : System → Type 0
  IsSound s = AreIntact s.gate × All ThreadIsIntact s.threads

  -- The event starts no call that disagrees with the others of its key.
  abbrev pub CallsAgree : Event → Type 0
  CallsAgree (call r) = Agrees r
  CallsAgree _ = Unit

  run_thread-IsSound :
      (k : ℕ) (i : Input) (s : System) (t : Thread)
      → get_elem? s.threads k ≡ some t
      → IsSound s
      → IsSound (run_thread sha256 k i s (some t))
  unfolding IsSound
  run_thread-IsSound k i s t found (a, ts) =
      let (agrees, at) = All-get ThreadIsIntact s.threads k t ts found in
      let (p, a') = advance-AreIntact t.request t.point i s.gate agrees at a in
      (a', All-set ThreadIsIntact s.threads k _ ts (agrees, p))

  step-IsSound : (e : Event) (s : System) → CallsAgree e → IsSound s → IsSound (step sha256 e s)
  unfolding step IsSound warm_verified quarantine_cache_reads reopen_cache_reads set_limit
  step-IsSound (call r) s agrees (a, ts) =
      (a, All-append ThreadIsIntact s.threads _ ts ((agrees, tt), tt))
  step-IsSound (go k i) s agrees sound = elim (Option-cases (get_elem? s.threads k)) [
    | inl e ↦ rw e sound
    | inr (t, e) ↦ rw e (run_thread-IsSound k i s t e sound)
  ]
  step-IsSound (warm key payload expected) s agrees sound =
      elim (Bool-cases (sha256 payload == expected)) [
        | inl good ↦ rw good sound
        | inr bad ↦ rw bad sound
      ]
  step-IsSound (damage key payload) s agrees sound = sound
  step-IsSound quarantine s agrees sound = sound
  step-IsSound reopen s agrees sound = sound
  step-IsSound (limit_to n) s agrees sound = elim (Bool-cases (ltb n 1)) [
    | inl low ↦ rw low sound
    | inr fine ↦ rw fine sound
  ]

  run-IsSound :
      (es : List Event) (s : System) → All CallsAgree es → IsSound s → IsSound (run sha256 es s)
  unfolding run
  run-IsSound [] s agree sound = sound
  run-IsSound (e ∷ es) s agree sound =
      run-IsSound es (step sha256 e s) agree.1 (step-IsSound e s agree.0 sound)

  quiet-IsSound : (limit : ℕ) (g : Gate) → create limit ≡ some g → IsSound (quiet g)
  unfolding IsSound
  quiet-IsSound limit g made =
      (subst (λ x. All ObjectIsIntact x.objects) (create-new_gate limit g made) tt, tt)

  -- Over every interleaving of calls on a new gate that agree, for each key, on one digest, with cache
  -- entries damaged at will, and with any loaders, times and limits: a call that has returned a
  -- payload, from the cache, the durable store or its leader, has returned one of the digest
  -- that it expects.
  pub returned_payload-verified :
      (limit : ℕ) (g : Gate) (es : List Event) (k : ℕ) (t : Thread) (result : LoadResult)
      → create limit ≡ some g
      → All CallsAgree es
      → get_elem? (run sha256 es (quiet g)).threads k ≡ some t
      → t.point ≡ finished (ok result)
      → sha256 result.payload ≡ t.request.expected_sha256
  unfolding IsSound
  returned_payload-verified limit g es k t result made agree found done =
      let (a, ts) = run-IsSound es (quiet g) agree (quiet-IsSound limit g made) in
      let (agrees, at) = All-get ThreadIsIntact _ k t ts found in
      subst (PointIsIntact t.request.key) done at ∙ sym agrees
