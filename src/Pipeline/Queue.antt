-- ===== src/Pipeline/Queue.antt =====
-- The ring implements a bounded queue that loses its oldest item: the invariant that ties the slots
-- to the items, and every method against its counterpart on the list of items.
use native.Mathlib.Nat.{mod-lt}
use acvjepa_project.Prelude.{
  ltb, leb, Bool-cases, length, length-append, ℕ, zero, suc, ◌+◌, ◌-◌, ◌%◌, ◌≤◌, ◌<◌, ◌≡◌, refl,
  sym, ap, ◌∙◌, subst, inl, inr, true, false, Option, none, some, List, [], ◌∷◌, ◌++◌, arith,
}
use acvjepa_project.Pipeline.{
  SpscRing, empty_slots, create, set_slot, slot_at, drop_oldest, write_newest, push, pop,
  drain_loop, drain_latest, tail_of, last_of, enqueue,
}
use acvjepa_project.Pipeline.Slots.{
  length-set_slot, slot_at-set_slot, other_slot, length-empty_slots, mod_differs,
}

module _ {T : Type 0} where
  -- The items stand in the slots from the logical index `t` on.
  abbrev pub Holds : List (Option T) → ℕ → ℕ → List T → Type 0
  Holds slots c t [] = Unit
  Holds slots c t (x ∷ xs) = (slot_at slots (t % c) ≡ some x) × Holds slots c (t + 1) xs

  set_above-Holds :
      (slots : List (Option T)) (c t j : ℕ) (y : Option T) (xs : List T)
      → t + length xs ≤ j
      → j < t + c
      → Holds slots c t xs
      → Holds (set_slot (j % c) y slots) c t xs
  set_above-Holds slots c t j y [] below above h = tt
  set_above-Holds slots c t j y (x ∷ xs) below above h = (
    other_slot (j % c) (t % c) y slots (λ e. mod_differs t j c (omega (arith, below)) above (sym e))
        ∙ h.0,
    set_above-Holds slots c (t + 1) j y xs (omega (arith, below)) (omega (arith, above)) h.1,
  )

  set_below-Holds :
      (slots : List (Option T)) (c t j : ℕ) (y : Option T) (xs : List T)
      → j < t
      → t + length xs ≤ j + c
      → Holds slots c t xs
      → Holds (set_slot (j % c) y slots) c t xs
  set_below-Holds slots c t j y [] below above h = tt
  set_below-Holds slots c t j y (x ∷ xs) below above h = (
    other_slot (j % c) (t % c) y slots (mod_differs j t c below (omega (arith, above))) ∙ h.0,
    set_below-Holds slots c (t + 1) j y xs (omega (arith, below)) (omega (arith, above)) h.1,
  )

  append-Holds :
      (slots : List (Option T)) (c t : ℕ) (xs : List T) (x : T)
      → Holds slots c t xs
      → slot_at slots ((t + length xs) % c) ≡ some x
      → Holds slots c t (xs ++ x ∷ [])
  append-Holds slots c t [] x h e =
      (subst (λ (k : ℕ). slot_at slots (k % c) ≡ some x) (omega arith) e, tt)
  append-Holds slots c t (y ∷ xs) x h e = (
    h.0,
    append-Holds slots c (t + 1) xs x h.1
        (subst (λ (k : ℕ). slot_at slots (k % c) ≡ some x) (omega arith) e),
  )

-- An open ring that holds the items, oldest first.
pub record IsRing {T : Type 0} (r : SpscRing T) (xs : List T) : Type 0 where
  pub room : 2 ≤ r.capacity
  pub sized : length r.slots ≡ r.capacity
  pub counted : r.head ≡ r.tail + length xs
  pub bounded : length xs ≤ r.capacity
  pub opened : r.closed ≡ false
  pub held : Holds r.slots r.capacity r.tail xs

module _ {T : Type 0} where
  drop_oldest-IsRing :
      (r : SpscRing T) (x : T) (xs : List T) → IsRing r (x ∷ xs) → IsRing (drop_oldest r) xs
  drop_oldest-IsRing r x xs i =
      let counted = i.counted in
      let bounded = i.bounded in
      record {
        room = i.room;
        sized = length-set_slot (r.tail % r.capacity) none r.slots ∙ i.sized;
        counted = omega arith;
        bounded = omega arith;
        opened = i.opened;
        held =
            set_below-Holds r.slots r.capacity (r.tail + 1) r.tail none xs (omega arith)
              (omega arith) i.held.1;
      }

  write_newest-IsRing :
      (item : T) (r : SpscRing T) (xs : List T)
      → length xs < r.capacity
      → IsRing r xs
      → IsRing (write_newest item r) (xs ++ item ∷ [])
  write_newest-IsRing item r xs free i =
      let counted = i.counted in
      let room = i.room in
      let sized = i.sized in
      let more = length-append xs (item ∷ []) in
      let inside : r.head % r.capacity < length r.slots =
        subst (λ (n : ℕ). r.head % r.capacity < n) (sym sized) (mod-lt r.head (omega arith)) in
      record {
        room = room;
        sized = length-set_slot (r.head % r.capacity) (some item) r.slots ∙ sized;
        counted = omega arith;
        bounded = omega arith;
        opened = i.opened;
        held =
            append-Holds _ r.capacity r.tail xs item
              (set_above-Holds r.slots r.capacity r.tail r.head (some item) xs (omega arith)
                (omega arith) i.held)
              (subst
                (λ (k : ℕ).
                  slot_at (set_slot (r.head % r.capacity) (some item) r.slots) (k % r.capacity)
                  ≡ some item)
                counted (slot_at-set_slot (r.head % r.capacity) (some item) r.slots inside));
      }

  pub create-IsRing : (capacity : ℕ) (r : SpscRing T) → create capacity ≡ some r → IsRing r []
  unfolding create
  create-IsRing capacity r e = elim (Bool-cases (ltb capacity 2)) [
    | inl small ↦ absurd (ground arith)
    | inr large ↦
        let made : fresh capacity ≡ r = ground arith in
        subst (λ (q : SpscRing T). IsRing q []) made
          (record {
            room = ground arith;
            sized = length-empty_slots T capacity;
            counted = refl;
            bounded = omega arith;
            opened = refl;
            held = tt;
          })
  ]
    where
      fresh : ℕ → SpscRing T
      fresh n = record {
        capacity = n;
        slots = empty_slots n;
        head = 0;
        tail = 0;
        dropped = 0;
        closed = false;
      }

  push_free :
      (item : T) (r : SpscRing T) (xs : List T)
      → IsRing r xs
      → leb r.capacity (length xs) ≡ false
      → push item r ≡ (true, write_newest item r)
  unfolding push
  push_free item r xs i free =
      let c = i.counted in
      let o = i.opened in
      let used : r.head - r.tail ≡ length xs = omega arith in rw (o, used, free) refl

  push_full :
      (item : T) (r : SpscRing T) (xs : List T)
      → IsRing r xs
      → leb r.capacity (length xs) ≡ true
      → push item r ≡ (true, write_newest item (drop_oldest r))
  unfolding push
  push_full item r xs i full =
      let c = i.counted in
      let o = i.opened in
      let used : r.head - r.tail ≡ length xs = omega arith in rw (o, used, full) refl

  pub push-IsRing :
      (item : T) (r : SpscRing T) (xs : List T)
      → IsRing r xs
      → ((push item r).0 ≡ true)
        × IsRing (push item r).1 (enqueue r.capacity item xs)
        × ((push item r).1.capacity ≡ r.capacity)
  push-IsRing item r xs i = elim (Bool-cases (leb r.capacity (length xs))) [
    | inr free ↦
        rw (push_free item r xs i free, free)
          (refl, write_newest-IsRing item r xs (ground arith) i, refl)
    | inl full ↦ rw (push_full item r xs i full, full) (refl, when_full xs i full, refl)
  ]
    where
      when_full :
          (ys : List T)
          → IsRing r ys
          → leb r.capacity (length ys) ≡ true
          → IsRing (write_newest item (drop_oldest r)) (tail_of ys ++ item ∷ [])
      when_full [] i full = let room = i.room in absurd (ground arith)
      when_full (y ∷ ys) i full =
          let bounded = i.bounded in
          write_newest-IsRing item (drop_oldest r) ys (omega arith) (drop_oldest-IsRing r y ys i)

  abbrev popped : SpscRing T → SpscRing T
  popped r = record r { slots = set_slot (r.tail % r.capacity) none r.slots; tail = r.tail + 1 }

  nonempty_pop :
      (r : SpscRing T) (x : T) (xs : List T) → IsRing r (x ∷ xs) → pop r ≡ (some x, popped r)
  unfolding pop
  nonempty_pop r x xs i =
      let c = i.counted in
      let used : leb r.head r.tail ≡ false = ground arith in rw (used, i.held.0) refl

  popped-IsRing : (r : SpscRing T) (x : T) (xs : List T) → IsRing r (x ∷ xs) → IsRing (popped r) xs
  popped-IsRing r x xs i =
      let j = drop_oldest-IsRing r x xs i in
      record {
        room = j.room;
        sized = j.sized;
        counted = j.counted;
        bounded = j.bounded;
        opened = j.opened;
        held = j.held;
      }

  pub pop-IsRing :
      (r : SpscRing T) (x : T) (xs : List T)
      → IsRing r (x ∷ xs)
      → ((pop r).0 ≡ some x) × IsRing (pop r).1 xs × ((pop r).1.capacity ≡ r.capacity)
  pop-IsRing r x xs i = rw (nonempty_pop r x xs i) (refl, popped-IsRing r x xs i, refl)

  pub pop_empty : (r : SpscRing T) → IsRing r [] → pop r ≡ (none, r)
  unfolding pop
  pop_empty r i = let c = i.counted in ground arith

  drain_all :
      (xs : List T) (fuel : ℕ) (newest : Option T) (r : SpscRing T)
      → length xs < fuel
      → IsRing r xs
      → (r' : SpscRing T) × (drain_loop fuel newest r ≡ some (last_of newest xs, r'))
        × IsRing r' []
        × (r'.capacity ≡ r.capacity)
  unfolding drain_loop
  drain_all xs zero newest r h i = absurd (omega arith)
  drain_all [] (suc fuel) newest r h i =
      let e = pop_empty r i in
      let item : (pop r).0 ≡ none = ap (λ (q : Option T × SpscRing T). q.0) e in
      let state : (pop r).1 ≡ r = ap (λ (q : Option T × SpscRing T). q.1) e in
      (r, rw (drain_loop, item) (ap (λ (q : SpscRing T). some (newest, q)) state), i, refl)
  drain_all (x ∷ xs) (suc fuel) newest r h i =
      let e = nonempty_pop r x xs i in
      let item : (pop r).0 ≡ some x = ap (λ (q : Option T × SpscRing T). q.0) e in
      let state : (pop r).1 ≡ popped r = ap (λ (q : Option T × SpscRing T). q.1) e in
      let (r', last, j, c) =
        drain_all xs fuel (some x) (popped r) (omega (arith, h)) (popped-IsRing r x xs i) in
      (
        r',
        rw (drain_loop, item) (ap (λ (q : SpscRing T). drain_loop fuel (some x) q) state ∙ last),
        j,
        c,
      )

  -- `drain_latest` ends, returns the newest item, and leaves the ring empty.
  pub drain-IsRing :
      (r : SpscRing T) (xs : List T)
      → IsRing r xs
      → (r' : SpscRing T) × (drain_latest r ≡ some (last_of none xs, r'))
        × IsRing r' []
        × (r'.capacity ≡ r.capacity)
  unfolding drain_latest
  drain-IsRing r xs i =
      let c = i.counted in drain_all xs (r.head - r.tail + 1) none r (omega arith) i

  pub create-capacity :
      (capacity : ℕ) (r : SpscRing T) → create capacity ≡ some r → r.capacity ≡ capacity
  unfolding create
  create-capacity capacity r e = ground arith
