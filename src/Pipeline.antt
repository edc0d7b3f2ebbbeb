-- ===== src/Pipeline.antt =====
-- spsc_robot_pipeline.py: the latest-only ring between two workers; the child Workers has the latch and
-- the workers. The ring's two indices only grow; a slot is read and written at an index modulo the
-- capacity.
pub mod Slots
pub mod Queue
pub mod Refinement
pub mod Workers
pub mod Safety
pub mod Race
mod Tests
use acvjepa_project.Prelude.{
  ltb, leb, if◌then◌else◌, length, ◌>>◌, ℕ, zero, suc, ◌+◌, ◌-◌, ◌%◌, Bool, true, false, Option,
  none, some, List, [], ◌∷◌, ◌++◌,
}

-- `SPSCRing`; its name is only printed and is left out.
pub record SpscRing (T : Type 0) : Type 0 where
  pub capacity : ℕ
  pub slots : List (Option T)
  pub head : ℕ
  pub tail : ℕ
  pub dropped : ℕ
  pub closed : Bool

module _ {T : Type 0} where
  -- `[None] * capacity`
  abbrev pub empty_slots : ℕ → List (Option T)
  empty_slots zero = []
  empty_slots (suc n) = none ∷ empty_slots n

  -- `SPSCRing.__init__`, none for its `ValueError`.
  unfoldable pub create : ℕ → Option (SpscRing T)
  create capacity =
      if ltb capacity 2
      then none
      else some (record {
        capacity = capacity;
        slots = empty_slots capacity;
        head = 0;
        tail = 0;
        dropped = 0;
        closed = false;
      })

  -- `self._slots[i] = x`
  abbrev pub set_slot : ℕ → Option T → List (Option T) → List (Option T)
  set_slot i x [] = []
  set_slot zero x (y ∷ ys) = x ∷ ys
  set_slot (suc i) x (y ∷ ys) = y ∷ set_slot i x ys

  -- `self._slots[i]`
  abbrev pub slot_at : List (Option T) → ℕ → Option T
  slot_at [] i = none
  slot_at (y ∷ ys) zero = y
  slot_at (y ∷ ys) (suc i) = slot_at ys i

  abbrev pub drop_oldest : SpscRing T → SpscRing T
  drop_oldest r = record r {
    slots = set_slot (r.tail % r.capacity) none r.slots;
    tail = r.tail + 1;
    dropped = r.dropped + 1;
  }

  abbrev pub write_newest : T → SpscRing T → SpscRing T
  write_newest item r = record r {
    slots = set_slot (r.head % r.capacity) (some item) r.slots;
    head = r.head + 1;
  }

  -- `self._head - self._tail >= self.capacity`; the tail never passes the head.
  unfoldable pub push : T → SpscRing T → Bool × SpscRing T
  push item r =
      if r.closed
      then (false, r)
      else (true, write_newest item (if leb r.capacity (r.head - r.tail) then drop_oldest r else r))

  unfoldable pub pop : SpscRing T → Option T × SpscRing T
  pop r = if leb r.head r.tail then (none, r) else (
    slot_at r.slots (r.tail % r.capacity),
    record r { slots = set_slot (r.tail % r.capacity) none r.slots; tail = r.tail + 1 },
  )

  -- The loop of `drain_latest`, for at most `fuel` rounds; none if they do not end it.
  unfoldable pub drain_loop : ℕ → Option T → SpscRing T → Option (Option T × SpscRing T)
  unfolding pop
  drain_loop zero newest r = none
  drain_loop (suc fuel) newest r = elim (pop r).0 [
    | none ↦ some (newest, (pop r).1)
    | some item ↦ drain_loop fuel (some item) (pop r).1
  ]

  -- One round more than there are items is enough.
  unfoldable pub drain_latest : SpscRing T → Option (Option T × SpscRing T)
  drain_latest r = drain_loop (r.head - r.tail + 1) none r

  unfoldable pub close : SpscRing T → SpscRing T
  close r = record r { closed = true }

-- What the methods promise: a queue of at most `capacity` items that loses its oldest one.
module _ {T : Type 0} where
  abbrev pub tail_of : List T → List T
  tail_of [] = []
  tail_of (x ∷ xs) = xs

  abbrev pub last_of : Option T → List T → Option T
  last_of newest [] = newest
  last_of newest (x ∷ xs) = last_of (some x) xs

  abbrev pub enqueue : ℕ → T → List T → List T
  enqueue capacity x xs = (if leb capacity (length xs) then tail_of xs else xs) ++ x ∷ []
