-- ===== src/Pipeline/Race.antt =====
-- The two halves of SPSCRing.pop, between which the producer may push: both write the index of the oldest
-- item.
use native.Mathlib.Nat.{add-mod_right, mod-lt}
use acvjepa_project.Prelude.{
  leb, if◌then◌else◌, Bool-cases, length, ℕ, ◌+◌, ◌-◌, ◌%◌, ◌<◌, ◌≡◌, refl, sym, ap, ◌∙◌, subst,
  inl, inr, true, false, Option, none, some, arith,
}
use acvjepa_project.Pipeline.{SpscRing, set_slot, slot_at, drop_oldest, write_newest, push, pop}
use acvjepa_project.Pipeline.Slots.{length-set_slot, slot_at-set_slot}

module _ {T : Type 0} where
  -- The first lines of `pop`: the slot to read, or none for an empty ring.
  abbrev pub pop_check : SpscRing T → Option ℕ
  pop_check r = if leb r.head r.tail then none else some (r.tail % r.capacity)

  -- The rest of `pop`.
  unfoldable pub pop_take : ℕ → SpscRing T → Option T × SpscRing T
  pop_take i r =
      (slot_at r.slots i, record r { slots = set_slot i none r.slots; tail = r.tail + 1 })

  abbrev whole : Option ℕ → SpscRing T → Option T × SpscRing T
  whole none r = (none, r)
  whole (some i) r = pop_take i r

  -- Both halves in one step are `pop`.
  pub pop-halves : (r : SpscRing T) → pop r ≡ whole (pop_check r) r
  unfolding pop pop_take
  pop-halves r = elim (Bool-cases (leb r.head r.tail)) [ inl e ↦ rw e refl | inr e ↦ rw e refl ]

  -- A ring that is open and full.
  pub record IsFull (r : SpscRing T) : Type 0 where
    pub has_room : 0 < r.capacity
    pub sized : length r.slots ≡ r.capacity
    pub at_capacity : r.head ≡ r.tail + r.capacity
    pub open_ring : r.closed ≡ false

  -- What a pop leaves that a push has come into: it has taken the item of that push, before the older
  -- ones; the oldest index has moved by two, past an item that nobody read; and the slot of the newest
  -- index is empty.
  pub record IsTorn (x : T) (r : SpscRing T) (out : Option T × SpscRing T) : Type 0 where
    pub took_newest : out.0 ≡ some x
    pub moved_twice : out.1.tail ≡ r.tail + 2
    pub counted_once : out.1.dropped ≡ r.dropped + 1
    pub written : out.1.head ≡ r.head + 1
    pub hole : slot_at out.1.slots (r.head % r.capacity) ≡ none

  -- A push into a full ring between the halves of a pop tears it.
  pub push_between-IsTorn :
      (x : T) (r : SpscRing T)
      → IsFull r
      → (i : ℕ) × (pop_check r ≡ some i) × IsTorn x r (pop_take i (push x r).1)
  unfolding push pop_take
  push_between-IsTorn x r full =
      let i = r.tail % r.capacity in
      let same : r.head % r.capacity ≡ i =
        ap (λ (n : ℕ). n % r.capacity) full.at_capacity ∙ add-mod_right r.tail r.capacity in
      let below : i < length r.slots = rw (full.sized) (mod-lt r.tail full.has_room) in
      let ready : leb r.head r.tail ≡ false = ground (arith, full.has_room, full.at_capacity) in
      let crowded : leb r.capacity (r.head - r.tail) ≡ true = ground (arith, full.at_capacity) in
      let pushed : (push x r).1 ≡ write_newest x (drop_oldest r) =
        rw (full.open_ring, crowded) refl in
      let slots = set_slot i (some x) (set_slot i none r.slots) in
      let long = length-set_slot i none r.slots in
      let wide = length-set_slot i (some x) (set_slot i none r.slots) in
      (
        i,
        rw ready refl,
        subst (λ q. IsTorn x r (pop_take i q)) (sym pushed)
            (record {
              took_newest = rw same (
                  slot_at-set_slot i (some x) (set_slot i none r.slots)
                    (omega (arith, long, below)));
              moved_twice = omega arith;
              counted_once = refl;
              written = refl;
              hole = rw same (slot_at-set_slot i none slots (omega (arith, long, wide, below)));
            }),
      )
