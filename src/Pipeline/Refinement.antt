-- ===== src/Pipeline/Refinement.antt =====
-- The ring against its specification over whole schedules: the producer's and the consumer's calls, in
-- any order, answer as a bounded queue that loses its oldest item does.
use acvjepa_project.Prelude.{ℕ, ◌≡◌, refl, ap, subst, Option, none, some, List, [], ◌∷◌}
use acvjepa_project.Pipeline.{SpscRing, create, push, pop, drain_latest, tail_of, last_of, enqueue}
use acvjepa_project.Pipeline.Queue.{
  IsRing, create-IsRing, push-IsRing, pop-IsRing, pop_empty, drain-IsRing, create-capacity,
}

pub data Op (T : Type 0) : Type 0 where
  put : T → Op T
  take_oldest : Op T
  take_latest : Op T

module _ {T : Type 0} where
  -- A call on the ring: its item, if any, and the ring after it; none where a loop has not ended.
  unfoldable pub step : Op T → SpscRing T → Option (Option T × SpscRing T)
  step (put x) r = some (none, (push x r).1)
  step take_oldest r = some (pop r)
  step take_latest r = drain_latest r

  -- The items that the calls of a schedule give, in order.
  unfoldable pub answers : List (Op T) → SpscRing T → Option (List (Option T))
  answers [] r = some []
  answers (o ∷ os) r = elim (step o r) [
    | none ↦ none
    | some out ↦ elim (answers os out.1) [ none ↦ none | some rest ↦ some (out.0 ∷ rest) ]
  ]

  abbrev pub first_of : List T → Option T
  first_of [] = none
  first_of (x ∷ xs) = some x

  -- The same calls on a queue of at most `capacity` items.
  abbrev pub spec_step : ℕ → Op T → List T → Option T × List T
  spec_step capacity (put x) xs = (none, enqueue capacity x xs)
  spec_step capacity take_oldest xs = (first_of xs, tail_of xs)
  spec_step capacity take_latest xs = (last_of none xs, [])

  abbrev pub spec_answers : ℕ → List (Op T) → List T → List (Option T)
  spec_answers capacity [] xs = []
  spec_answers capacity (o ∷ os) xs =
      let (a, ys) = spec_step capacity o xs in a ∷ spec_answers capacity os ys

  step-IsRing :
      (o : Op T) (r : SpscRing T) (xs : List T)
      → IsRing r xs
      → (r' : SpscRing T) × (step o r ≡ some ((spec_step r.capacity o xs).0, r'))
        × IsRing r' (spec_step r.capacity o xs).1
        × (r'.capacity ≡ r.capacity)
  unfolding step
  step-IsRing (put x) r xs i =
      let (accepted, j, c) = push-IsRing x r xs i in ((push x r).1, refl, j, c)
  step-IsRing take_oldest r [] i = (r, ap some (pop_empty r i), i, refl)
  step-IsRing take_oldest r (x ∷ xs) i =
      let (e, j, c) = pop-IsRing r x xs i in
      ((pop r).1, ap (λ (a : Option T). some (a, (pop r).1)) e, j, c)
  step-IsRing take_latest r xs i = drain-IsRing r xs i

  answers-IsRing :
      (os : List (Op T)) (r : SpscRing T) (xs : List T)
      → IsRing r xs
      → answers os r ≡ some (spec_answers r.capacity os xs)
  unfolding answers
  answers-IsRing [] r xs i = refl
  answers-IsRing (o ∷ os) r xs i =
      let (r', e, j, c) = step-IsRing o r xs i in
      let rest : answers os r' ≡ some (spec_answers r.capacity os (spec_step r.capacity o xs).1) =
        subst (λ (n : ℕ). answers os r' ≡ some (spec_answers n os (spec_step r.capacity o xs).1)) c
          (answers-IsRing os r' _ j) in
      rw (answers, e, rest) refl

-- From a new ring of a capacity of at least two, every schedule of pushes, pops and drains ends, and
-- gives item for item what a queue of at most that many items gives that drops its oldest item to
-- make room: no item is lost otherwise, none is given twice, and the order is kept.
pub ring_refines_queue :
    {T : Type 0} (capacity : ℕ) (r : SpscRing T) (os : List (Op T))
    → create capacity ≡ some r
    → answers os r ≡ some (spec_answers capacity os [])
ring_refines_queue capacity r os e =
    subst (λ (n : ℕ). answers os r ≡ some (spec_answers n os [])) (create-capacity capacity r e)
      (answers-IsRing os r [] (create-IsRing capacity r e))
