-- ===== src/Prelude/Sets.antt =====
-- The number of different values of a list, Python's `len(set(xs))`.
use Prim.Native.Nat.{◌+◌, ◌≤◌}
use mathlib.Core.Path.{◌≡◌, refl, sym, ap, ◌∙◌, subst}
use mathlib.Core.Logic.{inl, inr}
use mathlib.Core.Bool.{true, false, not, ◌&&◌}
use mathlib.Core.List.{List, [], ◌∷◌}
use native.Mathlib.Omega.{arith}
use acvjepa_project.Prelude.Tests.{if◌then◌else◌, Bool-cases}
use acvjepa_project.Prelude.Equality.{Eq, ◌==◌}
use acvjepa_project.Prelude.Lists.{length, all, contains, set_size, same_set, distinct}
use acvjepa_project.Prelude.Table.{count}

module _ {A : Type 0} ⦃e : Eq A⦄ where
  -- The list less one value.
  abbrev without : A → List A → List A
  without a [] = []
  without a (x ∷ xs) = let rest = without a xs in if x == a then rest else x ∷ rest

  contains-without :
      (a b : A) (xs : List A) → contains (without a xs) b ≡ (not (b == a) && contains xs b)
  contains-without a b [] = ground arith
  contains-without a b (x ∷ xs) =
      ground (arith, contains-without a b xs, e.same_iff x a, e.same_iff b a, e.same_iff b x)

  set_size-without_other :
      (a : A) (xs : List A) → contains xs a ≡ false → set_size (without a xs) ≡ set_size xs
  set_size-without_other a [] h = refl
  set_size-without_other a (x ∷ xs) h =
      ground (
        arith,
        set_size-without_other a xs,
        contains-without a x xs,
        e.same_iff x a,
        e.same_iff a x,
      )

  set_size-without :
      (a : A) (xs : List A) → contains xs a ≡ true → set_size (without a xs) + 1 ≡ set_size xs
  set_size-without a [] h = absurd (ground arith)
  set_size-without a (x ∷ xs) h = ground (
    arith,
    set_size-without a xs,
    set_size-without_other a xs,
    contains-without a x xs,
    e.same_iff x a,
    e.same_iff a x,
  )

  all-without :
      (a : A) (xs ys : List A)
      → contains xs a ≡ false
      → all (contains ys) xs ≡ true
      → all (contains (without a ys)) xs ≡ true
  all-without a [] ys h k = refl
  all-without a (x ∷ xs) ys h k =
      ground (arith, all-without a xs ys, contains-without a x ys, e.same_iff x a, e.same_iff a x)

  -- A set is no larger than one that has all of it.
  pub set_size-all : (xs ys : List A) → all (contains ys) xs ≡ true → set_size xs ≤ set_size ys
  set_size-all [] ys h = omega arith
  set_size-all (x ∷ xs) ys h = elim (Bool-cases (contains xs x)) [
    | inl again ↦ let rest = set_size-all xs ys (ground arith) in ground (arith, rest)
    | inr new ↦
        let smaller = set_size-all xs (without x ys) (all-without x xs ys new (ground arith)) in
        let less = set_size-without x ys (ground arith) in ground (arith, smaller, less)
  ]

  set_size-length : (xs : List A) → set_size xs ≤ length xs
  set_size-length [] = omega arith
  set_size-length (x ∷ xs) = ground (arith, set_size-length xs)

  count-contains : (a : A) (xs : List A) → contains xs a ≡ false → count (λ x. x == a) xs ≡ 0
  count-contains a [] h = refl
  count-contains a (x ∷ xs) h = ground (arith, count-contains a xs, e.same_iff x a, e.same_iff a x)

  -- In a list no longer than its set each value stands once.
  pub count_once :
      (a : A) (xs : List A)
      → length xs ≤ set_size xs
      → count (λ x. x == a) xs ≡ (if contains xs a then 1 else 0)
  count_once a [] h = refl
  count_once a (x ∷ xs) h = elim (Bool-cases (contains xs x)) [
    | inl again ↦ absurd (ground (arith, set_size-length xs))
    | inr new ↦
        let rest = count_once a xs (ground arith) in
        ground (arith, rest, count-contains a xs, e.same_iff x a, e.same_iff a x)
  ]

  contains-all :
      (a : A) (xs ys : List A)
      → all (contains ys) xs ≡ true
      → contains xs a ≡ true
      → contains ys a ≡ true
  contains-all a [] ys h k = absurd (ground arith)
  contains-all a (x ∷ xs) ys h k = elim (Bool-cases (a == x)) [
    | inl here ↦ subst (λ y. contains ys y ≡ true) (sym ((e.same_iff a x).0 here)) (ground arith)
    | inr there ↦ contains-all a xs ys (ground arith) (ground arith)
  ]

  -- Lists of one set contain the same.
  pub same_set-contains :
      (a : A) (xs ys : List A) → same_set xs ys ≡ true → contains xs a ≡ contains ys a
  same_set-contains a xs ys h = ground (arith, contains-all a xs ys, contains-all a ys xs)

  pub all_of_contains :
      (xs ys : List A)
      → ((a : A) → contains xs a ≡ true → contains ys a ≡ true)
      → all (contains ys) xs ≡ true
  all_of_contains [] ys h = refl
  all_of_contains (x ∷ xs) ys h =
      let one = h x (ground (arith, e.same_iff x x)) in
      rw one (all_of_contains xs ys (λ a c. h a (ground arith)))

  contains-count : (a : A) (xs : List A) → contains xs a ≡ true → 1 ≤ count (λ x. x == a) xs
  contains-count a [] h = absurd (ground arith)
  contains-count a (x ∷ xs) h = ground (arith, contains-count a xs, e.same_iff x a, e.same_iff a x)

  -- A list in which no value stands twice is as long as its set.
  pub set_size-once :
      (xs : List A) → ((a : A) → count (λ x. x == a) xs ≤ 1) → set_size xs ≡ length xs
  set_size-once [] h = refl
  set_size-once (x ∷ xs) h =
      let new : contains xs x ≡ false = ground (arith, h x, contains-count x xs, e.same_iff x x) in
      let rest = set_size-once xs (λ a. ground (arith, h a)) in ground (arith, new, rest)

  -- What is counted is contained.
  pub contains_of_count : (a : A) (xs : List A) → 1 ≤ count (λ x. x == a) xs → contains xs a ≡ true
  contains_of_count a xs h = elim (Bool-cases (contains xs a)) [
    | inl here ↦ here
    | inr not_here ↦ absurd (omega (arith, h, count-contains a xs not_here))
  ]

  -- A list that has each value of another once, and no other value, is as long as the other's set.
  pub length_of_once :
      (xs ys : List A)
      → ((a : A) → count (λ x. x == a) xs ≡ (if contains ys a then 1 else 0))
      → (same_set xs ys ≡ true) × (length xs ≡ set_size ys)
  length_of_once xs ys h =
      let there = all_of_contains xs ys (λ a c. ground (arith, h a, contains-count a xs c)) in
      let back = all_of_contains ys xs (λ a c. contains_of_count a xs (ground (arith, h a))) in
      let single = set_size-once xs (λ a. ground (arith, h a)) in
      (
        rw (there, back) refl,
        omega (arith, single, set_size-all xs ys there, set_size-all ys xs back),
      )

  distinct-set_size : (xs : List A) → distinct xs ≡ true → length xs ≤ set_size xs
  distinct-set_size [] h = omega arith
  distinct-set_size (x ∷ xs) h = ground (arith, distinct-set_size xs)

  -- Of a list without repetitions, another list of the same set and length is a reordering.
  pub count-same_set :
      (xs ys : List A)
      → distinct xs ≡ true
      → same_set xs ys ≡ true
      → length xs ≡ length ys
      → (a : A) → count (λ x. x == a) xs ≡ count (λ x. x == a) ys
  count-same_set xs ys once same long a =
      let wide = distinct-set_size xs once in
      let within = set_size-all xs ys (ground arith) in
      count_once a xs wide
      ∙ ap (λ c. if c then 1 else 0) (same_set-contains a xs ys same)
      ∙ sym (count_once a ys (omega (arith, wide, within, long)))
