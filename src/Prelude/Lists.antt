-- ===== src/Prelude/Lists.antt =====
-- Lists measured by native numbers, and the tests of Python's `in`, `all` and `any`.
use Prim.Native.Nat.{ℕ, zero, suc, ◌+◌, ◌-◌, ◌≤◌, min}
use mathlib.Core.Path.{◌≡◌, refl, ap, subst}
use mathlib.Core.Bool.{Bool, true, false, ◌&&◌, ◌||◌}
use mathlib.Core.List.{List, [], ◌∷◌, ◌++◌}
use mathlib.Core.Option.{Option, none, some}
use native.Mathlib.Omega.{arith}
use acvjepa_project.Prelude.Tests.{if◌then◌else◌, some_inj}
use acvjepa_project.Prelude.Equality.{Eq, ◌==◌}

module _ {ℓ} {A : Type ℓ} where
  abbrev pub length : List A → ℕ
  length [] = 0
  length (x ∷ xs) = suc (length xs)

  abbrev pub get_elem? : List A → ℕ → Option A
  get_elem? [] i = none
  get_elem? (x ∷ xs) zero = some x
  get_elem? (x ∷ xs) (suc i) = get_elem? xs i

  -- A write out of bounds changes nothing.
  abbrev pub set : List A → ℕ → A → List A
  set [] i v = []
  set (x ∷ xs) zero v = v ∷ xs
  set (x ∷ xs) (suc i) v = x ∷ set xs i v

  abbrev pub take : ℕ → List A → List A
  take zero xs = []
  take (suc n) [] = []
  take (suc n) (x ∷ xs) = x ∷ take n xs

  abbrev pub drop : ℕ → List A → List A
  drop zero xs = xs
  drop (suc n) [] = []
  drop (suc n) (x ∷ xs) = drop n xs

  -- `not items`
  abbrev pub is_empty : List A → Bool
  is_empty [] = true
  is_empty (x ∷ xs) = false

  abbrev pub all : (A → Bool) → List A → Bool
  all p [] = true
  all p (x ∷ xs) = p x && all p xs

  abbrev pub any : (A → Bool) → List A → Bool
  any p [] = false
  any p (x ∷ xs) = p x || any p xs

module _ {A : Type 0} where
  -- One element put into a list that is sorted by `below`, before the first that it does not follow.
  abbrev pub insert_by : (A → A → Bool) → A → List A → List A
  insert_by below x [] = x ∷ []
  insert_by below x (y ∷ ys) =
      let rest = insert_by below x ys in if below x y then x ∷ y ∷ ys else y ∷ rest

  -- `sorted(xs)`, which keeps the order of elements that `below` does not tell apart.
  abbrev pub sort_by : (A → A → Bool) → List A → List A
  sort_by below [] = []
  sort_by below (x ∷ xs) = insert_by below x (sort_by below xs)

  -- `xs[-1]`
  abbrev pub last : List A → Option A
  last [] = none
  last (x ∷ []) = some x
  last (x ∷ y ∷ ys) = last (y ∷ ys)

module _ {ℓ} {A : Type ℓ} where
  pub length-append : (xs ys : List A) → length (xs ++ ys) ≡ length xs + length ys
  length-append [] ys = omega arith
  length-append (x ∷ xs) ys = omega (arith, length-append xs ys)

  pub length-take : (n : ℕ) (xs : List A) → length (take n xs) ≡ min n (length xs)
  length-take zero xs = omega arith
  length-take (suc n) [] = omega arith
  length-take (suc n) (x ∷ xs) = omega (arith, length-take n xs)

module _ {A : Type 0} ⦃e : Eq A⦄ where
  -- `a in xs`
  abbrev pub contains : List A → A → Bool
  contains [] a = false
  contains (x ∷ xs) a = a == x || contains xs a

  -- `len(xs) == len(set(xs))`: no value stands twice.
  abbrev pub distinct : List A → Bool
  distinct [] = true
  distinct (x ∷ xs) = if contains xs x then false else distinct xs

  -- `len(set(xs))`
  abbrev pub set_size : List A → ℕ
  set_size [] = 0
  set_size (x ∷ xs) = (if contains xs x then 0 else 1) + set_size xs

  -- `set(xs) == set(ys)`
  abbrev pub same_set : List A → List A → Bool
  same_set xs ys = all (contains ys) xs && all (contains xs) ys

module _ {ℓ} {A : Type ℓ} where
  take-nil : (n : ℕ) → take {A = A} n [] ≡ []
  take-nil zero = refl
  take-nil (suc n) = refl

  -- Taking the first `s` and then those up to `t` is taking the first `t`.
  pub take-append-between :
      (s t : ℕ) (xs : List A) → s ≤ t → take s xs ++ take (t - s) (drop s xs) ≡ take t xs
  take-append-between zero t xs h = ap (λ n. take n xs) (omega arith)
  take-append-between (suc s) zero xs h = elim h [ ]
  take-append-between (suc s) (suc t) [] h = take-nil (suc t - suc s)
  take-append-between (suc s) (suc t) (x ∷ xs) h =
      let e : suc t - suc s ≡ t - s = omega arith in
      rw e (ap (λ (l : List A). x ∷ l) (take-append-between s t xs (omega arith)))

module _ {A : Type 0} where
  abbrev pub All {ℓ} : (A → Type ℓ) → List A → Type ℓ
  All P [] = Unit
  All P (x ∷ xs) = P x × All P xs

  pub All-append {ℓ} : (P : A → Type ℓ) (xs ys : List A) → All P xs → All P ys → All P (xs ++ ys)
  All-append P [] ys hx hy = hy
  All-append P (x ∷ xs) ys hx hy = (hx.0, All-append P xs ys hx.1 hy)

  pub All-set {ℓ} :
      (P : A → Type ℓ) (xs : List A) (k : ℕ) (y : A) → All P xs → P y → All P (set xs k y)
  All-set P [] k y a b = tt
  All-set P (x ∷ xs) zero y a b = (b, a.1)
  All-set P (x ∷ xs) (suc k) y a b = (a.0, All-set P xs k y a.1 b)

  pub All-get {ℓ} :
      (P : A → Type ℓ) (xs : List A) (k : ℕ) (x : A) → All P xs → get_elem? xs k ≡ some x → P x
  All-get P [] k x a e = absurd (ground arith)
  All-get P (y ∷ xs) zero x a e = subst P (some_inj e) a.0
  All-get P (y ∷ xs) (suc k) x a e = All-get P xs k x a.1 e
