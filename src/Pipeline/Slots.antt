-- ===== src/Pipeline/Slots.antt =====
-- The slots of a ring: what a write does to the other slots, and that indices less than a capacity
-- apart stand in different slots.
use native.Mathlib.Nat.{suc-mul, mod-add-div', mul-le-mul_right}
use acvjepa_project.Prelude.{
  length, ℕ, zero, suc, ◌+◌, ◌*◌, ◌/◌, ◌%◌, ◌≤◌, ◌<◌, ◌≡◌, refl, ap, ◌≢◌, ◌⊎◌, inl, inr, Option,
  List, [], ◌∷◌, arith,
}
use acvjepa_project.Pipeline.{empty_slots, set_slot, slot_at}

module _ {T : Type 0} where
  pub length-set_slot :
      (i : ℕ) (x : Option T) (ys : List (Option T)) → length (set_slot i x ys) ≡ length ys
  length-set_slot i x [] = refl
  length-set_slot zero x (y ∷ ys) = refl
  length-set_slot (suc i) x (y ∷ ys) = ap suc (length-set_slot i x ys)

  pub slot_at-set_slot :
      (i : ℕ) (x : Option T) (ys : List (Option T))
      → i < length ys
      → slot_at (set_slot i x ys) i ≡ x
  slot_at-set_slot i x [] h = absurd (omega arith)
  slot_at-set_slot zero x (y ∷ ys) h = refl
  slot_at-set_slot (suc i) x (y ∷ ys) h = slot_at-set_slot i x ys (omega arith)

  pub other_slot :
      (i j : ℕ) (x : Option T) (ys : List (Option T))
      → i ≢ j
      → slot_at (set_slot i x ys) j ≡ slot_at ys j
  other_slot i j x [] h = refl
  other_slot zero zero x (y ∷ ys) h = absurd (h refl)
  other_slot zero (suc j) x (y ∷ ys) h = refl
  other_slot (suc i) zero x (y ∷ ys) h = refl
  other_slot (suc i) (suc j) x (y ∷ ys) h = other_slot i j x ys (λ e. h (ap suc e))

pub length-empty_slots : (T : Type 0) (n : ℕ) → length (empty_slots {T = T} n) ≡ n
length-empty_slots T zero = refl
length-empty_slots T (suc n) = ap suc (length-empty_slots T n)

pub mod_differs : (i j c : ℕ) → i < j → j < i + c → i % c ≢ j % c
mod_differs i j c below above same = elim (in_order (i / c) (j / c)) [
  | inl less ↦
      let step : suc (i / c) * c ≤ j / c * c = mul-le-mul_right c less in
      omega (arith, mod-add-div' i c, mod-add-div' j c, step, same, suc-mul (i / c) c)
  | inr more ↦
      let step : j / c * c ≤ i / c * c = mul-le-mul_right c more in
      omega (arith, mod-add-div' i c, mod-add-div' j c, step, same)
]
  where
    in_order : (a b : ℕ) → (a < b) ⊎ (b ≤ a)
    in_order a b = ground arith
