-- ===== src/Prelude/Sorting.antt =====
-- Sorting keeps the items of a list.
use Prim.Native.Nat.{suc, ◌+◌}
use mathlib.Core.Path.{◌≡◌, refl, ap, ◌∙◌}
use mathlib.Core.Bool.{Bool}
use mathlib.Core.List.{List, [], ◌∷◌}
use native.Mathlib.Omega.{arith}
use acvjepa_project.Prelude.Tests.{if◌then◌else◌}
use acvjepa_project.Prelude.Lists.{length, insert_by, sort_by}
use acvjepa_project.Prelude.Table.{count}

module _ {A : Type 0} (below : A → A → Bool) where
  length-insert_by : (x : A) (l : List A) → length (insert_by below x l) ≡ suc (length l)
  length-insert_by x [] = refl
  length-insert_by x (y ∷ l) = ground (arith, length-insert_by x l)

  pub length-sort_by : (l : List A) → length (sort_by below l) ≡ length l
  length-sort_by [] = refl
  length-sort_by (x ∷ l) = length-insert_by x (sort_by below l) ∙ ap suc (length-sort_by l)

  count-insert_by :
      (p : A → Bool) (x : A) (l : List A)
      → count p (insert_by below x l) ≡ (if p x then 1 else 0) + count p l
  count-insert_by p x [] = refl
  count-insert_by p x (y ∷ l) = ground (arith, count-insert_by p x l)

  pub count-sort_by : (p : A → Bool) (l : List A) → count p (sort_by below l) ≡ count p l
  count-sort_by p [] = refl
  count-sort_by p (x ∷ l) = omega (arith, count-insert_by p x (sort_by below l), count-sort_by p l)
