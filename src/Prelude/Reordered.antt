-- ===== src/Prelude/Reordered.antt =====
-- Lists of the same items in another order, and `sorted`, which forgets the order of texts.
use Prim.Native.String.compare
use Prim.Native.String.{String}
use mathlib.Core.Path.{◌≡◌, refl, ap, ◌∙◌}
use mathlib.Core.Logic.{inl, inr}
use mathlib.Core.Bool.{Bool, true, false}
use mathlib.Core.List.{List, [], ◌∷◌}
use native.Mathlib.Omega.{arith}
use text.Mathlib.TextEquality.{codes_equal}
use acvjepa_project.Prelude.Tests.{Bool-cases}
use acvjepa_project.Prelude.Lists.{insert_by, sort_by}
use acvjepa_project.Prelude.Text.{string_leb}

pub data Reordered {A : Type 0} : List A → List A → Type 0 where
  none_left : Reordered [] []
  keep : (x : A) {l m : List A} → Reordered l m → Reordered (x ∷ l) (x ∷ m)
  swap : (x y : A) (l : List A) → Reordered (x ∷ y ∷ l) (y ∷ x ∷ l)
  chain : {l m n : List A} → Reordered l m → Reordered m n → Reordered l n

pub same_order : {A : Type 0} (l : List A) → Reordered l l
same_order [] = none_left
same_order (x ∷ l) = keep x (same_order l)

module _ {A : Type 0} (below : A → A → Bool) where
  insert_by-Reordered : (x : A) (l : List A) → Reordered (x ∷ l) (insert_by below x l)
  insert_by-Reordered x [] = same_order (x ∷ [])
  insert_by-Reordered x (y ∷ l) = elim (Bool-cases (below x y)) [
    | inl first ↦ rw first (same_order (x ∷ y ∷ l))
    | inr later ↦ rw later (chain (swap x y l) (keep y (insert_by-Reordered x l)))
  ]

  pub sort_by-Reordered : (l : List A) → Reordered l (sort_by below l)
  sort_by-Reordered [] = none_left
  sort_by-Reordered (x ∷ l) =
      chain (keep x (sort_by-Reordered l)) (insert_by-Reordered x (sort_by below l))

-- Texts are ordered by `string_leb`.
leb_least : (t : String) → string_leb String.[] t ≡ true
leb_least String.[] = refl
leb_least (String.◌∷◌ d t) = ground (arith, compare.nil-cons d t)

leb_total : (s t : String) → string_leb s t ≡ false → string_leb t s ≡ true
leb_total String.[] t h = absurd (ground (arith, leb_least t))
leb_total (String.◌∷◌ c s) String.[] h = leb_least (String.◌∷◌ c s)
leb_total (String.◌∷◌ c s) (String.◌∷◌ d t) h =
    ground (arith, leb_total s t, compare.cons-cons c d s t, compare.cons-cons d c t s)

leb_trans : (s t u : String) → string_leb s t ≡ true → string_leb t u ≡ true → string_leb s u ≡ true
leb_trans String.[] t u h k = leb_least u
leb_trans (String.◌∷◌ c s) String.[] u h k = absurd (ground (arith, compare.cons-nil c s))
leb_trans (String.◌∷◌ c s) (String.◌∷◌ d t) String.[] h k =
    absurd (ground (arith, compare.cons-nil d t))
leb_trans (String.◌∷◌ c s) (String.◌∷◌ d t) (String.◌∷◌ e u) h k = ground (
  arith,
  leb_trans s t u,
  compare.cons-cons c d s t,
  compare.cons-cons d e t u,
  compare.cons-cons c e s u,
  codes_equal c d,
)

leb_antisym : (s t : String) → string_leb s t ≡ true → string_leb t s ≡ true → s ≡ t
leb_antisym String.[] String.[] h k = refl
leb_antisym String.[] (String.◌∷◌ d t) h k = absurd (ground (arith, compare.cons-nil d t))
leb_antisym (String.◌∷◌ c s) String.[] h k = absurd (ground (arith, compare.cons-nil c s))
leb_antisym (String.◌∷◌ c s) (String.◌∷◌ d t) h k =
    ground (
      arith,
      leb_antisym s t,
      codes_equal c d,
      compare.cons-cons c d s t,
      compare.cons-cons d c t s,
    )

-- Insertions into any list of texts may be exchanged.
insert-insert :
    (s t : String) (l : List String)
    → insert_by string_leb s (insert_by string_leb t l)
      ≡ insert_by string_leb t (insert_by string_leb s l)
insert-insert s t [] = ground (arith, leb_total s t, leb_antisym s t)
insert-insert s t (u ∷ l) = ground (
  arith,
  insert-insert s t l,
  leb_total s t,
  leb_total t s,
  leb_antisym s t,
  leb_trans s t u,
  leb_trans t s u,
)

-- `sorted` gives one list for all orders of the same texts.
pub sort-Reordered :
    {l m : List String} → Reordered l m → sort_by string_leb l ≡ sort_by string_leb m
sort-Reordered none_left = refl
sort-Reordered (keep x r) = ap (insert_by string_leb x) (sort-Reordered r)
sort-Reordered (swap x y l) = insert-insert x y (sort_by string_leb l)
sort-Reordered (chain r q) = sort-Reordered r ∙ sort-Reordered q
