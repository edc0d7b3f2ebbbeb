-- ===== src/Prelude/Table.antt =====
-- The SQLite tables of the program as lists of rows: what `SELECT … WHERE`, `UPDATE … WHERE` and
-- `COUNT` do. A row goes by a Boolean condition.
use Prim.Native.Nat.{ℕ, zero, suc, ◌+◌, ◌≤◌, ◌<◌}
use mathlib.Core.Path.{◌≡◌, refl, subst}
use mathlib.Core.Logic.{inl, inr}
use mathlib.Core.Bool.{Bool, true, false}
use mathlib.Core.Option
use mathlib.Core.Option.{Option, none, some}
use mathlib.Core.List.{List, [], ◌∷◌, ◌++◌}
use native.Mathlib.Omega.{arith}
use acvjepa_project.Prelude.Lists.{All, any, get_elem?, set}
use acvjepa_project.Prelude.Tests.{Bool-cases, if◌then◌else◌}

module _ {R : Type 0} where
  -- `SELECT … WHERE p`, then `fetchone()`
  abbrev pub select_one : (R → Bool) → List R → Option R
  select_one p [] = none
  select_one p (r ∷ rs) = if p r then some r else select_one p rs

  -- `UPDATE … SET f WHERE p`
  abbrev pub update : (R → Bool) → (R → R) → List R → List R
  update p f [] = []
  update p f (r ∷ rs) = (if p r then f r else r) ∷ update p f rs

  -- `SELECT COUNT(*) WHERE p`, and the `rowcount` of an UPDATE
  abbrev pub count : (R → Bool) → List R → ℕ
  count p [] = 0
  count p (r ∷ rs) = (if p r then 1 else 0) + count p rs

  pub select_one-holds :
      (p : R → Bool) (rs : List R) (r : R) → select_one p rs ≡ some r → p r ≡ true
  select_one-holds p [] q h = ground arith
  select_one-holds p (r ∷ rs) q h = ground (arith, select_one-holds p rs q)

  pub count-append : (p : R → Bool) (rs ss : List R) → count p (rs ++ ss) ≡ count p rs + count p ss
  count-append p [] ss = omega arith
  count-append p (r ∷ rs) ss = omega (arith, count-append p rs ss)

  pub select_one-append :
      (p : R → Bool) (rs ss : List R) (r : R)
      → select_one p rs ≡ some r
      → select_one p (rs ++ ss) ≡ some r
  select_one-append p [] ss q h = ground arith
  select_one-append p (r ∷ rs) ss q h = ground (arith, select_one-append p rs ss q)

  pub select_one-append_none :
      (p : R → Bool) (rs ss : List R)
      → select_one p rs ≡ none
      → select_one p (rs ++ ss) ≡ select_one p ss
  select_one-append_none p [] ss h = refl
  select_one-append_none p (r ∷ rs) ss h = ground (arith, select_one-append_none p rs ss)

  -- What an update makes of one row.
  abbrev pub apply_if : (R → Bool) → (R → R) → R → R
  apply_if p f r = if p r then f r else r

  -- An update that keeps a condition of each row does not change which row it selects.
  pub select_one-update :
      (p q : R → Bool) (f : R → R)
      → ((r : R) → p (f r) ≡ p r)
      → (rs : List R) → select_one p (update q f rs) ≡ Option.map (apply_if q f) (select_one p rs)
  select_one-update p q f keep [] = refl
  select_one-update p q f keep (r ∷ rs) = ground (arith, keep r, select_one-update p q f keep rs)

  pub select_one-All {ℓ} :
      (P : R → Type ℓ) (p : R → Bool) (rs : List R) (r : R)
      → All P rs
      → select_one p rs ≡ some r
      → P r
  select_one-All P p [] q a h = ground arith
  select_one-All P p (r ∷ rs) q a h = elim (Bool-cases (p r)) [
    | inl here ↦ let e : r ≡ q = ground arith in subst P e a.0
    | inr later ↦ select_one-All P p rs q a.1 (rw later at h)
  ]

  -- An update keeps what every row has if it keeps it on each row.
  pub update-All {ℓ} :
      (P : R → Type ℓ) (p : R → Bool) (f : R → R) (rs : List R)
      → ((r : R) → P r → P (f r))
      → All P rs
      → All P (update p f rs)
  update-All P p f [] keep a = tt
  update-All P p f (r ∷ rs) keep a = elim (Bool-cases (p r)) [
    | inl e ↦ rw e (keep r a.0, update-All P p f rs keep a.1)
    | inr e ↦ rw e (a.0, update-All P p f rs keep a.1)
  ]

  pub count_zero : (p : R → Bool) (rs : List R) → any p rs ≡ false → count p rs ≡ 0
  count_zero p [] h = refl
  count_zero p (r ∷ rs) h = ground (arith, count_zero p rs)

  -- Rows that an update does not bring into a condition are no more than before.
  pub count-update-le :
      (p q : R → Bool) (f : R → R) (rs : List R)
      → ((r : R) → p (f r) ≡ true → p r ≡ true)
      → count p (update q f rs) ≤ count p rs
  count-update-le p q f [] keep = omega arith
  count-update-le p q f (r ∷ rs) keep = ground (arith, keep r, count-update-le p q f rs keep)

  pub update_none : (p : R → Bool) (f : R → R) (rs : List R) → count p rs ≡ 0 → update p f rs ≡ rs
  update_none p f [] h = refl
  update_none p f (r ∷ rs) h = ground (arith, update_none p f rs)

  -- Writing one row moves a count by that row.
  pub count-set :
      (p : R → Bool) (rs : List R) (k : ℕ) (r q : R)
      → get_elem? rs k ≡ some r
      → count p (set rs k q) + (if p r then 1 else 0) ≡ count p rs + (if p q then 1 else 0)
  count-set p [] k r q h = absurd (ground arith)
  count-set p (x ∷ rs) zero r q h = ground arith
  count-set p (x ∷ rs) (suc k) r q h = omega (arith, count-set p rs k r q h)

  pub count_pos :
      (p : R → Bool) (rs : List R) (k : ℕ) (r : R)
      → get_elem? rs k ≡ some r
      → p r ≡ true
      → 0 < count p rs
  count_pos p [] k r h e = absurd (ground arith)
  count_pos p (x ∷ rs) zero r h e = ground arith
  count_pos p (x ∷ rs) (suc k) r h e = omega (arith, count_pos p rs k r h e)
