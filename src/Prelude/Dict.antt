-- ===== src/Prelude/Dict.antt =====
-- Python's `dict`: an association list in order of insertion. A write to a key that is there keeps
-- its place.
use mathlib.Core.Path.{◌≡◌, refl, sym, subst}
use mathlib.Core.Logic.{inl, inr}
use mathlib.Core.Bool.{true}
use mathlib.Core.Option.{Option, none, some}
use mathlib.Core.List.{List, [], ◌∷◌}
use native.Mathlib.Omega.{arith}
use acvjepa_project.Prelude.Tests.{if◌then◌else◌, Bool-cases, some_inj}
use acvjepa_project.Prelude.Lists.{All}
use acvjepa_project.Prelude.Equality.{Eq, ◌==◌}

abbrev pub Dict : Type 0 → Type 0 → Type 0
Dict K V = List (K × V)

module _ {K V : Type 0} ⦃e : Eq K⦄ where
  -- `d.get(k)`
  abbrev pub lookup : K → Dict K V → Option V
  lookup k [] = none
  lookup k ((j, v) ∷ d) = if j == k then some v else lookup k d

  -- `d[k] = v`
  abbrev pub insert : K → V → Dict K V → Dict K V
  insert k v [] = (k, v) ∷ []
  insert k v ((j, w) ∷ d) = if j == k then (j, v) ∷ d else (j, w) ∷ insert k v d

  -- `d.pop(k, None)`
  abbrev pub erase : K → Dict K V → Dict K V
  erase k [] = []
  erase k ((j, w) ∷ d) = let rest = erase k d in if j == k then rest else (j, w) ∷ rest

  pub lookup-insert :
      (k j : K) (v : V) (d : Dict K V)
      → lookup j (insert k v d) ≡ (if k == j then some v else lookup j d)
  lookup-insert k j v [] = refl
  lookup-insert k j v ((i, w) ∷ d) =
      ground (arith, e.same_iff k j, e.same_iff i k, e.same_iff i j, lookup-insert k j v d)

  pub lookup-erase :
      (k j : K) (d : Dict K V) → lookup j (erase k d) ≡ (if k == j then none else lookup j d)
  lookup-erase k j [] = ground arith
  lookup-erase k j ((i, w) ∷ d) =
      ground (arith, e.same_iff k j, e.same_iff i k, e.same_iff i j, lookup-erase k j d)

module _ {K V : Type 0} ⦃e : Eq K⦄ where
  pub insert-insert : (k : K) (v w : V) (d : Dict K V) → insert k v (insert k w d) ≡ insert k v d
  insert-insert k v w [] = ground (arith, e.same_iff k k)
  insert-insert k v w ((j, u) ∷ d) = ground (arith, e.same_iff j k, insert-insert k v w d)

module _ {ℓ} {K V : Type 0} ⦃e : Eq K⦄ (P : K × V → Type ℓ) where
  -- What holds of every entry holds of the one that is looked up, and is kept by writes that keep it.
  pub lookup-All : (k : K) (v : V) (d : Dict K V) → All P d → lookup k d ≡ some v → P (k, v)
  lookup-All k v [] a h = absurd (ground arith)
  lookup-All k v ((j, w) ∷ d) a h = elim (Bool-cases (j == k)) [
    | inl here ↦
        let key : j ≡ k = (e.same_iff j k).0 here in
        let value : w ≡ v = some_inj (rw here at h) in
        subst (λ x. P (k, x)) value (subst (λ x. P (x, w)) key a.0)
    | inr there ↦ lookup-All k v d a.1 (rw there at h)
  ]

  pub insert-All : (k : K) (v : V) (d : Dict K V) → P (k, v) → All P d → All P (insert k v d)
  insert-All k v [] p a = (p, tt)
  insert-All k v ((j, w) ∷ d) p a = elim (Bool-cases (j == k)) [
    | inl here ↦
        let key : k ≡ j = sym ((e.same_iff j k).0 here) in
        rw here (subst (λ x. P (x, v)) key p, a.1)
    | inr there ↦ rw there (a.0, insert-All k v d p a.1)
  ]

module _ {K : Type 0} ⦃e : Eq K⦄ where
  pub beq_refl : (k : K) → (k == k) ≡ true
  beq_refl k = (e.same_iff k k).1 refl
