-- ===== src/Audit/Merkle.antt =====
-- The branches of merkle_root, and why its loop ends: each round leaves about half of the nodes.
use mathlib.Core.List.{append_assoc, append-nil}
use acvjepa_project.Prelude.Text.{concat, string_leb}
use acvjepa_project.Prelude.Sorting.{length-sort_by}
use acvjepa_project.Prelude.{
  Bool-cases, length, all, sort_by, ok, err, ℕ, zero, suc, ◌+◌, ◌*◌, ◌≤◌, ◌<◌, String, ◌≡◌, refl,
  sym, ap, ◌∙◌, subst, ◌⊎◌, inl, inr, true, false, some, List, [], ◌∷◌, ◌++◌, map, arith,
}
use acvjepa_project.Audit.Types.{
  no_leaves, leaf_not_hex, Crypto, hash_pairs, merkle_rounds, merkle_root,
}

length-hash_pairs :
    (f : String → String) (l : List String) → 2 * length (hash_pairs f l) ≤ length l + 1
length-hash_pairs f [] = omega arith
length-hash_pairs f (a ∷ []) = omega arith
length-hash_pairs f (a ∷ b ∷ l) = omega (arith, length-hash_pairs f l)

-- A hash tree over a row of leaves: one leaf is its own tree, two trees side by side are hashed into one,
-- and a tree may be hashed with itself.
pub data IsTree (f : String → String) : List String → String → Type 0 where
  leaf : (a : String) → IsTree f (a ∷ []) a
  pair :
      (l m : List String) (a b : String)
      → IsTree f l a
      → IsTree f m b
      → IsTree f (l ++ m) (f (concat a b))
  repeated : (l : List String) (a : String) → IsTree f l a → IsTree f l (f (concat a a))

-- The nodes are trees over the leaves, from left to right.
abbrev IsForest : (String → String) → List String → List String → Type 0
IsForest f leaves [] = leaves ≡ []
IsForest f leaves (x ∷ xs) =
    (l : List String) × (m : List String) × (leaves ≡ l ++ m) × IsTree f l x × IsForest f m xs

leaves-IsForest : (f : String → String) (l : List String) → IsForest f l l
leaves-IsForest f [] = refl
leaves-IsForest f (a ∷ l) = (a ∷ [], l, refl, leaf a, leaves-IsForest f l)

hash_pairs-IsForest :
    (f : String → String) (leaves nodes : List String)
    → IsForest f leaves nodes
    → IsForest f leaves (hash_pairs f nodes)
hash_pairs-IsForest f leaves [] e = e
hash_pairs-IsForest f leaves (a ∷ []) (l, m, e, tree, at_end) = (l, m, e, repeated l a tree, at_end)
hash_pairs-IsForest f leaves (a ∷ b ∷ nodes) (l, m, e, tree_a, (k, n, e', tree_b, forest)) = (
  l ++ k,
  n,
  e ∙ ap (λ (z : List String). l ++ z) e' ∙ sym (append_assoc l k n),
  pair l k a b tree_a tree_b,
  hash_pairs-IsForest f n nodes forest,
)

-- What the rounds end with: a tree over the leaves.
abbrev EndsIn : (String → String) → ℕ → List String → List String → Type 0
EndsIn f n leaves nodes =
    (root : String) × IsTree f leaves root × (merkle_rounds f n nodes ≡ some root)

only-IsTree :
    (f : String → String) (leaves : List String) (a : String)
    → IsForest f leaves (a ∷ [])
    → IsTree f leaves a
only-IsTree f leaves a (l, m, e, tree, at_end) =
    let all_of : l ≡ leaves = sym (e ∙ ap (λ (z : List String). l ++ z) at_end ∙ append-nil l) in
    subst (λ z. IsTree f z a) all_of tree

rounds_finish :
    (f : String → String) (n : ℕ) (leaves : List String) (a : String) (l : List String)
    → length l ≤ n
    → IsForest f leaves (a ∷ l)
    → EndsIn f n leaves (a ∷ l)
rounds_finish f zero leaves a [] h forest = (a, only-IsTree f leaves a forest, refl)
rounds_finish f (suc n) leaves a [] h forest = (a, only-IsTree f leaves a forest, refl)
rounds_finish f zero leaves a (b ∷ l) h forest = absurd (omega arith)
rounds_finish f (suc n) leaves a (b ∷ l) h forest =
    rounds_finish f n leaves (f (concat a b)) (hash_pairs f l)
      (omega (arith, length-hash_pairs f l)) (hash_pairs-IsForest f leaves (a ∷ b ∷ l) forest)

length-map : {A B : Type 0} (f : A → B) (l : List A) → length (map f l) ≡ length l
length-map f [] = refl
length-map f (x ∷ l) = ap suc (length-map f l)

rounds-total :
    (f : String → String) (n : ℕ) (l : List String) → 0 < length l → length l ≤ n → EndsIn f n l l
rounds-total f n [] p h = absurd (omega arith)
rounds-total f n (a ∷ l) p h =
    rounds_finish f n (a ∷ l) a l (omega arith) (leaves-IsForest f (a ∷ l))

-- The nodes that a tree of leaves starts with.
abbrev pub nodes_of : Crypto → List String → List String
nodes_of c leaves = map c.from_hex (sort_by string_leb leaves)

-- The root of the nodes of so many leaves is found.
root_of_leaves :
    (c : Crypto) (leaves : List String)
    → 0 < length leaves
    → EndsIn c.digest (length leaves) (nodes_of c leaves) (nodes_of c leaves)
root_of_leaves c leaves p =
    let size : length (nodes_of c leaves) ≡ length leaves =
      length-map c.from_hex (sort_by string_leb leaves) ∙ length-sort_by string_leb leaves in
    rounds-total c.digest (length leaves) (nodes_of c leaves) (omega (arith, size))
      (omega (arith, size))

-- What merkle_root does for every list of leaves: no leaves, or a leaf that is not hexadecimal, are its
-- two errors; for all others its loop ends, as many rounds as there are leaves being enough, with the
-- root of a hash tree over the decoded leaves in sorted order.
pub merkle_root-total :
    (c : Crypto) (leaves : List String)
    → ((leaves ≡ []) × (merkle_root c leaves ≡ err no_leaves))
      ⊎ (((0 < length leaves)
            × (all c.valid_hex leaves ≡ false)
            × (merkle_root c leaves ≡ err leaf_not_hex))
          ⊎ ((0 < length leaves)
              × (all c.valid_hex leaves ≡ true)
              × ((root : String) × IsTree c.digest (nodes_of c leaves) root
                  × (merkle_root c leaves ≡ ok (c.to_hex root)))))
unfolding merkle_root
merkle_root-total c [] = inl (refl, refl)
merkle_root-total c (a ∷ l) = elim (Bool-cases (all c.valid_hex (a ∷ l))) [
  | inr bad ↦ inr (inl (omega arith, bad, rw bad refl))
  | inl good ↦
      let (root, tree, done) = root_of_leaves c (a ∷ l) (omega arith) in
      inr (inr (omega arith, good, (root, tree, rw (good, done) refl)))
]
