-- ===== src/Audit/Contents.antt =====
-- Two chains of the audit ledger that end in one hash are made of the same hashed dictionaries.
use acvjepa_project.Prelude.Json.{Json, str, obj, end, field}
use acvjepa_project.Prelude.{
  length, length-append, All, ℕ, zero, suc, ◌+◌, ◌≤◌, String, ◌≡◌, refl, sym, ap, ◌∙◌, ◌≢◌, ◌⊎◌,
  inl, inr, List, [], ◌∷◌, ◌++◌, map, arith,
}
use acvjepa_project.Audit.Types.{Crypto, genesis_hash}
use acvjepa_project.Audit.{EventRow, AuditLedger, unsigned_json}
use acvjepa_project.Audit.Integrity.{row_hash}
use acvjepa_project.Audit.Chain.{IsGoodEvent, IsChained, end_hash}

-- The dictionary that is hashed of a stored event.
abbrev pub content : Crypto → EventRow → Json
content c r =
    unsigned_json c r.sequence r.case_id r.event_type r.payload r.root r.signer_id r.created_ns
      r.previous_event_hash

-- No two of these events share a hash without sharing their content.
abbrev pub HaveNoCollision : Crypto → List EventRow → List EventRow → Type 0
HaveNoCollision c rs qs =
    All (λ x. All (λ y. row_hash c x ≡ row_hash c y → content c x ≡ content c y) qs) rs

-- No event has the hash that stands before the first one.
abbrev pub AvoidGenesis : Crypto → List EventRow → Type 0
AvoidGenesis c rs = All (λ x. row_hash c x ≢ genesis_hash) rs

snoc_view :
    (l : List EventRow) → (l ≡ []) ⊎ ((k : List EventRow) × (r : EventRow) × (l ≡ k ++ r ∷ []))
snoc_view [] = inl refl
snoc_view (x ∷ l) = elim (snoc_view l) [
  | inl e ↦ inr ([], x, ap (λ (m : List EventRow). x ∷ m) e)
  | inr (k, r, e) ↦ inr (x ∷ k, r, ap (λ (m : List EventRow). x ∷ m) e)
]

end_hash-append :
    (p : String) (l : List EventRow) (r : EventRow) → end_hash p (l ++ r ∷ []) ≡ r.event_hash
end_hash-append p [] r = refl
end_hash-append p (x ∷ l) r = end_hash-append x.event_hash l r

chain_split :
    (c : Crypto) (s : AuditLedger) (n : ℕ) (p : String) (l : List EventRow) (r : EventRow)
    → IsChained c s n p (l ++ r ∷ [])
    → IsChained c s n p l × ((m : ℕ) × IsGoodEvent c s m (end_hash p l) r)
chain_split c s n p [] r (g, u) = (tt, (n, g))
chain_split c s n p (x ∷ l) r (g, gs) =
    let (init, final) = chain_split c s (n + 1) x.event_hash l r gs in ((g, init), final)

All-first : {A : Type 0} (P : A → Type 0) (l : List A) (x : A) → All P (l ++ x ∷ []) → All P l × P x
All-first P [] x (a, u) = (tt, a)
All-first P (y ∷ l) x (a, rest) = let (init, final) = All-first P l x rest in ((a, init), final)

abbrev previous_in : Json → String
previous_in
      (obj (
        field _ _ (
          field _ _ (
            field _ _ (
              field _ _ (field _ _ (field _ _ (field _ _ (field _ _ (field _ (str p) end)))))))))) =
    p
previous_in _ = ""

map-append :
    (f : EventRow → Json) (l : List EventRow) (r : EventRow)
    → map f (l ++ r ∷ []) ≡ map f l ++ f r ∷ []
map-append f [] r = refl
map-append f (x ∷ l) r = ap (λ (m : List Json). f x ∷ m) (map-append f l r)

All-drop_inner :
    (c : Crypto) (rs qs : List EventRow) (y : EventRow)
    → HaveNoCollision c rs (qs ++ y ∷ [])
    → HaveNoCollision c rs qs
All-drop_inner c [] qs y a = tt
All-drop_inner c (x ∷ rs) qs y (a, more) = ((All-first _ qs y a).0, All-drop_inner c rs qs y more)

-- Only the empty chain ends where it starts.
empty_at_genesis :
    (c : Crypto) (s : AuditLedger) (rs : List EventRow)
    → IsChained c s 1 genesis_hash rs
    → AvoidGenesis c rs
    → end_hash genesis_hash rs ≡ genesis_hash
    → rs ≡ []
empty_at_genesis c s rs chain avoid at = elim (snoc_view rs) [
  | inl e ↦ e
  | inr (k, r, e) ↦
      let (before, (m, good)) = chain_split c s 1 genesis_hash k r (rw e at chain) in
      let ends : end_hash genesis_hash (k ++ r ∷ []) ≡ genesis_hash = rw e at at in
      absurd (
        (All-first _ k r (rw e at avoid)).1
          (good.hashed ∙ sym (end_hash-append genesis_hash k r) ∙ ends))
]

length-snoc :
    (k : List EventRow) (r : EventRow) (n : ℕ) → length (k ++ r ∷ []) ≤ suc n → length k ≤ n
length-snoc k r n h = omega (arith, length-append k (r ∷ []))

same_snoc :
    (c : Crypto) (k l : List EventRow) (x y : EventRow)
    → map (content c) k ≡ map (content c) l
    → content c x ≡ content c y
    → map (content c) (k ++ x ∷ []) ≡ map (content c) (l ++ y ∷ [])
same_snoc c k l x y before equal =
    map-append (content c) k x
    ∙ ap (λ (m : List Json). m ++ content c x ∷ []) before
    ∙ ap (λ (z : Json). map (content c) l ++ z ∷ []) equal
    ∙ sym (map-append (content c) l y)

module _ (c : Crypto) (s t : AuditLedger) where
  -- Two chains that end in events of one hash end in one content, and so do the chains before them.
  last_content :
      (k l : List EventRow) (x y : EventRow)
      → IsChained c s 1 genesis_hash (k ++ x ∷ [])
      → IsChained c t 1 genesis_hash (l ++ y ∷ [])
      → HaveNoCollision c (k ++ x ∷ []) (l ++ y ∷ [])
      → end_hash genesis_hash (k ++ x ∷ []) ≡ end_hash genesis_hash (l ++ y ∷ [])
      → (content c x ≡ content c y) × (end_hash genesis_hash k ≡ end_hash genesis_hash l)
  last_content k l x y ok_k ok_l apart same =
      let (m, good_x) = (chain_split c s 1 genesis_hash k x ok_k).1 in
      let (n, good_y) = (chain_split c t 1 genesis_hash l y ok_l).1 in
      let hashes : row_hash c x ≡ row_hash c y =
        good_x.hashed
        ∙ sym (end_hash-append genesis_hash k x)
        ∙ same
        ∙ end_hash-append genesis_hash l y
        ∙ sym good_y.hashed in
      let equal = (All-first _ l y (All-first _ k x apart).1).1 hashes in
      (equal, sym good_x.linked ∙ ap previous_in equal ∙ good_y.linked)

  pub same_contents :
      (n : ℕ) (rs qs : List EventRow)
      → length rs ≤ n
      → IsChained c s 1 genesis_hash rs
      → IsChained c t 1 genesis_hash qs
      → AvoidGenesis c rs
      → AvoidGenesis c qs
      → HaveNoCollision c rs qs
      → end_hash genesis_hash rs ≡ end_hash genesis_hash qs
      → map (content c) rs ≡ map (content c) qs
  same_contents zero [] qs size ok_r ok_q new_r new_q apart same =
      rw (empty_at_genesis c t qs ok_q new_q (sym same)) refl
  same_contents zero (z ∷ rs) qs size ok_r ok_q new_r new_q apart same = absurd (omega arith)
  same_contents (suc n) rs qs size ok_r ok_q new_r new_q apart same = elim (snoc_view rs) [
    | inl e ↦
        let at : genesis_hash ≡ end_hash genesis_hash qs = rw e at same in
        rw (e, empty_at_genesis c t qs ok_q new_q (sym at)) refl
    | inr (k, x, e) ↦ elim (snoc_view qs) [
      | inl e' ↦
          let at : end_hash genesis_hash rs ≡ genesis_hash = rw e' at same in
          rw (e', empty_at_genesis c s rs ok_r new_r at) refl
      | inr (l, y, e') ↦
          let ok_k = rw e at ok_r in
          let ok_l = rw e' at ok_q in
          let apart' = rw (e, e') at apart in
          let (equal, ends) = last_content k l x y ok_k ok_l apart' (rw (e, e') at same) in
          let before =
            same_contents n k l (length-snoc k x n (rw e at size))
              (chain_split c s 1 genesis_hash k x ok_k).0
              (chain_split c t 1 genesis_hash l y ok_l).0 (All-first _ k x (rw e at new_r)).0
              (All-first _ l y (rw e' at new_q)).0
              (All-drop_inner c k l y (All-first _ k x apart').0) ends in
          rw (e, e') (same_snoc c k l x y before equal)
    ]
  ]
