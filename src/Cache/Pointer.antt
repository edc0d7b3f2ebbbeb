-- ===== src/Cache/Pointer.antt =====
-- The compare-and-swap of the committed pointer: revisions only grow, and of the publications that
-- expect one revision a single one succeeds.
use acvjepa_project.Prelude.Int.{ℤ, pos, pos_part, beq_ℤ_iff, int_eq}
use acvjepa_project.Prelude.Dict.{lookup, insert, lookup-insert}
use acvjepa_project.Prelude.{
  if◌then◌else◌, Bool-cases, string_eq, nat_eq, ◌==◌, ok, err, Exec, Result-cases, ℕ, ◌+◌, ◌≤◌,
  String, ◌≡◌, sym, ap, ◌∙◌, subst, ◌↔◌, inl, inr, true, some, List, [], ◌∷◌, arith, eq_iff,
  eq_refl,
}
use acvjepa_project.Cache.{CommittedPointer, Pointers, revision_of, compare_and_swap, key_eq}
use acvjepa_project.Cache.Types.{CacheError, ByteHashing, CheckpointManifest}

-- A call of `compare_and_swap`.
pub record Publication : Type 0 where
  pub run_key : String
  pub expected_revision : ℤ
  pub manifest : CheckpointManifest
  pub committed_step : ℤ

unfoldable pub publish : ByteHashing → Publication → Exec CacheError Pointers CommittedPointer
publish h p = compare_and_swap h p.run_key p.expected_revision p.manifest p.committed_step

unfoldable pub publish_all : ByteHashing → List Publication → Pointers → Pointers
publish_all h [] kv = kv
publish_all h (p ∷ ps) kv = publish_all h ps (publish h p kv).1

abbrev pub revision_at : String → Pointers → ℕ
revision_at key kv = revision_of (lookup key kv)

-- A publication succeeds at the expected revision only, and writes one pointer with the next one.
publish-ok :
    (h : ByteHashing) (p : Publication) (kv : Pointers) (c : CommittedPointer)
    → (publish h p kv).0 ≡ ok c
    → (pos (revision_at p.run_key kv) ≡ p.expected_revision)
      × (c.revision ≡ revision_at p.run_key kv + 1)
      × ((publish h p kv).1 ≡ insert p.run_key c kv)
unfolding publish compare_and_swap
publish-ok h p kv c e =
    let iff = beq_ℤ_iff (pos (revision_at p.run_key kv)) p.expected_revision in
    (ground (arith, iff), ground arith, ground arith)

publish-err :
    (h : ByteHashing) (p : Publication) (kv : Pointers) (e : CacheError)
    → (publish h p kv).0 ≡ err e
    → (publish h p kv).1 ≡ kv
unfolding publish compare_and_swap
publish-err h p kv e q = ground arith

-- A publication never lowers a revision.
publish-revision_at :
    (h : ByteHashing) (key : String) (p : Publication) (kv : Pointers)
    → revision_at key kv ≤ revision_at key (publish h p kv).1
publish-revision_at h key p kv = elim (Result-cases (publish h p kv).0) [
  | inl (c, e) ↦
      let (expects, next, written) = publish-ok h p kv c e in
      rw (written, lookup-insert p.run_key key c kv) (raised c next (eq_iff p.run_key key))
  | inr (x, e) ↦ rw (publish-err h p kv x e) (omega arith)
]
  where
    raised :
        (c : CommittedPointer)
        → c.revision ≡ revision_at p.run_key kv + 1
        → ((p.run_key == key ≡ true) ↔ (p.run_key ≡ key))
        → revision_at key kv ≤ revision_of (if p.run_key == key then some c else lookup key kv)
    raised c next same = elim (Bool-cases (p.run_key == key)) [
      | inl here ↦
          let older : revision_at p.run_key kv ≡ revision_at key kv =
            ap (λ (k : String). revision_at k kv) (same.0 here) in
          rw here (omega (arith, next, older))
      | inr there ↦ rw there (omega arith)
    ]

publish_all-revision_at :
    (h : ByteHashing) (key : String) (ps : List Publication) (kv : Pointers)
    → revision_at key kv ≤ revision_at key (publish_all h ps kv)
unfolding publish_all
publish_all-revision_at h key [] kv = omega arith
publish_all-revision_at h key (p ∷ ps) kv =
    omega
      (arith, publish-revision_at h key p kv, publish_all-revision_at h key ps (publish h p kv).1)

-- Publications that expect one revision exclude each other: once one has succeeded for a run,
-- whatever is published after it, every other that expects the same revision of that run, with any
-- manifest and step, raises and changes no pointer.
pub one_publication_wins :
    (h : ByteHashing) (p q : Publication) (ps : List Publication) (kv : Pointers)
    (c : CommittedPointer)
    → (publish h p kv).0 ≡ ok c
    → q.run_key ≡ p.run_key
    → q.expected_revision ≡ p.expected_revision
    → let kv' = publish_all h ps (publish h p kv).1 in
      ((e : CacheError) × ((publish h q kv').0 ≡ err e)) × ((publish h q kv').1 ≡ kv')
one_publication_wins h p q ps kv c done same_key same_revision =
    elim (Result-cases (publish h q (publish_all h ps (publish h p kv).1)).0) [
      | inl (d, again) ↦ absurd (second_time d again)
      | inr (e, q) ↦ ((e, q), publish-err h _ _ e q)
    ]
  where
    second_time :
        (d : CommittedPointer) → (publish h q (publish_all h ps (publish h p kv).1)).0 ≡ ok d → ⊥
    second_time d again =
        let (expects, next, written) = publish-ok h p kv c done in
        let (expects', next', written') =
          publish-ok h q (publish_all h ps (publish h p kv).1) d again in
        let now : revision_at p.run_key (publish h p kv).1 ≡ c.revision =
          rw (written, lookup-insert p.run_key p.run_key c kv, eq_refl p.run_key) in
        let later = publish_all-revision_at h p.run_key ps (publish h p kv).1 in
        let equal : pos (revision_at p.run_key (publish_all h ps (publish h p kv).1))
            ≡ pos (revision_at p.run_key kv) =
          subst
            (λ k.
              pos (revision_at k (publish_all h ps (publish h p kv).1))
              ≡ pos (revision_at p.run_key kv))
            same_key (expects' ∙ same_revision ∙ sym expects) in
        let values = ap pos_part equal in absurd (omega (arith, now, later, next, values))
