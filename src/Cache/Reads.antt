-- ===== src/Cache/Reads.antt =====
-- The verified read: what a fetch may return, that a damaged cache never makes it fail, and that a
-- durable read fills the cache.
use acvjepa_project.Prelude.Int.{ℤ, pos, ◌+ℤ◌, ltb_ℤ, beq_ℤ_iff, int_eq}
use acvjepa_project.Prelude.Dict.{Dict, lookup, lookup-insert, beq_refl}
use acvjepa_project.Prelude.{
  string_eq, nat_eq, length, Result, ok, ◌≡◌, refl, sym, ap, ◌∙◌, subst, true, false, some, arith,
  eq_iff,
}
use acvjepa_project.Cache.{
  CommittedPointer, Durable, payload_matches, CacheEntry, CacheKey, key_eq, Cache, key_of, Source,
  from_cache, from_durable, fall_back, count_hit, fetch_verified,
}
use acvjepa_project.Cache.Types.{
  CacheError, Bytes, ByteHashing, ShardDescriptor, cache_key, CheckpointManifest,
}
use acvjepa_project.Cache.Steps.{
  IsCommitted, committed_key, fetch_committed, entry_of, fetch_hit, fetch-IsCommitted,
  fall_back-FallsBack, fall_back_succeeds, Way, served, missed, try_entry-Way,
}

-- The bytes have the declared length and digest.
pub record IsIntact (h : ByteHashing) (d : ShardDescriptor) (payload : Bytes) : Type 0 where
  pub size : pos (length payload) ≡ d.byte_count
  pub digest : h.sha256_bytes payload ≡ d.sha256

matches-IsIntact :
    (h : ByteHashing) (d : ShardDescriptor) (payload : Bytes)
    → payload_matches h d payload ≡ true
    → IsIntact h d payload
matches-IsIntact h d payload e =
    let i = beq_ℤ_iff (pos (length payload)) d.byte_count in
    let j = eq_iff (h.sha256_bytes payload) d.sha256 in
    record { size = ground (arith, i, j); digest = ground (arith, i, j) }

IsIntact-matches :
    (h : ByteHashing) (d : ShardDescriptor) (payload : Bytes)
    → IsIntact h d payload
    → payload_matches h d payload ≡ true
IsIntact-matches h d payload intact =
    let i = beq_ℤ_iff (pos (length payload)) d.byte_count in
    let j = eq_iff (h.sha256_bytes payload) d.sha256 in
    let a = intact.size in let b = intact.digest in ground (arith, i, j)

abbrev Outcome : Type 0
Outcome = Result CacheError (Bytes × Source) × Cache

outcome_of :
    (r : Outcome) (a b : Bytes) (x y : Source) (s : Cache)
    → r ≡ (ok (a, x), s)
    → r.0 ≡ ok (b, y)
    → (a ≡ b) × (y ≡ x)
outcome_of r a b x y s e q = (ground arith, ground arith)

module _ (h : ByteHashing) (p : CommittedPointer) (m : CheckpointManifest) (d : ShardDescriptor)
    (store : Durable) (now : ℤ) (s : Cache) where
  fetch-Way :
      IsCommitted h p m d
      → Way h d (fall_back h m.contract d store now) s (fetch_verified h p m d store now s)
  fetch-Way i = rw (fetch_committed h p m d store now s i) (
      try_entry-Way h d (key_of m.contract d) now (fall_back h m.contract d store now)
        (lookup (key_of m.contract d) s.entries) s)

  -- Whatever the cache holds, damaged entries included: a read that succeeds is of a shard declared
  -- by the manifest of the committed pointer, and returns bytes of the declared length and digest;
  -- those that come from the durable store are the bytes that it holds.
  pub fetch_only_verified :
      (payload : Bytes) (source : Source)
      → (fetch_verified h p m d store now s).0 ≡ ok (payload, source)
      → IsCommitted h p m d
        × IsIntact h d payload
        × (source ≡ from_durable → lookup (cache_key d) store ≡ some payload)
  fetch_only_verified payload source e =
      let i = fetch-IsCommitted h p m d store now s (payload, source) e in
      elim (fetch-Way i) [
        | served x fits r ↦
            let (same, cached) = outcome_of _ x payload from_cache source (count_hit s) r e in
            (
              i,
              matches-IsIntact h d payload (subst (λ y. payload_matches h d y ≡ true) same fits),
              λ durable. absurd (ground arith),
            )
        | missed s' ttl r ↦
            let f =
              fall_back-FallsBack h m.contract d store now s' payload source
                (committed_key h p m d i) (sym (ap (λ (x : Outcome). x.0) r) ∙ e) in
            (i, matches-IsIntact h d payload f.verified, λ durable. f.stored)
      ]

  -- A damaged cache never makes a read fail: for a committed shard that the durable store holds
  -- intact, the read returns verified bytes from every state of the cache at every time.
  pub fetch_never_fails :
      (stored : Bytes)
      → IsCommitted h p m d
      → lookup (cache_key d) store ≡ some stored
      → IsIntact h d stored
      → (payload : Bytes) × (source : Source) × ((fetch_verified h p m d store now s).0
          ≡ ok (payload, source))
        × IsIntact h d payload
  fetch_never_fails stored i found intact = elim (fetch-Way i) [
    | served payload ok_payload e ↦
        (payload, from_cache, ap (λ (r : Outcome). r.0) e, matches-IsIntact h d payload ok_payload)
    | missed s' ttl e ↦ (
      stored,
      from_durable,
      ap (λ (r : Outcome). r.0) e
          ∙ fall_back_succeeds h m.contract d store now s' stored (committed_key h p m d i) found
              (IsIntact-matches h d stored intact),
      intact,
    )
  ]

  -- A read from the durable store fills the cache: until its lifetime has passed, reading the shard
  -- again returns the same bytes from the cache, whatever has become of the durable store.
  pub fetch_again :
      (later : ℤ) (store' : Durable) (payload : Bytes)
      → (fetch_verified h p m d store now s).0 ≡ ok (payload, from_durable)
      → ltb_ℤ (now +ℤ s.ttl_ns) later ≡ false
      → (fetch_verified h p m d store' later (fetch_verified h p m d store now s).1).0
        ≡ ok (payload, from_cache)
  fetch_again later store' payload e fresh =
      let i = fetch-IsCommitted h p m d store now s (payload, from_durable) e in
      elim (fetch-Way i) [
        | served x fits r ↦
            let (same, cached) = outcome_of _ x payload from_cache from_durable (count_hit s) r e in
            absurd (ground arith)
        | missed s' ttl r ↦
            let f =
              fall_back-FallsBack h m.contract d store now s' payload from_durable
                (committed_key h p m d i) (sym (ap (λ (x : Outcome). x.0) r) ∙ e) in
            let until = now +ℤ s'.ttl_ns in
            let cached : lookup (key_of m.contract d) (fetch_verified h p m d store now s).1.entries
                ≡ some (entry_of payload until) =
              ap (λ (x : Outcome). lookup (key_of m.contract d) x.1.entries) r
              ∙ ap (λ (x : Dict CacheKey CacheEntry). lookup (key_of m.contract d) x) f.cached
              ∙ lookup-insert (key_of m.contract d) (key_of m.contract d) (entry_of payload until)
                  s'.entries
              ∙ rw (beq_refl (key_of m.contract d)) refl in
            fetch_hit h p m d store' later until payload _ i cached
              (subst (λ x. ltb_ℤ (now +ℤ x) later ≡ false) (sym ttl) fresh) f.verified
      ]
