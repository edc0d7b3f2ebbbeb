-- ===== src/Cache/Steps.antt =====
-- How a verified read goes: the entry of the shard's key, then the durable store.
use acvjepa_project.Prelude.Int.{ℤ, ◌+ℤ◌, ltb_ℤ, beq_ℤ_iff, int_eq}
use acvjepa_project.Prelude.Dict.{lookup, insert}
use acvjepa_project.Prelude.{
  Bool-cases, string_eq, nat_eq, any, Result, ok, Result-cases, ◌≡◌, refl, sym, ap, ◌∙◌, subst, inl,
  inr, true, false, Option, none, some, List, [], ◌∷◌, arith, eq_iff, eq_refl,
}
use acvjepa_project.Cache.{
  CommittedPointer, Durable, payload_matches, durable_get, CacheEntry, CacheKey, key_eq, Cache,
  Action, key_of, entry_key, put_verified, Source, from_cache, from_durable, fall_back,
  drop_expired, drop_corrupt, count_hit, try_entry, fetch_verified,
}
use acvjepa_project.Cache.Types.{
  CacheError, Bytes, ByteHashing, CheckpointCacheContract, validate_contract, ShardDescriptor,
  cache_key, validate_shard, shard_beq, CheckpointManifest, validate_shards,
  validate_checkpoint_manifest, checkpoint_manifest_digest,
}

-- The shard is one of the manifest that the committed pointer names.
pub record IsCommitted (h : ByteHashing) (p : CommittedPointer) (m : CheckpointManifest)
    (d : ShardDescriptor) : Type 0 where
  pub valid : validate_checkpoint_manifest m ≡ ok tt
  pub checkpoint : p.checkpoint_hash ≡ m.contract.checkpoint_hash
  pub digest : checkpoint_manifest_digest h m ≡ ok p.manifest_digest
  pub declared : any (shard_beq d) m.shards ≡ true

pub same_shard : (a b : ShardDescriptor) → shard_beq a b ≡ true → a ≡ b
same_shard a b e =
    let i = eq_iff a.component b.component in
    let j = eq_iff a.shard_id b.shard_id in
    let k = eq_iff a.sha256 b.sha256 in
    let l = beq_ℤ_iff a.byte_count b.byte_count in ground (arith, i, j, k, l)

pub declared-valid :
    (d : ShardDescriptor) (ds : List ShardDescriptor)
    → any (shard_beq d) ds ≡ true
    → validate_shards ds ≡ ok tt
    → validate_shard d ≡ ok tt
declared-valid d [] e v = absurd (ground arith)
declared-valid d (x ∷ ds) e v = elim (Bool-cases (shard_beq d x)) [
  | inl same ↦ subst (λ y. validate_shard y ≡ ok tt) (sym (same_shard d x same)) (head_valid v)
  | inr other ↦ declared-valid d ds (rw other at e) (tail_valid v)
]
  where
    head_valid : validate_shards (x ∷ ds) ≡ ok tt → validate_shard x ≡ ok tt
    head_valid v = ground arith

    tail_valid : validate_shards (x ∷ ds) ≡ ok tt → validate_shards ds ≡ ok tt
    tail_valid v = ground arith

-- The key of a committed shard is never refused.
pub committed_key :
    (h : ByteHashing) (p : CommittedPointer) (m : CheckpointManifest) (d : ShardDescriptor)
    → IsCommitted h p m d
    → entry_key m.contract d ≡ ok (key_of m.contract d)
unfolding entry_key validate_checkpoint_manifest
committed_key h p m d i =
    let (contract, shards) = parts i.valid in
    rw (entry_key, contract, declared-valid d m.shards i.declared shards) refl
  where
    parts :
        validate_checkpoint_manifest m ≡ ok tt
        → (validate_contract m.contract ≡ ok tt) × (validate_shards m.shards ≡ ok tt)
    parts v = ground arith

-- A committed shard is looked up in the cache, then read from the durable store.
pub fetch_committed :
    (h : ByteHashing) (p : CommittedPointer) (m : CheckpointManifest) (d : ShardDescriptor)
    (store : Durable) (now : ℤ) (s : Cache)
    → IsCommitted h p m d
    → fetch_verified h p m d store now s
      ≡ try_entry h d
          (key_of m.contract d)
          now
          (fall_back h m.contract d store now)
          (lookup (key_of m.contract d) s.entries)
          s
unfolding fetch_verified
fetch_committed h p m d store now s i =
    let key = committed_key h p m d i in
    rw
      (
        i.valid,
        i.digest,
        i.checkpoint,
        i.declared,
        key,
        eq_refl m.contract.checkpoint_hash,
        eq_refl p.manifest_digest,
      )
      refl

abbrev pub entry_of : Bytes → ℤ → CacheEntry
entry_of payload until = record { payload = payload; expires_ns = until }

-- A verified entry that has not expired is served.
pub fetch_hit :
    (h : ByteHashing) (p : CommittedPointer) (m : CheckpointManifest) (d : ShardDescriptor)
    (store : Durable) (now until : ℤ) (payload : Bytes) (s : Cache)
    → IsCommitted h p m d
    → lookup (key_of m.contract d) s.entries ≡ some (entry_of payload until)
    → ltb_ℤ until now ≡ false
    → payload_matches h d payload ≡ true
    → (fetch_verified h p m d store now s).0 ≡ ok (payload, from_cache)
fetch_hit h p m d store now until payload s i found fresh fits =
    ap (λ (r : Result CacheError (Bytes × Source) × Cache). r.0)
      (fetch_committed h p m d store now s i
        ∙ ap
            (λ (x : Option CacheEntry).
              try_entry h d (key_of m.contract d) now (fall_back h m.contract d store now) x s)
            found)
    ∙ rw (fresh, fits) refl

-- Only a committed shard is read.
pub fetch-IsCommitted :
    (h : ByteHashing) (p : CommittedPointer) (m : CheckpointManifest) (d : ShardDescriptor)
    (store : Durable) (now : ℤ) (s : Cache) (out : Bytes × Source)
    → (fetch_verified h p m d store now s).0 ≡ ok out
    → IsCommitted h p m d
unfolding fetch_verified
fetch-IsCommitted h p m d store now s out e = record {
  valid = ground arith;
  checkpoint = ground (arith, eq_iff p.checkpoint_hash m.contract.checkpoint_hash);
  digest = elim (Result-cases (checkpoint_manifest_digest h m)) [
    | inl (x, q) ↦
        let i = eq_iff p.manifest_digest x in let y : p.manifest_digest ≡ x = ground arith in rw y q
    | inr (x, q) ↦ absurd (ground arith)
  ];
  declared = ground arith;
}

-- A read that falls back and succeeds returns what the store holds, verified, and caches it.
pub record FallsBack (h : ByteHashing) (c : CheckpointCacheContract) (d : ShardDescriptor)
    (store : Durable) (now : ℤ) (s : Cache) (payload : Bytes) (source : Source) : Type 0 where
  pub durable : source ≡ from_durable
  pub stored : lookup (cache_key d) store ≡ some payload
  pub verified : payload_matches h d payload ≡ true
  pub cached :
      (fall_back h c d store now s).1.entries
      ≡ insert (key_of c d) (record { payload = payload; expires_ns = now +ℤ s.ttl_ns }) s.entries

pub fall_back-FallsBack :
    (h : ByteHashing) (c : CheckpointCacheContract) (d : ShardDescriptor) (store : Durable)
    (now : ℤ) (s : Cache) (payload : Bytes) (source : Source)
    → entry_key c d ≡ ok (key_of c d)
    → (fall_back h c d store now s).0 ≡ ok (payload, source)
    → FallsBack h c d store now s payload source
unfolding fall_back put_verified durable_get
fall_back-FallsBack h c d store now s payload source key e = record {
  durable = ground arith;
  stored = ground arith;
  verified = ground arith;
  cached = ground arith;
}

-- The store has the shard: falling back succeeds from every state of the cache.
pub fall_back_succeeds :
    (h : ByteHashing) (c : CheckpointCacheContract) (d : ShardDescriptor) (store : Durable)
    (now : ℤ) (s : Cache) (stored : Bytes)
    → entry_key c d ≡ ok (key_of c d)
    → lookup (cache_key d) store ≡ some stored
    → payload_matches h d stored ≡ true
    → (fall_back h c d store now s).0 ≡ ok (stored, from_durable)
unfolding fall_back put_verified durable_get
fall_back_succeeds h c d store now s stored key found fits = ground arith

-- The two ways of a read: from the cache, or back to the store from a state with the same lifetime.
pub data Way (h : ByteHashing) (d : ShardDescriptor) (rest : Action (Bytes × Source)) (s : Cache)
    (r : Result CacheError (Bytes × Source) × Cache) : Type 0 where
  served :
      (payload : Bytes)
      → payload_matches h d payload ≡ true
      → r ≡ (ok (payload, from_cache), count_hit s)
      → Way h d rest s r
  missed : (s' : Cache) → s'.ttl_ns ≡ s.ttl_ns → r ≡ rest s' → Way h d rest s r

pub try_entry-Way :
    (h : ByteHashing) (d : ShardDescriptor) (key : CacheKey) (now : ℤ)
    (rest : Action (Bytes × Source)) (entry : Option CacheEntry) (s : Cache)
    → Way h d rest s (try_entry h d key now rest entry s)
try_entry-Way h d key now rest none s = missed s refl refl
try_entry-Way h d key now rest (some entry) s = elim (Bool-cases (ltb_ℤ entry.expires_ns now)) [
  | inl late ↦ rw late (missed (drop_expired key s) refl refl)
  | inr fresh ↦ elim (Bool-cases (payload_matches h d entry.payload)) [
    | inl fits ↦ rw (fresh, fits) (served entry.payload fits refl)
    | inr damaged ↦ rw (fresh, damaged) (missed (drop_corrupt key s) refl refl)
  ]
]
