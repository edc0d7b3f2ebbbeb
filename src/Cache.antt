-- ===== src/Cache.antt =====
-- verified_checkpoint_cache.py: the compare-and-swap pointer, the durable store and the verified
-- read-through cache. Each of the three dictionaries is a state of its own; the time is an argument.
pub mod Types
pub mod Pointer
pub mod Steps
pub mod Reads
pub mod LoadPlan
mod Tests
use acvjepa_project.Prelude.Int.{ℤ, pos, pos_part, ◌+ℤ◌, ltb_ℤ, leb_ℤ, int_eq}
use acvjepa_project.Prelude.Text.{concat}
use acvjepa_project.Prelude.Dict.{Dict, lookup, insert, erase}
use acvjepa_project.Prelude.{
  if◌then◌else◌, Eq, string_eq, nat_eq, ◌==◌, length, any, Result, ok, err, Exec, pure, gets, lift,
  or_raise, ◌>>=◌, ◌>>◌, raise_if, modify, check, ℕ, ◌+◌, ◌%◌, String, ◌≡◌, ◌↔◌, Bool, true, not,
  ◌&&◌, Option, none, some, List, [], ◌∷◌, arith, eq_iff,
}
use acvjepa_project.Cache.Types.{
  CacheError, no_pointer, negative_step, revision_changed, durable_mismatch, durable_missing,
  not_current_pointer, undeclared_descriptor, integrity_failed, nothing_to_corrupt, invalid_ttl,
  invalid_inflight, Bytes, ByteHashing, CheckpointCacheContract, validate_contract, ShardDescriptor,
  cache_key, validate_shard, shard_beq, CheckpointManifest, validate_checkpoint_manifest,
  checkpoint_manifest_digest,
}

pub record CommittedPointer : Type 0 where
  pub revision : ℕ
  pub checkpoint_hash : String
  pub manifest_digest : String
  pub committed_step : ℤ

abbrev pub Pointers : Type 0
Pointers = Dict String CommittedPointer

-- `InMemoryStrongCommitKV.get_linearizable`
unfoldable pub get_linearizable : String → Pointers → Result CacheError CommittedPointer
get_linearizable key kv = elim (lookup key kv) [ some p ↦ ok p | none ↦ err no_pointer ]

-- `actual = 0 if old is None else old.revision`
abbrev pub revision_of : Option CommittedPointer → ℕ
revision_of none = 0
revision_of (some p) = p.revision

-- `InMemoryStrongCommitKV.compare_and_swap`
unfoldable pub compare_and_swap :
    ByteHashing → String → ℤ → CheckpointManifest → ℤ → Exec CacheError Pointers CommittedPointer
compare_and_swap h key expected m step = do
  lift (validate_checkpoint_manifest m)
  raise_if (ltb_ℤ step (pos 0)) negative_step
  actual ← gets (λ kv. revision_of (lookup key kv))
  raise_if (not (pos actual == expected)) revision_changed
  d ← lift (checkpoint_manifest_digest h m)
  let pointer : CommittedPointer = record {
    revision = actual + 1;
    checkpoint_hash = m.contract.checkpoint_hash;
    manifest_digest = d;
    committed_step = step;
  }
  modify (λ kv. insert key pointer kv)
  pure pointer

abbrev pub Durable : Type 0
Durable = Dict String Bytes

-- `len(payload) == byte_count and sha256_bytes(payload) == sha256`
abbrev pub payload_matches : ByteHashing → ShardDescriptor → Bytes → Bool
payload_matches h d payload =
    pos (length payload) == d.byte_count && h.sha256_bytes payload == d.sha256

-- `DurableShardStore.put` and `.get`
unfoldable pub durable_put :
    ByteHashing → ShardDescriptor → Bytes → Exec CacheError Durable (Unit {0})
durable_put h d payload = do
  lift (validate_shard d)
  raise_if (not (payload_matches h d payload)) durable_mismatch
  modify (λ store. insert (cache_key d) payload store)

unfoldable pub durable_get : ShardDescriptor → Durable → Result CacheError Bytes
durable_get d store = elim (lookup (cache_key d) store) [
  | some payload ↦ ok payload
  | none ↦ err durable_missing
]

pub record CacheEntry : Type 0 where
  pub payload : Bytes
  pub expires_ns : ℤ

abbrev pub CacheKey : Type 0
CacheKey = String × String

abbrev pub key_beq : CacheKey → CacheKey → Bool
key_beq (a, b) (c, d) = a == c && b == d

pub key_beq_iff : (j k : CacheKey) → (key_beq j k ≡ true) ↔ (j ≡ k)
key_beq_iff (a, b) (c, d) = ground (arith, eq_iff a c, eq_iff b d)

instance abbrev pub key_eq : Eq CacheKey
key_eq = record { same = key_beq; same_iff = key_beq_iff }

pub record Stats : Type 0 where
  pub hit : ℕ
  pub miss : ℕ
  pub corrupt : ℕ
  pub expired : ℕ
  pub durable_fallback : ℕ

pub record Cache : Type 0 where
  pub ttl_ns : ℤ
  pub entries : Dict CacheKey CacheEntry
  pub stats : Stats

abbrev pub Action : Type 0 → Type 0
Action = Exec CacheError Cache

-- `VerifiedReadThroughCache.__init__`, on the lifetime in nanoseconds.
unfoldable pub create : ℤ → Result CacheError Cache
create ttl =
    if leb_ℤ ttl (pos 0)
    then err invalid_ttl
    else ok (record {
      ttl_ns = ttl;
      entries = [];
      stats = record { hit = 0; miss = 0; corrupt = 0; expired = 0; durable_fallback = 0 };
    })

-- What `_key` returns where both validations pass.
abbrev pub key_of : CheckpointCacheContract → ShardDescriptor → CacheKey
key_of c d = (
  concat c.namespace (concat ":" (concat c.precision_contract_hash (concat ":" c.checkpoint_hash))),
  cache_key d,
)

-- `_key`
unfoldable pub entry_key : CheckpointCacheContract → ShardDescriptor → Result CacheError CacheKey
entry_key c d = elim (validate_contract c) [
  | err e ↦ err e
  | ok _ ↦ elim (validate_shard d) [ err e ↦ err e | ok _ ↦ ok (key_of c d) ]
]

-- `_verify_payload`
abbrev pub verify_payload : ByteHashing → ShardDescriptor → Bytes → Result CacheError (Unit {0})
verify_payload h d payload = check (payload_matches h d payload) integrity_failed

unfoldable pub put_verified :
    ByteHashing → CheckpointCacheContract → ShardDescriptor → Bytes → ℤ → Action (Unit {0})
put_verified h c d payload now = do
  lift (verify_payload h d payload)
  key ← lift (entry_key c d)
  modify (λ s. record s {
    entries = insert key (record { payload = payload; expires_ns = now +ℤ s.ttl_ns }) s.entries;
  })

pub data Source : Type 0 where
  from_cache from_durable : Source

-- The part of `fetch_verified` after the cache had nothing to give.
unfoldable pub fall_back :
    ByteHashing → CheckpointCacheContract → ShardDescriptor → Durable → ℤ → Action (Bytes × Source)
unfolding put_verified
fall_back h c d store now = do
  modify (λ s. record s { stats = record s.stats { miss = s.stats.miss + 1 } })
  payload ← lift (durable_get d store)
  lift (verify_payload h d payload)
  modify
      (λ s. record s { stats = record s.stats { durable_fallback = s.stats.durable_fallback + 1 } })
  put_verified h c d payload now
  pure (payload, from_durable)

abbrev pub drop_expired : CacheKey → Cache → Cache
drop_expired key s = record s {
  stats = record s.stats { expired = s.stats.expired + 1 };
  entries = erase key s.entries;
}

abbrev pub drop_corrupt : CacheKey → Cache → Cache
drop_corrupt key s = record s {
  stats = record s.stats { corrupt = s.stats.corrupt + 1 };
  entries = erase key s.entries;
}

abbrev pub count_hit : Cache → Cache
count_hit s = record s { stats = record s.stats { hit = s.stats.hit + 1 } }

-- What the entry of the key leads to: `rest` is the way to the durable store.
abbrev pub try_entry :
    ByteHashing
    → ShardDescriptor
    → CacheKey
    → ℤ
    → Action (Bytes × Source)
    → Option CacheEntry
    → Action (Bytes × Source)
try_entry h d key now rest none s = rest s
try_entry h d key now rest (some entry) s =
    if ltb_ℤ entry.expires_ns now
    then rest (drop_expired key s)
    else if payload_matches h d entry.payload
    then (ok (entry.payload, from_cache), count_hit s)
    else rest (drop_corrupt key s)

unfoldable pub fetch_verified :
    ByteHashing
    → CommittedPointer
    → CheckpointManifest
    → ShardDescriptor
    → Durable
    → ℤ
    → Action (Bytes × Source)
fetch_verified h pointer m d store now = do
  lift (validate_checkpoint_manifest m)
  raise_if (not (pointer.checkpoint_hash == m.contract.checkpoint_hash)) not_current_pointer
  digest ← lift (checkpoint_manifest_digest h m)
  raise_if (not (pointer.manifest_digest == digest)) not_current_pointer
  raise_if (not (any (shard_beq d) m.shards)) undeclared_descriptor
  key ← lift (entry_key m.contract d)
  entry ← gets (λ s. lookup key s.entries)
  try_entry h d key now (fall_back h m.contract d store now) entry

-- `inject_corruption_for_test`
unfoldable pub inject_corruption :
    CheckpointCacheContract → ShardDescriptor → Bytes → Action (Unit {0})
inject_corruption c d corrupted = do
  key ← lift (entry_key c d)
  old ← or_raise (← gets (λ s. lookup key s.entries)) nothing_to_corrupt
  modify (λ s. record s { entries = insert key (record old { payload = corrupted }) s.entries })

-- `bounded_parallel_load_plan`, from the shard of number `index` on.
abbrev pub assign_slots : ℕ → ℕ → List ShardDescriptor → List (ℕ × ShardDescriptor)
assign_slots slots index [] = []
assign_slots slots index (d ∷ ds) = (index % slots, d) ∷ assign_slots slots (index + 1) ds

unfoldable pub bounded_parallel_load_plan :
    CheckpointManifest → ℤ → Result CacheError (List (ℕ × ShardDescriptor))
bounded_parallel_load_plan m max_inflight = elim (validate_checkpoint_manifest m) [
  | err e ↦ err e
  | ok _ ↦
      if leb_ℤ max_inflight (pos 0)
      then err invalid_inflight
      else ok (assign_slots (pos_part max_inflight) 0 m.shards)
]
