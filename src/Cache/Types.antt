-- ===== src/Cache/Types.antt =====
-- The values of verified_checkpoint_cache.py: contracts, shard descriptors and manifests, with their
-- validation, keys and digests.
use acvjepa_project.Prelude.Int.{ℤ, pos, ltb_ℤ, int_eq}
use acvjepa_project.Prelude.Json.{Json, str, int, arr, obj, Items, nil, cons, end, field}
use acvjepa_project.Prelude.Text.{is_sha256_hex, concat}
use acvjepa_project.Prelude.Hashing.{Hashing, digest_of}
use acvjepa_project.Prelude.{
  if◌then◌else◌, string_eq, nat_eq, ◌==◌, is_empty, distinct, Result, ok, err, check, ℕ, String,
  Bool, ◌&&◌, ◌||◌, List, [], ◌∷◌,
}

-- Every message of `CacheContractError`, and the `ValueError`s.
pub data CacheError : Type 0 where
  contract_incomplete invalid_contract_hash invalid_descriptor invalid_shard_hash : CacheError
  no_shards duplicate_shard no_pointer negative_step revision_changed : CacheError
  durable_mismatch durable_missing not_current_pointer undeclared_descriptor : CacheError
  integrity_failed nothing_to_corrupt invalid_ttl invalid_inflight : CacheError

-- `bytes`, one number for each byte.
abbrev pub Bytes : Type 0
Bytes = List ℕ

-- `hashlib.sha256(payload).hexdigest()` on raw bytes, beside the digest of encoded values.
pub record ByteHashing : Type 0 where
  pub values : Hashing
  pub sha256_bytes : Bytes → String

pub record CheckpointCacheContract : Type 0 where
  pub namespace : String
  pub checkpoint_hash : String
  pub precision_contract_hash : String
  pub dataset_commit : String
  pub manifest_digest : String

-- `CheckpointCacheContract.validate`
unfoldable pub validate_contract : CheckpointCacheContract → Result CacheError (Unit {0})
validate_contract c =
    if c.namespace == "" || c.dataset_commit == ""
    then err contract_incomplete
    else check
        (is_sha256_hex c.checkpoint_hash
          && is_sha256_hex c.precision_contract_hash
          && is_sha256_hex c.manifest_digest)
        invalid_contract_hash

pub record ShardDescriptor : Type 0 where
  pub component : String
  pub shard_id : String
  pub sha256 : String
  pub byte_count : ℤ

-- `ShardDescriptor.cache_key`
unfoldable pub cache_key : ShardDescriptor → String
cache_key d = concat d.component (concat ":" (concat d.shard_id (concat ":" d.sha256)))

-- `ShardDescriptor.validate`
unfoldable pub validate_shard : ShardDescriptor → Result CacheError (Unit {0})
validate_shard d =
    if d.component == "" || d.shard_id == "" || ltb_ℤ d.byte_count (pos 0)
    then err invalid_descriptor
    else check (is_sha256_hex d.sha256) invalid_shard_hash

-- Equality of the dataclass, field by field.
abbrev pub shard_beq : ShardDescriptor → ShardDescriptor → Bool
shard_beq a b =
    a.component == b.component
    && a.shard_id == b.shard_id
    && a.sha256 == b.sha256
    && a.byte_count == b.byte_count

pub record CheckpointManifest : Type 0 where
  pub contract : CheckpointCacheContract
  pub shards : List ShardDescriptor
  pub created_ns : ℤ

abbrev pub validate_shards : List ShardDescriptor → Result CacheError (Unit {0})
validate_shards [] = ok tt
validate_shards (d ∷ ds) =
    let rest = validate_shards ds in elim (validate_shard d) [ ok _ ↦ rest | err e ↦ err e ]

abbrev pub cache_keys : List ShardDescriptor → List String
cache_keys [] = []
cache_keys (d ∷ ds) = cache_key d ∷ cache_keys ds

-- `CheckpointManifest.validate`
unfoldable pub validate_checkpoint_manifest : CheckpointManifest → Result CacheError (Unit {0})
validate_checkpoint_manifest m = elim (validate_contract m.contract) [
  | err e ↦ err e
  | ok _ ↦ if is_empty m.shards then err no_shards else elim (validate_shards m.shards) [
    | err e ↦ err e
    | ok _ ↦ check (distinct (cache_keys m.shards)) duplicate_shard
  ]
]

abbrev pub contract_json : CheckpointCacheContract → Json
contract_json c = obj (
    field "namespace" (str c.namespace) (
      field "checkpoint_hash" (str c.checkpoint_hash) (
        field "precision_contract_hash" (str c.precision_contract_hash) (
          field "dataset_commit" (str c.dataset_commit)
            (field "manifest_digest" (str c.manifest_digest) end)))))

abbrev pub shards_json : List ShardDescriptor → Items
shards_json [] = nil
shards_json (d ∷ ds) =
    cons
      (obj (
        field "component" (str d.component) (
          field "shard_id" (str d.shard_id)
            (field "sha256" (str d.sha256) (field "byte_count" (int d.byte_count) end)))))
      (shards_json ds)

-- `CheckpointManifest.digest`
unfoldable pub checkpoint_manifest_digest :
    ByteHashing → CheckpointManifest → Result CacheError String
checkpoint_manifest_digest h m = elim (validate_checkpoint_manifest m) [
  | err e ↦ err e
  | ok _ ↦ ok (
      digest_of h.values (
        obj (
          field "contract" (contract_json m.contract) (
            field "shards" (arr (shards_json m.shards))
              (field "created_ns" (int m.created_ns) end)))))
]
