-- ===== src/Cache/Tests.antt =====
-- A checkpoint of two shards, its publications and reads, and each theorem at them.
use acvjepa_project.Prelude.Int.{pos, pos_part, ◌+ℤ◌, int_eq}
use acvjepa_project.Prelude.Json.{int, arr, obj, end, field}
use acvjepa_project.Prelude.Text.{code_points, is_hex_digit, is_sha256_hex}
use acvjepa_project.Prelude.Dict.{lookup}
use acvjepa_project.Prelude.Hashing.{digest_of, transparent}
use acvjepa_project.Prelude.{
  if◌then◌else◌, string_eq, nat_eq, ◌==◌, All, ok, err, ℕ, ◌-◌, ◌<◌, String, ◌≡◌, refl, some, [],
  ◌∷◌,
}
use acvjepa_project.Cache.{
  CommittedPointer, compare_and_swap, Durable, durable_get, key_eq, Cache, key_of, entry_key,
  put_verified, Source, from_cache, from_durable, fall_back, fetch_verified,
  bounded_parallel_load_plan,
}
use acvjepa_project.Cache.Types.{
  CacheError, Bytes, ByteHashing, CheckpointCacheContract, validate_contract, ShardDescriptor,
  cache_key, validate_shard, CheckpointManifest, validate_checkpoint_manifest, contract_json,
  shards_json, checkpoint_manifest_digest,
}
use acvjepa_project.Cache.Pointer.{Publication, publish, publish_all, one_publication_wins}
use acvjepa_project.Cache.Steps.{IsCommitted}
use acvjepa_project.Cache.Reads.{IsIntact, fetch_only_verified, fetch_never_fails, fetch_again}
use acvjepa_project.Cache.LoadPlan.{planned_shards, AreSpread, complete_plan}

abbrev hex : String
hex = "0123456789abcdef0123456789abcdef0123456789abcdef0123456789abcdef"

abbrev other_hex : String
other_hex = "f123456789abcdef0123456789abcdef0123456789abcdef0123456789abcdef"

-- Bytes that start with 1 have one digest and all others have another.
abbrev byte_digest : Bytes → String
byte_digest [] = other_hex
byte_digest (b ∷ bytes) = if b == 1 then hex else other_hex

abbrev hashing : ByteHashing
hashing = record { values = transparent; sha256_bytes = byte_digest }

abbrev contract : CheckpointCacheContract
contract = record {
  namespace = "isolated";
  checkpoint_hash = hex;
  precision_contract_hash = hex;
  dataset_commit = "dataset-demo";
  manifest_digest = hex;
}

abbrev model_shard : ShardDescriptor
model_shard = record { component = "model"; shard_id = "0"; sha256 = hex; byte_count = pos 2 }

abbrev ema_shard : ShardDescriptor
ema_shard = record { component = "ema"; shard_id = "0"; sha256 = other_hex; byte_count = pos 1 }

abbrev manifest : CheckpointManifest
manifest = record { contract = contract; shards = model_shard ∷ ema_shard ∷ []; created_ns = pos 3 }

abbrev digest_text : String
digest_text = digest_of hashing.values (
    obj (
      field "contract" (contract_json contract) (
        field "shards" (arr (shards_json manifest.shards)) (field "created_ns" (int (pos 3)) end))))

abbrev pointer : CommittedPointer
pointer = record {
  revision = 1;
  checkpoint_hash = hex;
  manifest_digest = digest_text;
  committed_step = pos 9;
}

abbrev publication : Publication
publication = record {
  run_key = "run-demo";
  expected_revision = pos 0;
  manifest = manifest;
  committed_step = pos 9;
}

abbrev next_publication : Publication
next_publication = record publication { expected_revision = pos 1; committed_step = pos 10 }

publishes : (publish hashing publication []).0 ≡ ok pointer
unfolding publish compare_and_swap checkpoint_manifest_digest validate_checkpoint_manifest
    validate_contract validate_shard cache_key is_sha256_hex code_points is_hex_digit
publishes = refl

one_publication_wins_example :
    let kv' = publish_all hashing (next_publication ∷ []) (publish hashing publication []).1 in
    ((e : CacheError) × ((publish hashing publication kv').0 ≡ err e))
    × ((publish hashing publication kv').1 ≡ kv')
one_publication_wins_example =
    one_publication_wins hashing publication publication (next_publication ∷ []) [] pointer
      publishes refl refl

abbrev empty_cache : Cache
empty_cache = record {
  ttl_ns = pos 10;
  entries = [];
  stats = record { hit = 0; miss = 0; corrupt = 0; expired = 0; durable_fallback = 0 };
}

abbrev stored_bytes : Bytes
stored_bytes = 1 ∷ 7 ∷ []

abbrev store : Durable
store =
    ("model:0:0123456789abcdef0123456789abcdef0123456789abcdef0123456789abcdef", stored_bytes) ∷ []

-- The cache holds damaged bytes for the shard.
abbrev damaged_cache : Cache
damaged_cache = record empty_cache {
  entries = (key_of contract model_shard, record { payload = 9 ∷ []; expires_ns = pos 50 }) ∷ [];
}

reads_store :
    (fetch_verified hashing pointer manifest model_shard store (pos 20) damaged_cache).0
    ≡ ok (stored_bytes, from_durable)
unfolding fetch_verified fall_back put_verified entry_key durable_get checkpoint_manifest_digest
    validate_checkpoint_manifest validate_contract validate_shard cache_key is_sha256_hex
    code_points is_hex_digit transparent
reads_store = refl

shard-IsCommitted : IsCommitted hashing pointer manifest model_shard
unfolding checkpoint_manifest_digest validate_checkpoint_manifest validate_contract validate_shard
    cache_key is_sha256_hex code_points is_hex_digit
shard-IsCommitted = record { valid = refl; checkpoint = refl; digest = refl; declared = refl }

fetch_only_verified_example :
    IsCommitted hashing pointer manifest model_shard
    × IsIntact hashing model_shard stored_bytes
    × (from_durable ≡ from_durable → lookup (cache_key model_shard) store ≡ some stored_bytes)
fetch_only_verified_example =
    fetch_only_verified hashing pointer manifest model_shard store (pos 20) damaged_cache
      stored_bytes from_durable reads_store

fetch_never_fails_example :
    (payload : Bytes) × (source : Source) × ((fetch_verified hashing pointer manifest model_shard
        store
        (pos 20)
        damaged_cache).0
      ≡ ok (payload, source))
    × IsIntact hashing model_shard payload
unfolding cache_key
fetch_never_fails_example =
    fetch_never_fails hashing pointer manifest model_shard store (pos 20) damaged_cache stored_bytes
      shard-IsCommitted refl (record { size = refl; digest = refl })

fetch_again_example :
    (fetch_verified hashing pointer manifest model_shard []
      (pos 25)
      (fetch_verified hashing pointer manifest model_shard store (pos 20) damaged_cache).1).0
    ≡ ok (stored_bytes, from_cache)
unfolding ◌+ℤ◌
fetch_again_example =
    fetch_again hashing pointer manifest model_shard store (pos 20) damaged_cache (pos 25) []
      stored_bytes reads_store refl

complete_plan_example :
    (validate_checkpoint_manifest manifest ≡ ok tt)
    × (planned_shards ((0, model_shard) ∷ (1, ema_shard) ∷ []) ≡ manifest.shards)
    × All
        (λ (a : ℕ × ShardDescriptor). a.0 < pos_part (pos 2))
        ((0, model_shard) ∷ (1, ema_shard) ∷ [])
    × AreSpread (pos_part (pos 2) - 1) ((0, model_shard) ∷ (1, ema_shard) ∷ [])
unfolding bounded_parallel_load_plan validate_checkpoint_manifest validate_contract validate_shard
    cache_key is_sha256_hex code_points is_hex_digit
complete_plan_example = complete_plan manifest (pos 2) ((0, model_shard) ∷ (1, ema_shard) ∷ []) refl
