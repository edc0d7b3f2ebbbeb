-- ===== src/Cursor/Storage.antt =====
-- The check of a checkpoint's bytes in elastic_data_cursor_ledger.py. What the operating system and
-- `urllib` answer is a parameter.
use acvjepa_project.Prelude.{
  if◌then◌else◌, string_eq, nat_eq, ◌==◌, Result, ok, err, check, String, Bool, ◌&&◌, Option, none,
  some,
}
use acvjepa_project.Prelude.Hashing.{Hashing}
use acvjepa_project.Cursor.Types.{
  CursorError, unreadable_checkpoint, checkpoint_mismatch, CheckpointArtifact,
}
use Prim.Native.Char.{code}
use text.Mathlib.Text.{starts_with}

pub record Files : Type 0 where
  -- `os.name == "nt"`
  pub windows : Bool
  -- `unquote(urlparse(uri).path)`
  pub uri_path : String → String
  -- the bytes of a file, or none where it cannot be read
  pub read : String → Option String

-- `path[1:]` where the path has a slash before a drive letter and a colon.
unfoldable pub strip_drive_slash : String → String
strip_drive_slash (String.◌∷◌ a (String.◌∷◌ b (String.◌∷◌ c rest))) =
    if code a == b'/' && code c == b':'
    then String.◌∷◌ b (String.◌∷◌ c rest)
    else String.◌∷◌ a (String.◌∷◌ b (String.◌∷◌ c rest))
strip_drive_slash s = s

-- `_local_path_from_uri`
unfoldable pub local_path_from_uri : Files → String → Option String
unfolding strip_drive_slash
local_path_from_uri fs uri =
    if starts_with uri "file://"
    then some (if fs.windows then strip_drive_slash (fs.uri_path uri) else fs.uri_path uri)
    else none

-- `sha256_file`
abbrev pub sha256_file : Hashing → Files → String → Result CursorError String
sha256_file h fs path = elim (fs.read path) [
  | none ↦ err unreadable_checkpoint
  | some bytes ↦ ok (h.sha256 bytes)
]

-- A checkpoint in a local file has the bytes of its declared digest; any other is not looked at.
unfoldable pub checkpoint_bytes_match :
    Hashing → Files → CheckpointArtifact → Result CursorError (Unit {0})
unfolding local_path_from_uri
checkpoint_bytes_match h fs c = elim (local_path_from_uri fs c.uri) [
  | none ↦ ok tt
  | some path ↦ elim (sha256_file h fs path) [
    | err e ↦ err e
    | ok d ↦ check (d == c.sha256) checkpoint_mismatch
  ]
]
