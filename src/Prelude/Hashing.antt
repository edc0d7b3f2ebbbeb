-- ===== src/Prelude/Hashing.antt =====
-- What the program takes from `hashlib` and `json`: a digest of texts and the canonical encoding
-- (`sort_keys=True`) of a value. Neither is defined here; a development over them takes a `Hashing`.
use Prim.Native.Nat.{ℕ, zero, suc}
use Prim.Native.String.{String, ◌++◌}
use mathlib.Core.Bool.{true, false}
use acvjepa_project.Prelude.Int.{pos, negsuc}
use acvjepa_project.Prelude.Json.{
  Json, null, str, int, bool, num, arr, obj, Items, nil, cons, Fields, end, field,
}

pub record Hashing : Type 0 where
  -- `hashlib.sha256(text.encode()).hexdigest()`
  pub sha256 : String → String
  -- `json.dumps(value, sort_keys=True, separators=(",", ":"))`
  pub dumps : Json → String

-- `sha256_bytes(canonical_bytes(value))`
abbrev pub digest_of : Hashing → Json → String
digest_of h j = h.sha256 (h.dumps j)

-- A hashing that can be evaluated: the digest of a text is the text, and an encoding shows every
-- text and number of the value.
abbrev unary : ℕ → String
unary zero = ""
unary (suc n) = "i" ++ unary n

abbrev mutual
  show : Json → String
  show null = "null"
  show (str s) = "'" ++ (s ++ "'")
  show (int (pos n)) = "+" ++ unary n
  show (int (negsuc n)) = "-" ++ unary n
  show (bool true) = "t"
  show (bool false) = "f"
  show (num s) = s
  show (arr xs) = "[" ++ (show_items xs ++ "]")
  show (obj fs) = "{" ++ (show_fields fs ++ "}")

  show_items : Items → String
  show_items nil = ""
  show_items (cons x xs) = show x ++ ("," ++ show_items xs)

  show_fields : Fields → String
  show_fields end = ""
  show_fields (field k v fs) = k ++ (":" ++ (show v ++ ("," ++ show_fields fs)))

unfoldable pub transparent : Hashing
transparent = record { sha256 = λ s. s; dumps = show }
