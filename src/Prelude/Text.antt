-- ===== src/Prelude/Text.antt =====
-- Texts of the program: tests for blank texts and for lowercase SHA-256 digests.
use Prim.Native.Nat.{ℕ, zero, suc, Ordering}
use Prim.Native.Char.{code}
use Prim.Native.String.{String, ◌++◌, compare}
use mathlib.Core.Bool.{Bool, true, false, ◌&&◌, ◌||◌}
use mathlib.Core.List.{List, [], ◌∷◌}
use acvjepa_project.Prelude.Tests.{leb, nat_beq}
use acvjepa_project.Prelude.Lists.{length, all}

-- The code points of a text.
unfoldable pub code_points : String → List ℕ
code_points String.[] = []
code_points (String.◌∷◌ head tail) = code head ∷ code_points tail

-- `char in "0123456789abcdef"`
unfoldable pub is_hex_digit : ℕ → Bool
is_hex_digit c = leb b'0' c && leb c b'9' || leb b'a' c && leb c b'f'

-- `len(value) == 64` and no character outside the lowercase hexadecimal digits.
unfoldable pub is_sha256_hex : String → Bool
unfolding code_points is_hex_digit
is_sha256_hex s = nat_beq (length (code_points s)) 64 && all is_hex_digit (code_points s)

-- The code points that Python's `str.strip` removes.
unfoldable pub is_space : ℕ → Bool
is_space c =
    leb 9 c && leb c 13
    || leb 28 c && leb c 32
    || nat_beq c 133
    || nat_beq c 160
    || nat_beq c 5760
    || leb 8192 c && leb c 8202
    || leb 8232 c && leb c 8233
    || nat_beq c 8239
    || nat_beq c 8287
    || nat_beq c 12288

-- `not text.strip()`
unfoldable pub is_blank : String → Bool
unfolding code_points is_space
is_blank s = all is_space (code_points s)

-- `text[:n]`
unfoldable pub prefix : ℕ → String → String
prefix zero s = String.[]
prefix (suc n) String.[] = String.[]
prefix (suc n) (String.◌∷◌ c s) = String.◌∷◌ c (prefix n s)

-- `s + t`, on texts.
abbrev pub concat : String → String → String
concat s t = s ++ t

-- `s <= t`, by code points.
abbrev pub string_leb : String → String → Bool
string_leb s t = elim (compare s t) [ Ordering.gt ↦ false | _ ↦ true ]
