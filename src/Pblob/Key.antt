-- ===== src/Pblob/Key.antt =====
-- store/blob/pblob/key.go: the composite key, RID + type + version.
use card_client.Prelude.{
  ℕ, zero, suc, ◌+◌, ◌-◌, ◌%◌, ◌^◌, List, [], ◌∷◌, Option, none, some, if◌then◌else◌, ltb, leb,
  drop, length, get_elem?,
}
use card_client.Prelude.Int.{ℤ, pos, negsuc}
use card_client.Pblob.Bytes.{big_endian, from_big_endian}

abbrev pub sign_bit : ℕ
sign_bit = 2 ^ 63

-- `uint64` of an int64, and back.
abbrev pub to_uint64 : ℤ → ℕ
to_uint64 (pos n) = n % 2 ^ 64
to_uint64 (negsuc n) = 2 ^ 64 - 1 - n % 2 ^ 64

abbrev pub from_uint64 : ℕ → ℤ
from_uint64 u = if ltb u sign_bit then pos u else negsuc (2 ^ 64 - 1 - u)

-- `u ^ signBit`, of a uint64.
abbrev pub flip_sign : ℕ → ℕ
flip_sign u = if ltb u sign_bit then u + sign_bit else u - sign_bit

abbrev pub png_type : ℕ
png_type = 0x00

abbrev pub json_type : ℕ
json_type = 0x01

abbrev pub thumbnail_type : ℕ
thumbnail_type = 0x7f

abbrev pub min_type : ℕ
min_type = 0x00

abbrev pub max_type : ℕ
max_type = 0xff

-- `len` is how many of the bytes count.
pub record Key : Type 0 where
  pub bytes_of : List ℕ
  pub len : ℕ

abbrev pub zeros : ℕ → List ℕ
zeros zero = []
zeros (suc n) = 0 ∷ zeros n

abbrev pub new_key : Key
new_key = record { bytes_of = zeros 17; len = 0 }

abbrev pub key_of : List ℕ → Key
key_of b = record { bytes_of = b; len = length b }

-- A write of some bytes into an array, from a position on.
abbrev pub write_at : ℕ → List ℕ → List ℕ → List ℕ
write_at i xs [] = []
write_at zero [] (y ∷ ys) = y ∷ ys
write_at zero (x ∷ xs) (y ∷ ys) = x ∷ write_at zero xs ys
write_at (suc i) xs (y ∷ ys) = y ∷ write_at i xs ys

abbrev pub take : ℕ → List ℕ → List ℕ
take zero xs = []
take (suc n) [] = []
take (suc n) (x ∷ xs) = x ∷ take n xs

abbrev pub at_least : ℕ → ℕ → ℕ
at_least n len = if ltb len n then n else len

unfoldable pub with_rid : ℕ → Key → Key
with_rid rid k = record {
  bytes_of = write_at 0 (big_endian 8 rid) k.bytes_of;
  len = at_least 8 k.len;
}

unfoldable pub with_type : ℕ → Key → Key
with_type t k = record { bytes_of = write_at 8 (t ∷ []) k.bytes_of; len = at_least 9 k.len }

unfoldable pub with_version : ℤ → Key → Key
with_version v k = record {
  bytes_of = write_at 9 (big_endian 8 (flip_sign (to_uint64 v))) k.bytes_of;
  len = at_least 17 k.len;
}

unfoldable pub bytes : Key → List ℕ
bytes k = take k.len k.bytes_of

-- `Uint64` panics on fewer than eight bytes.
abbrev pub uint64_at : ℕ → List ℕ → Option ℕ
uint64_at i b =
    if leb 8 (length (drop i b)) then some (from_big_endian 0 (take 8 (drop i b))) else none

unfoldable pub get_rid : Key → Option ℕ
get_rid k = uint64_at 0 k.bytes_of

unfoldable pub get_type : Key → Option ℕ
get_type k = get_elem? k.bytes_of 8

unfoldable pub get_version : Key → Option ℤ
get_version k = elim (uint64_at 9 k.bytes_of) [
  | none ↦ none
  | some u ↦ some (from_uint64 (flip_sign u))
]

-- The keys that the store writes and looks for.
abbrev pub type_key : ℕ → ℕ → List ℕ
type_key rid t = bytes (with_type t (with_rid rid new_key))

abbrev pub version_key : ℕ → ℕ → ℤ → List ℕ
version_key rid t v = bytes (with_version v (with_type t (with_rid rid new_key)))

abbrev pub png_key : ℕ → ℤ → List ℕ
png_key rid v = version_key rid png_type v
