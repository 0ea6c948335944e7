-- ===== src/Wire/Bytes.antt =====
-- Octets and the network byte order.
--
-- The crate `byteorder` is not part of this repository: its `NetworkEndian` is a parameter. The code
-- hands its functions slices, of which they read or write the first two or four octets; these octets
-- are the arguments and the results here.
use smoltcp.Prelude.{ℕ, zero, suc, ◌+◌, ◌*◌, ◌/◌, ◌%◌, ◌<◌, ◌≡◌, sym, List, [], ◌∷◌}
use smoltcp.Prelude.Slices.{overwrite}

-- `wire::Error`, which has no further content.
pub data WireError : Type 0 where
  error : WireError

pub record ByteOrder : Type 0 where
  pub read_u16 : ℕ → ℕ → ℕ
  pub write_u16 : ℕ → ℕ × ℕ
  pub read_u32 : ℕ → ℕ → ℕ → ℕ → ℕ
  pub write_u32 : ℕ → ℕ × ℕ × ℕ × ℕ

abbrev pub big_endian : ByteOrder
big_endian = record {
  read_u16 = λ a b. a * 256 + b;
  write_u16 = λ n. (n / 256 % 256, n % 256);
  read_u32 = λ a b c d. ((a * 256 + b) * 256 + c) * 256 + d;
  write_u32 = λ n. (n / 16777216 % 256, n / 65536 % 256, n / 256 % 256, n % 256);
}

-- "Big-endian is the most significant octet first."
pub record IsBigEndian (order : ByteOrder) : Type 0 where
  pub read_u16_lem : (a b : ℕ) → order.read_u16 a b ≡ a * 256 + b
  pub write_u16_lem : (n : ℕ) → order.write_u16 n ≡ (n / 256 % 256, n % 256)
  pub read_u32_lem : (a b c d : ℕ) → order.read_u32 a b c d ≡ ((a * 256 + b) * 256 + c) * 256 + d
  pub write_u32_lem :
      (n : ℕ) → order.write_u32 n ≡ (n / 16777216 % 256, n / 65536 % 256, n / 256 % 256, n % 256)

pub IsBigEndian-big_endian : (order : ByteOrder) → IsBigEndian order → big_endian ≡ order
IsBigEndian-big_endian order law = λ i. record {
  read_u16 = λ a b. sym (law.read_u16_lem a b) i;
  write_u16 = λ n. sym (law.write_u16_lem n) i;
  read_u32 = λ a b c d. sym (law.read_u32_lem a b c d) i;
  write_u32 = λ n. sym (law.write_u32_lem n) i;
}

-- An octet of a buffer. Out of range, where an index panics, it is 0; the accessors are only called
-- once the length has been checked.
abbrev pub octet : List ℕ → ℕ → ℕ
octet [] i = 0
octet (x ∷ xs) zero = x
octet (x ∷ xs) (suc i) = octet xs i

module _ (order : ByteOrder) where
  abbrev pub u16_at : List ℕ → ℕ → ℕ
  u16_at octets at = order.read_u16 (octet octets at) (octet octets (at + 1))

  abbrev pub u32_at : List ℕ → ℕ → ℕ
  u32_at octets at =
      order.read_u32 (octet octets at) (octet octets (at + 1)) (octet octets (at + 2))
        (octet octets (at + 3))

  abbrev pub u16_octets : ℕ → List ℕ
  u16_octets n = let (a, b) = order.write_u16 n in a ∷ b ∷ []

  abbrev pub u32_octets : ℕ → List ℕ
  u32_octets n = let (a, b, c, d) = order.write_u32 n in a ∷ b ∷ c ∷ d ∷ []

  abbrev pub set_u16 : ℕ → ℕ → List ℕ → List ℕ
  set_u16 at n octets = overwrite octets at (u16_octets n)

  abbrev pub set_u32 : ℕ → ℕ → List ℕ → List ℕ
  set_u32 at n octets = overwrite octets at (u32_octets n)

-- Every element is an octet.
abbrev pub Octets : List ℕ → Type 0
Octets [] = Unit
Octets (x ∷ xs) = (x < 256) × Octets xs
