-- ===== src/Wire/SeqNumber.antt =====
-- wire/tcp.rs: sequence numbers, 32-bit integers compared through their wrapped difference.
--
-- `SeqNumber(i32)` is its bit pattern, a number below 2 ^ 32. `none` is a panic.
pub mod Laws
use smoltcp.Prelude.{
  ℕ, ◌+◌, ◌-◌, ◌%◌, ◌^◌, Bool, ◌&&◌, ◌||◌, none, some, ltb, leb, ◌==◌, if◌then◌else◌, Checked,
}

abbrev pub SeqNumber : Type 0
SeqNumber = ℕ

-- `self.0.wrapping_sub(rhs.0)`, as a bit pattern.
abbrev pub wrapping_sub : SeqNumber → SeqNumber → ℕ
wrapping_sub a b = (a + 2 ^ 32 - b) % 2 ^ 32

-- `PartialOrd`: the sign of the wrapped difference.
abbrev pub seq_lt : SeqNumber → SeqNumber → Bool
seq_lt a b = leb (2 ^ 31) (wrapping_sub a b)

abbrev pub seq_ge : SeqNumber → SeqNumber → Bool
seq_ge a b = ltb (wrapping_sub a b) (2 ^ 31)

abbrev pub seq_gt : SeqNumber → SeqNumber → Bool
seq_gt a b = ltb 0 (wrapping_sub a b) && ltb (wrapping_sub a b) (2 ^ 31)

abbrev pub seq_le : SeqNumber → SeqNumber → Bool
seq_le a b = (wrapping_sub a b == 0) || leb (2 ^ 31) (wrapping_sub a b)

abbrev pub seq_max : SeqNumber → SeqNumber → SeqNumber
seq_max a b = if seq_gt a b then a else b

abbrev pub seq_min : SeqNumber → SeqNumber → SeqNumber
seq_min a b = if seq_lt a b then a else b

-- `impl ops::Add<usize>`
unfoldable pub add : SeqNumber → ℕ → Checked SeqNumber
add a rhs = if ltb (2 ^ 31 - 1) rhs then none else some ((a + rhs) % 2 ^ 32)

-- `impl ops::Sub<usize>`
unfoldable pub sub : SeqNumber → ℕ → Checked SeqNumber
sub a rhs = if ltb (2 ^ 31 - 1) rhs then none else some ((a + 2 ^ 32 - rhs) % 2 ^ 32)

-- `impl ops::Sub`
unfoldable pub distance : SeqNumber → SeqNumber → Checked ℕ
distance a b = if leb (2 ^ 31) (wrapping_sub a b) then none else some (wrapping_sub a b)
