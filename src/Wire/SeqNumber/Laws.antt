-- ===== src/Wire/SeqNumber/Laws.antt =====
-- wire/tcp.rs: the arithmetic of sequence numbers.
use smoltcp.Prelude.{ℕ, ◌+◌, ◌-◌, ◌%◌, ◌^◌, ◌<◌, ◌≡◌, refl, ap, true, false, some, ltb, leb, arith}
use smoltcp.Wire.SeqNumber.{SeqNumber, add, distance, seq_ge, wrapping_sub}

wrapping_sub-add : (a n : ℕ) → a < 2 ^ 32 → n < 2 ^ 31 → wrapping_sub ((a + n) % 2 ^ 32) a ≡ n
wrapping_sub-add a n h k = omega arith

-- A number of octets below 2 ^ 31 can be added to a sequence number without a panic, also where the
-- sum wraps around; the distance back is that number, and the sum is not before the number.
pub distance-add :
    (a n : ℕ)
    → a < 2 ^ 32
    → n < 2 ^ 31
    → (b : SeqNumber) × (add a n ≡ some b)
      × (distance b a ≡ some n)
      × (seq_ge b a ≡ true)
      × (b < 2 ^ 32)
unfolding add distance
distance-add a n h k = (
  (a + n) % 2 ^ 32,
  rw small refl,
  rw near (ap some (wrapping_sub-add a n h k)),
  ground (arith, wrapping_sub-add a n h k),
  omega arith,
)
  where
    small : ltb (2 ^ 31 - 1) n ≡ false
    small = ground arith

    near : leb (2 ^ 31) (wrapping_sub ((a + n) % 2 ^ 32) a) ≡ false
    near = ground (arith, wrapping_sub-add a n h k)
