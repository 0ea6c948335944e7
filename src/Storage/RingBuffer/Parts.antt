-- ===== src/Storage/RingBuffer/Parts.antt =====
-- `get_allocated`: what one read returns, wherever the ring wraps around.
use smoltcp.Prelude.{ℕ, ◌≤◌, ◌≡◌, refl, sym, ap, ◌∙◌, inl, inr, length, ltb, Bool-cases, arith}
use smoltcp.Prelude.Slices.{slice}
use smoltcp.Storage.RingBuffer.{RingBuffer, get_allocated}
use smoltcp.Storage.RingBuffer.Order.{IsValid, contents}
use smoltcp.Storage.RingBuffer.RandomAccess.Reading.{
  readable, readable_bounds, get_allocated_lem, length_of_read,
}

-- One read returns a part of the contents that starts at the offset and is not longer than asked for.
pub get_allocated-part {ℓ} :
    {A : Type ℓ} (r : RingBuffer A) (offset size : ℕ)
    → IsValid r
    → (get_allocated r offset size
        ≡ slice (contents r) offset (length (get_allocated r offset size)))
      × (length (get_allocated r offset size) ≤ size)
unfolding get_allocated
get_allocated-part r offset size v = elim (Bool-cases (ltb r.length offset)) [
  | inl beyond ↦ rw beyond (refl, omega arith)
  | inr within ↦
      let here : offset ≤ r.length = ground arith in
      let e = get_allocated_lem r offset size v here in
      let (small, inside) = readable_bounds r offset size here in
      let n = length_of_read r offset size v here offset (readable r offset size) inside in
      (
        e ∙ ap (slice (contents r) offset) (sym n ∙ sym (ap length e)),
        omega (arith, ap length e, n, small),
      )
]
