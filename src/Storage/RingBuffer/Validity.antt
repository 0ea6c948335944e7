-- ===== src/Storage/RingBuffer/Validity.antt =====
-- The random access operations keep a ring buffer valid, whatever they are asked to write.
use smoltcp.Prelude.{
  ℕ, ◌+◌, ◌-◌, ◌≤◌, ◌≡◌, refl, sym, ◌∙◌, subst, inl, inr, true, List, leb, Bool-cases, arith,
  Returns,
}
use smoltcp.Prelude.Slices.{length-overwrite}
use smoltcp.Storage.RingBuffer.{
  RingBuffer, capacity, write_once, write_unallocated, enqueue_unallocated, dequeue_allocated,
  enqueue_slice, dequeue_slice,
}
use smoltcp.Storage.RingBuffer.Order.{IsValid}
use smoltcp.Storage.RingBuffer.Dequeue.{dequeue_allocated_lem, dequeue_slice_lem}
use smoltcp.Storage.RingBuffer.Enqueue.{enqueue_slice_lem}

same_shape-IsValid :
    (r r' : RingBuffer ℕ)
    → capacity r' ≡ capacity r
    → r'.read_at ≡ r.read_at
    → r'.length ≡ r.length
    → IsValid r
    → IsValid r'
same_shape-IsValid r r' c a l v = record {
  length_in = omega (arith, v.length_in);
  read_in = omega (arith, v.read_in);
}

pub write_unallocated-IsValid :
    (r : RingBuffer ℕ) (offset : ℕ) (input : List ℕ)
    → IsValid r
    → IsValid (write_unallocated r offset input).1
unfolding write_unallocated
write_unallocated-IsValid r offset input v =
    same_shape-IsValid r _
      (length-overwrite (write_once r offset input).1.storage _ _ ∙ length-overwrite r.storage _ _)
      refl refl v

pub enqueue_unallocated-IsValid :
    (r : RingBuffer ℕ) (count : ℕ) → IsValid r → Returns IsValid (enqueue_unallocated r count)
unfolding enqueue_unallocated
enqueue_unallocated-IsValid r count v = elim (Bool-cases (leb count (capacity r - r.length))) [
  | inr full ↦ rw full tt
  | inl room ↦ rw room (record { length_in = enough room; read_in = v.read_in })
]
  where
    enough : leb count (capacity r - r.length) ≡ true → r.length + count ≤ capacity r
    enough h = ground (arith, v.length_in)

pub dequeue_allocated-IsValid :
    (r : RingBuffer ℕ) (count : ℕ) → IsValid r → Returns IsValid (dequeue_allocated r count)
dequeue_allocated-IsValid r count v = elim (dequeue_allocated_lem r count v) [
  | inl (h, e) ↦ subst (Returns IsValid) (sym e) tt
  | inr (r', e, valid, _, _) ↦ subst (Returns IsValid) (sym e) valid
]

pub enqueue_slice-IsValid :
    (input : List ℕ) (r : RingBuffer ℕ)
    → IsValid r
    → Returns (λ (out : ℕ × RingBuffer ℕ). IsValid out.1) (enqueue_slice input r)
enqueue_slice-IsValid input r v =
    let (r', e, q, valid, c) = enqueue_slice_lem input r v in
    subst (Returns (λ (out : ℕ × RingBuffer ℕ). IsValid out.1)) (sym e) valid

pub dequeue_slice-IsValid :
    (size : ℕ) (r : RingBuffer ℕ)
    → IsValid r
    → Returns (λ (out : ℕ × List ℕ × RingBuffer ℕ). IsValid out.2) (dequeue_slice size r)
dequeue_slice-IsValid size r v =
    let (r', e, q, valid) = dequeue_slice_lem size r v in
    subst (Returns (λ (out : ℕ × List ℕ × RingBuffer ℕ). IsValid out.2)) (sym e) valid
