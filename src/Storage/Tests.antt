-- ===== src/Storage/Tests.antt =====
-- storage/ on concrete inputs.
use smoltcp.Prelude.{
  Result, List, ◌<◌, ℕ, ◌+◌, ◌-◌, ◌^◌, ◌&&◌, leb, ◌≡◌, refl, ◌⊎◌, inl, inr, ◌||◌, none, some, [],
  ◌∷◌, ◌++◌, min, length, take, drop, ok, err, arith,
}
use smoltcp.Prelude.Slices.{slice}
use smoltcp.Storage.Assembler.{
  Contig, Contigs, TooManyHoles, empty_contig, hole_and_data, add, remove_front,
  add_then_remove_front, iter_data,
}
use smoltcp.Storage.Assembler.Invariant.{IsValid, covers, in_range}
use smoltcp.Storage.Assembler.Front.{
  Removes, with_range, remove_front-Removes, add_then_remove_front_at_start, covered_by, extent,
  covered_by-iter_data,
}
use smoltcp.Storage.Assembler.Outcome.{IsFull, add_lem, add_then_remove_front_lem}
use smoltcp.Storage.RingBuffer.{
  Full, RingBuffer, capacity, len, window, enqueue_slice, dequeue_slice, dequeue_allocated,
  write_unallocated, enqueue_unallocated, read_allocated,
}
use smoltcp.Storage.RingBuffer.Order as Order
use smoltcp.Storage.RingBuffer.Order.{contents}
use smoltcp.Storage.RingBuffer.Enqueue.{enqueue_slice_lem}
use smoltcp.Storage.RingBuffer.Dequeue.{dequeue_slice_lem, dequeue_allocated_lem}
use smoltcp.Storage.PacketBuffer.{PacketMetadata, PacketBuffer, enqueue}
use smoltcp.Storage.PacketBuffer.Fifo.{IsBuffer, Enqueued, enqueue_lem}
use smoltcp.Storage.RingBuffer.RandomAccess.Writing.{WroteAt}
use smoltcp.Storage.RingBuffer.RandomAccess.{
  write_unallocated-WroteAt, contents-write_then_enqueue, read_allocated_lem,
}

-- Two octets, a hole of three octets, and four octets, in an array of four entries.
abbrev first_contig : Contig
first_contig = hole_and_data 0 2

abbrev other_contigs : Contigs
other_contigs = hole_and_data 3 4 ∷ empty_contig ∷ empty_contig ∷ []

abbrev contigs : Contigs
contigs = first_contig ∷ other_contigs

contigs-IsValid : IsValid contigs
contigs-IsValid =
    inl
      (omega arith, omega arith, inl (omega arith, omega arith, inr (refl, refl, (refl, refl, tt))))

add_example :
    ((e : TooManyHoles) × (add contigs 3 9 ≡ err e) × IsFull contigs)
    ⊎ ((cs' : Contigs) × (add contigs 3 9 ≡ ok cs')
        × IsValid cs'
        × ((n : ℕ) → covers cs' n ≡ (in_range 3 (3 + 9) n || covers contigs n)))
add_example = add_lem first_contig other_contigs 3 9 contigs-IsValid

add_then_remove_front_example :
    ((e : TooManyHoles) × (add_then_remove_front contigs 2 3 ≡ err e) × IsFull contigs)
    ⊎ ((out : ℕ × Contigs) × (add_then_remove_front contigs 2 3 ≡ ok out)
        × Removes (with_range contigs 2 3) out)
add_then_remove_front_example =
    add_then_remove_front_lem first_contig other_contigs 2 3 contigs-IsValid

add_then_remove_front_at_start_example :
    (out : ℕ × Contigs) × (add_then_remove_front contigs 0 1 ≡ ok out)
add_then_remove_front_at_start_example =
    add_then_remove_front_at_start first_contig other_contigs contigs-IsValid 1

remove_front_example : Removes (covers contigs) (remove_front contigs)
remove_front_example = remove_front-Removes contigs contigs-IsValid

contigs_reach : extent contigs + 10 < 2 ^ 64
unfolding extent
contigs_reach = omega arith

iter_data_example : covered_by (iter_data contigs 10) 16 ≡ (leb 10 16 && covers contigs (16 - 10))
iter_data_example = covered_by-iter_data contigs 10 16 contigs_reach

-- A ring of five places with three elements, the last of which has wrapped around.
abbrev ring : RingBuffer ℕ
ring = record { storage = 30 ∷ 0 ∷ 0 ∷ 10 ∷ 20 ∷ []; read_at = 3; length = 3 }

abbrev input : List ℕ
input = 40 ∷ 50 ∷ 60 ∷ []

abbrev pair : List ℕ
pair = 40 ∷ 50 ∷ []

ring-IsValid : Order.IsValid ring
ring-IsValid = record { length_in = omega arith; read_in = omega arith }

enqueue_slice_example :
    (r' : RingBuffer ℕ) × (enqueue_slice input ring ≡ some (min (length input) (window ring), r'))
    × (contents r' ≡ contents ring ++ take (window ring) input)
    × Order.IsValid r'
    × (capacity r' ≡ capacity ring)
enqueue_slice_example = enqueue_slice_lem input ring ring-IsValid

dequeue_slice_example :
    (r' : RingBuffer ℕ) × (dequeue_slice 2 ring
      ≡ some (min 2 (len ring), take 2 (contents ring), r'))
    × (contents r' ≡ drop 2 (contents ring))
    × Order.IsValid r'
dequeue_slice_example = dequeue_slice_lem 2 ring ring-IsValid

dequeue_allocated_example :
    ((ring.length < 2) × (dequeue_allocated ring 2 ≡ none))
    ⊎ ((r' : RingBuffer ℕ) × (dequeue_allocated ring 2 ≡ some r')
        × Order.IsValid r'
        × (contents r' ≡ drop 2 (contents ring))
        × (r'.storage ≡ ring.storage))
dequeue_allocated_example = dequeue_allocated_lem ring 2 ring-IsValid

write_unallocated_example :
    (r' : RingBuffer ℕ) × (write_unallocated ring 1 input
      ≡ (min (length input) (window ring - 1), r'))
    × WroteAt ring 1 input (min (length input) (window ring - 1)) r'
write_unallocated_example = write_unallocated-WroteAt ring 1 input ring-IsValid

write_then_enqueue_example :
    (r' : RingBuffer ℕ) × (enqueue_unallocated (write_unallocated ring 0 pair).1 2 ≡ some r')
    × (contents r' ≡ contents ring ++ take 2 pair)
    × Order.IsValid r'
write_then_enqueue_example =
    contents-write_then_enqueue ring pair 2 ring-IsValid (omega arith) (omega arith)

read_allocated_example :
    read_allocated ring 1 5
    ≡ (min 5 (ring.length - 1), slice (contents ring) 1 (min 5 (ring.length - 1)))
read_allocated_example = read_allocated_lem ring 1 5 ring-IsValid

abbrev no_packet : PacketMetadata ℕ
no_packet = record { size = 0; header = none }

-- A packet of two octets with header 9, at the end of the ring but for one octet.
abbrev one_packet : PacketBuffer ℕ
one_packet = record {
  metadata_ring = record {
    storage = no_packet ∷ record { size = 2; header = some 9 } ∷ no_packet ∷ [];
    read_at = 1;
    length = 1;
  };
  payload_ring = record { storage = 0 ∷ 0 ∷ 0 ∷ 0 ∷ 0 ∷ 7 ∷ 8 ∷ 0 ∷ []; read_at = 5; length = 2 };
}

one_packet-IsBuffer : IsBuffer one_packet
one_packet-IsBuffer = record {
  metadata_lem = record { length_in = omega arith; read_in = omega arith };
  payload_lem = record { length_in = omega arith; read_in = omega arith };
  accounted = refl;
}

packet_enqueue_example :
    (r : Result Full (Unit {0})) × (b' : PacketBuffer ℕ) × (enqueue (λ buf. buf) 4 5 one_packet
      ≡ some (r, b'))
    × IsBuffer b'
    × Enqueued (λ buf. buf) 4 5 one_packet r b'
packet_enqueue_example = enqueue_lem (λ buf. buf) 4 5 (λ buf. refl) one_packet one_packet-IsBuffer
