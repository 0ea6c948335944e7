-- ===== src/Storage/PacketBuffer/Dequeue.antt =====
-- storage/packet_buffer.rs: the operations that take packets out, and `enqueue_with_infallible`.
--
-- A closure that is handed a header and a slice returns what it leaves there beside its result.
use smoltcp.Prelude.{
  ℕ, ◌-◌, ◌||◌, none, some, List, [], ◌∷◌, ◌++◌, ltb, leb, ◌==◌, if◌then◌else◌, Result, ok, err,
  Checked, ◌>>=◌, length, take, drop,
}
use smoltcp.Storage.RingBuffer as Ring
use smoltcp.Storage.RingBuffer.{RingBuffer, Full, full, Empty, empty, is_ok}
use smoltcp.Storage.PacketBuffer.{PacketMetadata, PacketBuffer, padding, packet, is_padding}

module _ {H : Type 0} where
  -- The size of the padding at the front that is dequeued.
  abbrev drop_padding :
      Result Empty (Result (Unit {0}) ℕ) → PacketBuffer H → Checked (PacketBuffer H)
  drop_padding (ok (ok size)) b = do
    (_, ring) ← Ring.dequeue_many size b.payload_ring
    some (record b { payload_ring = ring })
  drop_padding (ok (err _)) b = some b
  drop_padding (err e) b = some b

  unfoldable pub dequeue_padding : PacketBuffer H → Checked (PacketBuffer H)
  dequeue_padding b = do
    (result, ring) ←
        Ring.dequeue_one_with
          (λ metadata. (metadata, if is_padding metadata then ok metadata.size else err tt))
          b.metadata_ring
    drop_padding result (record b { metadata_ring = ring })

  -- The payload of a dequeued description; "debug_assert!(payload_buf.len() == meta.size)".
  abbrev taken :
      PacketBuffer H
      → Result Empty (Result Empty (PacketMetadata H))
      → Checked (Result Empty (H × List ℕ) × PacketBuffer H)
  taken b (err e) = some (err e, b)
  taken b (ok (err e)) = some (err e, b)
  taken b (ok (ok metadata)) = do
    (octets, ring) ← Ring.dequeue_many metadata.size b.payload_ring
    header ← metadata.header
    if length octets == metadata.size
        then some (ok (header, octets), record b { payload_ring = ring })
        else none

  -- The header is taken out of the description, in its place in the storage.
  unfoldable pub dequeue : PacketBuffer H → Checked (Result Empty (H × List ℕ) × PacketBuffer H)
  unfolding dequeue_padding
  dequeue b = do
    b ← dequeue_padding b
    (result, ring) ←
        Ring.dequeue_one_with (λ metadata. (record metadata { header = none }, ok metadata))
          b.metadata_ring
    taken (record b { metadata_ring = ring }) result

  -- The closures of `dequeue_with` on one description and the payload ring; `f` returns what it leaves
  -- in the header and in the octets, and its result.
  unfoldable pub hand_over {ε ρ} :
      {E : Type ε} {R : Type ρ}
      → (H → List ℕ → H × List ℕ × Result E R)
      → RingBuffer ℕ
      → PacketMetadata H
      → Checked (PacketMetadata H × Result E R × RingBuffer ℕ)
  hand_over f ring metadata = do
    header ← metadata.header
    (_, (header', result, fits), ring) ←
        Ring.dequeue_many_with
          (λ octets.
            let (header', left, result) = f header (take metadata.size octets) in
            (
              left ++ drop metadata.size octets,
              if is_ok result then metadata.size else 0,
              (header', result, leb metadata.size (length octets)),
            ))
          ring
    if fits then some (record metadata { header = some header' }, result, ring) else none

  -- What `dequeue_one_with` is given: the payload ring goes with the result, and an error without a
  -- value stands for a panic in the closure.
  unfoldable pub handed {ε ρ} :
      {E : Type ε} {R : Type ρ}
      → PacketMetadata H
      → Checked (PacketMetadata H × Result E R × RingBuffer ℕ)
      → PacketMetadata H × Result (Checked (E × RingBuffer ℕ)) (R × RingBuffer ℕ)
  handed metadata none = (metadata, err none)
  handed _ (some (metadata, ok value, ring)) = (metadata, ok (value, ring))
  handed _ (some (metadata, err e, ring)) = (metadata, err (some (e, ring)))

  -- The buffer after the closures, by what `dequeue_one_with` returns.
  unfoldable pub handed_back {ε ρ} :
      {E : Type ε} {R : Type ρ}
      → PacketBuffer H
      → Result Empty (Result (Checked (E × RingBuffer ℕ)) (R × RingBuffer ℕ))
      → Checked (Result Empty (Result E R) × PacketBuffer H)
  handed_back b (err e) = some (err e, b)
  handed_back b (ok (err none)) = none
  handed_back b (ok (err (some (e, ring)))) = some (ok (err e), record b { payload_ring = ring })
  handed_back b (ok (ok (value, ring))) = some (ok (ok value), record b { payload_ring = ring })

  unfoldable pub dequeue_with {ε ρ} :
      {E : Type ε} {R : Type ρ}
      → (H → List ℕ → H × List ℕ × Result E R)
      → PacketBuffer H
      → Checked (Result Empty (Result E R) × PacketBuffer H)
  unfolding dequeue_padding hand_over handed handed_back
  dequeue_with f b = do
    b ← dequeue_padding b
    (result, metas) ←
        Ring.dequeue_one_with (λ metadata. handed metadata (hand_over f b.payload_ring metadata))
          b.metadata_ring
    handed_back (record b { metadata_ring = metas }) result

  -- The first description, by what `get_allocated` returns.
  abbrev first_packet :
      PacketBuffer H
      → List (PacketMetadata H)
      → Checked (Result Empty (H × List ℕ) × PacketBuffer H)
  first_packet b [] = some (err empty, b)
  first_packet b (metadata ∷ _) = do
    header ← metadata.header
    some (ok (header, Ring.get_allocated b.payload_ring 0 metadata.size), b)

  unfoldable pub peek : PacketBuffer H → Checked (Result Empty (H × List ℕ) × PacketBuffer H)
  unfolding dequeue_padding
  peek b = do b ← dequeue_padding b; first_packet b (Ring.get_allocated b.metadata_ring 0 1)

  abbrev pub packet_capacity : PacketBuffer H → ℕ
  packet_capacity b = Ring.capacity b.metadata_ring

  abbrev pub payload_capacity : PacketBuffer H → ℕ
  payload_capacity b = Ring.capacity b.payload_ring

  unfoldable pub reset : PacketBuffer H → PacketBuffer H
  reset b = record {
    metadata_ring = Ring.clear b.metadata_ring;
    payload_ring = Ring.clear b.payload_ring;
  }

  -- The payload of `enqueue_with_infallible`, and then its description.
  unfoldable pub put_with :
      (List ℕ → List ℕ × ℕ) → ℕ → H → PacketBuffer H → Checked (Result Full ℕ × PacketBuffer H)
  put_with f max_size header b = do
    (size, _, ring) ←
        Ring.enqueue_many_with
          (λ octets.
            let (left, n) = f (take max_size octets) in (left ++ drop max_size octets, n, tt {0}))
          b.payload_ring
    out ← Ring.enqueue_one (packet size header) b.metadata_ring
    sized size (record b { payload_ring = ring }) out
    where
      sized :
          ℕ
          → PacketBuffer H
          → Result Full (Result Full (Unit {0})) × RingBuffer (PacketMetadata H)
          → Checked (Result Full ℕ × PacketBuffer H)
      sized size b (err e, ring) = some (err e, record b { metadata_ring = ring })
      sized size b (ok (err e), ring) = some (err e, record b { metadata_ring = ring })
      sized size b (ok (ok _), ring) = some (ok size, record b { metadata_ring = ring })

  unfoldable pub pad_and_put_with :
      (List ℕ → List ℕ × ℕ) → ℕ → H → ℕ → PacketBuffer H → Checked (Result Full ℕ × PacketBuffer H)
  unfolding put_with
  pad_and_put_with f max_size header contig_window b = do
    out ← Ring.enqueue_one (padding contig_window) b.metadata_ring
    padded b out
    where
      padded :
          PacketBuffer H
          → Result Full (Result Full (Unit {0})) × RingBuffer (PacketMetadata H)
          → Checked (Result Full ℕ × PacketBuffer H)
      padded b (err e, ring) = some (err e, record b { metadata_ring = ring })
      padded b (ok (err e), ring) = some (err e, record b { metadata_ring = ring })
      padded b (ok (ok _), metas) = do
        (_, ring) ← Ring.enqueue_many (λ octets. octets) contig_window b.payload_ring
        put_with f max_size header (record { metadata_ring = metas; payload_ring = ring })

  unfoldable pub enqueue_with_infallible :
      (List ℕ → List ℕ × ℕ) → ℕ → H → PacketBuffer H → Checked (Result Full ℕ × PacketBuffer H)
  unfolding put_with pad_and_put_with
  enqueue_with_infallible f max_size header b =
      let window = Ring.window b.payload_ring in
      let contig_window = Ring.contiguous_window b.payload_ring in
      if ltb (Ring.capacity b.payload_ring) max_size || Ring.is_full b.metadata_ring
      then some (err full, b)
      else if ltb window max_size
      then some (err full, b)
      else if ltb contig_window max_size
      then if ltb (window - contig_window) max_size
        then some (err full, b)
        else pad_and_put_with f max_size header contig_window b
      else put_with f max_size header b
