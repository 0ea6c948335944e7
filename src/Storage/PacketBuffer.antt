-- ===== src/Storage/PacketBuffer.antt =====
-- storage/packet_buffer.rs: the packet queue of the datagram sockets, a ring of descriptions beside a
-- ring of octets.
--
-- Where the source returns a slice for its caller to fill, the model takes the function that fills it.
-- `none` is a panic; the debug assertions are checked.
pub mod Enqueue
pub mod Fifo
pub mod Dequeue
use smoltcp.Prelude.{
  ℕ, ◌+◌, ◌-◌, Bool, true, false, ◌||◌, Option, none, some, List, [], ◌∷◌, ◌++◌, ltb, leb, ◌==◌,
  if◌then◌else◌, Result, ok, err, Checked, ◌>>=◌, length, take, drop,
}
use smoltcp.Storage.RingBuffer as Ring
use smoltcp.Storage.RingBuffer.{RingBuffer, Full, full, Empty, empty}

pub record PacketMetadata (H : Type 0) : Type 0 where
  pub size : ℕ
  pub header : Option H

module _ {H : Type 0} where
  abbrev pub padding : ℕ → PacketMetadata H
  padding size = record { size = size; header = none }

  abbrev pub packet : ℕ → H → PacketMetadata H
  packet size header = record { size = size; header = some header }

  abbrev pub header_is_none : Option H → Bool
  header_is_none none = true
  header_is_none (some header) = false

  abbrev pub is_padding : PacketMetadata H → Bool
  is_padding metadata = header_is_none metadata.header

pub record PacketBuffer (H : Type 0) : Type 0 where
  pub metadata_ring : RingBuffer (PacketMetadata H)
  pub payload_ring : RingBuffer ℕ

-- "Ring is currently empty. Clear it to maximize for contiguous space."
abbrev pub clear_if_empty : RingBuffer ℕ → RingBuffer ℕ
clear_if_empty r = if Ring.is_empty r then Ring.clear r else r

module _ {H : Type 0} where
  abbrev pub new : List (PacketMetadata H) → List ℕ → PacketBuffer H
  new metadata_storage payload_storage = record {
    metadata_ring = Ring.new metadata_storage;
    payload_ring = Ring.new payload_storage;
  }

  abbrev pub is_empty : PacketBuffer H → Bool
  is_empty b = Ring.is_empty b.metadata_ring

  abbrev pub is_full : PacketBuffer H → Bool
  is_full b = Ring.is_full b.metadata_ring

  -- `*self.metadata_ring.enqueue_one()? = metadata`, and what follows it.
  abbrev pub described :
      PacketBuffer H
      → Result Full (Result Full (Unit {0})) × RingBuffer (PacketMetadata H)
      → (PacketBuffer H → Checked (Result Full (Unit {0}) × PacketBuffer H))
      → Checked (Result Full (Unit {0}) × PacketBuffer H)
  described b (err e, ring) go_on = some (err e, record b { metadata_ring = ring })
  described b (ok (err e), ring) go_on = some (err e, record b { metadata_ring = ring })
  described b (ok (ok _), ring) go_on = go_on (record b { metadata_ring = ring })

  unfoldable pub describe :
      PacketMetadata H
      → (PacketBuffer H → Checked (Result Full (Unit {0}) × PacketBuffer H))
      → PacketBuffer H
      → Checked (Result Full (Unit {0}) × PacketBuffer H)
  describe metadata go_on b =
      Ring.enqueue_one metadata b.metadata_ring >>= λ out. described b out go_on

  -- The packet itself; "debug_assert!(payload_buf.len() == size)".
  unfoldable pub put :
      (List ℕ → List ℕ) → ℕ → H → PacketBuffer H → Checked (Result Full (Unit {0}) × PacketBuffer H)
  unfolding describe
  put fill size header = describe (packet size header) λ b. do
    (written, ring) ← Ring.enqueue_many fill size b.payload_ring
    if written == size then some (ok tt, record b { payload_ring = ring }) else none

  -- "Add padding to the end of the ring buffer", and then the packet.
  unfoldable pub pad_and_put :
      (List ℕ → List ℕ)
      → ℕ
      → H
      → ℕ
      → PacketBuffer H
      → Checked (Result Full (Unit {0}) × PacketBuffer H)
  unfolding describe put
  pad_and_put fill size header contig_window = describe (padding contig_window) λ b. do
    (_, ring) ← Ring.enqueue_many (λ octets. octets) contig_window b.payload_ring
    put fill size header (record b { payload_ring = ring })

  unfoldable pub place :
      (List ℕ → List ℕ) → ℕ → H → PacketBuffer H → Checked (Result Full (Unit {0}) × PacketBuffer H)
  unfolding put pad_and_put
  place fill size header b =
      let window = Ring.window b.payload_ring in
      let contig_window = Ring.contiguous_window b.payload_ring in
      if ltb window size
      then some (err full, b)
      else if ltb contig_window size
      then if ltb (window - contig_window) size
        then some (err full, b)
        else pad_and_put fill size header contig_window b
      else put fill size header b

  unfoldable pub enqueue :
      (List ℕ → List ℕ) → ℕ → H → PacketBuffer H → Checked (Result Full (Unit {0}) × PacketBuffer H)
  unfolding place
  enqueue fill size header b =
      if ltb (Ring.capacity b.payload_ring) size || Ring.is_full b.metadata_ring
      then some (err full, b)
      else place fill size header (record b { payload_ring = clear_if_empty b.payload_ring })
