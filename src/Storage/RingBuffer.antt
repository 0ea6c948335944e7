-- ===== src/Storage/RingBuffer.antt =====
-- storage/ring_buffer.rs: the ring buffer that every socket queue is made of.
--
-- The storage is a list. A closure that is handed a slice returns what it leaves in the slice
-- beside its result. A call that may panic returns `none` for the panic. Where the source returns a
-- slice for its caller to fill, the model takes the function that fills it.
pub mod Order
pub mod Enqueue
pub mod Dequeue
pub mod RandomAccess
pub mod Validity
pub mod Parts
use mathlib.Core.List.{map}
use smoltcp.Prelude.{
  ℕ, zero, suc, ◌+◌, ◌-◌, ◌*◌, ◌%◌, min, Bool, true, false, not, Option, none, some, List, [], ◌∷◌,
  ◌++◌, ltb, leb, ◌==◌, if◌then◌else◌, Result, ok, err, length, get_elem?, set, take, drop, Checked,
}
use smoltcp.Prelude.Slices.{overwrite, slice}

pub record RingBuffer {ℓ} (A : Type ℓ) : Type ℓ where
  pub storage : List A
  pub read_at : ℕ
  pub length : ℕ

pub data Full : Type 0 where
  full : Full

pub data Empty : Type 0 where
  empty : Empty

abbrev pub is_ok {ℓ κ} : {E : Type ℓ} {R : Type κ} → Result E R → Bool
is_ok (ok r) = true
is_ok (err e) = false

module _ {ℓ} {A : Type ℓ} where
  unfoldable pub new : List A → RingBuffer A
  new storage = record { storage = storage; read_at = 0; length = 0 }

  unfoldable pub clear : RingBuffer A → RingBuffer A
  clear r = record r { read_at = 0; length = 0 }

  abbrev pub capacity : RingBuffer A → ℕ
  capacity r = length r.storage

  -- `reset`, with the element type's `Resettable::reset`.
  pub reset : (A → A) → RingBuffer A → RingBuffer A
  unfolding clear
  reset reset_element r =
      let cleared = clear r in record cleared { storage = map reset_element cleared.storage }

  abbrev pub len : RingBuffer A → ℕ
  len r = r.length

  abbrev pub window : RingBuffer A → ℕ
  window r = capacity r - len r

  abbrev pub get_idx : RingBuffer A → ℕ → ℕ
  get_idx r idx = if ltb 0 (capacity r) then (r.read_at + idx) % capacity r else 0

  abbrev pub get_idx_unchecked : RingBuffer A → ℕ → ℕ
  get_idx_unchecked r idx = (r.read_at + idx) % capacity r

  abbrev pub contiguous_window : RingBuffer A → ℕ
  contiguous_window r = min (window r) (capacity r - get_idx r r.length)

  abbrev pub is_empty : RingBuffer A → Bool
  is_empty r = len r == 0

  abbrev pub is_full : RingBuffer A → Bool
  is_full r = window r == 0

  -- `enqueue_one_with`: `f` gets the element and returns what it leaves there and its result.
  unfoldable pub enqueue_one_with {κ μ} :
      {E : Type κ} {R : Type μ}
      → (A → A × Result E R)
      → RingBuffer A
      → Checked (Result Full (Result E R) × RingBuffer A)
  enqueue_one_with f r =
      if is_full r then some (err full, r) else elim (get_elem? r.storage index) [
        | none ↦ none
        | some x ↦
            let (x', res) = f x in
            some (
              ok res,
              record r {
                storage = set r.storage index x';
                length = if is_ok res then r.length + 1 else r.length;
              },
            )
      ]
    where
      index : ℕ
      index = get_idx_unchecked r r.length

  -- `enqueue_one`, and the write of `x` through the reference that it returns.
  unfoldable pub enqueue_one :
      A → RingBuffer A → Checked (Result Full (Result Full (Unit {0})) × RingBuffer A)
  unfolding enqueue_one_with
  enqueue_one x r = enqueue_one_with (λ _. (x, ok tt)) r

  unfoldable pub dequeue_one_with {κ μ} :
      {E : Type κ} {R : Type μ}
      → (A → A × Result E R)
      → RingBuffer A
      → Checked (Result Empty (Result E R) × RingBuffer A)
  dequeue_one_with f r =
      if is_empty r then some (err empty, r) else elim (get_elem? r.storage r.read_at) [
        | none ↦ none
        | some x ↦
            let (x', res) = f x in
            some (
              ok res,
              record r {
                storage = set r.storage r.read_at x';
                length = if is_ok res then r.length - 1 else r.length;
                read_at = if is_ok res then next_at else r.read_at;
              },
            )
      ]
    where
      next_at : ℕ
      next_at = get_idx_unchecked r 1

  -- `dequeue_one`, and the read through the reference that it returns.
  unfoldable pub dequeue_one : RingBuffer A → Checked (Result Empty (Result Empty A) × RingBuffer A)
  unfolding dequeue_one_with
  dequeue_one r = dequeue_one_with (λ x. (x, ok x)) r

  -- "Ring is currently empty. Reset `read_at` to optimize for contiguous space."
  abbrev pub rewind_empty : RingBuffer A → RingBuffer A
  rewind_empty r = if r.length == 0 then record r { read_at = 0 } else r

  -- `enqueue_many_with` from `let write_at` on: `f` returns the slice, the number of elements and its
  -- result.
  unfoldable pub write_chunk {κ} :
      {R : Type κ} → (List A → List A × ℕ × R) → RingBuffer A → Checked (ℕ × R × RingBuffer A)
  write_chunk f r =
      let (buf, size, result) = f (slice r.storage write_at max_size) in
      if leb size max_size
      then some (
        size,
        result,
        record r { storage = overwrite r.storage write_at buf; length = r.length + size },
      )
      else none
    where
      write_at : ℕ
      write_at = get_idx r r.length

      max_size : ℕ
      max_size = contiguous_window r

  unfoldable pub enqueue_many_with {κ} :
      {R : Type κ} → (List A → List A × ℕ × R) → RingBuffer A → Checked (ℕ × R × RingBuffer A)
  enqueue_many_with f r = write_chunk f (rewind_empty r)

  -- `enqueue_many`, and what `fill` writes to the slice that it returns.
  unfoldable pub enqueue_many : (List A → List A) → ℕ → RingBuffer A → Checked (ℕ × RingBuffer A)
  unfolding enqueue_many_with write_chunk
  enqueue_many fill size r =
      elim (enqueue_many_with
        (λ buf. let n = min size (length buf) in (fill (take n buf) ++ drop n buf, n, n)) r) [
          | none ↦ none
          | some (_, n, r') ↦ some (n, r')
        ]

  -- The closures of `enqueue_slice`: copy what fits, and return the rest of the input.
  abbrev pub copy_in : List A → List A → List A × ℕ × List A
  copy_in input buf =
      let size = min (length buf) (length input) in
      (overwrite buf 0 (take size input), size, drop size input)

  pub enqueue_slice : List A → RingBuffer A → Checked (ℕ × RingBuffer A)
  enqueue_slice input r = elim (enqueue_many_with (copy_in input) r) [
    | none ↦ none
    | some (size_1, rest, r1) ↦ elim (enqueue_many_with (copy_in rest) r1) [
      | none ↦ none
      | some (size_2, _, r2) ↦ some (size_1 + size_2, r2)
    ]
  ]

  -- The closure reads the slice and returns the number of elements to dequeue and its result; a
  -- closure that writes there writes to elements that leave the queue.
  unfoldable pub dequeue_many_with {κ} :
      {R : Type κ} → (List A → List A × ℕ × R) → RingBuffer A → Checked (ℕ × R × RingBuffer A)
  dequeue_many_with f r =
      let (buf, size, result) = f (slice r.storage r.read_at max_size) in
      if leb size max_size
      then some (
        size,
        result,
        record {
          storage = overwrite r.storage r.read_at buf;
          read_at = if ltb 0 (capacity r) then (r.read_at + size) % capacity r else 0;
          length = r.length - size;
        },
      )
      else none
    where
      max_size : ℕ
      max_size = min (len r) (capacity r - r.read_at)

  -- `dequeue_many`, and the read of the slice that it returns.
  unfoldable pub dequeue_many : ℕ → RingBuffer A → Checked (List A × RingBuffer A)
  unfolding dequeue_many_with
  dequeue_many size r =
      elim (dequeue_many_with (λ buf. let n = min size (length buf) in (buf, n, take n buf)) r) [
        | none ↦ none
        | some (_, out, r') ↦ some (out, r')
      ]

  -- The closures of `dequeue_slice`, for a target of `size` elements.
  abbrev pub copy_out : ℕ → List A → List A × ℕ × List A
  copy_out size buf = let n = min (length buf) size in (buf, n, take n buf)

  -- `dequeue_slice` into a slice of `size` elements: how many it wrote there, and which.
  pub dequeue_slice : ℕ → RingBuffer A → Checked (ℕ × List A × RingBuffer A)
  dequeue_slice size r = elim (dequeue_many_with (copy_out size) r) [
    | none ↦ none
    | some (size_1, out_1, r1) ↦ elim (dequeue_many_with (copy_out (size - size_1)) r1) [
      | none ↦ none
      | some (size_2, out_2, r2) ↦ some (size_1 + size_2, out_1 ++ out_2, r2)
    ]
  ]

  -- Where the slice of `get_unallocated` starts and how long it is.
  abbrev pub get_unallocated : RingBuffer A → ℕ → ℕ → ℕ × ℕ
  get_unallocated r offset size =
      let start_at = get_idx r (r.length + offset) in
      if ltb (window r) offset
      then (0, 0)
      else let clamped = (if ltb (window r - offset) size then window r - offset else size) in
        let until_end = capacity r - start_at in
        (start_at, if ltb until_end clamped then until_end else clamped)

  -- One of the two copies of `write_unallocated`.
  abbrev pub write_once : RingBuffer A → ℕ → List A → ℕ × RingBuffer A
  write_once r offset input =
      let (start_at, size) = get_unallocated r offset (length input) in
      (size, record r { storage = overwrite r.storage start_at (take size input) })

  pub write_unallocated : RingBuffer A → ℕ → List A → ℕ × RingBuffer A
  write_unallocated r offset input =
      let (size_1, r1) = write_once r offset input in
      let (size_2, r2) = write_once r1 (offset + size_1) (drop size_1 input) in
      (size_1 + size_2, r2)

  unfoldable pub enqueue_unallocated : RingBuffer A → ℕ → Checked (RingBuffer A)
  enqueue_unallocated r count =
      if leb count (window r) then some (record r { length = r.length + count }) else none

  unfoldable pub get_allocated : RingBuffer A → ℕ → ℕ → List A
  get_allocated r offset size =
      let start_at = get_idx r offset in
      if ltb r.length offset
      then []
      else let clamped = (if ltb (r.length - offset) size then r.length - offset else size) in
        let until_end = capacity r - start_at in
        slice r.storage start_at (if ltb until_end clamped then until_end else clamped)

  -- `read_allocated` into a slice of `size` elements: how many it wrote there, and which.
  pub read_allocated : RingBuffer A → ℕ → ℕ → ℕ × List A
  unfolding get_allocated
  read_allocated r offset size =
      let first = get_allocated r offset size in
      let second = get_allocated r (offset + length first) (size - length first) in
      (length first + length second, first ++ second)

  unfoldable pub dequeue_allocated : RingBuffer A → ℕ → Checked (RingBuffer A)
  dequeue_allocated r count =
      if leb count (len r)
      then some (record r { length = r.length - count; read_at = get_idx r count })
      else none
