-- ===== src/Storage/Assembler.antt =====
-- storage/assembler.rs: the reassembly map of a TCP receive buffer.
--
-- The array `contigs` of ASSEMBLER_MAX_SEGMENT_COUNT entries is a list of that length; a loop over
-- an index is a recursion on the part of the list that starts at the index.
pub mod Invariant
pub mod Coalesce
pub mod Add
pub mod Front
pub mod Outcome
use smoltcp.Prelude.{
  ℕ, zero, suc, ◌+◌, ◌-◌, ◌%◌, ◌^◌, Bool, ◌&&◌, not, List, [], ◌∷◌, ltb, leb, ◌==◌, if◌then◌else◌,
  Result, ok, err, replicate,
}

pub record Contig : Type 0 where
  pub hole_size : ℕ
  pub data_size : ℕ

abbrev pub Contigs : Type 0
Contigs = List Contig

-- `TooManyHolesError`
pub data TooManyHoles : Type 0 where
  too_many_holes : TooManyHoles

abbrev pub empty_contig : Contig
empty_contig = record { hole_size = 0; data_size = 0 }

abbrev pub hole_and_data : ℕ → ℕ → Contig
hole_and_data hole_size data_size = record { hole_size = hole_size; data_size = data_size }

abbrev pub has_hole : Contig → Bool
has_hole c = not (c.hole_size == 0)

abbrev pub has_data : Contig → Bool
has_data c = not (c.data_size == 0)

abbrev pub total_size : Contig → ℕ
total_size c = c.hole_size + c.data_size

abbrev pub shrink_hole_by : Contig → ℕ → Contig
shrink_hole_by c size = record c { hole_size = c.hole_size - size }

abbrev pub shrink_hole_to : Contig → ℕ → Contig
shrink_hole_to c size = record { hole_size = size; data_size = total_size c - size }

-- `Assembler::new`, for an array of `count` entries.
unfoldable pub new : ℕ → Contigs
new count = replicate count empty_contig

-- `Assembler::clear` fills the array.
unfoldable pub clear : Contigs → Contigs
clear [] = []
clear (_ ∷ cs) = empty_contig ∷ clear cs

-- `self.contigs[0]`; the array is never empty.
abbrev pub front : Contigs → Contig
front [] = empty_contig
front (c ∷ _) = c

-- `self.contigs[self.contigs.len() - 1]`
abbrev pub back : Contigs → Contig
back [] = empty_contig
back (c ∷ []) = c
back (c ∷ d ∷ cs) = back (d ∷ cs)

unfoldable pub peek_front : Contigs → ℕ
peek_front cs = if has_hole (front cs) then 0 else (front cs).data_size

unfoldable pub is_empty : Contigs → Bool
is_empty cs = not (has_data (front cs))

-- The loop of `remove_contig_at` from its index on: each entry takes its successor's value, up to
-- the first unused one; past the last entry that has a successor, the last one is cleared.
pub shift_left : Contigs → Contigs
shift_left [] = []
shift_left (c ∷ []) = empty_contig ∷ []
shift_left (c ∷ d ∷ cs) =
    let rest = shift_left (d ∷ cs) in if not (has_data c) then c ∷ d ∷ cs else d ∷ rest

pub remove_contig_at : Contigs → ℕ → Contigs
remove_contig_at cs zero = shift_left cs
remove_contig_at [] (suc at) = []
remove_contig_at (c ∷ cs) (suc at) = c ∷ remove_contig_at cs at

-- The loop of `add_contig_at`: each entry takes its predecessor's value, `c` for the first.
pub shift_right : Contig → Contigs → Contigs
shift_right c [] = []
shift_right c (d ∷ cs) = c ∷ shift_right d cs

-- `add_contig_at` at the index where the list starts, with the sizes that its caller writes
-- through the reference it gets back.
pub add_contig_at : Contig → Contigs → Result TooManyHoles Contigs
unfolding shift_right
add_contig_at c cs = if has_data (back cs) then err too_many_holes else ok (shift_right c cs)

-- The `while` loop of `add` that coalesces to the right: the entry at `i`, which grows, the entries
-- from `j` on, and the end of the range. The result has the entries that are left.
pub coalesce : ℕ → Contig → Contigs → Contig × Contigs
coalesce end c [] = (c, [])
coalesce end c (d ∷ ds) =
    let rest = coalesce end (record c { data_size = c.data_size + total_size d }) ds in
    if has_data d && leb (total_size c + d.hole_size) end then rest else (c, d ∷ ds)

-- The `for` loop of `add` that closes the gap after coalescing: `from` are the entries read at
-- `x + shift`.
pub close_gap : Contigs → Contigs → Contigs
close_gap [] from = []
close_gap (c ∷ cs) [] = if not (has_data c) then c ∷ cs else empty_contig ∷ close_gap cs []
close_gap (c ∷ cs) (d ∷ from) = if not (has_data c) then c ∷ cs else d ∷ close_gap cs from

-- "Decrease hole size of the next, if any."
abbrev pub decrease_next : ℕ → Contigs → Contigs
decrease_next left [] = []
decrease_next left (d ∷ ds) = if has_data d then shrink_hole_by d left ∷ ds else d ∷ ds

-- The last part of `add`: extend the entry if the range goes on beyond it.
pub extend : ℕ → Contig → Contigs → Contigs
extend end c cs =
    if ltb (total_size c) end
    then record c { data_size = c.data_size + (end - total_size c) }
      ∷ decrease_next (end - total_size c) cs
    else c ∷ cs

-- `add` from "coalesce contigs to the right" on, with `contigs[i]` and the entries after it.
pub merge : ℕ → Contig → Contigs → Contigs
unfolding coalesce close_gap extend
merge end c cs = let (c', from) = coalesce end c cs in extend end c' (close_gap cs from)

-- `add` at the entry that contains the start of the range.
pub add_at : ℕ → ℕ → Contig → Contigs → Result TooManyHoles Contigs
unfolding add_contig_at merge
add_at offset size c cs =
    if ltb offset c.hole_size
    then if ltb (offset + size) c.hole_size
      then add_contig_at (hole_and_data offset size) (shrink_hole_by c (offset + size) ∷ cs)
      else ok (merge (offset + size) (shrink_hole_to c offset) cs)
    else ok (merge (offset + size) c cs)

abbrev pub keep_front : Contig → Result TooManyHoles Contigs → Result TooManyHoles Contigs
keep_front c (ok cs) = ok (c ∷ cs)
keep_front c (err e) = err e

-- The `loop` of `add` that looks for the entry containing the start of the range.
pub add_from : ℕ → ℕ → Contigs → Result TooManyHoles Contigs
unfolding add_at
add_from offset size [] = err too_many_holes
add_from offset size (c ∷ cs) =
    if not (has_data c)
    then ok (hole_and_data offset size ∷ cs)
    else if leb offset (total_size c)
    then add_at offset size c cs
    else keep_front c (add_from (offset - total_size c) size cs)

pub add : Contigs → ℕ → ℕ → Result TooManyHoles Contigs
add cs offset size = if size == 0 then ok cs else add_from offset size cs

pub remove_front : Contigs → ℕ × Contigs
remove_front cs =
    if has_hole (front cs)
    then (0, cs)
    else if not (has_data (front cs))
    then (0, cs)
    else ((front cs).data_size, remove_contig_at cs zero)

abbrev pub then_remove_front : Result TooManyHoles Contigs → Result TooManyHoles (ℕ × Contigs)
then_remove_front (ok cs) = ok (remove_front cs)
then_remove_front (err e) = err e

-- `self.contigs[0].hole_size -= size`
abbrev pub shrink_front : Contigs → ℕ → Contigs
shrink_front [] size = []
shrink_front (c ∷ cs) size = shrink_hole_by c size ∷ cs

pub add_then_remove_front : Contigs → ℕ → ℕ → Result TooManyHoles (ℕ × Contigs)
unfolding add remove_front
add_then_remove_front cs offset size =
    if (offset == 0) && ltb size (front cs).hole_size
    then ok (size, shrink_front cs size)
    else then_remove_front (add cs offset size)

-- All that `AssemblerIter` yields: the ranges of present data, `offset` added, where `left` is the
-- end of what has been walked. The sums are those of a `usize` of 64 bits, which wraps
-- around.
pub iter_from : ℕ → ℕ → Contigs → List (ℕ × ℕ)
iter_from offset left [] = []
iter_from offset left (c ∷ cs) =
    let left' = (left + c.hole_size) % 2 ^ 64 in
    let right = (left' + c.data_size) % 2 ^ 64 in
    let found = iter_from offset right cs in
    let skipped = iter_from offset left' cs in
    if ltb left' right
    then ((left' + offset) % 2 ^ 64, (right + offset) % 2 ^ 64) ∷ found
    else skipped

pub iter_data : Contigs → ℕ → List (ℕ × ℕ)
unfolding iter_from
iter_data cs first_offset = iter_from first_offset 0 cs
