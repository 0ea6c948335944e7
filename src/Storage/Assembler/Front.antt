-- ===== src/Storage/Assembler/Front.antt =====
-- `remove_front`, `add_then_remove_front` and `iter_data`.
use smoltcp.Prelude.{
  ℕ, ◌+◌, ◌-◌, ◌%◌, ◌^◌, ◌≤◌, ◌<◌, ◌≡◌, refl, ap, sym, inl, inr, Bool, true, false, ◌&&◌, ◌||◌, not,
  List, [], ◌∷◌, ◌∙◌, ltb, leb, ◌==◌, arith, Result, ok, err, Bool-cases,
}
use smoltcp.Storage.Assembler.{
  Contig, Contigs, TooManyHoles, total_size, has_data, has_hole, shrink_front, remove_contig_at,
  add_at, add_from, add, remove_front, then_remove_front, add_then_remove_front, iter_from,
  iter_data,
}
use smoltcp.Storage.Assembler.Invariant.{
  IsChain, IsValid, covers, in_range, covers-AllEmpty, IsChain-weaken, covers-shift_left,
  shift_left-IsChain,
}
use smoltcp.Storage.Assembler.Add.{Adds, add-Adds}

-- What is left after the contiguous octets at the front were taken from a set of octets.
pub record Removes (before : ℕ → Bool) (out : ℕ × Contigs) : Type 0 where
  pub valid : IsValid out.1
  pub taken : (n : ℕ) → n < out.0 → before n ≡ true
  pub shifted : (n : ℕ) → covers out.1 n ≡ before (n + out.0)
  pub maximal : covers out.1 0 ≡ false

covers-take_first :
    (c : Contig) (cs : Contigs) (n : ℕ)
    → c.hole_size ≡ 0
    → covers cs n ≡ covers (c ∷ cs) (n + c.data_size)
unfolding covers
covers-take_first c cs n h = ground (arith, ap (covers cs) (cancel n c.hole_size c.data_size h))
  where
    cancel : (n h d : ℕ) → h ≡ 0 → n + d - (h + d) ≡ n
    cancel n h d e = omega arith

covers_front : (cs : Contigs) → IsChain 1 cs → covers cs 0 ≡ false
unfolding covers
covers_front [] v = refl
covers_front (c ∷ cs) (inl v) = ground arith
covers_front (c ∷ cs) (inr e) = covers-AllEmpty (c ∷ cs) 0 e

Removes-nothing : (cs : Contigs) → IsValid cs → covers cs 0 ≡ false → Removes (covers cs) (0, cs)
Removes-nothing cs v e = record {
  valid = v;
  taken = λ n h. absurd (omega arith);
  shifted = λ n. ap (covers cs) (omega arith);
  maximal = e;
}

-- Taking the front of a well-formed assembler returns the number of octets that are present from
-- offset 0 on, and leaves a well-formed assembler of what lies beyond them.
pub remove_front-Removes : (cs : Contigs) → IsValid cs → Removes (covers cs) (remove_front cs)
unfolding remove_front remove_contig_at covers
remove_front-Removes [] v = Removes-nothing [] tt refl
remove_front-Removes (c ∷ cs) (inl v) = elim (Bool-cases (has_hole c)) [
  | inl hole ↦ rw hole (Removes-nothing (c ∷ cs) (inl v) (ground arith))
  | inr start ↦
      rw (start, filled)
        (record {
          valid = IsChain-weaken _ (shift_left-IsChain c cs filled v.2);
          taken = λ n h. ground arith;
          shifted =
              λ n. covers-shift_left c cs n filled v.2 ∙ covers-take_first c cs n (ground arith);
          maximal = covers_front _ (shift_left-IsChain c cs filled v.2);
        })
]
  where
    filled : has_data c ≡ true
    filled = ground arith
remove_front-Removes (c ∷ cs) (inr e) =
    rw (no_hole, no_data) (Removes-nothing (c ∷ cs) (inr e) (covers-AllEmpty (c ∷ cs) 0 e))
  where
    no_hole : has_hole c ≡ false
    no_hole = ground arith

    no_data : has_data c ≡ false
    no_data = ground arith

abbrev pub with_range : Contigs → ℕ → ℕ → ℕ → Bool
with_range cs offset size n = in_range offset (offset + size) n || covers cs n

abbrev pub AddsRemoves : Contigs → ℕ → ℕ → Result TooManyHoles (ℕ × Contigs) → Type 0
AddsRemoves cs offset size (err e) = Unit {0}
AddsRemoves cs offset size (ok out) = Removes (with_range cs offset size) out

Removes-with_range :
    (cs : Contigs) (offset size : ℕ) (r : Result TooManyHoles Contigs)
    → Adds 0 offset (offset + size) cs r
    → AddsRemoves cs offset size (then_remove_front r)
Removes-with_range cs offset size (err e) a = tt
Removes-with_range cs offset size (ok cs') a = record {
  valid = removed.valid;
  taken = λ n h. sym (a.1 n) ∙ removed.taken n h;
  shifted = λ n. removed.shifted n ∙ a.1 _;
  maximal = removed.maximal;
}
  where
    removed : Removes (covers cs') (remove_front cs')
    removed = remove_front-Removes cs' a.0

Removes-shrink_front :
    (c : Contig) (cs : Contigs) (size : ℕ)
    → IsValid (c ∷ cs)
    → size < c.hole_size
    → Removes (with_range (c ∷ cs) 0 size) (size, shrink_front (c ∷ cs) size)
unfolding covers
Removes-shrink_front c cs size (inr e) h = absurd (omega arith)
Removes-shrink_front c cs size (inl v) h = record {
  valid = inl (omega arith, v.1, v.2);
  taken = λ n k. ground arith;
  shifted = λ n. ground (arith, ap (covers cs) (shifted_total n size c.hole_size c.data_size h));
  maximal = ground arith;
}
  where
    shifted_total : (n s h d : ℕ) → s < h → n - (h - s + d) ≡ n + s - (h + d)
    shifted_total n s h d p = omega arith

-- Whenever `add_then_remove_front` succeeds on a well-formed assembler, the number that it returns
-- counts the octets present from offset 0 on once the range is added, it is the largest such number,
-- and the assembler that is left is well formed and records what lies beyond them.
pub add_then_remove_front-AddsRemoves :
    (cs : Contigs) (offset size : ℕ)
    → IsValid cs
    → AddsRemoves cs offset size (add_then_remove_front cs offset size)
unfolding add_then_remove_front
add_then_remove_front-AddsRemoves [] offset size v =
    rw no_room (Removes-with_range [] offset size _ (add-Adds [] offset size v))
  where
    no_room : ((offset == 0) && ltb size 0) ≡ false
    no_room = ground arith
add_then_remove_front-AddsRemoves (c ∷ cs) offset size v =
    elim (Bool-cases ((offset == 0) && ltb size c.hole_size)) [
      | inl early ↦
          let at_start : offset ≡ 0 = ground arith in
          rw (early, at_start) (Removes-shrink_front c cs size v (ground arith))
      | inr late ↦
          rw late (Removes-with_range (c ∷ cs) offset size _ (add-Adds (c ∷ cs) offset size v))
    ]

module _ (c : Contig) (cs : Contigs) (v : IsValid (c ∷ cs)) (size : ℕ) where
  add_from_at_start : c.hole_size ≤ size → (cs' : Contigs) × (add_from 0 size (c ∷ cs) ≡ ok cs')
  unfolding add_from add_at
  add_from_at_start h = elim (Bool-cases (not (has_data c))) [
    | inl unused ↦ rw unused (_, refl)
    | inr used ↦
        rw (used, starts_here)
          (elim (Bool-cases (ltb 0 c.hole_size)) [
            | inl hole ↦ rw (hole, beyond h) (_, refl)
            | inr start ↦ rw start (_, refl)
          ])
  ]
    where
      starts_here : leb 0 (total_size c) ≡ true
      starts_here = ground arith

      beyond : c.hole_size ≤ size → ltb (0 + size) c.hole_size ≡ false
      beyond h' = ground arith

  -- The next expected segment is never refused: with an array of at least one entry that is well
  -- formed, `add_then_remove_front` at offset 0 succeeds.
  pub add_then_remove_front_at_start :
      (out : ℕ × Contigs) × (add_then_remove_front (c ∷ cs) 0 size ≡ ok out)
  unfolding add_then_remove_front add
  add_then_remove_front_at_start = elim (Bool-cases (ltb size c.hole_size)) [
    | inl early ↦ rw early (_, refl)
    | inr late ↦ elim (Bool-cases (size == 0)) [
      | inl nothing ↦ rw (late, nothing) (_, refl)
      | inr something ↦
          let (cs', e) = add_from_at_start (ground arith) in rw (late, something, e) (_, refl)
    ]
  ]

-- Whether an octet lies in one of some ranges.
pub covered_by : List (ℕ × ℕ) → ℕ → Bool
covered_by [] n = false
covered_by ((from, to) ∷ ranges) n = in_range from to n || covered_by ranges n

-- How far the entries reach.
unfoldable pub extent : Contigs → ℕ
extent [] = 0
extent (c ∷ cs) = c.hole_size + c.data_size + extent cs

covered_by-iter_from :
    (offset left : ℕ) (cs : Contigs) (m : ℕ)
    → left + extent cs + offset < 2 ^ 64
    → covered_by (iter_from offset left cs) m
      ≡ (leb (left + offset) m && covers cs (m - (left + offset)))
unfolding iter_from covered_by covers extent
covered_by-iter_from offset left [] m small = ground arith
covered_by-iter_from offset left (c ∷ cs) m small =
    rw (fits_left, fits_right, start_fits, end_fits)
      (ground (
        arith,
        covered_by-iter_from offset (left + c.hole_size + c.data_size) cs m (omega arith),
        covered_by-iter_from offset (left + c.hole_size) cs m (omega arith),
        ap (covers cs) (further m left offset c.hole_size c.data_size),
        λ (e : c.data_size ≡ 0).
            ap (covers cs) (no_further m left offset c.hole_size c.data_size e),
      ))
  where
    fits_left : (left + c.hole_size) % 2 ^ 64 ≡ left + c.hole_size
    fits_left = omega arith

    fits_right : (left + c.hole_size + c.data_size) % 2 ^ 64 ≡ left + c.hole_size + c.data_size
    fits_right = omega arith

    start_fits : (left + c.hole_size + offset) % 2 ^ 64 ≡ left + c.hole_size + offset
    start_fits = omega arith

    end_fits :
        (left + c.hole_size + c.data_size + offset) % 2 ^ 64
        ≡ left + c.hole_size + c.data_size + offset
    end_fits = omega arith

    further : (m l o h d : ℕ) → m - (l + h + d + o) ≡ m - (l + o) - (h + d)
    further m l o h d = omega arith

    no_further : (m l o h d : ℕ) → d ≡ 0 → m - (l + h + o) ≡ m - (l + o) - (h + d)
    no_further m l o h d e = omega arith

-- Where the octets that are recorded, with the offset given, end below 2 ^ 64, the ranges that
-- `iter_data` yields hold exactly the recorded octets, shifted by that offset, and no octet below it.
pub covered_by-iter_data :
    (cs : Contigs) (first_offset m : ℕ)
    → extent cs + first_offset < 2 ^ 64
    → covered_by (iter_data cs first_offset) m
      ≡ (leb first_offset m && covers cs (m - first_offset))
unfolding iter_data
covered_by-iter_data cs first_offset m small =
    covered_by-iter_from first_offset 0 cs m (omega arith)
    ∙ ap (λ t. leb t m && covers cs (m - t)) {x = 0 + first_offset} (omega arith)
