-- ===== src/Storage/Assembler/Add.antt =====
-- `Assembler::add` and `Assembler::add_then_remove_front`.
use smoltcp.Prelude.{
  ℕ, ◌+◌, ◌-◌, ◌≤◌, ◌<◌, ◌≡◌, ap, inl, inr, true, false, ◌||◌, not, [], ◌∷◌, ◌∙◌, ltb, leb, ◌==◌,
  arith, Result, ok, err, Bool-cases,
}
use smoltcp.Storage.Assembler.{
  Contig, Contigs, TooManyHoles, total_size, has_data, back, shrink_hole_by, shrink_hole_to,
  hole_and_data, add_contig_at, merge, add_at, add_from, add, keep_front,
}
use smoltcp.Storage.Assembler.Invariant.{
  AllEmpty, IsChain, IsValid, covers, in_range, covers-AllEmpty, AllEmpty-IsChain,
  covers-shift_right, shift_right-IsChain,
}
use smoltcp.Storage.Assembler.Coalesce.{covers-merge, merge-IsChain}

-- What a successful addition of a range leaves.
abbrev pub Adds : ℕ → ℕ → ℕ → Contigs → Result TooManyHoles Contigs → Type 0
Adds low from to cs (err e) = Unit {0}
Adds low from to cs (ok cs') =
    IsChain low cs' × ((n : ℕ) → covers cs' n ≡ (in_range from to n || covers cs n))

covers-split :
    (offset size : ℕ) (c : Contig) (cs : Contigs) (n : ℕ)
    → offset + size < c.hole_size
    → covers (hole_and_data offset size ∷ shrink_hole_by c (offset + size) ∷ cs) n
      ≡ (in_range offset (offset + size) n || covers (c ∷ cs) n)
unfolding covers
covers-split offset size c cs n h =
    ground (arith, ap (covers cs) (shifted n (offset + size) c.hole_size c.data_size h))
  where
    shifted : (n e h x : ℕ) → e < h → n - e - (h - e + x) ≡ n - (h + x)
    shifted n e h x p = omega arith

covers-shrink_hole_to :
    (offset to : ℕ) (c : Contig) (cs : Contigs) (n : ℕ)
    → offset < c.hole_size
    → c.hole_size ≤ to
    → (in_range offset to n || covers (shrink_hole_to c offset ∷ cs) n)
      ≡ (in_range offset to n || covers (c ∷ cs) n)
unfolding covers
covers-shrink_hole_to offset to c cs n h k =
    ground (arith, ap (λ t. covers cs (n - t)) (same_total offset c.hole_size c.data_size h))
  where
    same_total : (o h x : ℕ) → o < h → o + (h + x - o) ≡ h + x
    same_total o h x p = omega arith

-- A range that starts inside the entry's data needs no room before it.
covers-start_later :
    (from to : ℕ) (c : Contig) (cs : Contigs) (n : ℕ)
    → c.hole_size ≤ from
    → from ≤ total_size c
    → (in_range c.hole_size to n || covers (c ∷ cs) n) ≡ (in_range from to n || covers (c ∷ cs) n)
unfolding covers
covers-start_later from to c cs n h k = ground arith

module _ (low offset size : ℕ) (low_le : low ≤ offset) (some_data : 0 < size) (c : Contig)
    (cs : Contigs) (used : 0 < c.data_size) (chain : IsChain 1 cs) where
  within_hole :
      offset + size < c.hole_size
      → Adds low offset
          (offset + size)
          (c ∷ cs)
          (add_contig_at (hole_and_data offset size) (shrink_hole_by c (offset + size) ∷ cs))
  unfolding add_contig_at
  within_hole h = elim (Bool-cases (has_data (back (moved ∷ cs)))) [
    | inl full ↦ rw full tt
    | inr spare ↦ rw spare (
      shift_right-IsChain low inserted moved cs low_le some_data (inl (omega arith, used, chain))
          spare,
      λ n.
          covers-shift_right inserted moved cs n (inl (omega arith, used, chain)) spare
          ∙ covers-split offset size c cs n h,
    )
  ]
    where
      inserted : Contig
      inserted = hole_and_data offset size

      moved : Contig
      moved = shrink_hole_by c (offset + size)

  into_hole :
      offset < c.hole_size
      → c.hole_size ≤ offset + size
      → Adds low offset
          (offset + size)
          (c ∷ cs)
          (ok (merge (offset + size) (shrink_hole_to c offset) cs))
  into_hole h k = (
    merge-IsChain (offset + size) (shrink_hole_to c offset) cs chain low low_le (omega arith),
    λ n.
        covers-merge (offset + size) (shrink_hole_to c offset) cs chain n
        ∙ covers-shrink_hole_to offset (offset + size) c cs n h k,
  )

  into_data :
      low ≤ c.hole_size
      → c.hole_size ≤ offset
      → offset ≤ total_size c
      → Adds low offset (offset + size) (c ∷ cs) (ok (merge (offset + size) c cs))
  into_data l h k = (
    merge-IsChain (offset + size) c cs chain low l used,
    λ n.
        covers-merge (offset + size) c cs chain n
        ∙ covers-start_later offset (offset + size) c cs n h k,
  )

  add_at-Adds :
      low ≤ c.hole_size
      → offset ≤ total_size c
      → Adds low offset (offset + size) (c ∷ cs) (add_at offset size c cs)
  unfolding add_at
  add_at-Adds l k = elim (Bool-cases (ltb offset c.hole_size)) [
    | inl before ↦ elim (Bool-cases (ltb (offset + size) c.hole_size)) [
      | inl ends ↦ rw (before, ends) (within_hole (ground arith))
      | inr beyond ↦ rw (before, beyond) (into_hole (ground arith) (ground arith))
    ]
    | inr after ↦ rw after (into_data l (ground arith) k)
  ]

Adds-keep_front :
    (low offset size : ℕ) (c : Contig) (cs : Contigs) (r : Result TooManyHoles Contigs)
    → low ≤ c.hole_size
    → 0 < c.data_size
    → total_size c < offset
    → Adds 1 (offset - total_size c) (offset - total_size c + size) cs r
    → Adds low offset (offset + size) (c ∷ cs) (keep_front c r)
unfolding covers
Adds-keep_front low offset size c cs (err e) l p h a = tt
Adds-keep_front low offset size c cs (ok cs') l p h a =
    (inl (l, p, a.0), λ n. ground (arith, a.1 (n - total_size c)))

covers-first :
    (offset size : ℕ) (c : Contig) (cs : Contigs) (n : ℕ)
    → AllEmpty (c ∷ cs)
    → covers (hole_and_data offset size ∷ cs) n
      ≡ (in_range offset (offset + size) n || covers (c ∷ cs) n)
unfolding covers
covers-first offset size c cs n e =
    ground (
      arith,
      covers-AllEmpty cs (n - (offset + size)) e.2,
      covers-AllEmpty cs (n - total_size c) e.2,
    )

add_from-Adds :
    (low offset size : ℕ) (cs : Contigs)
    → low ≤ offset
    → 0 < size
    → IsChain low cs
    → Adds low offset (offset + size) cs (add_from offset size cs)
unfolding add_from
add_from-Adds low offset size [] l p v = tt
add_from-Adds low offset size (c ∷ cs) l p (inr e) =
    rw (unused c e.1)
      (inl (l, p, AllEmpty-IsChain 1 cs e.2), λ n. covers-first offset size c cs n e)
  where
    unused : (c : Contig) → c.data_size ≡ 0 → not (has_data c) ≡ true
    unused c z = ground arith
add_from-Adds low offset size (c ∷ cs) l p (inl v) =
    rw (used c v.1) (elim (Bool-cases (leb offset (total_size c))) [
      | inl here ↦ rw here (add_at-Adds low offset size l p c cs v.1 v.2 v.0 (ground arith))
      | inr later ↦ rw later (
          Adds-keep_front low offset size c cs _ v.0 v.1 (ground arith)
            (add_from-Adds 1 (offset - total_size c) size cs (ground arith) p v.2))
    ])
  where
    used : (c : Contig) → 0 < c.data_size → not (has_data c) ≡ false
    used c z = ground arith

-- Whenever `add` succeeds on a well-formed assembler, the result is well formed, and it records
-- exactly the octets that were recorded before and those of the added range.
pub add-Adds :
    (cs : Contigs) (offset size : ℕ)
    → IsValid cs
    → Adds 0 offset (offset + size) cs (add cs offset size)
unfolding add
add-Adds cs offset size v = elim (Bool-cases (size == 0)) [
  | inl nothing ↦ rw nothing (v, λ n. ground arith)
  | inr something ↦ rw something (add_from-Adds 0 offset size cs (omega arith) (ground arith) v)
]
