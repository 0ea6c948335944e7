-- ===== src/Storage/Assembler/Outcome.antt =====
-- `Assembler::add` and `Assembler::add_then_remove_front`: when they refuse a range, and what they
-- leave behind otherwise.
use smoltcp.Prelude.{
  arith, not, ℕ, ◌+◌, ◌-◌, ◌≡◌, refl, sym, ◌∙◌, ◌⊎◌, inl, inr, true, ◌&&◌, ◌||◌, [], ◌∷◌, ltb, leb,
  ◌==◌, Bool-cases, Result, ok, err,
}
use smoltcp.Storage.Assembler.{
  Contig, Contigs, TooManyHoles, back, has_data, total_size, add_contig_at, add_at, add_from, add,
  keep_front, then_remove_front, add_then_remove_front, shrink_hole_by,
}
use smoltcp.Storage.Assembler.Invariant.{IsValid, covers, in_range}
use smoltcp.Storage.Assembler.Add.{Adds, add-Adds}
use smoltcp.Storage.Assembler.Front.{
  Removes, AddsRemoves, add_then_remove_front-AddsRemoves, with_range,
}

-- An assembler whose last entry is in use: there is no room for one more hole.
abbrev pub IsFull : Contigs → Type 0
IsFull cs = has_data (back cs) ≡ true

-- A refusal comes from a full assembler.
abbrev ErrsFull : {A : Type 0} → Contigs → Result TooManyHoles A → Type 0
ErrsFull cs (ok a) = Unit {0}
ErrsFull cs (err e) = IsFull cs

back-same_data :
    (c d : Contig) (cs : Contigs)
    → d.data_size ≡ c.data_size
    → has_data (back (d ∷ cs)) ≡ has_data (back (c ∷ cs))
back-same_data c d [] e = rw e refl
back-same_data c d (x ∷ cs) e = refl

add_at-ErrsFull :
    (offset size : ℕ) (c : Contig) (cs : Contigs) → ErrsFull (c ∷ cs) (add_at offset size c cs)
unfolding add_at add_contig_at
add_at-ErrsFull offset size c cs = elim (Bool-cases (ltb offset c.hole_size)) [
  | inr late ↦ rw late tt
  | inl early ↦ elim (Bool-cases (ltb (offset + size) c.hole_size)) [
    | inr wide ↦ rw (early, wide) tt
    | inl inside ↦ elim (Bool-cases (has_data (back (shrink_hole_by c (offset + size) ∷ cs)))) [
      | inr room ↦ rw (early, inside, room) tt
      | inl full ↦ rw (early, inside, full) (sym (back-same_data c _ cs refl) ∙ full)
    ]
  ]
]

keep_front-ErrsFull :
    (c d : Contig) (ds : Contigs) (r : Result TooManyHoles Contigs)
    → ErrsFull (d ∷ ds) r
    → ErrsFull (c ∷ d ∷ ds) (keep_front c r)
keep_front-ErrsFull c d ds (ok a) h = tt
keep_front-ErrsFull c d ds (err e) h = h

add_from-ErrsFull :
    (offset size : ℕ) (c : Contig) (cs : Contigs)
    → ErrsFull (c ∷ cs) (add_from offset size (c ∷ cs))
unfolding add_from
add_from-ErrsFull offset size c [] = elim (Bool-cases (not (has_data c))) [
  | inl unused ↦ rw unused tt
  | inr used ↦ elim (Bool-cases (leb offset (total_size c))) [
    | inl here ↦ rw (used, here) (add_at-ErrsFull offset size c [])
    | inr later ↦ rw (used, later) (ground arith)
  ]
]
add_from-ErrsFull offset size c (d ∷ ds) = elim (Bool-cases (not (has_data c))) [
  | inl unused ↦ rw unused tt
  | inr used ↦ elim (Bool-cases (leb offset (total_size c))) [
    | inl here ↦ rw (used, here) (add_at-ErrsFull offset size c (d ∷ ds))
    | inr later ↦
        rw (used, later)
          (keep_front-ErrsFull c d ds (add_from (offset - total_size c) size (d ∷ ds))
            (add_from-ErrsFull (offset - total_size c) size d ds))
  ]
]

add-ErrsFull :
    (c : Contig) (cs : Contigs) (offset size : ℕ) → ErrsFull (c ∷ cs) (add (c ∷ cs) offset size)
unfolding add
add-ErrsFull c cs offset size = elim (Bool-cases (size == 0)) [
  | inl nothing ↦ rw nothing tt
  | inr something ↦ rw something (add_from-ErrsFull offset size c cs)
]

-- `add` on an array of at least one entry that is well formed either refuses the range, and then the
-- last entry is in use, or succeeds with a well-formed array, which records exactly the octets that
-- were recorded before and those of the added range.
pub add_lem :
    (c : Contig) (cs : Contigs) (offset size : ℕ)
    → IsValid (c ∷ cs)
    → ((e : TooManyHoles) × (add (c ∷ cs) offset size ≡ err e) × IsFull (c ∷ cs))
      ⊎ ((cs' : Contigs) × (add (c ∷ cs) offset size ≡ ok cs')
          × IsValid cs'
          × ((n : ℕ) → covers cs' n ≡ (in_range offset (offset + size) n || covers (c ∷ cs) n)))
add_lem c cs offset size v =
    outcome _ (add-Adds (c ∷ cs) offset size v) (add-ErrsFull c cs offset size)
  where
    outcome :
        (r : Result TooManyHoles Contigs)
        → Adds 0 offset (offset + size) (c ∷ cs) r
        → ErrsFull (c ∷ cs) r
        → ((e : TooManyHoles) × (r ≡ err e) × IsFull (c ∷ cs))
          ⊎ ((cs' : Contigs) × (r ≡ ok cs')
              × IsValid cs'
              × ((n : ℕ) → covers cs' n ≡ (in_range offset (offset + size) n || covers (c ∷ cs) n)))
    outcome (ok cs') a f = inr (cs', refl, a.0, a.1)
    outcome (err e) a f = inl (e, refl, f)

-- `add_then_remove_front` on an array of at least one entry that is well formed either refuses the
-- range, and then the last entry is in use, or succeeds; then the
-- number it returns counts the octets present from offset 0 on once the range is added, it is the
-- largest such number, and the well-formed array that is left records what lies beyond them.
pub add_then_remove_front_lem :
    (c : Contig) (cs : Contigs) (offset size : ℕ)
    → IsValid (c ∷ cs)
    → ((e : TooManyHoles) × (add_then_remove_front (c ∷ cs) offset size ≡ err e) × IsFull (c ∷ cs))
      ⊎ ((out : ℕ × Contigs) × (add_then_remove_front (c ∷ cs) offset size ≡ ok out)
          × Removes (with_range (c ∷ cs) offset size) out)
unfolding add_then_remove_front
add_then_remove_front_lem c cs offset size v =
    outcome _ (add_then_remove_front-AddsRemoves (c ∷ cs) offset size v) errs
  where
    after_add :
        (r : Result TooManyHoles Contigs)
        → ErrsFull (c ∷ cs) r
        → ErrsFull (c ∷ cs) (then_remove_front r)
    after_add (ok a) f = tt
    after_add (err e) f = f

    errs : ErrsFull (c ∷ cs) (add_then_remove_front (c ∷ cs) offset size)
    errs = elim (Bool-cases ((offset == 0) && ltb size c.hole_size)) [
      | inl early ↦ rw early tt
      | inr late ↦ rw late (after_add _ (add-ErrsFull c cs offset size))
    ]

    outcome :
        (r : Result TooManyHoles (ℕ × Contigs))
        → AddsRemoves (c ∷ cs) offset size r
        → ErrsFull (c ∷ cs) r
        → ((e : TooManyHoles) × (r ≡ err e) × IsFull (c ∷ cs))
          ⊎ ((out : ℕ × Contigs) × (r ≡ ok out) × Removes (with_range (c ∷ cs) offset size) out)
    outcome (ok out) a f = inr (out, refl, a)
    outcome (err e) a f = inl (e, refl, f)
