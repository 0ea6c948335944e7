-- ===== src/Storage/Assembler/Invariant.antt =====
-- The invariant that the source states above `impl Assembler`, and the octets that an assembler
-- records as present.
use smoltcp.Prelude.{
  ℕ, zero, suc, ◌-◌, ◌≤◌, ◌<◌, ◌≡◌, refl, ◌⊎◌, inl, inr, Bool, true, false, ◌&&◌, [], ◌∷◌, ltb, leb,
  if◌then◌else◌, arith, replicate,
}
use smoltcp.Storage.Assembler.{
  Contig, Contigs, empty_contig, total_size, has_data, back, new, clear, shift_left, shift_right,
}

abbrev pub AllEmpty : Contigs → Type 0
AllEmpty [] = Unit
AllEmpty (c ∷ cs) = (c.hole_size ≡ 0) × (c.data_size ≡ 0) × AllEmpty cs

-- Used entries come first, each but the first behind a hole; `low` bounds the first one's hole.
abbrev pub IsChain : ℕ → Contigs → Type 0
IsChain low [] = Unit
IsChain low (c ∷ cs) = ((low ≤ c.hole_size) × (0 < c.data_size) × IsChain 1 cs) ⊎ AllEmpty (c ∷ cs)

abbrev pub IsValid : Contigs → Type 0
IsValid cs = IsChain 0 cs

-- Whether the octet at an offset is recorded as present.
unfoldable pub covers : Contigs → ℕ → Bool
covers [] n = false
covers (c ∷ cs) n =
    if ltb n c.hole_size
    then false
    else if ltb n (total_size c)
    then true
    else covers cs (n - total_size c)

abbrev pub in_range : ℕ → ℕ → ℕ → Bool
in_range from to n = leb from n && ltb n to

pub covers-AllEmpty : (cs : Contigs) (n : ℕ) → AllEmpty cs → covers cs n ≡ false
unfolding covers
covers-AllEmpty [] n e = refl
covers-AllEmpty (c ∷ cs) n e = ground (arith, covers-AllEmpty cs (n - total_size c) (e.2))

pub IsChain-weaken : (cs : Contigs) → IsChain 1 cs → IsChain 0 cs
IsChain-weaken [] v = tt
IsChain-weaken (c ∷ cs) (inl v) = inl (omega arith, v.1, v.2)
IsChain-weaken (c ∷ cs) (inr e) = inr e

-- Shifting left drops the first entry.
pub covers-shift_left :
    (c : Contig) (cs : Contigs) (n : ℕ)
    → has_data c ≡ true
    → IsChain 1 cs
    → covers (shift_left (c ∷ cs)) n ≡ covers cs n
unfolding covers shift_left
covers-shift_left c [] n h v = ground arith
covers-shift_left c (d ∷ cs) n h (inl v) =
    ground (arith, covers-shift_left d cs (n - total_size d) (ground arith) v.2)
covers-shift_left c (d ∷ []) n h (inr e) = ground arith
covers-shift_left c (d ∷ x ∷ cs) n h (inr e) = ground arith

pub shift_left-IsChain :
    (c : Contig) (cs : Contigs) → has_data c ≡ true → IsChain 1 cs → IsChain 1 (shift_left (c ∷ cs))
unfolding shift_left
shift_left-IsChain c [] h v = inr (refl, refl, tt)
shift_left-IsChain c (d ∷ cs) h (inl v) = ground (arith, shift_left-IsChain d cs (ground arith) v.2)
shift_left-IsChain c (d ∷ []) h (inr e) = ground arith
shift_left-IsChain c (d ∷ x ∷ cs) h (inr e) = ground arith

-- Shifting right puts an entry in front, if the last one is unused.
pub covers-shift_right :
    (c d : Contig) (cs : Contigs) (n : ℕ)
    → IsChain 1 (d ∷ cs)
    → has_data (back (d ∷ cs)) ≡ false
    → covers (shift_right c (d ∷ cs)) n ≡ covers (c ∷ d ∷ cs) n
unfolding covers shift_right
covers-shift_right c d [] n v h = ground arith
covers-shift_right c d (x ∷ cs) n (inl v) h =
    ground (arith, covers-shift_right d x cs (n - total_size c) v.2 h)
covers-shift_right c d (x ∷ cs) n (inr e) h =
    ground (arith, covers-shift_right d x cs (n - total_size c) (inr e.2) h)

shift_right-AllEmpty : (c : Contig) (cs : Contigs) → AllEmpty (c ∷ cs) → AllEmpty (shift_right c cs)
unfolding shift_right
shift_right-AllEmpty c [] e = tt
shift_right-AllEmpty c (d ∷ cs) e = (e.0, e.1, shift_right-AllEmpty d cs e.2)

pub shift_right-IsChain :
    (low : ℕ) (c d : Contig) (cs : Contigs)
    → low ≤ c.hole_size
    → 0 < c.data_size
    → IsChain 1 (d ∷ cs)
    → has_data (back (d ∷ cs)) ≡ false
    → IsChain low (shift_right c (d ∷ cs))
unfolding shift_right
shift_right-IsChain low c d [] l p v h = inl (l, p, tt)
shift_right-IsChain low c d (x ∷ cs) l p (inl v) h =
    inl (l, p, shift_right-IsChain 1 d x cs v.0 v.1 v.2 h)
shift_right-IsChain low c d (x ∷ cs) l p (inr e) h =
    inl (l, p, inr (e.0, e.1, shift_right-AllEmpty x cs e.2))

replicate-AllEmpty : (count : ℕ) → AllEmpty (replicate count empty_contig)
replicate-AllEmpty zero = tt
replicate-AllEmpty (suc n) = (refl, refl, replicate-AllEmpty n)

pub AllEmpty-IsChain : (low : ℕ) (cs : Contigs) → AllEmpty cs → IsChain low cs
AllEmpty-IsChain low [] e = tt
AllEmpty-IsChain low (c ∷ cs) e = inr e

pub new-AllEmpty : (count : ℕ) → AllEmpty (new count)
unfolding new
new-AllEmpty count = replicate-AllEmpty count

pub clear-AllEmpty : (cs : Contigs) → AllEmpty (clear cs)
unfolding clear
clear-AllEmpty [] = tt
clear-AllEmpty (c ∷ cs) = (refl, refl, clear-AllEmpty cs)
