-- ===== src/Storage/Assembler/Coalesce.antt =====
-- The loops in the second half of `Assembler::add`.
use smoltcp.Prelude.{
  ℕ, zero, suc, ◌+◌, ◌-◌, ◌≤◌, ◌<◌, ◌≡◌, refl, ap, ◌⊎◌, inl, inr, ◌&&◌, ◌||◌, [], ◌∷◌, ◌∙◌, sym,
  subst, ltb, leb, arith, drop, Bool-cases,
}
use smoltcp.Storage.Assembler.{
  Contig, Contigs, total_size, has_data, coalesce, close_gap, extend, merge,
}
use smoltcp.Storage.Assembler.Invariant.{
  AllEmpty, IsChain, covers, in_range, covers-AllEmpty, AllEmpty-IsChain,
}

drop-cons :
    (k : ℕ) (c d : Contig) (cs from : Contigs) → drop k (c ∷ cs) ≡ d ∷ from → drop k cs ≡ from
drop-cons zero c d cs from e = cc
drop-cons (suc zero) c d [] from e = cc
drop-cons (suc zero) c d (x ∷ cs) from e = cc
drop-cons (suc (suc k)) c d [] from e = cc
drop-cons (suc (suc k)) c d (x ∷ cs) from e = drop-cons (suc k) x d cs from e

drop-nil : (k : ℕ) (c : Contig) (cs : Contigs) → drop k (c ∷ cs) ≡ [] → drop k cs ≡ []
drop-nil zero c cs e = cc
drop-nil (suc zero) c [] e = refl
drop-nil (suc zero) c (x ∷ cs) e = cc
drop-nil (suc (suc k)) c [] e = refl
drop-nil (suc (suc k)) c (x ∷ cs) e = drop-nil (suc k) x cs e

drop-AllEmpty : (k : ℕ) (cs : Contigs) → AllEmpty cs → AllEmpty (drop k cs)
drop-AllEmpty zero cs e = e
drop-AllEmpty (suc k) [] e = tt
drop-AllEmpty (suc k) (c ∷ cs) e = drop-AllEmpty k cs e.2

-- Why the coalescing loop stops.
abbrev pub Stops : ℕ → Contig → Contigs → Type 0
Stops end c [] = Unit
Stops end c (d ∷ ds) = (d.data_size ≡ 0) ⊎ (end < total_size c + d.hole_size)

pub record Coalesced (end : ℕ) (c : Contig) (cs : Contigs) (out : Contig × Contigs) : Type 0 where
  pub shift : ℕ
  pub left : out.1 ≡ drop shift cs
  pub same_hole : out.0.hole_size ≡ c.hole_size
  pub grown : c.data_size ≤ out.0.data_size
  pub chain : IsChain 1 out.1
  pub stopped : Stops end out.0 out.1

abbrev absorb : Contig → Contig → Contig
absorb c d = record c { data_size = c.data_size + total_size d }

Coalesced-absorb :
    (end : ℕ) (c d : Contig) (ds : Contigs) (out : Contig × Contigs)
    → Coalesced end (absorb c d) ds out
    → Coalesced end c (d ∷ ds) out
Coalesced-absorb end c d ds out h = record {
  shift = suc h.shift;
  left = h.left;
  same_hole = h.same_hole;
  grown = omega (arith, h.grown);
  chain = h.chain;
  stopped = h.stopped;
}

IsChain-rest : (d : Contig) (ds : Contigs) → IsChain 1 (d ∷ ds) → IsChain 1 ds
IsChain-rest d ds (inl v) = v.2
IsChain-rest d ds (inr e) = AllEmpty-IsChain 1 ds e.2

pub coalesce-Coalesced :
    (end : ℕ) (c : Contig) (cs : Contigs) → IsChain 1 cs → Coalesced end c cs (coalesce end c cs)
unfolding coalesce
coalesce-Coalesced end c [] v = record {
  shift = 0;
  left = refl;
  same_hole = refl;
  grown = omega arith;
  chain = tt;
  stopped = tt;
}
coalesce-Coalesced end c (d ∷ ds) v =
    elim (Bool-cases (has_data d && leb (total_size c + d.hole_size) end)) [
      | inl go ↦ rw go (
          Coalesced-absorb end c d ds _
            (coalesce-Coalesced end (absorb c d) ds (IsChain-rest d ds v)))
      | inr halt ↦ rw halt (record {
        shift = 0;
        left = refl;
        same_hole = refl;
        grown = omega arith;
        chain = v;
        stopped = ground arith;
      })
    ]

covers-absorb :
    (end : ℕ) (c d : Contig) (ds : Contigs) (n : ℕ)
    → total_size c + d.hole_size ≤ end
    → (in_range c.hole_size end n || covers (absorb c d ∷ ds) n)
      ≡ (in_range c.hole_size end n || covers (c ∷ d ∷ ds) n)
unfolding covers
covers-absorb end c d ds n h =
    ground (arith, ap (covers ds) (sub_sub n (total_size c) (total_size d)))
  where
    sub_sub : (a b e : ℕ) → a - (b + e) ≡ a - b - e
    sub_sub a b e = omega arith

-- Coalescing changes nothing outside the range that is being added.
pub covers-coalesce :
    (end : ℕ) (c : Contig) (cs : Contigs) (n : ℕ)
    → let (c', rest) = coalesce end c cs in
      (in_range c.hole_size end n || covers (c' ∷ rest) n)
      ≡ (in_range c.hole_size end n || covers (c ∷ cs) n)
unfolding coalesce
covers-coalesce end c [] n = refl
covers-coalesce end c (d ∷ ds) n =
    elim (Bool-cases (has_data d && leb (total_size c + d.hole_size) end)) [
      | inl go ↦
          rw go (covers-coalesce end (absorb c d) ds n ∙ covers-absorb end c d ds n (ground arith))
      | inr halt ↦ rw halt refl
    ]

-- Closing the gap leaves what the loop read.
pub covers-close_gap :
    (k : ℕ) (cs from : Contigs) (n : ℕ)
    → drop k cs ≡ from
    → IsChain 1 cs
    → covers (close_gap cs from) n ≡ covers from n
unfolding close_gap covers
covers-close_gap zero [] [] n e v = refl
covers-close_gap zero [] (d ∷ from) n e v = cc
covers-close_gap (suc k) [] [] n e v = refl
covers-close_gap (suc k) [] (d ∷ from) n e v = cc
covers-close_gap k (c ∷ cs) [] n e (inl v) =
    ground (arith, covers-close_gap k cs [] (n - 0) (drop-nil k c cs e) v.2)
covers-close_gap k (c ∷ cs) (d ∷ from) n e (inl v) =
    ground (arith, covers-close_gap k cs from (n - total_size d) (drop-cons k c d cs from e) v.2)
covers-close_gap k (c ∷ cs) [] n e (inr a) = ground (arith, covers-AllEmpty (c ∷ cs) n a)
covers-close_gap k (c ∷ cs) (d ∷ from) n e (inr a) = ground (
  arith,
  covers-AllEmpty (c ∷ cs) n a,
  covers-AllEmpty (d ∷ from) n (subst AllEmpty e (drop-AllEmpty k (c ∷ cs) a)),
)

close_gap-AllEmpty :
    (cs from : Contigs) → IsChain 1 cs → AllEmpty from → AllEmpty (close_gap cs from)
unfolding close_gap
close_gap-AllEmpty [] from v e = tt
close_gap-AllEmpty (c ∷ cs) [] (inl v) e = ground (arith, close_gap-AllEmpty cs [] v.2 tt)
close_gap-AllEmpty (c ∷ cs) [] (inr a) e = ground arith
close_gap-AllEmpty (c ∷ cs) (d ∷ from) (inl v) e =
    ground (arith, close_gap-AllEmpty cs from v.2 e.2)
close_gap-AllEmpty (c ∷ cs) (d ∷ from) (inr a) e = ground arith

pub close_gap-IsChain :
    (cs from : Contigs) → IsChain 1 cs → IsChain 1 from → IsChain 1 (close_gap cs from)
unfolding close_gap
close_gap-IsChain [] from v w = tt
close_gap-IsChain (c ∷ cs) [] v w = AllEmpty-IsChain 1 _ (close_gap-AllEmpty (c ∷ cs) [] v tt)
close_gap-IsChain (c ∷ cs) (d ∷ from) (inl v) (inl w) =
    ground (arith, close_gap-IsChain cs from v.2 w.2)
close_gap-IsChain (c ∷ cs) (d ∷ from) (inl v) (inr w) =
    AllEmpty-IsChain 1 _ (close_gap-AllEmpty (c ∷ cs) (d ∷ from) (inl v) w)
close_gap-IsChain (c ∷ cs) (d ∷ from) (inr a) w = ground arith

-- After the gap is closed, the next entry still lies beyond the end of the range.
close_gap-Stops :
    (end : ℕ) (c : Contig) (cs from : Contigs)
    → IsChain 1 cs
    → Stops end c from
    → Stops end c (close_gap cs from)
unfolding close_gap
close_gap-Stops end c [] from v s = tt
close_gap-Stops end c (x ∷ cs) [] (inl v) s = ground arith
close_gap-Stops end c (x ∷ cs) [] (inr a) s = ground arith
close_gap-Stops end c (x ∷ cs) (d ∷ from) (inl v) s = ground arith
close_gap-Stops end c (x ∷ cs) (d ∷ from) (inr a) s = ground arith

covers-extend :
    (end : ℕ) (c : Contig) (cs : Contigs) (n : ℕ)
    → IsChain 1 cs
    → Stops end c cs
    → covers (extend end c cs) n ≡ (in_range c.hole_size end n || covers (c ∷ cs) n)
unfolding covers extend
covers-extend end c [] n v s = ground arith
covers-extend end c (d ∷ cs) n (inl v) s = elim (Bool-cases (ltb (total_size c) end)) [
  | inl longer ↦ ground (
    arith,
    ap (covers cs)
        (shifted n (total_size c) end d.hole_size d.data_size (ground arith) (ground arith)),
  )
  | inr inside ↦ ground arith
]
  where
    shifted :
        (n t end h x : ℕ) → t < end → end < t + h → n - end - (h - (end - t) + x) ≡ n - t - (h + x)
    shifted n t end h x p q = omega arith
covers-extend end c (d ∷ cs) n (inr a) s = ground (
  arith,
  covers-AllEmpty cs (n - total_size c - total_size d) a.2,
  covers-AllEmpty cs (n - end - total_size d) a.2,
)

extend-IsChain :
    (low end : ℕ) (c : Contig) (cs : Contigs)
    → low ≤ c.hole_size
    → 0 < c.data_size
    → IsChain 1 cs
    → Stops end c cs
    → IsChain low (extend end c cs)
unfolding extend
extend-IsChain low end c [] l p v s = ground arith
extend-IsChain low end c (d ∷ cs) l p (inl v) s = ground arith
extend-IsChain low end c (d ∷ cs) l p (inr a) s = ground arith

covers-cons :
    (c : Contig) (xs ys : Contigs)
    → ((m : ℕ) → covers xs m ≡ covers ys m)
    → (n : ℕ) → covers (c ∷ xs) n ≡ covers (c ∷ ys) n
unfolding covers
covers-cons c xs ys h n = ground (arith, h (n - total_size c))

module _ (end : ℕ) (c : Contig) (cs : Contigs) (chain : IsChain 1 cs) where
  closed : Coalesced end c cs (coalesce end c cs)
  closed = coalesce-Coalesced end c cs chain

  abbrev grown_entry : Contig
  grown_entry = (coalesce end c cs).0

  abbrev rest : Contigs
  rest = (coalesce end c cs).1

  rest-Stops : Stops end grown_entry (close_gap cs rest)
  rest-Stops = close_gap-Stops end grown_entry cs rest chain closed.stopped

  rest-IsChain : IsChain 1 (close_gap cs rest)
  rest-IsChain = close_gap-IsChain cs rest chain closed.chain

  -- Merging a range into an entry adds the range to what is recorded.
  pub covers-merge :
      (n : ℕ) → covers (merge end c cs) n ≡ (in_range c.hole_size end n || covers (c ∷ cs) n)
  unfolding merge
  covers-merge n =
      covers-extend end grown_entry (close_gap cs rest) n rest-IsChain rest-Stops
      ∙ ap (λ b. in_range grown_entry.hole_size end n || b)
          (covers-cons grown_entry (close_gap cs rest) rest
            (λ m. covers-close_gap closed.shift cs rest m (sym closed.left) chain) n)
      ∙ ap (λ h. in_range h end n || covers (grown_entry ∷ rest) n) closed.same_hole
      ∙ covers-coalesce end c cs n

  pub merge-IsChain : (low : ℕ) → low ≤ c.hole_size → 0 < c.data_size → IsChain low (merge end c cs)
  unfolding merge
  merge-IsChain low l p =
      extend-IsChain low end grown_entry (close_gap cs rest) (omega (arith, closed.same_hole))
        (omega (arith, closed.grown)) rest-IsChain rest-Stops
