-- ===== src/Prelude/Slices.antt =====
-- Slices of lists: `copy_from_slice` into a range, sub-slices, and their laws.
use Prim.Native.Nat.{ℕ, zero, suc, ◌+◌, ◌≤◌, min}
use mathlib.Core.Path.{◌≡◌, refl, ap, sym, ◌∙◌}
use mathlib.Core.List.{List, [], ◌∷◌, ◌++◌}
use native.Mathlib.Omega.{arith}
use smoltcp.Prelude.Lists.{length, take, drop}

module _ {ℓ} {A : Type ℓ} where
  -- `xs[at..at + ys.len()].copy_from_slice(ys)`; what would lie past the end is dropped.
  abbrev pub overwrite : List A → ℕ → List A → List A
  overwrite [] at ys = []
  overwrite (x ∷ xs) zero [] = x ∷ xs
  overwrite (x ∷ xs) zero (y ∷ ys) = y ∷ overwrite xs zero ys
  overwrite (x ∷ xs) (suc at) ys = x ∷ overwrite xs at ys

  -- `xs[at..at + n]`
  abbrev pub slice : List A → ℕ → ℕ → List A
  slice xs at n = take n (drop at xs)

  pub overwrite-nil : (xs : List A) (at : ℕ) → overwrite xs at [] ≡ xs
  overwrite-nil [] at = refl
  overwrite-nil (x ∷ xs) zero = refl
  overwrite-nil (x ∷ xs) (suc at) = ap (λ t. x ∷ t) (overwrite-nil xs at)

  pub length-overwrite :
      (xs : List A) (at : ℕ) (ys : List A) → length (overwrite xs at ys) ≡ length xs
  length-overwrite [] at ys = refl
  length-overwrite (x ∷ xs) zero [] = refl
  length-overwrite (x ∷ xs) zero (y ∷ ys) = ap suc (length-overwrite xs zero ys)
  length-overwrite (x ∷ xs) (suc at) ys = ap suc (length-overwrite xs at ys)

  pub overwrite-append_left :
      (xs zs : List A) (at : ℕ) (ys : List A)
      → at + length ys ≤ length xs
      → overwrite (xs ++ zs) at ys ≡ overwrite xs at ys ++ zs
  overwrite-append_left [] zs at [] h = overwrite-nil zs at
  overwrite-append_left [] zs at (y ∷ ys) h = absurd (omega arith)
  overwrite-append_left (x ∷ xs) zs zero [] h = refl
  overwrite-append_left (x ∷ xs) zs zero (y ∷ ys) h =
      ap (λ t. y ∷ t) (overwrite-append_left xs zs zero ys (omega arith))
  overwrite-append_left (x ∷ xs) zs (suc at) ys h =
      ap (λ t. x ∷ t) (overwrite-append_left xs zs at ys (omega arith))

  pub overwrite-append_right :
      (xs zs : List A) (at k : ℕ) (ys : List A)
      → k ≡ length xs + at
      → overwrite (xs ++ zs) k ys ≡ xs ++ overwrite zs at ys
  overwrite-append_right [] zs at k ys e = ap (λ t. overwrite zs t ys) (omega arith)
  overwrite-append_right (x ∷ xs) zs at zero ys e = absurd (omega arith)
  overwrite-append_right (x ∷ xs) zs at (suc k) ys e =
      ap (λ t. x ∷ t) (overwrite-append_right xs zs at k ys (omega arith))

  pub drop-overwrite :
      (r at k : ℕ) (xs ys : List A)
      → k ≡ r + at
      → drop r (overwrite xs k ys) ≡ overwrite (drop r xs) at ys
  drop-overwrite zero at k xs ys e = ap (λ t. overwrite xs t ys) (omega arith)
  drop-overwrite (suc r) at k [] ys e = refl
  drop-overwrite (suc r) at zero (x ∷ xs) ys e = absurd (omega arith)
  drop-overwrite (suc r) at (suc k) (x ∷ xs) ys e = drop-overwrite r at k xs ys (omega arith)

  pub take-overwrite_before :
      (r k : ℕ) (xs ys : List A) → r ≤ k → take r (overwrite xs k ys) ≡ take r xs
  take-overwrite_before zero k xs ys h = refl
  take-overwrite_before (suc r) k [] ys h = refl
  take-overwrite_before (suc r) zero (x ∷ xs) ys h = absurd (omega arith)
  take-overwrite_before (suc r) (suc k) (x ∷ xs) ys h =
      ap (λ t. x ∷ t) (take-overwrite_before r k xs ys (omega arith))

  pub drop-overwrite_after :
      (r k : ℕ) (xs ys : List A) → k + length ys ≤ r → drop r (overwrite xs k ys) ≡ drop r xs
  drop-overwrite_after zero k xs [] h = overwrite-nil xs k
  drop-overwrite_after zero k xs (y ∷ ys) h = absurd (omega arith)
  drop-overwrite_after (suc r) k [] ys h = refl
  drop-overwrite_after (suc r) zero (x ∷ xs) [] h = refl
  drop-overwrite_after (suc r) zero (x ∷ xs) (y ∷ ys) h =
      drop-overwrite_after r zero xs ys (omega arith)
  drop-overwrite_after (suc r) (suc k) (x ∷ xs) ys h = drop-overwrite_after r k xs ys (omega arith)

  pub take-overwrite :
      (r k : ℕ) (xs ys : List A)
      → k + length ys ≤ r
      → take r (overwrite xs k ys) ≡ overwrite (take r xs) k ys
  take-overwrite zero k xs [] h = refl
  take-overwrite zero k xs (y ∷ ys) h = absurd (omega arith)
  take-overwrite (suc r) k [] ys h = refl
  take-overwrite (suc r) zero (x ∷ xs) [] h = refl
  take-overwrite (suc r) zero (x ∷ xs) (y ∷ ys) h =
      ap (λ t. y ∷ t) (take-overwrite r zero xs ys (omega arith))
  take-overwrite (suc r) (suc k) (x ∷ xs) ys h =
      ap (λ t. x ∷ t) (take-overwrite r k xs ys (omega arith))

  pub take-overwrite_exact :
      (k n : ℕ) (xs ys : List A)
      → n ≡ k + length ys
      → n ≤ length xs
      → take n (overwrite xs k ys) ≡ take k xs ++ ys
  take-overwrite_exact zero zero xs [] e h = refl
  take-overwrite_exact zero zero xs (y ∷ ys) e h = absurd (omega arith)
  take-overwrite_exact zero (suc n) [] ys e h = absurd (omega arith)
  take-overwrite_exact zero (suc n) (x ∷ xs) [] e h = absurd (omega arith)
  take-overwrite_exact zero (suc n) (x ∷ xs) (y ∷ ys) e h =
      ap (λ t. y ∷ t) (take-overwrite_exact zero n xs ys (omega arith) (omega arith))
  take-overwrite_exact (suc k) zero xs ys e h = absurd (omega arith)
  take-overwrite_exact (suc k) (suc n) [] ys e h = absurd (omega arith)
  take-overwrite_exact (suc k) (suc n) (x ∷ xs) ys e h =
      ap (λ t. x ∷ t) (take-overwrite_exact k n xs ys (omega arith) (omega arith))

  pub drop-append_within :
      (k : ℕ) (xs zs : List A) → k ≤ length xs → drop k (xs ++ zs) ≡ drop k xs ++ zs
  drop-append_within zero xs zs h = refl
  drop-append_within (suc k) [] zs h = absurd (omega arith)
  drop-append_within (suc k) (x ∷ xs) zs h = drop-append_within k xs zs (omega arith)

  pub drop-append_past :
      (k j : ℕ) (xs zs : List A) → k ≡ length xs + j → drop k (xs ++ zs) ≡ drop j zs
  drop-append_past k j [] zs e = ap (λ t. drop t zs) (omega arith)
  drop-append_past zero j (x ∷ xs) zs e = absurd (omega arith)
  drop-append_past (suc k) j (x ∷ xs) zs e = drop-append_past k j xs zs (omega arith)

  pub take-append_within : (k : ℕ) (xs zs : List A) → k ≤ length xs → take k (xs ++ zs) ≡ take k xs
  take-append_within zero xs zs h = refl
  take-append_within (suc k) [] zs h = absurd (omega arith)
  take-append_within (suc k) (x ∷ xs) zs h =
      ap (λ t. x ∷ t) (take-append_within k xs zs (omega arith))

  pub take-append_past :
      (k j : ℕ) (xs zs : List A) → k ≡ length xs + j → take k (xs ++ zs) ≡ xs ++ take j zs
  take-append_past k j [] zs e = ap (λ t. take t zs) (omega arith)
  take-append_past zero j (x ∷ xs) zs e = absurd (omega arith)
  take-append_past (suc k) j (x ∷ xs) zs e =
      ap (λ t. x ∷ t) (take-append_past k j xs zs (omega arith))

  pub drop-nil : (k : ℕ) → drop {A = A} k [] ≡ []
  drop-nil zero = refl
  drop-nil (suc k) = refl

  pub take-nil : (k : ℕ) → take {A = A} k [] ≡ []
  take-nil zero = refl
  take-nil (suc k) = refl

  pub drop-drop : (a b c : ℕ) (xs : List A) → c ≡ b + a → drop a (drop b xs) ≡ drop c xs
  drop-drop a zero c xs e = ap (λ t. drop t xs) (omega arith)
  drop-drop a (suc b) zero xs e = absurd (omega arith)
  drop-drop a (suc b) (suc c) [] e = drop-nil a
  drop-drop a (suc b) (suc c) (x ∷ xs) e = drop-drop a b c xs (omega arith)

  pub take_all : (k : ℕ) (xs : List A) → length xs ≤ k → take k xs ≡ xs
  take_all zero [] h = refl
  take_all zero (x ∷ xs) h = absurd (omega arith)
  take_all (suc k) [] h = refl
  take_all (suc k) (x ∷ xs) h = ap (λ t. x ∷ t) (take_all k xs (omega arith))

  pub drop_all : (k : ℕ) (xs : List A) → length xs ≤ k → drop k xs ≡ []
  drop_all zero [] h = refl
  drop_all zero (x ∷ xs) h = absurd (omega arith)
  drop_all (suc k) [] h = refl
  drop_all (suc k) (x ∷ xs) h = drop_all k xs (omega arith)

  pub take-take : (a b : ℕ) (xs : List A) → take a (take b xs) ≡ take (min a b) xs
  take-take zero b xs = ap (λ t. take t xs) {x = 0} (omega arith)
  take-take (suc a) zero xs = ap (λ t. take t xs) {x = 0} (omega arith)
  take-take (suc a) (suc b) [] = sym (take-nil (min (suc a) (suc b)))
  take-take (suc a) (suc b) (x ∷ xs) =
      ap (λ t. x ∷ t) (take-take a b xs) ∙ ap (λ t. take t (x ∷ xs)) (suc_min a b)
    where
      suc_min : (a b : ℕ) → suc (min a b) ≡ min (suc a) (suc b)
      suc_min a b = omega arith

  pub take-drop : (k n m : ℕ) (xs : List A) → m ≡ k + n → take n (drop k xs) ≡ drop k (take m xs)
  take-drop zero n m xs e = ap (λ t. take t xs) (omega arith)
  take-drop (suc k) n zero xs e = absurd (omega arith)
  take-drop (suc k) n (suc m) [] e = take-nil n
  take-drop (suc k) n (suc m) (x ∷ xs) e = take-drop k n m xs (omega arith)

  pub take-add : (a b c : ℕ) (xs : List A) → c ≡ a + b → take a xs ++ take b (drop a xs) ≡ take c xs
  take-add zero b c xs e = ap (λ t. take t xs) (omega arith)
  take-add (suc a) b zero xs e = absurd (omega arith)
  take-add (suc a) b (suc c) [] e = take-nil b
  take-add (suc a) b (suc c) (x ∷ xs) e = ap (λ t. x ∷ t) (take-add a b c xs (omega arith))

  -- Writing back a part that was changed in place is writing the change.
  pub overwrite-slice :
      (xs : List A) (at n : ℕ) (ys : List A)
      → length ys ≤ n
      → overwrite xs at (overwrite (slice xs at n) 0 ys) ≡ overwrite xs at ys
  overwrite-slice [] at n ys h = refl
  overwrite-slice (x ∷ xs) zero zero [] h = refl
  overwrite-slice (x ∷ xs) zero zero (y ∷ ys) h = absurd (omega arith)
  overwrite-slice (x ∷ xs) zero (suc n) [] h =
      ap (λ t. x ∷ t)
        (ap (overwrite xs 0) (sym (overwrite-nil (take n xs) 0))
          ∙ overwrite-slice xs zero n [] (omega arith)
          ∙ overwrite-nil xs 0)
  overwrite-slice (x ∷ xs) zero (suc n) (y ∷ ys) h =
      ap (λ t. y ∷ t) (overwrite-slice xs zero n ys (omega arith))
  overwrite-slice (x ∷ xs) (suc at) n ys h = ap (λ t. x ∷ t) (overwrite-slice xs at n ys h)

  pub overwrite-slice_self : (xs : List A) (at n : ℕ) → overwrite xs at (slice xs at n) ≡ xs
  overwrite-slice_self xs at n =
      ap (overwrite xs at) (sym (overwrite-nil (slice xs at n) 0))
      ∙ overwrite-slice xs at n [] (omega arith)
      ∙ overwrite-nil xs at

  pub overwrite-overwrite :
      (xs : List A) (at k : ℕ) (ys zs : List A)
      → k ≡ at + length ys
      → overwrite (overwrite xs at ys) k zs ≡ overwrite xs at (ys ++ zs)
  overwrite-overwrite [] at k ys zs e = refl
  overwrite-overwrite (x ∷ xs) zero k [] zs e =
      ap (λ t. overwrite (x ∷ xs) t zs) {y = 0} (omega arith)
  overwrite-overwrite (x ∷ xs) zero zero (y ∷ ys) zs e = absurd (omega arith)
  overwrite-overwrite (x ∷ xs) zero (suc k) (y ∷ ys) zs e =
      ap (λ t. y ∷ t) (overwrite-overwrite xs zero k ys zs (omega arith))
  overwrite-overwrite (x ∷ xs) (suc at) zero ys zs e = absurd (omega arith)
  overwrite-overwrite (x ∷ xs) (suc at) (suc k) ys zs e =
      ap (λ t. x ∷ t) (overwrite-overwrite xs at k ys zs (omega arith))
