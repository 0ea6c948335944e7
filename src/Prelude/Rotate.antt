-- ===== src/Prelude/Rotate.antt =====
-- Lists turned round: the order of the elements of a ring.
use Prim.Native.Nat.{ℕ, ◌+◌, ◌≤◌}
use mathlib.Core.Path.{◌≡◌, refl, ap, ap₂, sym, ◌∙◌}
use mathlib.Core.List.{List, ◌++◌, append_assoc}
use native.Mathlib.Omega.{arith}
use smoltcp.Prelude.Lists.{
  length, take, drop, length-append, length-take, length-drop, take-append-drop,
}
use smoltcp.Prelude.Slices.{
  slice, drop-append_within, drop-append_past, take-append_within, take-append_past, drop-drop,
  take-drop, take-take, take-add,
}

module _ {ℓ} {A : Type ℓ} where
  -- The elements from `k` on, then those before.
  abbrev pub rotate : ℕ → List A → List A
  rotate k xs = drop k xs ++ take k xs

  pub length-rotate : (k : ℕ) (xs : List A) → length (rotate k xs) ≡ length xs
  length-rotate k xs =
      omega (arith, length-append (drop k xs) (take k xs), length-drop k xs, length-take k xs)

  take-take_within : (s a : ℕ) (xs : List A) → s ≤ a → take s (take a xs) ≡ take s xs
  take-take_within s a xs h = take-take s a xs ∙ ap (λ t. take t xs) (omega arith)

  drop-rotate_before :
      (a k : ℕ) (xs : List A)
      → a + k ≤ length xs
      → drop k (rotate a xs) ≡ drop (a + k) xs ++ take a xs
  drop-rotate_before a k xs h =
      drop-append_within k (drop a xs) (take a xs) (omega (arith, length-drop a xs))
      ∙ ap (λ t. t ++ take a xs) (drop-drop k a (a + k) xs refl)

  drop-rotate_after :
      (a k s : ℕ) (xs : List A)
      → a ≤ length xs
      → s + length xs ≡ a + k
      → drop k (rotate a xs) ≡ drop s (take a xs)
  drop-rotate_after a k s xs h e =
      drop-append_past k s (drop a xs) (take a xs) (omega (arith, length-drop a xs))

  pub slice-rotate_before :
      (a k n : ℕ) (xs : List A)
      → a + k + n ≤ length xs
      → slice xs (a + k) n ≡ slice (rotate a xs) k n
  slice-rotate_before a k n xs h = sym (
      ap (take n) (drop-rotate_before a k xs (omega arith))
      ∙ take-append_within n (drop (a + k) xs) (take a xs) (omega (arith, length-drop (a + k) xs)))

  pub slice-rotate_after :
      (a k s n : ℕ) (xs : List A)
      → a ≤ length xs
      → s + length xs ≡ a + k
      → s + n ≤ a
      → slice xs s n ≡ slice (rotate a xs) k n
  slice-rotate_after a k s n xs h e room = sym (
      ap (take n) (drop-rotate_after a k s xs h e)
      ∙ take-drop s n (s + n) (take a xs) refl
      ∙ ap (drop s) (take-take_within (s + n) a xs room)
      ∙ sym (take-drop s n (s + n) xs refl))

  pub rotate-rotate_before :
      (a k : ℕ) (xs : List A) → a + k ≤ length xs → rotate (a + k) xs ≡ rotate k (rotate a xs)
  rotate-rotate_before a k xs h = sym (
      ap₂ ◌++◌ (drop-rotate_before a k xs h)
        (take-append_within k (drop a xs) (take a xs) (omega (arith, length-drop a xs)))
      ∙ append_assoc (drop (a + k) xs) (take a xs) (take k (drop a xs))
      ∙ ap (◌++◌ (drop (a + k) xs)) (take-add a k (a + k) xs refl))

  pub rotate-rotate_after :
      (a k s : ℕ) (xs : List A)
      → a ≤ length xs
      → k ≤ length xs
      → s + length xs ≡ a + k
      → rotate s xs ≡ rotate k (rotate a xs)
  rotate-rotate_after a k s xs h l e = sym (
      ap₂ ◌++◌ (drop-rotate_after a k s xs h e) (
        take-append_past k s (drop a xs) (take a xs) (omega (arith, length-drop a xs))
        ∙ ap (◌++◌ (drop a xs)) (take-take_within s a xs (omega arith)))
      ∙ sym (append_assoc (drop s (take a xs)) (drop a xs) (take s xs))
      ∙ ap (λ t. t ++ take s xs) (sym split))
    where
      split : drop s xs ≡ drop s (take a xs) ++ drop a xs
      split =
          ap (drop s) (sym (take-append-drop a xs))
          ∙ drop-append_within s (take a xs) (drop a xs) (omega (arith, length-take a xs))
