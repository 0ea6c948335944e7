-- ===== src/Wire/TcpPacket/Fuel.antt =====
-- wire/tcp.rs: the loop over the options ends.
use smoltcp.Prelude.{
  ℕ, zero, suc, ◌+◌, ◌-◌, ◌≤◌, ◌≡◌, refl, Option, none, some, List, [], ◌∷◌, Result, ok, err,
  and_then, and_checked, length, take, drop, arith, Bool-cases, inl, inr, ◌==◌, ltb, ◌||◌,
}
use smoltcp.Wire.Bytes.{ByteOrder, WireError}
use smoltcp.Wire.TcpPacket.Options.{TcpOption, parse_kind, parse_option}
use smoltcp.Wire.TcpPacket.{ReadOptions, note_option, parse_options}

-- A result that leaves at most so many octets.
abbrev Leaves : ℕ → Result WireError (List ℕ × TcpOption) → Type 0
Leaves n (ok (rest, option)) = length rest ≤ n
Leaves n (err e) = Unit

drop-shortens : (k : ℕ) (xs : List ℕ) → length (drop k xs) ≤ length xs
drop-shortens zero xs = omega arith
drop-shortens (suc k) [] = omega arith
drop-shortens (suc k) (x ∷ xs) = let ih = drop-shortens k xs in omega arith

Leaves-option :
    (n k : ℕ) (more : List ℕ) (r : Result WireError TcpOption)
    → length more ≤ n
    → Leaves n (and_then r λ option. ok (drop k more, option))
Leaves-option n k more (ok option) h = let d = drop-shortens k more in omega arith
Leaves-option n k more (err e) h = tt

module _ (order : ByteOrder) where
  -- An option takes an octet at least.
  parse_option-Leaves :
      (kind : ℕ) (octets : List ℕ) → Leaves (length octets) (parse_option order (kind ∷ octets))
  unfolding parse_option
  parse_option-Leaves kind [] = elim (Bool-cases (kind == 0)) [
    | inl t ↦ rw t (omega arith)
    | inr f ↦ elim (Bool-cases (kind == 1)) [
      | inl t ↦ rw (f, t) (omega arith)
      | inr g ↦ rw (f, g) tt
    ]
  ]
  parse_option-Leaves kind (n ∷ more) = elim (Bool-cases (kind == 0)) [
    | inl t ↦ rw t (omega arith)
    | inr f ↦ elim (Bool-cases (kind == 1)) [
      | inl t ↦ rw (f, t) (omega arith)
      | inr g ↦ elim (Bool-cases (ltb n 2 || ltb (length more + 2) n)) [
        | inl t ↦ rw (f, g, t) tt
        | inr h ↦
            rw (f, g, h)
              (Leaves-option (suc (length more)) (n - 2) more
                (parse_kind order kind n (take (n - 2) more)) (omega arith))
      ]
    ]
  ]

  -- With enough fuel the loop has this result.
  abbrev HasResult : List ℕ → ReadOptions → Result WireError ReadOptions → Type 0
  HasResult octets seen r =
      (fuel : ℕ) → length octets ≤ fuel → parse_options order fuel octets seen ≡ some r

  Ends : List ℕ → ReadOptions → Type 0
  Ends octets seen = (r : Result WireError ReadOptions) × HasResult octets seen r

  by_note :
      (rest : List ℕ) (seen : ReadOptions) (o : Option ReadOptions)
      → ((more : ReadOptions) → Ends rest more)
      → (r : Result WireError ReadOptions) × ((fuel : ℕ)
          → length rest ≤ fuel
          → (elim o [ none ↦ some (ok seen) | some more ↦ parse_options order fuel rest more ])
            ≡ some r)
  unfolding Ends
  by_note rest seen none ih = (ok seen, λ fuel h. refl)
  by_note rest seen (some more) ih = ih more

  by_result :
      (n : ℕ) (seen : ReadOptions) (p : Result WireError (List ℕ × TcpOption))
      → Leaves n p
      → ((rest : List ℕ) (more : ReadOptions) → length rest ≤ n → Ends rest more)
      → (r : Result WireError ReadOptions) × ((fuel : ℕ)
          → n ≤ fuel
          → (and_checked p λ (rest, option). elim (note_option option seen) [
            | none ↦ some (ok seen)
            | some more ↦ parse_options order fuel rest more
          ])
            ≡ some r)
  by_result n seen (err e) k ih = (err e, λ fuel h. refl)
  by_result n seen (ok (rest, option)) k ih =
      let (r, e) = by_note rest seen (note_option option seen) (λ more. ih rest more k) in
      (r, λ fuel h. e fuel (omega arith))

  Ends-within :
      (n : ℕ) (octets : List ℕ) (seen : ReadOptions) → length octets ≤ n → Ends octets seen
  unfolding Ends parse_options
  Ends-within n [] seen h = (ok seen, nothing_left)
    where
      nothing_left : HasResult [] seen (ok seen)
      nothing_left zero k = refl
      nothing_left (suc fuel) k = refl
  Ends-within zero (x ∷ octets) seen h = absurd (omega arith)
  Ends-within (suc n) (x ∷ octets) seen h =
      let (r, e) =
        by_result (length octets) seen (parse_option order (x ∷ octets))
          (parse_option-Leaves x octets) (λ rest more k. Ends-within n rest more (omega arith)) in
      (r, a_round r e)
    where
      a_round :
          (r : Result WireError ReadOptions)
          → ((fuel : ℕ)
              → length octets ≤ fuel
              → (and_checked (parse_option order (x ∷ octets)) λ (rest, option).
                  elim (note_option option seen) [
                    | none ↦ some (ok seen)
                    | some more ↦ parse_options order fuel rest more
                  ])
                ≡ some r)
          → HasResult (x ∷ octets) seen r
      a_round r e zero k = absurd (omega arith)
      a_round r e (suc fuel) k = e fuel (omega arith)

  -- The loop over the options of any octets ends, within as many rounds as there are octets, with a
  -- result that does not depend on the fuel.
  pub parse_options-ends :
      (octets : List ℕ) (seen : ReadOptions)
      → (r : Result WireError ReadOptions) × ((fuel : ℕ)
          → length octets ≤ fuel
          → parse_options order fuel octets seen ≡ some r)
  unfolding Ends
  parse_options-ends octets seen = Ends-within (length octets) octets seen (omega arith)
