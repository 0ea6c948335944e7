-- ===== src/Wire/TcpPacket/Emitted.antt =====
-- wire/tcp.rs: the packet that `Repr::emit` leaves in a buffer.
use smoltcp.Prelude.{
  ℕ, ◌+◌, ◌-◌, ◌/◌, ◌%◌, ◌≤◌, ◌≡◌, refl, ap, ◌∙◌, false, ◌||◌, some, List, [], ◌∷◌, ◌++◌, ltb,
  if◌then◌else◌, Checked, length, take, drop, arith,
}
use smoltcp.Prelude.Slices.{overwrite, overwrite-nil, overwrite-append_right}
use smoltcp.Wire.Bytes.{big_endian}
use smoltcp.Wire.Ip.{IpAddress}
use smoltcp.Wire.TcpRepr.{TcpRepr}
use smoltcp.Wire.TcpPacket.Fields.{set_checksum, set_urgent_at, fill_checksum}
use smoltcp.Wire.TcpPacket.{ChecksumCapability, tx, emit_options, emit_at}
use smoltcp.Wire.TcpPacket.Header.{header}
use smoltcp.Wire.TcpPacket.EmittedOptions.{length-drop_lem}

overwrite-front :
    {A : Type 0} (xs ys : List A)
    → length ys ≤ length xs
    → overwrite xs 0 ys ≡ ys ++ drop (length ys) xs
overwrite-front [] [] h = refl
overwrite-front [] (y ∷ ys) h = absurd (omega arith)
overwrite-front (x ∷ xs) [] h = refl
overwrite-front (x ∷ xs) (y ∷ ys) h = ap (λ t. y ∷ t) (overwrite-front xs ys (omega arith))

append-drop_all :
    {A : Type 0} (xs ys : List A) → length ys ≡ length xs → ys ++ drop (length ys) xs ≡ ys
append-drop_all [] [] h = refl
append-drop_all [] (y ∷ ys) h = absurd (omega arith)
append-drop_all (x ∷ xs) [] h = absurd (omega arith)
append-drop_all (x ∷ xs) (y ∷ ys) h = ap (λ t. y ∷ t) (append-drop_all xs ys (omega arith))

-- Two parts written one behind the other fill a list.
overwrite-both :
    {A : Type 0} (xs ys zs : List A) (m : ℕ)
    → m ≡ length ys
    → length xs ≡ m + length zs
    → overwrite (overwrite xs 0 ys) m zs ≡ ys ++ zs
overwrite-both xs ys zs m e h =
    let d = length-drop_lem (length ys) xs in
    ap (λ t. overwrite t m zs) (overwrite-front xs ys (omega arith))
    ∙ overwrite-append_right ys (drop (length ys) xs) 0 m zs (omega arith)
    ∙ ap (λ t. ys ++ t)
        (overwrite-front (drop (length ys) xs) zs (omega arith)
          ∙ append-drop_all (drop (length ys) xs) zs (omega arith))

-- The packet of a segment, with a checksum and the octets behind the header's fixed part.
abbrev pub packet : TcpRepr → ℕ → ℕ → List ℕ → List ℕ
packet repr word checksum body =
    header repr word (checksum / 256 % 256 ∷ checksum % 256 ∷ 0 ∷ 0 ∷ body)

module _ (repr : TcpRepr) (word c0 c1 u0 u1 m : ℕ) (rest octets : List ℕ) where
  -- The options and the payload are placed.
  placed :
      m ≡ length octets
      → length rest ≡ m + length repr.payload
      → overwrite
          (set_urgent_at big_endian 0
            (overwrite (header repr word (c0 ∷ c1 ∷ u0 ∷ u1 ∷ rest)) 20 octets))
          (20 + m)
          repr.payload
        ≡ header repr word (c0 ∷ c1 ∷ 0 ∷ 0 ∷ (octets ++ repr.payload))
  placed e h =
      ap (λ t. overwrite (header repr word (c0 ∷ c1 ∷ 0 ∷ 0 ∷ t)) (20 + m) repr.payload)
        (overwrite-nil (overwrite rest 0 octets) 0)
      ∙ overwrite-append_right (header repr word (c0 ∷ c1 ∷ 0 ∷ 0 ∷ [])) (overwrite rest 0 octets) m
          (20 + m) repr.payload refl
      ∙ ap (λ t. header repr word (c0 ∷ c1 ∷ 0 ∷ 0 ∷ t))
          (overwrite-both rest octets repr.payload m e h)

  -- What `emit` does with the packet in the end.
  abbrev pub finished : ChecksumCapability → IpAddress → IpAddress → List ℕ → Checked (List ℕ)
  finished caps src dst octets =
      if tx caps
      then fill_checksum big_endian src dst octets
      else some (set_checksum big_endian 0 octets)

  pub emit_at-placed :
      (caps : ChecksumCapability) (src dst : IpAddress) (end_ : ℕ)
      → end_ ≡ 20 + m
      → m ≡ length octets
      → length rest ≡ m + length repr.payload
      → emit_options big_endian repr (take m rest) ≡ some octets
      → emit_at big_endian caps src dst repr end_ (header repr word (c0 ∷ c1 ∷ u0 ∷ u1 ∷ rest))
        ≡ finished caps src dst (header repr word (c0 ∷ c1 ∷ 0 ∷ 0 ∷ (octets ++ repr.payload)))
  unfolding emit_at
  emit_at-placed caps src dst end_ e em h opts =
      let fits : (ltb (length (header repr word (c0 ∷ c1 ∷ u0 ∷ u1 ∷ rest))) (20 + m)
            || ltb (20 + m) 20)
          ≡ false =
        ground arith in
      let fits' : ltb (length (header repr word (c0 ∷ c1 ∷ u0 ∷ u1 ∷ rest)))
            (20 + m + length repr.payload)
          ≡ false =
        ground arith in
      let e' : 20 + m - 20 ≡ m = omega arith in
      rw (e, fits, e', opts, fits') (ap (finished caps src dst) (placed em h))
