-- ===== src/Wire/TcpPacket/EmittedOptions.antt =====
-- wire/tcp.rs: the options of a segment, emitted by `Repr::emit` and read by `Repr::parse`.
use smoltcp.Prelude.{
  ℕ, zero, suc, ◌+◌, ◌-◌, ◌≤◌, ◌<◌, ◌≡◌, refl, sym, ap, Bool, true, false, Option, none, some, List,
  [], ◌∷◌, ◌++◌, ltb, if◌then◌else◌, length, drop, arith, subst, leb, ◌&&◌,
}
use smoltcp.Wire.Bytes.{big_endian, Octets}
use smoltcp.Wire.TcpRepr.{TcpRepr, is_some}
use smoltcp.Wire.TcpPacket.Options.{
  TcpOption, present, no_ranges, option_len, option_octets, range_octets, emit_option, zeros,
}
use smoltcp.Wire.TcpPacket.{
  ReadOptions, nothing_read, note_option, emit_if, emit_end, emit_options, sack_option, map_option,
  any_range, unwrap_or,
}
use smoltcp.Wire.TcpPacket.OptionLaws.{
  padded, read_back, Sendable, parse-emitted, emit-Sendable, Reads, Reads-nothing, Reads-end,
  Reads-option,
}

-- An option that may be there.
abbrev pub MaybeSendable : Option TcpOption → Type 0
MaybeSendable none = Unit
MaybeSendable (some option) = Sendable option

abbrev pub maybe_len : Option TcpOption → ℕ
maybe_len none = 0
maybe_len (some option) = option_len option

abbrev maybe_octets : Option TcpOption → List ℕ
maybe_octets none = []
maybe_octets (some option) = option_octets big_endian option

abbrev note_maybe : Option TcpOption → ReadOptions → ReadOptions
note_maybe none seen = seen
note_maybe (some option) seen = unwrap_or (note_option (read_back option) seen) seen

pub length-drop_lem : {A : Type 0} (k : ℕ) (xs : List A) → length (drop k xs) ≡ length xs - k
length-drop_lem zero xs = omega arith
length-drop_lem (suc k) [] = omega arith
length-drop_lem (suc k) (x ∷ xs) = let ih = length-drop_lem k xs in omega arith

pub length-append_lem : {A : Type 0} (xs ys : List A) → length (xs ++ ys) ≡ length xs + length ys
length-append_lem [] ys = omega arith
length-append_lem (x ∷ xs) ys = let ih = length-append_lem xs ys in omega arith

length-zeros : (xs : List ℕ) → length (zeros big_endian xs) ≡ length xs
length-zeros [] = refl
length-zeros (x ∷ xs) = ap suc (length-zeros xs)

emit_if_lem :
    (o : Option TcpOption) (room : List ℕ)
    → MaybeSendable o
    → maybe_len o ≤ length room
    → (emit_if big_endian o room ≡ some (maybe_octets o, drop (maybe_len o) room))
      × (length (maybe_octets o) ≡ maybe_len o)
emit_if_lem none room s h = (refl, refl)
emit_if_lem (some option) room s h = emit-Sendable s room h

emit_end_lem : (room : List ℕ) → emit_end big_endian room ≡ some (zeros big_endian room)
unfolding emit_option option_octets option_len
emit_end_lem [] = refl
emit_end_lem (x ∷ room) = let fit : leb 1 (suc (length room)) ≡ true = ground arith in rw fit refl

Reads-zeros : (room : List ℕ) (seen : ReadOptions) → Reads (zeros big_endian room) seen seen
Reads-zeros [] seen = Reads-nothing seen
Reads-zeros (x ∷ room) seen = Reads-end (zeros big_endian room) seen

Reads-Sendable :
    {option : TcpOption} (s : Sendable option) (rest : List ℕ) (seen more out : ReadOptions)
    → note_option (read_back option) seen ≡ some more
    → Reads rest more out
    → Reads (option_octets big_endian option ++ rest) seen out
unfolding option_octets
Reads-Sendable (Sendable.size h) rest seen more out n r =
    Reads-option _ _ rest _ seen more out (parse-emitted (Sendable.size h) rest) (omega arith) n r
Reads-Sendable (Sendable.scale h) rest seen more out n r =
    Reads-option _ _ rest _ seen more out (parse-emitted (Sendable.scale h) rest) (omega arith) n r
Reads-Sendable Sendable.permitted rest seen more out n r =
    Reads-option _ _ rest _ seen more out (parse-emitted Sendable.permitted rest) (omega arith) n r
Reads-Sendable (Sendable.ranges {rs} fit h k) rest seen more out n r =
    let e = length-append_lem (range_octets big_endian (present rs)) rest in
    Reads-option _ _ rest _ seen more out (parse-emitted (Sendable.ranges {rs = rs} fit h k) rest)
      (omega arith) n r

Reads-maybe :
    (o : Option TcpOption) (rest : List ℕ) (seen out : ReadOptions)
    → MaybeSendable o
    → Reads rest (note_maybe o seen) out
    → Reads (maybe_octets o ++ rest) seen out
Reads-maybe none rest seen out s r = r
Reads-maybe (some option) rest seen out s r = Reads-Sendable s rest seen _ out (noted s seen) r
  where
    noted :
        {option : TcpOption}
        → Sendable option
        → (seen : ReadOptions)
        → note_option (read_back option) seen ≡ some (note_maybe (some option) seen)
    noted (Sendable.size h) seen = refl
    noted (Sendable.scale h) seen = refl
    noted Sendable.permitted seen = refl
    noted (Sendable.ranges fit h k) seen = refl

-- The ranges that a segment is sent with.
abbrev pub ranges_of : Option TcpOption → List (Option (ℕ × ℕ))
ranges_of (some (TcpOption.sack_range rs)) = padded (present rs)
ranges_of _ = no_ranges

-- The options' values have the sizes of their types, and the scale is one that RFC 1323 allows.
abbrev pub SizeFits : Option ℕ → Type 0
SizeFits none = Unit
SizeFits (some n) = n < 65536

abbrev pub ScaleFits : Option ℕ → Type 0
ScaleFits none = Unit
ScaleFits (some n) = n ≤ 14

abbrev size_option : TcpRepr → Option TcpOption
size_option repr = map_option TcpOption.max_segment_size repr.max_seg_size

abbrev scale_option : TcpRepr → Option TcpOption
scale_option repr = map_option TcpOption.window_scale repr.window_scale

abbrev pub noted : TcpRepr → ReadOptions
noted repr = record {
  max_seg_size = repr.max_seg_size;
  window_scale = repr.window_scale;
  sack_permitted = repr.sack_permitted;
  sack_ranges = ranges_of (sack_option repr);
}

size-Sendable :
    (o : Option ℕ) → SizeFits o → MaybeSendable (map_option TcpOption.max_segment_size o)
size-Sendable none h = tt
size-Sendable (some n) h = Sendable.size h

scale-Sendable : (o : Option ℕ) → ScaleFits o → MaybeSendable (map_option TcpOption.window_scale o)
scale-Sendable none h = tt
scale-Sendable (some n) h = Sendable.scale (omega arith)

size-noted :
    (o : Option ℕ)
    → note_maybe (map_option TcpOption.max_segment_size o) nothing_read
      ≡ record nothing_read { max_seg_size = o }
size-noted none = refl
size-noted (some n) = refl

scale-noted :
    (o : Option ℕ) (seen : ReadOptions)
    → ScaleFits o
    → seen.window_scale ≡ none
    → note_maybe (map_option TcpOption.window_scale o) seen ≡ record seen { window_scale = o }
scale-noted none seen h e = λ i. record seen { window_scale = e i }
scale-noted (some n) seen h e = let small : ltb 14 n ≡ false = ground arith in rw small refl

sack-noted :
    (repr : TcpRepr) (seen : ReadOptions)
    → seen.sack_permitted ≡ false
    → seen.sack_ranges ≡ no_ranges
    → note_maybe (sack_option repr) seen ≡ record seen {
      sack_permitted = repr.sack_permitted;
      sack_ranges = ranges_of (sack_option repr);
    }
sack-noted repr seen p r =
    by_cases repr.sack_permitted (is_some repr.ack_number && any_range repr.sack_ranges)
  where
    chosen : Bool → Bool → Option TcpOption
    chosen a b =
        if a
        then some TcpOption.sack_permitted
        else if b
        then some (TcpOption.sack_range repr.sack_ranges)
        else none

    by_cases :
        (a b : Bool)
        → note_maybe (chosen a b) seen
          ≡ record seen { sack_permitted = a; sack_ranges = ranges_of (chosen a b) }
    by_cases true b = λ i. record seen { sack_permitted = true; sack_ranges = r i }
    by_cases false true =
        λ i. record seen { sack_permitted = p i; sack_ranges = padded (present repr.sack_ranges) }
    by_cases false false = λ i. record seen { sack_permitted = p i; sack_ranges = r i }

pub Octets-append : (xs ys : List ℕ) → Octets xs → Octets ys → Octets (xs ++ ys)
Octets-append [] ys hx hy = hy
Octets-append (x ∷ xs) ys (h, hx) hy = (h, Octets-append xs ys hx hy)

Octets-zeros : (xs : List ℕ) → Octets (zeros big_endian xs)
Octets-zeros [] = tt
Octets-zeros (x ∷ xs) = (omega arith, Octets-zeros xs)

Octets-ranges : (rs : List (ℕ × ℕ)) → Octets (range_octets big_endian rs)
Octets-ranges [] = tt
Octets-ranges ((a, b) ∷ rs) = (
  omega arith,
  (
    omega arith,
    (
      omega arith,
      (omega arith, (omega arith, (omega arith, (omega arith, (omega arith, Octets-ranges rs))))),
    ),
  ),
)

Octets-Sendable : {option : TcpOption} → Sendable option → Octets (option_octets big_endian option)
unfolding option_octets
Octets-Sendable (Sendable.size h) = (omega arith, (omega arith, (omega arith, (omega arith, tt))))
Octets-Sendable (Sendable.scale h) = (omega arith, (omega arith, (h, tt)))
Octets-Sendable Sendable.permitted = (omega arith, (omega arith, tt))
Octets-Sendable (Sendable.ranges {rs} fit h k) =
    (omega arith, (omega arith, Octets-ranges (present rs)))

Octets-maybe : (o : Option TcpOption) → MaybeSendable o → Octets (maybe_octets o)
Octets-maybe none s = tt
Octets-maybe (some option) s = Octets-Sendable s

-- The options fit the room, together.
abbrev pub options_len : TcpRepr → ℕ
options_len repr =
    maybe_len (size_option repr) + maybe_len (scale_option repr) + maybe_len (sack_option repr)

-- The octets of the options, and what the parser reads from them.
pub record EmittedOptions (repr : TcpRepr) (room : List ℕ) : Type 0 where
  pub octets : List ℕ
  pub emitted : emit_options big_endian repr room ≡ some octets
  pub length_lem : length octets ≡ length room
  pub octets_lem : Octets octets
  pub reads : Reads octets nothing_read (noted repr)

pub emit_options-EmittedOptions :
    (repr : TcpRepr) (room : List ℕ)
    → SizeFits repr.max_seg_size
    → ScaleFits repr.window_scale
    → MaybeSendable (sack_option repr)
    → options_len repr ≤ length room
    → EmittedOptions repr room
unfolding emit_options
emit_options-EmittedOptions repr room hs hw hr h =
    let o1 = size_option repr in
    let o2 = scale_option repr in
    let o3 = sack_option repr in
    let r1 = drop (maybe_len o1) room in
    let r2 = drop (maybe_len o2) r1 in
    let r3 = drop (maybe_len o3) r2 in
    let d1 = length-drop_lem (maybe_len o1) room in
    let d2 = length-drop_lem (maybe_len o2) r1 in
    let d3 = length-drop_lem (maybe_len o3) r2 in
    let s1 = size-Sendable repr.max_seg_size hs in
    let s2 = scale-Sendable repr.window_scale hw in
    let (e1, l1) = emit_if_lem o1 room s1 (omega arith) in
    let (e2, l2) = emit_if_lem o2 r1 s2 (omega arith) in
    let (e3, l3) = emit_if_lem o3 r2 hr (omega arith) in
    let pad = zeros big_endian r3 in
    let a3 = length-append_lem (maybe_octets o3) pad in
    let a2 = length-append_lem (maybe_octets o2) (maybe_octets o3 ++ pad) in
    let a1 = length-append_lem (maybe_octets o1) (maybe_octets o2 ++ (maybe_octets o3 ++ pad)) in
    let z = length-zeros r3 in
    record {
      octets = maybe_octets o1 ++ (maybe_octets o2 ++ (maybe_octets o3 ++ pad));
      emitted = rw (e1, e2, e3, emit_end_lem r3) refl;
      length_lem = omega arith;
      octets_lem = Octets-append (maybe_octets o1) _ (Octets-maybe o1 s1) (
          Octets-append (maybe_octets o2) _ (Octets-maybe o2 s2)
            (Octets-append (maybe_octets o3) _ (Octets-maybe o3 hr) (Octets-zeros r3)));
      reads = Reads-maybe o1 _ nothing_read _ s1 (
          subst (λ seen. Reads (maybe_octets o2 ++ (maybe_octets o3 ++ pad)) seen (noted repr))
            (sym (size-noted repr.max_seg_size))
            (Reads-maybe o2 _ _ _ s2 (
              subst (λ seen. Reads (maybe_octets o3 ++ pad) seen (noted repr))
                (sym (scale-noted repr.window_scale _ hw refl))
                (Reads-maybe o3 _ _ _ hr (
                  subst (λ seen. Reads pad seen (noted repr)) (sym (sack-noted repr _ refl refl))
                    (Reads-zeros r3 (noted repr)))))));
    }
