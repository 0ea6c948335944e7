-- ===== src/Wire/TcpPacket/Options.antt =====
-- wire/tcp.rs: `TcpOption`, the options of a TCP header.
use smoltcp.Prelude.{
  ℕ, ◌+◌, ◌-◌, ◌*◌, ◌%◌, Bool, ◌||◌, not, Option, none, some, List, [], ◌∷◌, ◌++◌, ltb, leb, ◌==◌,
  if◌then◌else◌, Result, ok, err, and_then, Checked, length, take, drop,
}
use smoltcp.Wire.Bytes.{ByteOrder, WireError, octet, u16_at, u32_at, u16_octets, u32_octets}

pub data TcpOption : Type 0 where
  end_of_list no_operation : TcpOption
  max_segment_size window_scale : ℕ → TcpOption
  sack_permitted : TcpOption
  sack_range : List (Option (ℕ × ℕ)) → TcpOption
  unknown : ℕ → List ℕ → TcpOption

-- The ranges that are there, in order.
abbrev pub present {ℓ} : {A : Type ℓ} → List (Option A) → List A
present [] = []
present (none ∷ rs) = present rs
present (some r ∷ rs) = r ∷ present rs

abbrev pub no_ranges : List (Option (ℕ × ℕ))
no_ranges = none ∷ none ∷ none ∷ []

-- `TcpOption::buffer_len`
unfoldable pub option_len : TcpOption → ℕ
option_len TcpOption.end_of_list = 1
option_len TcpOption.no_operation = 1
option_len (TcpOption.max_segment_size value) = 4
option_len (TcpOption.window_scale value) = 3
option_len TcpOption.sack_permitted = 2
option_len (TcpOption.sack_range ranges) = length (present ranges) * 8 + 2
option_len (TcpOption.unknown kind data_) = 2 + length data_

module _ (order : ByteOrder) where
  -- The range at an index of the option's data, if the data reaches so far.
  abbrev pub range_at : List ℕ → ℕ → Option (ℕ × ℕ)
  range_at octets i =
      if ltb (i * 8) (length octets)
      then some (u32_at order octets (i * 8), u32_at order octets (i * 8 + 4))
      else none

  -- An option with a length and data, by its kind; `n` is the length with the two octets before it.
  unfoldable pub parse_kind : ℕ → ℕ → List ℕ → Result WireError TcpOption
  parse_kind kind n octets =
      if kind == 2
      then if n == 4
        then ok (TcpOption.max_segment_size (u16_at order octets 0))
        else err WireError.error
      else if kind == 3
      then if n == 3 then ok (TcpOption.window_scale (octet octets 0)) else err WireError.error
      else if kind == 4
      then if n == 2 then ok TcpOption.sack_permitted else err WireError.error
      else if kind == 5
      then if ltb n 10 || not ((n - 2) % 8 == 0)
        then err WireError.error
        else ok
            (TcpOption.sack_range (range_at octets 0 ∷ range_at octets 1 ∷ range_at octets 2 ∷ []))
      else ok (TcpOption.unknown kind octets)

  -- `TcpOption::parse`: the octets that follow, and the option.
  unfoldable pub parse_option : List ℕ → Result WireError (List ℕ × TcpOption)
  unfolding parse_kind
  parse_option [] = err WireError.error
  parse_option (kind ∷ octets) =
      if kind == 0
      then ok (octets, TcpOption.end_of_list)
      else if kind == 1
      then ok (octets, TcpOption.no_operation)
      else with_length octets
    where
      with_length : List ℕ → Result WireError (List ℕ × TcpOption)
      with_length [] = err WireError.error
      with_length (n ∷ more) =
          if ltb n 2 || ltb (length more + 2) n
          then err WireError.error
          else and_then (parse_kind kind n (take (n - 2) more))
              λ option. ok (drop (n - 2) more, option)

  abbrev pub range_octets : List (ℕ × ℕ) → List ℕ
  range_octets [] = []
  range_octets ((first, second) ∷ ranges) =
      u32_octets order first ++ u32_octets order second ++ range_octets ranges

  -- The octets of an option other than the end of the list.
  unfoldable pub option_octets : TcpOption → List ℕ
  option_octets TcpOption.end_of_list = 0 ∷ []
  option_octets TcpOption.no_operation = 1 ∷ []
  option_octets (TcpOption.max_segment_size value) = 2 ∷ 4 ∷ u16_octets order value
  option_octets (TcpOption.window_scale value) = 3 ∷ 3 ∷ value ∷ []
  option_octets TcpOption.sack_permitted = 4 ∷ 2 ∷ []
  option_octets (TcpOption.sack_range ranges) =
      5 ∷ (length (present ranges) * 8 + 2) % 256 ∷ range_octets (present ranges)
  option_octets (TcpOption.unknown kind provided) = kind ∷ (2 + length provided) % 256 ∷ provided

  abbrev pub zeros : List ℕ → List ℕ
  zeros [] = []
  zeros (x ∷ xs) = 0 ∷ zeros xs

  -- `copy_from_slice` panics on slices of different lengths.
  abbrev pub fits : TcpOption → ℕ → Bool
  fits (TcpOption.unknown kind provided) room = 2 + length provided == room
  fits option room = leb (option_len option) room

  -- `TcpOption::emit`: the octets written and the rest of the buffer. The end of the list also
  -- clears that rest.
  unfoldable pub emit_option : TcpOption → List ℕ → Checked (List ℕ × List ℕ)
  unfolding option_octets option_len
  emit_option option buffer =
      if fits option (length buffer)
      then some (option_octets option, rest option (drop (option_len option) buffer))
      else none
    where
      rest : TcpOption → List ℕ → List ℕ
      rest TcpOption.end_of_list octets = zeros octets
      rest _ octets = octets
