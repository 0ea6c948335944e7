-- ===== src/Iface/Rpl/Lollipop.antt =====
-- iface/rpl/lollipop.rs: the sequence counters of RFC 6550, section 7.2.
--
-- A counter is its octet. "Values from 128 and greater are used as a linear sequence to indicate a
-- restart", values below are the circular sequence number space. `none` is a comparison that fails.
pub mod Laws
use smoltcp.Prelude.{
  ℕ, ◌+◌, ◌-◌, Bool, true, false, ◌&&◌, ◌||◌, Option, none, some, ltb, leb, ◌==◌, if◌then◌else◌,
}

abbrev pub SequenceCounter : Type 0
SequenceCounter = ℕ

-- `consts::SEQUENCE_WINDOW`
abbrev pub sequence_window : ℕ
sequence_window = 16

-- `SequenceCounter::default`
abbrev pub initial : SequenceCounter
initial = 240

pub data Ordering : Type 0 where
  less equal greater : Ordering

-- `a.checked_add(1)` of octets.
abbrev checked_next : ℕ → Option ℕ
checked_next a = if ltb 255 (a + 1) then none else some (a + 1)

-- The wrap-around of `increment`.
abbrev within : ℕ → Option ℕ → ℕ
within max_ none = 0
within max_ (some val) = if leb val max_ then val else 0

unfoldable pub increment : SequenceCounter → SequenceCounter
increment a = within (if leb 128 a then 255 else 127) (checked_next a)

-- `(128..=255).contains(&a)` and `(0..=127).contains(&a)`
abbrev pub is_linear : SequenceCounter → Bool
is_linear a = leb 128 a && leb a 255

abbrev pub is_circular : SequenceCounter → Bool
is_circular a = leb a 127

abbrev difference : ℕ → ℕ → ℕ
difference a b = if ltb b a then a - b else b - a

-- `PartialEq`
unfoldable pub counter_eq : SequenceCounter → SequenceCounter → Bool
counter_eq a b =
    if (is_linear a && is_circular b) || (is_linear b && is_circular a)
    then false
    else if leb (difference a b) sequence_window
    then a == b
    else false

-- `a.partial_cmp(&b)` of numbers.
abbrev compare_numbers : ℕ → ℕ → Ordering
compare_numbers a b =
    if ltb a b then Ordering.less else if ltb b a then Ordering.greater else Ordering.equal

-- `PartialOrd`. The first two differences are positive, as `a` and `b` are octets.
unfoldable pub partial_cmp : SequenceCounter → SequenceCounter → Option Ordering
partial_cmp a b =
    if is_linear a && is_circular b
    then if leb (256 + b - a) sequence_window then some Ordering.less else some Ordering.greater
    else if is_linear b && is_circular a
    then if leb (256 + a - b) sequence_window then some Ordering.greater else some Ordering.less
    else if leb (difference a b) sequence_window
    then some (compare_numbers a b)
    else none
