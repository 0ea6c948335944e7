-- ===== src/Wire/TcpPacket/Words.antt =====
-- wire/tcp.rs: the fields of a header as numbers: what is read back after it has been written.
use smoltcp.Prelude.{ℕ, ◌+◌, ◌*◌, ◌/◌, ◌%◌, ◌<◌, ◌≡◌, ap, ◌∙◌, Bool, true, false, arith}
use smoltcp.Wire.TcpRepr.{Control}
use smoltcp.Wire.TcpPacket.Fields.{has_flag, with_flag}

-- Reading the two octets of a word, and the four octets of a double word.
abbrev pub reread : ℕ → ℕ
reread n = n / 256 % 256 * 256 + n % 256

pub reread_lem : (n : ℕ) → reread n ≡ n % 65536
reread_lem n = omega arith

pub reread-back : (n : ℕ) → n < 65536 → reread n ≡ n
reread-back n h = omega arith

abbrev pub reread_double : ℕ → ℕ
reread_double n =
    ((n / 16777216 % 256 * 256 + n / 65536 % 256) * 256 + n / 256 % 256) * 256 + n % 256

pub reread_double-back : (n : ℕ) → n < 4294967296 → reread_double n ≡ n
reread_double-back n h = omega arith

-- The flag of a control, as its bit's weight.
abbrev pub control_bit : Control → ℕ
control_bit Control.plain = 0
control_bit Control.psh = 8
control_bit Control.syn = 2
control_bit Control.fin = 1
control_bit Control.rst = 4

abbrev pub ack_bit : Bool → ℕ
ack_bit true = 16
ack_bit false = 0

-- The word with the header's length and the flags.
abbrev pub flag_word : ℕ → Control → Bool → ℕ
flag_word quads control acknowledges = quads * 4096 + control_bit control + ack_bit acknowledges

-- The header's length is written, and the flags are cleared.
pub cleared-word :
    (raw hl : ℕ) → reread (raw % 4096 + hl / 4 * 4096 % 65536) / 4096 * 4096 ≡ hl / 4 % 16 * 4096
cleared-word raw hl = omega arith

abbrev pub set_control_word : Control → ℕ → ℕ
set_control_word Control.plain w = w
set_control_word Control.psh w = with_flag true 8 (reread w)
set_control_word Control.syn w = with_flag true 2 (reread w)
set_control_word Control.fin w = with_flag true 1 (reread w)
set_control_word Control.rst w = with_flag true 4 (reread w)

control-word :
    (quads : ℕ) (control : Control)
    → quads < 16
    → set_control_word control (quads * 4096) ≡ quads * 4096 + control_bit control
control-word quads Control.plain h = omega arith
control-word quads Control.psh h = ground arith
control-word quads Control.syn h = ground arith
control-word quads Control.fin h = ground arith
control-word quads Control.rst h = ground arith

ack-word :
    (quads : ℕ) (control : Control) (acknowledges : Bool)
    → quads < 16
    → with_flag acknowledges 16 (reread (quads * 4096 + control_bit control))
      ≡ flag_word quads control acknowledges
ack-word quads Control.plain true h = ground arith
ack-word quads Control.plain false h = ground arith
ack-word quads Control.psh true h = ground arith
ack-word quads Control.psh false h = ground arith
ack-word quads Control.syn true h = ground arith
ack-word quads Control.syn false h = ground arith
ack-word quads Control.fin true h = ground arith
ack-word quads Control.fin false h = ground arith
ack-word quads Control.rst true h = ground arith
ack-word quads Control.rst false h = ground arith

-- The word that `Repr::emit` leaves, written step by step.
pub emitted-word :
    (raw hl : ℕ) (control : Control) (acknowledges : Bool)
    → with_flag acknowledges 16 (
        reread
          (set_control_word control (reread (raw % 4096 + hl / 4 * 4096 % 65536) / 4096 * 4096)))
      ≡ flag_word (hl / 4 % 16) control acknowledges
emitted-word raw hl control acknowledges =
    ap (λ w. with_flag acknowledges 16 (reread (set_control_word control w))) (cleared-word raw hl)
    ∙ ap (λ w. with_flag acknowledges 16 (reread w))
        (control-word (hl / 4 % 16) control (omega arith))
    ∙ ack-word (hl / 4 % 16) control acknowledges (omega arith)

abbrev pub is_fin : Control → Bool
is_fin Control.fin = true
is_fin _ = false

abbrev pub is_syn : Control → Bool
is_syn Control.syn = true
is_syn _ = false

abbrev pub is_rst : Control → Bool
is_rst Control.rst = true
is_rst _ = false

abbrev pub is_psh : Control → Bool
is_psh Control.psh = true
is_psh _ = false

-- What `Repr::parse` reads from such a word.
pub record ReadsAs (control : Control) (acknowledges : Bool) (quads w : ℕ) : Type 0 where
  pub fin_lem : has_flag 1 w ≡ is_fin control
  pub syn_lem : has_flag 2 w ≡ is_syn control
  pub rst_lem : has_flag 4 w ≡ is_rst control
  pub psh_lem : has_flag 8 w ≡ is_psh control
  pub ack_lem : has_flag 16 w ≡ acknowledges
  pub header_len_lem : w / 4096 * 4 % 256 ≡ quads * 4

pub flag_word-ReadsAs :
    (quads : ℕ) (control : Control) (acknowledges : Bool)
    → quads < 16
    → ReadsAs control acknowledges quads (reread (flag_word quads control acknowledges))
flag_word-ReadsAs quads Control.plain true h = record {
  fin_lem = ground arith;
  syn_lem = ground arith;
  rst_lem = ground arith;
  psh_lem = ground arith;
  ack_lem = ground arith;
  header_len_lem = omega arith;
}
flag_word-ReadsAs quads Control.plain false h = record {
  fin_lem = ground arith;
  syn_lem = ground arith;
  rst_lem = ground arith;
  psh_lem = ground arith;
  ack_lem = ground arith;
  header_len_lem = omega arith;
}
flag_word-ReadsAs quads Control.psh true h = record {
  fin_lem = ground arith;
  syn_lem = ground arith;
  rst_lem = ground arith;
  psh_lem = ground arith;
  ack_lem = ground arith;
  header_len_lem = omega arith;
}
flag_word-ReadsAs quads Control.psh false h = record {
  fin_lem = ground arith;
  syn_lem = ground arith;
  rst_lem = ground arith;
  psh_lem = ground arith;
  ack_lem = ground arith;
  header_len_lem = omega arith;
}
flag_word-ReadsAs quads Control.syn true h = record {
  fin_lem = ground arith;
  syn_lem = ground arith;
  rst_lem = ground arith;
  psh_lem = ground arith;
  ack_lem = ground arith;
  header_len_lem = omega arith;
}
flag_word-ReadsAs quads Control.syn false h = record {
  fin_lem = ground arith;
  syn_lem = ground arith;
  rst_lem = ground arith;
  psh_lem = ground arith;
  ack_lem = ground arith;
  header_len_lem = omega arith;
}
flag_word-ReadsAs quads Control.fin true h = record {
  fin_lem = ground arith;
  syn_lem = ground arith;
  rst_lem = ground arith;
  psh_lem = ground arith;
  ack_lem = ground arith;
  header_len_lem = omega arith;
}
flag_word-ReadsAs quads Control.fin false h = record {
  fin_lem = ground arith;
  syn_lem = ground arith;
  rst_lem = ground arith;
  psh_lem = ground arith;
  ack_lem = ground arith;
  header_len_lem = omega arith;
}
flag_word-ReadsAs quads Control.rst true h = record {
  fin_lem = ground arith;
  syn_lem = ground arith;
  rst_lem = ground arith;
  psh_lem = ground arith;
  ack_lem = ground arith;
  header_len_lem = omega arith;
}
flag_word-ReadsAs quads Control.rst false h = record {
  fin_lem = ground arith;
  syn_lem = ground arith;
  rst_lem = ground arith;
  psh_lem = ground arith;
  ack_lem = ground arith;
  header_len_lem = omega arith;
}
