-- ===== src/Wire/TcpPacket/Header.antt =====
-- wire/tcp.rs: the twenty octets in front of the options.
use smoltcp.Prelude.{ℕ, ◌+◌, ◌*◌, ◌/◌, ◌%◌, ◌≡◌, refl, ap, ◌∙◌, List, ◌∷◌}
use smoltcp.Wire.Bytes.{big_endian}
use smoltcp.Wire.TcpRepr.{Control, TcpRepr, is_some, header_len}
use smoltcp.Wire.TcpPacket.Fields.{set_flag, flg_ack}
use smoltcp.Wire.TcpPacket.{set_control, emit_header, unwrap_or}
use smoltcp.Wire.TcpPacket.Words.{reread, flag_word, set_control_word, emitted-word}

-- The header of a segment, with a word of length and flags, in front of what comes after the window.
abbrev pub header : TcpRepr → ℕ → List ℕ → List ℕ
header repr word tail =
    repr.src_port / 256 % 256
    ∷ repr.src_port % 256
    ∷ repr.dst_port / 256 % 256
    ∷ repr.dst_port % 256
    ∷ repr.seq_number / 16777216 % 256
    ∷ repr.seq_number / 65536 % 256
    ∷ repr.seq_number / 256 % 256
    ∷ repr.seq_number % 256
    ∷ unwrap_or repr.ack_number 0 / 16777216 % 256
    ∷ unwrap_or repr.ack_number 0 / 65536 % 256
    ∷ unwrap_or repr.ack_number 0 / 256 % 256
    ∷ unwrap_or repr.ack_number 0 % 256
    ∷ word / 256 % 256
    ∷ word % 256
    ∷ repr.window_len / 256 % 256
    ∷ repr.window_len % 256
    ∷ tail

set_control-header :
    (control : Control) (repr : TcpRepr) (word t : ℕ) (tail : List ℕ)
    → set_control big_endian control (header repr word (t ∷ tail))
      ≡ header repr (set_control_word control word) (t ∷ tail)
set_control-header Control.plain repr word t tail = refl
set_control-header Control.psh repr word t tail = refl
set_control-header Control.syn repr word t tail = refl
set_control-header Control.fin repr word t tail = refl
set_control-header Control.rst repr word t tail = refl

-- Whatever the buffer holds, the header is the segment's.
pub emit_header-header :
    (repr : TcpRepr) (b0 b1 b2 b3 b4 b5 b6 b7 b8 b9 b10 b11 b12 b13 b14 b15 t : ℕ) (tail : List ℕ)
    → emit_header big_endian repr (
        b0 ∷ b1 ∷ b2 ∷ b3 ∷ b4 ∷ b5 ∷ b6 ∷ b7 ∷ b8 ∷ b9 ∷ b10 ∷ b11 ∷ b12 ∷ b13 ∷ b14 ∷ b15 ∷ t
        ∷ tail)
      ≡ header repr
          (flag_word (header_len repr % 256 / 4 % 16) repr.control (is_some repr.ack_number))
          (t ∷ tail)
unfolding emit_header
emit_header-header repr b0 b1 b2 b3 b4 b5 b6 b7 b8 b9 b10 b11 b12 b13 b14 b15 t tail =
    let raw = b12 * 256 + b13 in
    let hl = header_len repr % 256 in
    ap (set_flag big_endian flg_ack (is_some repr.ack_number)) (
      set_control-header repr.control repr
        (reread (raw % 4096 + hl / 4 * 4096 % 65536) / 4096 * 4096) t tail)
    ∙ ap (λ w. header repr w (t ∷ tail))
        (emitted-word raw hl repr.control (is_some repr.ack_number))
