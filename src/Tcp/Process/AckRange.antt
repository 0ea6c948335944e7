-- ===== src/Tcp/Process/AckRange.antt =====
-- `Socket::process`: the range of acceptable acknowledgements where no SYN is in flight.
use smoltcp.Prelude.{
  ℕ, ◌+◌, ◌-◌, ◌%◌, ◌^◌, ◌≤◌, ◌<◌, ◌≡◌, refl, inl, inr, ◌⊎◌, Bool, true, false, ◌&&◌, ltb, leb,
  ◌==◌, some, if◌then◌else◌, sym, ◌∙◌, arith, Bool-cases,
}
use smoltcp.Tcp.Socket.{Socket}
use smoltcp.Tcp.Process.Ack.{Verdict, Acked, as_usize, sent_syn, sent_fin, in_ack_range, acked_by}
use smoltcp.Wire.SeqNumber.{SeqNumber, add, distance, wrapping_sub, seq_gt, seq_lt, seq_ge}

in_range-bound :
    (l m ack : ℕ)
    → l < 2 ^ 32
    → ack < 2 ^ 32
    → m < 2 ^ 31
    → wrapping_sub ack l < 2 ^ 31
    → (wrapping_sub ack ((l + m) % 2 ^ 32) ≡ 0) ⊎ (2 ^ 31 ≤ wrapping_sub ack ((l + m) % 2 ^ 32))
    → wrapping_sub ack l ≤ m
in_range-bound l m ack p q r near (inl e) = omega arith
in_range-bound l m ack p q r near (inr e) = omega arith

chosen-accept :
    (a b : Bool)
    → some (if a then Verdict.drop else if b then Verdict.challenge else Verdict.accept)
      ≡ some Verdict.accept
    → (a ≡ false) × (b ≡ false)
chosen-accept a b e = ground arith

at_most_one : (b : Bool) → as_usize b ≤ 1
at_most_one b = ground arith

pub not_gt :
    (a b : SeqNumber) → seq_gt a b ≡ false → (wrapping_sub a b ≡ 0) ⊎ (2 ^ 31 ≤ wrapping_sub a b)
not_gt a b h = elim (Bool-cases (ltb 0 (wrapping_sub a b))) [
  | inl some_distance ↦ inr (ground arith)
  | inr no_distance ↦ inl (ground arith)
]

-- The state has no SYN in flight.
pub in_ack_range-bound :
    (s : Socket) (ack : SeqNumber)
    → sent_syn s.state ≡ false
    → s.local_seq_no < 2 ^ 32
    → ack < 2 ^ 32
    → s.tx_buffer.length + 1 < 2 ^ 31
    → in_ack_range s ack ≡ some Verdict.accept
    → (wrapping_sub ack s.local_seq_no < 2 ^ 31)
      × (wrapping_sub ack s.local_seq_no ≤ s.tx_buffer.length + as_usize (sent_fin s.state))
unfolding in_ack_range add
in_ack_range-bound s ack e l a t h =
    let (not_before, not_after) =
      chosen-accept (seq_lt ack s.local_seq_no)
        (seq_gt ack (
          (s.local_seq_no + (s.tx_buffer.length + (as_usize false + as_usize (sent_fin s.state))))
          % 2 ^ 32))
        (sym (rw (e, small) refl) ∙ h) in
    (
      ground arith,
      omega (
        arith,
        in_range-bound s.local_seq_no
            (s.tx_buffer.length + (as_usize false + as_usize (sent_fin s.state))) ack l a
            (omega (arith, at_most_one (sent_fin s.state))) (ground arith) (not_gt _ _ not_after),
      ),
    )
  where
    small :
        ltb (2 ^ 31 - 1) (s.tx_buffer.length + (as_usize false + as_usize (sent_fin s.state)))
        ≡ false
    small = ground (arith, at_most_one (sent_fin s.state))

pub acked_by-bound :
    (s : Socket) (ack : SeqNumber)
    → sent_syn s.state ≡ false
    → s.local_seq_no < 2 ^ 32
    → wrapping_sub ack s.local_seq_no < 2 ^ 31
    → wrapping_sub ack s.local_seq_no ≤ s.tx_buffer.length + as_usize (sent_fin s.state)
    → (a : Acked) × (acked_by s ack ≡ some a) × (a.ack_len ≤ s.tx_buffer.length)
unfolding acked_by add distance
acked_by-bound s ack e l near h = (
  record {
    ack_len = if of_fin then w - 1 else w;
    ack_of_fin = of_fin;
    ack_all = s.remote_last_seq == ack;
  },
  rw (e, start, after, defined) refl,
  bound (sent_fin s.state) h,
)
  where
    start : (s.local_seq_no + as_usize false) % 2 ^ 32 ≡ s.local_seq_no
    start = omega arith

    after : seq_ge ack s.local_seq_no ≡ true
    after = ground arith

    defined : leb (2 ^ 31) (wrapping_sub ack s.local_seq_no) ≡ false
    defined = ground arith

    w : ℕ
    w = wrapping_sub ack s.local_seq_no

    of_fin : Bool
    of_fin = sent_fin s.state && (s.tx_buffer.length + 1 == w)

    bound :
        (fin : Bool)
        → wrapping_sub ack s.local_seq_no ≤ s.tx_buffer.length + as_usize fin
        → (if fin && (s.tx_buffer.length + 1 == w) then w - 1 else w) ≤ s.tx_buffer.length
    bound true k = ground arith
    bound false k = ground arith
