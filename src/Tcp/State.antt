-- ===== src/Tcp/State.antt =====
-- socket/tcp.rs: the states of a connection, and the predicates that read nothing else.
use smoltcp.Prelude.{Bool, true, false}

pub data State : Type 0 where
  closed listen syn_sent syn_received established fin_wait_1 fin_wait_2 close_wait : State
  closing last_ack time_wait : State

abbrev pub is_closed : State → Bool
is_closed closed = true
is_closed _ = false

abbrev pub is_listen : State → Bool
is_listen listen = true
is_listen _ = false

-- `Socket::is_open`
abbrev pub is_open : State → Bool
is_open closed = false
is_open time_wait = false
is_open _ = true

-- `Socket::is_active`
abbrev pub is_active : State → Bool
is_active closed = false
is_active time_wait = false
is_active listen = false
is_active _ = true

-- `Socket::may_send`
abbrev pub may_send : State → Bool
may_send established = true
may_send close_wait = true
may_send _ = false
