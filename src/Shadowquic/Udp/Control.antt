-- ===== src/Shadowquic/Udp/Control.antt =====
-- The control stream of a session (src/proxy/shadowquic_udp.rs: run_bistream_recv_listener).
use quic_proxy.Common.{ℕ, Option, none, some, Result, ok, err}
use quic_proxy.Common.Bytes.{Bytes}
use quic_proxy.Addr.{TargetAddr, IpAddr, AddrError}
use quic_proxy.Shadowquic.Udp.{Conn, UdpError, bind_context_id, clean, close}
use quic_proxy.Shadowquic.Sender.{read_addr_and_context_id}

-- After the loop: the session is cleaned and closed.
unfoldable pub end_listener : ℕ → Conn → Conn
end_listener r s = close r (clean r s)

-- The bytes to go on with, where the loop goes on.
unfoldable pub after_bind : ℕ → Bytes → Conn × Result UdpError (Unit {0}) → Conn × Option Bytes
after_bind r rest (s, ok x) = (s, some rest)
after_bind r rest (s, err e) = (end_listener r s, none)

unfoldable pub control_message :
    ℕ → Result AddrError (ℕ × TargetAddr × Bytes) → Conn → Conn × Option Bytes
control_message r (ok (id, source, rest)) s = after_bind r rest (bind_context_id r source id s)
control_message r (err e) s = (end_listener r s, none)

-- One round of the loop, on the bytes that the stream still has to give.
unfoldable pub control_round : (Bytes → Option IpAddr) → ℕ → Bytes → Conn → Conn × Option Bytes
control_round parse_ip r recv s = control_message r (read_addr_and_context_id parse_ip recv) s
