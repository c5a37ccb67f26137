-- ===== src/Shadowquic/Request.antt =====
-- The requests of ShadowQUIC streams (src/proxy/shadowquic_udp.rs: read_request_head,
-- read_extension_request, read_sunny_auth and their answers; src/proxy/outbound/shadowquic.rs: what
-- the client writes; src/proxy/inbound/shadowquic.rs: handle_udp). A stream is the bytes it has still
-- to give; a timeout ends a read as the end of the stream does. SHA-256 is a parameter.
pub mod Roundtrip
use quic_proxy.Common.{
  ℕ, suc, ◌+◌, ◌-◌, ◌^◌, ◌<◌, ◌≤◌, ◌≡◌, refl, sym, ◌∙◌, Bool, true, false, ◌||◌, Option, none, some,
  List, [], ◌∷◌, ◌++◌, Result, ok, err, ◌>>=◌, length, take, drop, replicate, ltb, leb, ◌==◌,
  if◌then◌else◌, min, arith, append_assoc, append-nil, drop-append, take-append, le→ltb,
  length-append, length-take, length-replicate,
}
use quic_proxy.Common.Bytes.{Bytes, be16, be32, from_be16-be16}
use quic_proxy.DnsCache.{be64, from_be64}
use quic_proxy.Addr.{
  TargetAddr, ip, v4, IpAddr, AddrError, unexpected_eof, to_bytes, write_to, encoded_len, read_from,
  read_u8, read_u16, read_exact,
}
use quic_proxy.Addr.Decode.{IsEncodable, decode-write_to}
use quic_proxy.Addr.Stream.{read_from-eq-decode}
use quic_proxy.Shadowquic.Sender.Wire.{announcement, read_from-to_bytes}

abbrev pub udp_context_id_reconnect_margin : ℕ
udp_context_id_reconnect_margin = 256

-- `used < u16::MAX as u32 - UDP_CONTEXT_ID_RECONNECT_MARGIN`
unfoldable pub has_capacity : ℕ → Bool
has_capacity used = ltb used (65535 - udp_context_id_reconnect_margin)

-- `TargetAddr::dummy()`
abbrev pub dummy : TargetAddr
dummy = ip (v4 (0 ∷ 0 ∷ 0 ∷ 0 ∷ []) 0)

-- What the client writes at the start of a TCP stream, and of the stream of a UDP session.
unfoldable pub tcp_handshake : TargetAddr → Bytes
tcp_handshake target = 1 ∷ to_bytes target

unfoldable pub udp_handshake : Bool → Bytes
udp_handshake is_over_unistream = (if is_over_unistream then 4 else 3) ∷ to_bytes dummy

module _ (parse_ip : Bytes → Option IpAddr) where
  unfoldable pub read_target : ℕ → Bytes → Result AddrError (ℕ × TargetAddr × Bytes)
  read_target cmd s = do (target, rest) ← read_from parse_ip s; ok (cmd, target, rest)

  unfoldable pub read_udp_target :
      ℕ → TargetAddr × Bytes → Result AddrError (ℕ × TargetAddr × Bytes)
  read_udp_target cmd (target, s) =
      if cmd == 3 || cmd == 4 then read_target cmd s else ok (cmd, target, s)

  unfoldable pub read_request_head : Bytes → Result AddrError (ℕ × TargetAddr × Bytes)
  read_request_head s = do
    (cmd, s1) ← read_u8 parse_ip s
    if cmd == 255 then ok (cmd, dummy, s1) else (read_from parse_ip s1 >>= read_udp_target cmd)

  unfoldable pub read_context_id : Bytes → Result AddrError (ℕ × Bytes)
  read_context_id s = read_u16 parse_ip s

  -- What the server reads from a UDP session: the head, then the id of the peer's context.
  unfoldable pub read_udp_session : Bytes → Result AddrError (ℕ × TargetAddr × ℕ × Bytes)
  read_udp_session s = do
    (cmd, target, s1) ← read_request_head s
    (id, s2) ← read_context_id s1
    ok (cmd, target, id, s2)

pub data ExtensionRequest : Type 0 where
  get_conn_stats user_extension unknown_request : ExtensionRequest

unfoldable pub conn_opcode : Bytes → Result AddrError (ExtensionRequest × Bytes)
conn_opcode [] = err unexpected_eof
conn_opcode (b ∷ s) = if b == 0 then ok (get_conn_stats, s) else ok (unknown_request, s)

unfoldable pub extension_opcode : ℕ → Bytes → Result AddrError (ExtensionRequest × Bytes)
extension_opcode opcode s =
    if opcode == 1
    then conn_opcode s
    else if opcode == 2
    then ok (user_extension, s)
    else ok (unknown_request, s)

unfoldable pub read_extension_request : Bytes → Result AddrError (ExtensionRequest × Bytes)
unfolding from_be64
read_extension_request s =
    if ltb (length s) 8
    then err unexpected_eof
    else extension_opcode (from_be64 (take 8 s)) (drop 8 s)

-- `SQ_CONN_STATS_REQUEST`
abbrev pub conn_stats_request : Bytes
conn_stats_request = 255 ∷ 0 ∷ 0 ∷ 0 ∷ 0 ∷ 0 ∷ 0 ∷ 0 ∷ 1 ∷ 0 ∷ []

-- The round-trip time is the eight bytes of a float.
unfoldable pub write_conn_stats_response : ℕ → ℕ → Bytes → ℕ → Bytes
unfolding be64
write_conn_stats_response lost_packets sent_packets rtt_ms current_mtu =
    0 ∷ (be32 26 ++ (be64 lost_packets ++ (be64 sent_packets ++ (rtt_ms ++ be16 current_mtu))))

abbrev pub write_ext_error_not_available : Bytes
write_ext_error_not_available = 1 ∷ 0 ∷ []

abbrev pub sunny_quic_auth_len : ℕ
sunny_quic_auth_len = 64

-- The array of 64 bytes keeps zeros behind the digest.
unfoldable pub gen_sunny_auth_hash : (Bytes → Bytes) → Bytes → Bytes → Bytes
gen_sunny_auth_hash sha256 username password =
    let hash_bytes = sha256 (username ++ (58 ∷ password)) in
    let len = min sunny_quic_auth_len (length hash_bytes) in
    take len hash_bytes ++ replicate (sunny_quic_auth_len - len) 0

pub data AuthError : Type 0 where
  bad_command truncated invalid_hash : AuthError

unfoldable pub read_sunny_auth : Bytes → Result AuthError (Bytes × Bytes)
read_sunny_auth [] = err truncated
read_sunny_auth (cmd ∷ s) =
    if cmd == 5
    then if ltb (length s) sunny_quic_auth_len
      then err truncated
      else ok (take sunny_quic_auth_len s, drop sunny_quic_auth_len s)
    else err bad_command

-- What the client's send_auth writes.
unfoldable pub auth_packet : Bytes → Bytes
auth_packet auth_hash = 5 ∷ auth_hash
