-- ===== src/Shadowquic/Request/Roundtrip.antt =====
-- What the server reads of what the client writes at the start of a stream
-- (src/proxy/outbound/shadowquic.rs, src/proxy/shadowquic_udp.rs, src/proxy/inbound/shadowquic.rs).
use quic_proxy.Common.{
  ℕ, ◌-◌, ◌^◌, ◌<◌, ◌≡◌, refl, Bool, true, false, Option, ◌∷◌, ◌++◌, ok, length, take, replicate,
  if◌then◌else◌, min, arith, append_assoc, drop-append, take-append, le→ltb, length-append,
  length-take, length-replicate,
}
use quic_proxy.Common.Bytes.{Bytes, be16, from_be16-be16}
use quic_proxy.Addr.{TargetAddr, IpAddr, to_bytes}
use quic_proxy.Addr.Decode.{IsEncodable}
use quic_proxy.Shadowquic.Sender.Wire.{announcement, read_from-to_bytes}
use quic_proxy.Shadowquic.Request.{
  dummy, tcp_handshake, udp_handshake, read_target, read_udp_target, read_request_head,
  read_context_id, read_udp_session, sunny_quic_auth_len, gen_sunny_auth_hash, read_sunny_auth,
  auth_packet,
}

module _ (parse_ip : Bytes → Option IpAddr) (target : TargetAddr) (rest : Bytes) where
  -- The server reads a TCP request back: the command, the encodable target, and then what follows.
  pub read_request_head-tcp_handshake :
      IsEncodable parse_ip target
      → read_request_head parse_ip (tcp_handshake target ++ rest) ≡ ok (1, target, rest)
  unfolding read_request_head tcp_handshake read_udp_target
  read_request_head-tcp_handshake h = rw (read_from-to_bytes parse_ip target rest h)

  udp_target :
      (cmd : ℕ)
      → IsEncodable parse_ip target
      → read_target parse_ip cmd (to_bytes target ++ rest) ≡ ok (cmd, target, rest)
  unfolding read_target
  udp_target cmd h = rw (read_from-to_bytes parse_ip target rest h)

-- The handshake of a UDP session and the first announcement that follows it are read back by the
-- server: how datagrams travel, the encodable target, the context id, and then what follows.
pub read_udp_session-udp_handshake :
    (parse_ip : Bytes → Option IpAddr) (over_unistream : Bool) (id : ℕ) (target : TargetAddr)
    (rest : Bytes)
    → IsEncodable parse_ip target
    → id < 2 ^ 16
    → read_udp_session parse_ip (udp_handshake over_unistream ++ (announcement id target ++ rest))
      ≡ ok (if over_unistream then 4 else 3, target, id, rest)
unfolding read_udp_session read_request_head read_udp_target udp_handshake read_context_id
read_udp_session-udp_handshake parse_ip true id target rest h l = rw (
  append_assoc (to_bytes target) (be16 id) rest,
  read_from-to_bytes parse_ip dummy (to_bytes target ++ (be16 id ++ rest)) (refl, omega arith),
  udp_target parse_ip target (be16 id ++ rest) 4 h,
  from_be16-be16 id l,
)
read_udp_session-udp_handshake parse_ip false id target rest h l = rw (
  append_assoc (to_bytes target) (be16 id) rest,
  read_from-to_bytes parse_ip dummy (to_bytes target ++ (be16 id ++ rest)) (refl, omega arith),
  udp_target parse_ip target (be16 id ++ rest) 3 h,
  from_be16-be16 id l,
)

length-gen_sunny_auth_hash :
    (sha256 : Bytes → Bytes) (username password : Bytes)
    → length (gen_sunny_auth_hash sha256 username password) ≡ sunny_quic_auth_len
unfolding gen_sunny_auth_hash
length-gen_sunny_auth_hash sha256 username password =
    let hash = sha256 (username ++ (58 ∷ password)) in
    let n = min sunny_quic_auth_len (length hash) in
    omega (
      arith,
      length-append (take n hash) (replicate (sunny_quic_auth_len - n) 0),
      length-take n hash,
      length-replicate {A = ℕ} (sunny_quic_auth_len - n) 0,
    )

-- The server reads the credential back that the client computes from a user name and a password and
-- sends, and then what follows, whatever the digest is.
pub read_sunny_auth-auth_packet :
    (sha256 : Bytes → Bytes) (username password rest : Bytes)
    → read_sunny_auth (auth_packet (gen_sunny_auth_hash sha256 username password) ++ rest)
      ≡ ok (gen_sunny_auth_hash sha256 username password, rest)
unfolding read_sunny_auth auth_packet
read_sunny_auth-auth_packet sha256 username password rest =
    let hash = gen_sunny_auth_hash sha256 username password in
    let size = length-gen_sunny_auth_hash sha256 username password in
    rw (
      le→ltb (length (hash ++ rest)) sunny_quic_auth_len (omega (arith, length-append hash rest)),
      take-append sunny_quic_auth_len hash rest size,
      drop-append sunny_quic_auth_len hash rest size,
    )
