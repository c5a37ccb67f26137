-- ===== src/Shadowquic/Sender/Wire.antt =====
-- From one end of a connection to the other (src/proxy/shadowquic_udp.rs: send_to, create_sender,
-- run_bistream_recv_listener, handle_datagram).
use quic_proxy.Common.{
  ℕ, ◌^◌, ◌<◌, ◌≡◌, refl, true, false, Option, none, [], ◌∷◌, ◌++◌, ok, length, if◌then◌else◌,
  arith, append_assoc, drop-append, lt→ltb, length-append,
}
use quic_proxy.Common.Bytes.{Bytes, be16, from_be16-be16}
use quic_proxy.Common.Assoc.{nat_eq, lookup}
use quic_proxy.Addr.{
  TargetAddr, ip, domain, v4, v6, IpAddr, to_bytes, write_to, encoded_len, read_from,
}
use quic_proxy.Addr.Decode.{IsEncodable, decode-write_to}
use quic_proxy.Addr.Stream.{read_from-eq-decode}
use quic_proxy.Shadowquic.Sender.{
  target_eq, control, datagram_out, Session, announced, create_sender, fill_cell, init_cell,
  enter_cell, get_send_context_id, accepted, sent_datagram, over_limit, send_datagram, SendAnswers,
  send_to, read_addr_and_context_id,
}

length-write_to :
    (parse_ip : Bytes → Option IpAddr) (a : TargetAddr)
    → IsEncodable parse_ip a
    → length (write_to a []) ≡ encoded_len a
unfolding write_to encoded_len
length-write_to parse_ip (ip (v4 o p)) (ho, hp) = omega (arith, length-append o (be16 p))
length-write_to parse_ip (ip (v6 o p f s)) (ho, hp, hf, hs) =
    omega (arith, length-append o (be16 p))
length-write_to parse_ip (domain name p) h = omega (arith, length-append name (be16 p))

-- A reader of the stream gets an encodable address back, and leaves what follows.
pub read_from-to_bytes :
    (parse_ip : Bytes → Option IpAddr) (target : TargetAddr) (rest : Bytes)
    → IsEncodable parse_ip target
    → read_from parse_ip (to_bytes target ++ rest) ≡ ok (target, rest)
unfolding to_bytes
read_from-to_bytes parse_ip target rest h = rw (
  read_from-eq-decode parse_ip (write_to target [] ++ rest),
  decode-write_to parse_ip target rest h,
  drop-append (encoded_len target) (write_to target []) rest (length-write_to parse_ip target h),
)

-- The announcement of a sender on the control stream.
abbrev pub announcement : ℕ → TargetAddr → Bytes
announcement id target = to_bytes target ++ be16 id

-- The control stream's reader gets back the id and the address of every announcement of an encodable
-- address, and leaves what follows.
pub read_addr_and_context_id-announcement :
    (parse_ip : Bytes → Option IpAddr) (id : ℕ) (target : TargetAddr) (rest : Bytes)
    → IsEncodable parse_ip target
    → id < 2 ^ 16
    → read_addr_and_context_id parse_ip (announcement id target ++ rest) ≡ ok (id, target, rest)
unfolding read_addr_and_context_id
read_addr_and_context_id-announcement parse_ip id target rest h l = rw (
  append_assoc (to_bytes target) (be16 id) rest,
  read_from-to_bytes parse_ip target (be16 id ++ rest) h,
  from_be16-be16 id l,
)

-- What send_to does for an address that has no sender yet, where it sends datagrams.
pub send_to-first :
    (w : SendAnswers) (buf : Bytes) (source target : TargetAddr) (next : ℕ) (s : Session)
    → s.is_over_unistream ≡ false
    → lookup (if s.is_client then target else source) s.sender_map ≡ none
    → next < 2 ^ 16
    → w.first.0.control_written ≡ true
    → over_limit w.limit (length (be16 next ++ buf)) ≡ false
    → w.datagram ≡ accepted
    → ((send_to w buf source target next s).2 ≡ ok (length buf))
      × ((send_to w buf source target next s).1.out
          ≡ s.out
            ++ (control (announcement next (if s.is_client then target else source))
                ∷ datagram_out (be16 next ++ buf)
                ∷ []))
unfolding send_to get_send_context_id enter_cell init_cell create_sender announced fill_cell
    send_datagram sent_datagram
send_to-first w buf source target next s mode fresh low told fits sent =
    rw
      (
        mode,
        send_to,
        fresh,
        get_send_context_id,
        lt→ltb next (2 ^ 16) low,
        told,
        create_sender,
        announced,
        fits,
        sent,
      )
      (refl, append_assoc s.out _ _)
