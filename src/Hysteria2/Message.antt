-- ===== src/Hysteria2/Message.antt =====
-- UDP messages (src/proxy/outbound/hysteria2/mod.rs: UdpMessage, udp_header_size, pack,
-- parse_udp_message).
use quic_proxy.Common.{
  ℕ, ◌+◌, ◌<◌, ◌≤◌, ◌^◌, ◌≡◌, refl, true, false, ◌||◌, [], ◌∷◌, ◌++◌, Result, ok, err, length, take,
  drop, ltb, ◌==◌, if◌then◌else◌, arith, get_or, append_assoc, le→ltb, take-append, drop-append,
  length-append, drop-drop,
}
use quic_proxy.Common.Bytes.{
  Bytes, be16, be32, from_be16, from_be32, from_be16-be16, from_be32-be32,
}
use quic_proxy.Common.Utf8.{from_utf8_lossy, is_utf8, from_utf8_lossy_valid}
use quic_proxy.Hysteria2.Varint.{
  VarintError, varint_len, read_varint, append_varint, read_varint-append_varint,
  length-append_varint, append_varint-append, varint_len_bounds,
}

pub data MessageError : Type 0 where
  too_short truncated varint bad_fragment conflicting_count : MessageError
  bad_destination_len : ℕ → MessageError

abbrev pub max_udp_address_len : ℕ
max_udp_address_len = 2048

pub record UdpMessage : Type 0 where
  pub session_id : ℕ
  pub packet_id : ℕ
  pub frag_id : ℕ
  pub frag_count : ℕ
  pub destination : Bytes
  pub payload : Bytes

unfoldable pub udp_header_size : Bytes → ℕ
udp_header_size destination = 8 + varint_len (length destination) + length destination

-- `put_u32`, `put_u16`, two `put_u8`, the length as a varint, the destination, the payload
unfoldable pub pack : UdpMessage → Bytes
pack m =
    let out = be32 m.session_id ++ be16 m.packet_id ++ m.frag_id ∷ m.frag_count ∷ [] in
    append_varint out (length m.destination) ++ m.destination ++ m.payload

-- `?` on the varint turns its error into the caller's.
abbrev pub from_varint : Result VarintError (ℕ × ℕ) → Result MessageError (ℕ × ℕ)
from_varint (ok p) = ok p
from_varint (err e) = err varint

-- What follows `read_varint(&data[8..])?`.
parse_destination : Bytes → ℕ → ℕ → Result MessageError UdpMessage
parse_destination bytes addr_len used =
    if addr_len == 0 || ltb max_udp_address_len addr_len
    then err (bad_destination_len addr_len)
    else let start = 8 + used in
      if ltb (length bytes) (start + addr_len)
      then err truncated
      else ok (record {
        session_id =
            from_be32 (get_or bytes 0 0) (get_or bytes 1 0) (get_or bytes 2 0) (get_or bytes 3 0);
        packet_id = from_be16 (get_or bytes 4 0) (get_or bytes 5 0);
        frag_id = get_or bytes 6 0;
        frag_count = get_or bytes 7 0;
        destination = from_utf8_lossy (take addr_len (drop start bytes));
        payload = drop (start + addr_len) bytes;
      })

unfoldable pub parse_udp_message : Bytes → Result MessageError UdpMessage
unfolding parse_destination
parse_udp_message bytes =
    if ltb (length bytes) 9
    then err too_short
    else elim (from_varint (read_varint (drop 8 bytes))) [
      | ok (addr_len, used) ↦ parse_destination bytes addr_len used
      | err e ↦ err e
    ]

-- The fields that the wire format can carry.
pub record IsWire (m : UdpMessage) : Type 0 where
  pub session_fits : m.session_id < 2 ^ 32
  pub packet_fits : m.packet_id < 2 ^ 16
  pub destination_some : 1 ≤ length m.destination
  pub destination_max : length m.destination ≤ max_udp_address_len
  pub destination_text : is_utf8 m.destination ≡ true

abbrev fixed_header : UdpMessage → Bytes
fixed_header m = be32 m.session_id ++ be16 m.packet_id ++ m.frag_id ∷ m.frag_count ∷ []

pack-parts :
    (m : UdpMessage)
    → pack m
      ≡ fixed_header m ++ (append_varint [] (length m.destination) ++ (m.destination ++ m.payload))
unfolding pack
pack-parts m = rw (append_varint-append (fixed_header m) (length m.destination)) (simp append_assoc)

pub length-pack :
    (m : UdpMessage) → length (pack m) ≡ udp_header_size m.destination + length m.payload
unfolding udp_header_size
length-pack m = rw (pack-parts m) (
    omega (
      arith,
      length-append (fixed_header m)
          (append_varint [] (length m.destination) ++ (m.destination ++ m.payload)),
      length-append (append_varint [] (length m.destination)) (m.destination ++ m.payload),
      length-append m.destination m.payload,
      length-append_varint (length m.destination),
    ))

module _ (m : UdpMessage) where
  drop-pack :
      drop 8 (pack m) ≡ append_varint [] (length m.destination) ++ (m.destination ++ m.payload)
  drop-pack = rw (pack-parts m) (drop-append 8 (fixed_header m) _ refl)

  drop_start-pack :
      drop (8 + varint_len (length m.destination)) (pack m) ≡ m.destination ++ m.payload
  drop_start-pack =
      rw (← drop-drop (varint_len (length m.destination)) 8 (pack m), drop-pack)
        (drop-append _ _ _ (length-append_varint (length m.destination)))

  drop_all-pack :
      drop (8 + varint_len (length m.destination) + length m.destination) (pack m) ≡ m.payload
  drop_all-pack =
      rw
        (
          ← drop-drop (length m.destination) (8 + varint_len (length m.destination)) (pack m),
          drop_start-pack,
        )
        (drop-append _ m.destination _ refl)

  parse_destination-pack :
      IsWire m
      → parse_destination (pack m) (length m.destination) (varint_len (length m.destination)) ≡ ok m
  unfolding parse_destination
  parse_destination-pack w =
      let allowed : (length m.destination == 0 || ltb max_udp_address_len (length m.destination))
          ≡ false =
        ground arith in
      let long : 8 + varint_len (length m.destination) + length m.destination ≤ length (pack m) =
        unfold udp_header_size in omega (arith, length-pack m) in
      rw (
        allowed,
        le→ltb (length (pack m)) _ long,
        drop_start-pack,
        drop_all-pack,
        take-append (length m.destination) m.destination m.payload refl,
        from_utf8_lossy_valid m.destination w.destination_text,
        pack-parts m,
        from_be32-be32 m.session_id w.session_fits,
        from_be16-be16 m.packet_id w.packet_fits,
      )

-- `parse_udp_message` reads back every message that `pack` wrote, if the message fits the wire
-- format: its ids fit their fields and its destination is UTF-8 text of 1 to 2048 bytes.
pub parse_udp_message-pack : (m : UdpMessage) → IsWire m → parse_udp_message (pack m) ≡ ok m
unfolding parse_udp_message
parse_udp_message-pack m w =
    let long : 9 ≤ length (pack m) =
      unfold udp_header_size in
      omega (arith, length-pack m, varint_len_bounds (length m.destination)) in
    rw
      (
        le→ltb (length (pack m)) 9 long,
        drop-pack m,
        read_varint-append_varint (length m.destination) (m.destination ++ m.payload) (omega arith),
      )
      (parse_destination-pack m w)
