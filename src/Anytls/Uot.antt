-- ===== src/Anytls/Uot.antt =====
-- UDP over TCP (src/proxy/anytls_proto.rs: the UoT helpers, UotReadBuffer). Its address types are
-- 0, 1 and 2, where the SOCKS format has 1, 4 and 3.
use quic_proxy.Common.{
  ℕ, ◌+◌, ◌^◌, Bool, true, false, Option, none, some, [], ◌∷◌, ◌++◌, Result, ok, err, ◌>>=◌, length,
  take, drop, ltb, leb, ◌==◌, if◌then◌else◌,
}
use quic_proxy.Common.Bytes.{Bytes, as_u8, be16}
use quic_proxy.Common.Utf8.{from_utf8_lossy}
use quic_proxy.Addr.{v4, v6, TargetAddr, ip, domain, port_at}

pub data UotError : Type 0 where
  empty_packet ip4_too_short ip6_too_short domain_too_short : UotError
  unknown_atyp : ℕ → UotError
  payload_too_long no_length no_payload : UotError

unfoldable pub uot_write_target : TargetAddr → Bytes → Bytes
uot_write_target (ip (v4 o p)) buf = buf ++ (0 ∷ (o ++ be16 p))
uot_write_target (ip (v6 o p flow scope)) buf = buf ++ (1 ∷ (o ++ be16 p))
uot_write_target (domain name p) buf = buf ++ (2 ∷ as_u8 (length name) ∷ (name ++ be16 p))

unfoldable pub uot_encode_target : TargetAddr → Bytes
unfolding uot_write_target
uot_encode_target target = uot_write_target target []

unfoldable pub uot_decode_domain : Bytes → Result UotError (TargetAddr × ℕ)
uot_decode_domain (atyp ∷ domain_len ∷ rest) =
    let payload = atyp ∷ domain_len ∷ rest in
    if ltb (length payload) (2 + domain_len + 2)
    then err domain_too_short
    else ok (
      domain (from_utf8_lossy (take domain_len (drop 2 payload)))
          (port_at payload (2 + domain_len)),
      2 + domain_len + 2,
    )
uot_decode_domain _ = err domain_too_short

unfoldable pub uot_decode_target : Bytes → Result UotError (TargetAddr × ℕ)
uot_decode_target [] = err empty_packet
uot_decode_target (atyp ∷ rest) =
    let payload = atyp ∷ rest in
    if atyp == 0
    then if ltb (length payload) 7
      then err ip4_too_short
      else ok (ip (v4 (take 4 (drop 1 payload)) (port_at payload 5)), 7)
    else if atyp == 1
    then if ltb (length payload) 19
      then err ip6_too_short
      else ok (ip (v6 (take 16 (drop 1 payload)) (port_at payload 17) 0 0), 19)
    else if atyp == 2
    then uot_decode_domain payload
    else err (unknown_atyp atyp)

-- `(data.len() >= required).then_some(required)`
abbrev pub enough : Bytes → ℕ → Result UotError (Option ℕ)
enough payload required = if leb required (length payload) then ok (some required) else ok none

abbrev pub domain_required : Bytes → Result UotError (Option ℕ)
domain_required (atyp ∷ domain_len ∷ rest) = enough (atyp ∷ domain_len ∷ rest) (4 + domain_len)
domain_required _ = ok none

unfoldable pub uot_target_len : Bytes → Result UotError (Option ℕ)
uot_target_len [] = ok none
uot_target_len (atyp ∷ rest) =
    if atyp == 0
    then enough (atyp ∷ rest) 7
    else if atyp == 1
    then enough (atyp ∷ rest) 19
    else if atyp == 2
    then domain_required (atyp ∷ rest)
    else err (unknown_atyp atyp)

-- The rest of `next_packet`, after the length of the header.
unfoldable pub cut_packet : Bytes → ℕ → Bytes × Result UotError (Option Bytes)
cut_packet buf header_len =
    if ltb (length buf) (header_len + 2)
    then (buf, ok none)
    else let packet_len = header_len + 2 + port_at buf header_len in
      if ltb (length buf) packet_len
      then (buf, ok none)
      else (drop packet_len buf, ok (some (take packet_len buf)))

unfoldable pub cut_targeted :
    Bytes → Result UotError (Option ℕ) → Bytes × Result UotError (Option Bytes)
cut_targeted buf (err e) = (buf, err e)
cut_targeted buf (ok none) = (buf, ok none)
cut_targeted buf (ok (some header_len)) = cut_packet buf header_len

-- `UotReadBuffer::next_packet` on the buffered bytes.
unfoldable pub next_packet : Bool → Bytes → Bytes × Result UotError (Option Bytes)
next_packet true buf = if ltb (length buf) 2 then (buf, ok none) else cut_packet buf 0
next_packet false buf = cut_targeted buf (uot_target_len buf)

-- `UotReadBuffer::push`
abbrev pub push : Bytes → Bytes → Bytes
push buf more = buf ++ more

abbrev pub write_optional : Option TargetAddr → Bytes
write_optional none = []
write_optional (some target) = uot_write_target target []

unfoldable pub encode_uot_packet : Bytes → Option TargetAddr → Result UotError Bytes
encode_uot_packet payload target =
    if ltb (length payload) (2 ^ 16)
    then ok (write_optional target ++ (be16 (length payload) ++ payload))
    else err payload_too_long

unfoldable pub decode_payload :
    Bytes → Option TargetAddr → ℕ → Result UotError (Option TargetAddr × Bytes)
decode_payload packet target header_len =
    if ltb (length packet) (header_len + 2)
    then err no_length
    else let payload_len = port_at packet header_len in
      if ltb (length packet) (header_len + 2 + payload_len)
      then err no_payload
      else ok (target, take payload_len (drop (header_len + 2) packet))

unfoldable pub decode_uot_packet : Bytes → Bool → Result UotError (Option TargetAddr × Bytes)
decode_uot_packet packet true = decode_payload packet none 0
decode_uot_packet packet false =
    uot_decode_target packet >>= λ (target, len). decode_payload packet (some target) len
