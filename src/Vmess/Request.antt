-- ===== src/Vmess/Request.antt =====
-- The request header of VMess (src/proxy/outbound/vmess/vmess_impl/stream.rs: send_handshake_request,
-- vmess_impl/mod.rs: write_to_buf_vmess, src/proxy/inbound/vmess.rs: parse_request and
-- read_vmess_addr). The header is sealed before it is sent. The FNV-1a checksum of a crate is a
-- parameter, and the random bytes are arguments.
use quic_proxy.Common.{
  ℕ, suc, ◌+◌, ◌-◌, ◌*◌, ◌/◌, ◌^◌, ◌<◌, ◌≤◌, ◌≡◌, refl, sym, ◌∙◌, ap, Bool, true, false, [], ◌∷◌,
  ◌++◌, Result, ok, err, ◌>>=◌, length, take, drop, get_or, ltb, ◌==◌, not, if◌then◌else◌, bit_and,
  bit_or, arith, append_assoc, length-append, take-append, drop-append, drop-drop, take_all,
}
use quic_proxy.Common.Bits.{or_shift4, and-0x0f}
use quic_proxy.Common.Bytes.{Bytes, as_u8, be16, be32, from_be16, from_be16-be16}
use quic_proxy.Common.Utf8.{from_utf8_lossy, from_utf8_lossy_valid, is_utf8}
use quic_proxy.Addr.{TargetAddr, ip, domain, v4, v6}

abbrev pub version : ℕ
version = 1

abbrev pub option_chunk_stream : ℕ
option_chunk_stream = 1

unfoldable pub write_to_buf_vmess : TargetAddr → Bytes
write_to_buf_vmess (ip (v4 o p)) = be16 p ++ (1 ∷ o)
write_to_buf_vmess (ip (v6 o p flow scope)) = be16 p ++ (3 ∷ o)
write_to_buf_vmess (domain name p) = be16 p ++ (2 ∷ as_u8 (length name) ∷ name)

-- The fields of a request.
pub record VmessRequest : Type 0 where
  pub dst : TargetAddr
  pub security : ℕ
  pub is_udp : Bool
  pub req_body_iv : Bytes
  pub req_body_key : Bytes
  pub resp_v : ℕ

-- `buf` of send_handshake_request without its checksum; `padding` holds fewer than 16 bytes.
unfoldable pub request_fields : VmessRequest → Bytes → Bytes
request_fields r padding =
    version
    ∷ (r.req_body_iv
        ++ (r.req_body_key
            ++ (r.resp_v
                ∷ option_chunk_stream
                ∷ bit_or (as_u8 (length padding * 16)) r.security
                ∷ 0
                ∷ (if r.is_udp then 2 else 1)
                ∷ (write_to_buf_vmess r.dst ++ padding))))

unfoldable pub request_header : (Bytes → ℕ) → VmessRequest → Bytes → Bytes
request_header fnv1a_hash_32 r padding =
    let buf = request_fields r padding in buf ++ be32 (fnv1a_hash_32 buf)

pub data RequestError : Type 0 where
  header_too_short addr_too_short short_ip4 short_ip6 short_domain short_domain_bytes : RequestError
  unsupported_version unsupported_atyp : ℕ → RequestError

unfoldable pub read_name : ℕ → Bytes → Result RequestError TargetAddr
read_name port [] = err short_domain
read_name port (len ∷ buf) =
    if ltb (length buf) len
    then err short_domain_bytes
    else ok (domain (from_utf8_lossy (take len buf)) port)

unfoldable pub read_host : ℕ → ℕ → Bytes → Result RequestError TargetAddr
read_host port atyp buf =
    if atyp == 1
    then if ltb (length buf) 4 then err short_ip4 else ok (ip (v4 (take 4 buf) port))
    else if atyp == 2
    then read_name port buf
    else if atyp == 3
    then if ltb (length buf) 16 then err short_ip6 else ok (ip (v6 (take 16 buf) port 0 0))
    else err (unsupported_atyp atyp)

unfoldable pub read_vmess_addr : Bytes → Result RequestError TargetAddr
read_vmess_addr (a ∷ b ∷ atyp ∷ buf) = read_host (from_be16 a b) atyp buf
read_vmess_addr _ = err addr_too_short

-- The fields behind the key, and the address.
unfoldable pub parse_rest : Bytes → Bytes → Bytes → Result RequestError VmessRequest
parse_rest iv key cur =
    let resp_v = get_or cur 0 0 in
    let pad_security = get_or cur 2 0 in
    let padding_len = pad_security / 16 in
    let cmd = get_or cur 4 0 in
    let address = drop 5 cur in
    do
      dst ← read_vmess_addr (take (length address - (4 + padding_len)) address)
      ok (record {
        dst = dst;
        security = bit_and pad_security 0x0f;
        is_udp = cmd == 2;
        req_body_iv = iv;
        req_body_key = key;
        resp_v = resp_v;
      })

unfoldable pub parse_request : Bytes → Result RequestError VmessRequest
parse_request header =
    let cur = drop 1 header in
    if ltb (length header) 41
    then err header_too_short
    else if not (get_or header 0 0 == version)
    then err (unsupported_version (get_or header 0 0))
    else parse_rest (take 16 cur) (take 16 (drop 16 cur)) (drop 32 cur)

-- An address that the format can carry.
abbrev pub IsCarried : TargetAddr → Type 0
IsCarried (ip (v4 o p)) = (length o ≡ 4) × (p < 2 ^ 16)
IsCarried (ip (v6 o p flow scope)) = (length o ≡ 16) × (p < 2 ^ 16) × (flow ≡ 0) × (scope ≡ 0)
IsCarried (domain name p) = (length name ≤ 255) × (p < 2 ^ 16) × (is_utf8 name ≡ true)

read_vmess_addr-write_to_buf_vmess :
    (a : TargetAddr) → IsCarried a → read_vmess_addr (write_to_buf_vmess a) ≡ ok a
unfolding read_vmess_addr write_to_buf_vmess read_host read_name
read_vmess_addr-write_to_buf_vmess (ip (v4 o p)) (ho, hp) =
    let long : ltb (length o) 4 ≡ false = ground arith in
    rw (long, from_be16-be16 p hp, take_all 4 o (omega arith))
read_vmess_addr-write_to_buf_vmess (ip (v6 o p flow scope)) (ho, hp, hf, hs) =
    let long : ltb (length o) 16 ≡ false = ground arith in
    rw (long, from_be16-be16 p hp, take_all 16 o (omega arith), hf, hs)
read_vmess_addr-write_to_buf_vmess (domain name p) (hn, hp, text) =
    let size : as_u8 (length name) ≡ length name = omega arith in
    let long : ltb (length name) (length name) ≡ false = ground arith in
    rw (
      size,
      long,
      from_be16-be16 p hp,
      take_all (length name) name (omega arith),
      from_utf8_lossy_valid name text,
    )

length-write_to_buf_vmess : (a : TargetAddr) → 3 ≤ length (write_to_buf_vmess a)
unfolding write_to_buf_vmess
length-write_to_buf_vmess (ip (v4 o p)) = omega arith
length-write_to_buf_vmess (ip (v6 o p flow scope)) = omega arith
length-write_to_buf_vmess (domain name p) = omega arith

-- The byte of the padding's length and the security.
pad_security_lem :
    (p s : ℕ)
    → p < 16
    → s < 16
    → (bit_or (as_u8 (p * 16)) s / 16 ≡ p) × (bit_and (bit_or (as_u8 (p * 16)) s) 0x0f ≡ s)
pad_security_lem p s hp hs =
    let small : as_u8 (p * 16) ≡ p * 16 = omega arith in
    let sum = or_shift4 p s hs in
    let low = and-0x0f (p * 16 + s) (omega arith) in
    rw (small, sum) (omega arith, low ∙ omega arith)

command_lem : (is_udp : Bool) → ((if is_udp then 2 else 1) == 2) ≡ is_udp
command_lem true = refl
command_lem false = refl

module _ (r : VmessRequest) (padding sum : Bytes) where
  -- What stands behind the key.
  abbrev behind : Bytes
  behind =
      r.resp_v
      ∷ option_chunk_stream
      ∷ bit_or (as_u8 (length padding * 16)) r.security
      ∷ 0
      ∷ (if r.is_udp then 2 else 1)
      ∷ ((write_to_buf_vmess r.dst ++ padding) ++ sum)

  parse_rest-behind :
      IsCarried r.dst
      → length padding < 16
      → r.security < 16
      → length sum ≡ 4
      → parse_rest r.req_body_iv r.req_body_key behind ≡ ok r
  unfolding parse_rest
  parse_rest-behind h p s four =
      let (pad, low) = pad_security_lem (length padding) r.security p s in
      let a = write_to_buf_vmess r.dst in
      let tail = append_assoc a padding sum in
      let size : length (a ++ (padding ++ sum)) - (4 + length padding) ≡ length a =
        omega (arith, length-append a (padding ++ sum), length-append padding sum) in
      rw (
        tail,
        pad,
        low,
        size,
        take-append (length a) a (padding ++ sum) refl,
        read_vmess_addr-write_to_buf_vmess r.dst h,
        command_lem r.is_udp,
      )

-- The server reads back the request that the client writes, with any padding of fewer than 16 bytes
-- and any checksum: the target address, which the format can carry, the security below 16, whether
-- it is for UDP, the two halves of 16 bytes of the body's key material, and the response byte.
pub parse_request-request_header :
    (fnv1a_hash_32 : Bytes → ℕ) (r : VmessRequest) (padding : Bytes)
    → length r.req_body_iv ≡ 16
    → length r.req_body_key ≡ 16
    → r.security < 16
    → length padding < 16
    → IsCarried r.dst
    → parse_request (request_header fnv1a_hash_32 r padding) ≡ ok r
unfolding parse_request request_header request_fields
parse_request-request_header fnv1a_hash_32 r padding hiv hkey hs hp h =
    let sum = be32 (fnv1a_hash_32 (request_fields r padding)) in
    let front =
      r.resp_v
      ∷ option_chunk_stream
      ∷ bit_or (as_u8 (length padding * 16)) r.security
      ∷ 0
      ∷ (if r.is_udp then 2 else 1)
      ∷ (write_to_buf_vmess r.dst ++ padding) in
    let iv = r.req_body_iv in
    let key = r.req_body_key in
    let cur = iv ++ (key ++ behind r padding sum) in
    let order : (iv ++ (key ++ front)) ++ sum ≡ cur =
      append_assoc iv (key ++ front) sum ∙ ap (λ o. iv ++ o) (append_assoc key front sum) in
    let size : 40 ≤ length cur = omega (
      arith,
      length-append iv (key ++ behind r padding sum),
      length-append key (behind r padding sum),
      length-append (write_to_buf_vmess r.dst ++ padding) sum,
      length-append (write_to_buf_vmess r.dst) padding,
      length-write_to_buf_vmess r.dst,
    ) in
    let long : ltb (suc (length cur)) 41 ≡ false = ground arith in
    let after_key : drop 32 cur ≡ behind r padding sum =
      sym (drop-drop 16 16 cur)
      ∙ (ap (drop 16) (drop-append 16 iv (key ++ behind r padding sum) hiv)
          ∙ drop-append 16 key (behind r padding sum) hkey) in
    rw
      (
        order,
        long,
        after_key,
        take-append 16 iv (key ++ behind r padding sum) hiv,
        drop-append 16 iv (key ++ behind r padding sum) hiv,
        take-append 16 key (behind r padding sum) hkey,
      )
      (parse_rest-behind r padding sum h hp hs refl)
