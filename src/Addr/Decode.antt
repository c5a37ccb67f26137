-- ===== src/Addr/Decode.antt =====
-- Decoding an address from a buffer (src/proxy/mod.rs: TargetAddr::decode).
use quic_proxy.Common.{
  ℕ, suc, ◌+◌, ◌-◌, ◌^◌, ◌<◌, ◌≤◌, ◌≡◌, refl, true, Option, none, some, [], ◌∷◌, ◌++◌, ok, length,
  take, arith, length-append, take-append, le→ltb, append_assoc, get_or-append_right, get_or-append,
  take-append_le,
}
use quic_proxy.Common.Bytes.{Bytes, as_u8, be16, from_be16-be16}
use quic_proxy.Common.Utf8.{is_utf8}
use quic_proxy.Addr.{
  v4, v6, IpAddr, TargetAddr, ip, domain, encoded_len, write_to, decode, decode_v4, decode_v6,
  decode_domain, name_or_ip, port_at,
}

-- The addresses that the encoding carries: octets of the right number, a port of 16 bits, no flow
-- label and scope; or a name of at most 255 bytes of UTF-8 that is no IP literal.
abbrev pub IsEncodable : (Bytes → Option IpAddr) → TargetAddr → Type 0
IsEncodable parse_ip (ip (v4 o p)) = (length o ≡ 4) × (p < 2 ^ 16)
IsEncodable parse_ip (ip (v6 o p flow scope)) =
    (length o ≡ 16) × (p < 2 ^ 16) × (flow ≡ 0) × (scope ≡ 0)
IsEncodable parse_ip (domain name p) =
    (length name ≤ 255) × (p < 2 ^ 16) × (is_utf8 name ≡ true) × (parse_ip name ≡ none)

-- The two bytes of a port that stand behind `front`.
pub port_at-append :
    (front : Bytes) (p at : ℕ) (rest : Bytes)
    → length front ≡ at
    → p < 2 ^ 16
    → port_at (front ++ (be16 p ++ rest)) at ≡ p
port_at-append front p at rest h hp = rw (
  get_or-append_right front (be16 p ++ rest) at 0 0 (omega arith),
  get_or-append_right front (be16 p ++ rest) (at + 1) 1 0 (omega arith),
  from_be16-be16 p hp,
)

-- A fixed number of octets and a port, as they stand behind the type byte.
octets_port :
    (t n : ℕ) (o : Bytes) (p : ℕ) (rest : Bytes)
    → length o ≡ n
    → p < 2 ^ 16
    → (suc (n + 2) ≤ suc (length ((o ++ be16 p) ++ rest)))
      × (take n ((o ++ be16 p) ++ rest) ≡ o)
      × (port_at (t ∷ ((o ++ be16 p) ++ rest)) (suc n) ≡ p)
octets_port t n o p rest h hp = rw (append_assoc o (be16 p) rest) (
  omega (arith, length-append o (be16 p ++ rest)),
  take-append n o (be16 p ++ rest) h,
  port_at-append (t ∷ o) p (suc n) rest (omega arith) hp,
)

module _ (parse_ip : Bytes → Option IpAddr) where
  name_or_ip-name :
      (name : Bytes) (p : ℕ) → parse_ip name ≡ none → name_or_ip parse_ip name p ≡ domain name p
  unfolding name_or_ip
  name_or_ip-name name p h = rw (h, name_or_ip) refl

  decode_domain-name :
      (t len : ℕ) (name : Bytes) (p : ℕ) (rest : Bytes)
      → length name ≡ len
      → p < 2 ^ 16
      → is_utf8 name ≡ true
      → parse_ip name ≡ none
      → decode_domain parse_ip (t ∷ len ∷ (name ++ (be16 p ++ rest)))
        ≡ ok (some (domain name p, 2 + len + 2))
  unfolding decode_domain
  decode_domain-name t len name p rest h hp text name_only =
      let long : 2 + len + 2 ≤ suc (suc (length (name ++ (be16 p ++ rest)))) =
        omega (arith, length-append name (be16 p ++ rest)) in
      let name_end : 2 + len + 2 - 2 - 2 ≡ len = omega arith in
      let port_place : 2 + len + 2 - 2 ≡ suc (suc len) = omega arith in
      rw (
        le→ltb _ (2 + len + 2) long,
        name_end,
        port_place,
        take-append len name (be16 p ++ rest) h,
        text,
        port_at-append (t ∷ len ∷ name) p (suc (suc len)) rest (omega arith) hp,
        name_or_ip-name name p name_only,
      )

  -- decode reads back every encodable address that write_to wrote, whatever follows it, and reports
  -- the length that encoded_len gives.
  pub decode-write_to :
      (a : TargetAddr) (rest : Bytes)
      → IsEncodable parse_ip a
      → decode parse_ip (write_to a [] ++ rest) ≡ ok (some (a, encoded_len a))
  unfolding decode decode_v4 decode_v6 write_to encoded_len
  decode-write_to (ip (v4 o p)) rest (ho, hp) =
      let (long, t, q) = octets_port 1 4 o p rest ho hp in rw (le→ltb _ 7 long, t, q)
  decode-write_to (ip (v6 o p flow scope)) rest (ho, hp, hf, hs) =
      let (long, t, q) = octets_port 4 16 o p rest ho hp in rw (le→ltb _ 19 long, t, q, hf, hs)
  decode-write_to (domain name p) rest (hn, hp, text, name_only) =
      let fits : as_u8 (length name) ≡ length name = omega arith in
      rw (fits, append_assoc name (be16 p) rest)
        (decode_domain-name 3 (length name) name p rest refl hp text name_only)

module _ (parse_ip : Bytes → Option IpAddr) (more : Bytes) where
  port_at-more :
      (buf : Bytes) (at : ℕ) → at + 2 ≤ length buf → port_at (buf ++ more) at ≡ port_at buf at
  port_at-more buf at h =
      rw
        (get_or-append buf more at 0 (omega arith), get_or-append buf more (at + 1) 0 (omega arith))

  decode_domain-append :
      (t : ℕ) (s : Bytes) (r : TargetAddr × ℕ)
      → decode_domain parse_ip (t ∷ s) ≡ ok (some r)
      → decode_domain parse_ip (t ∷ (s ++ more)) ≡ ok (some r)
  unfolding decode_domain
  decode_domain-append t [] r e = cc
  decode_domain-append t (len ∷ rest) r e = ground (
    arith,
    length-append rest more,
    take-append_le (2 + len + 2 - 2 - 2) rest more,
    port_at-more (t ∷ len ∷ rest) (2 + len + 2 - 2),
  )

  decode_v4-append :
      (t : ℕ) (s : Bytes) (r : TargetAddr × ℕ)
      → decode_v4 parse_ip (t ∷ s) ≡ ok (some r)
      → decode_v4 parse_ip (t ∷ (s ++ more)) ≡ ok (some r)
  unfolding decode_v4
  decode_v4-append t s r e =
      ground (arith, length-append s more, take-append_le 4 s more, port_at-more (t ∷ s) 5)

  decode_v6-append :
      (t : ℕ) (s : Bytes) (r : TargetAddr × ℕ)
      → decode_v6 parse_ip (t ∷ s) ≡ ok (some r)
      → decode_v6 parse_ip (t ∷ (s ++ more)) ≡ ok (some r)
  unfolding decode_v6
  decode_v6-append t s r e =
      ground (arith, length-append s more, take-append_le 16 s more, port_at-more (t ∷ s) 17)

  -- What decode read from the front of a buffer it reads, with the same length, from the buffer
  -- with any bytes behind it.
  pub decode-append :
      (buf : Bytes) (a : TargetAddr) (n : ℕ)
      → decode parse_ip buf ≡ ok (some (a, n))
      → decode parse_ip (buf ++ more) ≡ ok (some (a, n))
  unfolding decode
  decode-append [] a n e = cc
  decode-append (atyp ∷ s) a n e = ground (
    arith,
    decode_v4-append atyp s (a, n),
    decode_v6-append atyp s (a, n),
    decode_domain-append atyp s (a, n),
  )
