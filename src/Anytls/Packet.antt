-- ===== src/Anytls/Packet.antt =====
-- The parts of a UoT packet (src/proxy/anytls_proto.rs:
-- encode_uot_packet, decode_uot_packet, UotReadBuffer).
use quic_proxy.Common.{
  ℕ, suc, ◌+◌, ◌^◌, ◌<◌, ◌≤◌, ◌≡◌, refl, ◌∙◌, sym, true, Option, none, some, [], ◌∷◌, ◌++◌, ok,
  length, take, ltb, arith, length-append, take-append, drop-append, le→ltb, lt→ltb, append_assoc,
  append-nil, get_or-append, Bool-cases, inl, inr,
}
use quic_proxy.Common.Bytes.{Bytes, as_u8, be16}
use quic_proxy.Common.Utf8.{is_utf8, from_utf8_lossy_valid}
use quic_proxy.Addr.{v4, v6, TargetAddr, ip, domain, port_at}
use quic_proxy.Addr.Decode.{port_at-append}
use quic_proxy.Anytls.Uot.{
  uot_write_target, uot_decode_target, uot_decode_domain, uot_target_len, enough, cut_packet,
  write_optional, encode_uot_packet,
}

-- The addresses that the encoding carries: octets of the right number, a port of 16 bits, no flow
-- label and scope; or a name of at most 255 bytes of UTF-8.
abbrev pub IsUotTarget : TargetAddr → Type 0
IsUotTarget (ip (v4 o p)) = (length o ≡ 4) × (p < 2 ^ 16)
IsUotTarget (ip (v6 o p flow scope)) = (length o ≡ 16) × (p < 2 ^ 16) × (flow ≡ 0) × (scope ≡ 0)
IsUotTarget (domain name p) = (length name ≤ 255) × (p < 2 ^ 16) × (is_utf8 name ≡ true)

abbrev pub IsUotAddress : Option TargetAddr → Type 0
IsUotAddress none = Unit
IsUotAddress (some target) = IsUotTarget target

octets_length : (t : ℕ) (o : Bytes) (p : ℕ) → length (t ∷ (o ++ be16 p)) ≡ 3 + length o
octets_length t o p = omega (arith, length-append o (be16 p))

octets_port :
    (t n : ℕ) (o : Bytes) (p : ℕ) (rest : Bytes)
    → length o ≡ n
    → p < 2 ^ 16
    → (suc (n + 2) ≤ suc (length ((o ++ be16 p) ++ rest)))
      × (take n ((o ++ be16 p) ++ rest) ≡ o)
      × (port_at (t ∷ ((o ++ be16 p) ++ rest)) (suc n) ≡ p)
octets_port t n o p rest h hp = rw (append_assoc o (be16 p) rest) (
  omega (arith, length-append o (be16 p ++ rest)),
  take-append n o (be16 p ++ rest) h,
  port_at-append (t ∷ o) p (suc n) rest (omega arith) hp,
)

uot_decode_domain-name :
    (t : ℕ) (name : Bytes) (p : ℕ) (rest : Bytes)
    → p < 2 ^ 16
    → is_utf8 name ≡ true
    → uot_decode_domain (t ∷ length name ∷ (name ++ (be16 p ++ rest)))
      ≡ ok (domain name p, 2 + length name + 2)
unfolding uot_decode_domain
uot_decode_domain-name t name p rest hp text =
    let long : 2 + length name + 2 ≤ suc (suc (length (name ++ (be16 p ++ rest)))) =
      omega (arith, length-append name (be16 p ++ rest)) in
    let place : 2 + length name ≡ suc (suc (length name)) = omega arith in
    rw (
      le→ltb _ (2 + length name + 2) long,
      place,
      take-append (length name) name (be16 p ++ rest) refl,
      from_utf8_lossy_valid name text,
      port_at-append (t ∷ length name ∷ name) p (suc (suc (length name))) rest refl hp,
    )

pub uot_decode_target-write :
    (t : TargetAddr) (rest : Bytes)
    → IsUotTarget t
    → uot_decode_target (uot_write_target t [] ++ rest) ≡ ok (t, length (uot_write_target t []))
unfolding uot_decode_target uot_write_target
uot_decode_target-write (ip (v4 o p)) rest (ho, hp) =
    let (long, t, q) = octets_port 0 4 o p rest ho hp in
    rw (le→ltb _ 7 long, t, q, octets_length 0 o p, ho)
uot_decode_target-write (ip (v6 o p flow scope)) rest (ho, hp, hf, hs) =
    let (long, t, q) = octets_port 1 16 o p rest ho hp in
    rw (le→ltb _ 19 long, t, q, octets_length 1 o p, ho, hf, hs)
uot_decode_target-write (domain name p) rest (hn, hp, text) =
    let fits : as_u8 (length name) ≡ length name = omega arith in
    let all : suc (length (length name ∷ (name ++ be16 p))) ≡ 2 + length name + 2 =
      omega (arith, length-append name (be16 p)) in
    rw (fits, append_assoc name (be16 p) rest, all) (uot_decode_domain-name 2 name p rest hp text)

-- On the first bytes of what was written, the length is known once the address is there.
pub uot_target_len-write :
    (t : TargetAddr) (buf more rest : Bytes)
    → IsUotTarget t
    → buf ++ more ≡ uot_write_target t [] ++ rest
    → uot_target_len buf ≡ enough buf (length (uot_write_target t []))
unfolding uot_target_len uot_write_target
uot_target_len-write (ip (v4 o p)) [] more rest h e = ground (arith, octets_length 0 o p)
uot_target_len-write (ip (v4 o p)) (a ∷ s) more rest h e = ground (arith, octets_length 0 o p)
uot_target_len-write (ip (v6 o p flow scope)) [] more rest h e = ground (arith, octets_length 1 o p)
uot_target_len-write (ip (v6 o p flow scope)) (a ∷ s) more rest h e =
    ground (arith, octets_length 1 o p)
uot_target_len-write (domain name p) [] more rest h e = ground arith
uot_target_len-write (domain name p) (a ∷ []) more rest h e = ground arith
uot_target_len-write (domain name p) (a ∷ b ∷ s) more rest h e =
    ground (arith, length-append name (be16 p))

module _ (front payload : Bytes) where
  -- A packet behind its address: length and payload.
  abbrev pub body : Bytes
  body = be16 (length payload) ++ payload

  pub length-packet : length (front ++ body) ≡ length front + 2 + length payload
  length-packet = omega (arith, length-append front body)

  pub port_at-body :
      (buf more rest : Bytes)
      → buf ++ more ≡ (front ++ body) ++ rest
      → length front + 2 ≤ length buf
      → length payload < 2 ^ 16
      → port_at buf (length front) ≡ length payload
  port_at-body buf more rest e h hp =
      let here = port_at-append front (length payload) (length front) (payload ++ rest) refl hp in
      let whole : buf ++ more ≡ front ++ (be16 (length payload) ++ (payload ++ rest)) =
        e ∙ append_assoc front body rest in
      let there : port_at (buf ++ more) (length front) ≡ length payload = rw whole here in
      rw
        (
          ← get_or-append buf more (length front) 0 (omega arith),
          ← get_or-append buf more (length front + 1) 0 (omega arith),
        )
        there

  pub cut_packet-whole :
      (rest : Bytes)
      → length payload < 2 ^ 16
      → cut_packet ((front ++ body) ++ rest) (length front) ≡ (rest, ok (some (front ++ body)))
  unfolding cut_packet
  cut_packet-whole rest hp =
      let all = (front ++ body) ++ rest in
      let size : length all ≡ length front + 2 + length payload + length rest =
        omega (arith, length-append (front ++ body) rest, length-packet) in
      let n = port_at-body all [] rest (append-nil all) (omega arith) hp in
      let h : length front + 2 ≤ length all = omega arith in
      let l : length front + 2 + length payload ≤ length all = omega arith in
      rw (
        le→ltb (length all) (length front + 2) h,
        n,
        le→ltb (length all) (length front + 2 + length payload) l,
        take-append (length front + 2 + length payload) (front ++ body) rest length-packet,
        drop-append (length front + 2 + length payload) (front ++ body) rest length-packet,
      )

  pub cut_packet-piece :
      (piece more : Bytes)
      → piece ++ more ≡ front ++ body
      → length piece < length (front ++ body)
      → length payload < 2 ^ 16
      → cut_packet piece (length front) ≡ (piece, ok none)
  unfolding cut_packet
  cut_packet-piece piece more e h hp = elim (Bool-cases (ltb (length piece) (length front + 2))) [
    | inl short ↦ rw short
    | inr long ↦
        let n =
          port_at-body piece more [] (e ∙ sym (append-nil (front ++ body))) (ground arith) hp in
        let l : length piece < length front + 2 + length payload = omega (arith, length-packet) in
        rw (long, n, lt→ltb (length piece) (length front + 2 + length payload) l)
  ]

pub encode_uot_packet-ok :
    (payload : Bytes) (target : Option TargetAddr) {packet : Bytes}
    → encode_uot_packet payload target ≡ ok packet
    → (length payload < 2 ^ 16) × (write_optional target ++ body [] payload ≡ packet)
unfolding encode_uot_packet
encode_uot_packet-ok payload target e = ground arith
