-- ===== src/Hysteria2/Split.antt =====
-- What fragment_udp_payload cuts (src/proxy/outbound/hysteria2/mod.rs).
use quic_proxy.Common.{
  ℕ, zero, suc, ◌+◌, ◌<◌, ◌≤◌, ◌≡◌, refl, ap, inl, inr, some, List, [], ◌∷◌, length, drop, get_or,
  subst, arith, leb, min, take-append-drop, length-take, length-drop, append-nil, Bool-cases,
  leb→le,
}
use quic_proxy.Common.Bytes.{concat, Bytes, All}
use quic_proxy.Hysteria2.Message.{UdpMessage, udp_header_size, pack, length-pack}
use quic_proxy.Hysteria2.Fragments.{split_loop, split_payload, number_chunks, fragment_udp_payload}

split_loop-concat :
    (fuel per : ℕ) (rest : Bytes)
    → 0 < per
    → length rest ≤ fuel
    → concat (split_loop fuel per rest) ≡ rest
unfolding split_loop
split_loop-concat zero per [] p h = refl
split_loop-concat zero per (b ∷ rest) p h = absurd (omega arith)
split_loop-concat (suc fuel) per [] p h = refl
split_loop-concat (suc fuel) per (b ∷ rest) p h =
    let n = min (length (b ∷ rest)) per in
    let shorter : length (drop n (b ∷ rest)) ≤ fuel = omega (arith, length-drop n (b ∷ rest)) in
    rw (split_loop-concat fuel per (drop n (b ∷ rest)) p shorter) (take-append-drop n (b ∷ rest))

-- The chunks of a payload, joined, are the payload.
pub split_payload-concat :
    (destination payload : Bytes) (max_size : ℕ)
    → concat (split_payload destination payload max_size) ≡ payload
unfolding split_payload
split_payload-concat destination payload max_size =
    elim (Bool-cases (leb (length payload + udp_header_size destination) max_size)) [
      | inl fits ↦ rw fits (append-nil payload)
      | inr long ↦
          rw long (split_loop-concat (length payload) _ payload (omega arith) (omega arith))
    ]

module _ (header max_size : ℕ) where
  split_loop-short :
      (fuel per : ℕ) (rest : Bytes)
      → header + per ≤ max_size
      → All (λ c. header + length c ≤ max_size) (split_loop fuel per rest)
  unfolding split_loop
  split_loop-short zero per rest h = tt
  split_loop-short (suc fuel) per [] h = tt
  split_loop-short (suc fuel) per (b ∷ rest) h = (
    omega (arith, length-take (min (length (b ∷ rest)) per) (b ∷ rest)),
    split_loop-short fuel per (drop (min (length (b ∷ rest)) per) (b ∷ rest)) h,
  )

split_payload-short :
    (destination payload : Bytes) (max_size : ℕ)
    → udp_header_size destination < max_size
    → All
        (λ c. udp_header_size destination + length c ≤ max_size)
        (split_payload destination payload max_size)
unfolding split_payload
split_payload-short destination payload max_size h =
    elim (Bool-cases (leb (length payload + udp_header_size destination) max_size)) [
      | inl fits ↦ rw fits (omega (arith, leb→le _ _ fits), tt)
      | inr long ↦ rw long (split_loop-short _ max_size (length payload) _ payload (omega arith))
    ]

number_chunks-short :
    (session_id packet_id : ℕ) (destination : Bytes) (count index max_size : ℕ)
    (chunks : List Bytes)
    → All (λ c. udp_header_size destination + length c ≤ max_size) chunks
    → All
        (λ m. length (pack m) ≤ max_size)
        (number_chunks session_id packet_id destination count index chunks)
unfolding number_chunks
number_chunks-short s p d c index max_size [] h = tt
number_chunks-short s p d c index max_size (x ∷ xs) h =
    (rw length-pack h.0, number_chunks-short s p d c (index + 1) max_size xs h.1)

pub number_chunks-get :
    (session_id packet_id : ℕ) (destination : Bytes) (count index : ℕ) (chunks : List Bytes) (i : ℕ)
    (other : UdpMessage)
    → i < length chunks
    → index + i < 256
    → get_or (number_chunks session_id packet_id destination count index chunks) i other ≡ record {
      session_id = session_id;
      packet_id = packet_id;
      frag_id = index + i;
      frag_count = count;
      destination = destination;
      payload = get_or chunks i [];
    }
unfolding number_chunks
number_chunks-get s p d c index [] i other h b = absurd (omega arith)
number_chunks-get s p d c index (x ∷ xs) zero other h b = ground arith
number_chunks-get s p d c index (x ∷ xs) (suc i) other h b =
    rw (number_chunks-get s p d c (index + 1) xs i other (omega arith) (omega arith)) (ground arith)

pub length-number_chunks :
    (session_id packet_id : ℕ) (destination : Bytes) (count index : ℕ) (chunks : List Bytes)
    → length (number_chunks session_id packet_id destination count index chunks) ≡ length chunks
unfolding number_chunks
length-number_chunks s p d c index [] = refl
length-number_chunks s p d c index (x ∷ xs) = ap suc (length-number_chunks s p d c (index + 1) xs)

-- What a successful call returns.
pub fragment-some :
    (session_id packet_id : ℕ) (destination payload : Bytes) (max_size : ℕ) {ms : List UdpMessage}
    → fragment_udp_payload session_id packet_id destination payload max_size ≡ some ms
    → (length (split_payload destination payload max_size) < 256)
      × (number_chunks session_id packet_id destination
            (length (split_payload destination payload max_size))
            0
            (split_payload destination payload max_size)
          ≡ ms)
unfolding fragment_udp_payload
fragment-some s p d payload max_size e = ground arith

-- Every message that a payload is cut into fits one datagram of `max_size` bytes, if that is more
-- than the message's header.
pub fragment_udp_payload_fits :
    (session_id packet_id : ℕ) (destination payload : Bytes) (max_size : ℕ) {ms : List UdpMessage}
    → udp_header_size destination < max_size
    → fragment_udp_payload session_id packet_id destination payload max_size ≡ some ms
    → All (λ m. length (pack m) ≤ max_size) ms
fragment_udp_payload_fits s p d payload max_size h e =
    let chunks = split_payload d payload max_size in
    subst (λ ms. All (λ m. length (pack m) ≤ max_size) ms)
      (fragment-some s p d payload max_size e).1
      (number_chunks-short s p d (length chunks) 0 max_size chunks
        (split_payload-short d payload max_size h))
