-- ===== src/Hysteria2/Reassembly.antt =====
-- Fragments of one packet, delivered in any order, make the packet
-- (src/proxy/outbound/hysteria2/mod.rs: fragment_udp_payload, process_udp_datagram).
use quic_proxy.Common.{
  ℕ, suc, ◌+◌, ◌-◌, ◌<◌, ◌≤◌, ◌≡◌, refl, ap, subst, sym, ◌^◌, ◌∙◌, true, none, some, List, [], ◌∷◌,
  ◌++◌, length, replicate, get_or, arith, ok,
}
use quic_proxy.Common.Bytes.{Bytes, All}
use quic_proxy.Common.Assoc.{lookup, nat_eq}
use quic_proxy.Hysteria2.Message.{UdpMessage, pack, max_udp_address_len}
use quic_proxy.Hysteria2.Fragments.{
  Defrag, number_chunks, fragment_udp_payload, split_payload, udp_fragment_timeout,
}
use quic_proxy.Common.Utf8.{is_utf8}
use quic_proxy.Hysteria2.Split.{
  number_chunks-get, length-number_chunks, fragment-some, split_payload-concat,
}
use quic_proxy.Hysteria2.Parts.{Agrees-replicate, missing-replicate, get_elem?-replicate, Awaited}
use quic_proxy.Hysteria2.Collect.{
  lookup-purge-none, deliver, Distinct, datagrams, Timely, Sendable, Delivered, deliver_from,
}

abbrev blank : UdpMessage
blank = record {
  session_id = 0;
  packet_id = 0;
  frag_id = 0;
  frag_count = 0;
  destination = [];
  payload = [];
}

-- The datagrams of the messages that the arrivals name, each with its time.
abbrev pub sent : List UdpMessage → List (ℕ × ℕ) → List (ℕ × Bytes)
sent ms [] = []
sent ms ((now, i) ∷ rest) = (now, pack (get_or ms i blank)) ∷ sent ms rest

-- Arrivals, each a time and the index of a message: all indices are below `n`, no two are the same,
-- and all times are less than the timeout after the first arrival at `start`.
pub record IsDelivery (n start : ℕ) (arrivals : List (ℕ × ℕ)) : Type 0 where
  pub in_range : All (λ a. a.1 < n) arrivals
  pub in_time : All (λ a. a.0 - start < udp_fragment_timeout) arrivals
  pub distinct : Distinct arrivals

module _ (session_id packet_id : ℕ) (destination : Bytes) (chunks : List Bytes) (created : ℕ) where
  sent-datagrams :
      (arrivals : List (ℕ × ℕ))
      → length chunks < 256
      → All (λ a. a.1 < length chunks) arrivals
      → sent (number_chunks session_id packet_id destination (length chunks) 0 chunks) arrivals
        ≡ datagrams session_id packet_id destination chunks created arrivals
  sent-datagrams [] b h = refl
  sent-datagrams ((now, i) ∷ rest) b h =
      let place : 0 + i ≡ i = omega arith in
      rw (
        number_chunks-get session_id packet_id destination (length chunks) 0 chunks i blank h.0
            (omega arith),
        place,
        sent-datagrams rest b h.1,
      )

  timely :
      (arrivals : List (ℕ × ℕ))
      → All (λ a. a.1 < length chunks) arrivals
      → All (λ a. a.0 - created < udp_fragment_timeout) arrivals
      → Timely session_id packet_id destination chunks created arrivals
  timely [] h t = tt
  timely (a ∷ rest) h t = ((h.0, t.0), timely rest h.1 t.1)

  awaited :
      (arrivals : List (ℕ × ℕ))
      → All (λ a. a.1 < length chunks) arrivals
      → Awaited (replicate (length chunks) none) arrivals
  awaited [] h = tt
  awaited (a ∷ rest) h = (get_elem?-replicate (length chunks) a.1 h.0, awaited rest h.1)

  deliver_all :
      (i : ℕ) (rest : List (ℕ × ℕ)) (d : Defrag)
      → Sendable session_id packet_id destination chunks created
      → 2 ≤ length chunks
      → length chunks ≡ suc (length rest)
      → lookup packet_id d ≡ none
      → IsDelivery (length chunks) created ((created, i) ∷ rest)
      → Delivered session_id packet_id destination chunks created rest (
          deliver
            (datagrams session_id packet_id destination chunks created ((created, i) ∷ rest))
            d)
  deliver_all i rest d w two n new dl =
      deliver_from session_id packet_id destination chunks created created i rest
        (replicate (length chunks) none) d w two (rw (lookup-purge-none created packet_id d new))
        (Agrees-replicate chunks) (missing-replicate (length chunks) ∙ n)
        (awaited ((created, i) ∷ rest) dl.in_range) dl.distinct
        (timely ((created, i) ∷ rest) dl.in_range dl.in_time)

  deliver_cut :
      (ms : List UdpMessage) (i : ℕ) (rest : List (ℕ × ℕ)) (d : Defrag)
      → Sendable session_id packet_id destination chunks created
      → length chunks < 256
      → number_chunks session_id packet_id destination (length chunks) 0 chunks ≡ ms
      → 2 ≤ length ms
      → length ms ≡ suc (length rest)
      → lookup packet_id d ≡ none
      → IsDelivery (length ms) created ((created, i) ∷ rest)
      → Delivered session_id packet_id destination chunks created rest
          (deliver (sent ms ((created, i) ∷ rest)) d)
  deliver_cut ms i rest d w b q two n new dl =
      let same : length ms ≡ length chunks =
        ap length (sym q)
        ∙ length-number_chunks session_id packet_id destination (length chunks) 0 chunks in
      let dl' : IsDelivery (length chunks) created ((created, i) ∷ rest) = rw same at dl in
      let wire = datagrams session_id packet_id destination chunks created ((created, i) ∷ rest) in
      let same_wire : sent ms ((created, i) ∷ rest) ≡ wire =
        subst (λ l. sent l ((created, i) ∷ rest) ≡ wire) q
          (sent-datagrams ((created, i) ∷ rest) b dl'.in_range) in
      subst (λ l. Delivered session_id packet_id destination chunks created rest (deliver l d))
        (sym same_wire) (deliver_all i rest d w (omega arith) (omega arith) new dl')

-- A payload that fragment_udp_payload cuts into two messages or more is put together again by
-- process_udp_datagram, in whatever order the messages' datagrams arrive, if each arrives once and
-- within the timeout after the first, the ids fit their fields, the destination is UTF-8 text of 1
-- to 2048 bytes, and no packet of that id is being put together at the start: every datagram but
-- the last gives nothing, the last gives the destination and the whole payload, and no entry of the
-- packet is left behind.
pub process_udp_datagram-fragments :
    (session_id packet_id : ℕ) (destination payload : Bytes) (max_size : ℕ) (ms : List UdpMessage)
    (start i : ℕ) (rest : List (ℕ × ℕ)) (d : Defrag)
    → fragment_udp_payload session_id packet_id destination payload max_size ≡ some ms
    → 2 ≤ length ms
    → session_id < 2 ^ 32
    → packet_id < 2 ^ 16
    → 1 ≤ length destination
    → length destination ≤ max_udp_address_len
    → is_utf8 destination ≡ true
    → lookup packet_id d ≡ none
    → length ms ≡ suc (length rest)
    → IsDelivery (length ms) start ((start, i) ∷ rest)
    → ((deliver (sent ms ((start, i) ∷ rest)) d).1
        ≡ replicate (length rest) (ok none) ++ (ok (some (destination, payload)) ∷ []))
      × (lookup packet_id (deliver (sent ms ((start, i) ∷ rest)) d).0 ≡ none)
process_udp_datagram-fragments sid pid dest payload max_size ms start i rest d e two hs hp h1 h2 hu
      new n dl =
    let chunks = split_payload dest payload max_size in
    let (b, q) = fragment-some sid pid dest payload max_size e in
    let w : Sendable sid pid dest chunks start = λ j. record {
      session_fits = hs;
      packet_fits = hp;
      destination_some = h1;
      destination_max = h2;
      destination_text = hu;
    } in
    rw (split_payload-concat dest payload max_size) at
      (deliver_cut sid pid dest chunks start ms i rest d w b q two n new dl)
