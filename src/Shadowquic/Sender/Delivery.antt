-- ===== src/Shadowquic/Sender/Delivery.antt =====
-- The first packet of a session, from send_to to the queue of the peer's session
-- (src/proxy/shadowquic_udp.rs). The announcement and the datagram travel by different ways, so that
-- either may come first.
use quic_proxy.Common.{
  ℕ, ◌^◌, ◌<◌, ◌≡◌, ◌∙◌, true, false, Option, none, some, [], ◌∷◌, ◌++◌, ok, length, arith,
  append-nil,
}
use quic_proxy.Common.Bytes.{Bytes}
use quic_proxy.Common.Assoc.{nat_eq, lookup}
use quic_proxy.Addr.{TargetAddr, IpAddr}
use quic_proxy.Addr.Decode.{IsEncodable}
use quic_proxy.Shadowquic.Udp.{
  udp_receive_queue_capacity, max_waiting_datagram_contexts, Conn, bind_context_id, dispatch,
  handle_datagram, find_receiver, feed_next, step, run,
}
use quic_proxy.Shadowquic.Udp.Control.{after_bind, control_message, control_round}
use quic_proxy.Shadowquic.Udp.Early.{
  packet, queue, handle_datagram-packet, store_self, bind_facts, feed_datagram-room,
  early-delivered,
}
use quic_proxy.Shadowquic.Udp.Owner.{handle_datagram-SameMap}
use quic_proxy.Shadowquic.Sender.{
  target_eq, control, datagram_out, Session, accepted, over_limit, SendAnswers, send_to,
}
use quic_proxy.Shadowquic.Sender.Ids.{context_addr}
use quic_proxy.Shadowquic.Sender.Wire.{
  announcement, read_addr_and_context_id-announcement, send_to-first,
}

-- The session `r` of the peer is ready for the context `id`.
pub record IsReady (r id : ℕ) (c : Conn) : Type 0 where
  pub unowned : lookup id c.udp_recv_map ≡ none
  pub unknown : lookup id c.waiting ≡ none
  pub few : length c.waiting < max_waiting_datagram_contexts
  pub receiving : (c.receivers r).channel.receiving ≡ true
  pub room : length (queue r c) < udp_receive_queue_capacity

module _ (parse_ip : Bytes → Option IpAddr) (r id : ℕ) (addr : TargetAddr) where
  -- An announcement of an id that is not in use binds it.
  control_round-bind :
      (rest : Bytes) (c : Conn)
      → IsEncodable parse_ip addr
      → id < 2 ^ 16
      → lookup id c.udp_recv_map ≡ none
      → control_round parse_ip r (announcement id addr ++ rest) c
        ≡ ((bind_context_id r addr id c).0, some rest)
  unfolding control_round control_message after_bind bind_context_id
  control_round-bind rest c h l unowned = rw (
    control_round,
    read_addr_and_context_id-announcement parse_ip id addr rest h l,
    unowned,
    bind_context_id,
  )

  bound-handle_datagram :
      (buf : Bytes) (c : Conn)
      → id < 2 ^ 16
      → IsReady r id c
      → queue r (handle_datagram (packet id buf) (bind_context_id r addr id c).0).0
        ≡ queue r c ++ ((addr, buf) ∷ [])
  unfolding dispatch
  bound-handle_datagram buf c l h =
      let s = (bind_context_id r addr id c).0 in
      let (owned, bound, same, live) = bind_facts r id addr c h.unowned in
      let room : length (queue r s) < udp_receive_queue_capacity = rw same h.room in
      rw
        (
          handle_datagram-packet id buf s l,
          owned,
          feed_datagram-room r id addr buf s bound (live ∙ h.receiving) room,
          queue,
          store_self r,
        )
        (rw same)

  -- The datagram first, then the announcement, then the steps of the task.
  early-handle_datagram :
      (buf rest : Bytes) (c : Conn)
      → IsEncodable parse_ip addr
      → id < 2 ^ 16
      → IsReady r id c
      → queue r (
          feed_next id (
            find_receiver id
              (control_round parse_ip r
                (announcement id addr ++ rest)
                (handle_datagram (packet id buf) c).0).0))
        ≡ queue r c ++ ((addr, buf) ∷ [])
  unfolding run step
  early-handle_datagram buf rest c e l h =
      let s = (handle_datagram (packet id buf) c).0 in
      let unowned : lookup id s.udp_recv_map ≡ none =
        rw (handle_datagram-SameMap (packet id buf) c) h.unowned in
      let room = h.room in
      rw (control_round-bind rest s e l unowned) (
        early-delivered r id addr buf [] c l h.unowned h.unknown h.few (omega arith) h.receiving
          (omega arith))

-- The first packet of a session that sends datagrams: send_to accepts the packet and gives the
-- connection an announcement and a datagram, and nothing else; whichever of them the peer gets first,
-- the payload ends in the queue of the peer's session, once, behind what is there, with the address
-- it was sent for. The address is one that can be encoded, there are context ids left, the connection
-- takes the announcement and the datagram, and the peer's session is ready for the id.
pub first_packet-delivered :
    (parse_ip : Bytes → Option IpAddr) (w : SendAnswers) (buf : Bytes) (source target : TargetAddr)
    (next : ℕ) (s : Session) (r : ℕ) (c : Conn)
    → s.is_over_unistream ≡ false
    → lookup (context_addr source target s) s.sender_map ≡ none
    → next < 2 ^ 16
    → w.first.0.control_written ≡ true
    → over_limit w.limit (length (packet next buf)) ≡ false
    → w.datagram ≡ accepted
    → IsEncodable parse_ip (context_addr source target s)
    → IsReady r next c
    → (m : Bytes) × (d : Bytes) × ((send_to w buf source target next s).2 ≡ ok (length buf))
      × ((send_to w buf source target next s).1.out ≡ s.out ++ (control m ∷ datagram_out d ∷ []))
      × (queue r (handle_datagram d (control_round parse_ip r m c).0).0
          ≡ queue r c ++ ((context_addr source target s, buf) ∷ []))
      × (queue r (
            feed_next next
              (find_receiver next (control_round parse_ip r m (handle_datagram d c).0).0))
          ≡ queue r c ++ ((context_addr source target s, buf) ∷ []))
first_packet-delivered parse_ip w buf source target next s r c mode fresh low told fits sent e h =
    let addr = context_addr source target s in
    let (result, given) = send_to-first w buf source target next s mode fresh low told fits sent in
    let whole = append-nil (announcement next addr) in
    let bound = control_round-bind parse_ip r next addr [] c e low h.unowned in
    let late = bound-handle_datagram parse_ip r next addr buf c low h in
    let first = early-handle_datagram parse_ip r next addr buf [] c e low h in
    (
      announcement next addr,
      packet next buf,
      result,
      given,
      rw (← whole, bound) late,
      rw whole at first,
    )
