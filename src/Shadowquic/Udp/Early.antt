-- ===== src/Shadowquic/Udp/Early.antt =====
-- Datagrams that arrive before their session (src/proxy/shadowquic_udp.rs: handle_datagram and the
-- task that it starts).
use quic_proxy.Common.{
  ℕ, ◌+◌, ◌<◌, ◌≤◌, ◌^◌, ◌≡◌, refl, ◌∙◌, ap, true, Option, none, some, List, [], ◌∷◌, ◌++◌, map, ok,
  length, arith, ==_refl, append_assoc, append-nil, length-append, replicate, lt→ltb, lt→leb,
}
use quic_proxy.Common.Bytes.{Bytes, be16, from_be16-be16}
use quic_proxy.Common.Assoc.{nat_eq, lookup, insert, lookup-insert_self}
use quic_proxy.Addr.{TargetAddr}
use quic_proxy.Shadowquic.Udp.{
  udp_receive_queue_capacity, waiting_datagram_queue_capacity, max_waiting_datagram_contexts,
  Channel, sent, try_send, ShadowUdpReceiver, Waiting, Conn, store, fed, feed_target, feed_datagram,
  bind_context_id, buffer_datagram, dispatch, handle_datagram, find_receiver, after_feed,
  feed_items, feed_next, Event, datagram, bind, receiver_found, payload_fed, step, run,
}
use quic_proxy.Shadowquic.Udp.{queued as queue_datagram}

-- The datagram of a payload for a context.
abbrev pub packet : ℕ → Bytes → Bytes
packet id payload = be16 id ++ payload

try_send_room :
    {A : Type 0} (capacity : ℕ) (x : A) (ch : Channel A)
    → ch.receiving ≡ true
    → length ch.items < capacity
    → try_send capacity x ch ≡ sent (record ch { items = ch.items ++ (x ∷ []) })
unfolding try_send
try_send_room capacity x ch h l = rw (h, lt→ltb (length ch.items) capacity l)

-- The buffer of a context that waits, with the payloads `ps` in it.
abbrev buffer : Option ℕ → List Bytes → Waiting
buffer found ps = record { channel = record { items = ps; receiving = true }; found = found }

-- The packets in the queue of a session.
abbrev pub queue : ℕ → Conn → List (TargetAddr × Bytes)
queue r s = (s.receivers r).channel.items

-- The context is not bound, and `w` waits for it.
record Unbound (r id : ℕ) (w : Waiting) (q : List (TargetAddr × Bytes)) (s : Conn) : Type 0 where
  unowned : lookup id s.udp_recv_map ≡ none
  waits : lookup id s.waiting ≡ some w
  queued : queue r s ≡ q
  receiving : (s.receivers r).channel.receiving ≡ true

-- The context is bound, and `w` waits for it.
record Bound (r id : ℕ) (target : TargetAddr) (w : Waiting) (q : List (TargetAddr × Bytes))
    (s : Conn) : Type 0 where
  owned : lookup id s.udp_recv_map ≡ some r
  bound : lookup id (s.receivers r).binded_context_id ≡ some target
  waits : lookup id s.waiting ≡ some w
  queued : queue r s ≡ q
  receiving : (s.receivers r).channel.receiving ≡ true

pub store_self : (r : ℕ) (x : ShadowUdpReceiver) (s : Conn) → (store r x s).receivers r ≡ x
unfolding store
store_self r x s = rw (==_refl r)

pub handle_datagram-packet :
    (id : ℕ) (payload : Bytes) (s : Conn)
    → id < 2 ^ 16
    → handle_datagram (packet id payload) s ≡ dispatch id payload (lookup id s.udp_recv_map) s
unfolding handle_datagram
handle_datagram-packet id payload s h =
    ap (λ i. dispatch i payload (lookup i s.udp_recv_map) s) (from_be16-be16 id h)

-- What a bind of an id that is not in use does to the session.
pub bind_facts :
    (r id : ℕ) (target : TargetAddr) (s : Conn)
    → lookup id s.udp_recv_map ≡ none
    → (lookup id (bind_context_id r target id s).0.udp_recv_map ≡ some r)
      × (lookup id ((bind_context_id r target id s).0.receivers r).binded_context_id ≡ some target)
      × (queue r (bind_context_id r target id s).0 ≡ queue r s)
      × (((bind_context_id r target id s).0.receivers r).channel.receiving
          ≡ (s.receivers r).channel.receiving)
unfolding bind_context_id
bind_facts r id target s h =
    let own = s.receivers r in
    let now = record own { binded_context_id = insert id target own.binded_context_id } in
    let there = store_self r now s in
    rw (h, bind_context_id)
      (
        lookup-insert_self id r s.udp_recv_map,
        rw there (lookup-insert_self id target own.binded_context_id),
        rw (there, queue),
        rw there,
      )

module _ (r id : ℕ) (q : List (TargetAddr × Bytes)) where
  queued-Unbound :
      (p : Bytes) (ps : List Bytes) (s : Conn)
      → length ps < waiting_datagram_queue_capacity
      → lookup id s.udp_recv_map ≡ none
      → queue r s ≡ q
      → (s.receivers r).channel.receiving ≡ true
      → Unbound r id
          (buffer none (ps ++ (p ∷ [])))
          q
          (queue_datagram id
            (buffer none ps)
            (try_send waiting_datagram_queue_capacity p (buffer none ps).channel)
            s).0
  unfolding queue_datagram
  queued-Unbound p ps s l o e h =
      rw (try_send_room waiting_datagram_queue_capacity p (buffer none ps).channel refl l) (record {
        unowned = o;
        waits = lookup-insert_self id _ s.waiting;
        queued = e;
        receiving = h;
      })

  datagram-Unbound :
      (p : Bytes) (ps : List Bytes) (s : Conn)
      → id < 2 ^ 16
      → length ps < waiting_datagram_queue_capacity
      → Unbound r id (buffer none ps) q s
      → Unbound r id (buffer none (ps ++ (p ∷ []))) q (step (datagram (packet id p)) s)
  unfolding step dispatch buffer_datagram
  datagram-Unbound p ps s hid l h =
      rw (step, handle_datagram-packet id p s hid, h.unowned, h.waits, buffer_datagram)
        (queued-Unbound p ps s l h.unowned h.queued h.receiving)

  first-Unbound :
      (p : Bytes) (s : Conn)
      → id < 2 ^ 16
      → lookup id s.udp_recv_map ≡ none
      → lookup id s.waiting ≡ none
      → length s.waiting < max_waiting_datagram_contexts
      → queue r s ≡ q
      → (s.receivers r).channel.receiving ≡ true
      → Unbound r id (buffer none (p ∷ [])) q (step (datagram (packet id p)) s)
  unfolding step dispatch buffer_datagram
  first-Unbound p s hid o w l e h =
      rw
        (
          step,
          handle_datagram-packet id p s hid,
          o,
          w,
          buffer_datagram,
          lt→leb max_waiting_datagram_contexts (length s.waiting) l,
        )
        (queued-Unbound p [] s (omega arith) o e h)

  run-Unbound :
      (new ps : List Bytes) (s : Conn)
      → id < 2 ^ 16
      → length ps + length new ≤ waiting_datagram_queue_capacity
      → Unbound r id (buffer none ps) q s
      → Unbound r id (buffer none (ps ++ new)) q (run (map (λ p. datagram (packet id p)) new) s)
  unfolding run
  run-Unbound [] ps s hid l h = rw (append-nil ps) h
  run-Unbound (p ∷ new) ps s hid l h = rw (← append_assoc ps (p ∷ []) new) (
      run-Unbound new (ps ++ (p ∷ [])) _ hid (omega (arith, length-append ps (p ∷ [])))
        (datagram-Unbound p ps s hid (omega arith) h))

  module _ (target : TargetAddr) where
    bind-Bound :
        (w : Waiting) (s : Conn)
        → Unbound r id w q s
        → Bound r id target w q (step (bind r target id) s)
    unfolding step bind_context_id
    bind-Bound w s h =
        let (owned, bound, same, live) = bind_facts r id target s h.unowned in
        record {
          owned = owned;
          bound = bound;
          waits = rw (step, h.unowned, bind_context_id) (unfold store in h.waits);
          queued = same ∙ h.queued;
          receiving = live ∙ h.receiving;
        }

    found-Bound :
        (ps : List Bytes) (s : Conn)
        → Bound r id target (buffer none ps) q s
        → Bound r id target (buffer (some r) ps) q (step (receiver_found id) s)
    unfolding step find_receiver
    found-Bound ps s h =
        rw (step, h.waits, h.owned, find_receiver)
          (record {
            owned = h.owned;
            bound = h.bound;
            waits = lookup-insert_self id _ s.waiting;
            queued = h.queued;
            receiving = h.receiving;
          })

module _ (r id : ℕ) (target : TargetAddr) where
  pub feed_datagram-room :
      (p : Bytes) (s : Conn)
      → lookup id (s.receivers r).binded_context_id ≡ some target
      → (s.receivers r).channel.receiving ≡ true
      → length (queue r s) < udp_receive_queue_capacity
      → feed_datagram r p id s ≡ (
        store r
            (record (s.receivers r) {
              channel = record (s.receivers r).channel { items = queue r s ++ ((target, p) ∷ []) };
            })
            s,
        ok tt,
      )
  unfolding feed_datagram feed_target fed
  feed_datagram-room p s b h l = rw (
    feed_datagram,
    b,
    try_send_room udp_receive_queue_capacity (target, p) (s.receivers r).channel h l,
  )

  fed-Bound :
      (p : Bytes) (ps : List Bytes) (q : List (TargetAddr × Bytes)) (s : Conn)
      → length q < udp_receive_queue_capacity
      → Bound r id target (buffer (some r) (p ∷ ps)) q s
      → Bound r id target (buffer (some r) ps) (q ++ ((target, p) ∷ [])) (step (payload_fed id) s)
  unfolding step feed_next feed_items after_feed
  fed-Bound p ps q s l h =
      let s2 = record s { waiting = insert id (buffer (some r) ps) s.waiting } in
      let room : length (queue r s2) < udp_receive_queue_capacity = rw (queue, h.queued) l in
      let own = s2.receivers r in
      let there =
        store_self r
          (record own { channel = record own.channel { items = queue r s2 ++ ((target, p) ∷ []) } })
          s2 in
      rw (step, feed_next, h.waits, feed_datagram-room p s2 h.bound h.receiving room)
        (record {
          owned = unfold store in h.owned;
          bound = rw there h.bound;
          waits = unfold store in lookup-insert_self id _ s.waiting;
          queued = rw (queue, there, h.queued);
          receiving = rw there h.receiving;
        })

  run-Bound :
      (ps : List Bytes) (q : List (TargetAddr × Bytes)) (s : Conn)
      → length q + length ps ≤ udp_receive_queue_capacity
      → Bound r id target (buffer (some r) ps) q s
      → queue r (run (replicate (length ps) (payload_fed id)) s) ≡ q ++ map (λ p. (target, p)) ps
  unfolding run
  run-Bound [] q s l h = rw (append-nil q) h.queued
  run-Bound (p ∷ ps) q s l h =
      rw (← append_assoc q ((target, p) ∷ []) (map (λ p. (target, p)) ps)) (
        run-Bound ps (q ++ ((target, p) ∷ [])) _ (omega (arith, length-append q ((target, p) ∷ [])))
          (fed-Bound p ps q s (omega arith) h))

run-append : (xs ys : List Event) (s : Conn) → run (xs ++ ys) s ≡ run ys (run xs s)
unfolding run
run-append [] ys s = refl
run-append (e ∷ xs) ys s = run-append xs ys (step e s)

-- What a connection does where payloads arrive for a context, then the context is bound, the task
-- finds its session, and feeds it.
abbrev pub early : ℕ → ℕ → TargetAddr → List Bytes → List Event
early r id target payloads =
    map (λ p. datagram (packet id p)) payloads
    ++ (bind r target id ∷ receiver_found id ∷ replicate (length payloads) (payload_fed id))

-- One to eight payloads that arrive for a context before the context is bound are all in the queue
-- of the session after the bind and the steps of the task, in the order of arrival and with the
-- target of the bind, if the id was not in use, fewer than 1024 contexts wait, the session's
-- receiving half is alive, and its queue has room for them.
pub early-delivered :
    (r id : ℕ) (target : TargetAddr) (p : Bytes) (ps : List Bytes) (s : Conn)
    → id < 2 ^ 16
    → lookup id s.udp_recv_map ≡ none
    → lookup id s.waiting ≡ none
    → length s.waiting < max_waiting_datagram_contexts
    → length (p ∷ ps) ≤ waiting_datagram_queue_capacity
    → (s.receivers r).channel.receiving ≡ true
    → length (queue r s) + length (p ∷ ps) ≤ udp_receive_queue_capacity
    → queue r (run (early r id target (p ∷ ps)) s) ≡ queue r s ++ map (λ p. (target, p)) (p ∷ ps)
unfolding run
early-delivered r id target p ps s hid o w l few alive room =
    let first = first-Unbound r id (queue r s) p s hid o w l refl alive in
    let all = run-Unbound r id (queue r s) ps (p ∷ []) _ hid (omega arith) first in
    let bound = bind-Bound r id (queue r s) target _ _ all in
    let found = found-Bound r id (queue r s) target _ _ bound in
    rw (run-append (map (λ p. datagram (packet id p)) ps))
      (run-Bound r id target (p ∷ ps) (queue r s) _ room found)
