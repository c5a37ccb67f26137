-- ===== src/Shadowquic/Udp/Bounds.antt =====
-- How much a ShadowQUIC connection keeps (src/proxy/shadowquic_udp.rs: the three capacities).
use quic_proxy.Common.{
  ℕ, ◌<◌, ◌≤◌, ◌≡◌, Option, none, some, List, [], ◌∷◌, Result, ok, err, length, leb, ◌==◌, arith,
  Bool-cases, Option-cases, inl, inr, length-append, length-drop,
}
use quic_proxy.Common.Bytes.{Bytes, from_be16}
use quic_proxy.Common.Assoc.{
  nat_eq, lookup, insert, remove, length-remove, length-remove-some, Values, remove-Values,
  lookup-Values,
}
use quic_proxy.Addr.{TargetAddr}
use quic_proxy.Shadowquic.Udp.{
  udp_receive_queue_capacity, waiting_datagram_queue_capacity, max_waiting_datagram_contexts,
  Channel, Sent, sent, queue_full, queue_closed, try_send, ShadowUdpReceiver, Waiting, Conn,
  UdpError, store, close, fed, feed_target, feed_datagram, bind_context_id, unbind, unmap, queued,
  buffer_datagram, dispatch, handle_datagram, find_receiver, end_task, after_feed, feed_items,
  feed_next, deliver, delivered, recv_many, Event, datagram, bind, forget_id, release_id,
  close_session, receiver_found, task_ended, payload_fed, packet_read, packets_taken, step, run,
}

abbrev HasRoom : Waiting → Type 0
HasRoom w = length w.channel.items ≤ waiting_datagram_queue_capacity

-- At most 64 packets wait for each session, at most 1024 contexts wait for their session, and at
-- most 8 datagrams wait for each of them.
pub record IsBounded (s : Conn) : Type 0 where
  pub queues : (r : ℕ) → length (s.receivers r).channel.items ≤ udp_receive_queue_capacity
  pub contexts : length s.waiting ≤ max_waiting_datagram_contexts
  pub buffers : Values HasRoom s.waiting

-- What `try_send` may give on a channel that holds at most `capacity` items.
abbrev Fits : {A : Type 0} → ℕ → Sent A → Type 0
Fits capacity (sent ch) = length ch.items ≤ capacity
Fits capacity queue_full = Unit
Fits capacity queue_closed = Unit

try_send-Fits :
    {A : Type 0} (capacity : ℕ) (x : A) (ch : Channel A) → Fits capacity (try_send capacity x ch)
unfolding try_send
try_send-Fits capacity x ch = ground (arith, length-append ch.items (x ∷ []))

store-IsBounded :
    (r : ℕ) (x : ShadowUdpReceiver) (s : Conn)
    → IsBounded s
    → length x.channel.items ≤ udp_receive_queue_capacity
    → IsBounded (store r x s)
unfolding store
store-IsBounded r x s h l = record {
  queues = λ a. elim (Bool-cases (r == a)) [ inl y ↦ rw y l | inr n ↦ rw n (h.queues a) ];
  contexts = h.contexts;
  buffers = h.buffers;
}

keep-IsBounded :
    (id : ℕ) (w : Waiting) (s : Conn)
    → IsBounded s
    → HasRoom w
    → length (remove id s.waiting) < max_waiting_datagram_contexts
    → IsBounded (record s { waiting = insert id w s.waiting })
unfolding insert
keep-IsBounded id w s h a l = record {
  queues = h.queues;
  contexts = l;
  buffers = (a, remove-Values HasRoom id s.waiting h.buffers);
}

end_task-IsBounded : (id : ℕ) (s : Conn) → IsBounded s → IsBounded (end_task id s)
unfolding end_task
end_task-IsBounded id s h =
    let c = h.contexts in
    record {
      queues = h.queues;
      contexts = omega (arith, length-remove id s.waiting);
      buffers = remove-Values HasRoom id s.waiting h.buffers;
    }

close-IsBounded : (r : ℕ) (s : Conn) → IsBounded s → IsBounded (close r s)
unfolding close
close-IsBounded r s h = store-IsBounded r _ s h (h.queues r)

fed-IsBounded :
    (r : ℕ) (x : Sent (TargetAddr × Bytes)) (s : Conn)
    → IsBounded s
    → Fits udp_receive_queue_capacity x
    → IsBounded (fed r x s).0
unfolding fed
fed-IsBounded r (sent ch) s h f = store-IsBounded r _ s h f
fed-IsBounded r queue_full s h f = h
fed-IsBounded r queue_closed s h f = close-IsBounded r s h

feed_target-IsBounded :
    (r : ℕ) (payload : Bytes) (target : Option TargetAddr) (s : Conn)
    → IsBounded s
    → IsBounded (feed_target r payload target s).0
unfolding feed_target
feed_target-IsBounded r payload none s h = h
feed_target-IsBounded r payload (some target) s h =
    fed-IsBounded r _ s h
      (try_send-Fits udp_receive_queue_capacity (target, payload) (s.receivers r).channel)

feed_datagram-IsBounded :
    (r : ℕ) (payload : Bytes) (id : ℕ) (s : Conn)
    → IsBounded s
    → IsBounded (feed_datagram r payload id s).0
unfolding feed_datagram
feed_datagram-IsBounded r payload id s h = feed_target-IsBounded r payload _ s h

unbind-IsBounded : (r id : ℕ) (s : Conn) → IsBounded s → IsBounded (unbind r id s)
unfolding unbind
unbind-IsBounded r id s h = store-IsBounded r _ s h (h.queues r)

unmap-IsBounded : (r id : ℕ) (s : Conn) → IsBounded s → IsBounded (unmap r id s)
unfolding unmap
unmap-IsBounded r id s h = elim (Option-cases (lookup id s.udp_recv_map)) [
  | inl n ↦ rw (n, unmap) h
  | inr (owner, e) ↦
      rw (e, unmap)
        (elim (Bool-cases (r == owner)) [
          | inl y ↦ rw y (record { queues = h.queues; contexts = h.contexts; buffers = h.buffers })
          | inr n ↦ rw n h
        ])
]

bind_context_id-IsBounded :
    (r : ℕ) (target : TargetAddr) (id : ℕ) (s : Conn)
    → IsBounded s
    → IsBounded (bind_context_id r target id s).0
unfolding bind_context_id
bind_context_id-IsBounded r target id s h = elim (Option-cases (lookup id s.udp_recv_map)) [
  | inr (owner, e) ↦ rw (e, bind_context_id) h
  | inl e ↦
      let k =
        store-IsBounded r
          (record (s.receivers r) {
            binded_context_id = insert id target (s.receivers r).binded_context_id;
          })
          s h (h.queues r) in
      rw (e, bind_context_id)
        (record { queues = k.queues; contexts = k.contexts; buffers = k.buffers })
]

queued-IsBounded :
    (id : ℕ) (w : Waiting) (x : Sent Bytes) (s : Conn)
    → IsBounded s
    → HasRoom w
    → length (remove id s.waiting) < max_waiting_datagram_contexts
    → Fits waiting_datagram_queue_capacity x
    → IsBounded (queued id w x s).0
unfolding queued
queued-IsBounded id w (sent ch) s h a l f = keep-IsBounded id (record w { channel = ch }) s h f l
queued-IsBounded id w queue_full s h a l f = keep-IsBounded id w s h a l
queued-IsBounded id w queue_closed s h a l f =
    let e = end_task-IsBounded id s h in
    record {
      queues = h.queues;
      contexts = omega arith;
      buffers = remove-Values HasRoom id s.waiting h.buffers;
    }

-- A context that waits is replaced by itself.
known-room :
    (id : ℕ) (w : Waiting) (s : Conn)
    → IsBounded s
    → lookup id s.waiting ≡ some w
    → length (remove id s.waiting) < max_waiting_datagram_contexts
known-room id w s h e = let c = h.contexts in omega (arith, length-remove-some id w s.waiting e)

buffer_datagram-IsBounded :
    (id : ℕ) (payload : Bytes) (s : Conn) → IsBounded s → IsBounded (buffer_datagram id payload s).0
unfolding buffer_datagram
buffer_datagram-IsBounded id payload s h = elim (Option-cases (lookup id s.waiting)) [
  | inr (w, e) ↦
      rw (e, buffer_datagram)
        (queued-IsBounded id w _ s h (lookup-Values HasRoom id w s.waiting e h.buffers)
          (known-room id w s h e) (try_send-Fits waiting_datagram_queue_capacity payload w.channel))
  | inl e ↦
      rw (e, buffer_datagram)
        (elim (Bool-cases (leb max_waiting_datagram_contexts (length s.waiting))) [
          | inl y ↦ rw y h
          | inr n ↦ rw n (
              queued-IsBounded id _ _ s h (omega arith)
                (let l = length-remove id s.waiting in ground arith)
                (try_send-Fits waiting_datagram_queue_capacity payload _))
        ])
]

dispatch-IsBounded :
    (id : ℕ) (payload : Bytes) (owner : Option ℕ) (s : Conn)
    → IsBounded s
    → IsBounded (dispatch id payload owner s).0
unfolding dispatch
dispatch-IsBounded id payload (some r) s h = feed_datagram-IsBounded r payload id s h
dispatch-IsBounded id payload none s h = buffer_datagram-IsBounded id payload s h

handle_datagram-IsBounded : (d : Bytes) (s : Conn) → IsBounded s → IsBounded (handle_datagram d s).0
unfolding handle_datagram
handle_datagram-IsBounded [] s h = h
handle_datagram-IsBounded (a ∷ []) s h = h
handle_datagram-IsBounded (a ∷ b ∷ payload) s h = dispatch-IsBounded (from_be16 a b) payload _ s h

find_receiver-IsBounded : (id : ℕ) (s : Conn) → IsBounded s → IsBounded (find_receiver id s)
unfolding find_receiver
find_receiver-IsBounded id s h = elim (Option-cases (lookup id s.waiting)) [
  | inl n ↦ rw (n, find_receiver) h
  | inr (w, e) ↦
      rw (e, find_receiver)
        (elim (Option-cases (lookup id s.udp_recv_map)) [
          | inl n ↦ rw n h
          | inr (r, m) ↦ rw m (
              keep-IsBounded id _ s h (lookup-Values HasRoom id w s.waiting e h.buffers)
                (known-room id w s h e))
        ])
]

after_feed-IsBounded :
    (id : ℕ) (x : Conn × Result UdpError (Unit {0})) → IsBounded x.0 → IsBounded (after_feed id x)
unfolding after_feed
after_feed-IsBounded id (s, ok x) h = h
after_feed-IsBounded id (s, err e) h = end_task-IsBounded id s h

feed_items-IsBounded :
    (id : ℕ) (w : Waiting) (found : Option ℕ) (items : List Bytes) (s : Conn)
    → IsBounded s
    → lookup id s.waiting ≡ some w
    → length items ≤ waiting_datagram_queue_capacity
    → IsBounded (feed_items id w found items s)
unfolding feed_items
feed_items-IsBounded id w none items s h e l = h
feed_items-IsBounded id w (some r) [] s h e l = h
feed_items-IsBounded id w (some r) (payload ∷ items) s h e l =
    let kept = record w { channel = record w.channel { items = items } } in
    after_feed-IsBounded id _ (
      feed_datagram-IsBounded r payload id _
        (keep-IsBounded id kept s h (omega arith) (known-room id w s h e)))

feed_next-IsBounded : (id : ℕ) (s : Conn) → IsBounded s → IsBounded (feed_next id s)
unfolding feed_next
feed_next-IsBounded id s h = elim (Option-cases (lookup id s.waiting)) [
  | inl n ↦ rw (n, feed_next) h
  | inr (w, e) ↦
      rw (e, feed_next)
        (feed_items-IsBounded id w w.found w.channel.items s h e
          (lookup-Values HasRoom id w s.waiting e h.buffers))
]

delivered-IsBounded :
    (r : ℕ) (x : Sent (TargetAddr × Bytes)) (s : Conn)
    → IsBounded s
    → Fits udp_receive_queue_capacity x
    → IsBounded (delivered r x s)
unfolding delivered
delivered-IsBounded r (sent ch) s h f = store-IsBounded r _ s h f
delivered-IsBounded r queue_full s h f = h
delivered-IsBounded r queue_closed s h f = close-IsBounded r s h

recv_many-IsBounded : (r : ℕ) (s : Conn) → IsBounded s → IsBounded (recv_many r s).0
unfolding recv_many
recv_many-IsBounded r s h =
    let q = h.queues r in
    store-IsBounded r _ s h (omega (arith, length-drop 10 (s.receivers r).channel.items))

step-IsBounded : (e : Event) (s : Conn) → IsBounded s → IsBounded (step e s)
unfolding step deliver
step-IsBounded (datagram d) s h = handle_datagram-IsBounded d s h
step-IsBounded (bind r target id) s h = bind_context_id-IsBounded r target id s h
step-IsBounded (forget_id r id) s h = unbind-IsBounded r id s h
step-IsBounded (release_id r id) s h = unmap-IsBounded r id s h
step-IsBounded (close_session r) s h = close-IsBounded r s h
step-IsBounded (receiver_found id) s h = find_receiver-IsBounded id s h
step-IsBounded (task_ended id) s h = end_task-IsBounded id s h
step-IsBounded (payload_fed id) s h = feed_next-IsBounded id s h
step-IsBounded (packet_read r target payload) s h =
    delivered-IsBounded r _ s h
      (try_send-Fits udp_receive_queue_capacity (target, payload) (s.receivers r).channel)
step-IsBounded (packets_taken r) s h = recv_many-IsBounded r s h

-- However the tasks of a connection interleave, the queue of a session never holds more than 64
-- packets, at most 1024 contexts wait for their session, and at most 8 datagrams wait for each of
-- them, if that was so before.
pub run-IsBounded : (es : List Event) (s : Conn) → IsBounded s → IsBounded (run es s)
unfolding run
run-IsBounded [] s h = h
run-IsBounded (e ∷ es) s h = run-IsBounded es (step e s) (step-IsBounded e s h)
