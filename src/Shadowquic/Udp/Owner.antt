-- ===== src/Shadowquic/Udp/Owner.antt =====
-- Which session a context id belongs to (src/proxy/shadowquic_udp.rs: bind_context_id, the
-- `remove_if` of clean and of run_unistream_worker).
use quic_proxy.Common.{
  ℕ, ◌≡◌, ◌≢◌, refl, sym, ◌∙◌, Option, none, some, List, [], ◌∷◌, Result, ok, err, leb, length,
  ◌==◌, Bool-cases, Option-cases, inl, inr, ==_iff,
}
use quic_proxy.Common.Bytes.{Bytes, All, from_be16}
use quic_proxy.Common.Assoc.{nat_eq, lookup, lookup-insert_ne, lookup-remove_ne}
use quic_proxy.Addr.{TargetAddr}
use quic_proxy.Shadowquic.Udp.{
  max_waiting_datagram_contexts, Sent, sent, queue_full, queue_closed, Waiting, Conn, UdpError,
  store, close, fed, feed_target, feed_datagram, bind_context_id, unbind, unmap, queued,
  buffer_datagram, dispatch, handle_datagram, find_receiver, end_task, after_feed, feed_items,
  feed_next, deliver, delivered, recv_many, Event, datagram, bind, forget_id, release_id,
  close_session, receiver_found, task_ended, payload_fed, packet_read, packets_taken, step, run,
}

-- The id that `s` gives to `r` is still given to `r`.
abbrev pub Owns : ℕ → ℕ → Conn → Type 0
Owns r id s = lookup id s.udp_recv_map ≡ some r

-- The map of ids is the same.
abbrev pub SameMap : Conn → Conn → Type 0
SameMap s t = t.udp_recv_map ≡ s.udp_recv_map

fed-SameMap : (r : ℕ) (x : Sent (TargetAddr × Bytes)) (s : Conn) → SameMap s (fed r x s).0
unfolding fed store close
fed-SameMap r (sent ch) s = refl
fed-SameMap r queue_full s = refl
fed-SameMap r queue_closed s = refl

feed_target-SameMap :
    (r : ℕ) (payload : Bytes) (target : Option TargetAddr) (s : Conn)
    → SameMap s (feed_target r payload target s).0
unfolding feed_target
feed_target-SameMap r payload none s = refl
feed_target-SameMap r payload (some target) s = fed-SameMap r _ s

feed_datagram-SameMap :
    (r : ℕ) (payload : Bytes) (id : ℕ) (s : Conn) → SameMap s (feed_datagram r payload id s).0
unfolding feed_datagram
feed_datagram-SameMap r payload id s = feed_target-SameMap r payload _ s

queued-SameMap : (id : ℕ) (w : Waiting) (x : Sent Bytes) (s : Conn) → SameMap s (queued id w x s).0
unfolding queued
queued-SameMap id w (sent ch) s = refl
queued-SameMap id w queue_full s = refl
queued-SameMap id w queue_closed s = refl

buffer_datagram-SameMap :
    (id : ℕ) (payload : Bytes) (s : Conn) → SameMap s (buffer_datagram id payload s).0
unfolding buffer_datagram
buffer_datagram-SameMap id payload s = elim (Option-cases (lookup id s.waiting)) [
  | inr (w, e) ↦ rw (e, buffer_datagram) (queued-SameMap id w _ s)
  | inl e ↦
      rw (e, buffer_datagram)
        (elim (Bool-cases (leb max_waiting_datagram_contexts (length s.waiting))) [
          | inl y ↦ rw y refl
          | inr n ↦ rw n (queued-SameMap id _ _ s)
        ])
]

dispatch-SameMap :
    (id : ℕ) (payload : Bytes) (owner : Option ℕ) (s : Conn)
    → SameMap s (dispatch id payload owner s).0
unfolding dispatch
dispatch-SameMap id payload (some r) s = feed_datagram-SameMap r payload id s
dispatch-SameMap id payload none s = buffer_datagram-SameMap id payload s

pub handle_datagram-SameMap : (d : Bytes) (s : Conn) → SameMap s (handle_datagram d s).0
unfolding handle_datagram
handle_datagram-SameMap [] s = refl
handle_datagram-SameMap (a ∷ []) s = refl
handle_datagram-SameMap (a ∷ b ∷ payload) s = dispatch-SameMap (from_be16 a b) payload _ s

find_receiver-SameMap : (id : ℕ) (s : Conn) → SameMap s (find_receiver id s)
unfolding find_receiver
find_receiver-SameMap id s = elim (Option-cases (lookup id s.waiting)) [
  | inl n ↦ rw (n, find_receiver) refl
  | inr (w, e) ↦
      rw (e, find_receiver)
        (elim (Option-cases (lookup id s.udp_recv_map)) [
          | inl n ↦ rw n refl
          | inr (r, m) ↦ rw m refl
        ])
]

after_feed-SameMap :
    (id : ℕ) (x : Conn × Result UdpError (Unit {0})) → SameMap x.0 (after_feed id x)
unfolding after_feed end_task
after_feed-SameMap id (s, ok x) = refl
after_feed-SameMap id (s, err e) = refl

feed_items-SameMap :
    (id : ℕ) (w : Waiting) (found : Option ℕ) (items : List Bytes) (s : Conn)
    → SameMap s (feed_items id w found items s)
unfolding feed_items
feed_items-SameMap id w none items s = refl
feed_items-SameMap id w (some r) [] s = refl
feed_items-SameMap id w (some r) (payload ∷ items) s =
    after_feed-SameMap id _ ∙ feed_datagram-SameMap r payload id _

feed_next-SameMap : (id : ℕ) (s : Conn) → SameMap s (feed_next id s)
unfolding feed_next
feed_next-SameMap id s = elim (Option-cases (lookup id s.waiting)) [
  | inl n ↦ rw (n, feed_next) refl
  | inr (w, e) ↦ rw (e, feed_next) (feed_items-SameMap id w w.found w.channel.items s)
]

delivered-SameMap : (r : ℕ) (x : Sent (TargetAddr × Bytes)) (s : Conn) → SameMap s (delivered r x s)
unfolding delivered store close
delivered-SameMap r (sent ch) s = refl
delivered-SameMap r queue_full s = refl
delivered-SameMap r queue_closed s = refl

bind_context_id-Owns :
    (r : ℕ) (target : TargetAddr) (id other : ℕ) (o : ℕ) (s : Conn)
    → Owns o other s
    → Owns o other (bind_context_id r target id s).0
unfolding bind_context_id store
bind_context_id-Owns r target id other o s h = elim (Option-cases (lookup id s.udp_recv_map)) [
  | inr (owner, e) ↦ rw (e, bind_context_id) h
  | inl e ↦
      let apart : id ≢ other = λ q. let i : lookup other s.udp_recv_map ≡ none = rw (← q) e in cc in
      rw (e, bind_context_id) (lookup-insert_ne id other r s.udp_recv_map apart ∙ h)
]

-- remove_if takes the entry of its own session only.
pub unmap-Owns :
    (r id other o : ℕ) (s : Conn)
    → Owns o other s
    → ¬ ((r ≡ o) × (id ≡ other))
    → Owns o other (unmap r id s)
unfolding unmap
unmap-Owns r id other o s h d = elim (Option-cases (lookup id s.udp_recv_map)) [
  | inl n ↦ rw (n, unmap) h
  | inr (owner, e) ↦
      rw (e, unmap)
        (elim (Bool-cases (r == owner)) [
          | inr n ↦ rw n h
          | inl y ↦
              let same : r ≡ owner = (==_iff r owner).0 y in
              let apart : id ≢ other = λ q.
                let two : lookup other s.udp_recv_map ≡ some owner = rw (← q) e in
                let one : o ≡ owner = cc in d (same ∙ sym one, q) in
              rw y (lookup-remove_ne id other s.udp_recv_map apart ∙ h)
        ])
]

-- `e` is not the release of `id` by `r` itself.
abbrev pub IsForeign : ℕ → ℕ → Event → Type 0
IsForeign r id (release_id a b) = ¬ ((a ≡ r) × (b ≡ id))
IsForeign r id _ = Unit

step-Owns :
    (r id : ℕ) (e : Event) (s : Conn) → Owns r id s → IsForeign r id e → Owns r id (step e s)
unfolding step deliver recv_many unbind close store end_task
step-Owns r id (datagram d) s h f = rw (handle_datagram-SameMap d s) h
step-Owns r id (bind a target b) s h f = bind_context_id-Owns a target b id r s h
step-Owns r id (forget_id a b) s h f = h
step-Owns r id (release_id a b) s h f = unmap-Owns a b id r s h f
step-Owns r id (close_session a) s h f = h
step-Owns r id (receiver_found a) s h f = rw (find_receiver-SameMap a s) h
step-Owns r id (task_ended a) s h f = h
step-Owns r id (payload_fed a) s h f = rw (feed_next-SameMap a s) h
step-Owns r id (packet_read a target payload) s h f = rw (delivered-SameMap a _ s) h
step-Owns r id (packets_taken a) s h f = h

-- A context id that leads to a session leads to it however the tasks of the connection go on, until
-- that session itself releases the id: no other session's bind, clean or closed stream takes it.
pub run-Owns :
    (r id : ℕ) (es : List Event) (s : Conn)
    → Owns r id s
    → All (IsForeign r id) es
    → Owns r id (run es s)
unfolding run
run-Owns r id [] s h f = h
run-Owns r id (e ∷ es) s h (f, fs) = run-Owns r id es (step e s) (step-Owns r id e s h f) fs
