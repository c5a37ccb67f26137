-- ===== src/Shadowquic/Udp.antt =====
-- What a ShadowQUIC connection does with the UDP packets that it receives
-- (src/proxy/shadowquic_udp.rs: ShadowUdpReceiver, ShadowUdpDatagramBuffer, handle_datagram and the
-- tasks they start). A bounded channel is what waits in it and whether its receiving half is alive.
-- An `Arc<ShadowUdpReceiver>` is an address in the store `receivers`, so that two sessions share the
-- maps of the connection. An entry of `waiting` stands for the buffer and for the task that
-- handle_datagram starts with it; the task removes the entry when it ends.
pub mod Bounds
pub mod Owner
pub mod Early
pub mod Clean
pub mod Control
use quic_proxy.Common.{
  ℕ, suc, ◌≡◌, Bool, true, false, not, ◌&&◌, Option, none, some, List, [], ◌∷◌, ◌++◌, map, Result,
  ok, err, length, take, drop, get_or, ltb, leb, ◌==◌, if◌then◌else◌, is_empty,
}
use quic_proxy.Common.Bytes.{Bytes, from_be16}
use quic_proxy.Common.Assoc.{Assoc, nat_eq, lookup, insert, remove, contains_key}
use quic_proxy.Addr.{TargetAddr}

abbrev pub udp_receive_queue_capacity : ℕ
udp_receive_queue_capacity = 64

abbrev pub waiting_datagram_queue_capacity : ℕ
waiting_datagram_queue_capacity = 8

abbrev pub max_waiting_datagram_contexts : ℕ
max_waiting_datagram_contexts = 1024

pub record Channel (A : Type 0) : Type 0 where
  pub items : List A
  pub receiving : Bool

pub data Sent (A : Type 0) : Type 0 where
  sent : Channel A → Sent A
  queue_full queue_closed : Sent A

-- `Sender::try_send` of a channel with room for `capacity` items
unfoldable pub try_send : {A : Type 0} → ℕ → A → Channel A → Sent A
try_send capacity x ch =
    if not ch.receiving
    then queue_closed
    else if ltb (length ch.items) capacity
    then sent (record ch { items = ch.items ++ (x ∷ []) })
    else queue_full

abbrev pub empty_channel : {A : Type 0} → Channel A
empty_channel = record { items = []; receiving = true }

pub record ShadowUdpReceiver : Type 0 where
  pub channel : Channel (TargetAddr × Bytes)
  pub binded_context_id : Assoc ℕ TargetAddr
  pub closer : Bool

-- `ShadowUdpReceiver::new`
abbrev pub new_receiver : ShadowUdpReceiver
new_receiver = record { channel = empty_channel; binded_context_id = []; closer = false }

-- A buffer, and the receiver that its task has found.
pub record Waiting : Type 0 where
  pub channel : Channel Bytes
  pub found : Option ℕ

pub record Conn : Type 0 where
  pub receivers : ℕ → ShadowUdpReceiver
  pub udp_recv_map : Assoc ℕ ℕ
  pub waiting : Assoc ℕ Waiting

pub data UdpError : Type 0 where
  unknown_context receive_queue_closed already_bound sender_closed : UdpError

unfoldable pub store : ℕ → ShadowUdpReceiver → Conn → Conn
store r x s = record s { receivers = λ a. if r == a then x else s.receivers a }

-- `closer.close()`
unfoldable pub close : ℕ → Conn → Conn
unfolding store
close r s = store r (record (s.receivers r) { closer = true }) s

-- The rest of feed_datagram after `try_send`.
unfoldable pub fed : ℕ → Sent (TargetAddr × Bytes) → Conn → Conn × Result UdpError (Unit {0})
fed r (sent ch) s = (store r (record (s.receivers r) { channel = ch }) s, ok tt)
fed r queue_full s = (s, ok tt)
fed r queue_closed s = (close r s, err receive_queue_closed)

unfoldable pub feed_target :
    ℕ → Bytes → Option TargetAddr → Conn → Conn × Result UdpError (Unit {0})
feed_target r payload none s = (s, err unknown_context)
feed_target r payload (some target) s =
    fed r (try_send udp_receive_queue_capacity (target, payload) (s.receivers r).channel) s

unfoldable pub feed_datagram : ℕ → Bytes → ℕ → Conn → Conn × Result UdpError (Unit {0})
feed_datagram r payload id s = feed_target r payload (lookup id (s.receivers r).binded_context_id) s

unfoldable pub bind_context_id : ℕ → TargetAddr → ℕ → Conn → Conn × Result UdpError (Unit {0})
bind_context_id r target id s = elim (lookup id s.udp_recv_map) [
  | some other ↦ (s, err already_bound)
  | none ↦
      let own = s.receivers r in
      let bound = record own { binded_context_id = insert id target own.binded_context_id } in
      (record (store r bound s) { udp_recv_map = insert id r s.udp_recv_map }, ok tt)
]

-- `binded_context_id.remove(&id)`
unfoldable pub unbind : ℕ → ℕ → Conn → Conn
unbind r id s =
    let own = s.receivers r in
    store r (record own { binded_context_id = remove id own.binded_context_id }) s

-- `udp_recv_map.remove_if(&id, |_, receiver| Arc::ptr_eq(receiver, self))`
unfoldable pub unmap : ℕ → ℕ → Conn → Conn
unmap r id s = elim (lookup id s.udp_recv_map) [
  | none ↦ s
  | some owner ↦ if r == owner then record s { udp_recv_map = remove id s.udp_recv_map } else s
]

unfoldable pub clean_keys : ℕ → List ℕ → Conn → Conn
clean_keys r [] s = s
clean_keys r (id ∷ keys) s = clean_keys r keys (unmap r id (unbind r id s))

unfoldable pub clean : ℕ → Conn → Conn
clean r s = clean_keys r (map (λ e. e.0) (s.receivers r).binded_context_id) s

-- The end of run_unistream_worker's task.
unfoldable pub end_worker : ℕ → ℕ → Conn → Conn
end_worker r id s =
    let after = unmap r id (unbind r id s) in
    if is_empty (after.receivers r).binded_context_id then close r after else after

-- What handle_datagram does after it has queued a datagram in the buffer `w`.
unfoldable pub queued : ℕ → Waiting → Sent Bytes → Conn → Conn × Result UdpError (Unit {0})
queued id w (sent ch) s =
    (record s { waiting = insert id (record w { channel = ch }) s.waiting }, ok tt)
queued id w queue_full s = (record s { waiting = insert id w s.waiting }, ok tt)
queued id w queue_closed s = (record s { waiting = remove id s.waiting }, err sender_closed)

unfoldable pub buffer_datagram : ℕ → Bytes → Conn → Conn × Result UdpError (Unit {0})
buffer_datagram id payload s = elim (lookup id s.waiting) [
  | some w ↦ queued id w (try_send waiting_datagram_queue_capacity payload w.channel) s
  | none ↦
      if leb max_waiting_datagram_contexts (length s.waiting)
      then (s, ok tt)
      else let w : Waiting = record { channel = empty_channel; found = none } in
        queued id w (try_send waiting_datagram_queue_capacity payload w.channel) s
]

-- A datagram of a known session, or of one that is not known yet.
unfoldable pub dispatch : ℕ → Bytes → Option ℕ → Conn → Conn × Result UdpError (Unit {0})
dispatch id payload (some r) s = feed_datagram r payload id s
dispatch id payload none s = buffer_datagram id payload s

unfoldable pub handle_datagram : Bytes → Conn → Conn × Result UdpError (Unit {0})
handle_datagram (a ∷ b ∷ payload) s =
    let id = from_be16 a b in dispatch id payload (lookup id s.udp_recv_map) s
handle_datagram _ s = (s, ok tt)

-- The task of a buffer: get_receiver has found the receiver, or has given up.
unfoldable pub find_receiver : ℕ → Conn → Conn
find_receiver id s = elim (lookup id s.waiting) [
  | none ↦ s
  | some w ↦ elim (lookup id s.udp_recv_map) [
    | none ↦ s
    | some r ↦ record s { waiting = insert id (record w { found = some r }) s.waiting }
  ]
]

unfoldable pub end_task : ℕ → Conn → Conn
end_task id s = record s { waiting = remove id s.waiting }

unfoldable pub after_feed : ℕ → Conn × Result UdpError (Unit {0}) → Conn
after_feed id (s, ok x) = s
after_feed id (s, err e) = end_task id s

-- The task's loop takes the next payload, with what it has found and what waits in the buffer.
unfoldable pub feed_items : ℕ → Waiting → Option ℕ → List Bytes → Conn → Conn
feed_items id w (some r) (payload ∷ items) s =
    let rest = record w { channel = record w.channel { items = items } } in
    after_feed id (feed_datagram r payload id (record s { waiting = insert id rest s.waiting }))
feed_items id w _ _ s = s

unfoldable pub feed_next : ℕ → Conn → Conn
feed_next id s = elim (lookup id s.waiting) [
  | none ↦ s
  | some w ↦ feed_items id w w.found w.channel.items s
]

-- The packet loop of run_unistream_worker: `sender.send` waits until the queue has room.
unfoldable pub delivered : ℕ → Sent (TargetAddr × Bytes) → Conn → Conn
delivered r (sent ch) s = store r (record (s.receivers r) { channel = ch }) s
delivered r queue_full s = s
delivered r queue_closed s = close r s

unfoldable pub deliver : ℕ → TargetAddr → Bytes → Conn → Conn
deliver r remote_src payload s =
    delivered r (try_send udp_receive_queue_capacity (remote_src, payload) (s.receivers r).channel)
      s

-- recv_many takes one packet and up to nine more that are there.
unfoldable pub recv_many : ℕ → Conn → Conn × List (TargetAddr × Bytes)
recv_many r s =
    let own = s.receivers r in
    let ch = own.channel in
    (store r (record own { channel = record ch { items = drop 10 ch.items } }) s, take 10 ch.items)

-- What the tasks of a connection do, one step each; a task's own state lets it do some of them only.
pub data Event : Type 0 where
  datagram : Bytes → Event
  bind : ℕ → TargetAddr → ℕ → Event
  forget_id release_id : ℕ → ℕ → Event
  close_session : ℕ → Event
  receiver_found task_ended payload_fed : ℕ → Event
  packet_read : ℕ → TargetAddr → Bytes → Event
  packets_taken : ℕ → Event

unfoldable pub step : Event → Conn → Conn
step (datagram d) s = (handle_datagram d s).0
step (bind r target id) s = (bind_context_id r target id s).0
step (forget_id r id) s = unbind r id s
step (release_id r id) s = unmap r id s
step (close_session r) s = close r s
step (receiver_found id) s = find_receiver id s
step (task_ended id) s = end_task id s
step (payload_fed id) s = feed_next id s
step (packet_read r target payload) s = deliver r target payload s
step (packets_taken r) s = (recv_many r s).0

unfoldable pub run : List Event → Conn → Conn
run [] s = s
run (e ∷ es) s = run es (step e s)
