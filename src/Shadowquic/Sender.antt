-- ===== src/Shadowquic/Sender.antt =====
-- Sending UDP packets over ShadowQUIC (src/proxy/shadowquic_udp.rs: ShadowQuicUdpPacket). What the
-- QUIC connection answers to a call is an argument of the call; what the code gives it to send is the
-- list `out`. The counter of context ids belongs to the connection and is a u32; the map of senders
-- belongs to a session.
pub mod Ids
pub mod News
pub mod Announces
pub mod Calls
pub mod Sessions
pub mod Unique
pub mod Wire
pub mod Delivery
use quic_proxy.Common.{
  ℕ, ◌+◌, ◌%◌, ◌^◌, Bool, true, false, Option, none, some, List, [], ◌∷◌, ◌++◌, Result, ok, err,
  ◌>>=◌, length, take, ltb, ◌==◌, if◌then◌else◌, ◌&&◌, ◌≡◌, ◌↔◌, refl, arith, ==_iff,
}
use quic_proxy.Common.Bytes.{Bytes, be16, from_be16}
use quic_proxy.Common.Assoc.{Assoc, Eq, bytes_beq, bytes_beq_iff, lookup, insert, remove}
use quic_proxy.Addr.{
  SocketAddr, v4, v6, TargetAddr, ip, domain, IpAddr, AddrError, to_bytes, read_from, read_u16,
}

abbrev pub socket_beq : SocketAddr → SocketAddr → Bool
socket_beq (v4 a p) (v4 b q) = bytes_beq a b && (p == q)
socket_beq (v6 a p f s) (v6 b q g t) = bytes_beq a b && (p == q) && (f == g) && (s == t)
socket_beq _ _ = false

socket_beq_iff : (a b : SocketAddr) → (socket_beq a b ≡ true) ↔ (a ≡ b)
socket_beq_iff (v4 a p) (v4 b q) = ground (arith, bytes_beq_iff a b)
socket_beq_iff (v6 a p f s) (v6 b q g t) = ground (arith, bytes_beq_iff a b)
socket_beq_iff _ _ = ground arith

abbrev pub target_beq : TargetAddr → TargetAddr → Bool
target_beq (ip a) (ip b) = socket_beq a b
target_beq (domain a p) (domain b q) = bytes_beq a b && (p == q)
target_beq _ _ = false

pub target_beq_iff : (a b : TargetAddr) → (target_beq a b ≡ true) ↔ (a ≡ b)
target_beq_iff (ip a) (ip b) = ground (arith, socket_beq_iff a b)
target_beq_iff (domain a p) (domain b q) = ground (arith, bytes_beq_iff a b)
target_beq_iff _ _ = ground arith

instance abbrev pub target_eq : Eq TargetAddr
target_eq = record { beq = target_beq; beq_iff = target_beq_iff }

-- What is given to the connection: bytes of the control stream, bytes of a numbered stream, a
-- datagram.
pub data Output : Type 0 where
  control datagram_out : Bytes → Output
  uni : ℕ → Bytes → Output

-- A context id, and the stream of its packets where there is one.
pub record Sender : Type 0 where
  pub context_id : ℕ
  pub stream : Option ℕ

pub record Session : Type 0 where
  pub sender_map : Assoc TargetAddr (Option Sender)
  pub is_over_unistream : Bool
  pub is_client : Bool
  pub out : List Output

pub data SendError : Type 0 where
  context_id_exhausted : ℕ → SendError
  control_failed open_failed header_failed : SendError
  payload_too_long write_failed keeps_stopping datagram_failed : SendError
  no_stream : SendError

-- What the connection answers to create_sender: is the control stream written, which stream is
-- opened, is its first write done.
pub record Answers : Type 0 where
  pub control_written : Bool
  pub opened : Option ℕ
  pub header_written : Bool

abbrev pub emit : Output → Session → Session
emit o s = record s { out = s.out ++ (o ∷ []) }

unfoldable pub open_stream : Bool → ℕ → Option ℕ → Session → Session × Result SendError Sender
open_stream header_written id none s = (s, err open_failed)
open_stream header_written id (some n) s =
    if header_written
    then (emit (uni n (be16 id)) s, ok (record { context_id = id; stream = some n }))
    else (s, err header_failed)

unfoldable pub announced : Answers → ℕ → Session → Session × Result SendError Sender
announced io id s =
    if s.is_over_unistream
    then open_stream io.header_written id io.opened s
    else (s, ok (record { context_id = id; stream = none }))

unfoldable pub create_sender :
    Answers → ℕ → TargetAddr → Session → Session × Result SendError Sender
create_sender io id target s =
    if io.control_written
    then announced io id (emit (control (to_bytes target ++ be16 id)) s)
    else (s, err control_failed)

-- A cell that could not be filled stays empty.
unfoldable pub fill_cell :
    TargetAddr → Session × Result SendError Sender → Session × Result SendError Sender
fill_cell target (s, ok x) = (record s { sender_map = insert target (some x) s.sender_map }, ok x)
fill_cell target (s, err e) = (s, err e)

-- A result of the session beside the counter.
abbrev pub counted : {A : Type 0} → ℕ → Session × A → ℕ × Session × A
counted next (s, x) = (next, s, x)

-- `get_or_try_init` of the cell, which is full or empty.
unfoldable pub init_cell :
    Answers → TargetAddr → Option Sender → ℕ → Session → ℕ × Session × Result SendError Sender
init_cell io target (some x) next s = (next, s, ok x)
init_cell io target none next s =
    let after = (next + 1) % 2 ^ 32 in
    if ltb next (2 ^ 16)
    then counted after (fill_cell target (create_sender io next target s))
    else (after, s, err (context_id_exhausted next))

unfoldable pub enter_cell :
    Answers
    → TargetAddr
    → Option (Option Sender)
    → ℕ
    → Session
    → ℕ × Session × Result SendError Sender
enter_cell io target (some cell) next s = init_cell io target cell next s
enter_cell io target none next s =
    init_cell io target none next (record s { sender_map = insert target none s.sender_map })

unfoldable pub get_send_context_id :
    Answers → TargetAddr → ℕ → Session → ℕ × Session × Result SendError Sender
get_send_context_id io target next s = enter_cell io target (lookup target s.sender_map) next s

pub data WriteResult : Type 0 where
  written stopped write_error : WriteResult

-- One packet of a stream: `u16 length | payload`.
unfoldable pub stream_packet : Bytes → Bytes
stream_packet buf = be16 (length buf) ++ buf

-- What is left to do after an attempt: nothing, or to try again.
pub data Attempted : Type 0 where
  done : Result SendError ℕ → Attempted
  again : Attempted

unfoldable pub write_packet : WriteResult → TargetAddr → Bytes → ℕ → Session → Session × Attempted
write_packet written target buf n s = (emit (uni n (stream_packet buf)) s, done (ok (length buf)))
write_packet stopped target buf n s = (record s { sender_map = remove target s.sender_map }, again)
write_packet write_error target buf n s = (s, done (err write_failed))

unfoldable pub write_stream :
    WriteResult → TargetAddr → Bytes → Option ℕ → ℕ → Session → ℕ × Session × Attempted
write_stream w target buf none next s = (next, s, done (err no_stream))
write_stream w target buf (some n) next s =
    if ltb (length buf) (2 ^ 16)
    then counted next (write_packet w target buf n s)
    else (next, s, done (err payload_too_long))

unfoldable pub attempt :
    WriteResult
    → TargetAddr
    → Bytes
    → ℕ × Session × Result SendError Sender
    → ℕ × Session × Attempted
attempt w target buf (next, s, err e) = (next, s, done (err e))
attempt w target buf (next, s, ok x) = write_stream w target buf x.stream next s

-- Each attempt has its own answers of the connection; the code makes at most two.
unfoldable pub next_attempt :
    List (Answers × WriteResult)
    → TargetAddr
    → Bytes
    → ℕ × Session × Attempted
    → ℕ × Session × Result SendError ℕ
next_attempt [] target buf (next, s, again) = (next, s, err keeps_stopping)
next_attempt ((io, w) ∷ tries) target buf (next, s, again) =
    next_attempt tries target buf (attempt w target buf (get_send_context_id io target next s))
next_attempt tries target buf (next, s, done r) = (next, s, r)

-- What `send_datagram` answers.
pub data DatagramResult : Type 0 where
  accepted too_large refused : DatagramResult

unfoldable pub sent_datagram : DatagramResult → ℕ → Bytes → Session → Session × Result SendError ℕ
sent_datagram accepted size packet s = (emit (datagram_out packet) s, ok size)
sent_datagram too_large size packet s = (s, ok 0)
sent_datagram refused size packet s = (s, err datagram_failed)

-- `max_datagram_size()` bounds the packet where the path has a limit.
abbrev pub over_limit : Option ℕ → ℕ → Bool
over_limit none size = false
over_limit (some limit) size = ltb limit size

unfoldable pub send_datagram :
    DatagramResult
    → Option ℕ
    → Bytes
    → ℕ × Session × Result SendError Sender
    → ℕ × Session × Result SendError ℕ
send_datagram d limit buf (next, s, err e) = (next, s, err e)
send_datagram d limit buf (next, s, ok x) =
    let packet = be16 x.context_id ++ buf in
    if over_limit limit (length packet)
    then (next, s, ok 0)
    else counted next (sent_datagram d (length buf) packet s)

-- What the connection answers to a call of send_to.
pub record SendAnswers : Type 0 where
  pub first : Answers × WriteResult
  pub second : Answers × WriteResult
  pub limit : Option ℕ
  pub datagram : DatagramResult

unfoldable pub send_to :
    SendAnswers → Bytes → TargetAddr → TargetAddr → ℕ → Session → ℕ × Session × Result SendError ℕ
send_to w buf source target next s =
    let context_addr = if s.is_client then target else source in
    if s.is_over_unistream
    then next_attempt (w.first ∷ w.second ∷ []) context_addr buf (next, s, again)
    else send_datagram w.datagram w.limit buf (get_send_context_id w.first.0 context_addr next s)

-- The peer's end of the control stream: read_addr_and_context_id.
module _ (parse_ip : Bytes → Option IpAddr) where
  unfoldable pub read_addr_and_context_id : Bytes → Result AddrError (ℕ × TargetAddr × Bytes)
  unfolding read_from
  read_addr_and_context_id recv = do
    (target, s1) ← read_from parse_ip recv
    (id, s2) ← read_u16 parse_ip s1
    ok (id, target, s2)
