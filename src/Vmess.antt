-- ===== src/Vmess.antt =====
-- The chunk stream of VMess (src/proxy/outbound/vmess/vmess_impl/stream.rs and cipher.rs). A chunk is
-- `u16 length | payload`, and the payload is sealed where the security is not none. AES-128-GCM and
-- ChaCha20-Poly1305 with a key are the parameter `Aead`. A call that is pending and is made again
-- with the same buffer goes on where it was, so that a pending answer of the stream beneath changes
-- nothing.
pub mod Reads
pub mod Writes
pub mod Roundtrip
pub mod Request
pub mod Server
pub mod Tests
use quic_proxy.Common.{
  ℕ, zero, suc, ◌+◌, ◌-◌, ◌*◌, ◌%◌, ◌^◌, ◌≡◌, Bool, true, false, Option, none, some, List, [], ◌∷◌,
  ◌++◌, Result, ok, err, length, take, drop, get_or, ltb, if◌then◌else◌, min, ◌==◌, is_empty,
}
use quic_proxy.Common.Bytes.{Bytes, be16, from_be16}
use quic_proxy.Anytls.Reader.{FrameReader, poll_fill}
use quic_proxy.Anytls.Frame.{FrameError}

abbrev pub chunk_size : ℕ
chunk_size = 2 ^ 14

abbrev pub max_chunk_size : ℕ
max_chunk_size = 17 * 1024

abbrev pub tag_len : ℕ
tag_len = 16

-- A cipher with its key: `seal` takes a nonce and a message, and appends the tag.
pub record Aead : Type 0 where
  pub seal : Bytes → Bytes → Bytes
  pub unseal : Bytes → Bytes → Option Bytes
  pub unseal-seal : (nonce message : Bytes) → unseal nonce (seal nonce message) ≡ some message
  pub length-seal : (nonce message : Bytes) → length (seal nonce message) ≡ length message + tag_len

-- AeadCipher: the initial vector and the count of the chunks.
pub record AeadCipher : Type 0 where
  pub iv : Bytes
  pub count : ℕ

unfoldable pub nonce : AeadCipher → Bytes
nonce c = be16 c.count ++ take 10 (drop 2 c.iv)

-- `count.wrapping_add(1)`
unfoldable pub next : AeadCipher → AeadCipher
next c = record c { count = (c.count + 1) % 2 ^ 16 }

-- `cipher.security.overhead_len()`, or 0 without a cipher
abbrev pub overhead_len : Option AeadCipher → ℕ
overhead_len none = 0
overhead_len (some c) = tag_len

abbrev pub advanced : Option AeadCipher → Option AeadCipher
advanced none = none
advanced (some c) = some (next c)

pub data ReadState : Type 0 where
  waiting_length : ReadState
  waiting_data flushing_data : ℕ → ReadState
  read_closed : ReadState

pub data VmessError : Type 0 where
  too_large short_chunk bad_tag : VmessError
  io_error : FrameError → VmessError
  write_zero write_failed : VmessError

pub record Reader : Type 0 where
  pub source : FrameReader
  pub chunk : Bytes
  pub read_state : ReadState
  pub cipher : Option AeadCipher

-- Hands out what the caller's buffer takes of the chunk.
unfoldable pub read_flush : ℕ → ℕ → Reader → Reader × Result VmessError Bytes
read_flush remaining size r =
    let to_read = min remaining size in
    let left = if ltb to_read size then flushing_data (size - to_read) else waiting_length in
    (record r { chunk = drop to_read r.chunk; read_state = left }, ok (take to_read r.chunk))

unfoldable pub opened : ℕ → ℕ → Option Bytes → Reader → Reader × Result VmessError Bytes
opened remaining size none r = (r, err bad_tag)
opened remaining size (some message) r =
    let data_len = size - tag_len in
    read_flush remaining data_len (record r { chunk = take data_len message })

module _ (aead : Aead) where
  -- What is done with a chunk that has been cut out of the buffer.
  unfoldable pub open_chunk :
      ℕ → ℕ → Bytes → Option AeadCipher → Reader → Reader × Result VmessError Bytes
  open_chunk remaining size chunk none r = read_flush remaining size (record r { chunk = chunk })
  open_chunk remaining size chunk (some c) r =
      if ltb size tag_len
      then (r, err short_chunk)
      else opened remaining size (aead.unseal (nonce c) chunk) (record r { cipher = some (next c) })

  unfoldable pub read_data :
      ℕ → ℕ → FrameReader × Result FrameError Bool → Reader → Reader × Result VmessError Bytes
  read_data remaining size (f, err e) r =
      (record r { source = f; read_state = waiting_data size }, err (io_error e))
  read_data remaining size (f, ok more) r =
      open_chunk remaining size (take size f.buf) r.cipher
        (record r { source = record f { buf = drop size f.buf }; read_state = waiting_data size })

  unfoldable pub read_length :
      ℕ → FrameReader × Result FrameError Bool → Reader → Reader × Result VmessError Bytes
  read_length remaining (f, err e) r = (record r { source = f }, err (io_error e))
  read_length remaining (f, ok false) r = (record r { source = f; read_state = read_closed }, ok [])
  read_length remaining (f, ok true) r =
      let len = from_be16 (get_or f.buf 0 0) (get_or f.buf 1 0) in
      let rest = record f { buf = drop 2 f.buf } in
      if ltb max_chunk_size len
      then (record r { source = rest }, err too_large)
      else read_data remaining len (poll_fill rest.stream rest.buf len false) r

  unfoldable pub poll_state : ℕ → ReadState → Reader → Reader × Result VmessError Bytes
  poll_state remaining waiting_length r =
      read_length remaining (poll_fill r.source.stream r.source.buf 2 true) r
  poll_state remaining (waiting_data size) r =
      read_data remaining size (poll_fill r.source.stream r.source.buf size false) r
  poll_state remaining (flushing_data size) r = read_flush remaining size r
  poll_state remaining read_closed r = (r, ok [])

  -- `remaining` is the room in the caller's buffer; what is put there is the result.
  unfoldable pub poll_read : ℕ → Reader → Reader × Result VmessError Bytes
  poll_read remaining r = poll_state remaining r.read_state r

  -- The payload of a chunk, sealed.
  unfoldable pub seal_chunk : Option AeadCipher → Bytes → Bytes
  seal_chunk none message = message
  seal_chunk (some c) message = aead.seal (nonce c) message

pub data WriteState : Type 0 where
  building_data : WriteState
  flushing : ℕ → ℕ → ℕ → WriteState

-- The state of the writing half, and what the stream beneath has taken so far.
pub record Writer : Type 0 where
  pub write_state : WriteState
  pub write_buf : Bytes
  pub write_cipher : Option AeadCipher
  pub out : Bytes

-- What the stream beneath answers to a write: it takes at most so many bytes, or fails.
pub data Answer : Type 0 where
  accepts : ℕ → Answer
  refuses : Answer

-- The result of a call, where the answers suffice, and the answers that are left.
abbrev pub Written : Type 0
Written = Writer × List Answer × Option (Result VmessError ℕ)

-- How much of the caller's buffer goes into one chunk.
abbrev pub consume_len : Option AeadCipher → Bytes → ℕ
consume_len cipher buf = min (length buf) (chunk_size - overhead_len cipher)

-- The bytes of the caller that a call has taken; a failed or pending call takes none.
abbrev pub consumed : Option (Result VmessError ℕ) → ℕ
consumed (some (ok n)) = n
consumed _ = 0

-- The rounds of `FlushingData(consume_len, (written, total))`.
unfoldable pub flush_rounds : List Answer → ℕ → ℕ → ℕ → Writer → Written
flush_rounds [] consumes written total w =
    (record w { write_state = flushing consumes written total }, [], none)
flush_rounds (refuses ∷ answers) consumes written total w =
    (record w { write_state = flushing consumes written total }, answers, some (err write_failed))
flush_rounds (accepts m ∷ answers) consumes written total w =
    let slice = drop written (take total w.write_buf) in
    let n = min m (length slice) in
    let new_written = written + n in
    let taken = record w { out = w.out ++ take n slice } in
    let more = flush_rounds answers consumes new_written total taken in
    if n == 0
    then (
      record w { write_state = flushing consumes written total },
      answers,
      some (err write_zero),
    )
    else if ltb new_written total
    then more
    else (record taken { write_state = building_data; write_buf = [] }, answers, some (ok consumes))

module _ (aead : Aead) where
  -- `split_off(2)` cuts the buffer behind the length, which stands at its front.
  unfoldable pub build : Bytes → Writer → Writer
  build buf w =
      let overhead = overhead_len w.write_cipher in
      let n = consume_len w.write_cipher buf in
      let front = w.write_buf ++ be16 (n + overhead) in
      let piece = seal_chunk aead w.write_cipher (drop 2 front ++ take n buf) in
      let write_buf = take 2 front ++ piece in
      record w {
        write_state = flushing n 0 (length write_buf);
        write_buf = write_buf;
        write_cipher = advanced w.write_cipher;
      }

  unfoldable pub write_state_step : List Answer → Bytes → WriteState → Writer → Written
  write_state_step answers buf building_data w =
      let built = build buf w in
      flush_rounds answers (consume_len w.write_cipher buf) 0 (length built.write_buf) built
  write_state_step answers buf (flushing consumes written total) w =
      flush_rounds answers consumes written total w

  unfoldable pub poll_write : List Answer → Bytes → Writer → Written
  poll_write answers buf w = write_state_step answers buf w.write_state w

  -- A caller that writes until nothing is left, in at most `fuel` calls.
  unfoldable pub write_all : ℕ → List Answer → Bytes → Writer → Written
  write_all zero answers input w = (w, answers, none)
  write_all (suc fuel) answers input w =
      let call = poll_write answers input w in
      let n = consumed call.2 in
      let rest = write_all fuel call.1 (drop n input) call.0 in
      if is_empty input then (w, answers, some (ok 0)) else if n == 0 then call else rest
