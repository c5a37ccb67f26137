-- ===== src/Vmess/Server.antt =====
-- The chunk stream at the server (src/proxy/inbound/vmess.rs: VmessServerStream), which is a second
-- implementation of the one at the client.
use quic_proxy.Common.{
  ℕ, ◌+◌, ◌-◌, ◌≡◌, refl, Bool, true, false, Option, none, some, List, [], ◌∷◌, ◌++◌, ◌==◌, Result,
  ok, err, length, take, drop, get_or, ltb, if◌then◌else◌, min, Bool-cases, inl, inr,
}
use quic_proxy.Common.Bytes.{Bytes, be16, from_be16}
use quic_proxy.Anytls.Reader.{FrameReader, poll_fill}
use quic_proxy.Anytls.Frame.{FrameError}
use quic_proxy.Vmess.{
  chunk_size, max_chunk_size, tag_len, Aead, AeadCipher, nonce, next, overhead_len, ReadState,
  waiting_length, waiting_data, flushing_data, read_closed, VmessError, too_large, short_chunk,
  bad_tag, io_error, Reader, Writer, WriteState, building_data, flushing, Written, Answer, accepts,
  refuses, write_zero, write_failed, flush_rounds, write_state_step, poll_write, build, seal_chunk,
  read_flush, opened, open_chunk, read_data, read_length, poll_state, poll_read,
}

-- `FlushingData(size)` of poll_read: what the caller's buffer takes of the chunk
unfoldable pub server_flush : ℕ → ℕ → Reader → Reader × Result VmessError Bytes
server_flush remaining size r =
    let to_read = min remaining size in
    let handed = take to_read r.chunk in
    let advanced = record r { chunk = drop to_read r.chunk } in
    if ltb to_read size
    then (record advanced { read_state = flushing_data (size - to_read) }, ok handed)
    else (record advanced { read_state = waiting_length }, ok handed)

-- The rounds of `FlushingData(consume, (written, total))` of poll_write
unfoldable pub server_flush_rounds : List Answer → ℕ → ℕ → ℕ → Writer → Written
server_flush_rounds [] consume written total w =
    (record w { write_state = flushing consume written total }, [], none)
server_flush_rounds (refuses ∷ answers) consume written total w =
    (record w { write_state = flushing consume written total }, answers, some (err write_failed))
server_flush_rounds (accepts m ∷ answers) consume written total w =
    let slice = drop written (take total w.write_buf) in
    let n = min m (length slice) in
    let sent = record w { out = w.out ++ take n slice } in
    let new_written = written + n in
    let rounds = server_flush_rounds answers consume new_written total sent in
    if n == 0
    then (record w { write_state = flushing consume written total }, answers, some (err write_zero))
    else if ltb new_written total
    then rounds
    else (record sent { write_buf = []; write_state = building_data }, answers, some (ok consume))

module _ (aead : Aead) where
  -- `decrypt_inplace` of the cipher, if there is one, and the cipher after it.
  unfoldable pub decrypt_inplace : Option AeadCipher → Bytes → Option AeadCipher × Option Bytes
  decrypt_inplace none chunk = (none, none)
  decrypt_inplace (some c) chunk = (some (next c), aead.unseal (nonce c) chunk)

  -- The chunk is handed out, or the tag is wrong.
  unfoldable pub server_opened :
      ℕ → ℕ → ℕ → Option AeadCipher × Option Bytes → Reader → Reader × Result VmessError Bytes
  server_opened remaining size overhead (c, none) r = (record r { cipher = c }, err bad_tag)
  server_opened remaining size overhead (c, some message) r =
      let data_len = size - overhead in
      server_flush remaining data_len (record r { cipher = c; chunk = take data_len message })

  unfoldable pub server_chunk : ℕ → ℕ → Bytes → Reader → Reader × Result VmessError Bytes
  server_chunk remaining size chunk r =
      let overhead = overhead_len r.cipher in
      if ltb 0 overhead
      then if ltb size overhead
        then (r, err short_chunk)
        else server_opened remaining size overhead (decrypt_inplace r.cipher chunk) r
      else server_flush remaining size (record r { chunk = chunk })

  unfoldable pub server_data :
      ℕ → ℕ → FrameReader × Result FrameError Bool → Reader → Reader × Result VmessError Bytes
  server_data remaining size (f, err e) r =
      (record r { source = f; read_state = waiting_data size }, err (io_error e))
  server_data remaining size (f, ok more) r =
      server_chunk remaining size (take size f.buf)
        (record r { source = record f { buf = drop size f.buf }; read_state = waiting_data size })

  unfoldable pub server_length :
      ℕ → FrameReader × Result FrameError Bool → Reader → Reader × Result VmessError Bytes
  server_length remaining (f, err e) r = (record r { source = f }, err (io_error e))
  server_length remaining (f, ok false) r =
      (record r { source = f; read_state = read_closed }, ok [])
  server_length remaining (f, ok true) r =
      let len = from_be16 (get_or f.buf 0 0) (get_or f.buf 1 0) in
      let rest = record f { buf = drop 2 f.buf } in
      if ltb max_chunk_size len
      then (record r { source = rest }, err too_large)
      else server_data remaining len (poll_fill rest.stream rest.buf len false) r

  unfoldable pub server_state : ℕ → ReadState → Reader → Reader × Result VmessError Bytes
  server_state remaining waiting_length r =
      server_length remaining (poll_fill r.source.stream r.source.buf 2 true) r
  server_state remaining (waiting_data size) r =
      server_data remaining size (poll_fill r.source.stream r.source.buf size false) r
  server_state remaining (flushing_data size) r = server_flush remaining size r
  server_state remaining read_closed r = (r, ok [])

  unfoldable pub server_poll_read : ℕ → Reader → Reader × Result VmessError Bytes
  server_poll_read remaining r = server_state remaining r.read_state r

  -- `encrypt_inplace` of the cipher, if there is one, on a piece with room for the tag
  unfoldable pub encrypt_inplace : Option AeadCipher → Bytes → Option AeadCipher × Bytes
  encrypt_inplace none piece = (none, piece)
  encrypt_inplace (some c) piece = (some (next c), aead.seal (nonce c) piece)

  unfoldable pub server_build : Bytes → Writer → Writer
  server_build buf w =
      let overhead = overhead_len w.write_cipher in
      let max_payload = chunk_size - overhead in
      let consume = min (length buf) max_payload in
      let front = w.write_buf ++ be16 (consume + overhead) in
      let cut = drop 2 front ++ take consume buf in
      let (cipher, piece) =
        if ltb 0 overhead then encrypt_inplace w.write_cipher cut else (w.write_cipher, cut) in
      let write_buf = take 2 front ++ piece in
      record w {
        write_state = flushing consume 0 (length write_buf);
        write_buf = write_buf;
        write_cipher = cipher;
      }

  unfoldable pub server_write_step : List Answer → Bytes → WriteState → Writer → Written
  server_write_step answers buf building_data w =
      let built = server_build buf w in
      let consume = min (length buf) (chunk_size - overhead_len w.write_cipher) in
      server_flush_rounds answers consume 0 (length built.write_buf) built
  server_write_step answers buf (flushing consume written total) w =
      server_flush_rounds answers consume written total w

  unfoldable pub server_poll_write : List Answer → Bytes → Writer → Written
  server_poll_write answers buf w = server_write_step answers buf w.write_state w

  -- A reader by its fields.
  abbrev reader : FrameReader → Bytes → ReadState → Option AeadCipher → Reader
  reader source chunk state cipher = record {
    source = source;
    chunk = chunk;
    read_state = state;
    cipher = cipher;
  }

  server_flush-read_flush :
      (remaining size : ℕ) (r : Reader)
      → server_flush remaining size r ≡ read_flush remaining size r
  unfolding server_flush read_flush
  server_flush-read_flush remaining size r = elim (Bool-cases (ltb (min remaining size) size)) [
    | inl y ↦ rw y
    | inr n ↦ rw n
  ]

  server_opened-opened :
      (remaining size : ℕ) (source : FrameReader) (kept : Bytes) (state : ReadState)
      (c d : AeadCipher) (message : Option Bytes)
      → server_opened remaining size tag_len (some c, message) (reader source kept state (some d))
        ≡ opened remaining size message (reader source kept state (some c))
  unfolding server_opened opened
  server_opened-opened remaining size source kept state c d none = refl
  server_opened-opened remaining size source kept state c d (some message) =
      server_flush-read_flush remaining (size - tag_len) _

  server_chunk-open_chunk :
      (remaining size : ℕ) (chunk kept : Bytes) (source : FrameReader) (state : ReadState)
      (cipher : Option AeadCipher)
      → server_chunk remaining size chunk (reader source kept state cipher)
        ≡ open_chunk aead remaining size chunk cipher (reader source kept state cipher)
  unfolding server_chunk open_chunk decrypt_inplace
  server_chunk-open_chunk remaining size chunk kept source state none =
      server_flush-read_flush remaining size _
  server_chunk-open_chunk remaining size chunk kept source state (some c) =
      elim (Bool-cases (ltb size tag_len)) [
        | inl y ↦ rw y
        | inr n ↦ rw n (
            server_opened-opened remaining size source kept state (next c) c
              (aead.unseal (nonce c) chunk))
      ]

  server_data-read_data :
      (remaining size : ℕ) (x : FrameReader × Result FrameError Bool) (r : Reader)
      → server_data remaining size x r ≡ read_data aead remaining size x r
  unfolding server_data read_data
  server_data-read_data remaining size (f, err e) r = refl
  server_data-read_data remaining size (f, ok more) r =
      server_chunk-open_chunk remaining size _ r.chunk _ _ r.cipher

  server_length-read_length :
      (remaining : ℕ) (x : FrameReader × Result FrameError Bool) (r : Reader)
      → server_length remaining x r ≡ read_length aead remaining x r
  unfolding server_length read_length
  server_length-read_length remaining (f, err e) r = refl
  server_length-read_length remaining (f, ok false) r = refl
  server_length-read_length remaining (f, ok true) r =
      rw (server_data-read_data remaining (from_be16 (get_or f.buf 0 0) (get_or f.buf 1 0)))

  server_state-poll_state :
      (remaining : ℕ) (state : ReadState) (r : Reader)
      → server_state remaining state r ≡ poll_state aead remaining state r
  unfolding server_state poll_state
  server_state-poll_state remaining waiting_length r = server_length-read_length remaining _ r
  server_state-poll_state remaining (waiting_data size) r = server_data-read_data remaining size _ r
  server_state-poll_state remaining (flushing_data size) r =
      server_flush-read_flush remaining size r
  server_state-poll_state remaining read_closed r = refl

  server_build-build :
      (buf : Bytes) (cipher : Option AeadCipher) (state : WriteState) (kept out : Bytes)
      → server_build buf
          (record { write_state = state; write_buf = kept; write_cipher = cipher; out = out })
        ≡ build aead buf
            (record { write_state = state; write_buf = kept; write_cipher = cipher; out = out })
  unfolding server_build build seal_chunk encrypt_inplace
  server_build-build buf none state kept out = refl
  server_build-build buf (some c) state kept out = refl

server_flush_rounds-flush_rounds :
    (answers : List Answer) (consume written total : ℕ) (w : Writer)
    → server_flush_rounds answers consume written total w
      ≡ flush_rounds answers consume written total w
unfolding server_flush_rounds flush_rounds
server_flush_rounds-flush_rounds [] consume written total w = refl
server_flush_rounds-flush_rounds (refuses ∷ answers) consume written total w = refl
server_flush_rounds-flush_rounds (accepts m ∷ answers) consume written total w =
    let slice = drop written (take total w.write_buf) in
    let n = min m (length slice) in
    rw (
      server_flush_rounds-flush_rounds answers consume (written + n) total
        (record w { out = w.out ++ take n slice }))

server_write_step-write_state_step :
    (aead : Aead) (answers : List Answer) (buf : Bytes) (state : WriteState) (w : Writer)
    → server_write_step aead answers buf state w ≡ write_state_step aead answers buf state w
unfolding server_write_step write_state_step
server_write_step-write_state_step aead answers buf building_data w =
    let same = server_build-build aead buf w.write_cipher w.write_state w.write_buf w.out in
    rw same (server_flush_rounds-flush_rounds answers _ 0 _ (build aead buf w))
server_write_step-write_state_step aead answers buf (flushing consume written total) w =
    server_flush_rounds-flush_rounds answers consume written total w

-- The server's half of the stream does what the client's does, from every state: a read gives the same
-- bytes or the same error, and a write takes as many bytes or gives the same error and writes the
-- same, whatever parts of it the stream beneath takes at a time; both leave the same state.
pub server_poll_read-eq-poll_read :
    (aead : Aead) (remaining : ℕ) (r : Reader) (answers : List Answer) (buf : Bytes) (w : Writer)
    → (server_poll_read aead remaining r ≡ poll_read aead remaining r)
      × (server_poll_write aead answers buf w ≡ poll_write aead answers buf w)
unfolding server_poll_read poll_read server_poll_write poll_write
server_poll_read-eq-poll_read aead remaining r answers buf w = (
  server_state-poll_state aead remaining r.read_state r,
  server_write_step-write_state_step aead answers buf w.write_state w,
)
