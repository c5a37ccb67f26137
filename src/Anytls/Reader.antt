-- ===== src/Anytls/Reader.antt =====
-- Reading AnyTLS frames ahead (src/proxy/anytls_proto.rs: FrameReader; src/utils/read_ahead.rs:
-- poll_fill). A stream is the list of the pieces that its reads give, one for each read; the list's
-- end and an empty piece are the end of the stream. A read that is pending changes nothing.
pub mod Unread
pub mod Sequence
use quic_proxy.Common.{
  ℕ, ◌+◌, Bool, true, false, ◌&&◌, List, [], ◌∷◌, ◌++◌, Result, ok, err, length, take, drop, get_or,
  leb, if◌then◌else◌, is_empty,
}
use quic_proxy.Common.Bytes.{Bytes, from_be16, from_be32}
use quic_proxy.Anytls.Frame.{
  Command, FrameError, unexpected_eof, Frame, try_from, frame_header_size,
}

-- The state of a buffered reader: what the stream has still to give, and what has been read ahead.
pub record FrameReader : Type 0 where
  pub stream : List Bytes
  pub buf : Bytes

-- `poll_fill`: `ok false` is the clean end of the stream.
unfoldable pub poll_fill : List Bytes → Bytes → ℕ → Bool → FrameReader × Result FrameError Bool
poll_fill [] buf count allow_eof =
    let r : FrameReader = record { stream = []; buf = buf } in
    if leb count (length buf)
    then (r, ok true)
    else if allow_eof && is_empty buf
    then (r, ok false)
    else (r, err unexpected_eof)
poll_fill ([] ∷ stream) buf count allow_eof =
    let r : FrameReader = record { stream = [] ∷ stream; buf = buf } in
    let read : FrameReader = record { stream = stream; buf = buf } in
    if leb count (length buf)
    then (r, ok true)
    else if allow_eof && is_empty buf
    then (read, ok false)
    else (read, err unexpected_eof)
poll_fill ((b ∷ piece) ∷ stream) buf count allow_eof =
    let read = poll_fill stream (buf ++ (b ∷ piece)) count allow_eof in
    if leb count (length buf)
    then (record { stream = (b ∷ piece) ∷ stream; buf = buf }, ok true)
    else read

-- The rest of `FrameReader::read_frame` after the payload has been read ahead.
unfoldable pub cut_frame :
    Command → ℕ → ℕ → FrameReader × Result FrameError Bool → FrameReader × Result FrameError Frame
cut_frame cmd stream_id data_len (r, err e) = (r, err e)
cut_frame cmd stream_id data_len (r, ok more) =
    let rest = drop frame_header_size r.buf in
    (record r { buf = drop data_len rest }, ok (cmd, stream_id, take data_len rest))

-- `u32::from_be_bytes(self.buf[1..5])`, `u16::from_be_bytes(self.buf[5..7])`
unfoldable pub stream_id_of : Bytes → ℕ
stream_id_of buf = from_be32 (get_or buf 1 0) (get_or buf 2 0) (get_or buf 3 0) (get_or buf 4 0)

unfoldable pub data_len_of : Bytes → ℕ
data_len_of buf = from_be16 (get_or buf 5 0) (get_or buf 6 0)

unfoldable pub read_body :
    FrameReader → Result FrameError Command → FrameReader × Result FrameError Frame
read_body r (err e) = (r, err e)
read_body r (ok cmd) =
    let data_len = data_len_of r.buf in
    cut_frame cmd (stream_id_of r.buf) data_len
      (poll_fill r.stream r.buf (frame_header_size + data_len) false)

unfoldable pub read_header :
    FrameReader × Result FrameError Bool → FrameReader × Result FrameError Frame
read_header (r, err e) = (r, err e)
read_header (r, ok more) = read_body r (try_from (get_or r.buf 0 0))

unfoldable pub read_frame : FrameReader → FrameReader × Result FrameError Frame
read_frame r = read_header (poll_fill r.stream r.buf frame_header_size false)
