-- ===== src/Anytls/Frame.antt =====
-- AnyTLS frames (src/proxy/anytls_proto.rs: Command, append_frame, read_frame, StreamReadBuffer).
-- `read_frame`, which asks for exact numbers of bytes, sees a stream as the bytes it has to give.
use quic_proxy.Common.{
  ℕ, ◌^◌, Bool, true, false, [], ◌∷◌, ◌++◌, Result, ok, err, ◌>>=◌, length, take, drop, ltb, ◌==◌,
  if◌then◌else◌, is_empty, min,
}
use quic_proxy.Common.Bytes.{Bytes, be16, be32, from_be16, from_be32}

abbrev pub frame_header_size : ℕ
frame_header_size = 7

pub data Command : Type 0 where
  waste syn psh fin settings alert update_padding_scheme syn_ack heart_request heart_response :
      Command
  server_settings : Command

pub data FrameError : Type 0 where
  unknown_command : ℕ → FrameError
  unexpected_eof payload_too_long : FrameError

-- `cmd as u8`
abbrev pub to_u8 : Command → ℕ
to_u8 waste = 0
to_u8 syn = 1
to_u8 psh = 2
to_u8 fin = 3
to_u8 settings = 4
to_u8 alert = 5
to_u8 update_padding_scheme = 6
to_u8 syn_ack = 7
to_u8 heart_request = 8
to_u8 heart_response = 9
to_u8 server_settings = 10

unfoldable pub try_from : ℕ → Result FrameError Command
try_from v =
    if v == 0
    then ok waste
    else if v == 1
    then ok syn
    else if v == 2
    then ok psh
    else if v == 3
    then ok fin
    else if v == 4
    then ok settings
    else if v == 5
    then ok alert
    else if v == 6
    then ok update_padding_scheme
    else if v == 7
    then ok syn_ack
    else if v == 8
    then ok heart_request
    else if v == 9
    then ok heart_response
    else if v == 10
    then ok server_settings
    else err (unknown_command v)

-- As `read_frame` returns it.
abbrev pub Frame : Type 0
Frame = Command × ℕ × Bytes

-- `u16::try_from(data.len())` is the only failure.
unfoldable pub append_frame : Bytes → Frame → Result FrameError Bytes
append_frame dst (cmd, stream_id, payload) =
    if ltb (length payload) (2 ^ 16)
    then ok (dst ++ (to_u8 cmd ∷ (be32 stream_id ++ (be16 (length payload) ++ payload))))
    else err payload_too_long

unfoldable pub build_frame : Frame → Result FrameError Bytes
unfolding append_frame
build_frame frame = append_frame [] frame

-- The exact reads of `read_frame`.
unfoldable pub read_payload : Command → ℕ → ℕ → Bytes → Result FrameError (Frame × Bytes)
read_payload cmd stream_id data_len s =
    if ltb (length s) data_len
    then err unexpected_eof
    else ok ((cmd, stream_id, take data_len s), drop data_len s)

abbrev pub read_fields : Command → Bytes → Result FrameError (Frame × Bytes)
read_fields cmd (a ∷ b ∷ c ∷ d ∷ e ∷ f ∷ s) = read_payload cmd (from_be32 a b c d) (from_be16 e f) s
read_fields cmd _ = err unexpected_eof

unfoldable pub read_frame : Bytes → Result FrameError (Frame × Bytes)
read_frame [] = err unexpected_eof
read_frame (first ∷ s) = try_from first >>= λ cmd. read_fields cmd s

-- `StreamReadBuffer::copy_to` into a buffer with `remaining` free bytes: what is left pending, what
-- was put into the buffer, and whether there was anything to copy.
unfoldable pub copy_to : Bytes → ℕ → Bytes × Bytes × Bool
copy_to pending remaining =
    if is_empty pending
    then (pending, [], false)
    else if remaining == 0
    then (pending, [], true)
    else let len = min (length pending) remaining in (drop len pending, take len pending, true)

unfoldable pub copy_from : Bytes → ℕ → Bytes × Bytes
unfolding copy_to
copy_from payload remaining = let (pending, put, _) = copy_to payload remaining in (pending, put)
