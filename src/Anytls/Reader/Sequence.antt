-- ===== src/Anytls/Reader/Sequence.antt =====
-- Frames written one behind the other and read back (src/proxy/anytls_proto.rs: append_frame,
-- read_frame, FrameReader).
use quic_proxy.Common.{
  ℕ, zero, suc, ◌<◌, ◌≤◌, ◌^◌, ◌≡◌, refl, ap, ◌∙◌, Bool, false, List, [], ◌∷◌, ◌++◌, Result, ok,
  err, ◌>>=◌, length, leb, arith, append-nil, append_assoc, length-append, take-append, drop-append,
  le→ltb, Result-cases, inl, inr, Bool-cases,
}
use quic_proxy.Common.Bytes.{Bytes, All, be16, be32, from_be32-be32, from_be16-be16}
use quic_proxy.Anytls.Frame.{
  Command, waste, syn, psh, fin, settings, alert, update_padding_scheme, syn_ack, heart_request,
  heart_response, server_settings, FrameError, Frame, to_u8, try_from, append_frame, read_payload,
}
use quic_proxy.Anytls.Frame.{read_frame as read_exactly}
use quic_proxy.Anytls.Reader.{FrameReader, poll_fill, cut_frame, read_body, read_header, read_frame}
use quic_proxy.Anytls.Reader.Unread.{IsLive, unread, Reads, read_frame-Reads}

-- The bytes of a frame.
abbrev pub frame_bytes : Frame → Bytes
frame_bytes (cmd, id, payload) = to_u8 cmd ∷ (be32 id ++ (be16 (length payload) ++ payload))

append_frame-ok :
    (dst : Bytes) (f : Frame) {wire : Bytes}
    → append_frame dst f ≡ ok wire
    → (length f.2 < 2 ^ 16) × (wire ≡ dst ++ frame_bytes f)
unfolding append_frame
append_frame-ok dst f e = ground arith

try_from-to_u8 : (cmd : Command) → try_from (to_u8 cmd) ≡ ok cmd
unfolding try_from
try_from-to_u8 waste = refl
try_from-to_u8 syn = refl
try_from-to_u8 psh = refl
try_from-to_u8 fin = refl
try_from-to_u8 settings = refl
try_from-to_u8 alert = refl
try_from-to_u8 update_padding_scheme = refl
try_from-to_u8 syn_ack = refl
try_from-to_u8 heart_request = refl
try_from-to_u8 heart_response = refl
try_from-to_u8 server_settings = refl

read_exactly-frame_bytes :
    (f : Frame) (rest : Bytes)
    → f.1 < 2 ^ 32
    → length f.2 < 2 ^ 16
    → read_exactly (frame_bytes f ++ rest) ≡ ok (f, rest)
unfolding read_exactly read_payload
read_exactly-frame_bytes (cmd, id, payload) rest hi hp =
    let long : length payload ≤ length (payload ++ rest) =
      omega (arith, length-append payload rest) in
    rw (
      try_from-to_u8 cmd,
      from_be32-be32 id hi,
      from_be16-be16 (length payload) hp,
      le→ltb (length (payload ++ rest)) (length payload) long,
      take-append (length payload) payload rest refl,
      drop-append (length payload) payload rest refl,
    )

abbrev Live : {A : Type 0} → FrameReader × A → Type 0
Live (r, x) = IsLive r.stream

poll_fill-IsLive :
    (stream : List Bytes) (buf : Bytes) (count : ℕ) (allow_eof : Bool)
    → IsLive stream
    → Live (poll_fill stream buf count allow_eof)
unfolding poll_fill
poll_fill-IsLive [] buf count allow_eof live = ground arith
poll_fill-IsLive ([] ∷ stream) buf count allow_eof live = absurd (live.0 refl)
poll_fill-IsLive ((b ∷ piece) ∷ stream) buf count allow_eof live =
    elim (Bool-cases (leb count (length buf))) [
      | inl long ↦ rw long live
      | inr short ↦ rw short (poll_fill-IsLive stream (buf ++ (b ∷ piece)) count allow_eof live.1)
    ]

cut_frame-IsLive :
    (cmd : Command) (id len : ℕ) (x : FrameReader × Result FrameError Bool)
    → Live x
    → Live (cut_frame cmd id len x)
unfolding cut_frame
cut_frame-IsLive cmd id len (r, ok more) live = live
cut_frame-IsLive cmd id len (r, err e) live = live

read_body-IsLive :
    (r : FrameReader) (c : Result FrameError Command) → IsLive r.stream → Live (read_body r c)
unfolding read_body
read_body-IsLive r (err e) live = live
read_body-IsLive r (ok cmd) live =
    cut_frame-IsLive cmd _ _ _ (poll_fill-IsLive r.stream r.buf _ false live)

read_header-IsLive : (x : FrameReader × Result FrameError Bool) → Live x → Live (read_header x)
unfolding read_header
read_header-IsLive (r, ok more) live = read_body-IsLive r _ live
read_header-IsLive (r, err e) live = live

read_frame-IsLive : (r : FrameReader) → IsLive r.stream → Live (read_frame r)
unfolding read_frame
read_frame-IsLive r live = read_header-IsLive _ (poll_fill-IsLive r.stream r.buf 7 false live)

-- Frames appended to one buffer, one after the other.
unfoldable pub append_frames : Bytes → List Frame → Result FrameError Bytes
append_frames dst [] = ok dst
append_frames dst (f ∷ fs) = append_frame dst f >>= λ dst'. append_frames dst' fs

abbrev pub Fits : Frame → Type 0
Fits (cmd, id, payload) = (id < 2 ^ 32) × (length payload < 2 ^ 16)

-- A stream id has 32 bits.
abbrev pub HasId : Frame → Type 0
HasId (cmd, id, payload) = id < 2 ^ 32

abbrev pub wire_of : List Frame → Bytes
wire_of [] = []
wire_of (f ∷ fs) = frame_bytes f ++ wire_of fs

pub append_frames-ok :
    (dst : Bytes) (fs : List Frame) {wire : Bytes}
    → All HasId fs
    → append_frames dst fs ≡ ok wire
    → All Fits fs × (wire ≡ dst ++ wire_of fs)
unfolding append_frames
append_frames-ok dst [] ids e = (tt, ground (arith, append-nil dst))
append_frames-ok dst (f ∷ fs) {wire} ids e = elim (Result-cases (append_frame dst f)) [
  | inr (x, q) ↦ cc
  | inl (dst', q) ↦
      let (fits, same) = append_frame-ok dst f q in
      let e' : append_frames dst' fs ≡ ok wire = cc in
      let (ih, w) = append_frames-ok dst' fs ids.1 e' in
      (
        ((ids.0, fits), ih),
        w ∙ ap (λ d. d ++ wire_of fs) same ∙ append_assoc dst (frame_bytes f) (wire_of fs),
      )
]

-- The rest of the frames, behind the first.
then_read :
    (FrameReader → FrameReader × Result FrameError (List Frame))
    → FrameReader × Result FrameError Frame
    → FrameReader × Result FrameError (List Frame)
then_read go (r, err e) = (r, err e)
then_read go (r, ok f) = let (r', fs) = go r in (r', fs >>= λ fs. ok (f ∷ fs))

-- So many frames read from one reader, one after the other.
pub read_frames : ℕ → FrameReader → FrameReader × Result FrameError (List Frame)
unfolding then_read
read_frames zero r = (r, ok [])
read_frames (suc n) r = then_read (read_frames n) (read_frame r)

abbrev pub Finished : Bytes → List Frame → FrameReader × Result FrameError (List Frame) → Type 0
Finished rest fs (r, frames) = (frames ≡ ok fs) × (unread r ≡ rest)

then_read-Finished :
    (go : FrameReader → FrameReader × Result FrameError (List Frame)) (f : Frame) (fs : List Frame)
    (bytes more rest : Bytes) (x : FrameReader × Result FrameError Frame)
    → read_exactly bytes ≡ ok (f, more)
    → Reads bytes x
    → Live x
    → ((r : FrameReader) → IsLive r.stream → unread r ≡ more → Finished rest fs (go r))
    → Finished rest (f ∷ fs) (then_read go x)
unfolding then_read
then_read-Finished go f fs bytes more rest (r, err e) p (u, (x, q)) live ih = cc
then_read-Finished go f fs bytes more rest (r, ok g) p q live ih =
    let left : unread r ≡ more = cc in
    let same : g ≡ f = cc in let (a, b) = ih r live left in (rw (a, same) refl, b)

pub read_frames-wire :
    (fs : List Frame) (rest : Bytes) (r : FrameReader)
    → All Fits fs
    → IsLive r.stream
    → unread r ≡ wire_of fs ++ rest
    → Finished rest fs (read_frames (length fs) r)
unfolding read_frames
read_frames-wire [] rest r fits live u = (refl, u)
read_frames-wire (f ∷ fs) rest r fits live u =
    then_read-Finished (read_frames (length fs)) f fs (unread r) (wire_of fs ++ rest) rest
      (read_frame r)
      (rw (u, append_assoc (frame_bytes f) (wire_of fs) rest)
        (read_exactly-frame_bytes f (wire_of fs ++ rest) fits.0.0 fits.0.1))
      (read_frame-Reads r live) (read_frame-IsLive r live)
      (λ r' live' u'. read_frames-wire fs rest r' fits.1 live' u')

-- Frames with stream ids of 32 bits that were appended to a buffer one after the other are read back
-- in their order by as many buffered reads, however the bytes arrive in pieces, none of them empty
-- before the end of the stream, and whatever follows them; what follows stays unread.
pub read_frames-append_frames :
    (fs : List Frame) (wire rest : Bytes) (r : FrameReader)
    → All HasId fs
    → append_frames [] fs ≡ ok wire
    → IsLive r.stream
    → unread r ≡ wire ++ rest
    → Finished rest fs (read_frames (length fs) r)
read_frames-append_frames fs wire rest r ids e live u =
    let (fits, same) = append_frames-ok [] fs ids e in
    read_frames-wire fs rest r fits live (u ∙ ap (λ w. w ++ rest) same)
