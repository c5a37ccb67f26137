-- ===== src/Anytls/Reader/Unread.antt =====
-- Reading frames ahead against reading them byte by byte (src/proxy/anytls_proto.rs: FrameReader,
-- read_frame).
use quic_proxy.Common.{
  ℕ, ◌+◌, ◌<◌, ◌≤◌, ◌≡◌, ◌≢◌, refl, subst, Bool, true, false, List, [], ◌∷◌, ◌++◌, Result, ok, err,
  ◌>>=◌, length, drop, get_or, leb, ltb, arith, append-nil, append_assoc, length-append,
  take-append_le, drop-append_le, le→ltb, lt→ltb, le→leb, Result-cases, inl, inr, length-drop,
  Bool-cases,
}
use quic_proxy.Common.Bytes.{Bytes, All, concat}
use quic_proxy.Anytls.Frame.{
  Command, FrameError, unexpected_eof, Frame, try_from, read_fields, read_payload,
}
use quic_proxy.Anytls.Frame.{read_frame as read_exactly}
use quic_proxy.Anytls.Reader.{
  FrameReader, poll_fill, cut_frame, stream_id_of, data_len_of, read_body, read_header, read_frame,
}

-- The bytes that have arrived or will arrive, and are in no frame that was returned.
abbrev pub unread : FrameReader → Bytes
unread r = r.buf ++ concat r.stream

-- No read gives an empty piece before the end of the stream.
abbrev pub IsLive : List Bytes → Type 0
IsLive = All (λ piece. piece ≢ [])

abbrev pub Filled : ℕ → Bytes → FrameReader × Result FrameError Bool → Type 0
Filled count bytes (r, more) =
    (more ≡ ok true) × (unread r ≡ bytes) × (count ≤ length r.buf) × IsLive r.stream

pub poll_fill-Filled :
    (allow_eof : Bool) (stream : List Bytes) (buf : Bytes) (count : ℕ)
    → IsLive stream
    → count ≤ length (buf ++ concat stream)
    → Filled count (buf ++ concat stream) (poll_fill stream buf count allow_eof)
unfolding poll_fill
poll_fill-Filled allow_eof [] buf count live h =
    let long : count ≤ length buf = rw (append-nil buf) at h in
    rw (le→leb count (length buf) long) (refl, refl, long, tt)
poll_fill-Filled allow_eof ([] ∷ stream) buf count live h = absurd (live.0 refl)
poll_fill-Filled allow_eof ((b ∷ piece) ∷ stream) buf count live h =
    elim (Bool-cases (leb count (length buf))) [
      | inl long ↦ rw long (refl, refl, ground arith, live)
      | inr short ↦
          rw (short, ← append_assoc buf (b ∷ piece) (concat stream))
            (poll_fill-Filled allow_eof stream (buf ++ (b ∷ piece)) count live.1
              (rw (append_assoc buf (b ∷ piece) (concat stream)) h))
    ]

abbrev Short : Bytes → FrameReader × Result FrameError Bool → Type 0
Short bytes (r, more) = (more ≡ err unexpected_eof) × (unread r ≡ bytes)

poll_fill-Short :
    (stream : List Bytes) (buf : Bytes) (count : ℕ)
    → IsLive stream
    → length (buf ++ concat stream) < count
    → Short (buf ++ concat stream) (poll_fill stream buf count false)
unfolding poll_fill
poll_fill-Short [] buf count live h = ground (arith, length-append buf [])
poll_fill-Short ([] ∷ stream) buf count live h = absurd (live.0 refl)
poll_fill-Short ((b ∷ piece) ∷ stream) buf count live h =
    let less = length-append buf ((b ∷ piece) ++ concat stream) in
    let ih =
      poll_fill-Short stream (buf ++ (b ∷ piece)) count live.1
        (rw (append_assoc buf (b ∷ piece) (concat stream)) h) in
    let same = append_assoc buf (b ∷ piece) (concat stream) in
    let short : leb count (length buf) ≡ false = ground arith in rw short (rw same at ih)

-- What read_frame does on the fields of a header.
abbrev after_header : Bytes → Result FrameError (Frame × Bytes)
after_header xs = try_from (get_or xs 0 0) >>= λ cmd.
    read_payload cmd (stream_id_of xs) (data_len_of xs) (drop 7 xs)

read_exactly_long : (xs : Bytes) → 7 ≤ length xs → read_exactly xs ≡ after_header xs
unfolding read_exactly stream_id_of data_len_of
read_exactly_long (t ∷ a ∷ b ∷ c ∷ d ∷ e ∷ f ∷ s) h = refl
read_exactly_long _ h = absurd (omega arith)

read_fields_short :
    (cmd : Command) (s : Bytes) → length s < 6 → read_fields cmd s ≡ err unexpected_eof
read_fields_short cmd (a ∷ b ∷ c ∷ d ∷ e ∷ f ∷ s) h = absurd (omega arith)
read_fields_short cmd _ h = refl

-- The unbuffered read fails.
abbrev Fails : Bytes → Type 0
Fails bytes = (x : FrameError) × (read_exactly bytes ≡ err x)

read_exactly_short : (xs : Bytes) → length xs < 7 → Fails xs
unfolding read_exactly
read_exactly_short [] h = (unexpected_eof, refl)
read_exactly_short (t ∷ s) h = elim (Result-cases (try_from t)) [
  | inl (cmd, e) ↦ (unexpected_eof, rw (e, read_exactly) (read_fields_short cmd s (omega arith)))
  | inr (x, e) ↦ (x, rw (e, read_exactly) refl)
]

-- A buffered read against the unbuffered one on all the bytes: a frame is the frame that the
-- unbuffered read gives, and what is left unread is what that leaves; an error is an error of it
-- too, and then no byte is lost.
abbrev pub Reads : Bytes → FrameReader × Result FrameError Frame → Type 0
Reads bytes (r, ok frame) = read_exactly bytes ≡ ok (frame, unread r)
Reads bytes (r, err e) = (unread r ≡ bytes) × Fails bytes

module _ (bytes : Bytes) (cmd : Command) (stream_id data_len : ℕ) where
  abbrev Payload : Type 0
  Payload = read_exactly bytes ≡ read_payload cmd stream_id data_len (drop 7 bytes)

  cut_frame-Filled :
      (x : FrameReader × Result FrameError Bool)
      → Payload
      → Filled (7 + data_len) bytes x
      → Reads bytes (cut_frame cmd stream_id data_len x)
  unfolding cut_frame read_payload
  cut_frame-Filled (r, err e) p f = cc f.0
  cut_frame-Filled (r, ok more) p (q, u, l, live) =
      let seven : 7 ≤ length r.buf = omega arith in
      let left = length-drop 7 r.buf in
      let rest : drop 7 bytes ≡ drop 7 r.buf ++ concat r.stream =
        rw (← u) (drop-append_le 7 r.buf (concat r.stream) seven) in
      let fits : data_len ≤ length (drop 7 r.buf) = omega (arith, left) in
      let long : data_len ≤ length (drop 7 r.buf ++ concat r.stream) =
        omega (arith, length-append (drop 7 r.buf) (concat r.stream)) in
      rw (
        p,
        rest,
        le→ltb (length (drop 7 r.buf ++ concat r.stream)) data_len long,
        take-append_le data_len (drop 7 r.buf) (concat r.stream) fits,
        drop-append_le data_len (drop 7 r.buf) (concat r.stream) fits,
      )

  cut_frame-Short :
      (x : FrameReader × Result FrameError Bool)
      → Payload
      → length bytes < 7 + data_len
      → 7 ≤ length bytes
      → Short bytes x
      → Reads bytes (cut_frame cmd stream_id data_len x)
  unfolding cut_frame read_payload
  cut_frame-Short (r, ok more) p h l f = cc f.0
  cut_frame-Short (r, err e) p h l (q, u) =
      let short : length (drop 7 bytes) < data_len = omega (arith, length-drop 7 bytes) in
      (u, (unexpected_eof, rw (p, lt→ltb (length (drop 7 bytes)) data_len short)))

header_fields :
    (buf more : Bytes)
    → 7 ≤ length buf
    → (get_or (buf ++ more) 0 0 ≡ get_or buf 0 0)
      × (stream_id_of (buf ++ more) ≡ stream_id_of buf)
      × (data_len_of (buf ++ more) ≡ data_len_of buf)
unfolding stream_id_of data_len_of
header_fields (t ∷ a ∷ b ∷ c ∷ d ∷ e ∷ f ∷ s) more h = (refl, refl, refl)
header_fields _ more h = absurd (omega arith)

read_body-Reads :
    (r : FrameReader) (c : Result FrameError Command)
    → IsLive r.stream
    → 7 ≤ length r.buf
    → try_from (get_or r.buf 0 0) ≡ c
    → Reads (unread r) (read_body r c)
unfolding read_body
read_body-Reads r (err x) live h e =
    let (t, _, _) = header_fields r.buf (concat r.stream) h in
    let whole : 7 ≤ length (unread r) = omega (arith, length-append r.buf (concat r.stream)) in
    (refl, (x, rw (read_exactly_long (unread r) whole, t, e)))
read_body-Reads r (ok cmd) live h e =
    let (t, id, len) = header_fields r.buf (concat r.stream) h in
    let n = data_len_of r.buf in
    let whole : 7 ≤ length (unread r) = omega (arith, length-append r.buf (concat r.stream)) in
    let p : Payload (unread r) cmd (stream_id_of r.buf) n =
      rw (read_exactly_long (unread r) whole, t, e, id, len) in
    elim (Bool-cases (ltb (length (unread r)) (7 + n))) [
      | inl short ↦
          cut_frame-Short (unread r) cmd (stream_id_of r.buf) n _ p (ground arith) whole
            (poll_fill-Short r.stream r.buf (7 + n) live (ground arith))
      | inr long ↦
          cut_frame-Filled (unread r) cmd (stream_id_of r.buf) n _ p
            (poll_fill-Filled false r.stream r.buf (7 + n) live (ground arith))
    ]

read_header-Reads :
    (bytes : Bytes) (x : FrameReader × Result FrameError Bool)
    → Filled 7 bytes x
    → Reads bytes (read_header x)
unfolding read_header
read_header-Reads bytes (r, err e) f = cc f.0
read_header-Reads bytes (r, ok more) (q, u, l, live) =
    subst (λ b. Reads b (read_body r (try_from (get_or r.buf 0 0)))) u
      (read_body-Reads r (try_from (get_or r.buf 0 0)) live l refl)

read_header-Short :
    (bytes : Bytes) (x : FrameReader × Result FrameError Bool)
    → length bytes < 7
    → Short bytes x
    → Reads bytes (read_header x)
unfolding read_header
read_header-Short bytes (r, ok more) h f = cc f.0
read_header-Short bytes (r, err e) h (q, u) = (u, read_exactly_short bytes h)

-- However the reads cut the stream into pieces, none of them empty before its end, the buffered read of a frame agrees with the
-- unbuffered read of all the bytes that have arrived or will: it gives the same frame and leaves the
-- same bytes unread, or both fail and the buffered one has lost no byte.
pub read_frame-Reads : (r : FrameReader) → IsLive r.stream → Reads (unread r) (read_frame r)
unfolding read_frame
read_frame-Reads r live = elim (Bool-cases (ltb (length (unread r)) 7)) [
  | inl short ↦
      read_header-Short (unread r) _ (ground arith)
        (poll_fill-Short r.stream r.buf 7 live (ground arith))
  | inr long ↦
      read_header-Reads (unread r) _ (poll_fill-Filled false r.stream r.buf 7 live (ground arith))
]
