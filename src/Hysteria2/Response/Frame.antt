-- ===== src/Hysteria2/Response/Frame.antt =====
-- A whole TCPResponse frame (src/proxy/outbound/hysteria2/mod.rs: ResponseReader).
use quic_proxy.Common.{
  ℕ, ◌^◌, ◌<◌, ◌≤◌, ◌≡◌, refl, ◌∙◌, true, Option, none, some, [], ◌∷◌, ◌++◌, ok, length, drop, ◌==◌,
  if◌then◌else◌, arith, ap, subst, length-append, take-append, drop-append,
}
use quic_proxy.Common.Bytes.{Bytes}
use quic_proxy.Common.Utf8.{is_utf8, from_utf8_lossy_valid}
use quic_proxy.Hysteria2.Varint.{
  read_varint, append_varint, read_varint-append_varint, length-append_varint, varint_len,
  varint_len_bounds,
}
use quic_proxy.Hysteria2.Response.{
  ResponseStep, status, msg_len, msg, pad_len, pad, done, ResponseError, advance, complete,
  message_too_long, padding_too_long, parsed, round, read_length, parse_step, feed, new_reader,
  keep_message, max_tcp_response_message, max_tcp_response_padding,
}
use quic_proxy.Hysteria2.Response.Rounds.{parse_loop-advance, parse_loop-complete}

-- The TCPResponse frame: status, message and padding, both behind their lengths.
abbrev pub response_frame : ℕ → Bytes → Bytes → Bytes → Bytes
response_frame code message padding rest =
    code
    ∷ (append_varint [] (length message)
        ++ (message ++ (append_varint [] (length padding) ++ (padding ++ rest))))

append_varint-cons : (v : ℕ) → (b : ℕ) × (xs : Bytes) × (append_varint [] v ≡ b ∷ xs)
append_varint-cons v = go (append_varint [] v) refl
  where
    go :
        (l : Bytes)
        → append_varint [] v ≡ l
        → (b : ℕ) × (xs : Bytes) × (append_varint [] v ≡ b ∷ xs)
    go [] e = absurd (omega (arith, ap length e, length-append_varint v, varint_len_bounds v))
    go (b ∷ xs) e = (b, xs, e)

read_length-ok :
    (limit : ℕ) (x : ResponseError) (next : ℕ → ResponseStep) (b : ℕ) (rest : Bytes)
    (e : Option Bytes) {v used : ℕ}
    → read_varint (b ∷ rest) ≡ ok (v, used)
    → v ≤ limit
    → read_length limit x next b rest e
      ≡ advance (record { buf = drop used (b ∷ rest); step = next v; remote_error = e })
unfolding read_length read_varint
read_length-ok limit x next b rest e r h = ground arith

module _ (v : ℕ) (rest : Bytes) (e : Option Bytes) where
  length_round :
      (limit : ℕ) (x : ResponseError) (next : ℕ → ResponseStep) (s : ResponseStep)
      → ((b : ℕ) (xs : Bytes) → round s (b ∷ xs) e ≡ read_length limit x next b xs e)
      → v ≤ limit
      → v < 2 ^ 62
      → round s (append_varint [] v ++ rest) e
        ≡ advance (record { buf = rest; step = next v; remote_error = e })
  length_round limit x next s same hv h =
      let (b, xs, c) = append_varint-cons v in
      let whole : append_varint [] v ++ rest ≡ b ∷ (xs ++ rest) = rw c in
      let r : read_varint (b ∷ (xs ++ rest)) ≡ ok (v, varint_len v) =
        subst (λ l. read_varint l ≡ ok (v, varint_len v)) whole
          (read_varint-append_varint v rest h) in
      let left : drop (varint_len v) (b ∷ (xs ++ rest)) ≡ rest =
        subst (λ l. drop (varint_len v) l ≡ rest) whole
          (drop-append (varint_len v) (append_varint [] v) rest (length-append_varint v)) in
      rw (whole, same b (xs ++ rest), read_length-ok limit x next b (xs ++ rest) e r hv, left)

bytes_round :
    (a rest : Bytes) (e : Option Bytes)
    → (round (msg (length a)) (a ++ rest) e
        ≡ advance (record { buf = rest; step = pad_len; remote_error = keep_message e a }))
      × (round (pad (length a)) (a ++ rest) e
          ≡ advance (record { buf = rest; step = done; remote_error = e }))
unfolding round
bytes_round a rest e = ground (
  arith,
  length-append a rest,
  take-append (length a) a rest refl,
  drop-append (length a) a rest refl,
)

status_round :
    (code : ℕ) (rest : Bytes)
    → round status (code ∷ rest) none
      ≡ advance (record {
        buf = rest;
        step = msg_len;
        remote_error = if code == 0 then none else some [];
      })
unfolding round
status_round code rest = refl

done_round : (buf : Bytes) (e : Option Bytes) → round done buf e ≡ complete
unfolding round
done_round buf e = refl

module _ (e : Option Bytes) (b : ℕ) (xs : Bytes) where
  msg_len_round :
      round msg_len (b ∷ xs) e ≡ read_length max_tcp_response_message message_too_long msg b xs e
  unfolding round
  msg_len_round = refl

  pad_len_round :
      round pad_len (b ∷ xs) e ≡ read_length max_tcp_response_padding padding_too_long pad b xs e
  unfolding round
  pad_len_round = refl

-- parse_step reads a whole TCPResponse, if its message and padding are within their bounds and the
-- message is UTF-8 text: it is done, keeps the bytes behind the frame in the buffer, and keeps the
-- message as the remote error exactly when the status is not zero.
pub parse_step-frame :
    (code : ℕ) (message padding rest : Bytes)
    → length message ≤ max_tcp_response_message
    → length padding ≤ max_tcp_response_padding
    → is_utf8 message ≡ true
    → parse_step (feed (response_frame code message padding rest) new_reader) ≡ (
      record { buf = rest; step = done; remote_error = if code == 0 then none else some message },
      parsed,
    )
unfolding parse_step
parse_step-frame code message padding rest hm hp text =
    let e0 : Option Bytes = if code == 0 then none else some [] in
    let e1 : keep_message e0 message ≡ (if code == 0 then none else some message) =
      ground (arith, from_utf8_lossy_valid message text) in
    let after = padding ++ rest in
    let pad_part = append_varint [] (length padding) ++ after in
    parse_loop-advance 6 _ (status_round code _)
    ∙ parse_loop-advance 5 _ (
        length_round (length message) (message ++ pad_part) e0 max_tcp_response_message
          message_too_long msg msg_len (msg_len_round e0) hm (omega arith))
    ∙ parse_loop-advance 4 _ (bytes_round message pad_part e0).0
    ∙ parse_loop-advance 3 _ (
        length_round (length padding) after (keep_message e0 message) max_tcp_response_padding
          padding_too_long pad pad_len (pad_len_round _) hp (omega arith))
    ∙ parse_loop-advance 2 _ (bytes_round padding rest (keep_message e0 message)).1
    ∙ parse_loop-complete 1 _ (done_round rest _)
    ∙ ap (λ x. (record { buf = rest; step = done; remote_error = x }, parsed)) e1
