-- ===== src/Hysteria2/Response/Pieces.antt =====
-- A TCPResponse that arrives in pieces (src/proxy/outbound/hysteria2/mod.rs: ResponseReader).
use quic_proxy.Common.{
  ℕ, zero, suc, ◌-◌, ◌<◌, ◌≤◌, ◌≡◌, refl, ◌∙◌, Option, [], ◌∷◌, ◌++◌, ok, length, ltb, arith, sym,
  ap, subst, inl, inr, length-append, take-append_le, drop-append_le, Bool-cases, Result-cases,
  le→ltb,
}
use quic_proxy.Common.Bytes.{Bytes}
use quic_proxy.Hysteria2.Varint.{tail_len, read_varint}
use quic_proxy.Hysteria2.Response.{
  ResponseStep, status, msg_len, msg, pad_len, pad, done, ResponseReader, ResponseError, Round,
  advance, complete, need_more, fail, message_too_long, padding_too_long, Parsed, parsed,
  wants_more, round, read_length, parse_loop, parse_step, feed, max_tcp_response_message,
  max_tcp_response_padding,
}
use quic_proxy.Hysteria2.Response.Rounds.{
  rank, rank-le, advance-Falls, Round-cases, parse_loop-advance, parse_loop-complete,
  parse_loop-need_more, parse_loop-fail, rank-parse_loop, parse_loop_fuel,
}

module _ (more : Bytes) where
  read_varint-append :
      (b : ℕ) (rest : Bytes)
      → tail_len b ≤ suc (length rest)
      → read_varint (b ∷ (rest ++ more)) ≡ read_varint (b ∷ rest)
  unfolding read_varint
  read_varint-append b rest h = rw (
    le→ltb (suc (length rest)) (tail_len b) h,
    le→ltb (suc (length (rest ++ more))) (tail_len b) (omega (arith, length-append rest more)),
    take-append_le (tail_len b - 1) rest more (omega arith),
  )

  -- What a round answers when more bytes stand behind the buffer.
  abbrev Grows : Round → Round → Type 0
  Grows (advance r) y = y ≡ advance (feed more r)
  Grows complete y = y ≡ complete
  Grows need_more y = Unit
  Grows (fail e) y = y ≡ fail e

  read_varint-used :
      (b : ℕ) (rest : Bytes) {len used : ℕ}
      → read_varint (b ∷ rest) ≡ ok (len, used)
      → used ≤ length (b ∷ rest)
  unfolding read_varint
  read_varint-used b rest e = ground arith

  read_length-Grows :
      (limit : ℕ) (x : ResponseError) (next : ℕ → ResponseStep) (b : ℕ) (rest : Bytes)
      (e : Option Bytes)
      → Grows (read_length limit x next b rest e) (read_length limit x next b (rest ++ more) e)
  unfolding read_length
  read_length-Grows limit x next b rest e =
      elim (Bool-cases (ltb (suc (length rest)) (tail_len b))) [
        | inl short ↦ rw short tt
        | inr long ↦
            let h : tail_len b ≤ suc (length rest) = ground arith in
            let h' : tail_len b ≤ suc (length (rest ++ more)) =
              omega (arith, length-append rest more) in
            rw
              (
                long,
                le→ltb (suc (length (rest ++ more))) (tail_len b) h',
                read_varint-append b rest h,
              )
              (elim (Result-cases (read_varint (b ∷ rest))) [
                | inl ((len, used), r) ↦ ground (
                  arith,
                  r,
                  read_varint-used b rest r,
                  drop-append_le used (b ∷ rest) more (read_varint-used b rest r),
                )
                | inr (y, r) ↦ rw r refl
              ])
      ]

  round-Grows :
      (s : ResponseStep) (buf : Bytes) (e : Option Bytes)
      → Grows (round s buf e) (round s (buf ++ more) e)
  unfolding round
  round-Grows status [] e = tt
  round-Grows status (b ∷ buf) e = refl
  round-Grows msg_len [] e = tt
  round-Grows msg_len (b ∷ buf) e =
      read_length-Grows max_tcp_response_message message_too_long msg b buf e
  round-Grows (msg len) buf e =
      ground
        (arith, length-append buf more, drop-append_le len buf more, take-append_le len buf more)
  round-Grows pad_len [] e = tt
  round-Grows pad_len (b ∷ buf) e =
      read_length-Grows max_tcp_response_padding padding_too_long pad b buf e
  round-Grows (pad len) buf e = ground (arith, length-append buf more, drop-append_le len buf more)
  round-Grows done buf e = refl

  advance-feed :
      (r : ResponseReader) {r' : ResponseReader}
      → round r.step r.buf r.remote_error ≡ advance r'
      → round r.step (r.buf ++ more) r.remote_error ≡ advance (feed more r')
  advance-feed r e =
      subst (λ x. Grows x (round r.step (r.buf ++ more) r.remote_error)) e
        (round-Grows r.step r.buf r.remote_error)

  parse_loop-feed_more :
      (fuel : ℕ) (r : ResponseReader) {r' : ResponseReader}
      → rank r.step < fuel
      → parse_loop fuel r ≡ (r', wants_more)
      → parse_loop fuel (feed more r) ≡ parse_loop fuel (feed more r')
  parse_loop-feed_more zero r h p = absurd (omega arith)
  parse_loop-feed_more (suc fuel) r {r'} h p =
      elim (Round-cases (round r.step r.buf r.remote_error)) [
        | inl (q, e) ↦
            let p' : parse_loop fuel q ≡ (r', wants_more) = sym (parse_loop-advance fuel r e) ∙ p in
            let low : rank r'.step ≤ rank q.step =
              subst (λ (z : ResponseReader × Parsed). rank z.0.step ≤ rank q.step) p'
                (rank-parse_loop fuel q) in
            let fall = advance-Falls r q e in
            parse_loop-advance fuel (feed more r) (advance-feed r e)
            ∙ parse_loop-feed_more fuel q (omega arith) p'
            ∙ parse_loop_fuel fuel (suc fuel) (feed more r') (omega arith) (omega arith)
        | inr (inl e) ↦ cc (parse_loop-complete fuel r e)
        | inr (inr (inl e)) ↦
            ap (λ (z : ResponseReader × Parsed). parse_loop (suc fuel) (feed more z.0))
              (sym (parse_loop-need_more fuel r e) ∙ p)
        | inr (inr (inr (x, e))) ↦ cc (parse_loop-fail fuel r e)
      ]

  parse_loop-feed_parsed :
      (fuel : ℕ) (r : ResponseReader) {r' : ResponseReader}
      → parse_loop fuel r ≡ (r', parsed)
      → parse_loop fuel (feed more r) ≡ (feed more r', parsed)
  parse_loop-feed_parsed zero r p = unfold parse_loop in cc
  parse_loop-feed_parsed (suc fuel) r {r'} p =
      elim (Round-cases (round r.step r.buf r.remote_error)) [
        | inl (q, e) ↦
            parse_loop-advance fuel (feed more r) (advance-feed r e)
            ∙ parse_loop-feed_parsed fuel q (sym (parse_loop-advance fuel r e) ∙ p)
        | inr (inl e) ↦
            parse_loop-complete fuel (feed more r) (
              subst (λ x. Grows x (round r.step (r.buf ++ more) r.remote_error)) e
                (round-Grows r.step r.buf r.remote_error))
            ∙ ap (λ (z : ResponseReader × Parsed). (feed more z.0, parsed))
                (sym (parse_loop-complete fuel r e) ∙ p)
        | inr (inr (inl e)) ↦ cc (parse_loop-need_more fuel r e)
        | inr (inr (inr (x, e))) ↦ cc (parse_loop-fail fuel r e)
      ]

-- Where parse_step asks for more bytes, going on from there with the bytes that arrive gives what
-- it gives on all the bytes at once.
pub parse_step-feed_more :
    (more : Bytes) (r r' : ResponseReader)
    → parse_step r ≡ (r', wants_more)
    → parse_step (feed more r') ≡ parse_step (feed more r)
unfolding parse_step
parse_step-feed_more more r r' p =
    sym (parse_loop-feed_more more 7 r (omega (arith, rank-le r.step)) p)

-- Where parse_step is done with the frame, bytes behind the frame change nothing but stay in the
-- buffer.
pub parse_step-feed_parsed :
    (more : Bytes) (r r' : ResponseReader)
    → parse_step r ≡ (r', parsed)
    → parse_step (feed more r) ≡ (feed more r', parsed)
unfolding parse_step
parse_step-feed_parsed more r r' p = parse_loop-feed_parsed more 7 r p
