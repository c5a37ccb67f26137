-- ===== src/Shadowquic/Sender/Calls.antt =====
-- The context ids that a call of send_to announces (src/proxy/shadowquic_udp.rs).
use quic_proxy.Common.{
  ℕ, ◌+◌, ◌^◌, ◌<◌, ◌≤◌, refl, ◌∙◌, Option, none, some, List, [], ◌∷◌, ◌++◌, Result, ok, err,
  length, ltb, append-nil, if_both, if◌then◌else◌, arith, Bool-cases, ltb→lt, inl, inr,
}
use quic_proxy.Common.Bytes.{Bytes, be16}
use quic_proxy.Common.Assoc.{insert, remove, lookup-remove-some}
use quic_proxy.Addr.{TargetAddr}
use quic_proxy.Shadowquic.Sender.{
  datagram_out, uni, emit, target_eq, Sender, Session, SendError, Answers, counted, init_cell,
  enter_cell, get_send_context_id, WriteResult, written, stopped, write_error, Attempted, done,
  again, write_packet, attempt, write_stream, next_attempt, DatagramResult, accepted, too_large,
  refused, sent_datagram, over_limit, send_datagram, SendAnswers, send_to, stream_packet,
}
use quic_proxy.Shadowquic.Sender.News.{control_ids, control_ids-append}
use quic_proxy.Shadowquic.Sender.Announces.{
  News, News-nothing, CallNews, CallNews-trans, create_sender-Announces, insert-origin,
  fill_cell-CallNews,
}

init_cell-CallNews :
    (io : Answers) (target : TargetAddr) (cell : Option Sender) (next : ℕ) (s : Session)
    → next + 1 < 2 ^ 32
    → CallNews 1 next s (init_cell io target cell next s)
unfolding init_cell
init_cell-CallNews io target (some x) next s l =
    News-nothing 1 next next s s (omega arith) (omega arith) refl (λ a x h. h)
init_cell-CallNews io target none next s l = elim (Bool-cases (ltb next (2 ^ 16))) [
  | inl y ↦
      rw (init_cell, y)
        (fill_cell-CallNews target next _ s _ (omega arith)
          (create_sender-Announces io next target s (ltb→lt next (2 ^ 16) y)))
  | inr n ↦
      rw (init_cell, n) (News-nothing 1 next _ s s (omega arith) (omega arith) refl (λ a x h. h))
]

-- A sender stands in no empty cell.
empty_cell-News :
    (target : TargetAddr) (next : ℕ) (s : Session)
    → News 0 next s next (record s { sender_map = insert target none s.sender_map })
empty_cell-News target next s =
    let t = record s { sender_map = insert target none s.sender_map } in
    News-nothing 0 next next s t (omega arith) (omega arith) refl
      (λ a y h. elim (insert-origin target none a y s h) [ inl own ↦ cc | inr old ↦ old ])

enter_cell-CallNews :
    (io : Answers) (target : TargetAddr) (cell : Option (Option Sender)) (next : ℕ) (s : Session)
    → next + 1 < 2 ^ 32
    → CallNews 1 next s (enter_cell io target cell next s)
unfolding enter_cell
enter_cell-CallNews io target (some cell) next s l = init_cell-CallNews io target cell next s l
enter_cell-CallNews io target none next s l =
    let t = record s { sender_map = insert target none s.sender_map } in
    CallNews-trans 0 1 next next s t (init_cell io target none next t)
      (empty_cell-News target next s) (init_cell-CallNews io target none next t l)

get_send_context_id-CallNews :
    (io : Answers) (target : TargetAddr) (next : ℕ) (s : Session)
    → next + 1 < 2 ^ 32
    → CallNews 1 next s (get_send_context_id io target next s)
unfolding get_send_context_id
get_send_context_id-CallNews io target next s l = enter_cell-CallNews io target _ next s l

unchanged : (k next : ℕ) (s : Session) → News k next s next s
unchanged k next s = News-nothing k next next s s (omega arith) (omega arith) refl (λ a x h. h)

-- What is sent otherwise announces nothing.
emit-uni : (n next : ℕ) (b : Bytes) (s : Session) → News 0 next s next (emit (uni n b) s)
emit-uni n next b s =
    News-nothing 0 next next s (emit (uni n b) s) (omega arith) (omega arith)
      (control_ids-append s.out (uni n b ∷ []) ∙ append-nil (control_ids s.out)) (λ a x h. h)

emit-datagram : (next : ℕ) (b : Bytes) (s : Session) → News 1 next s next (emit (datagram_out b) s)
emit-datagram next b s =
    News-nothing 1 next next s (emit (datagram_out b) s) (omega arith) (omega arith)
      (control_ids-append s.out (datagram_out b ∷ []) ∙ append-nil (control_ids s.out)) (λ a x h. h)

write_packet-CallNews :
    (w : WriteResult) (target : TargetAddr) (buf : Bytes) (n next : ℕ) (s : Session)
    → CallNews 0 next s (counted next (write_packet w target buf n s))
unfolding write_packet
write_packet-CallNews written target buf n next s = emit-uni n next (stream_packet buf) s
write_packet-CallNews write_error target buf n next s = unchanged 0 next s
write_packet-CallNews stopped target buf n next s =
    let t = record s { sender_map = remove target s.sender_map } in
    News-nothing 0 next next s t (omega arith) (omega arith) refl
      (λ a x h. lookup-remove-some target a (some x) s.sender_map h)

write_stream-CallNews :
    (w : WriteResult) (target : TargetAddr) (buf : Bytes) (stream : Option ℕ) (next : ℕ)
    (s : Session)
    → CallNews 0 next s (write_stream w target buf stream next s)
unfolding write_stream
write_stream-CallNews w target buf none next s = unchanged 0 next s
write_stream-CallNews w target buf (some n) next s =
    if_both (CallNews 0 next s) (ltb (length buf) (2 ^ 16))
      (write_packet-CallNews w target buf n next s) (unchanged 0 next s)

attempt-CallNews :
    (w : WriteResult) (target : TargetAddr) (buf : Bytes) (next : ℕ) (s : Session)
    (x : ℕ × Session × Result SendError Sender)
    → CallNews 1 next s x
    → CallNews 1 next s (attempt w target buf x)
unfolding attempt
attempt-CallNews w target buf next s (n, t, err e) h = h
attempt-CallNews w target buf next s (n, t, ok x) h =
    CallNews-trans 1 0 next n s t (write_stream w target buf x.stream n t) h
      (write_stream-CallNews w target buf x.stream n t)

News-more :
    (j k next after : ℕ) (s t : Session) → j ≤ k → News j next s after t → News k next s after t
News-more j k next after s t l h =
    let m = h.at_most in
    record {
      ids = h.ids;
      at_most = omega arith;
      out_is = h.out_is;
      rising = h.rising;
      origin = h.origin;
    }

next_attempt-CallNews :
    (tries : List (Answers × WriteResult)) (target : TargetAddr) (buf : Bytes) (next k m : ℕ)
    (s : Session) (x : ℕ × Session × Attempted)
    → k + length tries ≤ m
    → next + m < 2 ^ 32
    → CallNews k next s x
    → CallNews m next s (next_attempt tries target buf x)
unfolding next_attempt
next_attempt-CallNews [] target buf next k m s (n, t, again) b l h =
    News-more k m next n s t (omega arith) h
next_attempt-CallNews ((io, w) ∷ tries) target buf next k m s (n, t, again) b l h =
    let most = h.at_most in
    next_attempt-CallNews tries target buf next (k + 1) m s _ (omega arith) l (
      CallNews-trans k 1 next n s t (attempt w target buf (get_send_context_id io target n t)) h (
        attempt-CallNews w target buf n t _
          (get_send_context_id-CallNews io target n t (omega arith))))
next_attempt-CallNews [] target buf next k m s (n, t, done r) b l h =
    News-more k m next n s t (omega arith) h
next_attempt-CallNews (a ∷ tries) target buf next k m s (n, t, done r) b l h =
    News-more k m next n s t (omega arith) h

sent_datagram-CallNews :
    (d : DatagramResult) (size : ℕ) (packet : Bytes) (next : ℕ) (s : Session)
    → CallNews 1 next s (counted next (sent_datagram d size packet s))
unfolding sent_datagram
sent_datagram-CallNews accepted size packet next s = emit-datagram next packet s
sent_datagram-CallNews too_large size packet next s = unchanged 1 next s
sent_datagram-CallNews refused size packet next s = unchanged 1 next s

send_datagram-CallNews :
    (d : DatagramResult) (limit : Option ℕ) (buf : Bytes) (next : ℕ) (s : Session)
    (x : ℕ × Session × Result SendError Sender)
    → CallNews 1 next s x
    → CallNews 2 next s (send_datagram d limit buf x)
unfolding send_datagram
send_datagram-CallNews d limit buf next s (n, t, err e) h = News-more 1 2 next n s t (omega arith) h
send_datagram-CallNews d limit buf next s (n, t, ok x) h =
    if_both (CallNews 2 next s) (over_limit limit _) (News-more 1 2 next n s t (omega arith) h) (
      let packet = be16 x.context_id ++ buf in
      CallNews-trans 1 1 next n s t (counted n (sent_datagram d (length buf) packet t)) h
        (sent_datagram-CallNews d (length buf) packet n t))

pub send_to-CallNews :
    (w : SendAnswers) (buf : Bytes) (source target : TargetAddr) (next : ℕ) (s : Session)
    → next + 2 < 2 ^ 32
    → CallNews 2 next s (send_to w buf source target next s)
unfolding send_to
send_to-CallNews w buf source target next s l =
    let addr = if s.is_client then target else source in
    if_both (CallNews 2 next s) s.is_over_unistream
      (next_attempt-CallNews (w.first ∷ w.second ∷ []) addr buf next 0 2 s _ (omega arith) l
        (unchanged 0 next s))
      (send_datagram-CallNews w.datagram w.limit buf next s _
        (get_send_context_id-CallNews w.first.0 addr next s (omega arith)))
