-- ===== src/Shadowquic/Sender/Ids.antt =====
-- The context ids that a connection gives out (src/proxy/shadowquic_udp.rs: get_send_context_id and
-- its callers).
use quic_proxy.Common.{
  ℕ, ◌+◌, ◌^◌, ◌<◌, ◌≤◌, ◌≡◌, ◌≢◌, refl, sym, subst, ◌∙◌, ◌⊎◌, Bool, true, false, Option, none,
  some, List, [], ◌∷◌, ◌++◌, Result, ok, err, length, ltb, if_both, if◌then◌else◌, arith,
  Bool-cases, inl, inr,
}
use quic_proxy.Common.Bytes.{Bytes, be16}
use quic_proxy.Common.Assoc.{
  lookup, insert, lookup-insert_self, lookup-insert_ne, lookup-remove-some,
}
use quic_proxy.Addr.{TargetAddr}
use quic_proxy.Shadowquic.Sender.{
  target_beq, target_beq_iff, target_eq, Sender, Session, SendError, Answers, open_stream,
  announced, create_sender, fill_cell, counted, init_cell, enter_cell, get_send_context_id,
  WriteResult, written, stopped, write_error, Attempted, done, again, write_packet, attempt,
  write_stream, next_attempt, DatagramResult, accepted, too_large, refused, sent_datagram,
  over_limit, send_datagram, SendAnswers, send_to,
}

-- `target` has the sender `x` in the session.
abbrev pub Sends : TargetAddr → Sender → Session → Type 0
Sends target x s = lookup target s.sender_map ≡ some (some x)

-- The senders of `t` are those of `s`, or one of `target` whose id was given out in between, and at
-- most `k` ids were given out.
abbrev pub Later : TargetAddr → ℕ → ℕ → Session → ℕ → Session → Type 0
Later target k next s after t =
    (next ≤ after)
    × (after ≤ next + k)
    × ((a : TargetAddr) (x : Sender)
        → Sends a x t
        → Sends a x s ⊎ ((target ≡ a) × (next ≤ x.context_id) × (x.context_id < after)))

Later-same :
    (target : TargetAddr) (k next after : ℕ) (s t : Session)
    → next ≤ after
    → after ≤ next + k
    → t.sender_map ≡ s.sender_map
    → Later target k next s after t
Later-same target k next after s t l m e =
    (l, m, λ a x h. inl (subst (λ m. lookup a m ≡ some (some x)) e h))

Later-trans :
    (target : TargetAddr) (j k n1 n2 n3 : ℕ) (s1 s2 s3 : Session)
    → Later target j n1 s1 n2 s2
    → Later target k n2 s2 n3 s3
    → Later target (j + k) n1 s1 n3 s3
Later-trans target j k n1 n2 n3 s1 s2 s3 (l, l2, f) (m, m2, g) = (
  omega arith,
  omega arith,
  λ a x h. elim (g a x h) [
    | inr (e, lo, hi) ↦ inr (e, omega arith, hi)
    | inl k ↦ elim (f a x k) [
      | inl before ↦ inl before
      | inr (e, lo, hi) ↦ inr (e, lo, omega arith)
    ]
  ],
)

-- What create_sender leaves: the map is the same, and a sender has the id that was asked for.
abbrev Made : ℕ → Session → Session × Result SendError Sender → Type 0
Made id s (t, ok x) = (t.sender_map ≡ s.sender_map) × (x.context_id ≡ id)
Made id s (t, err e) = t.sender_map ≡ s.sender_map

open_stream-Made :
    (w : Bool) (id : ℕ) (opened : Option ℕ) (s : Session) → Made id s (open_stream w id opened s)
unfolding open_stream
open_stream-Made w id none s = refl
open_stream-Made true id (some n) s = (refl, refl)
open_stream-Made false id (some n) s = refl

announced-Made : (io : Answers) (id : ℕ) (s : Session) → Made id s (announced io id s)
unfolding announced
announced-Made io id s =
    if_both (Made id s) s.is_over_unistream (open_stream-Made io.header_written id io.opened s)
      (refl, refl)

create_sender-Made :
    (io : Answers) (id : ℕ) (target : TargetAddr) (s : Session)
    → Made id s (create_sender io id target s)
unfolding create_sender
create_sender-Made io id target s =
    if_both (Made id s) io.control_written (announced-Made io id _) refl

insert-Later :
    (target : TargetAddr) (x : Sender) (next after : ℕ) (s t : Session)
    → t.sender_map ≡ s.sender_map
    → next ≤ x.context_id
    → x.context_id < after
    → after ≤ next + 1
    → Later target 1 next s after (record t { sender_map = insert target (some x) t.sender_map })
insert-Later target x next after s t e lo hi step = (
  omega arith,
  step,
  λ a y h. elim (Bool-cases (target_beq target a)) [
    | inl same ↦
        let q : target ≡ a = (target_beq_iff target a).0 same in
        let there = lookup-insert_self target (some x) t.sender_map in
        let h2 : lookup target (insert target (some x) t.sender_map) ≡ some (some y) =
          subst (λ b. lookup b (insert target (some x) t.sender_map) ≡ some (some y)) (sym q) h in
        let it : x ≡ y = cc in
        inr (q, subst (λ z. next ≤ z.context_id) it lo, subst (λ z. z.context_id < after) it hi)
    | inr n ↦
        let apart : target ≢ a = λ q. let t = (target_beq_iff target a).1 q in cc in
        inl (
          subst (λ m. lookup a m ≡ some (some y)) e
            (sym (lookup-insert_ne target a (some x) t.sender_map apart) ∙ h))
  ],
)

abbrev pub AfterCall : {A : Type 0} → TargetAddr → ℕ → ℕ → Session → ℕ × Session × A → Type 0
AfterCall target k next s (after, t, r) = Later target k next s after t

fill_cell-Later :
    (target : TargetAddr) (next after : ℕ) (s : Session) (r : Session × Result SendError Sender)
    → after ≡ next + 1
    → Made next s r
    → AfterCall target 1 next s (counted after (fill_cell target r))
unfolding fill_cell
fill_cell-Later target next after s (t, ok x) l (e, i) =
    insert-Later target x next after s t e (omega arith) (omega arith) (omega arith)
fill_cell-Later target next after s (t, err x) l e =
    Later-same target 1 next after s t (omega arith) (omega arith) e

init_cell-Later :
    (io : Answers) (target : TargetAddr) (cell : Option Sender) (next : ℕ) (s : Session)
    → next + 1 < 2 ^ 32
    → AfterCall target 1 next s (init_cell io target cell next s)
unfolding init_cell
init_cell-Later io target (some x) next s l =
    Later-same target 1 next next s s (omega arith) (omega arith) refl
init_cell-Later io target none next s l =
    if_both (AfterCall target 1 next s) (ltb next (2 ^ 16))
      (fill_cell-Later target next _ s _ (omega arith) (create_sender-Made io next target s))
      (Later-same target 1 next _ s s (omega arith) (omega arith) refl)

empty_cell-Later :
    (target : TargetAddr) (next : ℕ) (s : Session)
    → Later target 0 next s next (record s { sender_map = insert target none s.sender_map })
empty_cell-Later target next s = (
  omega arith,
  omega arith,
  λ a y h. elim (Bool-cases (target_beq target a)) [
    | inl same ↦
        let q : target ≡ a = (target_beq_iff target a).0 same in
        let there = lookup-insert_self target none s.sender_map in
        let h2 : lookup target (insert target none s.sender_map) ≡ some (some y) =
          subst (λ b. lookup b (insert target none s.sender_map) ≡ some (some y)) (sym q) h in
        cc
    | inr n ↦
        let apart : target ≢ a = λ q. let t = (target_beq_iff target a).1 q in cc in
        inl (sym (lookup-insert_ne target a none s.sender_map apart) ∙ h)
  ],
)

After-trans :
    {A : Type 0} (target : TargetAddr) (j k n1 n2 : ℕ) (s1 s2 : Session) (x : ℕ × Session × A)
    → Later target j n1 s1 n2 s2
    → AfterCall target k n2 s2 x
    → AfterCall target (j + k) n1 s1 x
After-trans target j k n1 n2 s1 s2 (n3, s3, r) f g = Later-trans target j k n1 n2 n3 s1 s2 s3 f g

enter_cell-Later :
    (io : Answers) (target : TargetAddr) (cell : Option (Option Sender)) (next : ℕ) (s : Session)
    → next + 1 < 2 ^ 32
    → AfterCall target 1 next s (enter_cell io target cell next s)
unfolding enter_cell
enter_cell-Later io target (some cell) next s l = init_cell-Later io target cell next s l
enter_cell-Later io target none next s l =
    let s2 = record s { sender_map = insert target none s.sender_map } in
    After-trans target 0 1 next next s s2 (init_cell io target none next s2)
      (empty_cell-Later target next s) (init_cell-Later io target none next s2 l)

get_send_context_id-Later :
    (io : Answers) (target : TargetAddr) (next : ℕ) (s : Session)
    → next + 1 < 2 ^ 32
    → AfterCall target 1 next s (get_send_context_id io target next s)
unfolding get_send_context_id
get_send_context_id-Later io target next s l = enter_cell-Later io target _ next s l

write_packet-Later :
    (w : WriteResult) (target : TargetAddr) (buf : Bytes) (n next : ℕ) (s : Session)
    → AfterCall target 0 next s (counted next (write_packet w target buf n s))
unfolding write_packet
write_packet-Later written target buf n next s = (omega arith, omega arith, λ a x h. inl h)
write_packet-Later write_error target buf n next s =
    Later-same target 0 next next s s (omega arith) (omega arith) refl
write_packet-Later stopped target buf n next s =
    (omega arith, omega arith, λ a x h. inl (lookup-remove-some target a (some x) s.sender_map h))

write_stream-Later :
    (w : WriteResult) (target : TargetAddr) (buf : Bytes) (stream : Option ℕ) (next : ℕ)
    (s : Session)
    → AfterCall target 0 next s (write_stream w target buf stream next s)
unfolding write_stream
write_stream-Later w target buf none next s =
    Later-same target 0 next next s s (omega arith) (omega arith) refl
write_stream-Later w target buf (some n) next s =
    if_both (AfterCall target 0 next s) (ltb (length buf) (2 ^ 16))
      (write_packet-Later w target buf n next s)
      (Later-same target 0 next next s s (omega arith) (omega arith) refl)

attempt-Later :
    (w : WriteResult) (target : TargetAddr) (buf : Bytes) (next : ℕ) (s : Session)
    (x : ℕ × Session × Result SendError Sender)
    → AfterCall target 1 next s x
    → AfterCall target 1 next s (attempt w target buf x)
unfolding attempt
attempt-Later w target buf next s (n, t, err e) h = h
attempt-Later w target buf next s (n, t, ok x) h =
    After-trans target 1 0 next n s t (write_stream w target buf x.stream n t) h
      (write_stream-Later w target buf x.stream n t)

next_attempt-Later :
    (tries : List (Answers × WriteResult)) (target : TargetAddr) (buf : Bytes) (next k m : ℕ)
    (s : Session) (x : ℕ × Session × Attempted)
    → k + length tries ≤ m
    → next + m < 2 ^ 32
    → AfterCall target k next s x
    → AfterCall target m next s (next_attempt tries target buf x)
unfolding next_attempt
next_attempt-Later [] target buf next k m s (n, t, again) b l (lo, hi, f) = (lo, omega arith, f)
next_attempt-Later ((io, w) ∷ tries) target buf next k m s (n, t, again) b l h =
    next_attempt-Later tries target buf next (k + 1) m s _ (omega arith) l (
      After-trans target k 1 next n s t (attempt w target buf (get_send_context_id io target n t)) h
        (attempt-Later w target buf n t _ (get_send_context_id-Later io target n t (omega arith))))
next_attempt-Later [] target buf next k m s (n, t, done r) b l (lo, hi, f) = (lo, omega arith, f)
next_attempt-Later (a ∷ tries) target buf next k m s (n, t, done r) b l (lo, hi, f) =
    (lo, omega arith, f)

sent_datagram-Later :
    (d : DatagramResult) (size : ℕ) (packet : Bytes) (target : TargetAddr) (next : ℕ) (s : Session)
    → AfterCall target 1 next s (counted next (sent_datagram d size packet s))
unfolding sent_datagram
sent_datagram-Later accepted size packet target next s = (omega arith, omega arith, λ a x h. inl h)
sent_datagram-Later too_large size packet target next s = (omega arith, omega arith, λ a x h. inl h)
sent_datagram-Later refused size packet target next s = (omega arith, omega arith, λ a x h. inl h)

send_datagram-Later :
    (d : DatagramResult) (limit : Option ℕ) (buf : Bytes) (target : TargetAddr) (next : ℕ)
    (s : Session) (x : ℕ × Session × Result SendError Sender)
    → AfterCall target 1 next s x
    → AfterCall target 2 next s (send_datagram d limit buf x)
unfolding send_datagram
send_datagram-Later d limit buf target next s (n, t, err e) (lo, hi, f) = (lo, omega arith, f)
send_datagram-Later d limit buf target next s (n, t, ok x) h =
    if_both (AfterCall target 2 next s) (over_limit limit _) (h.0, omega (arith, h.1), h.2)
      (let packet = be16 x.context_id ++ buf in
        After-trans target 1 1 next n s t (counted n (sent_datagram d (length buf) packet t)) h
          (sent_datagram-Later d (length buf) packet target n t))

-- The address that a call of send_to sends for.
abbrev pub context_addr : TargetAddr → TargetAddr → Session → TargetAddr
context_addr source target s = if s.is_client then target else source

pub send_to-Later :
    (w : SendAnswers) (buf : Bytes) (source target : TargetAddr) (next : ℕ) (s : Session)
    → next + 2 < 2 ^ 32
    → AfterCall (context_addr source target s) 2 next s (send_to w buf source target next s)
unfolding send_to
send_to-Later w buf source target next s l =
    let addr = context_addr source target s in
    if_both (AfterCall addr 2 next s) s.is_over_unistream
      (next_attempt-Later (w.first ∷ w.second ∷ []) addr buf next 0 2 s _ (omega arith) l
        (Later-same addr 0 next next s s (omega arith) (omega arith) refl))
      (send_datagram-Later w.datagram w.limit buf addr next s _
        (get_send_context_id-Later w.first.0 addr next s (omega arith)))
