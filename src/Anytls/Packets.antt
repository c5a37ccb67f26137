-- ===== src/Anytls/Packets.antt =====
-- UoT packets written and read back, whole and in pieces (src/proxy/anytls_proto.rs:
-- encode_uot_packet, decode_uot_packet, UotReadBuffer).
use quic_proxy.Common.{
  ℕ, ◌+◌, ◌^◌, ◌<◌, ◌≤◌, ◌≡◌, ◌≢◌, refl, ◌∙◌, sym, subst, Option, none, some, [], ◌∷◌, ◌++◌, ok,
  length, take, drop, leb, arith, length-append, take-append, drop-append, le→ltb, le→leb,
  append_assoc, append-nil, Bool-cases, inl, inr,
}
use quic_proxy.Common.Bytes.{Bytes, be16}
use quic_proxy.Hysteria2.Fragments.{is_none}
use quic_proxy.Addr.{TargetAddr}
use quic_proxy.Anytls.Uot.{
  uot_write_target, uot_target_len, cut_targeted, next_packet, push, encode_uot_packet,
  decode_payload, decode_uot_packet,
}
use quic_proxy.Anytls.Packet.{
  IsUotAddress, uot_decode_target-write, uot_target_len-write, body, length-packet, port_at-body,
  cut_packet-whole, cut_packet-piece, encode_uot_packet-ok,
}

decode_payload-packet :
    (front payload : Bytes) (target : Option TargetAddr)
    → length payload < 2 ^ 16
    → decode_payload (front ++ body front payload) target (length front) ≡ ok (target, payload)
unfolding decode_payload
decode_payload-packet front payload target hp =
    let all = front ++ body front payload in
    let size : length all ≡ length front + 2 + length payload = length-packet front payload in
    let n = port_at-body front payload all [] [] refl (omega arith) hp in
    let h : length front + 2 ≤ length all = omega arith in
    let l : length front + 2 + length payload ≤ length all = omega arith in
    let start : length (front ++ be16 (length payload)) ≡ length front + 2 =
      omega (arith, length-append front (be16 (length payload))) in
    let rest : drop (length front + 2) all ≡ payload =
      rw (← append_assoc front (be16 (length payload)) payload)
        (drop-append (length front + 2) (front ++ be16 (length payload)) payload start) in
    let whole : take (length payload) payload ≡ payload =
      let t = take-append {A = ℕ} (length payload) payload [] refl in
      rw (append-nil payload) at t in
    rw (
      le→ltb (length all) (length front + 2) h,
      n,
      le→ltb (length all) (length front + 2 + length payload) l,
      rest,
      whole,
    )

-- decode_uot_packet reads back every packet that encode_uot_packet wrote, with or without an
-- address, if the address is one that the encoding carries.
pub decode_uot_packet-encode :
    (payload : Bytes) (target : Option TargetAddr) (packet : Bytes)
    → IsUotAddress target
    → encode_uot_packet payload target ≡ ok packet
    → decode_uot_packet packet (is_none target) ≡ ok (target, payload)
unfolding decode_uot_packet
decode_uot_packet-encode payload none packet h e =
    let (hp, w) = encode_uot_packet-ok payload none e in
    rw (← w) (decode_payload-packet [] payload none hp)
decode_uot_packet-encode payload (some t) packet h e =
    let (hp, w) = encode_uot_packet-ok payload (some t) e in
    let front = uot_write_target t [] in
    rw (← w, uot_decode_target-write t (body front payload) h)
      (decode_payload-packet front payload (some t) hp)

-- next_packet cuts a whole packet, as encode_uot_packet wrote it for no address or one that the
-- encoding carries, off the front of the buffer and leaves what stands behind it.
pub next_packet-whole :
    (payload : Bytes) (target : Option TargetAddr) (packet rest : Bytes)
    → IsUotAddress target
    → encode_uot_packet payload target ≡ ok packet
    → next_packet (is_none target) (push packet rest) ≡ (rest, ok (some packet))
unfolding next_packet cut_targeted
next_packet-whole payload none packet rest h e =
    let (hp, w) = encode_uot_packet-ok payload none e in
    let size : 2 ≤ length (body [] payload ++ rest) = omega arith in
    rw (← w, le→ltb (length (body [] payload ++ rest)) 2 size) (cut_packet-whole [] payload rest hp)
next_packet-whole payload (some t) packet rest h e =
    let (hp, w) = encode_uot_packet-ok payload (some t) e in
    let front = uot_write_target t [] in
    let all = (front ++ body front payload) ++ rest in
    let size : length front ≤ length all = omega (
      arith,
      length-append front (body front payload),
      length-append (front ++ body front payload) rest,
    ) in
    let l : uot_target_len all ≡ ok (some (length front)) =
      uot_target_len-write t all [] (body front payload ++ rest) h
        (append-nil all ∙ append_assoc front (body front payload) rest)
      ∙ rw (le→leb (length front) (length all) size) refl in
    rw (← w, l) (cut_packet-whole front payload rest hp)

strict_piece :
    (piece more packet : Bytes) → piece ++ more ≡ packet → more ≢ [] → length piece < length packet
strict_piece piece [] packet c ne = absurd (ne refl)
strict_piece piece (b ∷ more) packet c ne = rw (← c) (omega (arith, length-append piece (b ∷ more)))

-- While a packet, as encode_uot_packet wrote it for no address or one that the encoding carries, has
-- arrived only in part, next_packet answers that there is none, and keeps every byte.
pub next_packet-piece :
    (payload : Bytes) (target : Option TargetAddr) (packet piece more : Bytes)
    → IsUotAddress target
    → encode_uot_packet payload target ≡ ok packet
    → push piece more ≡ packet
    → more ≢ []
    → next_packet (is_none target) piece ≡ (piece, ok none)
unfolding next_packet cut_targeted
next_packet-piece payload none packet piece more h e c ne =
    let (hp, w) = encode_uot_packet-ok payload none e in
    let less : length piece < length packet = strict_piece piece more packet c ne in
    let p =
      cut_packet-piece [] payload piece more (c ∙ sym w)
        (subst (λ x. length piece < length x) (sym w) less) hp in
    ground (arith, p)
next_packet-piece payload (some t) packet piece more h e c ne =
    let (hp, w) = encode_uot_packet-ok payload (some t) e in
    let front = uot_write_target t [] in
    let less : length piece < length packet = strict_piece piece more packet c ne in
    let p =
      cut_packet-piece front payload piece more (c ∙ sym w)
        (subst (λ x. length piece < length x) (sym w) less) hp in
    let l = uot_target_len-write t piece more (body front payload) h (c ∙ sym w) in
    elim (Bool-cases (leb (length front) (length piece))) [
      | inl long ↦ rw (l, long) p
      | inr short ↦ rw (l, short) refl
    ]
