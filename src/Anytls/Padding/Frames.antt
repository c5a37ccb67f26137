-- ===== src/Anytls/Padding/Frames.antt =====
-- What the peer reads of a payload that was written under a padding scheme
-- (src/proxy/outbound/anytls.rs: write_with_padding).
use quic_proxy.Common.{
  ℕ, suc, ◌+◌, ◌-◌, ◌%◌, ◌^◌, ◌<◌, ◌≤◌, ◌≡◌, refl, sym, ◌∙◌, ap, true, Option, none, some, List, [],
  ◌∷◌, ◌++◌, map, ok, length, take, drop, replicate, ltb, leb, if◌then◌else◌, is_empty, if_both,
  arith, append_assoc, append-nil, length-replicate, take-append-drop, Bool-cases, Option-cases,
  inl, inr,
}
use quic_proxy.Common.Bytes.{Bytes, All, concat}
use quic_proxy.Common.Assoc.{nat_eq, lookup, Values, lookup-Values}
use quic_proxy.Anytls.Frame.{waste, Frame, frame_header_size}
use quic_proxy.Anytls.Reader.{FrameReader}
use quic_proxy.Anytls.Reader.Unread.{IsLive, unread}
use quic_proxy.Anytls.Reader.Sequence.{
  append_frames, append_frames-ok, frame_bytes, wire_of, Fits, read_frames, read_frames-wire,
  Finished, HasId,
}
use quic_proxy.Anytls.Padding.{
  PaddingEntry, fixed, range, check_mark, PaddingScheme, Padder, payload_sizes,
  generate_record_payload_sizes, waste_record, wrote, last_record, write_records, write_left,
  write_with_padding,
}

-- A frame of padding.
abbrev pub padding : ℕ → Frame
padding size = (waste, 0, replicate size 0)

-- The writes and what is left are the payload and then frames of padding.
abbrev pub Padded : Bytes → List Bytes × Bytes → Type 0
Padded payload (writes, left) =
    (ns : List ℕ) × All (λ n. n < 2 ^ 16) ns
    × (concat writes ++ left ≡ payload ++ wire_of (map padding ns))

waste_record-frame_bytes : (n : ℕ) → waste_record n ≡ frame_bytes (padding n)
unfolding waste_record
waste_record-frame_bytes n = rw (length-replicate {A = ℕ} n 0)

-- The loop goes on behind a part of the payload.
wrote-part :
    (part rest : Bytes) (x : List Bytes × Bytes)
    → Padded rest x
    → Padded (part ++ rest) (wrote (part ∷ []) x)
wrote-part part rest (writes, left) (ns, fits, e) = (
  ns,
  fits,
  append_assoc part (concat writes) left
      ∙ ap (λ o. part ++ o) e
      ∙ sym (append_assoc part rest (wire_of (map padding ns))),
)

-- The loop goes on behind a frame of padding, where no payload is left.
wrote-padding :
    (n : ℕ) (x : List Bytes × Bytes)
    → n < 2 ^ 16
    → Padded [] x
    → Padded [] (wrote (waste_record n ∷ []) x)
wrote-padding n (writes, left) l (ns, fits, e) = (
  n ∷ ns,
  (l, fits),
  append_assoc (waste_record n) (concat writes) left ∙ rw (waste_record-frame_bytes n, e),
)

wrote-last_record :
    (target_size : ℕ) (payload : Bytes) (x : List Bytes × Bytes)
    → target_size < 2 ^ 16
    → Padded [] x
    → Padded payload (wrote (last_record target_size payload) x)
unfolding last_record
wrote-last_record target_size payload (writes, left) l h =
    let n = target_size - (length payload + frame_header_size) in
    let (ns, fits, e) = wrote-padding n (writes, left) (omega arith) h in
    let (ms, fit, f) = h in
    elim (Bool-cases (ltb 0 n)) [
      | inl y ↦ rw y (ns, fits, append_assoc payload _ left ∙ ap (λ o. payload ++ o) e)
      | inr k ↦ rw k (ms, fit, append_assoc payload (concat writes) left ∙ ap (λ o. payload ++ o) f)
    ]

-- A record that the payload does not fill.
short-Padded :
    (n : ℕ) (payload : Bytes) (x : List Bytes × Bytes)
    → n < 2 ^ 16
    → Padded [] x
    → Padded payload (
        if ltb 0 (length payload)
        then wrote (last_record n payload) x
        else wrote (waste_record n ∷ []) x)
short-Padded n [] x l h = wrote-padding n x l h
short-Padded n (b ∷ payload) x l h =
    let some_left : ltb 0 (suc (length payload)) ≡ true = ground arith in
    rw some_left (wrote-last_record n (b ∷ payload) x l h)

abbrev Sized : Option ℕ → Type 0
Sized none = Unit
Sized (some n) = n < 2 ^ 16

write_records-Padded :
    (sizes : List (Option ℕ)) (payload : Bytes)
    → All Sized sizes
    → Padded payload (write_records sizes payload)
unfolding write_records
write_records-Padded [] payload h = ([], tt, sym (append-nil payload))
write_records-Padded (none ∷ sizes) payload h =
    if_both (Padded payload) (is_empty payload) ([], tt, sym (append-nil payload))
      (write_records-Padded sizes payload h.1)
write_records-Padded (some n ∷ sizes) payload h = elim (Bool-cases (ltb n (length payload))) [
  | inl y ↦
      let part =
        wrote-part (take n payload) (drop n payload) (write_records sizes (drop n payload))
          (write_records-Padded sizes (drop n payload) h.1) in
      rw y (rw (take-append-drop n payload) at part)
  | inr k ↦ rw k (short-Padded n payload _ h.0 (write_records-Padded sizes [] h.1))
]

concat-append : (xs ys : List Bytes) → concat (xs ++ ys) ≡ concat xs ++ concat ys
concat-append [] ys = refl
concat-append (x ∷ xs) ys =
    ap (λ o. x ++ o) (concat-append xs ys) ∙ sym (append_assoc x (concat xs) (concat ys))

concat-write_left :
    (writes : List Bytes) (left : Bytes)
    → concat (write_left (writes, left)) ≡ concat writes ++ left
unfolding write_left
concat-write_left writes [] = sym (append-nil (concat writes))
concat-write_left writes (b ∷ left) =
    concat-append writes ((b ∷ left) ∷ []) ∙ ap (λ o. concat writes ++ o) (append-nil (b ∷ left))

-- An entry asks for records shorter than 2^16, with the range in its order.
abbrev pub IsShort : PaddingEntry → Type 0
IsShort (fixed v) = v < 2 ^ 16
IsShort (range low high) = (low ≤ high) × (high < 2 ^ 16)
IsShort check_mark = Unit

module _ (random_range : ℕ → ℕ → ℕ → ℕ)
    (in_range : (i low high : ℕ)
      → low ≤ high
      → (low ≤ random_range i low high) × (random_range i low high ≤ high)) where
  entries-Sized :
      (i : ℕ) (entries : List PaddingEntry)
      → All IsShort entries
      → All Sized (payload_sizes random_range i entries)
  unfolding payload_sizes
  entries-Sized i [] h = tt
  entries-Sized i (fixed v ∷ entries) h = (h.0, entries-Sized (suc i) entries h.1)
  entries-Sized i (range low high ∷ entries) h =
      let (least, most) = in_range i low high h.0.0 in
      let bound = h.0.1 in (omega arith, entries-Sized (suc i) entries h.1)
  entries-Sized i (check_mark ∷ entries) h = (tt, entries-Sized (suc i) entries h.1)

  sizes-Sized :
      (scheme : PaddingScheme) (pkt : ℕ)
      → Values (All IsShort) scheme.policies
      → All Sized (generate_record_payload_sizes random_range scheme pkt)
  unfolding generate_record_payload_sizes
  sizes-Sized scheme pkt h = elim (Option-cases (lookup pkt scheme.policies)) [
    | inl n ↦ rw (n, generate_record_payload_sizes) tt
    | inr (entries, e) ↦
        rw (e, generate_record_payload_sizes)
          (entries-Sized 0 entries (lookup-Values (All IsShort) pkt entries scheme.policies e h))
  ]

  -- All that a call writes.
  abbrev Complete : Bytes → Padder × List Bytes → Type 0
  Complete payload (p, writes) = Padded payload (writes, [])

  unpadded : (payload : Bytes) → Padded payload (payload ∷ [], [])
  unpadded payload = ([], tt, append-nil (payload ++ []))

  left-Padded :
      (payload : Bytes) (x : List Bytes × Bytes)
      → Padded payload x
      → Padded payload (write_left x, [])
  left-Padded payload (writes, left) (ns, fits, e) = (
    ns,
    fits,
    append-nil (concat (write_left (writes, left))) ∙ (concat-write_left writes left ∙ e),
  )

  write_with_padding-Padded :
      (payload : Bytes) (p : Padder)
      → Values (All IsShort) p.padding_scheme.policies
      → Complete payload (write_with_padding random_range payload p)
  unfolding write_with_padding
  write_with_padding-Padded payload p h =
      let sizes =
        generate_record_payload_sizes random_range p.padding_scheme (p.packet_count % 2 ^ 32) in
      if_both (Complete payload) p.send_padding
        (if_both (Complete payload) (leb p.padding_scheme.stop_at p.packet_count) (unpadded payload)
          (left-Padded payload (write_records sizes payload) (
            write_records-Padded sizes payload
              (sizes-Sized p.padding_scheme (p.packet_count % 2 ^ 32) h))))
        (unpadded payload)

wire_of-append : (fs gs : List Frame) → wire_of (fs ++ gs) ≡ wire_of fs ++ wire_of gs
wire_of-append [] gs = refl
wire_of-append (f ∷ fs) gs =
    ap (λ o. frame_bytes f ++ o) (wire_of-append fs gs)
    ∙ sym (append_assoc (frame_bytes f) (wire_of fs) (wire_of gs))

Fits-append :
    (fs : List Frame) (ns : List ℕ)
    → All Fits fs
    → All (λ n. n < 2 ^ 16) ns
    → All Fits (fs ++ map padding ns)
Fits-append [] [] h k = tt
Fits-append [] (n ∷ ns) h k =
    ((omega arith, omega (arith, length-replicate {A = ℕ} n 0, k.0)), Fits-append [] ns h k.1)
Fits-append (f ∷ fs) ns h k = (h.0, Fits-append fs ns h.1 k)

-- Frames that are written under a padding scheme are read back by the peer in their order, followed
-- only by frames of the command that the peer ignores, and what follows stays unread. This holds for
-- every state of the padding and every random choice, made for each entry anew, within
-- the ranges of the scheme, however the
-- records arrive in pieces, none of them empty before the end of the stream, if the sizes of the
-- scheme are below 2^16 and its ranges are in order.
pub read_frames-write_with_padding :
    (random_range : ℕ → ℕ → ℕ → ℕ) (fs : List Frame) (wire rest : Bytes) (p : Padder)
    (r : FrameReader)
    → ((i low high : ℕ)
        → low ≤ high
        → (low ≤ random_range i low high) × (random_range i low high ≤ high))
    → Values (All IsShort) p.padding_scheme.policies
    → All HasId fs
    → append_frames [] fs ≡ ok wire
    → IsLive r.stream
    → unread r ≡ concat (write_with_padding random_range wire p).1 ++ rest
    → (ns : List ℕ) × Finished rest
        (fs ++ map padding ns)
        (read_frames (length (fs ++ map padding ns)) r)
read_frames-write_with_padding random_range fs wire rest p r in_range short ids e live u =
    let (ns, sized, same) = write_with_padding-Padded random_range in_range wire p short in
    let (fits, w) = append_frames-ok [] fs ids e in
    let out = (write_with_padding random_range wire p).1 in
    let all : concat out ≡ wire_of (fs ++ map padding ns) =
      sym (append-nil (concat out))
      ∙ (same
          ∙ (ap (λ o. o ++ wire_of (map padding ns)) w
              ∙ sym (wire_of-append fs (map padding ns)))) in
    (
      ns,
      read_frames-wire (fs ++ map padding ns) rest r (Fits-append fs ns fits sized) live
          (u ∙ ap (λ o. o ++ rest) all),
    )
