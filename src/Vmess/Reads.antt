-- ===== src/Vmess/Reads.antt =====
-- What the reading half of a VMess stream gives (src/proxy/outbound/vmess/vmess_impl/stream.rs:
-- poll_read).
use quic_proxy.Common.{
  ℕ, suc, ◌+◌, ◌-◌, ◌/◌, ◌%◌, ◌^◌, ◌<◌, ◌≤◌, ◌≡◌, refl, sym, ◌∙◌, ap, subst, Bool, true, false,
  Option, none, some, List, [], ◌∷◌, ◌++◌, Result, ok, err, ◌>>=◌, length, take, drop, get_or, ltb,
  if◌then◌else◌, min, ◌==◌, arith, append_assoc, length-append, length-drop, take-append-drop,
  Bool-cases, inl, inr, take_all, drop_all, take-append, drop-append, take-append_le,
  drop-append_le,
}
use quic_proxy.Common.Bytes.{Bytes, be16, from_be16, from_be16-be16, All, concat}
use quic_proxy.Anytls.Reader.{FrameReader, poll_fill}
use quic_proxy.Anytls.Reader.Unread.{unread, IsLive, Filled, poll_fill-Filled}
use quic_proxy.Anytls.Frame.{FrameError}
use quic_proxy.Vmess.{
  max_chunk_size, tag_len, Aead, AeadCipher, nonce, next, overhead_len, advanced, ReadState,
  waiting_length, flushing_data, read_closed, VmessError, Reader, read_flush, opened, open_chunk,
  read_data, read_length, poll_state, poll_read, seal_chunk,
}
use quic_proxy.Vmess.Writes.{chunk_of, encode, length-seal_chunk}

-- A message that a chunk may hold.
abbrev pub IsMessage : Option AeadCipher → Bytes → Type 0
IsMessage cipher m = (0 < length m) × (length m + overhead_len cipher ≤ max_chunk_size)

-- The length field at the front of a buffer.
length_field :
    (buf : Bytes) (n : ℕ)
    → take 2 buf ≡ be16 n
    → n < 2 ^ 16
    → from_be16 (get_or buf 0 0) (get_or buf 1 0) ≡ n
length_field [] n e h = cc e
length_field (a ∷ []) n e h = cc e
length_field (a ∷ b ∷ buf) n e h =
    let high : a ≡ n / 2 ^ 8 % 256 = ap (λ l. get_or l 0 0) e in
    let low : b ≡ n % 256 = ap (λ l. get_or l 1 0) e in rw (high, low) (from_be16-be16 n h)

module _ (aead : Aead) where
  -- The reader has `left` of a chunk to hand out, and then the messages `ms` in its stream.
  pub record Holds (cipher : Option AeadCipher) (left : Bytes) (ms : List Bytes) (r : Reader)
      : Type 0 where
    pub unread_is : unread r.source ≡ encode aead cipher ms
    pub live : IsLive r.source.stream
    pub same_cipher : r.cipher ≡ cipher
    pub chunk_is : r.chunk ≡ left
    pub state_is :
        r.read_state ≡ (if 0 == length left then waiting_length else flushing_data (length left))

  -- A call hands out a part of what is there.
  record Hands (cipher : Option AeadCipher) (remaining : ℕ) (left : Bytes) (ms : List Bytes)
      (x : Reader × Result VmessError Bytes) : Type 0 where
    pub bytes : x.1 ≡ ok (take remaining left)
    pub holds : Holds cipher (drop remaining left) ms x.0

  read_flush-Hands :
      (remaining : ℕ) (left : Bytes) (ms : List Bytes) (cipher : Option AeadCipher) (r : Reader)
      → unread r.source ≡ encode aead cipher ms
      → IsLive r.source.stream
      → r.cipher ≡ cipher
      → r.chunk ≡ left
      → Hands cipher remaining left ms (read_flush remaining (length left) r)
  unfolding read_flush
  read_flush-Hands remaining left ms cipher r u l c h =
      elim (Bool-cases (ltb remaining (length left))) [
        | inl part ↦
            let n : min remaining (length left) ≡ remaining = ground arith in
            let size = length-drop remaining left in
            let more : (0 == length (drop remaining left)) ≡ false = ground arith in
            rw (h, n, part)
              (record {
                bytes = refl;
                holds = record {
                  unread_is = u;
                  live = l;
                  same_cipher = c;
                  chunk_is = refl;
                  state_is = rw (more, size);
                };
              })
        | inr whole ↦
            let n : min remaining (length left) ≡ length left = ground arith in
            let none_left = drop_all remaining left (ground arith) in
            let full : ltb (length left) (length left) ≡ false = ground arith in
            rw
              (
                h,
                n,
                full,
                take_all (length left) left (omega arith),
                drop_all (length left) left (omega arith),
              )
              (record {
                bytes = rw (take_all remaining left (ground arith));
                holds = record {
                  unread_is = u;
                  live = l;
                  same_cipher = c;
                  chunk_is = sym none_left;
                  state_is = rw none_left;
                };
              })
      ]

  -- The size of the payload of a chunk.
  abbrev size_of : Option AeadCipher → Bytes → ℕ
  size_of cipher m = length m + overhead_len cipher

  open_chunk-Hands :
      (remaining : ℕ) (m : Bytes) (ms : List Bytes) (cipher : Option AeadCipher) (r : Reader)
      → unread r.source ≡ encode aead (advanced cipher) ms
      → IsLive r.source.stream
      → r.cipher ≡ cipher
      → Hands
          (advanced cipher)
          remaining
          m
          ms
          (open_chunk aead remaining (size_of cipher m) (seal_chunk aead cipher m) cipher r)
  unfolding open_chunk seal_chunk opened
  open_chunk-Hands remaining m ms none r u l c =
      let size : length m + 0 ≡ length m = omega arith in
      rw size (read_flush-Hands remaining m ms none _ u l c refl)
  open_chunk-Hands remaining m ms (some c) r u l e =
      let long : ltb (length m + tag_len) tag_len ≡ false = ground arith in
      let size : length m + tag_len - tag_len ≡ length m = omega arith in
      rw (long, aead.unseal-seal (nonce c) m, size, take_all (length m) m (omega arith))
        (read_flush-Hands remaining m ms (some (next c)) _ u l refl refl)

  -- The front of what a buffer holds, where the front is all there.
  buffer-front :
      (n : ℕ) (f : FrameReader) (front rest : Bytes)
      → unread f ≡ front ++ rest
      → length front ≡ n
      → n ≤ length f.buf
      → (take n f.buf ≡ front) × (drop n f.buf ++ concat f.stream ≡ rest)
  buffer-front n f front rest u h l = (
    sym (take-append_le n f.buf (concat f.stream) l) ∙ (ap (take n) u ∙ take-append n front rest h),
    sym (drop-append_le n f.buf (concat f.stream) l) ∙ (ap (drop n) u ∙ drop-append n front rest h),
  )

  read_data-Hands :
      (remaining : ℕ) (m : Bytes) (ms : List Bytes) (cipher : Option AeadCipher) (r : Reader)
      (x : FrameReader × Result FrameError Bool)
      → r.cipher ≡ cipher
      → Filled (size_of cipher m) (seal_chunk aead cipher m ++ encode aead (advanced cipher) ms) x
      → Hands (advanced cipher) remaining m ms (read_data aead remaining (size_of cipher m) x r)
  unfolding read_data
  read_data-Hands remaining m ms cipher r (f, err e) c (q, u, l, live) = cc q
  read_data-Hands remaining m ms cipher r (f, ok more) c (q, u, l, live) =
      let size = length-seal_chunk aead cipher m in
      let (front, rest) =
        buffer-front (size_of cipher m) f (seal_chunk aead cipher m)
          (encode aead (advanced cipher) ms) u size l in
      rw (front, c) (open_chunk-Hands remaining m ms cipher _ rest live refl)

  read_length-Hands :
      (remaining : ℕ) (m : Bytes) (ms : List Bytes) (cipher : Option AeadCipher) (r : Reader)
      (x : FrameReader × Result FrameError Bool)
      → IsMessage cipher m
      → r.cipher ≡ cipher
      → Filled 2 (chunk_of aead cipher m ++ encode aead (advanced cipher) ms) x
      → Hands (advanced cipher) remaining m ms (read_length aead remaining x r)
  unfolding read_length
  read_length-Hands remaining m ms cipher r (f, err e) fit c (q, u, l, live) = cc q
  read_length-Hands remaining m ms cipher r (f, ok false) fit c (q, u, l, live) = cc q
  read_length-Hands remaining m ms cipher r (f, ok true) fit c (q, u, l, live) =
      let n = size_of cipher m in
      let later = seal_chunk aead cipher m ++ encode aead (advanced cipher) ms in
      let (front, rest) = buffer-front 2 f (be16 n) later u refl l in
      let len : from_be16 (get_or f.buf 0 0) (get_or f.buf 1 0) ≡ n =
        length_field f.buf n front (let fits = fit.1 in omega arith) in
      let fits : ltb max_chunk_size n ≡ false = (let g = fit.1 in ground arith) in
      let long : n ≤ length (drop 2 f.buf ++ concat f.stream) = rw rest (
        let s = length-seal_chunk aead cipher m in
        omega
          (arith, length-append (seal_chunk aead cipher m) (encode aead (advanced cipher) ms))) in
      rw (len, fits)
        (read_data-Hands remaining m ms cipher r _ c (
          subst (λ b. Filled n b (poll_fill f.stream (drop 2 f.buf) n false)) rest
            (poll_fill-Filled false f.stream (drop 2 f.buf) n live long)))

  overhead-advanced :
      (cipher : Option AeadCipher) → overhead_len (advanced cipher) ≡ overhead_len cipher
  overhead-advanced none = refl
  overhead-advanced (some c) = refl

  -- A reader at the end of its stream.
  abbrev Ended : Reader → Type 0
  Ended r = r.read_state ≡ read_closed

  poll_read-read_state :
      (remaining : ℕ) (r : Reader) (state : ReadState)
      → r.read_state ≡ state
      → poll_read aead remaining r ≡ poll_state aead remaining state r
  unfolding poll_read
  poll_read-read_state remaining r state e = ap (λ s. poll_state aead remaining s r) e

  poll_read-Ended :
      (remaining : ℕ) (r : Reader)
      → Ended r
      → ((poll_read aead remaining r).1 ≡ ok []) × Ended (poll_read aead remaining r).0
  unfolding poll_state
  poll_read-Ended remaining r h = rw (poll_read-read_state remaining r read_closed h) (refl, h)

  live_empty : (stream : List Bytes) → IsLive stream → concat stream ≡ [] → stream ≡ []
  live_empty [] live h = refl
  live_empty ([] ∷ stream) live h = absurd (live.0 refl)
  live_empty ((b ∷ piece) ∷ stream) live h = cc h

  append_empty : (xs ys : Bytes) → xs ++ ys ≡ [] → (xs ≡ []) × (ys ≡ [])
  append_empty [] ys h = (refl, h)
  append_empty (x ∷ xs) ys h = cc h

  poll_read-last :
      (remaining : ℕ) (cipher : Option AeadCipher) (r : Reader)
      → Holds cipher [] [] r
      → ((poll_read aead remaining r).1 ≡ ok []) × Ended (poll_read aead remaining r).0
  unfolding poll_read poll_state poll_fill read_length
  poll_read-last remaining cipher r h =
      let (no_buf, no_more) = append_empty r.source.buf (concat r.source.stream) h.unread_is in
      let no_stream = live_empty r.source.stream h.live no_more in
      rw (h.state_is, no_buf, no_stream, poll_read) (refl, refl)

  poll_read-next :
      (remaining : ℕ) (m : Bytes) (ms : List Bytes) (cipher : Option AeadCipher) (r : Reader)
      → IsMessage cipher m
      → Holds cipher [] (m ∷ ms) r
      → Hands (advanced cipher) remaining m ms (poll_read aead remaining r)
  unfolding poll_state
  poll_read-next remaining m ms cipher r fit h =
      rw (poll_read-read_state remaining r waiting_length h.state_is) (
        read_length-Hands remaining m ms cipher r _ fit h.same_cipher (
          subst (λ b. Filled 2 b (poll_fill r.source.stream r.source.buf 2 true)) h.unread_is
            (poll_fill-Filled true r.source.stream r.source.buf 2 h.live
              (rw h.unread_is (omega arith)))))

  poll_read-rest :
      (remaining : ℕ) (left : Bytes) (ms : List Bytes) (cipher : Option AeadCipher) (r : Reader)
      → 0 < length left
      → Holds cipher left ms r
      → Hands cipher remaining left ms (poll_read aead remaining r)
  unfolding poll_state
  poll_read-rest remaining left ms cipher r l h =
      let some_left : (0 == length left) ≡ false = ground arith in
      let state : r.read_state ≡ flushing_data (length left) = rw some_left at h.state_is in
      rw (poll_read-read_state remaining r _ state)
        (read_flush-Hands remaining left ms cipher r h.unread_is h.live h.same_cipher h.chunk_is)

-- A call takes something of what is left.
part_length :
    (remaining bound : ℕ) (left later : Bytes)
    → 0 < remaining
    → 0 < length left
    → length (left ++ later) ≤ suc bound
    → length (drop remaining left ++ later) ≤ bound
part_length remaining bound left later r l h = omega (
  arith,
  length-append left later,
  length-append (drop remaining left) later,
  length-drop remaining left,
)

-- What a caller gets that reads with buffers of these sizes.
unfoldable pub read_many : Aead → List ℕ → Reader → Result VmessError Bytes
read_many aead [] r = ok []
read_many aead (remaining ∷ sizes) r =
    let call = poll_read aead remaining r in
    let rest = read_many aead sizes call.0 in
    call.1 >>= λ first. rest >>= λ later. ok (first ++ later)

module _ (aead : Aead) where
  read_many-Ended : (sizes : List ℕ) (r : Reader) → Ended aead r → read_many aead sizes r ≡ ok []
  unfolding read_many
  read_many-Ended [] r h = refl
  read_many-Ended (remaining ∷ sizes) r h =
      let (first, later) = poll_read-Ended aead remaining r h in
      rw (first, read_many-Ended sizes (poll_read aead remaining r).0 later)

  -- One call and then the rest.
  read_many-Hands :
      (remaining : ℕ) (sizes : List ℕ) (left : Bytes) (ms : List Bytes) (cipher : Option AeadCipher)
      (r : Reader)
      → Hands aead cipher remaining left ms (poll_read aead remaining r)
      → read_many aead sizes (poll_read aead remaining r).0 ≡ ok (drop remaining left ++ concat ms)
      → read_many aead (remaining ∷ sizes) r ≡ ok (left ++ concat ms)
  unfolding read_many
  read_many-Hands remaining sizes left ms cipher r h rest =
      rw (h.bytes, rest)
        (ap ok (
          sym (append_assoc (take remaining left) (drop remaining left) (concat ms))
          ∙ ap (λ o. o ++ concat ms) (take-append-drop remaining left)))

  pub read_many-Holds :
      (sizes : List ℕ) (left : Bytes) (ms : List Bytes) (cipher : Option AeadCipher) (r : Reader)
      → All (λ size. 0 < size) sizes
      → All (IsMessage cipher) ms
      → length (left ++ concat ms) ≤ length sizes
      → Holds aead cipher left ms r
      → read_many aead sizes r ≡ ok (left ++ concat ms)
  unfolding read_many
  read_many-Holds [] [] [] cipher r p fit l h = refl
  read_many-Holds [] [] (m ∷ ms) cipher r p fit l h =
      absurd (let f = fit.0.0 in omega (arith, length-append m (concat ms)))
  read_many-Holds [] (b ∷ left) ms cipher r p fit l h = absurd (omega arith)
  read_many-Holds (remaining ∷ sizes) [] [] cipher r p fit l h =
      let (first, later) = poll_read-last aead remaining cipher r h in
      rw (first, read_many-Ended sizes (poll_read aead remaining r).0 later)
  read_many-Holds (remaining ∷ sizes) [] (m ∷ ms) cipher r p fit l h =
      let hands = poll_read-next aead remaining m ms cipher r fit.0 h in
      read_many-Hands remaining sizes m ms (advanced cipher) r hands (
        read_many-Holds sizes (drop remaining m) ms (advanced cipher) _ p.1
          (subst (λ o. All (λ m. (0 < length m) × (length m + o ≤ max_chunk_size)) ms)
            (sym (overhead-advanced aead cipher)) fit.1)
          (part_length remaining (length sizes) m (concat ms) p.0 fit.0.0 l) hands.holds)
  read_many-Holds (remaining ∷ sizes) (b ∷ left) ms cipher r p fit l h =
      let hands = poll_read-rest aead remaining (b ∷ left) ms cipher r (omega arith) h in
      read_many-Hands remaining sizes (b ∷ left) ms cipher r hands (
        read_many-Holds sizes (drop remaining (b ∷ left)) ms cipher _ p.1 fit
          (part_length remaining (length sizes) (b ∷ left) (concat ms) p.0 (omega arith) l)
          hands.holds)
