-- ===== src/Vmess/Roundtrip.antt =====
-- From one end of a VMess stream to the other (src/proxy/outbound/vmess/vmess_impl/stream.rs).
use quic_proxy.Common.{
  ℕ, zero, suc, ◌+◌, ◌<◌, ◌≤◌, ◌≡◌, refl, ◌∙◌, ap, Option, none, some, List, [], ◌∷◌, ◌++◌, ok,
  length, take, drop, arith, length-take, length-drop, take-append-drop,
}
use quic_proxy.Common.Bytes.{Bytes, All, concat}
use quic_proxy.Anytls.Reader.Unread.{IsLive}
use quic_proxy.Vmess.{
  chunk_size, Aead, AeadCipher, overhead_len, waiting_length, Reader, Answer, write_all,
}
use quic_proxy.Vmess.Reads.{IsMessage, Holds, read_many, read_many-Holds}
use quic_proxy.Vmess.Writes.{Takes, idle, pieces, encode, room, room_pos, write_all-encode}

concat-pieces :
    (size fuel : ℕ) (input : Bytes)
    → 0 < size
    → length input < fuel
    → concat (pieces size fuel input) ≡ input
concat-pieces size zero input s l = absurd (omega arith)
concat-pieces size (suc fuel) [] s l = refl
concat-pieces size (suc fuel) (b ∷ input) s l =
    let rest =
      concat-pieces size fuel (drop size (b ∷ input)) s
        (let d = length-drop size (b ∷ input) in omega arith) in
    ap (λ o. take size (b ∷ input) ++ o) rest ∙ take-append-drop size (b ∷ input)

overhead_le :
    (aead : Aead) (cipher : Option AeadCipher) → room aead cipher + overhead_len cipher ≤ chunk_size
overhead_le aead none = omega arith
overhead_le aead (some c) = omega arith

pieces-IsMessage :
    (aead : Aead) (cipher : Option AeadCipher) (fuel : ℕ) (input : Bytes)
    → All (IsMessage cipher) (pieces (room aead cipher) fuel input)
pieces-IsMessage aead cipher zero input = tt
pieces-IsMessage aead cipher (suc fuel) [] = tt
pieces-IsMessage aead cipher (suc fuel) (b ∷ input) =
    let size = length-take (room aead cipher) (b ∷ input) in
    let r = room_pos aead cipher in
    ((omega arith, omega (arith, overhead_le aead cipher)), pieces-IsMessage aead cipher fuel _)

-- A reader at the first chunk of a stream that comes in these pieces.
abbrev pub reader_of : List Bytes → Option AeadCipher → Reader
reader_of stream cipher = record {
  source = record { stream = stream; buf = [] };
  chunk = [];
  read_state = waiting_length;
  cipher = cipher;
}

-- What one end writes in chunks is read at the other end, all of it and nothing else: the writes
-- finish whatever part of each chunk the stream beneath takes at a time, if it takes something each
-- time and often enough; and whatever the pieces in which the bytes arrive, none of them empty, and
-- whatever the sizes of the reader's buffers, none of them zero, the reads give the input, if there
-- are as many reads as the input has bytes. Both ends have the same cipher and count, or none.
pub write_all-read_many :
    (aead : Aead) (cipher : Option AeadCipher) (input : Bytes) (answers : List Answer)
    (stream : List Bytes) (sizes : List ℕ)
    → All Takes answers
    → length (encode aead cipher (pieces (room aead cipher) (suc (length input)) input))
      ≤ length answers
    → IsLive stream
    → concat stream ≡ (write_all aead (suc (length input)) answers input (idle [] cipher)).0.out
    → All (λ size. 0 < size) sizes
    → length input ≤ length sizes
    → ((write_all aead (suc (length input)) answers input (idle [] cipher)).2 ≡ some (ok 0))
      × (read_many aead sizes (reader_of stream cipher) ≡ ok input)
write_all-read_many aead cipher input answers stream sizes a l live same p enough =
    let fuel = suc (length input) in
    let (sent, finished) = write_all-encode aead fuel answers input [] cipher (omega arith) a l in
    let ms = pieces (room aead cipher) fuel input in
    let whole : concat ms ≡ input =
      concat-pieces (room aead cipher) fuel input (room_pos aead cipher) (omega arith) in
    let holds : Holds aead cipher [] ms (reader_of stream cipher) = record {
      unread_is = same ∙ sent;
      live = live;
      same_cipher = refl;
      chunk_is = refl;
      state_is = refl;
    } in
    (
      finished,
      read_many-Holds aead sizes [] ms cipher (reader_of stream cipher) p
            (pieces-IsMessage aead cipher fuel input) (rw whole enough) holds
          ∙ ap ok whole,
    )
