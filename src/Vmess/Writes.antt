-- ===== src/Vmess/Writes.antt =====
-- What the writing half of a VMess stream sends (src/proxy/outbound/vmess/vmess_impl/stream.rs:
-- poll_write).
use quic_proxy.Common.{
  ℕ, zero, suc, ◌+◌, ◌-◌, ◌<◌, ◌≤◌, ◌≡◌, refl, sym, ◌∙◌, ap, false, Option, none, some, List, [],
  ◌∷◌, ◌++◌, ok, length, take, drop, ltb, min, ◌==◌, arith, append_assoc, append-nil, length-append,
  length-take, length-drop, take-append-drop, drop-drop, Bool-cases, inl, inr, take_all, drop_all,
  leb,
}
use quic_proxy.Common.Bytes.{Bytes, be16, All}
use quic_proxy.Vmess.{
  chunk_size, Aead, AeadCipher, overhead_len, advanced, building_data, flushing, Writer, Answer,
  accepts, refuses, Written, consume_len, flush_rounds, seal_chunk, build, write_state_step,
  poll_write, write_all,
}

-- The stream beneath takes something of each write.
abbrev pub Takes : Answer → Type 0
Takes (accepts n) = 0 < n
Takes refuses = ⊥

-- The writer after all of a chunk has been taken.
abbrev flushed : Writer → Bytes → Writer
flushed w rest = record w { out = w.out ++ rest; write_state = building_data; write_buf = [] }

-- What a call gives where the rest of the chunk is `rest`.
abbrev Flushed : ℕ → Bytes → List Answer → Writer → Written → Type 0
Flushed consumes rest answers w (v, left, r) =
    (v ≡ flushed w rest)
    × (r ≡ some (ok consumes))
    × All Takes left
    × (length answers ≤ length left + length rest)

-- A part of the chunk and then the rest of it.
Flushed-more :
    (consumes n : ℕ) (rest : Bytes) (answers : List Answer) (w : Writer) (x : Written)
    → n ≤ length rest
    → 0 < n
    → Flushed consumes (drop n rest) answers (record w { out = w.out ++ take n rest }) x
    → (k : Answer) → Flushed consumes rest (k ∷ answers) w x
Flushed-more consumes n rest answers w (v, left, r) fits some_taken (same, result, a, l) k = (
  same
      ∙ ap (λ o. record w { out = o; write_state = building_data; write_buf = [] })
          (append_assoc w.out (take n rest) (drop n rest)
            ∙ ap (w.out ++◌) (take-append-drop n rest)),
  result,
  a,
  omega (arith, length-drop n rest),
)

flush_rounds-Flushed :
    (answers : List Answer) (consumes written : ℕ) (w : Writer) (rest : Bytes)
    → All Takes answers
    → drop written w.write_buf ≡ rest
    → 0 < length rest
    → length rest ≤ length answers
    → Flushed consumes rest answers w (flush_rounds answers consumes written (length w.write_buf) w)
unfolding flush_rounds
flush_rounds-Flushed [] consumes written w rest a e l m = absurd (omega arith)
flush_rounds-Flushed (refuses ∷ answers) consumes written w rest a e l m = absurd a.0
flush_rounds-Flushed (accepts k ∷ answers) consumes written w rest a e l m =
    let slice : drop written (take (length w.write_buf) w.write_buf) ≡ rest =
      rw (take_all (length w.write_buf) w.write_buf (omega arith)) e in
    let total : length w.write_buf ≡ written + length rest =
      (let size = length-drop written w.write_buf in
        let same = ap (λ x. length x) e in omega arith) in
    let n = min k (length rest) in
    let k_pos = a.0 in
    let some_taken : (n == 0) ≡ false = ground arith in
    rw (slice, some_taken)
      (elim (Bool-cases (ltb (written + n) (length w.write_buf))) [
        | inl y ↦ rw y (
            Flushed-more consumes n rest answers w _ (omega arith) (omega arith)
              (flush_rounds-Flushed answers consumes (written + n)
                (record w { out = w.out ++ take n rest }) (drop n rest) a.1
                (sym (drop-drop n written w.write_buf) ∙ ap (drop n) e)
                (let z = length-drop n rest in ground arith)
                (let z = length-drop n rest in omega arith))
              (accepts k))
        | inr f ↦
            let all : n ≡ length rest = ground arith in
            rw (f, take_all n rest (omega arith)) (refl, refl, a.1, omega arith)
      ])

-- A writer between two calls.
abbrev pub idle : Bytes → Option AeadCipher → Writer
idle out cipher = record {
  write_state = building_data;
  write_buf = [];
  write_cipher = cipher;
  out = out;
}

-- The pieces of an input, each as long as a chunk can hold, in at most `fuel` pieces.
abbrev pub pieces : ℕ → ℕ → Bytes → List Bytes
pieces size zero input = []
pieces size (suc fuel) [] = []
pieces size (suc fuel) (b ∷ input) =
    take size (b ∷ input) ∷ pieces size fuel (drop size (b ∷ input))

module _ (aead : Aead) where
  abbrev pub chunk_of : Option AeadCipher → Bytes → Bytes
  chunk_of cipher message =
      be16 (length message + overhead_len cipher) ++ seal_chunk aead cipher message

  -- The chunks of some messages, each under the next nonce.
  abbrev pub encode : Option AeadCipher → List Bytes → Bytes
  encode cipher [] = []
  encode cipher (message ∷ messages) = chunk_of cipher message ++ encode (advanced cipher) messages

  pub length-seal_chunk :
      (cipher : Option AeadCipher) (message : Bytes)
      → length (seal_chunk aead cipher message) ≡ length message + overhead_len cipher
  unfolding seal_chunk
  length-seal_chunk none message = omega arith
  length-seal_chunk (some c) message = aead.length-seal _ message

  -- A call sends one chunk with as much of the caller's bytes as it can hold.
  abbrev Sent : List Answer → Bytes → Bytes → Option AeadCipher → Written → Type 0
  Sent answers buf out cipher (v, left, r) =
      let n = consume_len cipher buf in
      (v ≡ idle (out ++ chunk_of cipher (take n buf)) (advanced cipher))
      × (r ≡ some (ok n))
      × All Takes left
      × (length answers ≤ length left + length (chunk_of cipher (take n buf)))

  poll_write-Sent :
      (answers : List Answer) (buf out : Bytes) (cipher : Option AeadCipher)
      → All Takes answers
      → length (chunk_of cipher (take (consume_len cipher buf) buf)) ≤ length answers
      → Sent answers buf out cipher (poll_write aead answers buf (idle out cipher))
  unfolding poll_write write_state_step build
  poll_write-Sent answers buf out cipher a l =
      let n = consume_len cipher buf in
      let size : length (take n buf) ≡ n = omega (arith, length-take n buf) in
      let chunk = chunk_of cipher (take n buf) in
      let same : be16 (n + overhead_len cipher) ++ seal_chunk aead cipher (take n buf) ≡ chunk =
        rw size in
      let built : Writer = record {
        write_state = flushing n 0 (length chunk);
        write_buf = chunk;
        write_cipher = advanced cipher;
        out = out;
      } in
      rw same (flush_rounds-Flushed answers n 0 built chunk a refl (omega arith) l)

  -- What one chunk can hold of the payload.
  abbrev pub room : Option AeadCipher → ℕ
  room cipher = chunk_size - overhead_len cipher

  room-advanced : (cipher : Option AeadCipher) → room (advanced cipher) ≡ room cipher
  room-advanced none = refl
  room-advanced (some c) = refl

  pub room_pos : (cipher : Option AeadCipher) → 0 < room cipher
  room_pos none = omega arith
  room_pos (some c) = omega arith

  take-consume_len :
      (cipher : Option AeadCipher) (buf : Bytes)
      → (take (consume_len cipher buf) buf ≡ take (room cipher) buf)
        × (drop (consume_len cipher buf) buf ≡ drop (room cipher) buf)
  take-consume_len cipher buf = elim (Bool-cases (leb (length buf) (room cipher))) [
    | inl short ↦
        let whole : consume_len cipher buf ≡ length buf = ground arith in
        rw
          (
            whole,
            take_all (length buf) buf (omega arith),
            take_all (room cipher) buf (ground arith),
            drop_all (length buf) buf (omega arith),
            drop_all (room cipher) buf (ground arith),
          )
          (refl, refl)
    | inr long ↦
        let part : consume_len cipher buf ≡ room cipher = ground arith in rw part (refl, refl)
  ]

  pub write_all-encode :
      (fuel : ℕ) (answers : List Answer) (input out : Bytes) (cipher : Option AeadCipher)
      → length input < fuel
      → All Takes answers
      → length (encode cipher (pieces (room cipher) fuel input)) ≤ length answers
      → ((write_all aead fuel answers input (idle out cipher)).0.out
          ≡ out ++ encode cipher (pieces (room cipher) fuel input))
        × ((write_all aead fuel answers input (idle out cipher)).2 ≡ some (ok 0))
  unfolding write_all
  write_all-encode zero answers input out cipher f a l = absurd (omega arith)
  write_all-encode (suc fuel) answers [] out cipher f a l = (sym (append-nil out), refl)
  write_all-encode (suc fuel) answers (b ∷ input) out cipher f good_answers l =
      let buf = b ∷ input in
      let (taken, left_over) = take-consume_len cipher buf in
      let n = consume_len cipher buf in
      let positive : (n == 0) ≡ false = (let r = room_pos cipher in ground arith) in
      let chunk = chunk_of cipher (take (room cipher) buf) in
      let later = encode (advanced cipher) (pieces (room cipher) fuel (drop (room cipher) buf)) in
      let size : length (chunk ++ later) ≡ length chunk + length later =
        length-append chunk later in
      let first : length (chunk_of cipher (take n buf)) ≤ length answers = rw taken (omega arith) in
      let call = poll_write aead answers buf (idle out cipher) in
      let (same, result, good, budget) =
        poll_write-Sent answers buf out cipher good_answers first in
      let spent : length answers ≤ length call.1 + length chunk = rw taken at budget in
      let rest =
        write_all-encode fuel call.1 (drop (room cipher) buf) (out ++ chunk) (advanced cipher)
          (let r = room_pos cipher in let d = length-drop (room cipher) buf in omega arith) good
          (rw (room-advanced cipher) (omega arith)) in
      let (sent, finished) = rw (room-advanced cipher) at rest in
      rw (result, positive, same, left_over, taken) (sent ∙ append_assoc out chunk later, finished)
