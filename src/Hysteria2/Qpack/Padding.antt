-- ===== src/Hysteria2/Qpack/Padding.antt =====
-- The padding of Huffman-coded strings (src/proxy/outbound/hysteria2/qpack.rs: huffman_decode).
use quic_proxy.Common.{
  ℕ, zero, suc, ◌+◌, ◌-◌, ◌*◌, ◌%◌, ◌^◌, ◌≡◌, ◌≢◌, subst, bit_or, Bool, true, false, Option, none,
  some, [], ◌∷◌, ◌++◌, Result, ok, err, ◌>>=◌, length, ◌==◌, if◌then◌else◌, arith,
}
use quic_proxy.Common.Bytes.{Bytes, as_u8}
use quic_proxy.Hysteria2.Qpack.{
  QpackError, bad_padding, invalid_code, eos_symbol, huffman_loop, take_symbol, check_padding,
  huffman_decode, bit_at, find_symbol, hpack_huffman,
}

-- The loop stops at `end`, or with another error than that of the padding.
abbrev Stops : ℕ → Result QpackError (Bytes × ℕ) → Type 0
Stops end (ok (out, pos)) = pos ≡ end
Stops end (err e) = e ≢ bad_padding

if-Stops :
    (end : ℕ) (c : Bool) (x y : Result QpackError (Bytes × ℕ))
    → Stops end x
    → Stops end y
    → Stops end (if c then x else y)
if-Stops end true x y h k = h
if-Stops end false x y h k = k

take_symbol-Stops :
    (end : ℕ) (go : ℕ → ℕ → Bytes → Result QpackError (Bytes × ℕ)) (o : Option ℕ) (acc len : ℕ)
    (out : Bytes)
    → ((a l : ℕ) (out : Bytes) → Stops end (go a l out))
    → Stops end (take_symbol go o acc len out)
take_symbol-Stops end go none acc len out h =
    if-Stops end (len == 30) (err invalid_code) (go acc len out) (λ e. cc) (h acc len out)
take_symbol-Stops end go (some sym) acc len out h =
    if-Stops end (sym == 256) (err eos_symbol) (go 0 0 (out ++ (as_u8 sym ∷ []))) (λ e. cc)
      (h 0 0 _)

huffman_loop-Stops :
    (left : ℕ) (input : Bytes) (pos acc len : ℕ) (out : Bytes)
    → Stops (pos + left) (huffman_loop left input pos acc len out)
unfolding huffman_loop
huffman_loop-Stops zero input pos acc len out = omega arith
huffman_loop-Stops (suc left) input pos acc len out =
    let acc' = bit_or (acc * 2 % 2 ^ 32) (bit_at input pos) in
    let place : pos + 1 + left ≡ pos + suc left = omega arith in
    take_symbol-Stops (pos + suc left) (huffman_loop left input (pos + 1))
      (find_symbol 0 hpack_huffman acc' (len + 1)) acc' (len + 1) out
      (λ a l out.
        subst (λ end. Stops end (huffman_loop left input (pos + 1) a l out)) place
          (huffman_loop-Stops left input (pos + 1) a l out))

-- Where the loop has read every bit, the test of the padding has nothing to look at.
check_padding-end :
    (input : Bytes) (pos : ℕ) (out : Bytes)
    → pos ≡ length input * 8
    → check_padding input pos out ≡ ok out
unfolding check_padding
check_padding-end input pos out h =
    let none_left : length input * 8 - pos ≡ 0 = omega arith in rw none_left

-- huffman_decode never refuses a string for its padding.
pub huffman_decode-ne-bad_padding : (input : Bytes) → huffman_decode input ≢ err bad_padding
unfolding huffman_decode
huffman_decode-ne-bad_padding input =
    go (huffman_loop (length input * 8) input 0 0 0 [])
      (huffman_loop-Stops (length input * 8) input 0 0 0 [])
  where
    go :
        (r : Result QpackError (Bytes × ℕ))
        → Stops (0 + length input * 8) r
        → (r >>= λ (out, stream_pos). check_padding input stream_pos out) ≢ err bad_padding
    go (ok (out, pos)) h = rw (check_padding-end input pos out (omega arith)) (λ e. cc)
    go (err e) h = λ p. h (let q : e ≡ bad_padding = cc in q)
