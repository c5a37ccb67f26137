-- ===== src/Hysteria2/Varint.antt =====
-- QUIC varints (src/proxy/outbound/hysteria2/mod.rs: varint_len, read_varint, append_varint).
use quic_proxy.Common.{
  ℕ, suc, ◌+◌, ◌-◌, ◌*◌, ◌/◌, ◌%◌, ◌^◌, ◌<◌, ◌≤◌, bit_and, bit_or, ◌≡◌, ◌∙◌, [], ◌∷◌, ◌++◌, foldl,
  Result, ok, err, length, take, ltb, leb, if◌then◌else◌, arith, le→ltb,
}
use quic_proxy.Common.Bits.{and-0x3f, or-0x40, or-0x80, or-0xc0, or_shift8}
use quic_proxy.Common.Bytes.{Bytes, as_u8}

-- `context("varint truncated")` and `bail!("varint truncated")`
pub data VarintError : Type 0 where
  varint_truncated : VarintError

unfoldable pub varint_len : ℕ → ℕ
varint_len value =
    if leb value 63
    then 1
    else if leb value 16383
    then 2
    else if leb value 1_073_741_823
    then 4
    else 8

-- `value = (value << 8) | *b as u64`
abbrev pub push_byte : ℕ → ℕ → ℕ
push_byte value b = bit_or (value * 256 % 2 ^ 64) b

-- `1usize << (first >> 6)`
abbrev pub tail_len : ℕ → ℕ
tail_len first = 2 ^ (first / 64)

unfoldable pub read_varint : Bytes → Result VarintError (ℕ × ℕ)
read_varint [] = err varint_truncated
read_varint (first ∷ rest) =
    let len = tail_len first in
    if ltb (length (first ∷ rest)) len
    then err varint_truncated
    else ok (foldl push_byte (bit_and first 0x3f) (take (len - 1) rest), len)

unfoldable pub append_varint : Bytes → ℕ → Bytes
append_varint out value =
    if leb value 63
    then out ++ as_u8 value ∷ []
    else if leb value 16383
    then out ++ bit_or 0x40 (as_u8 (value / 2 ^ 8)) ∷ as_u8 value ∷ []
    else if leb value 1_073_741_823
    then out
      ++ bit_or 0x80 (as_u8 (value / 2 ^ 24))
        ∷ as_u8 (value / 2 ^ 16)
        ∷ as_u8 (value / 2 ^ 8)
        ∷ as_u8 value
        ∷ []
    else out
      ++ bit_or 0xc0 (as_u8 (value / 2 ^ 56))
        ∷ as_u8 (value / 2 ^ 48)
        ∷ as_u8 (value / 2 ^ 40)
        ∷ as_u8 (value / 2 ^ 32)
        ∷ as_u8 (value / 2 ^ 24)
        ∷ as_u8 (value / 2 ^ 16)
        ∷ as_u8 (value / 2 ^ 8)
        ∷ as_u8 value
        ∷ []

pub push_byte-sum : (v b : ℕ) → v < 2 ^ 56 → b < 256 → push_byte v b ≡ v * 256 + b
push_byte-sum v b hv hb =
    let e : v * 256 % 2 ^ 64 ≡ v * 256 = omega arith in rw e (or_shift8 v b hb)

-- A first byte with length tag `t` over the six value bits `x`.
read_tagged :
    (x t : ℕ) (rest : Bytes)
    → x < 64
    → t < 4
    → 2 ^ t ≤ suc (length rest)
    → read_varint ((x + 64 * t) ∷ rest) ≡ ok (foldl push_byte x (take (2 ^ t - 1) rest), 2 ^ t)
unfolding read_varint
read_tagged x t rest hx ht hl =
    let e : (x + 64 * t) / 64 ≡ t = omega arith in
    let m : bit_and (x + 64 * t) 0x3f ≡ x = omega (arith, and-0x3f (x + 64 * t) (omega arith)) in
    rw (e, m, le→ltb (suc (length rest)) (2 ^ t) hl)

-- The high part of a number and its next byte make a longer high part.
push_high : (hi lo : ℕ) → hi < 2 ^ 56 → hi ≡ lo / 2 ^ 8 → push_byte hi (as_u8 lo) ≡ lo
push_high hi lo h e = omega (arith, push_byte-sum hi (as_u8 lo) h (omega arith))

module _ (v : ℕ) (rest : Bytes) where
  read1 : v < 64 → read_varint (as_u8 v ∷ rest) ≡ ok (v, 1)
  read1 h =
      let e : as_u8 v ≡ v + 64 * 0 = omega arith in
      rw e (read_tagged v 0 rest h (omega arith) (omega arith))

  read2 : v < 2 ^ 14 → read_varint (bit_or 0x40 (as_u8 (v / 2 ^ 8)) ∷ as_u8 v ∷ rest) ≡ ok (v, 2)
  read2 h =
      let e : as_u8 (v / 2 ^ 8) ≡ v / 2 ^ 8 = omega arith in
      rw (e, or-0x40 (v / 2 ^ 8) (omega arith))
        (read_tagged (v / 2 ^ 8) 1 (as_u8 v ∷ rest) (omega arith) (omega arith) (omega arith)
          ∙ rw (push_high (v / 2 ^ 8) v (omega arith) (omega arith)))

  read4 :
      v < 2 ^ 30
      → read_varint (
          bit_or 0x80 (as_u8 (v / 2 ^ 24))
          ∷ as_u8 (v / 2 ^ 16)
          ∷ as_u8 (v / 2 ^ 8)
          ∷ as_u8 v
          ∷ rest)
        ≡ ok (v, 4)
  read4 h =
      let e : as_u8 (v / 2 ^ 24) ≡ v / 2 ^ 24 = omega arith in
      rw (e, or-0x80 (v / 2 ^ 24) (omega arith))
        (read_tagged (v / 2 ^ 24) 2 (as_u8 (v / 2 ^ 16) ∷ as_u8 (v / 2 ^ 8) ∷ as_u8 v ∷ rest)
            (omega arith) (omega arith) (omega arith)
          ∙ rw (
            push_high (v / 2 ^ 24) (v / 2 ^ 16) (omega arith) (omega arith),
            push_high (v / 2 ^ 16) (v / 2 ^ 8) (omega arith) (omega arith),
            push_high (v / 2 ^ 8) v (omega arith) (omega arith),
          ))

  read8 :
      v < 2 ^ 62
      → read_varint (
          bit_or 0xc0 (as_u8 (v / 2 ^ 56))
          ∷ as_u8 (v / 2 ^ 48)
          ∷ as_u8 (v / 2 ^ 40)
          ∷ as_u8 (v / 2 ^ 32)
          ∷ as_u8 (v / 2 ^ 24)
          ∷ as_u8 (v / 2 ^ 16)
          ∷ as_u8 (v / 2 ^ 8)
          ∷ as_u8 v
          ∷ rest)
        ≡ ok (v, 8)
  read8 h =
      let e : as_u8 (v / 2 ^ 56) ≡ v / 2 ^ 56 = omega arith in
      rw (e, or-0xc0 (v / 2 ^ 56) (omega arith))
        (read_tagged (v / 2 ^ 56) 3
            (as_u8 (v / 2 ^ 48)
              ∷ as_u8 (v / 2 ^ 40)
              ∷ as_u8 (v / 2 ^ 32)
              ∷ as_u8 (v / 2 ^ 24)
              ∷ as_u8 (v / 2 ^ 16)
              ∷ as_u8 (v / 2 ^ 8)
              ∷ as_u8 v
              ∷ rest)
            (omega arith) (omega arith) (omega arith)
          ∙ rw (
            push_high (v / 2 ^ 56) (v / 2 ^ 48) (omega arith) (omega arith),
            push_high (v / 2 ^ 48) (v / 2 ^ 40) (omega arith) (omega arith),
            push_high (v / 2 ^ 40) (v / 2 ^ 32) (omega arith) (omega arith),
            push_high (v / 2 ^ 32) (v / 2 ^ 24) (omega arith) (omega arith),
            push_high (v / 2 ^ 24) (v / 2 ^ 16) (omega arith) (omega arith),
            push_high (v / 2 ^ 16) (v / 2 ^ 8) (omega arith) (omega arith),
            push_high (v / 2 ^ 8) v (omega arith) (omega arith),
          ))

-- `read_varint` reads back every number below 2^62 that `append_varint` wrote, whatever follows it,
-- and reports the `varint_len` bytes that it took.
pub read_varint-append_varint :
    (v : ℕ) (rest : Bytes)
    → v < 2 ^ 62
    → read_varint (append_varint [] v ++ rest) ≡ ok (v, varint_len v)
unfolding append_varint varint_len
read_varint-append_varint v rest h =
    ground (arith, read1 v rest, read2 v rest, read4 v rest, read8 v rest h)

pub length-append_varint : (v : ℕ) → length (append_varint [] v) ≡ varint_len v
unfolding append_varint varint_len
length-append_varint v = ground arith

-- `append_varint` writes behind what the buffer holds.
pub append_varint-append : (out : Bytes) (v : ℕ) → append_varint out v ≡ out ++ append_varint [] v
unfolding append_varint
append_varint-append out v = ground arith

pub varint_len_bounds : (v : ℕ) → (1 ≤ varint_len v) × (varint_len v ≤ 8)
unfolding varint_len
varint_len_bounds v = ground arith
