-- ===== src/Hysteria2/Qpack/Ints.antt =====
-- Prefixed integers of QPACK (src/proxy/outbound/hysteria2/qpack.rs: append_int, read_int).
use Prim.Native.Nat.{◌*◌}
use native.Mathlib.Nat.{
  add-mul, mul_assoc, pow-le-pow_right, mul-le-mul_right, one-le-pow, mul-add-div_right,
  div-eq_of_lt, mod-eq-sub-div-mul,
}
use quic_proxy.Common.{
  ℕ, zero, suc, ◌+◌, ◌-◌, ◌/◌, ◌%◌, ◌^◌, ◌<◌, ◌≤◌, ◌≡◌, refl, sym, ap, ◌∙◌, bit_and, bit_or, true,
  false, [], ◌∷◌, ◌++◌, ok, leb, ltb, ◌==◌, arith, Bool-cases, inl, inr,
}
use quic_proxy.Common.Bits.{values, values-same, and-0x7f, and-0x80}
use quic_proxy.Common.Bytes.{Bytes, as_u8}
use quic_proxy.Hysteria2.Qpack.{
  QpackError, integer_overflow, append_rest, append_int, read_rest, read_prefixed, read_int,
}

more_byte : (b : ℕ) → b < 128 → bit_or b 0x80 ≡ b + 128
unfolding values
more_byte = values-same _ _ 128 refl

-- A byte whose low bits are a value and whose high bits are flags; `n` codes both, and the width.
low_of_joined :
    (n : ℕ)
    → n < 2304
    → bit_and
        (bit_or (n % 256 / 2 ^ (n / 256) * 2 ^ (n / 256)) (n % 256 % 2 ^ (n / 256)))
        (2 ^ (n / 256) - 1)
      ≡ n % 256 % 2 ^ (n / 256)
unfolding values
low_of_joined = values-same _ _ 2304 refl

wrap : (value a : ℕ) → value + a < 2 ^ 64 → (value + a % 2 ^ 64) % 2 ^ 64 ≡ value + a
wrap value a h = omega arith

module _ (o : QpackError) (value shift : ℕ) (s : Bytes) where
  read_rest_last :
      (rest : ℕ)
      → rest < 128
      → value + rest * 2 ^ shift < 2 ^ 64
      → read_rest o value shift (as_u8 rest ∷ s) ≡ ok (value + rest * 2 ^ shift, s)
  unfolding read_rest
  read_rest_last rest h fits =
      let same : as_u8 rest ≡ rest = omega arith in
      let low : bit_and rest 0x7f ≡ rest = omega (arith, and-0x7f rest (omega arith)) in
      let end : (bit_and rest 0x80 == 0) ≡ true = ground (arith, and-0x80 rest (omega arith)) in
      rw (same, end, low, wrap value (rest * 2 ^ shift) fits)

  read_rest_step :
      (rest : ℕ)
      → value + rest % 128 * 2 ^ shift < 2 ^ 64
      → shift + 7 ≤ 63
      → read_rest o value shift (bit_or (bit_and (as_u8 rest) 0x7f) 0x80 ∷ s)
        ≡ read_rest o (value + rest % 128 * 2 ^ shift) (shift + 7) s
  unfolding read_rest
  read_rest_step rest fits hs =
      let joined : bit_or (bit_and (as_u8 rest) 0x7f) 0x80 ≡ rest % 128 + 128 =
        rw (and-0x7f (as_u8 rest) (omega arith))
          (omega (arith, more_byte (rest % 256 % 128) (omega arith))) in
      let low : bit_and (rest % 128 + 128) 0x7f ≡ rest % 128 =
        omega (arith, and-0x7f (rest % 128 + 128) (omega arith)) in
      let more : (bit_and (rest % 128 + 128) 0x80 == 0) ≡ false =
        ground (arith, and-0x80 (rest % 128 + 128) (omega arith)) in
      let room : ltb 63 (shift + 7) ≡ false = ground arith in
      rw (joined, more, low, wrap value (rest % 128 * 2 ^ shift) fits, room)

-- What `append_rest` can write with this fuel.
abbrev cap : ℕ → ℕ
cap zero = 128
cap (suc k) = 128 * cap k

seven_bits : (shift : ℕ) → 2 ^ (shift + 7) ≡ 128 * 2 ^ shift
seven_bits shift =
    let steps : shift + 7 ≡ suc (suc (suc (suc (suc (suc (suc shift)))))) = omega arith in
    rw steps (omega arith)

-- The low seven bits and the others, both at their places.
split_rest :
    (rest shift : ℕ) → rest % 128 * 2 ^ shift + rest / 2 ^ 7 * 2 ^ (shift + 7) ≡ rest * 2 ^ shift
split_rest rest shift =
    let parts : rest ≡ rest % 128 + rest / 2 ^ 7 * 128 = omega arith in
    let whole = add-mul (rest % 128) (rest / 2 ^ 7 * 128) (2 ^ shift) in
    let place = mul_assoc (rest / 2 ^ 7) 128 (2 ^ shift) in
    rw (seven_bits shift, ← place, ← whole) (ap (λ x. x * 2 ^ shift) (sym parts))

room_for_more : (rest shift : ℕ) → 128 ≤ rest → rest * 2 ^ shift < 2 ^ 64 → shift + 7 ≤ 63
room_for_more rest shift h fits = elim (Bool-cases (leb (shift + 7) 63)) [
  | inl few ↦ ground arith
  | inr many ↦
      let late : 64 ≤ shift + 7 = ground arith in
      let big : 2 ^ 64 ≤ 2 ^ (shift + 7) = pow-le-pow_right (omega arith) late in
      let scaled : 128 * 2 ^ shift ≤ rest * 2 ^ shift = mul-le-mul_right (2 ^ shift) h in
      absurd (omega (arith, seven_bits shift))
]

read_rest-append_rest :
    (o : QpackError) (k value rest shift : ℕ) (s : Bytes)
    → rest < cap k
    → value + rest * 2 ^ shift < 2 ^ 64
    → read_rest o value shift (append_rest k rest ++ s) ≡ ok (value + rest * 2 ^ shift, s)
unfolding append_rest
read_rest-append_rest o zero value rest shift s h fits = read_rest_last o value shift s rest h fits
read_rest-append_rest o (suc k) value rest shift s h fits = elim (Bool-cases (leb 128 rest)) [
  | inr small ↦ rw small (read_rest_last o value shift s rest (ground arith) fits)
  | inl large ↦
      let parts = split_rest rest shift in
      let sum : value + rest % 128 * 2 ^ shift + rest / 2 ^ 7 * 2 ^ (shift + 7)
          ≡ value + rest * 2 ^ shift =
        omega arith in
      let step =
        read_rest_step o value shift (append_rest k (rest / 2 ^ 7) ++ s) rest (omega arith)
          (room_for_more rest shift (ground arith) (omega arith)) in
      let ih =
        read_rest-append_rest o k (value + rest % 128 * 2 ^ shift) (rest / 2 ^ 7) (shift + 7) s
          (omega arith) (rw sum fits) in
      rw large (step ∙ rw sum at ih)
]

module _ (p f : ℕ) (narrow : p ≤ 8) (fits : f * 2 ^ p + 2 ^ p ≤ 256) where
  positive : 0 < 2 ^ p
  positive = one-le-pow p 2 (omega arith)

  joined_low : (v : ℕ) → v < 2 ^ p → bit_and (bit_or (f * 2 ^ p) v) (2 ^ p - 1) ≡ v
  joined_low v h =
      let x = f * 2 ^ p + v in
      let n = p * 256 + x in
      let width : n / 256 ≡ p = omega arith in
      let byte : n % 256 ≡ x = omega arith in
      let high : x / 2 ^ p ≡ f =
        mul-add-div_right positive f v ∙ ap (λ y. f + y) (div-eq_of_lt h) ∙ omega arith in
      let whole : x / 2 ^ p * 2 ^ p ≡ f * 2 ^ p = ap (λ y. y * 2 ^ p) high in
      let low : x % 2 ^ p ≡ v = mod-eq-sub-div-mul x (2 ^ p) ∙ omega arith in
      let t = low_of_joined n (omega arith) in rw (byte, width, high, low) at t

  -- The first byte and the others, and what they are read as.
  abbrev pub Written : QpackError → ℕ → Bytes → Type 0
  Written o value rest =
      (first : ℕ) × (s : Bytes) × (v : ℕ) × (append_int [] p value (f * 2 ^ p) ++ rest ≡ first ∷ s)
      × (read_prefixed o p first s ≡ ok (value, rest))
      × (first ≡ bit_or (f * 2 ^ p) v)
      × (v < 2 ^ p)

  pub append_int-Written :
      (o : QpackError) (value : ℕ) (rest : Bytes) → value < 2 ^ 64 → Written o value rest
  unfolding append_int read_prefixed
  append_int-Written o value rest h = elim (Bool-cases (ltb value (2 ^ p - 1))) [
    | inl small ↦
        let less : value < 2 ^ p - 1 = ground arith in
        let same : as_u8 value ≡ value = omega arith in
        let low = joined_low value (omega arith) in
        (
          bit_or (f * 2 ^ p) value,
          rest,
          value,
          rw (small, same) refl,
          rw (low, small) refl,
          refl,
          omega arith,
        )
    | inr large ↦
        let max = 2 ^ p - 1 in
        let same : as_u8 max ≡ max = (let q = positive in omega arith) in
        let below : max < 2 ^ p = (let q = positive in omega arith) in
        let low = joined_low max below in
        let full : ltb max max ≡ false = ground arith in
        let left : max + (value - max) * 2 ^ 0 ≡ value = ground arith in
        let r = read_rest-append_rest o 10 max (value - max) 0 rest (omega arith) (omega arith) in
        (
          bit_or (f * 2 ^ p) max,
          append_rest 10 (value - max) ++ rest,
          max,
          rw (large, same) refl,
          rw (low, full) (rw left at r),
          refl,
          below,
        )
  ]

  -- read_int reads back every 64-bit number that append_int wrote, with the same prefix of at most 8
  -- bits and any flags above it, and leaves what follows.
  read_int-append_int :
      (value : ℕ) (rest : Bytes)
      → value < 2 ^ 64
      → read_int p (append_int [] p value (f * 2 ^ p) ++ rest) ≡ ok (value, rest)
  unfolding read_int
  read_int-append_int value rest h =
      let (first, s, v, e, r, _, _) = append_int-Written integer_overflow value rest h in rw e r
