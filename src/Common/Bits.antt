-- ===== src/Common/Bits.antt =====
-- Masks and disjoint bit unions as arithmetic.
use Prim.Native.Nat.{
  ℕ, zero, suc, ◌+◌, ◌*◌, ◌/◌, ◌%◌, ◌≤◌, ◌<◌, max, bit_and, bit_or, digits, bit_or-bitwise,
}
use mathlib.Core.Path.{◌≡◌, refl}
use mathlib.Core.List.{List, [], ◌∷◌}
use native.Mathlib.Omega.{arith}

-- The values of a function on the numbers below a bound: two functions with the same values are the
-- same there.
unfoldable pub values : (ℕ → ℕ) → ℕ → List ℕ
values f zero = []
values f (suc n) = f n ∷ values f n

pub values-same : (f g : ℕ → ℕ) (n : ℕ) → values f n ≡ values g n → (x : ℕ) → x < n → f x ≡ g x
unfolding values
values-same f g zero same x h = absurd (omega arith)
values-same f g (suc n) same x h = ground (arith, values-same f g n (ground arith) x)

pub and-0x3f : (b : ℕ) → b < 256 → bit_and b 0x3f ≡ b % 64
unfolding values
and-0x3f = values-same _ _ 256 refl

pub and-0x7f : (b : ℕ) → b < 256 → bit_and b 0x7f ≡ b % 128
unfolding values
and-0x7f = values-same _ _ 256 refl

pub and-0x80 : (b : ℕ) → b < 256 → bit_and b 0x80 ≡ b / 128 * 128
unfolding values
and-0x80 = values-same _ _ 256 refl

pub or-0x80 : (b : ℕ) → b < 64 → bit_or 0x80 b ≡ b + 128
unfolding values
or-0x80 = values-same _ _ 64 refl

pub or-0x40 : (b : ℕ) → b < 64 → bit_or 0x40 b ≡ b + 64
unfolding values
or-0x40 = values-same _ _ 64 refl

pub or-0xc0 : (b : ℕ) → b < 64 → bit_or 0xc0 b ≡ b + 192
unfolding values
or-0xc0 = values-same _ _ 64 refl

-- `bit_or` stands for a recursion on digits, whose first argument is fuel; more of it than the left
-- number changes nothing.
spare_digits : (n k a b : ℕ) → a ≤ n → digits (λ b. b) max (n + k) a b ≡ digits (λ b. b) max n a b
spare_digits zero zero a b h = refl
spare_digits zero (suc k) zero b h = let fuel : 0 + suc k ≡ suc k = omega arith in rw fuel refl
spare_digits zero (suc k) (suc a) b h = absurd (omega arith)
spare_digits (suc n) k zero b h = let fuel : suc n + k ≡ suc (n + k) = omega arith in rw fuel refl
spare_digits (suc n) k (suc a) b h =
    let fuel : suc n + k ≡ suc (n + k) = omega arith in
    rw fuel (omega (arith, spare_digits n k (suc a / 2) (b / 2) (omega arith)))

-- The lowest digit and the others.
split_or : (a b : ℕ) → bit_or a b ≡ max (a % 2) (b % 2) + 2 * bit_or (a / 2) (b / 2)
split_or zero b = omega (arith, bit_or-bitwise 0 b, bit_or-bitwise 0 (b / 2))
split_or (suc a) b =
    let half = suc a / 2 in
    let spare : digits (λ b. b) max (half + a / 2) half (b / 2)
        ≡ digits (λ b. b) max half half (b / 2) =
      spare_digits half (a / 2) half (b / 2) (omega arith) in
    let all : half + a / 2 ≡ a = omega arith in
    let enough = rw all at spare in
    omega (arith, bit_or-bitwise (suc a) b, bit_or-bitwise half (b / 2), enough)

or_nothing : (bound a : ℕ) → a < bound → bit_or a 0 ≡ a
or_nothing zero a h = absurd (omega arith)
or_nothing (suc bound) zero h = bit_or-bitwise 0 0
or_nothing (suc bound) (suc a) h =
    omega (arith, split_or (suc a) 0, or_nothing bound (suc a / 2) (omega arith))

-- A free lowest digit on the left.
or_double : (a b : ℕ) → bit_or a (b / 2) ≡ a + b / 2 → bit_or (2 * a) b ≡ 2 * a + b
or_double a b h =
    let half : 2 * a / 2 ≡ a = omega arith in rw (split_or (2 * a) b, half, h) (omega arith)

-- `v << k`, and `b >> k`
shifted : ℕ → ℕ → ℕ
shifted zero v = v
shifted (suc k) v = 2 * shifted k v

halved : ℕ → ℕ → ℕ
halved zero b = b
halved (suc k) b = halved k (b / 2)

or-shifted : (k v b : ℕ) → halved k b ≡ 0 → bit_or (shifted k v) b ≡ shifted k v + b
unfolding shifted halved
or-shifted zero v b h = rw h (omega (arith, or_nothing (suc v) v (omega arith)))
or-shifted (suc k) v b h = or_double (shifted k v) b (or-shifted k v (b / 2) h)

-- `(v << 8) | b` of a byte `b` is their sum.
pub or_shift8 : (v b : ℕ) → b < 256 → bit_or (v * 256) b ≡ v * 256 + b
unfolding shifted halved
or_shift8 v b h =
    let same : shifted 8 v ≡ v * 256 = omega arith in
    let joined = or-shifted 8 v b (omega arith) in rw same at joined

-- `(v << 4) | b` of a nibble `b` is their sum.
pub or_shift4 : (v b : ℕ) → b < 16 → bit_or (v * 16) b ≡ v * 16 + b
unfolding shifted halved
or_shift4 v b h =
    let same : shifted 4 v ≡ v * 16 = omega arith in
    let joined = or-shifted 4 v b (omega arith) in rw same at joined

pub and-0x0f : (b : ℕ) → b < 256 → bit_and b 0x0f ≡ b % 16
unfolding values
and-0x0f = values-same (λ b. bit_and b 0x0f) (λ b. b % 16) 256 refl
