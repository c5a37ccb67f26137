-- ===== src/Common/Utf8.antt =====
-- `String::from_utf8_lossy` and `std::str::from_utf8` of the standard library, on byte strings.
use quic_proxy.Common.Tests.{ltb, leb, ◌==◌, if◌then◌else◌}
use quic_proxy.Common.Lists.{length, take, drop, take-append-drop}
use quic_proxy.Common.Bytes.{Bytes}
use Prim.Native.Nat.{ℕ, zero, suc}
use mathlib.Core.Path.{◌≡◌, refl}
use mathlib.Core.Bool.{Bool, true, false, ◌&&◌}
use mathlib.Core.List.{[], ◌∷◌, ◌++◌}
use native.Mathlib.Omega.{arith}

abbrev within : ℕ → ℕ → ℕ → Bool
within lo hi c = leb lo c && leb c hi

is_continuation : ℕ → Bool
is_continuation = within 0x80 0xbf

-- Which second byte may follow a first byte of a three or four byte sequence.
second_of_three : ℕ → ℕ → Bool
second_of_three b c =
    if b == 0xe0
    then within 0xa0 0xbf c
    else if b == 0xed
    then within 0x80 0x9f c
    else within 0x80 0xbf c

second_of_four : ℕ → ℕ → Bool
second_of_four b c =
    if b == 0xf0
    then within 0x90 0xbf c
    else if b == 0xf4
    then within 0x80 0x8f c
    else within 0x80 0xbf c

-- The sequence at the front of a string: whether it is a character, and how many bytes it takes. A
-- broken sequence takes the bytes that could have begun a character, one at least.
sequence2 : Bytes → Bool × ℕ
sequence2 (c ∷ r) = if is_continuation c then (true, 2) else (false, 1)
sequence2 [] = (false, 1)

sequence3 : ℕ → Bytes → Bool × ℕ
sequence3 b (c ∷ d ∷ r) =
    if second_of_three b c then if is_continuation d then (true, 3) else (false, 2) else (false, 1)
sequence3 b (c ∷ []) = (false, if second_of_three b c then 2 else 1)
sequence3 b [] = (false, 1)

sequence4 : ℕ → Bytes → Bool × ℕ
sequence4 b (c ∷ d ∷ f ∷ r) =
    if second_of_four b c
    then if is_continuation d
      then if is_continuation f then (true, 4) else (false, 3)
      else (false, 2)
    else (false, 1)
sequence4 b (c ∷ d ∷ []) =
    (false, if second_of_four b c then if is_continuation d then 3 else 2 else 1)
sequence4 b (c ∷ []) = (false, if second_of_four b c then 2 else 1)
sequence4 b [] = (false, 1)

sequence : ℕ → Bytes → Bool × ℕ
unfolding is_continuation second_of_three second_of_four sequence2 sequence3 sequence4
sequence b rest =
    if ltb b 0x80
    then (true, 1)
    else if within 0xc2 0xdf b
    then sequence2 rest
    else if within 0xe0 0xef b
    then sequence3 b rest
    else if within 0xf0 0xf4 b
    then sequence4 b rest
    else (false, 1)

-- Each round takes a byte at least, so the length is enough fuel.
lossy_loop : ℕ → Bytes → Bytes
lossy_loop zero s = []
lossy_loop (suc n) [] = []
lossy_loop (suc n) (b ∷ rest) =
    let (valid, k) = sequence b rest in
    (if valid then take k (b ∷ rest) else 0xef ∷ 0xbf ∷ 0xbd ∷ [])
    ++ lossy_loop n (drop k (b ∷ rest))

-- `String::from_utf8_lossy`: U+FFFD stands for each broken sequence.
unfoldable pub from_utf8_lossy : Bytes → Bytes
unfolding lossy_loop sequence
from_utf8_lossy s = lossy_loop (length s) s

valid_loop : ℕ → Bytes → Bool
valid_loop zero [] = true
valid_loop zero (b ∷ rest) = false
valid_loop (suc n) [] = true
valid_loop (suc n) (b ∷ rest) =
    let (valid, k) = sequence b rest in valid && valid_loop n (drop k (b ∷ rest))

-- Whether `std::str::from_utf8` accepts the bytes.
unfoldable pub is_utf8 : Bytes → Bool
unfolding valid_loop sequence
is_utf8 s = valid_loop (length s) s

lossy_loop-valid : (n : ℕ) (s : Bytes) → valid_loop n s ≡ true → lossy_loop n s ≡ s
unfolding lossy_loop valid_loop
lossy_loop-valid zero [] h = refl
lossy_loop-valid zero (b ∷ rest) h = cc
lossy_loop-valid (suc n) [] h = refl
lossy_loop-valid (suc n) (b ∷ rest) h =
    let (valid, k) = sequence b rest in
    ground (arith, lossy_loop-valid n (drop k (b ∷ rest)), take-append-drop k (b ∷ rest))

-- Valid text is read as it stands.
pub from_utf8_lossy_valid : (s : Bytes) → is_utf8 s ≡ true → from_utf8_lossy s ≡ s
unfolding from_utf8_lossy is_utf8
from_utf8_lossy_valid s h = lossy_loop-valid (length s) s h
