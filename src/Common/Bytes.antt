-- ===== src/Common/Bytes.antt =====
-- Byte strings, and the big-endian fields of the wire formats.
use Prim.Native.Nat.{ℕ, ◌+◌, ◌*◌, ◌/◌, ◌%◌, ◌^◌, ◌<◌}
use mathlib.Core.Path.{◌≡◌}
use mathlib.Core.List.{List, [], ◌∷◌, ◌++◌}
use native.Mathlib.Omega.{arith}

-- A byte string: `Vec<u8>`, `Bytes`, `&[u8]`, and the text of a `String`.
abbrev pub Bytes : Type 0
Bytes = List ℕ

abbrev pub All {ℓ κ} : {A : Type ℓ} → (A → Type κ) → List A → Type κ
All P [] = Unit
All P (x ∷ xs) = P x × All P xs

abbrev pub IsByte : ℕ → Type 0
IsByte b = b < 256

abbrev pub IsBytes : Bytes → Type 0
IsBytes = All IsByte

abbrev pub concat : List Bytes → Bytes
concat [] = []
concat (c ∷ cs) = c ++ concat cs

-- `x as u8`
abbrev pub as_u8 : ℕ → ℕ
as_u8 x = x % 256

-- `u16::to_be_bytes`, `u32::to_be_bytes`
abbrev pub be16 : ℕ → Bytes
be16 p = p / 2 ^ 8 % 256 ∷ p % 256 ∷ []

abbrev pub be32 : ℕ → Bytes
be32 p = p / 2 ^ 24 % 256 ∷ p / 2 ^ 16 % 256 ∷ p / 2 ^ 8 % 256 ∷ p % 256 ∷ []

-- `u16::from_be_bytes([a, b])`, `u32::from_be_bytes([a, b, c, d])`
abbrev pub from_be16 : ℕ → ℕ → ℕ
from_be16 a b = a * 2 ^ 8 + b

abbrev pub from_be32 : ℕ → ℕ → ℕ → ℕ → ℕ
from_be32 a b c d = a * 2 ^ 24 + b * 2 ^ 16 + c * 2 ^ 8 + d

pub from_be16-be16 : (p : ℕ) → p < 2 ^ 16 → from_be16 (p / 2 ^ 8 % 256) (p % 256) ≡ p
from_be16-be16 p h = omega arith

pub from_be32-be32 :
    (p : ℕ)
    → p < 2 ^ 32
    → from_be32 (p / 2 ^ 24 % 256) (p / 2 ^ 16 % 256) (p / 2 ^ 8 % 256) (p % 256) ≡ p
from_be32-be32 p h = omega arith
