-- ===== src/Addr/Text.antt =====
-- `str::parse::<u16>` and `str::rfind(':')` of the standard library, on the text's bytes.
use quic_proxy.Common.{
  ℕ, ◌+◌, ◌-◌, ◌*◌, Bool, ◌&&◌, Option, none, some, [], ◌∷◌, ltb, leb, ◌==◌, if◌then◌else◌,
}
use quic_proxy.Common.Bytes.{Bytes}

abbrev pub is_digit : ℕ → Bool
is_digit c = leb b'0' c && leb c b'9'

-- Digits up to the end, and no value above 65535 on the way.
unfoldable pub parse_digits : ℕ → Bytes → Option ℕ
parse_digits acc [] = some acc
parse_digits acc (c ∷ s) =
    let acc' = acc * 10 + (c - b'0') in
    let rest = parse_digits acc' s in
    if is_digit c then if ltb 65535 acc' then none else rest else none

unfoldable pub parse_u16 : Bytes → Option ℕ
unfolding parse_digits
parse_u16 [] = none
parse_u16 (c ∷ []) = if c == b'+' then none else parse_digits 0 (c ∷ [])
parse_u16 (c ∷ d ∷ s) = if c == b'+' then parse_digits 0 (d ∷ s) else parse_digits 0 (c ∷ d ∷ s)

-- The place of the last colon.
unfoldable pub rfind_colon : Bytes → Option ℕ
rfind_colon [] = none
rfind_colon (c ∷ s) = elim (rfind_colon s) [
  | some i ↦ some (i + 1)
  | none ↦ if c == b':' then some 0 else none
]
