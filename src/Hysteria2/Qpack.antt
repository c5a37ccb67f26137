-- ===== src/Hysteria2/Qpack.antt =====
-- QPACK field sections (src/proxy/outbound/hysteria2/qpack.rs). A reader is the bytes that it has
-- not read yet; integers wrap at 64 bits, as in a release build.
mod Huffman
mod Static
pub mod Ints
pub mod Sections
pub mod Fuel
pub mod Padding
pub mod Tests
use quic_proxy.Common.{
  ℕ, zero, suc, ◌+◌, ◌-◌, ◌*◌, ◌/◌, ◌%◌, ◌^◌, bit_and, bit_or, Bool, true, false, not, Option, none,
  some, List, [], ◌∷◌, ◌++◌, Result, ok, err, ◌>>=◌, length, take, drop, get_or, get_elem?, ltb,
  leb, ◌==◌, ◌&&◌, if◌then◌else◌,
}
use quic_proxy.Common.Bytes.{Bytes, as_u8}
use quic_proxy.Common.Utf8.{from_utf8_lossy}
pub use Huffman.{hpack_huffman}
pub use Static.{qpack_static_table, text}

-- `out_of_fuel` is no error of the program.
pub data QpackError : Type 0 where
  truncated integer_overflow length_overflow truncated_string eos_symbol invalid_code bad_padding :
      QpackError
  dynamic_table nonzero_base dynamic_reference index_out_of_range unsupported_type out_of_fuel :
      QpackError

-- `while rest >= 128 { … }` and the last byte. A round drops seven bits, so that ten are enough.
unfoldable pub append_rest : ℕ → ℕ → Bytes
append_rest zero rest = as_u8 rest ∷ []
append_rest (suc fuel) rest =
    let later = append_rest fuel (rest / 2 ^ 7) in
    if leb 128 rest then bit_or (bit_and (as_u8 rest) 0x7f) 0x80 ∷ later else as_u8 rest ∷ []

unfoldable pub append_int : Bytes → ℕ → ℕ → ℕ → Bytes
append_int out prefix value flags =
    let max = 2 ^ prefix - 1 in
    if ltb value max
    then out ++ (bit_or flags (as_u8 value) ∷ [])
    else out ++ (bit_or flags (as_u8 max) ∷ append_rest 10 (value - max))

-- The loop of `read_int` and of `read_string`.
unfoldable pub read_rest : QpackError → ℕ → ℕ → Bytes → Result QpackError (ℕ × Bytes)
read_rest overflow value shift [] = err truncated
read_rest overflow value shift (byte ∷ s) =
    let value' = (value + bit_and byte 0x7f * 2 ^ shift % 2 ^ 64) % 2 ^ 64 in
    let later = read_rest overflow value' (shift + 7) s in
    if bit_and byte 0x80 == 0
    then ok (value', s)
    else if ltb 63 (shift + 7)
    then err overflow
    else later

-- A prefixed integer whose first byte has been read.
unfoldable pub read_prefixed : QpackError → ℕ → ℕ → Bytes → Result QpackError (ℕ × Bytes)
read_prefixed overflow prefix first s =
    let max = 2 ^ prefix - 1 in
    let value = bit_and first max in
    if ltb value max then ok (value, s) else read_rest overflow value 0 s

unfoldable pub read_int : ℕ → Bytes → Result QpackError (ℕ × Bytes)
read_int prefix [] = err truncated
read_int prefix (first ∷ s) = read_prefixed integer_overflow prefix first s

-- The first row, counted from `sym`, with this code and length.
unfoldable pub find_symbol : ℕ → List (ℕ × ℕ) → ℕ → ℕ → Option ℕ
find_symbol sym [] acc acc_len = none
find_symbol sym ((code, len) ∷ table) acc acc_len =
    let later = find_symbol (sym + 1) table acc acc_len in
    if len == acc_len && code == acc then some sym else later

-- `(input[stream_pos / 8] >> (7 - stream_pos % 8)) & 1`
abbrev pub bit_at : Bytes → ℕ → ℕ
bit_at input stream_pos = bit_and (get_or input (stream_pos / 8) 0 / 2 ^ (7 - stream_pos % 8)) 1

-- What follows a search: `go` is the rest of the loop.
abbrev pub take_symbol :
    (ℕ → ℕ → Bytes → Result QpackError (Bytes × ℕ))
    → Option ℕ
    → ℕ
    → ℕ
    → Bytes
    → Result QpackError (Bytes × ℕ)
take_symbol go none acc acc_len out = if acc_len == 30 then err invalid_code else go acc acc_len out
take_symbol go (some sym) acc acc_len out =
    if sym == 256 then err eos_symbol else go 0 0 (out ++ (as_u8 sym ∷ []))

-- The loop, on the number of bits that are left: the decoded bytes and the place where it stopped.
unfoldable pub huffman_loop : ℕ → Bytes → ℕ → ℕ → ℕ → Bytes → Result QpackError (Bytes × ℕ)
huffman_loop zero input stream_pos acc acc_len out = ok (out, stream_pos)
huffman_loop (suc left) input stream_pos acc acc_len out =
    let acc' = bit_or (acc * 2 % 2 ^ 32) (bit_at input stream_pos) in
    take_symbol (huffman_loop left input (stream_pos + 1))
      (find_symbol 0 hpack_huffman acc' (acc_len + 1)) acc' (acc_len + 1) out

-- The test of the padding: the bits of the last byte behind the place where the loop stopped.
unfoldable pub check_padding : Bytes → ℕ → Bytes → Result QpackError Bytes
check_padding input stream_pos out =
    let padded = length input * 8 - stream_pos in
    let mask = 2 ^ padded - 1 in
    if ltb 0 padded && not (bit_and (get_or input (length input - 1) 0) mask == mask)
    then err bad_padding
    else ok out

unfoldable pub huffman_decode : Bytes → Result QpackError Bytes
huffman_decode input = huffman_loop (length input * 8) input 0 0 0 [] >>= λ (out, stream_pos).
    check_padding input stream_pos out

-- `prefix_width` is 4 or 8.
unfoldable pub read_raw : Bool → ℕ × Bytes → Result QpackError (Bytes × Bytes)
read_raw huffman (len, s) =
    if ltb (length s) len
    then err truncated_string
    else if huffman
    then (huffman_decode (take len s) >>= λ out. ok (out, drop len s))
    else ok (take len s, drop len s)

unfoldable pub read_string : ℕ → Bytes → Result QpackError (Bytes × Bytes)
read_string prefix_width [] = err truncated
read_string prefix_width (first ∷ s) =
    let huffman = not (bit_and first (2 ^ (prefix_width - 1)) == 0) in
    read_prefixed length_overflow (prefix_width - 1) first s >>= read_raw huffman

abbrev pub Field : Type 0
Field = Bytes × Bytes

unfoldable pub append_field : Bytes → Field → Bytes
append_field out (name, value) =
    append_int (append_int out 3 (length name) 0x20 ++ name) 7 (length value) 0 ++ value

unfoldable pub append_fields : Bytes → List Field → Bytes
append_fields out [] = out
append_fields out (field ∷ fields) = append_fields (append_field out field) fields

unfoldable pub encode_field_section : List Field → Bytes
encode_field_section fields = append_fields (0 ∷ 0 ∷ []) fields

abbrev pub static_row : ℕ → Result QpackError Field
static_row index = elim (get_elem? qpack_static_table index) [
  | none ↦ err index_out_of_range
  | some row ↦ ok row
]

unfoldable pub read_indexed : Bytes → Result QpackError (Field × Bytes)
read_indexed s = read_int 6 s >>= λ (index, s'). static_row index >>= λ row. ok (row, s')

unfoldable pub read_static_name : Bytes → Result QpackError (Field × Bytes)
read_static_name s = read_int 4 s >>= λ (index, s'). static_row index >>= λ (name, unused).
    read_string 8 s' >>= λ (value, s''). ok ((name, from_utf8_lossy value), s'')

unfoldable pub read_literal : Bytes → Result QpackError (Field × Bytes)
read_literal s = read_string 4 s >>= λ (name, s').
    read_string 8 s' >>= λ (value, s''). ok ((from_utf8_lossy name, from_utf8_lossy value), s'')

-- One round of the loop, whose first byte is there.
unfoldable pub read_field : ℕ → Bytes → Result QpackError (Field × Bytes)
read_field first s =
    if not (bit_and first 0x80 == 0)
    then if bit_and first 0x40 == 0 then err dynamic_reference else read_indexed s
    else if bit_and first 0xc0 == 0x40
    then read_static_name s
    else if bit_and first 0xe0 == 0x20
    then read_literal s
    else err unsupported_type

-- `while rd.remaining() > 0`. Each round reads a byte at least, so the length is enough fuel.
unfoldable pub decode_fields : ℕ → Bytes → List Field → Result QpackError (List Field)
decode_fields fuel [] fields = ok fields
decode_fields zero (first ∷ s) fields = err out_of_fuel
decode_fields (suc fuel) (first ∷ s) fields =
    read_field first (first ∷ s) >>= λ (field, s'). decode_fields fuel s' (fields ++ (field ∷ []))

unfoldable pub decode_field_section : Bytes → Result QpackError (List Field)
decode_field_section block = read_int 8 block >>= λ (required_insert_count, s).
    if not (required_insert_count == 0)
    then err dynamic_table
    else read_int 7 s >>= λ (base, s').
        if not (base == 0) then err nonzero_base else decode_fields (length s') s' []
