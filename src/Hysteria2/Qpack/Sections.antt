-- ===== src/Hysteria2/Qpack/Sections.antt =====
-- A field section that was encoded is decoded (src/proxy/outbound/hysteria2/qpack.rs:
-- encode_field_section, decode_field_section).
use quic_proxy.Common.{
  ℕ, zero, suc, ◌+◌, ◌-◌, ◌*◌, ◌^◌, ◌<◌, ◌≤◌, ◌≡◌, refl, sym, ap, subst, ◌∙◌, bit_and, bit_or, true,
  List, [], ◌∷◌, ◌++◌, ok, length, arith, append_assoc, append-nil, length-append, take-append,
  drop-append, le→ltb,
}
use quic_proxy.Common.Bits.{values, values-same}
use quic_proxy.Common.Bytes.{Bytes, All}
use quic_proxy.Common.Utf8.{is_utf8, from_utf8_lossy_valid}
use quic_proxy.Hysteria2.Qpack.{
  length_overflow, append_int, read_prefixed, read_int, read_raw, read_string, Field, append_field,
  append_fields, encode_field_section, read_literal, read_field, decode_fields,
  decode_field_section,
}
use quic_proxy.Hysteria2.Qpack.Ints.{append_int-Written}

append_int_out :
    (out : Bytes) (prefix value flags : ℕ)
    → append_int out prefix value flags ≡ out ++ append_int [] prefix value flags
unfolding append_int
append_int_out out prefix value flags = ground arith

-- A string that is not Huffman-coded.
read_string-plain :
    (p f : ℕ) (narrow : p ≤ 8) (fits : f * 2 ^ p + 2 ^ p ≤ 256) (str rest : Bytes)
    → ((v : ℕ) → v < 2 ^ p → bit_and (bit_or (f * 2 ^ p) v) (2 ^ p) ≡ 0)
    → length str < 2 ^ 64
    → read_string (suc p) (append_int [] p (length str) (f * 2 ^ p) ++ (str ++ rest))
      ≡ ok (str, rest)
unfolding read_string read_raw
read_string-plain p f narrow fits str rest plain h =
    let (first, s, v, e, r, b, l) =
      append_int-Written p f narrow fits length_overflow (length str) (str ++ rest) h in
    let width : suc p - 1 ≡ p = omega arith in
    let flag : bit_and first (2 ^ p) ≡ 0 = rw b (plain v l) in
    let long : length str ≤ length (str ++ rest) = omega (arith, length-append str rest) in
    rw (
      e,
      width,
      r,
      flag,
      le→ltb (length (str ++ rest)) (length str) long,
      take-append (length str) str rest refl,
      drop-append (length str) str rest refl,
    )

name_flag : (v : ℕ) → v < 8 → bit_and (bit_or 0x20 v) 8 ≡ 0
unfolding values
name_flag = values-same _ _ 8 refl

value_flag : (v : ℕ) → v < 128 → bit_and (bit_or 0 v) 128 ≡ 0
unfolding values
value_flag = values-same _ _ 128 refl

literal-0x80 : (v : ℕ) → v < 8 → bit_and (bit_or 0x20 v) 0x80 ≡ 0
unfolding values
literal-0x80 = values-same _ _ 8 refl

literal-0xc0 : (v : ℕ) → v < 8 → bit_and (bit_or 0x20 v) 0xc0 ≡ 0
unfolding values
literal-0xc0 = values-same _ _ 8 refl

literal-0xe0 : (v : ℕ) → v < 8 → bit_and (bit_or 0x20 v) 0xe0 ≡ 0x20
unfolding values
literal-0xe0 = values-same _ _ 8 refl

field_bytes : Field → Bytes
field_bytes (name, value) =
    append_int [] 3 (length name) 0x20 ++ (name ++ (append_int [] 7 (length value) 0 ++ value))

append_field-out : (out : Bytes) (field : Field) → append_field out field ≡ out ++ field_bytes field
unfolding append_field field_bytes
append_field-out out (name, value) =
    rw
      (
        append_int_out (append_int out 3 (length name) 0x20 ++ name) 7 (length value) 0,
        append_int_out out 3 (length name) 0x20,
      )
      (simp append_assoc)

-- Text whose lengths have 64 bits.
abbrev pub IsField : Field → Type 0
IsField (name, value) =
    (is_utf8 name ≡ true)
    × (is_utf8 value ≡ true)
    × (length name < 2 ^ 64)
    × (length value < 2 ^ 64)

read_literal-field :
    (field : Field) (rest : Bytes)
    → IsField field
    → read_literal (field_bytes field ++ rest) ≡ ok (field, rest)
unfolding read_literal field_bytes
read_literal-field (name, value) rest (tn, tv, hn, hv) =
    let whole : field_bytes (name, value) ++ rest
        ≡ append_int [] 3 (length name) 0x20
          ++ (name ++ (append_int [] 7 (length value) 0 ++ (value ++ rest))) =
      simp append_assoc in
    rw (
      whole,
      read_string-plain 3 4 (omega arith) (omega arith) name
          (append_int [] 7 (length value) 0 ++ (value ++ rest)) name_flag hn,
      read_string-plain 7 0 (omega arith) (omega arith) value rest value_flag hv,
      from_utf8_lossy_valid name tn,
      from_utf8_lossy_valid value tv,
    )

-- What the loop sees at the start of a field.
read_field-field :
    (field : Field) (rest : Bytes)
    → IsField field
    → (first : ℕ) × (s : Bytes) × (field_bytes field ++ rest ≡ first ∷ s)
      × (read_field first (first ∷ s) ≡ ok (field, rest))
unfolding read_field field_bytes
read_field-field (name, value) rest h =
    let (first, s, v, e, r, b, l) =
      append_int-Written 3 4 (omega arith) (omega arith) length_overflow (length name)
        ((name ++ (append_int [] 7 (length value) 0 ++ value)) ++ rest) h.2 in
    let whole : field_bytes (name, value) ++ rest ≡ first ∷ s =
      append_assoc (append_int [] 3 (length name) 0x20) _ rest ∙ e in
    let read : read_literal (first ∷ s) ≡ ok ((name, value), rest) =
      subst (λ x. read_literal x ≡ ok ((name, value), rest)) whole
        (read_literal-field (name, value) rest h) in
    (first, s, whole, rw (b, literal-0x80 v l, literal-0xc0 v l, literal-0xe0 v l) (rw b at read))

abbrev section_bytes : List Field → Bytes
section_bytes [] = []
section_bytes (field ∷ fields) = field_bytes field ++ section_bytes fields

append_fields-out :
    (fields : List Field) (out : Bytes) → append_fields out fields ≡ out ++ section_bytes fields
unfolding append_fields
append_fields-out [] out = sym (append-nil out)
append_fields-out (field ∷ fields) out =
    append_fields-out fields (append_field out field)
    ∙ ap (λ x. x ++ section_bytes fields) (append_field-out out field)
    ∙ append_assoc out (field_bytes field) (section_bytes fields)

-- A round of the loop drops a field from its front.
decode_fields-cons :
    (fuel first : ℕ) (s rest : Bytes) (field : Field) (fields : List Field)
    → read_field first (first ∷ s) ≡ ok (field, rest)
    → decode_fields (suc fuel) (first ∷ s) fields ≡ decode_fields fuel rest (fields ++ (field ∷ []))
unfolding decode_fields
decode_fields-cons fuel first s rest field fields e = rw (e, decode_fields) refl

field_some : (field : Field) → 1 ≤ length (field_bytes field)
unfolding field_bytes append_int
field_some (name, value) = ground arith

decode_fields-section :
    (todo : List Field) (fuel : ℕ) (fields : List Field)
    → All IsField todo
    → length (section_bytes todo) ≤ fuel
    → decode_fields fuel (section_bytes todo) fields ≡ ok (fields ++ todo)
decode_fields-section [] fuel fields h b = unfold decode_fields in ap ok (sym (append-nil fields))
decode_fields-section (field ∷ todo) zero fields h b =
    absurd (omega (arith, field_some field, length-append (field_bytes field) (section_bytes todo)))
decode_fields-section (field ∷ todo) (suc fuel) fields h b =
    let (first, s, e, r) = read_field-field field (section_bytes todo) h.0 in
    let shorter : length (section_bytes todo) ≤ fuel =
      omega (arith, field_some field, length-append (field_bytes field) (section_bytes todo)) in
    rw e (decode_fields-cons fuel first s (section_bytes todo) field fields r)
    ∙ decode_fields-section todo fuel (fields ++ (field ∷ [])) h.1 shorter
    ∙ ap ok (append_assoc fields (field ∷ []) todo)

zero_header : (s : Bytes) → (read_int 8 (0 ∷ s) ≡ ok (0, s)) × (read_int 7 (0 ∷ s) ≡ ok (0, s))
unfolding read_int read_prefixed
zero_header s = (refl, refl)

-- decode_field_section reads back every list of fields that encode_field_section wrote, if names and
-- values are UTF-8 text of fewer than 2 ^ 64 bytes.
pub decode_field_section-encode :
    (fields : List Field)
    → All IsField fields
    → decode_field_section (encode_field_section fields) ≡ ok fields
unfolding decode_field_section encode_field_section
decode_field_section-encode fields h =
    let whole = append_fields-out fields (0 ∷ 0 ∷ []) in
    rw (whole, (zero_header (0 ∷ section_bytes fields)).0, (zero_header (section_bytes fields)).1)
      (decode_fields-section fields (length (section_bytes fields)) [] h (omega arith))
