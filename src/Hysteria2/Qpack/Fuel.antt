-- ===== src/Hysteria2/Qpack/Fuel.antt =====
-- Decoding a field section ends (src/proxy/outbound/hysteria2/qpack.rs: decode_field_section).
use quic_proxy.Common.{
  ℕ, zero, suc, ◌+◌, ◌-◌, ◌<◌, ◌≤◌, ◌≢◌, refl, subst, sym, Bool, true, false, not, ◌&&◌, Option,
  none, some, List, [], ◌∷◌, ◌++◌, Result, ok, err, ◌>>=◌, length, take, drop, ltb, ◌==◌,
  if◌then◌else◌, arith, length-drop, get_elem?, bit_and, bit_or, ◌*◌, ◌%◌, ◌^◌, get_or,
}
use quic_proxy.Common.Bytes.{Bytes}
use quic_proxy.Hysteria2.Qpack.{
  QpackError, out_of_fuel, integer_overflow, length_overflow, huffman_loop, take_symbol,
  check_padding, huffman_decode, read_rest, read_prefixed, read_int, read_raw, read_string, Field,
  read_indexed, read_static_name, read_literal, read_field, decode_fields, decode_field_section,
  qpack_static_table, static_row, bit_at, find_symbol, hpack_huffman, index_out_of_range,
  dynamic_table, nonzero_base,
}

-- An answer that is no lack of fuel.
abbrev Answers : {A : Type 0} → Result QpackError A → Type 0
Answers (ok a) = Unit
Answers (err e) = e ≢ out_of_fuel

-- And then fewer than `n` bytes are left.
abbrev Within : {A : Type 0} → ℕ → Result QpackError (A × Bytes) → Type 0
Within n (ok (a, s)) = length s < n
Within n (err e) = e ≢ out_of_fuel

Within-then :
    {A B : Type 0} (n : ℕ) (r : Result QpackError (A × Bytes))
    (f : A × Bytes → Result QpackError (B × Bytes))
    → Within n r
    → ((a : A) (s : Bytes) → length s < n → Within n (f (a, s)))
    → Within n (r >>= f)
Within-then n (ok (a, s)) f w h = h a s w
Within-then n (err e) f w h = w

Within-le :
    {A : Type 0} (m n : ℕ) (r : Result QpackError (A × Bytes)) → m ≤ n → Within m r → Within n r
Within-le m n (ok (a, s)) h w = omega arith
Within-le m n (err e) h w = w

Answers-then :
    {A B : Type 0} (n : ℕ) (r : Result QpackError A) (f : A → Result QpackError (B × Bytes))
    → Answers r
    → ((a : A) → Within n (f a))
    → Within n (r >>= f)
Answers-then n (ok a) f w h = h a
Answers-then n (err e) f w h = w

if-Within :
    {A : Type 0} (n : ℕ) (c : Bool) (x y : Result QpackError (A × Bytes))
    → Within n x
    → Within n y
    → Within n (if c then x else y)
if-Within n true x y h k = h
if-Within n false x y h k = k

if-Answers :
    {A : Type 0} (c : Bool) (x y : Result QpackError A)
    → Answers x
    → Answers y
    → Answers (if c then x else y)
if-Answers true x y h k = h
if-Answers false x y h k = k

read_rest-Within :
    (o : QpackError) (value shift : ℕ) (s : Bytes)
    → o ≢ out_of_fuel
    → Within (suc (length s)) (read_rest o value shift s)
unfolding read_rest
read_rest-Within o value shift [] h = λ p. cc
read_rest-Within o value shift (b ∷ s) h =
    let ih : (v t : ℕ) → Within (suc (suc (length s))) (read_rest o v t s) = λ v t.
      Within-le (suc (length s)) (suc (suc (length s))) (read_rest o v t s) (omega arith)
        (read_rest-Within o v t s h) in
    if-Within _ (bit_and b 0x80 == 0) _ _ (omega arith)
      (if-Within _ (ltb 63 (shift + 7)) _ _ h (ih _ _))

read_prefixed-Within :
    (o : QpackError) (p first : ℕ) (s : Bytes)
    → o ≢ out_of_fuel
    → Within (suc (length s)) (read_prefixed o p first s)
unfolding read_prefixed
read_prefixed-Within o p first s h =
    let max = 2 ^ p - 1 in
    if-Within _ (ltb (bit_and first max) max) _ _ (omega arith)
      (read_rest-Within o (bit_and first max) 0 s h)

read_int-Within : (p : ℕ) (s : Bytes) → Within (length s) (read_int p s)
unfolding read_int
read_int-Within p [] = λ e. cc
read_int-Within p (first ∷ s) = read_prefixed-Within integer_overflow p first s (λ e. cc)

take_symbol-Answers :
    (go : ℕ → ℕ → Bytes → Result QpackError (Bytes × ℕ)) (o : Option ℕ) (acc len : ℕ) (out : Bytes)
    → ((a l : ℕ) (out : Bytes) → Answers (go a l out))
    → Answers (take_symbol go o acc len out)
take_symbol-Answers go none acc len out h = if-Answers (len == 30) _ _ (λ e. cc) (h acc len out)
take_symbol-Answers go (some sym) acc len out h = if-Answers (sym == 256) _ _ (λ e. cc) (h 0 0 _)

huffman_loop-Answers :
    (left : ℕ) (input : Bytes) (pos acc len : ℕ) (out : Bytes)
    → Answers (huffman_loop left input pos acc len out)
unfolding huffman_loop
huffman_loop-Answers zero input pos acc len out = tt
huffman_loop-Answers (suc left) input pos acc len out =
    let acc' = bit_or (acc * 2 % 2 ^ 32) (bit_at input pos) in
    take_symbol-Answers (huffman_loop left input (pos + 1))
      (find_symbol 0 hpack_huffman acc' (len + 1)) acc' (len + 1) out
      (λ a l out. huffman_loop-Answers left input (pos + 1) a l out)

check_padding-Answers :
    (input : Bytes) (pos : ℕ) (out : Bytes) → Answers (check_padding input pos out)
unfolding check_padding
check_padding-Answers input pos out =
    let mask = 2 ^ (length input * 8 - pos) - 1 in
    if-Answers
      (ltb 0 (length input * 8 - pos)
        && not (bit_and (get_or input (length input - 1) 0) mask == mask))
      _ _ (λ e. cc) tt

huffman_decode-Answers : (input : Bytes) → Answers (huffman_decode input)
unfolding huffman_decode
huffman_decode-Answers input =
    go (huffman_loop (length input * 8) input 0 0 0 []) (huffman_loop-Answers _ input 0 0 0 [])
  where
    go :
        (r : Result QpackError (Bytes × ℕ))
        → Answers r
        → Answers (r >>= λ (out, stream_pos). check_padding input stream_pos out)
    go (ok (out, pos)) h = check_padding-Answers input pos out
    go (err e) h = h

read_raw-Within :
    (n : ℕ) (huffman : Bool) (len : ℕ) (s : Bytes)
    → length s < n
    → Within n (read_raw huffman (len, s))
unfolding read_raw
read_raw-Within n huffman len s h =
    let left : length (drop len s) < n = omega (arith, length-drop len s) in
    if-Within n (ltb (length s) len) _ _ (λ e. cc)
      (if-Within n huffman _ _
        (Answers-then n (huffman_decode (take len s)) (λ out. ok (out, drop len s))
          (huffman_decode-Answers (take len s)) (λ out. left))
        left)

read_string-Within : (w : ℕ) (s : Bytes) → Within (length s) (read_string w s)
unfolding read_string
read_string-Within w [] = λ e. cc
read_string-Within w (first ∷ s) =
    Within-then (suc (length s)) (read_prefixed length_overflow (w - 1) first s)
      (read_raw (not (bit_and first (2 ^ (w - 1)) == 0)))
      (read_prefixed-Within length_overflow (w - 1) first s (λ e. cc))
      (λ len s' h. read_raw-Within (suc (length s)) _ len s' h)

static_row-Answers : (index : ℕ) → Answers (static_row index)
static_row-Answers index = go (get_elem? qpack_static_table index)
  where
    go :
        (o : Option Field)
        → Answers {A = Field} (elim o [ none ↦ err index_out_of_range | some row ↦ ok row ])
    go none = λ e. cc
    go (some row) = tt

read_indexed-Within : (s : Bytes) → Within (length s) (read_indexed s)
unfolding read_indexed
read_indexed-Within s = Within-then (length s) (read_int 6 s) _ (read_int-Within 6 s) (λ index s' h.
    Answers-then (length s) (static_row index) (λ row. ok (row, s')) (static_row-Answers index)
      (λ row. h))

read_static_name-Within : (s : Bytes) → Within (length s) (read_static_name s)
unfolding read_static_name
read_static_name-Within s =
    Within-then (length s) (read_int 4 s) _ (read_int-Within 4 s) (λ index s' h.
      Answers-then (length s) (static_row index) _ (static_row-Answers index) (λ row.
        Within-then (length s) (read_string 8 s') _
          (Within-le (length s') (length s) (read_string 8 s') (omega arith)
            (read_string-Within 8 s'))
          (λ value s'' h'. h')))

read_literal-Within : (s : Bytes) → Within (length s) (read_literal s)
unfolding read_literal
read_literal-Within s =
    Within-then (length s) (read_string 4 s) _ (read_string-Within 4 s) (λ name s' h.
      Within-then (length s) (read_string 8 s') _
        (Within-le (length s') (length s) (read_string 8 s') (omega arith)
          (read_string-Within 8 s'))
        (λ value s'' h'. h'))

read_field-Within : (first : ℕ) (s : Bytes) → Within (length s) (read_field first s)
unfolding read_field
read_field-Within first s =
    if-Within _ (not (bit_and first 0x80 == 0)) _ _
      (if-Within _ (bit_and first 0x40 == 0) _ _ (λ e. cc) (read_indexed-Within s))
      (if-Within _ (bit_and first 0xc0 == 0x40) _ _ (read_static_name-Within s)
        (if-Within _ (bit_and first 0xe0 == 0x20) _ _ (read_literal-Within s) (λ e. cc)))

decode_fields-Answers :
    (fuel : ℕ) (s : Bytes) (fields : List Field)
    → length s ≤ fuel
    → Answers (decode_fields fuel s fields)
unfolding decode_fields
decode_fields-Answers zero [] fields h = tt
decode_fields-Answers (suc fuel) [] fields h = tt
decode_fields-Answers zero (first ∷ s) fields h = absurd (omega arith)
decode_fields-Answers (suc fuel) (first ∷ s) fields h =
    go (read_field first (first ∷ s)) (read_field-Within first (first ∷ s))
      (λ field s' l. decode_fields-Answers fuel s' (fields ++ (field ∷ [])) (omega arith))
  where
    go :
        (r : Result QpackError (Field × Bytes))
        → Within (suc (length s)) r
        → ((field : Field) (s' : Bytes)
            → length s' < suc (length s)
            → Answers (decode_fields fuel s' (fields ++ (field ∷ []))))
        → Answers (r >>= λ (field, s'). decode_fields fuel s' (fields ++ (field ∷ [])))
    go (ok (field, s')) w k = k field s' w
    go (err e) w k = w

decode_rest :
    (r : Result QpackError (ℕ × Bytes)) (n : ℕ) (x : QpackError)
    (f : Bytes → Result QpackError (List Field))
    → Within n r
    → x ≢ out_of_fuel
    → ((s : Bytes) → Answers (f s))
    → Answers (r >>= λ (v, s). if not (v == 0) then err x else f s)
decode_rest (ok (v, s)) n x f w h k = if-Answers (not (v == 0)) _ _ h (k s)
decode_rest (err e) n x f w h k = w

-- Whatever the bytes of a block are, decode_field_section ends with fields or an error of the
-- program: its loop never lacks fuel.
pub decode_field_section-ne-out_of_fuel :
    (block : Bytes) → decode_field_section block ≢ err out_of_fuel
unfolding decode_field_section
decode_field_section-ne-out_of_fuel block e =
    let answers : Answers (decode_field_section block) =
      decode_rest (read_int 8 block) _ dynamic_table _ (read_int-Within 8 block) (λ e. cc)
        (λ s.
          decode_rest (read_int 7 s) _ nonzero_base (λ s'. decode_fields (length s') s' [])
            (read_int-Within 7 s) (λ e. cc)
            (λ s'. decode_fields-Answers (length s') s' [] (omega arith))) in
    (subst Answers e answers) refl
