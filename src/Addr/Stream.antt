-- ===== src/Addr/Stream.antt =====
-- Reading an address from a stream, against decoding it from a buffer (src/proxy/mod.rs: read_from).
use quic_proxy.Common.{
  ℕ, zero, suc, ◌+◌, ◌-◌, ◌<◌, ◌≤◌, ◌≡◌, refl, Option, none, some, [], ◌∷◌, Result, ok, err, length,
  drop, get_or, arith,
}
use quic_proxy.Common.Bytes.{Bytes, from_be16}
use quic_proxy.Addr.{
  IpAddr, TargetAddr, AddrError, unexpected_eof, decode, decode_v4, decode_v6, decode_domain,
  read_from, read_typed, read_v4, read_v6, read_domain, read_u16,
}

-- What a stream of the bytes `buf` gives where `decode` answers `r` on them.
abbrev pub streamed :
    Bytes → Result AddrError (Option (TargetAddr × ℕ)) → Result AddrError (TargetAddr × Bytes)
streamed buf (ok (some (a, n))) = ok (a, drop n buf)
streamed buf (ok none) = err unexpected_eof
streamed buf (err e) = err e

module _ (parse_ip : Bytes → Option IpAddr) where
  read_u16-drop :
      (n : ℕ) (s : Bytes)
      → n + 2 ≤ length s
      → read_u16 parse_ip (drop n s)
        ≡ ok (from_be16 (get_or s n 0) (get_or s (suc n) 0), drop (suc (suc n)) s)
  read_u16-drop n [] h = absurd (omega arith)
  read_u16-drop zero (a ∷ []) h = absurd (omega arith)
  read_u16-drop zero (a ∷ b ∷ s) h = refl
  read_u16-drop (suc n) (a ∷ s) h = read_u16-drop n s (omega arith)

  read_u16_short :
      (n : ℕ) (s : Bytes) → length s < n + 2 → read_u16 parse_ip (drop n s) ≡ err unexpected_eof
  read_u16_short zero [] h = refl
  read_u16_short (suc n) [] h = refl
  read_u16_short zero (a ∷ []) h = refl
  read_u16_short zero (a ∷ b ∷ s) h = absurd (omega arith)
  read_u16_short (suc n) (a ∷ s) h = read_u16_short n s (omega arith)

  read_v4-streamed :
      (t : ℕ) (s : Bytes) → read_v4 parse_ip s ≡ streamed (t ∷ s) (decode_v4 parse_ip (t ∷ s))
  unfolding read_v4 decode_v4
  read_v4-streamed t s = ground (arith, read_u16-drop 4 s, read_u16_short 4 s)

  read_v6-streamed :
      (t : ℕ) (s : Bytes) → read_v6 parse_ip s ≡ streamed (t ∷ s) (decode_v6 parse_ip (t ∷ s))
  unfolding read_v6 decode_v6
  read_v6-streamed t s = ground (arith, read_u16-drop 16 s, read_u16_short 16 s)

  read_domain-streamed :
      (t : ℕ) (s : Bytes)
      → read_domain parse_ip s ≡ streamed (t ∷ s) (decode_domain parse_ip (t ∷ s))
  unfolding read_domain decode_domain
  read_domain-streamed t [] = refl
  read_domain-streamed t (len ∷ s) =
      let place : 2 + len + 2 - 2 - 2 ≡ len = omega arith in
      let after : 2 + len + 2 - 2 ≡ suc (suc len) = omega arith in
      let all : 2 + len + 2 ≡ suc (suc (suc (suc len))) = omega arith in
      ground (arith, place, after, all, read_u16-drop len s, read_u16_short len s)

  -- read_from on a stream does what decode does on all of the stream's bytes: the same address or
  -- the same error, the bytes left are those behind the encoding, and a stream that ends too early
  -- is an error where decode waits for more.
  pub read_from-eq-decode :
      (buf : Bytes) → read_from parse_ip buf ≡ streamed buf (decode parse_ip buf)
  unfolding read_from read_typed decode
  read_from-eq-decode [] = refl
  read_from-eq-decode (t ∷ s) =
      ground (arith, read_v4-streamed t s, read_v6-streamed t s, read_domain-streamed t s)
