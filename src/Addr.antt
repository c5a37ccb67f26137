-- ===== src/Addr.antt =====
-- Target addresses and their SOCKS5 / Trojan encoding (src/proxy/mod.rs: TargetAddr).
-- An IP address is its octets. Text is its UTF-8 bytes. `str::parse::<IpAddr>` is the parameter
-- `parse_ip`, so that what is proved holds for every way to read IP literals.
mod Text
pub mod Decode
pub mod Stream
pub mod Parse
pub mod Tests
use quic_proxy.Common.{
  ℕ, ◌+◌, ◌-◌, Bool, true, false, Option, none, some, [], ◌∷◌, ◌++◌, Result, ok, err, length, take,
  drop, get_or, ltb, leb, ◌==◌, if◌then◌else◌, is_empty, ◌>>=◌,
}
use quic_proxy.Common.Bytes.{Bytes, as_u8, be16, from_be16}
use quic_proxy.Common.Utf8.{is_utf8}
unfoldable pub use Text.{parse_u16, rfind_colon}

-- std::net::SocketAddr: octets and port, for IPv6 also flow label and scope id.
pub data SocketAddr : Type 0 where
  v4 : Bytes → ℕ → SocketAddr
  v6 : Bytes → ℕ → ℕ → ℕ → SocketAddr

pub data IpAddr : Type 0 where
  ip4 ip6 : Bytes → IpAddr

-- `SocketAddr::new`
abbrev pub socket_addr : IpAddr → ℕ → SocketAddr
socket_addr (ip4 o) port = v4 o port
socket_addr (ip6 o) port = v6 o port 0 0

pub data TargetAddr : Type 0 where
  ip : SocketAddr → TargetAddr
  domain : Bytes → ℕ → TargetAddr

pub data AddrError : Type 0 where
  invalid_atyp : ℕ → AddrError
  invalid_domain unexpected_eof : AddrError
  invalid_format invalid_port empty_hostname long_hostname : AddrError

unfoldable pub port : TargetAddr → ℕ
port (ip (v4 o p)) = p
port (ip (v6 o p flow scope)) = p
port (domain name p) = p

unfoldable pub encoded_len : TargetAddr → ℕ
encoded_len (ip (v4 o p)) = 1 + 4 + 2
encoded_len (ip (v6 o p flow scope)) = 1 + 16 + 2
encoded_len (domain name p) = 1 + 1 + length name + 2

unfoldable pub write_to : TargetAddr → Bytes → Bytes
write_to (ip (v4 o p)) packet = packet ++ (1 ∷ (o ++ be16 p))
write_to (ip (v6 o p flow scope)) packet = packet ++ (4 ∷ (o ++ be16 p))
write_to (domain name p) packet = packet ++ (3 ∷ as_u8 (length name) ∷ (name ++ be16 p))

unfoldable pub to_bytes : TargetAddr → Bytes
unfolding write_to
to_bytes a = write_to a []

-- `port_at` of decode
abbrev pub port_at : Bytes → ℕ → ℕ
port_at buf at = from_be16 (get_or buf at 0) (get_or buf (at + 1) 0)

module _ (parse_ip : Bytes → Option IpAddr) where
  -- `match domain.parse::<IpAddr>() { Ok(ip) => …, Err(_) => … }`
  unfoldable pub name_or_ip : Bytes → ℕ → TargetAddr
  name_or_ip name p = elim (parse_ip name) [ some a ↦ ip (socket_addr a p) | none ↦ domain name p ]

  unfoldable pub decode_v4 : Bytes → Result AddrError (Option (TargetAddr × ℕ))
  decode_v4 buf =
      if ltb (length buf) 7
      then ok none
      else ok (some (ip (v4 (take 4 (drop 1 buf)) (port_at buf 5)), 7))

  unfoldable pub decode_v6 : Bytes → Result AddrError (Option (TargetAddr × ℕ))
  decode_v6 buf =
      if ltb (length buf) 19
      then ok none
      else ok (some (ip (v6 (take 16 (drop 1 buf)) (port_at buf 17) 0 0), 19))

  unfoldable pub decode_domain : Bytes → Result AddrError (Option (TargetAddr × ℕ))
  decode_domain (atyp ∷ len ∷ rest) =
      let buf = atyp ∷ len ∷ rest in
      let end = 2 + len + 2 in
      if ltb (length buf) end
      then ok none
      else let name = take (end - 2 - 2) (drop 2 buf) in
        if is_utf8 name
        then ok (some (name_or_ip name (port_at buf (end - 2)), end))
        else err invalid_domain
  decode_domain _ = ok none

  unfoldable pub decode : Bytes → Result AddrError (Option (TargetAddr × ℕ))
  decode [] = ok none
  decode (atyp ∷ rest) =
      let buf = atyp ∷ rest in
      if atyp == 1
      then decode_v4 buf
      else if atyp == 3
      then decode_domain buf
      else if atyp == 4
      then decode_v6 buf
      else err (invalid_atyp atyp)

  -- The stream is the bytes that it still has to give; a read past them is an error.
  abbrev pub read_u8 : Bytes → Result AddrError (ℕ × Bytes)
  read_u8 [] = err unexpected_eof
  read_u8 (b ∷ s) = ok (b, s)

  abbrev pub read_exact : ℕ → Bytes → Result AddrError (Bytes × Bytes)
  read_exact n s = if ltb (length s) n then err unexpected_eof else ok (take n s, drop n s)

  abbrev pub read_u16 : Bytes → Result AddrError (ℕ × Bytes)
  read_u16 (a ∷ b ∷ s) = ok (from_be16 a b, s)
  read_u16 _ = err unexpected_eof

  unfoldable pub read_v4 : Bytes → Result AddrError (TargetAddr × Bytes)
  read_v4 s = do (o, s1) ← read_exact 4 s; (p, s2) ← read_u16 s1; ok (ip (v4 o p), s2)

  unfoldable pub read_v6 : Bytes → Result AddrError (TargetAddr × Bytes)
  read_v6 s = do (o, s1) ← read_exact 16 s; (p, s2) ← read_u16 s1; ok (ip (v6 o p 0 0), s2)

  unfoldable pub read_domain : Bytes → Result AddrError (TargetAddr × Bytes)
  read_domain s = do
    (len, s1) ← read_u8 s
    (name, s2) ← read_exact len s1
    (p, s3) ← read_u16 s2
    if is_utf8 name then ok (name_or_ip name p, s3) else err invalid_domain

  unfoldable pub read_typed : ℕ → Bytes → Result AddrError (TargetAddr × Bytes)
  read_typed atyp s =
      if atyp == 1
      then read_v4 s
      else if atyp == 3
      then read_domain s
      else if atyp == 4
      then read_v6 s
      else err (invalid_atyp atyp)

  unfoldable pub read_from : Bytes → Result AddrError (TargetAddr × Bytes)
  read_from stream = do (atyp, s) ← read_u8 stream; read_typed atyp s

-- `SocketAddr::from_str` of the standard library is the parameter `parse_socket`.
module _ (parse_socket : Bytes → Option SocketAddr) where
  unfoldable pub from_str : Bytes → Result AddrError TargetAddr
  unfolding parse_u16 rfind_colon
  from_str s = elim (parse_socket s) [
    | some a ↦ ok (ip a)
    | none ↦ elim (rfind_colon s) [
      | none ↦ err invalid_format
      | some pos ↦
          let host = take pos s in
          elim (parse_u16 (drop (pos + 1) s)) [
            | none ↦ err invalid_port
            | some p ↦
                if is_empty host
                then err empty_hostname
                else if ltb 255 (length host)
                then err long_hostname
                else ok (domain host p)
          ]
    ]
  ]
