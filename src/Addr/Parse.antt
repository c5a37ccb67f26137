-- ===== src/Addr/Parse.antt =====
-- Addresses from text (src/proxy/mod.rs: TargetAddr::from_str).
use quic_proxy.Common.{
  ℕ, suc, ◌+◌, ◌≤◌, ◌≡◌, ◌≢◌, refl, false, Option, none, some, [], ◌∷◌, ◌++◌, ok, length, take,
  drop, ltb, arith, take-append, drop-append, drop-drop, le→ltb,
}
use quic_proxy.Common.Bytes.{Bytes, All}
use quic_proxy.Addr.{SocketAddr, domain, from_str, parse_u16, rfind_colon}

rfind_colon-none : (s : Bytes) → All (λ c. c ≢ b':') s → rfind_colon s ≡ none
unfolding rfind_colon
rfind_colon-none [] h = refl
rfind_colon-none (c ∷ s) h = rw (rfind_colon, rfind_colon-none s h.1) (ground (arith, h.0))

rfind_colon-last :
    (front s : Bytes)
    → All (λ c. c ≢ b':') s
    → rfind_colon (front ++ (b':' ∷ s)) ≡ some (length front)
unfolding rfind_colon
rfind_colon-last [] s h = rw (rfind_colon, rfind_colon-none s h) refl
rfind_colon-last (c ∷ front) s h =
    let next : length front + 1 ≡ suc (length front) = omega arith in
    rw (rfind_colon, rfind_colon-last front s h, next) refl

-- Text that is no socket address is read as a name and a port, cut at the last colon, if the name
-- has 1 to 255 bytes and the text behind the colon is a port; the name may have colons itself.
pub from_str-domain :
    (parse_socket : Bytes → Option SocketAddr) (name port_str : Bytes) (p : ℕ)
    → parse_socket (name ++ (b':' ∷ port_str)) ≡ none
    → All (λ c. c ≢ b':') port_str
    → parse_u16 port_str ≡ some p
    → 1 ≤ length name
    → length name ≤ 255
    → from_str parse_socket (name ++ (b':' ∷ port_str)) ≡ ok (domain name p)
unfolding from_str
from_str-domain parse_socket [] port_str p hs hc hp h1 h2 = absurd (omega arith)
from_str-domain parse_socket (b ∷ name) port_str p hs hc hp h1 h2 =
    let front = b ∷ name in
    let kept : take (length name) (name ++ (b':' ∷ port_str)) ≡ name =
      take-append (length name) name (b':' ∷ port_str) refl in
    let short : ltb 255 (length front) ≡ false = le→ltb 255 (length front) h2 in
    let cut : drop (length front + 1) (front ++ (b':' ∷ port_str)) ≡ port_str =
      rw
        (
          ← drop-drop 1 (length front) (front ++ (b':' ∷ port_str)),
          drop-append (length front) front (b':' ∷ port_str) refl,
        )
        refl in
    rw (from_str, hs, rfind_colon-last front port_str hc, cut, hp, kept, short)
