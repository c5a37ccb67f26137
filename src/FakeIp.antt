-- ===== src/FakeIp.antt =====
-- Fake addresses for names (src/dns/mod.rs: FakeIPDNS). An address is its number, and the cache maps
-- keys to text. A key is what `format!` makes its text of: the three kinds of text never meet, since
-- one ends in ":A" or ":AAAA", one begins with "ptr:" and ends in an address, and those of the
-- cursors are fixed; nor do the texts of the two kinds of addresses. How an address and a number are
-- written as text are parameters.
pub mod Reverse
pub mod Resolve
pub mod Tests
pub mod Runs
use quic_proxy.Common.{
  ℕ, ◌+◌, ◌-◌, ◌%◌, ◌^◌, ◌≡◌, ◌↔◌, refl, Bool, true, false, ◌&&◌, Option, none, some, [], Result,
  ok, err, ltb, if◌then◌else◌, is_empty, arith,
}
use quic_proxy.Common.Bytes.{Bytes}
use quic_proxy.Common.Assoc.{Assoc, Eq, bytes_beq, bytes_beq_iff, lookup, insert}

-- `TYPE::A` and `TYPE::AAAA`
pub data QType : Type 0 where
  qtype_a qtype_aaaa : QType

pub data CacheKey : Type 0 where
  name_key ptr_key : QType → Bytes → CacheKey
  cursor_key : QType → CacheKey

abbrev pub qtype_beq : QType → QType → Bool
qtype_beq qtype_a qtype_a = true
qtype_beq qtype_aaaa qtype_aaaa = true
qtype_beq _ _ = false

qtype_beq_iff : (a b : QType) → (qtype_beq a b ≡ true) ↔ (a ≡ b)
qtype_beq_iff qtype_a qtype_a = ground arith
qtype_beq_iff qtype_aaaa qtype_aaaa = ground arith
qtype_beq_iff _ _ = ground arith

abbrev pub key_beq : CacheKey → CacheKey → Bool
key_beq (name_key p a) (name_key q b) = qtype_beq p q && bytes_beq a b
key_beq (ptr_key p a) (ptr_key q b) = qtype_beq p q && bytes_beq a b
key_beq (cursor_key p) (cursor_key q) = qtype_beq p q
key_beq _ _ = false

pub key_beq_iff : (a b : CacheKey) → (key_beq a b ≡ true) ↔ (a ≡ b)
key_beq_iff (name_key p a) (name_key q b) = ground (arith, qtype_beq_iff p q, bytes_beq_iff a b)
key_beq_iff (ptr_key p a) (ptr_key q b) = ground (arith, qtype_beq_iff p q, bytes_beq_iff a b)
key_beq_iff (cursor_key p) (cursor_key q) = ground (arith, qtype_beq_iff p q)
key_beq_iff _ _ = ground arith

instance abbrev pub key_eq : Eq CacheKey
key_eq = record { beq = key_beq; beq_iff = key_beq_iff }

pub record FakeIpDns : Type 0 where
  pub ipv4_base : ℕ
  pub ipv4_prefix : ℕ
  pub ipv6_base : ℕ
  pub ipv6_prefix : ℕ
  pub cache : Assoc CacheKey Bytes
  pub ipv4_cursor : ℕ
  pub ipv6_cursor : ℕ

-- Which calls of the database work during a call.
pub record Works : Type 0 where
  pub get_name : Bool
  pub set_cursor : Bool
  pub set_name : Bool
  pub set_ptr : Bool

pub data FakeIpError : Type 0 where
  name_not_stored ptr_not_stored parse_failed : FakeIpError

unfoldable pub get_fake_ipv4 : ℕ → FakeIpDns → ℕ
get_fake_ipv4 cursor s =
    let offset = cursor % 2 ^ (32 - s.ipv4_prefix) in (s.ipv4_base + offset) % 2 ^ 32

unfoldable pub get_fake_ipv6 : ℕ → FakeIpDns → ℕ
get_fake_ipv6 cursor s =
    if ltb 64 s.ipv6_prefix
    then (s.ipv6_base + cursor % 2 ^ (128 - s.ipv6_prefix)) % 2 ^ 128
    else (s.ipv6_base + cursor) % 2 ^ 128

abbrev pub put : Bool → CacheKey → Bytes → FakeIpDns → FakeIpDns
put works key value s = if works then record s { cache = insert key value s.cache } else s

-- The text of an address is `show_ip`, of a cursor `show_number`.
module _ (show_ip : QType → ℕ → Bytes) (show_number : ℕ → Bytes) where
  -- next_ipv4_cursor or next_ipv6_cursor, and the address for the cursor
  unfoldable pub next_address : QType → Works → FakeIpDns → FakeIpDns × Bytes
  next_address qtype_a w s =
      let after = (s.ipv4_cursor + 1) % 2 ^ 64 in
      (
        put w.set_cursor (cursor_key qtype_a) (show_number after)
            (record s { ipv4_cursor = after }),
        show_ip qtype_a (get_fake_ipv4 s.ipv4_cursor s),
      )
  next_address qtype_aaaa w s =
      let after = (s.ipv6_cursor + 1) % 2 ^ 64 in
      (
        put w.set_cursor (cursor_key qtype_aaaa) (show_number after)
            (record s { ipv6_cursor = after }),
        show_ip qtype_aaaa (get_fake_ipv6 s.ipv6_cursor s),
      )

  -- The two entries of a new address.
  unfoldable pub store_address :
      QType → Works → Bytes → FakeIpDns × Bytes → FakeIpDns × Result FakeIpError Bytes
  store_address q w domain (s, ip_str) =
      let named = put w.set_name (name_key q domain) ip_str s in
      if w.set_name
      then if w.set_ptr
        then (put w.set_ptr (ptr_key q ip_str) domain named, ok ip_str)
        else (named, err ptr_not_stored)
      else (s, err name_not_stored)

  unfoldable pub resolve_found :
      QType → Works → Bytes → Option Bytes → FakeIpDns → FakeIpDns × Result FakeIpError Bytes
  resolve_found q w domain (some ip_str) s = (s, ok ip_str)
  resolve_found q w domain none s = store_address q w domain (next_address q w s)

  unfoldable pub resolve_internal :
      QType → Works → Bytes → FakeIpDns → FakeIpDns × Result FakeIpError Bytes
  resolve_internal q w domain s =
      let found = if w.get_name then lookup (name_key q domain) s.cache else none in
      resolve_found q w domain found s

-- The text of an address is read again, with `str::trim` and `from_str` as parameters.
unfoldable pub read_ip :
    (Bytes → Bytes) → (Bytes → Option ℕ) → Result FakeIpError Bytes → Result FakeIpError ℕ
read_ip trim parse_ip (err e) = err e
read_ip trim parse_ip (ok res) = elim (parse_ip (trim res)) [
  | none ↦ err parse_failed
  | some ip ↦ ok ip
]

module _ (show_ip : QType → ℕ → Bytes) (show_number : ℕ → Bytes) (trim : Bytes → Bytes)
    (parse_ip : Bytes → Option ℕ) where
  unfoldable pub resolve_v4 : Works → Bytes → FakeIpDns → FakeIpDns × Result FakeIpError ℕ
  resolve_v4 w domain s =
      let (t, res) = resolve_internal show_ip show_number qtype_a w domain s in
      (t, read_ip trim parse_ip res)

  unfoldable resolve_v6 : Works → Bytes → FakeIpDns → FakeIpDns × Result FakeIpError ℕ
  resolve_v6 w domain s =
      let (t, res) = resolve_internal show_ip show_number qtype_aaaa w domain s in
      (t, read_ip trim parse_ip res)

-- `str::trim` is a parameter; the table is readable or not.
unfoldable pub reverse_lookup : (Bytes → Bytes) → Bool → QType → Bytes → FakeIpDns → Option Bytes
reverse_lookup trim works q ip_str s =
    elim (if works then lookup (ptr_key q ip_str) s.cache else none) [
      | none ↦ none
      | some domain ↦ if is_empty (trim domain) then none else some (trim domain)
    ]
