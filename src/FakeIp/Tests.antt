-- ===== src/FakeIp/Tests.antt =====
-- Runs of the fake addresses on a network of four addresses (src/dns/mod.rs: FakeIPDNS).
use quic_proxy.Common.{ℕ, ◌≡◌, refl, true, Option, none, some, List, [], ◌∷◌, ok, arith}
use quic_proxy.Common.Bytes.{Bytes}
use quic_proxy.Common.Assoc.{lookup, insert}
use quic_proxy.FakeIp.{
  QType, qtype_a, qtype_aaaa, FakeIpDns, Works, get_fake_ipv4, next_address, store_address,
  resolve_found, resolve_internal, read_ip, resolve_v4, reverse_lookup,
}
use quic_proxy.FakeIp.Runs.{Query, run_queries, reverse_lookup-resolve_v4}

abbrev show_ip : QType → ℕ → Bytes
show_ip q n = n ∷ []

abbrev show_number : ℕ → Bytes
show_number n = n ∷ []

abbrev parse_ip : Bytes → Option ℕ
parse_ip [] = none
parse_ip (n ∷ _) = some n

abbrev trim : Bytes → Bytes
trim text = text

abbrev all_work : Works
all_work = record { get_name = true; set_cursor = true; set_name = true; set_ptr = true }

abbrev new_dns : FakeIpDns
new_dns = record {
  ipv4_base = 40;
  ipv4_prefix = 30;
  ipv6_base = 80;
  ipv6_prefix = 126;
  cache = [];
  ipv4_cursor = 0;
  ipv6_cursor = 0;
}

abbrev query : QType → ℕ → Query
query q n = record { qtype = q; domain = n ∷ []; works = all_work }

-- A first name has the first address.
abbrev before : List Query
before = query qtype_a 9 ∷ []

abbrev later : List Query
later = query qtype_aaaa 7 ∷ query qtype_a 8 ∷ []

reverse_lookup-resolve_v4_example :
    reverse_lookup trim true qtype_a (show_ip qtype_a 41) (
      run_queries show_ip show_number later
        (resolve_v4 show_ip show_number trim parse_ip all_work
          (7 ∷ [])
          (run_queries show_ip show_number before new_dns)).0)
    ≡ some (7 ∷ [])
unfolding run_queries resolve_v4 resolve_internal resolve_found next_address store_address
    get_fake_ipv4 read_ip lookup insert
reverse_lookup-resolve_v4_example =
    reverse_lookup-resolve_v4 show_ip show_number 40 30 parse_ip (λ ip l. refl) (omega arith) trim
      (λ a. refl) before later all_work (7 ∷ []) 41 new_dns refl refl refl refl ((λ e. refl), tt)
      ((λ e. refl), ((λ e. refl), tt)) (λ e. refl) (omega arith) refl refl refl

-- After the fourth address the first one is given out again, and the first name keeps it.
reused :
    (resolve_v4 show_ip show_number trim parse_ip all_work (1 ∷ []) (
      run_queries show_ip show_number
        (query qtype_a 1
          ∷ query qtype_a 2
          ∷ query qtype_a 3
          ∷ query qtype_a 4
          ∷ query qtype_a 5
          ∷ [])
        new_dns)).1
    ≡ ok 40
unfolding run_queries resolve_v4 resolve_internal resolve_found next_address store_address
    get_fake_ipv4 read_ip lookup insert
reused = refl

reused_name :
    reverse_lookup trim true qtype_a (40 ∷ []) (
      run_queries show_ip show_number
        (query qtype_a 1
          ∷ query qtype_a 2
          ∷ query qtype_a 3
          ∷ query qtype_a 4
          ∷ query qtype_a 5
          ∷ [])
        new_dns)
    ≡ some (5 ∷ [])
unfolding run_queries resolve_internal resolve_found next_address store_address get_fake_ipv4
    reverse_lookup lookup insert
reused_name = refl
