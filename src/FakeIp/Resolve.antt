-- ===== src/FakeIp/Resolve.antt =====
-- What a call of resolve_internal does to the invariant (src/dns/mod.rs: FakeIPDNS).
use quic_proxy.Common.{
  ℕ, ◌+◌, ◌-◌, ◌^◌, ◌<◌, ◌≤◌, ◌≡◌, ◌≢◌, sym, ◌∙◌, ap, subst, true, Option, none, some,
  if◌then◌else◌, arith, if_both, Bool-cases, inl, inr,
}
use quic_proxy.Common.Bytes.{Bytes}
use quic_proxy.Common.Assoc.{lookup, insert, lookup-insert_self}
use quic_proxy.FakeIp.{
  QType, qtype_a, qtype_aaaa, name_key, ptr_key, key_eq, FakeIpDns, Works, next_address,
  store_address, resolve_found, resolve_internal,
}
use quic_proxy.FakeIp.Reverse.{
  fake, IsReversible, Resolved, fake_lem, Same-IsReversible, Same-Kept, entries-IsReversible,
  entries-Kept, next_address-Same, store_address-Same, next_text, next_cursor,
}

module _ (show_ip : QType → ℕ → Bytes) (base prefix : ℕ) where
  module _ (show_number : ℕ → Bytes) (w : Works)
      (stored : w.set_name ≡ true → w.set_ptr ≡ true) where
    store_address-Resolved :
        (domain text : Bytes) (n : ℕ) (s : FakeIpDns)
        → IsReversible show_ip base prefix s
        → n < s.ipv4_cursor
        → text ≡ show_ip qtype_a (fake base prefix n)
        → ((d : Bytes) → lookup (ptr_key qtype_a text) s.cache ≢ some d)
        → Resolved show_ip base prefix qtype_a domain s
            (store_address show_ip show_number qtype_a w domain (s, text))
    unfolding store_address
    store_address-Resolved domain text n s h l is fresh = elim (Bool-cases w.set_name) [
      | inr f ↦ rw (store_address, f) (h, (λ d u q. q), λ u a e. cc)
      | inl y ↦
          rw (store_address, y, stored y)
            (
              entries-IsReversible show_ip base prefix domain text n s h l is fresh,
              entries-Kept show_ip base prefix domain text s fresh,
              λ u a e.
                  let it : text ≡ u = cc in
                  let named = insert (name_key qtype_a domain) text s.cache in
                  subst
                    (λ x.
                      lookup (ptr_key qtype_a x) (insert (ptr_key qtype_a text) domain named)
                      ≡ some domain)
                    it (lookup-insert_self (ptr_key qtype_a text) domain named),
            )
    ]

    module _ (parse_ip : Bytes → Option ℕ)
        (parsed : (ip : ℕ) → ip < 2 ^ 32 → parse_ip (show_ip qtype_a ip) ≡ some ip)
        (fits : base + 2 ^ (32 - prefix) ≤ 2 ^ 32) where
      -- The next address has no name yet.
      next_fresh :
          (s : FakeIpDns)
          → IsReversible show_ip base prefix s
          → s.ipv4_cursor < 2 ^ (32 - prefix)
          → (d : Bytes)
          → lookup (ptr_key qtype_a (show_ip qtype_a (fake base prefix s.ipv4_cursor))) s.cache
            ≢ some d
      next_fresh s h room d q =
          let cursor = s.ipv4_cursor in
          let (n, l, same) = h.given d (show_ip qtype_a (fake base prefix cursor)) q in
          let one = parsed (fake base prefix cursor) (omega arith) in
          let two = parsed (fake base prefix n) (omega arith) in
          let again : parse_ip (show_ip qtype_a (fake base prefix cursor))
              ≡ some (fake base prefix n) =
            rw same two in
          let equal : fake base prefix cursor ≡ fake base prefix n = cc in
          let it = fake_lem base (2 ^ (32 - prefix)) cursor n fits room (omega arith) equal in
          omega arith

      resolve_found-Resolved :
          (q : QType) (domain : Bytes) (found : Option Bytes) (s : FakeIpDns)
          → IsReversible show_ip base prefix s
          → s.ipv4_cursor < 2 ^ (32 - prefix)
          → s.ipv4_cursor + 1 < 2 ^ 64
          → ((text : Bytes) → found ≡ some text → lookup (name_key q domain) s.cache ≡ some text)
          → Resolved show_ip base prefix q domain s
              (resolve_found show_ip show_number q w domain found s)
      unfolding resolve_found
      resolve_found-Resolved q domain (some ip_str) s h room l known = (
        h,
        (λ d u e. e),
        λ text a e.
            let it : ip_str ≡ text = cc in
            h.back domain text (
              subst (λ x. lookup (name_key x domain) s.cache ≡ some text) a
                (known text (ap some it))),
      )
      resolve_found-Resolved qtype_aaaa domain none s h room l known =
          let next = next_address show_ip show_number qtype_aaaa w s in
          let same = next_address-Same show_ip base prefix show_number w qtype_aaaa s l in
          let all =
            store_address-Same show_ip base prefix show_number w domain next.1 s next.0 same in
          (
            Same-IsReversible show_ip base prefix s _ all h,
            Same-Kept show_ip base prefix s _ all,
            λ text a e. cc a,
          )
      resolve_found-Resolved qtype_a domain none s h room l known =
          let next = next_address show_ip show_number qtype_a w s in
          let same = next_address-Same show_ip base prefix show_number w qtype_a s l in
          let text = next_text show_ip base prefix show_number w s h in
          let (inv, kept, named) =
            store_address-Resolved domain next.1 s.ipv4_cursor next.0
              (Same-IsReversible show_ip base prefix s next.0 same h)
              (next_cursor show_ip base prefix show_number w s l) text
              (λ d q. next_fresh s h room d (
                subst (λ x. lookup (ptr_key qtype_a x) s.cache ≡ some d) text
                  (sym (same.same_ptrs next.1) ∙ q))) in
          (inv, (λ d u q. kept d u (Same-Kept show_ip base prefix s next.0 same d u q)), named)

      pub resolve_internal-Resolved :
          (q : QType) (domain : Bytes) (s : FakeIpDns)
          → IsReversible show_ip base prefix s
          → s.ipv4_cursor < 2 ^ (32 - prefix)
          → s.ipv4_cursor + 1 < 2 ^ 64
          → Resolved show_ip base prefix q domain s
              (resolve_internal show_ip show_number q w domain s)
      unfolding resolve_internal
      resolve_internal-Resolved q domain s h room l =
          resolve_found-Resolved q domain
            (if w.get_name then lookup (name_key q domain) s.cache else none) s h room l
            (if_both
              (λ x. (text : Bytes) → x ≡ some text → lookup (name_key q domain) s.cache ≡ some text)
              w.get_name (λ text e. e) (λ text e. cc))
