-- ===== src/FakeIp/Runs.antt =====
-- A sequence of queries (src/dns/mod.rs: FakeIPDNS).
use quic_proxy.Common.{
  ℕ, ◌+◌, ◌-◌, ◌%◌, ◌^◌, ◌<◌, ◌≤◌, ◌≡◌, refl, ◌∙◌, ap, subst, true, false, Option, none, some, List,
  [], ◌∷◌, Result, ok, err, Option-cases, inl, inr, length, if◌then◌else◌, is_empty, arith, if_both,
}
use quic_proxy.Common.Bytes.{Bytes, All}
use quic_proxy.Common.Assoc.{lookup}
use quic_proxy.FakeIp.{
  QType, qtype_a, qtype_aaaa, CacheKey, name_key, ptr_key, cursor_key, key_eq, FakeIpDns, Works,
  FakeIpError, parse_failed, put, next_address, store_address, resolve_found, resolve_internal,
  reverse_lookup, read_ip, resolve_v4,
}
use quic_proxy.FakeIp.Reverse.{IsReversible, fake, Kept, put-cursor}
use quic_proxy.FakeIp.Resolve.{resolve_internal-Resolved}

-- A call of resolve_internal, with the calls of the database that work during it.
pub record Query : Type 0 where
  pub qtype : QType
  pub domain : Bytes
  pub works : Works

-- The entry for the name of a new address is stored when its other entry is.
abbrev pub IsStored : Query → Type 0
IsStored q = q.works.set_name ≡ true → q.works.set_ptr ≡ true

empty-none :
    (k : CacheKey) (t : Bytes) → lookup {K = CacheKey} {V = Bytes} k [] ≡ some t → none ≡ some t
unfolding lookup
empty-none k t e = e

module _ (show_ip : QType → ℕ → Bytes) (show_number : ℕ → Bytes) where
  unfoldable pub run_queries : List Query → FakeIpDns → FakeIpDns
  run_queries [] s = s
  run_queries (q ∷ rest) s =
      run_queries rest (resolve_internal show_ip show_number q.qtype q.works q.domain s).0

  next_address-cursor :
      (q : QType) (w : Works) (s : FakeIpDns)
      → s.ipv4_cursor + 1 < 2 ^ 64
      → (next_address show_ip show_number q w s).0.ipv4_cursor ≤ s.ipv4_cursor + 1
  unfolding next_address
  next_address-cursor qtype_a w s l =
      let same =
        put-cursor w.set_cursor (cursor_key qtype_a) (show_number ((s.ipv4_cursor + 1) % 2 ^ 64))
          (record s { ipv4_cursor = (s.ipv4_cursor + 1) % 2 ^ 64 }) in
      rw same (omega arith)
  next_address-cursor qtype_aaaa w s l =
      let same =
        put-cursor w.set_cursor (cursor_key qtype_aaaa) (show_number ((s.ipv6_cursor + 1) % 2 ^ 64))
          (record s { ipv6_cursor = (s.ipv6_cursor + 1) % 2 ^ 64 }) in
      rw same (omega arith)

  store_address-cursor :
      (q : QType) (w : Works) (domain text : Bytes) (s : FakeIpDns)
      → (store_address show_ip show_number q w domain (s, text)).0.ipv4_cursor ≡ s.ipv4_cursor
  unfolding store_address
  store_address-cursor q w domain text s =
      let named = put w.set_name (name_key q domain) text s in
      let is_named : named.ipv4_cursor ≡ s.ipv4_cursor =
        put-cursor w.set_name (name_key q domain) text s in
      if_both (λ (x : FakeIpDns × Result FakeIpError Bytes). x.0.ipv4_cursor ≡ s.ipv4_cursor)
        w.set_name
        (if_both (λ (x : FakeIpDns × Result FakeIpError Bytes). x.0.ipv4_cursor ≡ s.ipv4_cursor)
          w.set_ptr (put-cursor w.set_ptr (ptr_key q text) domain named ∙ is_named) is_named)
        refl

  resolve_found-cursor :
      (q : QType) (w : Works) (domain : Bytes) (found : Option Bytes) (s : FakeIpDns)
      → s.ipv4_cursor + 1 < 2 ^ 64
      → (resolve_found show_ip show_number q w domain found s).0.ipv4_cursor ≤ s.ipv4_cursor + 1
  unfolding resolve_found
  resolve_found-cursor q w domain (some ip_str) s l = omega arith
  resolve_found-cursor q w domain none s l =
      let next = next_address show_ip show_number q w s in
      let same = store_address-cursor q w domain next.1 next.0 in
      rw same (next_address-cursor q w s l)

  resolve_internal-cursor :
      (q : QType) (w : Works) (domain : Bytes) (s : FakeIpDns)
      → s.ipv4_cursor + 1 < 2 ^ 64
      → (resolve_internal show_ip show_number q w domain s).0.ipv4_cursor ≤ s.ipv4_cursor + 1
  unfolding resolve_internal
  resolve_internal-cursor q w domain s l =
      resolve_found-cursor q w domain
        (if w.get_name then lookup (name_key q domain) s.cache else none) s l

  module _ (base prefix : ℕ) (parse_ip : Bytes → Option ℕ)
      (parsed : (ip : ℕ) → ip < 2 ^ 32 → parse_ip (show_ip qtype_a ip) ≡ some ip)
      (fits : base + 2 ^ (32 - prefix) ≤ 2 ^ 32) where
    run_queries-IsReversible :
        (queries : List Query) (s : FakeIpDns)
        → All IsStored queries
        → IsReversible show_ip base prefix s
        → s.ipv4_cursor + length queries ≤ 2 ^ (32 - prefix)
        → IsReversible show_ip base prefix (run_queries queries s)
          × Kept show_ip base prefix s (run_queries queries s)
          × ((run_queries queries s).ipv4_cursor ≤ s.ipv4_cursor + length queries)
    unfolding run_queries
    run_queries-IsReversible [] s stored h room = (h, (λ d t q. q), omega arith)
    run_queries-IsReversible (q ∷ rest) s (stored, all) h room =
        let (inv, kept, named) =
          resolve_internal-Resolved show_ip base prefix show_number q.works stored parse_ip parsed
            fits q.qtype q.domain s h (omega arith) (omega arith) in
        let step = resolve_internal-cursor q.qtype q.works q.domain s (omega arith) in
        let after = (resolve_internal show_ip show_number q.qtype q.works q.domain s).0 in
        let (inv_rest, kept_rest, bound) =
          run_queries-IsReversible rest after all inv (omega arith) in
        (inv_rest, (λ d t e. kept_rest d t (kept d t e)), omega arith)

    new-IsReversible :
        (s : FakeIpDns)
        → s.ipv4_base ≡ base
        → s.ipv4_prefix ≡ prefix
        → s.cache ≡ []
        → IsReversible show_ip base prefix s
    new-IsReversible s is_base is_prefix new =
        let nothing = λ (k : CacheKey) (t : Bytes) (q : lookup k s.cache ≡ some t).
          empty-none k t (subst (λ x. lookup k x ≡ some t) new q) in
        record {
          base_is = is_base;
          prefix_is = is_prefix;
          back = λ d t q. let nil = nothing (name_key qtype_a d) t q in cc;
          given = λ d t q. let nil = nothing (ptr_key qtype_a t) d q in cc;
        }

    reverse_lookup-some :
        (trim : Bytes → Bytes) (domain text : Bytes) (s : FakeIpDns)
        → trim domain ≡ domain
        → is_empty domain ≡ false
        → lookup (ptr_key qtype_a text) s.cache ≡ some domain
        → reverse_lookup trim true qtype_a text s ≡ some domain
    unfolding reverse_lookup
    reverse_lookup-some trim domain text s trimmed full found =
        rw (reverse_lookup, found, trimmed, full) refl

    read_ip-ok :
        (trim : Bytes → Bytes) (res : Result FakeIpError Bytes) (ip : ℕ)
        → read_ip trim parse_ip res ≡ ok ip
        → (text : Bytes) × (res ≡ ok text) × (parse_ip (trim text) ≡ some ip)
    unfolding read_ip
    read_ip-ok trim (err e) ip it = cc
    read_ip-ok trim (ok res) ip it = elim (Option-cases (parse_ip (trim res))) [
      | inl e ↦ let bad : err parse_failed ≡ ok ip = rw (read_ip, e) at it in cc
      | inr (x, e) ↦
          let good : ok x ≡ ok ip = rw (read_ip, e) at it in
          let same : x ≡ ip = cc in (res, refl, e ∙ ap some same)
    ]

    read_shown :
        (trim : Bytes → Bytes)
        → ((a : ℕ) → trim (show_ip qtype_a a) ≡ show_ip qtype_a a)
        → (a ip : ℕ) (text : Bytes) → a < 2 ^ 32
        → text ≡ show_ip qtype_a a
        → parse_ip (trim text) ≡ some ip
        → text ≡ show_ip qtype_a ip
    read_shown trim clean a ip text l shown read =
        let it = parsed a l in
        let cleaned : trim text ≡ show_ip qtype_a a = ap trim shown ∙ clean a in
        let same : a ≡ ip = cc in shown ∙ ap (show_ip qtype_a) same

    -- Queries are made one after another of a new fake DNS, at most as many as the network has
    -- addresses; in each, the entry for the name of a new address is stored when the other is. When
    -- one of them resolves a name (not empty and without space around it) to an IPv4 address, the
    -- reverse lookup of this address gives the name after all of them. Base and size of the network
    -- fit 32 bits, and the text of an address reads back as it.
    pub reverse_lookup-resolve_v4 :
        (trim : Bytes → Bytes)
        → ((a : ℕ) → trim (show_ip qtype_a a) ≡ show_ip qtype_a a)
        → (before later : List Query) (w : Works) (domain : Bytes) (ip : ℕ) (s : FakeIpDns)
        → s.ipv4_base ≡ base
        → s.ipv4_prefix ≡ prefix
        → s.cache ≡ []
        → s.ipv4_cursor ≡ 0
        → All IsStored before
        → All IsStored later
        → (w.set_name ≡ true → w.set_ptr ≡ true)
        → length before + 1 + length later ≤ 2 ^ (32 - prefix)
        → trim domain ≡ domain
        → is_empty domain ≡ false
        → (resolve_v4 show_ip show_number trim parse_ip w domain (run_queries before s)).1 ≡ ok ip
        → reverse_lookup trim true qtype_a (show_ip qtype_a ip) (
            run_queries later
              (resolve_v4 show_ip show_number trim parse_ip w domain (run_queries before s)).0)
          ≡ some domain
    unfolding resolve_v4
    reverse_lookup-resolve_v4 trim clean before later w domain ip s is_base is_prefix new zero
          all_before all_later stored room trimmed full it =
        let (inv, kept, bound) =
          run_queries-IsReversible before s all_before (new-IsReversible s is_base is_prefix new)
            (omega arith) in
        let at = run_queries before s in
        let (inv_at, kept_at, named) =
          resolve_internal-Resolved show_ip base prefix show_number w stored parse_ip parsed fits
            qtype_a domain at inv (omega arith) (omega arith) in
        let step = resolve_internal-cursor qtype_a w domain at (omega arith) in
        let after = (resolve_internal show_ip show_number qtype_a w domain at).0 in
        let (inv_end, kept_end, bound_end) =
          run_queries-IsReversible later after all_later inv_at (omega arith) in
        let (text, is, read) = read_ip-ok trim _ ip it in
        let entry = named text refl is in
        let (n, given, shown) = inv_at.given domain text entry in
        let again = read_shown trim clean (fake base prefix n) ip text (omega arith) shown read in
        reverse_lookup-some trim domain (show_ip qtype_a ip) (run_queries later after) trimmed full
          (kept_end domain (show_ip qtype_a ip)
            (subst (λ x. lookup (ptr_key qtype_a x) after.cache ≡ some domain) again entry))
