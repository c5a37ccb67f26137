-- ===== src/FakeIp/Reverse.antt =====
-- The invariant of the table of fake addresses (src/dns/mod.rs: FakeIPDNS).
use quic_proxy.Common.{
  ℕ, ◌+◌, ◌-◌, ◌%◌, ◌^◌, ◌<◌, ◌≤◌, ◌≡◌, ◌≢◌, refl, sym, ◌∙◌, ap, subst, Bool, true, false, some,
  Result, ok, arith, if_both, Bool-cases, inl, inr,
}
use quic_proxy.Common.Bytes.{Bytes}
use quic_proxy.Common.Assoc.{
  bytes_beq, bytes_beq_iff, lookup, insert, lookup-insert_self, lookup-insert_ne,
}
use native.Mathlib.Nat.{mod-eq_of_lt}
use quic_proxy.FakeIp.{
  QType, qtype_a, qtype_aaaa, CacheKey, name_key, ptr_key, cursor_key, key_eq, FakeIpDns, Works,
  FakeIpError, get_fake_ipv4, put, next_address, store_address,
}

-- The fake address number `n` of the network.
abbrev pub fake : ℕ → ℕ → ℕ → ℕ
fake base prefix n = (base + n % 2 ^ (32 - prefix)) % 2 ^ 32

pub fake_lem :
    (base size n m : ℕ)
    → base + size ≤ 2 ^ 32
    → n < size
    → m < size
    → (base + n % size) % 2 ^ 32 ≡ (base + m % size) % 2 ^ 32
    → n ≡ m
fake_lem base size n m fits l k e =
    let small_n : n % size ≡ n = mod-eq_of_lt l in
    let small_m : m % size ≡ m = mod-eq_of_lt k in
    let same : (base + n) % 2 ^ 32 ≡ (base + m) % 2 ^ 32 = rw (small_n, small_m) at e in omega arith

ptr_text : {a b : Bytes} → ptr_key qtype_a a ≡ ptr_key qtype_a b → a ≡ b
ptr_text e = cc

name_text : {a b : Bytes} → name_key qtype_a a ≡ name_key qtype_a b → a ≡ b
name_text e = cc

put-other :
    (works : Bool) (key k : CacheKey) (value : Bytes) (s : FakeIpDns)
    → key ≢ k
    → lookup k (put works key value s).cache ≡ lookup k s.cache
put-other true key k value s h = lookup-insert_ne key k value s.cache h
put-other false key k value s h = refl

pub put-cursor :
    (works : Bool) (key : CacheKey) (value : Bytes) (s : FakeIpDns)
    → (put works key value s).ipv4_cursor ≡ s.ipv4_cursor
put-cursor true key value s = refl
put-cursor false key value s = refl

module _ (show_ip : QType → ℕ → Bytes) (base prefix : ℕ) where
  -- Each name with an address has it back, and the addresses are those that were given out.
  pub record IsReversible (s : FakeIpDns) : Type 0 where
    pub base_is : s.ipv4_base ≡ base
    pub prefix_is : s.ipv4_prefix ≡ prefix
    pub back :
        (domain text : Bytes)
        → lookup (name_key qtype_a domain) s.cache ≡ some text
        → lookup (ptr_key qtype_a text) s.cache ≡ some domain
    pub given :
        (domain text : Bytes)
        → lookup (ptr_key qtype_a text) s.cache ≡ some domain
        → (n : ℕ) × (n < s.ipv4_cursor) × (text ≡ show_ip qtype_a (fake base prefix n))

  -- The entries for IPv4 are the same, and the cursor is not behind.
  pub record Same (s t : FakeIpDns) : Type 0 where
    same_base : t.ipv4_base ≡ s.ipv4_base
    same_prefix : t.ipv4_prefix ≡ s.ipv4_prefix
    same_names :
        (d : Bytes) → lookup (name_key qtype_a d) t.cache ≡ lookup (name_key qtype_a d) s.cache
    pub same_ptrs :
        (d : Bytes) → lookup (ptr_key qtype_a d) t.cache ≡ lookup (ptr_key qtype_a d) s.cache
    later : s.ipv4_cursor ≤ t.ipv4_cursor

  pub Same-IsReversible : (s t : FakeIpDns) → Same s t → IsReversible s → IsReversible t
  Same-IsReversible s t e h = record {
    base_is = e.same_base ∙ h.base_is;
    prefix_is = e.same_prefix ∙ h.prefix_is;
    back = λ domain text q. e.same_ptrs text ∙ h.back domain text (sym (e.same_names domain) ∙ q);
    given = λ domain text q.
        let (n, l, w) = h.given domain text (sym (e.same_ptrs text) ∙ q) in
        let later = e.later in (n, omega arith, w);
  }

  Same-put :
      (works : Bool) (key : CacheKey) (value : Bytes) (s : FakeIpDns)
      → ((d : Bytes) → (key ≢ name_key qtype_a d) × (key ≢ ptr_key qtype_a d))
      → (t : FakeIpDns) → Same t s
      → Same t (put works key value s)
  Same-put true key value s apart t e = record {
    same_base = e.same_base;
    same_prefix = e.same_prefix;
    same_names = λ d. put-other true key _ value s (apart d).0 ∙ e.same_names d;
    same_ptrs = λ d. put-other true key _ value s (apart d).1 ∙ e.same_ptrs d;
    later = e.later;
  }
  Same-put false key value s apart t e = e

  module _ (show_number : ℕ → Bytes) (w : Works) where
    pub next_address-Same :
        (q : QType) (s : FakeIpDns)
        → s.ipv4_cursor + 1 < 2 ^ 64
        → Same s (next_address show_ip show_number q w s).0
    unfolding next_address
    next_address-Same qtype_a s l =
        Same-put w.set_cursor (cursor_key qtype_a) _ _ (λ d. (λ e. cc, λ e. cc)) s
          (record {
            same_base = refl;
            same_prefix = refl;
            same_names = λ d. refl;
            same_ptrs = λ d. refl;
            later = omega arith;
          })
    next_address-Same qtype_aaaa s l =
        Same-put w.set_cursor (cursor_key qtype_aaaa) _ _ (λ d. (λ e. cc, λ e. cc)) s
          (record {
            same_base = refl;
            same_prefix = refl;
            same_names = λ d. refl;
            same_ptrs = λ d. refl;
            later = omega arith;
          })

    pub next_text :
        (s : FakeIpDns)
        → IsReversible s
        → (next_address show_ip show_number qtype_a w s).1
          ≡ show_ip qtype_a (fake base prefix s.ipv4_cursor)
    unfolding next_address get_fake_ipv4
    next_text s h =
        ap (λ a. show_ip qtype_a ((a + s.ipv4_cursor % 2 ^ (32 - s.ipv4_prefix)) % 2 ^ 32))
          h.base_is
        ∙ ap (λ p. show_ip qtype_a ((base + s.ipv4_cursor % 2 ^ (32 - p)) % 2 ^ 32)) h.prefix_is

    pub next_cursor :
        (s : FakeIpDns)
        → s.ipv4_cursor + 1 < 2 ^ 64
        → s.ipv4_cursor < (next_address show_ip show_number qtype_a w s).0.ipv4_cursor
    unfolding next_address
    next_cursor s l =
        let same =
          put-cursor w.set_cursor (cursor_key qtype_a) (show_number ((s.ipv4_cursor + 1) % 2 ^ 64))
            (record s { ipv4_cursor = (s.ipv4_cursor + 1) % 2 ^ 64 }) in
        rw same (omega arith)

    pub store_address-Same :
        (domain text : Bytes) (s t : FakeIpDns)
        → Same s t
        → Same s (store_address show_ip show_number qtype_aaaa w domain (t, text)).0
    unfolding store_address
    store_address-Same domain text s t e =
        let named =
          Same-put w.set_name (name_key qtype_aaaa domain) text t (λ d. (λ e. cc, λ e. cc)) s e in
        if_both (λ (x : FakeIpDns × Result FakeIpError Bytes). Same s x.0) w.set_name
          (if_both (λ (x : FakeIpDns × Result FakeIpError Bytes). Same s x.0) w.set_ptr
            (Same-put w.set_ptr (ptr_key qtype_aaaa text) domain _ (λ d. (λ e. cc, λ e. cc)) s
              named)
            named)
          e

  -- Only the entry of its own address is changed by the two entries of an address.
  entries-ptr :
      (domain text u : Bytes) (s : FakeIpDns)
      → text ≢ u
      → lookup
          (ptr_key qtype_a u)
          (put true (ptr_key qtype_a text) domain (put true (name_key qtype_a domain) text s)).cache
        ≡ lookup (ptr_key qtype_a u) s.cache
  entries-ptr domain text u s apart =
      lookup-insert_ne (ptr_key qtype_a text) (ptr_key qtype_a u) domain _ (λ e. apart (ptr_text e))
      ∙ lookup-insert_ne (name_key qtype_a domain) (ptr_key qtype_a u) text s.cache (λ e. cc)

  -- The two entries of a new address, which no name has yet.
  pub entries-IsReversible :
      (domain text : Bytes) (n : ℕ) (s : FakeIpDns)
      → IsReversible s
      → n < s.ipv4_cursor
      → text ≡ show_ip qtype_a (fake base prefix n)
      → ((d : Bytes) → lookup (ptr_key qtype_a text) s.cache ≢ some d)
      → IsReversible
          (put true (ptr_key qtype_a text) domain (put true (name_key qtype_a domain) text s))
  entries-IsReversible domain text n s h l is fresh =
      let named = insert (name_key qtype_a domain) text s.cache in
      record {
        base_is = h.base_is;
        prefix_is = h.prefix_is;
        back = λ d t q.
            let in_named : lookup (name_key qtype_a d) named ≡ some t =
              sym (
                lookup-insert_ne (ptr_key qtype_a text) (name_key qtype_a d) domain named (λ e. cc))
              ∙ q in
            elim (Bool-cases (bytes_beq domain d)) [
              | inl y ↦
                  let same : domain ≡ d = (bytes_beq_iff domain d).0 y in
                  let own = lookup-insert_self (name_key qtype_a domain) text s.cache in
                  let named_t : lookup (name_key qtype_a domain) named ≡ some t =
                    subst (λ x. lookup (name_key qtype_a x) named ≡ some t) (sym same) in_named in
                  let it : text ≡ t = cc in
                  subst
                    (λ x.
                      lookup (ptr_key qtype_a x) (insert (ptr_key qtype_a text) domain named)
                      ≡ some d)
                    it (lookup-insert_self (ptr_key qtype_a text) domain named ∙ ap some same)
              | inr f ↦
                  let apart : domain ≢ d = λ e. let y = (bytes_beq_iff domain d).1 e in cc in
                  let before : lookup (name_key qtype_a d) s.cache ≡ some t =
                    sym (
                      lookup-insert_ne (name_key qtype_a domain) (name_key qtype_a d) text s.cache
                        (λ e. apart (name_text e)))
                    ∙ in_named in
                  let old = h.back d t before in
                  entries-ptr domain text t s (λ e.
                    fresh d (subst (λ x. lookup (ptr_key qtype_a x) s.cache ≡ some d) (sym e) old))
                  ∙ old
            ];
        given = λ d t q. elim (Bool-cases (bytes_beq text t)) [
          | inl y ↦ (n, l, sym ((bytes_beq_iff text t).0 y) ∙ is)
          | inr f ↦
              let apart : text ≢ t = λ e. let y = (bytes_beq_iff text t).1 e in cc in
              h.given d t (sym (entries-ptr domain text t s apart) ∙ q)
        ];
      }

  -- The names of addresses are kept.
  abbrev pub Kept : FakeIpDns → FakeIpDns → Type 0
  Kept s t =
      (domain text : Bytes)
      → lookup (ptr_key qtype_a text) s.cache ≡ some domain
      → lookup (ptr_key qtype_a text) t.cache ≡ some domain

  pub entries-Kept :
      (domain text : Bytes) (s : FakeIpDns)
      → ((d : Bytes) → lookup (ptr_key qtype_a text) s.cache ≢ some d)
      → Kept s (put true (ptr_key qtype_a text) domain (put true (name_key qtype_a domain) text s))
  entries-Kept domain text s fresh d u q =
      entries-ptr domain text u s
        (λ e. fresh d (subst (λ x. lookup (ptr_key qtype_a x) s.cache ≡ some d) (sym e) q))
      ∙ q

  -- What a call leaves: the invariant, the names of the addresses that had one, and the name of the
  -- address that it returns.
  abbrev pub Resolved : QType → Bytes → FakeIpDns → FakeIpDns × Result FakeIpError Bytes → Type 0
  Resolved q domain s (t, r) =
      IsReversible t
      × Kept s t
      × ((text : Bytes)
          → q ≡ qtype_a
          → r ≡ ok text
          → lookup (ptr_key qtype_a text) t.cache ≡ some domain)

  pub Same-Kept : (s t : FakeIpDns) → Same s t → Kept s t
  Same-Kept s t e domain text q = e.same_ptrs text ∙ q
