-- ===== src/Shadowquic/Udp/Clean.antt =====
-- The end of a session (src/proxy/shadowquic_udp.rs: clean, the end of run_unistream_worker).
use quic_proxy.Common.{
  ℕ, ◌≡◌, ◌≢◌, refl, sym, subst, ◌∙◌, ◌⊎◌, ◌↔◌, none, some, List, [], ◌∷◌, map, ◌==◌, is_empty,
  Bool-cases, Option-cases, inl, inr, ==_iff, ==_refl,
}
use quic_proxy.Common.Assoc.{
  Assoc, nat_eq, lookup, insert, remove, lookup-insert_ne, lookup-insert_self, lookup-remove_ne,
  lookup-remove_self, lookup-remove-some,
}
use quic_proxy.Addr.{TargetAddr}
use quic_proxy.Shadowquic.Udp.{
  Conn, store, close, bind_context_id, unbind, unmap, clean_keys, clean, end_worker,
}
use quic_proxy.Shadowquic.Udp.Owner.{Owns, unmap-Owns}

-- Each id that leads to a session is bound in it.
abbrev pub IsConsistent : Conn → Type 0
IsConsistent s = (r id : ℕ) → Owns r id s → lookup id (s.receivers r).binded_context_id ≢ none

-- The ids bound in a session.
abbrev pub bound : ℕ → Conn → Assoc ℕ TargetAddr
bound r s = (s.receivers r).binded_context_id

bound-unmap : (r id a : ℕ) (s : Conn) → bound a (unmap r id s) ≡ bound a s
unfolding unmap
bound-unmap r id a s = elim (Option-cases (lookup id s.udp_recv_map)) [
  | inl n ↦ rw (n, unmap) refl
  | inr (owner, e) ↦
      rw (e, unmap) (elim (Bool-cases (r == owner)) [ inl y ↦ rw y refl | inr n ↦ rw n refl ])
]

bound-unbind_self : (r id : ℕ) (s : Conn) → bound r (unbind r id s) ≡ remove id (bound r s)
unfolding unbind store
bound-unbind_self r id s = rw (==_refl r, bound)

bound-unbind_ne : (r id a : ℕ) (s : Conn) → r ≢ a → bound a (unbind r id s) ≡ bound a s
unfolding unbind store
bound-unbind_ne r id a s d = elim (Bool-cases (r == a)) [
  | inl y ↦ absurd (d ((==_iff r a).0 y))
  | inr n ↦ rw (n, bound)
]

-- One round of clean, for the id of that round.
release : ℕ → ℕ → Conn → Conn
release r id s = unmap r id (unbind r id s)

-- No id is gained by a release.
unmap_gains_nothing : (r id a b : ℕ) (s : Conn) → Owns a b (unmap r id s) → Owns a b s
unfolding unmap
unmap_gains_nothing r id a b s h = elim (Option-cases (lookup id s.udp_recv_map)) [
  | inl n ↦ rw (n, unmap) at h
  | inr (owner, e) ↦ elim (Bool-cases (r == owner)) [
    | inr n ↦ rw (e, n, unmap) at h
    | inl y ↦ lookup-remove-some id b a s.udp_recv_map (rw (e, y, unmap) at h)
  ]
]

unmap_releases : (r id : ℕ) (s : Conn) → ¬ Owns r id (unmap r id s)
unfolding unmap
unmap_releases r id s h =
    let before = unmap_gains_nothing r id r id s h in
    let k : lookup id (remove id s.udp_recv_map) ≡ some r = rw (before, ==_refl r, unmap) at h in
    let l = lookup-remove_self id s.udp_recv_map in cc

release-bound :
    (r id a j : ℕ) (s : Conn)
    → ¬ ((r ≡ a) × (id ≡ j))
    → lookup j (bound a (release r id s)) ≡ lookup j (bound a s)
unfolding release
release-bound r id a j s d = elim (Bool-cases (r == a)) [
  | inr n ↦
      let apart : r ≢ a = λ q. let t = (==_iff r a).1 q in cc in
      rw (bound-unmap r id a (unbind r id s), bound-unbind_ne r id a s apart)
  | inl y ↦
      let same : r ≡ a = (==_iff r a).0 y in
      let apart : id ≢ j = λ q. d (same, q) in
      rw (← same, bound-unmap r id r (unbind r id s), bound-unbind_self r id s)
        (lookup-remove_ne id j (bound r s) apart)
]

-- A release touches no other session, and no other id.
release-Owns :
    (r id a b : ℕ) (s : Conn) → Owns a b (release r id s) → Owns a b s × ¬ ((r ≡ a) × (id ≡ b))
unfolding release unbind store
release-Owns r id a b s h = (
  unmap_gains_nothing r id a b (unbind r id s) h,
  λ q.
      let own = subst (λ j. Owns a j (release r id s)) (sym q.1) h in
      unmap_releases r id (unbind r id s) (subst (λ x. Owns x id (release r id s)) (sym q.0) own),
)

release-IsConsistent : (r id : ℕ) (s : Conn) → IsConsistent s → IsConsistent (release r id s)
release-IsConsistent r id s h a b o =
    let (before, d) = release-Owns r id a b s o in rw (release-bound r id a b s d) (h a b before)

-- The ids of a list.
abbrev IsIn : ℕ → List ℕ → Type 0
IsIn id [] = ⊥
IsIn id (k ∷ ks) = (k ≡ id) ⊎ IsIn id ks

lookup-IsIn : (id : ℕ) (m : Assoc ℕ TargetAddr) → lookup id m ≢ none → IsIn id (map (λ e. e.0) m)
unfolding lookup
lookup-IsIn id [] h = h refl
lookup-IsIn id ((k, v) ∷ m) h = elim (Bool-cases (k == id)) [
  | inl y ↦ inl ((==_iff k id).0 y)
  | inr n ↦ inr (lookup-IsIn id m (λ q. h (rw n q)))
]

clean_keys-IsConsistent :
    (r : ℕ) (ks : List ℕ) (s : Conn) → IsConsistent s → IsConsistent (clean_keys r ks s)
unfolding clean_keys release
clean_keys-IsConsistent r [] s h = h
clean_keys-IsConsistent r (id ∷ ks) s h =
    clean_keys-IsConsistent r ks (release r id s) (release-IsConsistent r id s h)

clean_keys-Owns :
    (r : ℕ) (ks : List ℕ) (a b : ℕ) (s : Conn)
    → Owns a b (clean_keys r ks s)
    → Owns a b s × ¬ ((r ≡ a) × IsIn b ks)
unfolding clean_keys release
clean_keys-Owns r [] a b s h = (h, λ q. q.1)
clean_keys-Owns r (id ∷ ks) a b s h =
    let (later, d) = clean_keys-Owns r ks a b (release r id s) h in
    let (before, k) = release-Owns r id a b s later in
    (before, λ q. elim q.1 [ inl e ↦ k (q.0, e) | inr i ↦ d (q.0, i) ])

-- What other sessions own is kept.
clean_keys-others :
    (r : ℕ) (ks : List ℕ) (a b : ℕ) (s : Conn) → r ≢ a → Owns a b s → Owns a b (clean_keys r ks s)
unfolding clean_keys unbind store
clean_keys-others r [] a b s d h = h
clean_keys-others r (id ∷ ks) a b s d h =
    clean_keys-others r ks a b _ d (unmap-Owns r id b a (unbind r id s) h (λ q. d q.0))

-- Where each id leads to a session that has bound it, `clean` leaves no id that leads to its session,
-- and changes nothing of where the ids of the other sessions lead.
pub clean-Owns :
    (r : ℕ) (s : Conn)
    → IsConsistent s
    → ((id : ℕ) → ¬ Owns r id (clean r s))
      × ((a id : ℕ) → r ≢ a → Owns a id (clean r s) ↔ Owns a id s)
unfolding clean
clean-Owns r s h =
    let ks = map (λ e. e.0) (bound r s) in
    (
      λ id o.
          let (before, d) = clean_keys-Owns r ks r id s o in
          d (refl, lookup-IsIn id (bound r s) (h r id before)),
      λ a id d. (λ o. (clean_keys-Owns r ks a id s o).0, clean_keys-others r ks a id s d),
    )

-- The session `r` with `id` bound in it.
binding : ℕ → TargetAddr → ℕ → Conn → Conn
binding r target id s =
    store r (record (s.receivers r) { binded_context_id = insert id target (bound r s) }) s

bound-binding_self :
    (r : ℕ) (target : TargetAddr) (id : ℕ) (s : Conn)
    → bound r (binding r target id s) ≡ insert id target (bound r s)
unfolding binding store
bound-binding_self r target id s = rw (==_refl r, bound)

bound-binding_ne :
    (r : ℕ) (target : TargetAddr) (id a b : ℕ) (s : Conn)
    → id ≢ b
    → lookup b (bound a (binding r target id s)) ≡ lookup b (bound a s)
bound-binding_ne r target id a b s d = elim (Bool-cases (r == a)) [
  | inl y ↦
      let same : r ≡ a = (==_iff r a).0 y in
      rw (← same, bound-binding_self r target id s) (lookup-insert_ne id b target (bound r s) d)
  | inr n ↦ unfold binding store in rw (n, bound)
]

bind-IsConsistent :
    (r : ℕ) (target : TargetAddr) (id : ℕ) (s : Conn)
    → IsConsistent s
    → IsConsistent (bind_context_id r target id s).0
unfolding bind_context_id binding
bind-IsConsistent r target id s h = elim (Option-cases (lookup id s.udp_recv_map)) [
  | inr (owner, e) ↦ rw (e, bind_context_id) h
  | inl e ↦
      rw (e, bind_context_id)
        (λ a b o. elim (Bool-cases (id == b)) [
          | inr n ↦
              let apart : id ≢ b = λ q. let t = (==_iff id b).1 q in cc in
              rw (bound-binding_ne r target id a b s apart)
                (h a b (sym (lookup-insert_ne id b r s.udp_recv_map apart) ∙ o))
          | inl y ↦
              let same : id ≡ b = (==_iff id b).0 y in
              let l = lookup-insert_self id r s.udp_recv_map in
              let o2 : lookup id (insert id r s.udp_recv_map) ≡ some a =
                subst (λ j. lookup j (insert id r s.udp_recv_map) ≡ some a) (sym same) o in
              let owner : r ≡ a = cc in
              rw (← same, ← owner, bound-binding_self r target id s)
                (let k = lookup-insert_self id target (bound r s) in λ q. cc)
        ])
]

close-IsConsistent : (r : ℕ) (s : Conn) → IsConsistent s → IsConsistent (close r s)
unfolding close store
close-IsConsistent r s h a id o = elim (Bool-cases (r == a)) [
  | inl y ↦
      let same : r ≡ a = (==_iff r a).0 y in
      let k : lookup id (bound r s) ≢ none =
        subst (λ x. lookup id (bound x s) ≢ none) (sym same) (h a id o) in
      rw y k
  | inr n ↦ rw n (h a id o)
]

-- If each id that leads to a session is bound in it, the same holds after a bind, after the end of a
-- packet stream and after the end of a session.
pub bindings-IsConsistent :
    (r : ℕ) (target : TargetAddr) (id : ℕ) (s : Conn)
    → IsConsistent s
    → IsConsistent (bind_context_id r target id s).0
      × IsConsistent (end_worker r id s)
      × IsConsistent (clean r s)
unfolding end_worker clean release
bindings-IsConsistent r target id s h =
    let after = release-IsConsistent r id s h in
    (
      bind-IsConsistent r target id s h,
      elim (Bool-cases (is_empty (bound r (release r id s)))) [
        | inl y ↦ rw y (close-IsConsistent r (release r id s) after)
        | inr n ↦ rw n after
      ],
      clean_keys-IsConsistent r (map (λ e. e.0) (bound r s)) s h,
    )
