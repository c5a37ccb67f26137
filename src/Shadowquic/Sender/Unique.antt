-- ===== src/Shadowquic/Sender/Unique.antt =====
-- No context id is given out twice (src/proxy/shadowquic_udp.rs: PerConnectionState.next_context_id,
-- ShadowQuicUdpPacket).
use quic_proxy.Common.{
  ℕ, ◌+◌, ◌*◌, ◌^◌, ◌<◌, ◌≤◌, ◌≡◌, sym, subst, ◌∙◌, ◌⊎◌, Bool, if_both, ◌++◌, List, [], ◌∷◌, Result,
  length, ◌==◌, arith, Bool-cases, inl, inr, ==_iff,
}
use quic_proxy.Common.Assoc.{lookup}
use quic_proxy.Addr.{TargetAddr}
use quic_proxy.Shadowquic.Sender.{target_eq, Sender, Session, SendError, send_to}
use quic_proxy.Shadowquic.Sender.News.{
  control_ids, Among, Increasing, Increasing-le, Increasing-high, Increasing-append, Among-append,
  Among-bounds, Among-left, Among-right,
}
use quic_proxy.Shadowquic.Sender.Announces.{CallNews}
use quic_proxy.Shadowquic.Sender.Calls.{send_to-CallNews}
use quic_proxy.Shadowquic.Sender.Ids.{Sends, context_addr, send_to-Later}
use quic_proxy.Shadowquic.Sender.Sessions.{
  Sessions, new_sessions, Call, put, run_call, run_calls, IsUnique, put-origin, run_calls-IsUnique,
}

-- The ids that a session announced increase, no two sessions announced the same one, and every sender
-- has an id that its session announced.
pub record IsAnnounced (c : Sessions) : Type 0 where
  pub rising : (k : ℕ) → Increasing 1 (control_ids (c.sessions k).out) c.next_context_id
  pub own :
      (j k n : ℕ)
      → Among n (control_ids (c.sessions j).out)
      → Among n (control_ids (c.sessions k).out)
      → j ≡ k
  pub sends :
      (k : ℕ) (a : TargetAddr) (x : Sender)
      → Sends a x (c.sessions k)
      → Among x.context_id (control_ids (c.sessions k).out)

-- An id is greater than all that were announced.
abbrev pub IsNewer : Sessions → ℕ → Type 0
IsNewer c id = (j n : ℕ) → Among n (control_ids (c.sessions j).out) → n < id

-- The senders that came after `c` have ids that were not announced in it.
abbrev pub HasNewIds : Sessions → Sessions → Type 0
HasNewIds c d =
    (k : ℕ) (a : TargetAddr) (x : Sender)
    → Sends a x (d.sessions k)
    → Sends a x (c.sessions k) ⊎ IsNewer c x.context_id

module _ (k m : ℕ) (c : Sessions) where
  -- What a session has announced after a call, it had announced before, or it is the session of the
  -- call and the id is a new one.
  put-announced :
      (x : ℕ × Session × Result SendError ℕ) (j n : ℕ)
      → CallNews m c.next_context_id (c.sessions k) x
      → Among n (control_ids ((put k c x).sessions j).out)
      → Among n (control_ids (c.sessions j).out) ⊎ ((k ≡ j) × (c.next_context_id ≤ n))
  put-announced (next, s, r) j n h a = elim (Bool-cases (k == j)) [
    | inr f ↦ inl (rw f at a)
    | inl y ↦
        let same : k ≡ j = (==_iff k j).0 y in
        let own : Among n (control_ids s.out) = rw y at a in
        let parts : Among n (control_ids (c.sessions k).out ++ h.ids) =
          subst (Among n) h.out_is own in
        elim (Among-append n (control_ids (c.sessions k).out) h.ids parts) [
          | inl old ↦ inl (subst (λ i. Among n (control_ids (c.sessions i).out)) same old)
          | inr new ↦ inr (same, (Among-bounds n c.next_context_id h.ids next h.rising new).0)
        ]
  ]

  put-IsAnnounced :
      (x : ℕ × Session × Result SendError ℕ)
      → CallNews m c.next_context_id (c.sessions k) x
      → IsAnnounced c
      → IsAnnounced (put k c x)
  put-IsAnnounced (next, s, r) h u =
      let more = Increasing-le c.next_context_id h.ids next h.rising in
      record {
        rising = λ j.
            if_both (λ (t : Session). Increasing 1 (control_ids t.out) next) (k == j)
              (subst (λ ids. Increasing 1 ids next) (sym h.out_is)
                (Increasing-append 1 (control_ids (c.sessions k).out) c.next_context_id h.ids next
                  (u.rising k) h.rising))
              (Increasing-high 1 (control_ids (c.sessions j).out) c.next_context_id next
                (u.rising j) more);
        own = λ i j n a b. elim (put-announced (next, s, r) i n h a) [
          | inl before ↦ elim (put-announced (next, s, r) j n h b) [
            | inl earlier ↦ u.own i j n before earlier
            | inr (e, low) ↦
                absurd
                  (omega (arith, (Among-bounds n 1 _ c.next_context_id (u.rising i) before).1, low))
          ]
          | inr (e, low) ↦ elim (put-announced (next, s, r) j n h b) [
            | inl earlier ↦
                absurd (
                  omega (arith, (Among-bounds n 1 _ c.next_context_id (u.rising j) earlier).1, low))
            | inr (f, high) ↦ sym e ∙ f
          ]
        ];
        sends = λ j a x. elim (Bool-cases (k == j)) [
          | inr f ↦ rw f (u.sends j a x)
          | inl y ↦ rw y (λ there.
              subst (Among x.context_id) (sym h.out_is) (elim (h.origin a x there) [
                | inl old ↦
                    Among-left x.context_id (control_ids (c.sessions k).out) h.ids
                      (u.sends k a x old)
                | inr new ↦ Among-right x.context_id (control_ids (c.sessions k).out) h.ids new
              ]))
        ];
      }

-- What calls leave: the invariant, a counter that rose by 2 at most in each, and senders that were
-- there or have an id of the calls.
run_calls-IsAnnounced :
    (calls : List Call) (c : Sessions)
    → c.next_context_id + 2 * length calls < 2 ^ 32
    → IsAnnounced c
    → IsAnnounced (run_calls calls c)
      × ((run_calls calls c).next_context_id ≤ c.next_context_id + 2 * length calls)
      × ((k : ℕ) (a : TargetAddr) (x : Sender)
          → Sends a x ((run_calls calls c).sessions k)
          → Sends a x (c.sessions k) ⊎ (c.next_context_id ≤ x.context_id))
unfolding run_calls run_call
run_calls-IsAnnounced [] c l u = (u, omega arith, λ k a x h. inl h)
run_calls-IsAnnounced (call ∷ calls) c l u =
    let s = c.sessions call.session in
    let x = send_to call.answers call.buf call.source call.target c.next_context_id s in
    let news =
      send_to-CallNews call.answers call.buf call.source call.target c.next_context_id s
        (omega arith) in
    let after =
      send_to-Later call.answers call.buf call.source call.target c.next_context_id s
        (omega arith) in
    let (low, high, f) = after in
    let (inv, bound, since) =
      run_calls-IsAnnounced calls (run_call call c) (omega arith)
        (put-IsAnnounced call.session 2 c x news u) in
    (
      inv,
      omega arith,
      λ k a z h. elim (since k a z h) [
        | inr new ↦ inr (omega arith)
        | inl there ↦
            elim (put-origin call.session 2 (context_addr call.source call.target s) c x k a z after
              there) [ inl before ↦ inl before | inr (e, q, least, most) ↦ inr least ]
      ],
    )

-- On a new connection, after any calls of send_to by any of its sessions, fewer than 2^31 - 1 of them
-- and whatever the connection answered to each, no context id is announced twice, by one session or by
-- two, every sender has an announced id, and two senders with the same id are the sender of one session
-- for one address. A sender that did not stand there at some time before has an id greater than all
-- that had been announced then, so that no id comes back, also not after a sender was given up or
-- could not be made.
pub calls-IsUnique :
    (over_unistream is_client : ℕ → Bool) (first later : List Call)
    → length first + length later + 1 < 2 ^ 31
    → IsUnique (run_calls later (run_calls first (new_sessions over_unistream is_client)))
      × IsAnnounced (run_calls later (run_calls first (new_sessions over_unistream is_client)))
      × HasNewIds
          (run_calls first (new_sessions over_unistream is_client))
          (run_calls later (run_calls first (new_sessions over_unistream is_client)))
unfolding lookup
calls-IsUnique over_unistream is_client first later l =
    let new = new_sessions over_unistream is_client in
    let c = run_calls first new in
    let (inv, bound, since_new) =
      run_calls-IsAnnounced first new (omega arith)
        (record { rising = λ k. omega arith; own = λ j k n a b. cc; sends = λ k a x h. cc }) in
    let unique =
      run_calls-IsUnique first new (omega arith)
        (record { given = λ k a x h. cc; one = λ j k a b x y h g e. cc }) in
    let (inv_later, bound_later, since) = run_calls-IsAnnounced later c (omega arith) inv in
    (
      run_calls-IsUnique later c (omega arith) unique,
      inv_later,
      λ k a x h. elim (since k a x h) [
        | inl there ↦ inl there
        | inr new_id ↦ inr (λ j n among.
            let (low, high) = Among-bounds n 1 _ c.next_context_id (inv.rising j) among in
            omega arith)
      ],
    )
