-- ===== src/Shadowquic/Sender/Sessions.antt =====
-- The sessions of a connection (src/proxy/shadowquic_udp.rs: PerConnectionState.next_context_id,
-- ShadowQuicUdpPacket). They are numbered, and their calls of send_to follow
-- each other in any order.
use quic_proxy.Common.{
  ℕ, ◌+◌, ◌*◌, ◌^◌, ◌<◌, ◌≤◌, ◌≡◌, sym, subst, ◌∙◌, ◌⊎◌, Bool, List, [], ◌∷◌, Result, length, ◌==◌,
  if◌then◌else◌, arith, Bool-cases, inl, inr, ==_iff,
}
use quic_proxy.Common.Bytes.{Bytes}
use quic_proxy.Addr.{TargetAddr}
use quic_proxy.Shadowquic.Sender.{target_eq, Sender, Session, SendError, SendAnswers, send_to}
use quic_proxy.Shadowquic.Sender.Ids.{Sends, AfterCall, context_addr, send_to-Later}

-- The counter of a connection and the sessions on it.
pub record Sessions : Type 0 where
  pub next_context_id : ℕ
  pub sessions : ℕ → Session

-- `PerConnectionState::new` and `ShadowQuicUdpPacket::new`: no session has a sender yet.
abbrev pub new_sessions : (ℕ → Bool) → (ℕ → Bool) → Sessions
new_sessions over_unistream is_client = record {
  next_context_id = 1;
  sessions = λ k. record {
    sender_map = [];
    is_over_unistream = over_unistream k;
    is_client = is_client k;
    out = [];
  };
}

-- A call of send_to by a session: what the connection answers, the payload, its source and target.
pub record Call : Type 0 where
  pub session : ℕ
  pub answers : SendAnswers
  pub buf : Bytes
  pub source : TargetAddr
  pub target : TargetAddr

abbrev pub put : ℕ → Sessions → ℕ × Session × Result SendError ℕ → Sessions
put k c (next, s, r) = record {
  next_context_id = next;
  sessions = λ j. if k == j then s else c.sessions j;
}

unfoldable pub run_call : Call → Sessions → Sessions
run_call call c = put call.session c (
    send_to call.answers call.buf call.source call.target c.next_context_id
      (c.sessions call.session))

unfoldable pub run_calls : List Call → Sessions → Sessions
run_calls [] c = c
run_calls (call ∷ calls) c = run_calls calls (run_call call c)

-- The ids of all senders were given out, and two senders with the same id are one.
pub record IsUnique (c : Sessions) : Type 0 where
  pub given :
      (k : ℕ) (a : TargetAddr) (x : Sender)
      → Sends a x (c.sessions k)
      → x.context_id < c.next_context_id
  pub one :
      (j k : ℕ) (a b : TargetAddr) (x y : Sender)
      → Sends a x (c.sessions j)
      → Sends b y (c.sessions k)
      → x.context_id ≡ y.context_id
      → (j ≡ k) × (a ≡ b)

module _ (k m : ℕ) (addr : TargetAddr) (c : Sessions) where
  -- A sender after a call is a sender from before, or of the call.
  pub put-origin :
      (x : ℕ × Session × Result SendError ℕ) (j : ℕ) (a : TargetAddr) (z : Sender)
      → AfterCall addr m c.next_context_id (c.sessions k) x
      → Sends a z ((put k c x).sessions j)
      → Sends a z (c.sessions j)
        ⊎ ((k ≡ j)
            × (addr ≡ a)
            × (c.next_context_id ≤ z.context_id)
            × (z.context_id < (put k c x).next_context_id))
  put-origin (next, s, r) j a z (lo, hi, f) h = elim (Bool-cases (k == j)) [
    | inr n ↦ inl (rw n at h)
    | inl y ↦
        let same : k ≡ j = (==_iff k j).0 y in
        let own : Sends a z s = rw y at h in
        elim (f a z own) [
          | inl before ↦ inl (subst (λ i. Sends a z (c.sessions i)) same before)
          | inr (e, low, high) ↦ inr (same, e, low, high)
        ]
  ]

  put-IsUnique :
      (x : ℕ × Session × Result SendError ℕ)
      → AfterCall addr m c.next_context_id (c.sessions k) x
      → IsUnique c
      → IsUnique (put k c x)
  put-IsUnique (next, s, r) (lo, hi, f) u = record {
    given = λ j a z h. elim (put-origin (next, s, r) j a z (lo, hi, f) h) [
      | inl before ↦ omega (arith, u.given j a z before)
      | inr (e, q, low, high) ↦ high
    ];
    one = λ i j a b y z h g e. elim (put-origin (next, s, r) i a y (lo, hi, f) h) [
      | inl before ↦ elim (put-origin (next, s, r) j b z (lo, hi, f) g) [
        | inl earlier ↦ u.one i j a b y z before earlier e
        | inr (p, q, low, high) ↦ absurd (omega (arith, u.given i a y before))
      ]
      | inr (p, q, low, high) ↦ elim (put-origin (next, s, r) j b z (lo, hi, f) g) [
        | inl earlier ↦ absurd (omega (arith, u.given j b z earlier))
        | inr (p2, q2, low2, high2) ↦ (sym p ∙ p2, sym q ∙ q2)
      ]
    ];
  }

pub run_calls-IsUnique :
    (calls : List Call) (c : Sessions)
    → c.next_context_id + 2 * length calls < 2 ^ 32
    → IsUnique c
    → IsUnique (run_calls calls c)
unfolding run_calls run_call
run_calls-IsUnique [] c l u = u
run_calls-IsUnique (call ∷ calls) c l u =
    let s = c.sessions call.session in
    let x = send_to call.answers call.buf call.source call.target c.next_context_id s in
    let after =
      send_to-Later call.answers call.buf call.source call.target c.next_context_id s
        (omega arith) in
    run_calls-IsUnique calls (run_call call c) (let m = after.1 in omega arith)
      (put-IsUnique call.session 2 (context_addr call.source call.target s) c x after u)
