-- ===== src/Shadowquic/Path.antt =====
-- Does a cached QUIC connection still receive anything (src/proxy/shadowquic_udp.rs: PathLiveness,
-- mark_zero_rtt_rejected). Times are `now_millis()`, in milliseconds; a count of datagrams is what
-- the connection's statistics say.
use quic_proxy.Common.{
  ℕ, ◌+◌, ◌-◌, ◌≤◌, ◌≡◌, ◌↔◌, refl, ap, ◌∙◌, Bool, true, false, not, ◌&&◌, ◌||◌, List, [], ◌∷◌, ltb,
  leb, if◌then◌else◌, arith,
}

abbrev pub liveness_idle : ℕ
liveness_idle = 30000

abbrev pub liveness_silence : ℕ
liveness_silence = liveness_idle

pub record PathLiveness : Type 0 where
  pub last_rx : ℕ
  pub last_tx : ℕ
  pub last_alive_at : ℕ

-- `PathLiveness::new` at the time `now`
unfoldable pub new : ℕ → PathLiveness
new now = record { last_rx = 0; last_tx = 0; last_alive_at = now }

unfoldable pub mark_alive : ℕ → PathLiveness → PathLiveness
mark_alive now p = record p { last_alive_at = now }

unfoldable pub observe_at : ℕ → ℕ → ℕ → PathLiveness → PathLiveness × Bool
observe_at rx_datagrams tx_datagrams now p =
    let swapped = record p { last_rx = rx_datagrams; last_tx = tx_datagrams } in
    let silent_for = now - p.last_alive_at in
    if ltb p.last_rx rx_datagrams then (record swapped { last_alive_at = now }, false) else (
      swapped,
      leb liveness_idle silent_for
          || (leb liveness_silence silent_for && ltb p.last_tx tx_datagrams),
    )

-- `mark_zero_rtt_rejected`: the flag after the call, and what the call returns.
unfoldable pub mark_zero_rtt_rejected : Bool → Bool × Bool
mark_zero_rtt_rejected flag = (true, not flag)

-- What a user of the connection reports, in the order in which it does.
pub data Report : Type 0 where
  marked : ℕ → Report
  observed : ℕ → ℕ → ℕ → Report

unfoldable pub report : Report → PathLiveness → PathLiveness
report (marked now) p = mark_alive now p
report (observed rx tx now) p = (observe_at rx tx now p).0

unfoldable pub run_reports : List Report → PathLiveness → PathLiveness
run_reports [] p = p
run_reports (x ∷ xs) p = run_reports xs (report x p)

-- The counts of received datagrams that were reported, the last first, with 0 at the beginning.
abbrev pub last_count : List Report → ℕ → ℕ
last_count [] rx = rx
last_count (marked now ∷ xs) rx = last_count xs rx
last_count (observed rx tx now ∷ xs) _ = last_count xs rx

-- When the peer was last known to be there: the last mark, or the last time at which the count of
-- received datagrams was greater than the time before, or else `alive`.
abbrev pub last_sign : List Report → ℕ → ℕ → ℕ
last_sign [] rx alive = alive
last_sign (marked now ∷ xs) rx alive = last_sign xs rx now
last_sign (observed count tx now ∷ xs) rx alive =
    last_sign xs count (if ltb rx count then now else alive)

observed-fields :
    (rx tx now : ℕ) (p : PathLiveness)
    → ((report (observed rx tx now) p).last_rx ≡ rx)
      × ((report (observed rx tx now) p).last_alive_at
          ≡ (if ltb p.last_rx rx then now else p.last_alive_at))
unfolding report observe_at
observed-fields rx tx now p = ground arith

run_reports-history :
    (xs : List Report) (p : PathLiveness)
    → ((run_reports xs p).last_rx ≡ last_count xs p.last_rx)
      × ((run_reports xs p).last_alive_at ≡ last_sign xs p.last_rx p.last_alive_at)
unfolding run_reports report mark_alive
run_reports-history [] p = (refl, refl)
run_reports-history (marked now ∷ xs) p = run_reports-history xs (report (marked now) p)
run_reports-history (observed rx tx now ∷ xs) p =
    let (count, sign) = observed-fields rx tx now p in
    let (h, k) = run_reports-history xs (report (observed rx tx now) p) in
    (h ∙ ap (last_count xs) count, k ∙ rw (count, sign))

-- Whatever was reported since the connection was made, an observation asks for a probe if and only
-- if no more datagrams were received than at the observation before, and the last sign of the peer
-- is at least 30 seconds old.
pub observe_at_iff :
    (start : ℕ) (xs : List Report) (rx tx now : ℕ)
    → ((observe_at rx tx now (run_reports xs (new start))).1 ≡ true)
      ↔ ((rx ≤ last_count xs 0) × (last_sign xs 0 start + 30000 ≤ now))
unfolding observe_at new
observe_at_iff start xs rx tx now =
    let (count, sign) = run_reports-history xs (new start) in ground arith
