-- ===== src/DnsCache/Flights/Shared.antt =====
-- One query is sent for a question, and all that wait have its outcome (src/dns/cache.rs).
use quic_proxy.Common.{
  ℕ, ◌≡◌, ◌≢◌, refl, ◌∙◌, ap, subst, none, some, List, [], ◌∷◌, Option-cases, inl, inr,
}
use quic_proxy.Common.Bytes.{Bytes, All}
use quic_proxy.Common.Assoc.{
  bytes_eq, nat_eq, lookup, lookup-insert_self, lookup-insert_ne, lookup-remove_self,
  lookup-remove_ne,
}
use quic_proxy.DnsCache.Flights.{
  Outcome, Channel, gave_up, sent_outcome, Flight, leader, follower, Flights, join_entry, join,
  release, finish_flight, drop_leader, follow_value, follow, FlightEvent, joins, leader_drops,
  leader_finishes, flight_step, run_flights, no_flights,
}
use quic_proxy.DnsCache.Flights.Settled.{
  IsFresh, join_entry-IsFresh, run_flights-IsFresh, run_flights-Settled, release-settles,
}

-- No flight for the key ends at this event.
abbrev pub Keeps : Bytes → FlightEvent → Type 0
Keeps key (joins k) = Unit
Keeps key (leader_drops k) = k ≢ key
Keeps key (leader_finishes k outcome) = k ≢ key

join_entry-inflight :
    (key k : Bytes) (ch : ℕ) (s : Flights)
    → lookup key s.inflight ≡ some ch
    → lookup key (join_entry k (lookup k s.inflight) s).0.inflight ≡ some ch
unfolding join_entry
join_entry-inflight key k ch s e = elim (Option-cases (lookup k s.inflight)) [
  | inl n ↦
      rw (join_entry, n)
        (lookup-insert_ne k key s.next_channel s.inflight (λ a.
            let f : lookup key s.inflight ≡ none = subst (λ x. lookup x s.inflight ≡ none) a n in
            cc)
          ∙ e)
  | inr (c, f) ↦ rw (join_entry, f) e
]

release-inflight :
    (key k : Bytes) (value : Channel) (ch : ℕ) (s : Flights)
    → k ≢ key
    → lookup key s.inflight ≡ some ch
    → lookup key (release k value (lookup k s.inflight) s).inflight ≡ some ch
unfolding release
release-inflight key k value ch s ne e = elim (Option-cases (lookup k s.inflight)) [
  | inl n ↦ rw (release, n) e
  | inr (c, f) ↦ rw (release, f) (lookup-remove_ne k key s.inflight ne ∙ e)
]

run_flights-inflight :
    (key : Bytes) (ch : ℕ) (es : List FlightEvent) (s : Flights)
    → All (Keeps key) es
    → lookup key s.inflight ≡ some ch
    → lookup key (run_flights es s).inflight ≡ some ch
unfolding run_flights flight_step
run_flights-inflight key ch [] s h e = e
run_flights-inflight key ch (joins k ∷ rest) s h e =
    run_flights-inflight key ch rest (flight_step (joins k) s) h.1
      (join_entry-inflight key k ch s e)
run_flights-inflight key ch (leader_drops k ∷ rest) s h e =
    run_flights-inflight key ch rest (flight_step (leader_drops k) s) h.1
      (release-inflight key k gave_up ch s h.0 e)
run_flights-inflight key ch (leader_finishes k outcome ∷ rest) s h e =
    run_flights-inflight key ch rest (flight_step (leader_finishes k outcome) s) h.1
      (release-inflight key k (sent_outcome outcome) ch s h.0 e)

join-inflight :
    (key : Bytes) (s : Flights) → (ch : ℕ) × (lookup key (join key s).0.inflight ≡ some ch)
unfolding join_entry
join-inflight key s = elim (Option-cases (lookup key s.inflight)) [
  | inl n ↦ rw (join_entry, n) (s.next_channel, lookup-insert_self key s.next_channel s.inflight)
  | inr (c, f) ↦ rw (join_entry, f) (c, f)
]

no_flights-IsFresh : IsFresh no_flights
unfolding lookup
no_flights-IsFresh = record { below = λ k ch e. cc; apart = λ k j ch e f. cc }

finished-leader :
    (key : Bytes) (ch : ℕ) (outcome : Outcome) (s : Flights)
    → lookup key s.inflight ≡ some ch
    → (join key (finish_flight key outcome s)).1 ≡ leader
unfolding join_entry release
finished-leader key ch outcome s on =
    rw (release, on) (rw (join_entry, lookup-remove_self key s.inflight) refl)

-- What a caller has that joins a flight.
joined-outcome :
    (key : Bytes) (ch : ℕ) (s : Flights) (outcome : Outcome) (later : List FlightEvent)
    → IsFresh s
    → lookup key s.inflight ≡ some ch
    → ((join key s).1 ≡ follower ch)
      × (follow ch (run_flights later (finish_flight key outcome (join key s).0))
          ≡ some (some outcome))
      × (follow ch (run_flights later (drop_leader key (join key s).0)) ≡ some none)
      × ((join key (finish_flight key outcome (join key s).0)).1 ≡ leader)
unfolding follow_value join_entry
joined-outcome key ch s outcome later fresh on =
    let joined : join key s ≡ (s, follower ch) = rw (on, join_entry) refl in
    let finished =
      run_flights-Settled later ch (sent_outcome outcome) (finish_flight key outcome s)
        (release-settles key ch (sent_outcome outcome) s fresh on) in
    let dropped =
      run_flights-Settled later ch gave_up (drop_leader key s)
        (release-settles key ch gave_up s fresh on) in
    rw joined (
      refl,
      ap follow_value finished.holds,
      ap follow_value dropped.holds,
      finished-leader key ch outcome s on,
    )

-- Two callers join a question, the first after `history` and the second after `during` as well.
abbrev pub second_join : Bytes → List FlightEvent → List FlightEvent → Flights × Flight
second_join key history during =
    join key (run_flights during (join key (run_flights history no_flights)).0)

-- After any history, a caller joins a question, and no leader of it ends while other events happen.
-- Then the next caller that joins it is a follower. When the leader finishes with an outcome, this
-- follower gets that outcome, and when the leader is dropped it is released without one, whatever
-- happens later, and whoever joins the question right then is a leader.
pub follow-finish_flight :
    (history during later : List FlightEvent) (key : Bytes) (outcome : Outcome)
    → All (Keeps key) during
    → (ch : ℕ) × ((second_join key history during).1 ≡ follower ch)
      × (follow ch
            (run_flights later (finish_flight key outcome (second_join key history during).0))
          ≡ some (some outcome))
      × (follow ch (run_flights later (drop_leader key (second_join key history during).0))
          ≡ some none)
      × ((join key (finish_flight key outcome (second_join key history during).0)).1 ≡ leader)
unfolding follow_value
follow-finish_flight history during later key outcome keeps =
    let at = run_flights history no_flights in
    let fresh_at = run_flights-IsFresh history no_flights no_flights-IsFresh in
    let (ch, start) = join-inflight key at in
    let s = run_flights during (join key at).0 in
    let fresh_s =
      run_flights-IsFresh during (join key at).0
        (join_entry-IsFresh key (lookup key at.inflight) at fresh_at) in
    let on : lookup key s.inflight ≡ some ch =
      run_flights-inflight key ch during (join key at).0 keeps start in
    let (follows, finished, dropped, next) = joined-outcome key ch s outcome later fresh_s on in
    (ch, follows, finished, dropped, next)
