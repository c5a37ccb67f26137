-- ===== src/DnsCache/Flights/Settled.antt =====
-- The channels of queries, in the map and after it (src/dns/cache.rs).
use quic_proxy.Common.{
  ℕ, ◌<◌, ◌≡◌, ◌≢◌, sym, ◌∙◌, ap, subst, Option, none, some, List, [], ◌∷◌, arith, Bool-cases,
  Option-cases, inl, inr,
}
use mathlib.Core.Logic.{◌⊎◌}
use quic_proxy.Common.Bytes.{Bytes}
use quic_proxy.Common.Assoc.{
  Assoc, bytes_eq, bytes_beq, bytes_beq_iff, nat_eq, lookup, insert, remove, lookup-insert_self,
  lookup-insert_ne, lookup-remove_self, lookup-remove-some,
}
use quic_proxy.DnsCache.Flights.{
  Channel, pending, gave_up, sent_outcome, Flights, join_entry, release, FlightEvent, joins,
  leader_drops, leader_finishes, flight_step, run_flights,
}

-- An entry of a map after an insertion is the new one or an old one.
lookup-insert-some :
    (key j : Bytes) (n ch : ℕ) (m : Assoc Bytes ℕ)
    → lookup j (insert key n m) ≡ some ch
    → ((key ≡ j) × (n ≡ ch)) ⊎ (lookup j m ≡ some ch)
lookup-insert-some key j n ch m e = elim (Bool-cases (bytes_beq key j)) [
  | inl y ↦
      let same : key ≡ j = (bytes_beq_iff key j).0 y in
      let own : lookup j (insert key n m) ≡ some n =
        subst (λ x. lookup x (insert key n m) ≡ some n) same (lookup-insert_self key n m) in
      inl (same, cc)
  | inr f ↦
      inr (sym (lookup-insert_ne key j n m (λ a. let y = (bytes_beq_iff key j).1 a in cc)) ∙ e)
]

-- Each channel in the map is an old one, and of one key.
pub record IsFresh (s : Flights) : Type 0 where
  pub below : (k : Bytes) (ch : ℕ) → lookup k s.inflight ≡ some ch → ch < s.next_channel
  pub apart :
      (k j : Bytes) (ch : ℕ) → lookup k s.inflight ≡ some ch → lookup j s.inflight ≡ some ch → k ≡ j

pub join_entry-IsFresh :
    (key : Bytes) (found : Option ℕ) (s : Flights) → IsFresh s → IsFresh (join_entry key found s).0
unfolding join_entry
join_entry-IsFresh key (some ch) s h = h
join_entry-IsFresh key none s h = record {
  below = λ k ch e. elim (lookup-insert-some key k s.next_channel ch s.inflight e) [
    | inl (a, b) ↦ omega arith
    | inr old ↦ let l = h.below k ch old in omega arith
  ];
  apart = λ k j ch e f. elim (lookup-insert-some key k s.next_channel ch s.inflight e) [
    | inl (a, b) ↦ elim (lookup-insert-some key j s.next_channel ch s.inflight f) [
      | inl (c, d) ↦ sym a ∙ c
      | inr old ↦ let l = h.below j ch old in absurd (omega arith)
    ]
    | inr old ↦ elim (lookup-insert-some key j s.next_channel ch s.inflight f) [
      | inl (c, d) ↦ let l = h.below k ch old in absurd (omega arith)
      | inr older ↦ h.apart k j ch old older
    ]
  ];
}

release-IsFresh :
    (key : Bytes) (value : Channel) (found : Option ℕ) (s : Flights)
    → IsFresh s
    → IsFresh (release key value found s)
unfolding release
release-IsFresh key value none s h = h
release-IsFresh key value (some c) s h = record {
  below = λ k ch e. h.below k ch (lookup-remove-some key k ch s.inflight e);
  apart = λ k j ch e f.
      h.apart k j ch (lookup-remove-some key k ch s.inflight e)
        (lookup-remove-some key j ch s.inflight f);
}

flight_step-IsFresh : (e : FlightEvent) (s : Flights) → IsFresh s → IsFresh (flight_step e s)
unfolding flight_step
flight_step-IsFresh (joins key) s h = join_entry-IsFresh key (lookup key s.inflight) s h
flight_step-IsFresh (leader_drops key) s h = release-IsFresh key gave_up (lookup key s.inflight) s h
flight_step-IsFresh (leader_finishes key outcome) s h =
    release-IsFresh key (sent_outcome outcome) (lookup key s.inflight) s h

pub run_flights-IsFresh :
    (es : List FlightEvent) (s : Flights) → IsFresh s → IsFresh (run_flights es s)
unfolding run_flights
run_flights-IsFresh [] s h = h
run_flights-IsFresh (e ∷ rest) s h =
    run_flights-IsFresh rest (flight_step e s) (flight_step-IsFresh e s h)

-- The sender of the channel is gone, and the channel has this value.
pub record Settled (ch : ℕ) (value : Channel) (s : Flights) : Type 0 where
  pub used : ch < s.next_channel
  pub left : (k : Bytes) → lookup k s.inflight ≢ some ch
  pub holds : lookup ch s.channels ≡ some value

join_entry-Settled :
    (key : Bytes) (found : Option ℕ) (ch : ℕ) (value : Channel) (s : Flights)
    → Settled ch value s
    → Settled ch value (join_entry key found s).0
unfolding join_entry
join_entry-Settled key (some c) ch value s h = h
join_entry-Settled key none ch value s h =
    let l = h.used in
    record {
      used = omega arith;
      left = λ k e. elim (lookup-insert-some key k s.next_channel ch s.inflight e) [
        | inl (a, b) ↦ absurd (omega arith)
        | inr old ↦ h.left k old
      ];
      holds = lookup-insert_ne s.next_channel ch pending s.channels (λ e. omega arith) ∙ h.holds;
    }

release-Settled :
    (key : Bytes) (new : Channel) (ch : ℕ) (value : Channel) (s : Flights)
    → Settled ch value s
    → Settled ch value (release key new (lookup key s.inflight) s)
unfolding release
release-Settled key new ch value s h = elim (Option-cases (lookup key s.inflight)) [
  | inl e ↦ rw (release, e) h
  | inr (c, e) ↦
      rw (release, e)
        (record {
          used = h.used;
          left = λ k f. h.left k (lookup-remove-some key k ch s.inflight f);
          holds = lookup-insert_ne c ch new s.channels (λ a. h.left key (e ∙ ap some a)) ∙ h.holds;
        })
]

flight_step-Settled :
    (e : FlightEvent) (ch : ℕ) (value : Channel) (s : Flights)
    → Settled ch value s
    → Settled ch value (flight_step e s)
unfolding flight_step
flight_step-Settled (joins key) ch value s h =
    join_entry-Settled key (lookup key s.inflight) ch value s h
flight_step-Settled (leader_drops key) ch value s h = release-Settled key gave_up ch value s h
flight_step-Settled (leader_finishes key outcome) ch value s h =
    release-Settled key (sent_outcome outcome) ch value s h

pub run_flights-Settled :
    (es : List FlightEvent) (ch : ℕ) (value : Channel) (s : Flights)
    → Settled ch value s
    → Settled ch value (run_flights es s)
unfolding run_flights
run_flights-Settled [] ch value s h = h
run_flights-Settled (e ∷ rest) ch value s h =
    run_flights-Settled rest ch value (flight_step e s) (flight_step-Settled e ch value s h)

-- The end of a flight settles its channel.
pub release-settles :
    (key : Bytes) (ch : ℕ) (value : Channel) (s : Flights)
    → IsFresh s
    → lookup key s.inflight ≡ some ch
    → Settled ch value (release key value (lookup key s.inflight) s)
unfolding release
release-settles key ch value s h e =
    rw (release, e)
      (record {
        used = h.below key ch e;
        left = λ k f. elim (Bool-cases (bytes_beq key k)) [
          | inl y ↦
              let same : key ≡ k = (bytes_beq_iff key k).0 y in
              let gone = lookup-remove_self key s.inflight in
              let there : lookup key (remove key s.inflight) ≡ some ch =
                subst (λ x. lookup x (remove key s.inflight) ≡ some ch) (sym same) f in
              cc
          | inr n ↦
              let same = h.apart key k ch e (lookup-remove-some key k ch s.inflight f) in
              let y = (bytes_beq_iff key k).1 same in cc
        ];
        holds = lookup-insert_self ch value s.channels;
      })
