-- ===== src/DnsCache/Flights.antt =====
-- Queries that wait for the answer to the same question (src/dns/cache.rs: join, finish, Drop of
-- FlightLeader, follow). A channel is known by its number; its sender stands in the map, so that a
-- channel out of the map has its last value. Who reads a channel is not counted.
pub mod Settled
pub mod Shared
pub mod Tests
use quic_proxy.Common.{
  ℕ, suc, ◌<◌, ◌≤◌, ◌≡◌, ◌≢◌, refl, sym, ◌∙◌, ap, subst, Bool, true, false, Option, none, some,
  List, [], ◌∷◌, Result, ok, err, arith, Bool-cases, Option-cases, inl, inr,
}
use quic_proxy.Common.Bytes.{Bytes, All}
use quic_proxy.Common.Assoc.{
  Assoc, Eq, bytes_eq, bytes_beq, bytes_beq_iff, nat_eq, lookup, insert, remove, lookup-insert_self,
  lookup-insert_ne, lookup-remove_self, lookup-remove_ne,
}

-- A response, or the message of an error.
abbrev pub Outcome : Type 0
Outcome = Result Bytes Bytes

-- `watch::channel`: the value, and nothing more once the sender is gone.
pub data Channel : Type 0 where
  pending gave_up : Channel
  sent_outcome : Outcome → Channel

pub data Flight : Type 0 where
  leader : Flight
  follower : ℕ → Flight

pub record Flights : Type 0 where
  pub inflight : Assoc Bytes ℕ
  pub channels : Assoc ℕ Channel
  pub next_channel : ℕ

unfoldable pub join_entry : Bytes → Option ℕ → Flights → Flights × Flight
join_entry key (some ch) s = (s, follower ch)
join_entry key none s = (
  record {
    inflight = insert key s.next_channel s.inflight;
    channels = insert s.next_channel pending s.channels;
    next_channel = suc s.next_channel;
  },
  leader,
)

abbrev pub join : Bytes → Flights → Flights × Flight
join key s = join_entry key (lookup key s.inflight) s

-- `inflight.remove(key)`, with the last value of the channel
unfoldable pub release : Bytes → Channel → Option ℕ → Flights → Flights
release key value none s = s
release key value (some ch) s = record s {
  inflight = remove key s.inflight;
  channels = insert ch value s.channels;
}

abbrev pub finish_flight : Bytes → Outcome → Flights → Flights
finish_flight key outcome s = release key (sent_outcome outcome) (lookup key s.inflight) s

abbrev pub drop_leader : Bytes → Flights → Flights
drop_leader key s = release key gave_up (lookup key s.inflight) s

-- What `follow` returns, or nothing while it waits.
unfoldable pub follow_value : Option Channel → Option (Option Outcome)
follow_value (some (sent_outcome outcome)) = some (some outcome)
follow_value (some gave_up) = some none
follow_value _ = none

abbrev pub follow : ℕ → Flights → Option (Option Outcome)
follow ch s = follow_value (lookup ch s.channels)

pub data FlightEvent : Type 0 where
  joins leader_drops : Bytes → FlightEvent
  leader_finishes : Bytes → Outcome → FlightEvent

unfoldable pub flight_step : FlightEvent → Flights → Flights
flight_step (joins key) s = (join key s).0
flight_step (leader_drops key) s = drop_leader key s
flight_step (leader_finishes key outcome) s = finish_flight key outcome s

unfoldable pub run_flights : List FlightEvent → Flights → Flights
run_flights [] s = s
run_flights (e ∷ rest) s = run_flights rest (flight_step e s)

abbrev pub no_flights : Flights
no_flights = record { inflight = []; channels = []; next_channel = 0 }
