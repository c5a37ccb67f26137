-- ===== src/DnsCache/Flights/Tests.antt =====
-- Three callers ask the same question (src/dns/cache.rs).
use quic_proxy.Common.{ℕ, ◌≡◌, none, some, List, [], ◌∷◌, ok, err}
use quic_proxy.Common.Bytes.{Bytes}
use quic_proxy.DnsCache.Flights.{
  leader, follower, join, finish_flight, drop_leader, follow, FlightEvent, joins, leader_drops,
  leader_finishes, run_flights,
}
use quic_proxy.DnsCache.Flights.Shared.{second_join, follow-finish_flight}

abbrev question : Bytes
question = 7 ∷ []

abbrev other : Bytes
other = 8 ∷ []

abbrev history : List FlightEvent
history = joins other ∷ leader_drops other ∷ []

abbrev during : List FlightEvent
during = joins other ∷ leader_finishes other (err []) ∷ joins question ∷ []

abbrev later : List FlightEvent
later = joins question ∷ leader_drops question ∷ []

follow-finish_flight_example :
    (ch : ℕ) × ((second_join question history during).1 ≡ follower ch)
    × (follow ch (
          run_flights later
            (finish_flight question (ok (5 ∷ [])) (second_join question history during).0))
        ≡ some (some (ok (5 ∷ []))))
    × (follow ch (run_flights later (drop_leader question (second_join question history during).0))
        ≡ some none)
    × ((join question
          (finish_flight question (ok (5 ∷ [])) (second_join question history during).0)).1
        ≡ leader)
follow-finish_flight_example =
    follow-finish_flight history during later question (ok (5 ∷ [])) (tt, ((λ e. cc), (tt, tt)))
