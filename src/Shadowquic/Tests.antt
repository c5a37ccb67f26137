-- ===== src/Shadowquic/Tests.antt =====
-- The theorems on ShadowQUIC at concrete inputs; no name is an IP literal here.
use quic_proxy.Common.{
  ℕ, ◌+◌, ◌≤◌, ◌≡◌, ◌≢◌, ◌↔◌, refl, true, false, Option, none, some, List, [], ◌∷◌, ◌++◌, map, ok,
  length, ◌==◌, arith,
}
use quic_proxy.Common.Bytes.{Bytes}
use quic_proxy.Common.Assoc.{nat_eq, lookup}
use quic_proxy.Addr.{IpAddr, TargetAddr, ip, v4}
use quic_proxy.Shadowquic.Udp.{
  Conn, new_receiver, handle_datagram, find_receiver, feed_next, bind_context_id, clean, end_worker,
  Event, datagram, bind, release_id, receiver_found, payload_fed, run,
}
use quic_proxy.Shadowquic.Udp.Bounds.{IsBounded, run-IsBounded}
use quic_proxy.Shadowquic.Udp.Owner.{Owns, run-Owns}
use quic_proxy.Shadowquic.Udp.Clean.{IsConsistent, clean-Owns, bindings-IsConsistent}
use quic_proxy.Shadowquic.Udp.Early.{queue, early, early-delivered}
use quic_proxy.Shadowquic.Udp.Control.{control_round}
use quic_proxy.Shadowquic.Path.{
  Report, marked, observed, new, observe_at, run_reports, last_count, last_sign, observe_at_iff,
}
use quic_proxy.Shadowquic.Sender.{
  target_eq, Session, Answers, written, accepted, SendAnswers, send_to, control, datagram_out,
}
use quic_proxy.Shadowquic.Sender.Sessions.{Sessions, Call, IsUnique, new_sessions, run_calls}
use quic_proxy.Shadowquic.Sender.Unique.{IsAnnounced, HasNewIds, calls-IsUnique}
use quic_proxy.Shadowquic.Sender.Wire.{announcement}
use quic_proxy.Shadowquic.Sender.Delivery.{first_packet-delivered}
use quic_proxy.Shadowquic.Request.{
  read_udp_session, udp_handshake, gen_sunny_auth_hash, auth_packet, read_sunny_auth,
}
use quic_proxy.Shadowquic.Request.Roundtrip.{
  read_udp_session-udp_handshake, read_sunny_auth-auth_packet,
}

abbrev no_name : Bytes → Option IpAddr
no_name name = none

abbrev dns : TargetAddr
dns = ip (v4 (8 ∷ 8 ∷ 4 ∷ 4 ∷ []) 53)

abbrev quiet : Conn
quiet = record { receivers = λ r. new_receiver; udp_recv_map = []; waiting = [] }

abbrev events : List Event
events = datagram (0 ∷ 7 ∷ 1 ∷ 2 ∷ []) ∷ bind 1 dns 7 ∷ receiver_found 7 ∷ payload_fed 7 ∷ []

run-IsBounded_example : IsBounded (run events quiet)
run-IsBounded_example =
    run-IsBounded events quiet
      (record { queues = λ r. omega arith; contexts = omega arith; buffers = tt })

abbrev taken : Conn
taken = record { receivers = λ r. new_receiver; udp_recv_map = (7, 1) ∷ []; waiting = [] }

taken_lookup : Owns 1 7 taken
unfolding lookup
taken_lookup = refl

run-Owns_example : Owns 1 7 (run (bind 2 dns 7 ∷ release_id 2 7 ∷ release_id 1 8 ∷ []) taken)
run-Owns_example =
    run-Owns 1 7 (bind 2 dns 7 ∷ release_id 2 7 ∷ release_id 1 8 ∷ []) taken taken_lookup
      (tt, ((λ e. absurd (omega arith)), ((λ e. absurd (omega arith)), tt)))

quiet-IsConsistent : IsConsistent quiet
unfolding lookup
quiet-IsConsistent r id o = cc

bindings-IsConsistent_example :
    IsConsistent (bind_context_id 1 dns 7 quiet).0
    × IsConsistent (end_worker 1 7 quiet)
    × IsConsistent (clean 1 quiet)
bindings-IsConsistent_example = bindings-IsConsistent 1 dns 7 quiet quiet-IsConsistent

abbrev shared : Conn
shared = (bind_context_id 2 dns 8 (bind_context_id 1 dns 7 quiet).0).0

shared-IsConsistent : IsConsistent shared
shared-IsConsistent =
    (bindings-IsConsistent 2 dns 8 _ (bindings-IsConsistent 1 dns 7 quiet quiet-IsConsistent).0).0

clean-Owns_example :
    ((id : ℕ) → ¬ Owns 1 id (clean 1 shared))
    × ((a id : ℕ) → 1 ≢ a → Owns a id (clean 1 shared) ↔ Owns a id shared)
clean-Owns_example = clean-Owns 1 shared shared-IsConsistent

unused : lookup 7 quiet.udp_recv_map ≡ none
unfolding lookup
unused = refl

none_waits : lookup 7 quiet.waiting ≡ none
unfolding lookup
none_waits = refl

early-delivered_example :
    queue 1 (run (early 1 7 dns ((1 ∷ []) ∷ (2 ∷ 3 ∷ []) ∷ [])) quiet)
    ≡ queue 1 quiet ++ map (λ p. (dns, p)) ((1 ∷ []) ∷ (2 ∷ 3 ∷ []) ∷ [])
early-delivered_example =
    early-delivered 1 7 dns (1 ∷ []) ((2 ∷ 3 ∷ []) ∷ []) quiet (omega arith) unused none_waits
      (omega arith) (omega arith) refl (omega arith)

abbrev all_well : Answers
all_well = record { control_written = true; opened = some 4; header_written = true }

abbrev all_sent : SendAnswers
all_sent = record {
  first = (all_well, written);
  second = (all_well, written);
  limit = some 1200;
  datagram = accepted;
}

abbrev client : Session
client = record { sender_map = []; is_over_unistream = false; is_client = true; out = [] }

no_sender : lookup dns client.sender_map ≡ none
unfolding lookup
no_sender = refl

first_packet-delivered_example :
    (m : Bytes) × (d : Bytes) × ((send_to all_sent (5 ∷ 6 ∷ []) dns dns 7 client).2 ≡ ok 2)
    × ((send_to all_sent (5 ∷ 6 ∷ []) dns dns 7 client).1.out ≡ control m ∷ datagram_out d ∷ [])
    × (queue 1 (handle_datagram d (control_round no_name 1 m quiet).0).0 ≡ (dns, 5 ∷ 6 ∷ []) ∷ [])
    × (queue 1
          (feed_next 7 (find_receiver 7 (control_round no_name 1 m (handle_datagram d quiet).0).0))
        ≡ (dns, 5 ∷ 6 ∷ []) ∷ [])
first_packet-delivered_example =
    first_packet-delivered no_name all_sent (5 ∷ 6 ∷ []) dns dns 7 client 1 quiet refl no_sender
      (omega arith) refl refl refl (refl, omega arith)
      (record {
        unowned = unused;
        unknown = none_waits;
        few = omega arith;
        receiving = refl;
        room = omega arith;
      })

abbrev calls : List Call
calls =
    record { session = 0; answers = all_sent; buf = 1 ∷ []; source = dns; target = dns }
    ∷ record { session = 1; answers = all_sent; buf = 2 ∷ []; source = dns; target = dns }
    ∷ []

abbrev two_sessions : Sessions
two_sessions = new_sessions (λ k. k == 1) (λ k. true)

calls-IsUnique_example :
    IsUnique (run_calls calls (run_calls calls two_sessions))
    × IsAnnounced (run_calls calls (run_calls calls two_sessions))
    × HasNewIds (run_calls calls two_sessions) (run_calls calls (run_calls calls two_sessions))
calls-IsUnique_example = calls-IsUnique (λ k. k == 1) (λ k. true) calls calls (omega arith)

abbrev reports : List Report
reports = observed 10 3 1000 ∷ observed 10 9 31000 ∷ marked 32000 ∷ []

observe_at_iff_example :
    ((observe_at 10 12 62000 (run_reports reports (new 500))).1 ≡ true)
    ↔ ((10 ≤ last_count reports 0) × (last_sign reports 0 500 + 30000 ≤ 62000))
observe_at_iff_example = observe_at_iff 500 reports 10 12 62000

read_udp_session-udp_handshake_example :
    read_udp_session no_name (udp_handshake true ++ (announcement 1 dns ++ (9 ∷ [])))
    ≡ ok (4, dns, 1, 9 ∷ [])
read_udp_session-udp_handshake_example =
    read_udp_session-udp_handshake no_name true 1 dns (9 ∷ []) (refl, omega arith) (omega arith)

abbrev digest : Bytes → Bytes
digest text = length text ∷ 7 ∷ []

read_sunny_auth-auth_packet_example :
    read_sunny_auth (auth_packet (gen_sunny_auth_hash digest (97 ∷ []) (98 ∷ [])) ++ (3 ∷ []))
    ≡ ok (gen_sunny_auth_hash digest (97 ∷ []) (98 ∷ []), 3 ∷ [])
read_sunny_auth-auth_packet_example =
    read_sunny_auth-auth_packet digest (97 ∷ []) (98 ∷ []) (3 ∷ [])
