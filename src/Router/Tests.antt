-- ===== src/Router/Tests.antt =====
-- The theorems on routing at concrete inputs.
use quic_proxy.Common.{ℕ, ◌≡◌, ◌↔◌, true, false, none, some, List, [], ◌∷◌}
use quic_proxy.Addr.{TargetAddr, domain}
use quic_proxy.Hysteria2.Qpack.{text}
use quic_proxy.Router.{rule, tcp, udp, Rule, Answers, domain_matches_suffix, select_out}
use quic_proxy.Router.Domain.{IsBelow, domain_matches_suffix_iff}
use quic_proxy.Router.Selection.{FirstTaker, select_out-FirstTaker}

-- Every payload is a question for `a.b`, and no database knows anything.
abbrev answers : Answers
answers = record {
  cidr_contains = λ cidr a. false;
  reverse_of = λ server a. none;
  geoip_lookup = λ base target. none;
  is_fakeip = λ server a. false;
  parse_dns = λ payload. some ((text "a.b", 1) ∷ []);
}

abbrev any_rule : ℕ → Rule
any_rule out = record {
  mode = none;
  domains = none;
  domain_suffix = none;
  inbounds_tag = none;
  ip_cidr = none;
  ports = none;
  port_range = none;
  network = none;
  protocol = none;
  query_type = none;
  dns = none;
  geoip = [];
  reverse = none;
  outbound = out;
}

-- TCP first, then DNS below `b`, then all.
abbrev rules : List Rule
rules =
    record (any_rule 1) { network = some (tcp ∷ []) }
    ∷ record (any_rule 2) {
      protocol = some (text "dns" ∷ []);
      domain_suffix = some (text "B" ∷ []);
    }
    ∷ any_rule 3
    ∷ []

abbrev target : TargetAddr
target = domain (text "dns.google") 53

select_out-FirstTaker_example :
    FirstTaker answers rule target
      (text "in")
      (some udp)
      (some [])
      0
      rules
      (select_out answers rule target (text "in") (some udp) (some []) 0 rules)
select_out-FirstTaker_example =
    select_out-FirstTaker answers rule target (text "in") (some udp) (some []) 0 rules

domain_matches_suffix_iff_example :
    (domain_matches_suffix (text "WWW.a.b") (text "A.B") ≡ true)
    ↔ IsBelow (text "WWW.a.b") (text "A.B")
domain_matches_suffix_iff_example = domain_matches_suffix_iff (text "WWW.a.b") (text "A.B")
