-- ===== src/Router.antt =====
-- Routing (src/proxy/router.rs: mode, sniff_dns_target, select_out; src/proxy/router/rule.rs: Rule).
-- Outbounds, DNS servers and GeoIP databases are handles; what they answer while one connection is
-- routed, and what the crates ipnet and simple_dns answer, is the parameter `Answers`. A QTYPE is
-- its number, an IpNet its text.
pub mod Domain
pub mod Selection
pub mod Tests
use quic_proxy.Common.{
  ℕ, zero, suc, ◌+◌, ◌-◌, Bool, true, false, not, ◌&&◌, ◌||◌, Option, none, some, List, [], ◌∷◌,
  length, drop, get_or, any, ltb, leb, ◌==◌, if◌then◌else◌, is_empty,
}
use quic_proxy.Common.Bytes.{Bytes}
use quic_proxy.Addr.{SocketAddr, v4, v6, IpAddr, ip4, ip6, TargetAddr, ip, domain, port}

pub data RouterMode : Type 0 where
  rule proxy direct : RouterMode

pub data NetworkType : Type 0 where
  tcp udp : NetworkType

abbrev pub mode_to_u8 : RouterMode → ℕ
mode_to_u8 rule = 0
mode_to_u8 proxy = 1
mode_to_u8 direct = 2

abbrev pub mode_from_u8 : ℕ → RouterMode
mode_from_u8 value = if value == 0 then rule else if value == 1 then proxy else direct

-- `==` on modes, networks and strings
abbrev pub same_mode : RouterMode → RouterMode → Bool
same_mode a b = mode_to_u8 a == mode_to_u8 b

abbrev pub same_network : NetworkType → NetworkType → Bool
same_network tcp tcp = true
same_network udp udp = true
same_network _ _ = false

abbrev pub same_text : Bytes → Bytes → Bool
same_text [] [] = true
same_text (a ∷ s) (b ∷ t) = a == b && same_text s t
same_text _ _ = false

abbrev pub ascii_lower : ℕ → ℕ
ascii_lower b = if leb 65 b && leb b 90 then b + 32 else b

abbrev pub eq_ignore_ascii_case : Bytes → Bytes → Bool
eq_ignore_ascii_case [] [] = true
eq_ignore_ascii_case (a ∷ s) (b ∷ t) = ascii_lower a == ascii_lower b && eq_ignore_ascii_case s t
eq_ignore_ascii_case _ _ = false

unfoldable pub domain_matches_suffix : Bytes → Bytes → Bool
domain_matches_suffix name suffix =
    if is_empty suffix || ltb (length name) (length suffix)
    then false
    else let start = length name - length suffix in
      eq_ignore_ascii_case (drop start name) suffix
      && (start == 0 || get_or name (start - 1) 0 == 46)

pub record Rule : Type 0 where
  pub mode : Option (List RouterMode)
  pub domains : Option (List Bytes)
  pub domain_suffix : Option (List Bytes)
  pub inbounds_tag : Option (List Bytes)
  pub ip_cidr : Option (List Bytes)
  pub ports : Option (List ℕ)
  pub port_range : Option (List (ℕ × ℕ))
  pub network : Option (List NetworkType)
  pub protocol : Option (List Bytes)
  pub query_type : Option (List ℕ)
  pub dns : Option ℕ
  pub geoip : List ℕ
  pub reverse : Option ℕ
  pub outbound : ℕ

-- `geoip_lookup` is `none` on an error; `parse_dns` gives the questions of a packet.
pub record Answers : Type 0 where
  pub cidr_contains : Bytes → IpAddr → Bool
  pub reverse_of : ℕ → IpAddr → Option Bytes
  pub geoip_lookup : ℕ → TargetAddr → Option Bool
  pub is_fakeip : ℕ → IpAddr → Bool
  pub parse_dns : Bytes → Option (List (Bytes × ℕ))

-- What a connection is matched by.
pub record Context : Type 0 where
  pub target : TargetAddr
  pub inbound_tag : Bytes
  pub net : Option NetworkType
  pub proto : Option Bytes
  pub qtype : Option ℕ

abbrev pub ip_of : SocketAddr → IpAddr
ip_of (v4 o p) = ip4 o
ip_of (v6 o p flow scope) = ip6 o

-- `Some(list)` that is not empty
abbrev pub listed : {A : Type 0} → Option (List A) → Bool
listed none = false
listed (some xs) = not (is_empty xs)

-- `list.iter().any(…)` in an optional list
abbrev pub any_of : {A : Type 0} → Option (List A) → (A → Bool) → Bool
any_of none p = false
any_of (some xs) p = any xs p

-- A criterion on a value that there may not be: `if !list.is_empty() { … }`.
unfoldable pub allows : {A : Type 0} → (A → A → Bool) → Option (List A) → Option A → Bool
allows same none x = true
allows same (some []) x = true
allows same (some (y ∷ ys)) none = false
allows same (some (y ∷ ys)) (some x) = any (y ∷ ys) (λ y. same y x)

unfoldable pub allows_port : Rule → ℕ → Bool
allows_port r p =
    if listed r.ports || listed r.port_range
    then any_of r.ports (λ q. q == p)
      || any_of r.port_range (λ range. leb range.0 p && leb p range.1)
    else true

unfoldable pub allows_domain : Rule → TargetAddr → Bool
allows_domain r (ip a) = if listed r.domains || listed r.domain_suffix then false else true
allows_domain r (domain name p) =
    if listed r.domains || listed r.domain_suffix
    then any_of r.domains (λ d. eq_ignore_ascii_case name d)
      || any_of r.domain_suffix (λ suffix. domain_matches_suffix name suffix)
    else true

-- Here an empty list is no exception.
unfoldable pub allows_query : Option (List ℕ) → Option ℕ → Bool
allows_query none qtype = true
allows_query (some types) none = false
allows_query (some types) (some qtype) = any types (λ t. t == qtype)

module _ (env : Answers) where
  unfoldable pub allows_cidr : Option (List Bytes) → TargetAddr → Bool
  allows_cidr none target = true
  allows_cidr (some []) target = true
  allows_cidr (some (c ∷ cs)) (ip a) = any (c ∷ cs) (λ cidr. env.cidr_contains cidr (ip_of a))
  allows_cidr (some (c ∷ cs)) (domain name p) = false

  abbrev pub is_hit : Option Bool → Bool
  is_hit none = false
  is_hit (some found) = found

  unfoldable pub allows_geoip : List ℕ → TargetAddr → Bool
  allows_geoip [] target = true
  allows_geoip (g ∷ gs) target = any (g ∷ gs) (λ g. is_hit (env.geoip_lookup g target))

  -- The name that the reverse lookup found, with the port.
  abbrev pub renamed : Option Bytes → ℕ → Bool × Option TargetAddr
  renamed none p = (false, none)
  renamed (some name) p = (true, some (domain name p))

  unfoldable pub match_reverse : Rule → Option ℕ → TargetAddr → Bool × Option TargetAddr
  match_reverse r none target = if allows_geoip r.geoip target then (true, none) else (false, none)
  match_reverse r (some server) (ip a) = renamed (env.reverse_of server (ip_of a)) (port (ip a))
  match_reverse r (some server) (domain name p) = (false, none)

  unfoldable pub matches : Rule → Context → Bool × Option TargetAddr
  matches r c =
      if not (allows same_text r.inbounds_tag (some c.inbound_tag))
      then (false, none)
      else if not (allows same_text r.protocol c.proto)
      then (false, none)
      else if not (allows same_network r.network c.net)
      then (false, none)
      else if not (allows_port r (port c.target))
      then (false, none)
      else if not (allows_domain r c.target)
      then (false, none)
      else if not (allows_query r.query_type c.qtype)
      then (false, none)
      else if not (allows_cidr r.ip_cidr c.target)
      then (false, none)
      else match_reverse r r.reverse c.target

  -- Protocol, query type and target that the payload shows.
  pub record Sniffed : Type 0 where
    pub proto : Option Bytes
    pub qtype : Option ℕ
    pub override_target : Option TargetAddr

  abbrev pub nothing_sniffed : Sniffed
  nothing_sniffed = record { proto = none; qtype = none; override_target = none }

  abbrev pub first_question : Option (List (Bytes × ℕ)) → TargetAddr → Sniffed
  first_question (some ((qname, qtype) ∷ more)) target = record {
    proto = some (100 ∷ 110 ∷ 115 ∷ []);
    qtype = some qtype;
    override_target = some (domain qname (port target));
  }
  first_question _ target = nothing_sniffed

  unfoldable pub sniff_dns_target : Option Bytes → TargetAddr → Sniffed
  sniff_dns_target none target = nothing_sniffed
  sniff_dns_target (some payload) target = first_question (env.parse_dns payload) target

-- The rule's modes do not speak against it.
unfoldable pub in_mode : RouterMode → Rule → Bool
in_mode mode r = allows same_mode r.mode (some mode)

abbrev pub is_some : {A : Type 0} → Option A → Bool
is_some none = false
is_some (some x) = true

abbrev pub or_else : {A : Type 0} → Option A → A → A
or_else none y = y
or_else (some x) y = x

pub record Selected : Type 0 where
  pub outbound : ℕ
  pub final_target : TargetAddr
  pub matched_idx : Option ℕ
  pub is_fakeip : Bool

module _ (env : Answers) (mode : RouterMode) (original_target : TargetAddr) (inbound_tag : Bytes)
    (network : Option NetworkType) (payload : Option Bytes) where
  abbrev pub context : Sniffed env → Context
  context s = record {
    target = or_else s.override_target original_target;
    inbound_tag = inbound_tag;
    net = network;
    proto = s.proto;
    qtype = s.qtype;
  }

  -- What the loop has found: index, rule, and the target that the rule resolved.
  abbrev pub Found : Type 0
  Found = Option (ℕ × Rule × Option TargetAddr) × Sniffed env

  unfoldable pub try_rule : ℕ → Rule → Sniffed env → Found → Found
  try_rule i r s later =
      let (matched, resolved) = matches env r (context s) in
      if matched then (some (i, r, resolved), s) else later

  -- `for (i, rule) in self.rules.iter().enumerate()`
  unfoldable pub select_loop : List Rule → ℕ → Bool → Sniffed env → Found
  select_loop [] i has_sniffed s = (none, s)
  select_loop (r ∷ rules) i has_sniffed s =
      let skip = select_loop rules (i + 1) has_sniffed s in
      let s' =
        if not has_sniffed && is_some r.protocol
        then sniff_dns_target env payload original_target
        else s in
      let later = select_loop rules (i + 1) (has_sniffed || is_some r.protocol) s' in
      if not (in_mode mode r) then skip else try_rule i r s' later

  abbrev pub fakeip : Option ℕ → TargetAddr → Bool
  fakeip (some dns) (ip a) = env.is_fakeip dns (ip_of a)
  fakeip _ _ = false

  unfoldable pub finish : ℕ → Found → Selected
  finish default_outbound (some (i, r, resolved), s) = record {
    outbound = r.outbound;
    final_target = or_else resolved (or_else s.override_target original_target);
    matched_idx = some i;
    is_fakeip = fakeip r.dns original_target;
  }
  finish default_outbound (none, s) = record {
    outbound = default_outbound;
    final_target = or_else s.override_target original_target;
    matched_idx = none;
    is_fakeip = false;
  }

  unfoldable pub select_out : ℕ → List Rule → Selected
  select_out default_outbound rules =
      finish default_outbound (select_loop rules 0 false (nothing_sniffed env))
