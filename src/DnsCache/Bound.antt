-- ===== src/DnsCache/Bound.antt =====
-- How many responses the cache keeps in memory (src/dns/cache.rs: remember and its callers).
use quic_proxy.Common.{
  ℕ, suc, ◌<◌, ◌≤◌, ◌≡◌, Bool, true, false, Option, none, some, [], ◌∷◌, length, take, drop, ltb,
  leb, arith, Bool-cases, inl, inr,
}
use quic_proxy.Common.Bytes.{Bytes}
use quic_proxy.Common.Assoc.{Assoc, bytes_eq, lookup, insert, remove, contains_key, length-remove}
use quic_proxy.DnsCache.{
  Entry, DnsCache, memory_entries, expiry_len, from_be64, make_room, remember, remove_expired,
  get_raw, get_disk, get_memory, get, set, forget,
}

abbrev pub IsBounded : Assoc Bytes Entry → Type 0
IsBounded memory = length memory ≤ memory_entries

length-remove_found :
    (key : Bytes) (memory : Assoc Bytes Entry)
    → contains_key key memory ≡ true
    → suc (length (remove key memory)) ≤ length memory
unfolding contains_key remove
length-remove_found key [] h = cc
length-remove_found key ((j, v) ∷ memory) h =
    ground (arith, length-remove_found key memory, length-remove key memory)

make_room-room :
    (now : ℕ) (memory : Assoc Bytes Entry) → length (make_room now memory) < memory_entries
unfolding make_room
make_room-room now memory = ground arith

remember-IsBounded :
    (key response : Bytes) (expiry now : ℕ) (memory : Assoc Bytes Entry)
    → IsBounded memory
    → IsBounded (remember key response expiry now memory)
unfolding remember insert
remember-IsBounded key response expiry now memory h =
    elim (Bool-cases (leb memory_entries (length memory))) [
      | inr few ↦ rw few (let r = length-remove key memory in ground arith)
      | inl full ↦ elim (Bool-cases (contains_key key memory)) [
        | inl found ↦ rw (full, found) (let r = length-remove_found key memory found in omega arith)
        | inr missing ↦
            rw (full, missing)
              (omega (arith, make_room-room now memory, length-remove key (make_room now memory)))
      ]
    ]

remove_expired-IsBounded :
    (key : Bytes) (now : ℕ) (found : Option Entry) (memory : Assoc Bytes Entry)
    → IsBounded memory
    → IsBounded (remove_expired key now found memory)
unfolding remove_expired
remove_expired-IsBounded key now none memory h = h
remove_expired-IsBounded key now (some entry) memory h = ground (arith, length-remove key memory)

get_raw-IsBounded :
    (works : Bool) (key : Bytes) (now : ℕ) (c : DnsCache) (raw : Option Bytes)
    → IsBounded c.memory
    → IsBounded (get_raw works key now c raw).0.memory
unfolding get_raw
get_raw-IsBounded works key now c none h = h
get_raw-IsBounded works key now c (some raw) h = elim (Bool-cases (ltb expiry_len (length raw))) [
  | inr short ↦ rw short h
  | inl long ↦ elim (Bool-cases (ltb now (from_be64 (take expiry_len raw)))) [
    | inr stale ↦ rw (long, stale) h
    | inl fresh ↦
        rw (long, fresh)
          (remember-IsBounded key (drop expiry_len raw) (from_be64 (take expiry_len raw)) now
            c.memory h)
  ]
]

get_disk-IsBounded :
    (works : Bool) (key : Bytes) (now : ℕ) (c : DnsCache)
    → IsBounded c.memory
    → IsBounded (get_disk works key now c).0.memory
unfolding get_disk
get_disk-IsBounded true key now c h = get_raw-IsBounded true key now c (lookup key c.disk) h
get_disk-IsBounded false key now c h = h

get_memory-IsBounded :
    (works : Bool) (key : Bytes) (now : ℕ) (c : DnsCache) (found : Option Entry)
    → IsBounded c.memory
    → IsBounded (get_memory works key now c found).0.memory
unfolding get_memory
get_memory-IsBounded works key now c none h =
    get_disk-IsBounded works key now _ (remove_expired-IsBounded key now none c.memory h)
get_memory-IsBounded works key now c (some entry) h = elim (Bool-cases (ltb now entry.expiry)) [
  | inl fresh ↦ rw fresh h
  | inr stale ↦ rw stale (
      get_disk-IsBounded works key now _ (remove_expired-IsBounded key now (some entry) c.memory h))
]

-- No call of get, set or remove, whether the database answers or fails, makes the cache keep more
-- than 2048 responses in memory, if it did not before.
pub memory-IsBounded :
    (works : Bool) (key response : Bytes) (ttl now : ℕ) (c : DnsCache)
    → IsBounded c.memory
    → IsBounded (get works key now c).0.memory
      × IsBounded (set works key response ttl now c).memory
      × IsBounded (forget works key c).memory
unfolding get set forget
memory-IsBounded works key response ttl now c h = (
  get_memory-IsBounded works key now c (lookup key c.memory) h,
  remember-IsBounded key response _ now c.memory h,
  omega (arith, length-remove key c.memory),
)
