-- ===== src/DnsCache.antt =====
-- The response cache of a DNS server (src/dns/cache.rs) over its table of the database
-- (src/cache/redb_store.rs). `disk` is the table as its readers see it and `durable` what a crash leaves
-- of it: writes commit without being durable, and a flush makes all of them durable. `works` says of a
-- call whether the database answers it or fails, which is also all that `set` returns. Time is in
-- seconds.
pub mod Bound
pub mod Reads
pub mod Flights
pub mod Tests
use quic_proxy.Common.{
  ℕ, ◌+◌, ◌*◌, ◌/◌, ◌%◌, ◌^◌, Bool, true, false, not, ◌&&◌, ◌||◌, Option, none, some, List, [], ◌∷◌,
  ◌++◌, length, take, drop, ltb, leb, if◌then◌else◌,
}
use quic_proxy.Common.Bytes.{Bytes, be32, from_be32}
use quic_proxy.Common.Assoc.{Assoc, bytes_eq, lookup, insert, remove, retain, contains_key}

abbrev pub memory_entries : ℕ
memory_entries = 2048

abbrev pub expiry_len : ℕ
expiry_len = 8

pub record Entry : Type 0 where
  pub response : Bytes
  pub expiry : ℕ

pub record DnsCache : Type 0 where
  pub memory : Assoc Bytes Entry
  pub disk : Assoc Bytes Bytes
  pub durable : Assoc Bytes Bytes
  pub dirty : Bool

-- `u64::to_be_bytes`, `u64::from_be_bytes`
unfoldable pub be64 : ℕ → Bytes
be64 x = be32 (x / 2 ^ 32) ++ be32 (x % 2 ^ 32)

unfoldable pub from_be64 : Bytes → ℕ
from_be64 (a ∷ b ∷ c ∷ d ∷ e ∷ f ∷ g ∷ h ∷ rest) = from_be32 a b c d * 2 ^ 32 + from_be32 e f g h
from_be64 _ = 0

-- `memory.retain(…)`, and `memory.clear()` if that is not enough
unfoldable pub make_room : ℕ → Assoc Bytes Entry → Assoc Bytes Entry
make_room now memory =
    let kept = retain (λ entry. ltb now entry.expiry) memory in
    if leb memory_entries (length kept) then [] else kept

unfoldable pub remember : Bytes → Bytes → ℕ → ℕ → Assoc Bytes Entry → Assoc Bytes Entry
remember key response expiry now memory =
    let room =
      if leb memory_entries (length memory) && not (contains_key key memory)
      then make_room now memory
      else memory in
    insert key (record { response = response; expiry = expiry }) room

-- `memory.remove_if(key, |_, entry| entry.expiry <= now)`
unfoldable pub remove_expired : Bytes → ℕ → Option Entry → Assoc Bytes Entry → Assoc Bytes Entry
remove_expired key now none memory = memory
remove_expired key now (some entry) memory =
    if leb entry.expiry now then remove key memory else memory

abbrev pub delete : Bool → Bytes → Assoc Bytes Bytes → Assoc Bytes Bytes
delete works key disk = if works then remove key disk else disk

-- What `get` does with the raw bytes of the table.
unfoldable pub get_raw : Bool → Bytes → ℕ → DnsCache → Option Bytes → DnsCache × Option (Bytes × ℕ)
get_raw works key now c none = (c, none)
get_raw works key now c (some raw) =
    let dropped = record c { disk = delete works key c.disk; dirty = works || c.dirty } in
    let expiry = from_be64 (take expiry_len raw) in
    let response = drop expiry_len raw in
    if ltb expiry_len (length raw)
    then if ltb now expiry
      then (
        record c { memory = remember key response expiry now c.memory },
        some (response, expiry),
      )
      else (dropped, none)
    else (dropped, none)

unfoldable pub get_disk : Bool → Bytes → ℕ → DnsCache → DnsCache × Option (Bytes × ℕ)
get_disk works key now c = if works then get_raw works key now c (lookup key c.disk) else (c, none)

unfoldable pub get_memory :
    Bool → Bytes → ℕ → DnsCache → Option Entry → DnsCache × Option (Bytes × ℕ)
get_memory works key now c found =
    let later =
      get_disk works key now (record c { memory = remove_expired key now found c.memory }) in
    elim found [
      | none ↦ later
      | some entry ↦
          if ltb now entry.expiry then (c, some (entry.response, entry.expiry)) else later
    ]

unfoldable pub get : Bool → Bytes → ℕ → DnsCache → DnsCache × Option (Bytes × ℕ)
get works key now c = get_memory works key now c (lookup key c.memory)

unfoldable pub set : Bool → Bytes → Bytes → ℕ → ℕ → DnsCache → DnsCache
set works key response ttl now c =
    let expiry = (now + ttl) % 2 ^ 64 in
    record c {
      memory = remember key response expiry now c.memory;
      disk = if works then insert key (be64 expiry ++ response) c.disk else c.disk;
      dirty = works || c.dirty;
    }

-- `DnsCache::remove`
unfoldable pub forget : Bool → Bytes → DnsCache → DnsCache
forget works key c = record c {
  memory = remove key c.memory;
  disk = delete works key c.disk;
  dirty = works || c.dirty;
}

-- `SharedDb::flush`; the database commits or fails.
unfoldable pub flush_writes : Bool → DnsCache → DnsCache
flush_writes works c =
    if c.dirty then if works then record c { durable = c.disk; dirty = false } else c else c

-- What a new process has after a crash or the end of the old one: the durable table.
abbrev pub restart : DnsCache → DnsCache
restart c = record { memory = []; disk = c.durable; durable = c.durable; dirty = false }

-- A call of get, set or remove.
pub data CacheCall : Type 0 where
  get_call : Bool → Bytes → ℕ → CacheCall
  set_call : Bool → Bytes → Bytes → ℕ → ℕ → CacheCall
  remove_call : Bool → Bytes → CacheCall

unfoldable pub cache_call : CacheCall → DnsCache → DnsCache
cache_call (get_call works key now) c = (get works key now c).0
cache_call (set_call works key response ttl now) c = set works key response ttl now c
cache_call (remove_call works key) c = forget works key c

unfoldable pub cache_calls : List CacheCall → DnsCache → DnsCache
cache_calls [] c = c
cache_calls (call ∷ calls) c = cache_calls calls (cache_call call c)
