-- ===== src/DnsCache/Reads.antt =====
-- What a response that was stored is read as (src/dns/cache.rs: get, set).
use quic_proxy.Common.{
  ℕ, ◌+◌, ◌/◌, ◌%◌, ◌^◌, ◌<◌, ◌≤◌, ◌≡◌, refl, Bool, true, false, Option, none, some, List, ◌∷◌, ◌∙◌,
  ap, ltb, if_both, [], ◌++◌, length, take, drop, arith, lt→ltb,
}
use quic_proxy.Common.Bytes.{Bytes, from_be32-be32}
use quic_proxy.Common.Assoc.{Assoc, bytes_eq, lookup, lookup-insert_self}
use quic_proxy.DnsCache.{
  Entry, DnsCache, be64, from_be64, remember, remove_expired, get_raw, get_disk, get_memory, get,
  set, forget, expiry_len, flush_writes, restart, CacheCall, get_call, set_call, remove_call,
  cache_call, cache_calls,
}

lookup-remember :
    (key response : Bytes) (expiry now : ℕ) (memory : Assoc Bytes Entry)
    → lookup key (remember key response expiry now memory)
      ≡ some (record { response = response; expiry = expiry })
unfolding remember
lookup-remember key response expiry now memory = lookup-insert_self key _ _

-- A response that was set is what get finds until its time is over, whether the database works or
-- not, if the time of expiry fits 64 bits.
pub get-set :
    (works works' : Bool) (key response : Bytes) (ttl now later : ℕ) (c : DnsCache)
    → now + ttl < 2 ^ 64
    → later < now + ttl
    → (get works' key later (set works key response ttl now c)).1 ≡ some (response, now + ttl)
unfolding get set get_memory
get-set works works' key response ttl now later c h fresh =
    let time : (now + ttl) % 2 ^ 64 ≡ now + ttl = omega arith in
    rw (time, lookup-remember key response (now + ttl) now c.memory, lt→ltb later (now + ttl) fresh)

from_be64-be64 : (x : ℕ) (rest : Bytes) → x < 2 ^ 64 → from_be64 (take 8 (be64 x ++ rest)) ≡ x
unfolding be64 from_be64
from_be64-be64 x rest h =
    rw (from_be32-be32 (x / 2 ^ 32) (omega arith), from_be32-be32 (x % 2 ^ 32) (omega arith))
      (omega arith)

drop-be64 : (x : ℕ) (rest : Bytes) → drop 8 (be64 x ++ rest) ≡ rest
unfolding be64
drop-be64 x rest = refl

length-be64 : (x : ℕ) (rest : Bytes) → length (be64 x ++ rest) ≡ 8 + length rest
unfolding be64
length-be64 x rest = omega arith

-- What get finds on disk.
get-disk :
    (key response : Bytes) (expiry later : ℕ) (c : DnsCache)
    → c.memory ≡ []
    → lookup key c.disk ≡ some (be64 expiry ++ response)
    → expiry < 2 ^ 64
    → later < expiry
    → 1 ≤ length response
    → (get true key later c).1 ≡ some (response, expiry)
unfolding get get_memory get_disk get_raw remove_expired lookup
get-disk key response expiry later c empty stored h fresh some_bytes =
    let long : 8 < length (be64 expiry ++ response) = omega (arith, length-be64 expiry response) in
    rw (
      empty,
      stored,
      lt→ltb 8 (length (be64 expiry ++ response)) long,
      from_be64-be64 expiry response h,
      lt→ltb later expiry fresh,
      drop-be64 expiry response,
    )

get_raw-durable :
    (works : Bool) (key : Bytes) (now : ℕ) (c : DnsCache) (raw : Option Bytes)
    → (get_raw works key now c raw).0.durable ≡ c.durable
unfolding get_raw
get_raw-durable works key now c none = refl
get_raw-durable works key now c (some raw) =
    if_both Kept (ltb expiry_len (length raw))
      (if_both Kept (ltb now (from_be64 (take expiry_len raw))) refl refl) refl
  where
    Kept : DnsCache × Option (Bytes × ℕ) → Type 0
    Kept x = x.0.durable ≡ c.durable

get_disk-durable :
    (works : Bool) (key : Bytes) (now : ℕ) (c : DnsCache)
    → (get_disk works key now c).0.durable ≡ c.durable
unfolding get_disk
get_disk-durable true key now c = get_raw-durable true key now c (lookup key c.disk)
get_disk-durable false key now c = refl

get_memory-durable :
    (works : Bool) (key : Bytes) (now : ℕ) (c : DnsCache) (found : Option Entry)
    → (get_memory works key now c found).0.durable ≡ c.durable
unfolding get_memory
get_memory-durable works key now c none = get_disk-durable works key now _
get_memory-durable works key now c (some entry) =
    if_both (λ (x : DnsCache × Option (Bytes × ℕ)). x.0.durable ≡ c.durable) (ltb now entry.expiry)
      refl (get_disk-durable works key now _)

cache_call-durable : (call : CacheCall) (c : DnsCache) → (cache_call call c).durable ≡ c.durable
unfolding cache_call get set forget
cache_call-durable (get_call works key now) c =
    get_memory-durable works key now c (lookup key c.memory)
cache_call-durable (set_call works key response ttl now) c = refl
cache_call-durable (remove_call works key) c = refl

cache_calls-durable :
    (calls : List CacheCall) (c : DnsCache) → (cache_calls calls c).durable ≡ c.durable
unfolding cache_calls
cache_calls-durable [] c = refl
cache_calls-durable (call ∷ calls) c =
    cache_calls-durable calls (cache_call call c) ∙ cache_call-durable call c

-- A response of one byte at least is set while the database works. If the writes are flushed then, get
-- finds it again, until its time is over, in a new process that starts after any further calls that
-- are not flushed, even after a crash, if the database works there and the time of expiry fits 64
-- bits. If nothing is flushed after it, get finds in the new process what it would have found without
-- that call and the further ones.
pub get-set_restarted :
    (key response : Bytes) (ttl now later : ℕ) (calls : List CacheCall) (c : DnsCache)
    → now + ttl < 2 ^ 64
    → later < now + ttl
    → 1 ≤ length response
    → ((get true key later
          (restart (cache_calls calls (flush_writes true (set true key response ttl now c))))).1
        ≡ some (response, now + ttl))
      × ((get true key later (restart (cache_calls calls (set true key response ttl now c)))).1
          ≡ (get true key later (restart c)).1)
unfolding set flush_writes
get-set_restarted key response ttl now later calls c h fresh some_bytes =
    let time : (now + ttl) % 2 ^ 64 ≡ now + ttl = omega arith in
    let flushed = flush_writes true (set true key response ttl now c) in
    let stored : lookup key flushed.durable ≡ some (be64 (now + ttl) ++ response) =
      rw time (lookup-insert_self key (be64 (now + ttl) ++ response) c.disk) in
    (
      get-disk key response (now + ttl) later (restart (cache_calls calls flushed)) refl
          (ap (lookup key) (cache_calls-durable calls flushed) ∙ stored) h fresh some_bytes,
      ap
          (λ d.
            (get true key later (record { memory = []; disk = d; durable = d; dirty = false })).1)
          (cache_calls-durable calls (set true key response ttl now c)),
    )
