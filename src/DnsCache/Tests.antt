-- ===== src/DnsCache/Tests.antt =====
-- The theorems on the DNS cache at concrete inputs.
use quic_proxy.Common.{◌≡◌, true, false, some, List, [], ◌∷◌, arith}
use quic_proxy.Common.Bytes.{Bytes}
use quic_proxy.DnsCache.{
  DnsCache, get, set, forget, flush_writes, restart, CacheCall, get_call, remove_call, cache_calls,
}
use quic_proxy.DnsCache.Bound.{IsBounded, memory-IsBounded}
use quic_proxy.DnsCache.Reads.{get-set_restarted}

abbrev question : Bytes
question = 97 ∷ []

abbrev one_entry : DnsCache
one_entry = record {
  memory = (98 ∷ [], record { response = 5 ∷ []; expiry = 40 }) ∷ [];
  disk = [];
  durable = [];
  dirty = false;
}

memory-IsBounded_example :
    IsBounded (get true question 50 one_entry).0.memory
    × IsBounded (set true question (1 ∷ 2 ∷ []) 60 50 one_entry).memory
    × IsBounded (forget true question one_entry).memory
memory-IsBounded_example = memory-IsBounded true question (1 ∷ 2 ∷ []) 60 50 one_entry (omega arith)

abbrev later_calls : List CacheCall
later_calls = remove_call true question ∷ get_call true question 55 ∷ []

get-set_restarted_example :
    ((get true question 109 (
        restart (
          cache_calls later_calls
            (flush_writes true (set true question (1 ∷ 2 ∷ []) 60 50 one_entry))))).1
      ≡ some (1 ∷ 2 ∷ [], 110))
    × ((get true question 109
          (restart (cache_calls later_calls (set true question (1 ∷ 2 ∷ []) 60 50 one_entry)))).1
        ≡ (get true question 109 (restart one_entry)).1)
get-set_restarted_example =
    get-set_restarted question (1 ∷ 2 ∷ []) 60 50 109 later_calls one_entry (omega arith)
      (omega arith) (omega arith)
