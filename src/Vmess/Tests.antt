-- ===== src/Vmess/Tests.antt =====
-- The theorems on VMess at concrete inputs. The cipher here appends a tag of zeros.
use quic_proxy.Common.{
  ℕ, zero, suc, ◌-◌, ◌≤◌, ◌≡◌, refl, sym, Option, some, List, [], ◌∷◌, ◌++◌, ok, length, take,
  replicate, arith, length-append, take-append, true,
}
use quic_proxy.Common.Bytes.{Bytes, All}
use quic_proxy.Addr.{ip, v4}
use quic_proxy.Vmess.Server.{server_poll_read, server_poll_write, server_poll_read-eq-poll_read}
use quic_proxy.Vmess.{
  poll_read, Reader, Aead, AeadCipher, tag_len, Answer, accepts, seal_chunk, next, nonce, build,
  poll_write, write_state_step, flush_rounds, write_all,
}
use quic_proxy.Vmess.Reads.{read_many}
use quic_proxy.Vmess.Writes.{idle, Takes, encode, pieces, room}
use quic_proxy.Vmess.Roundtrip.{reader_of, write_all-read_many}
use quic_proxy.Vmess.Request.{
  VmessRequest, parse_request, request_header, parse_request-request_header,
}

plain_unseal-seal :
    (n m : Bytes)
    → some (take (length (m ++ replicate tag_len 0) - tag_len) (m ++ replicate tag_len 0)) ≡ some m
plain_unseal-seal n m =
    let size : length (m ++ replicate tag_len 0) - tag_len ≡ length m =
      omega (arith, length-append m (replicate tag_len 0)) in
    rw (size, take-append (length m) m (replicate tag_len 0) refl)

abbrev plain : Aead
plain = record {
  seal = λ n m. m ++ replicate tag_len 0;
  unseal = λ n c. some (take (length c - tag_len) c);
  unseal-seal = plain_unseal-seal;
  length-seal = λ n m. length-append m (replicate tag_len 0);
}

abbrev cipher : Option AeadCipher
cipher = some (record { iv = replicate 16 7; count = 65535 })

abbrev answers : List Answer
answers = replicate 30 (accepts 3)

answers_take : (n : ℕ) → All Takes (replicate n (accepts 3))
answers_take zero = tt
answers_take (suc n) = (omega arith, answers_take n)

answers_suffice :
    length (encode plain cipher (pieces (room plain cipher) 4 (1 ∷ 2 ∷ 3 ∷ []))) ≤ length answers
unfolding seal_chunk
answers_suffice = omega arith

written_bytes :
    (write_all plain 4 answers (1 ∷ 2 ∷ 3 ∷ []) (idle [] cipher)).0.out
    ≡ 0 ∷ 19 ∷ 1 ∷ 2 ∷ 3 ∷ replicate 16 0
unfolding write_all poll_write write_state_step flush_rounds build seal_chunk nonce next
written_bytes = refl

write_all-read_many_example :
    ((write_all plain 4 answers (1 ∷ 2 ∷ 3 ∷ []) (idle [] cipher)).2 ≡ some (ok 0))
    × (read_many plain
          (2 ∷ 1 ∷ 5 ∷ [])
          (reader_of ((0 ∷ []) ∷ (19 ∷ 1 ∷ 2 ∷ []) ∷ (3 ∷ replicate 16 0) ∷ []) cipher)
        ≡ ok (1 ∷ 2 ∷ 3 ∷ []))
write_all-read_many_example =
    write_all-read_many plain cipher (1 ∷ 2 ∷ 3 ∷ []) answers
      ((0 ∷ []) ∷ (19 ∷ 1 ∷ 2 ∷ []) ∷ (3 ∷ replicate 16 0) ∷ []) (2 ∷ 1 ∷ 5 ∷ []) (answers_take 30)
      answers_suffice ((λ e. cc), ((λ e. cc), ((λ e. cc), tt))) (sym written_bytes)
      (omega arith, (omega arith, (omega arith, tt))) (omega arith)

abbrev request : VmessRequest
request = record {
  dst = ip (v4 (1 ∷ 2 ∷ 3 ∷ 4 ∷ []) 443);
  security = 3;
  is_udp = true;
  req_body_iv = replicate 16 5;
  req_body_key = replicate 16 6;
  resp_v = 9;
}

parse_request-request_header_example :
    parse_request (request_header (λ buf. length buf) request (8 ∷ 8 ∷ [])) ≡ ok request
parse_request-request_header_example =
    parse_request-request_header (λ buf. length buf) request (8 ∷ 8 ∷ []) refl refl (omega arith)
      (omega arith) (refl, omega arith)

abbrev idle_reader : Reader
idle_reader = reader_of ((0 ∷ 19 ∷ 1 ∷ []) ∷ []) cipher

server_poll_read-eq-poll_read_example :
    (server_poll_read plain 4 idle_reader ≡ poll_read plain 4 idle_reader)
    × (server_poll_write plain (accepts 3 ∷ accepts 40 ∷ []) (1 ∷ []) (idle [] cipher)
        ≡ poll_write plain (accepts 3 ∷ accepts 40 ∷ []) (1 ∷ []) (idle [] cipher))
server_poll_read-eq-poll_read_example =
    server_poll_read-eq-poll_read plain 4 idle_reader (accepts 3 ∷ accepts 40 ∷ []) (1 ∷ [])
      (idle [] cipher)
