-- ===== src/Hysteria2/Response.antt =====
-- The TCPResponse parser (src/proxy/outbound/hysteria2/mod.rs: ResponseReader, ResponseStep).
-- `parse_step` loops until the frame is complete or bytes are missing; a round moves to a later
-- step, so that seven rounds are enough.
pub mod Rounds
pub mod Pieces
pub mod Frame
use quic_proxy.Common.{
  ℕ, zero, suc, ◌+◌, ◌<◌, ◌≤◌, ◌≡◌, refl, ◌∙◌, Bool, true, false, Option, none, some, List, [], ◌∷◌,
  ◌++◌, Result, ok, err, length, take, drop, ltb, ◌==◌, if◌then◌else◌, arith, ◌≢◌,
}
use quic_proxy.Common.Bytes.{Bytes}
use quic_proxy.Common.Utf8.{from_utf8_lossy}
use quic_proxy.Hysteria2.Varint.{tail_len, read_varint}

abbrev pub max_tcp_response_message : ℕ
max_tcp_response_message = 2048

abbrev pub max_tcp_response_padding : ℕ
max_tcp_response_padding = 4096

pub data ResponseStep : Type 0 where
  status msg_len pad_len done : ResponseStep
  msg pad : ℕ → ResponseStep

pub record ResponseReader : Type 0 where
  pub buf : Bytes
  pub step : ResponseStep
  pub remote_error : Option Bytes

pub data ResponseError : Type 0 where
  bad_varint message_too_long padding_too_long : ResponseError

-- One round of the loop of `parse_step`: it goes on, or it returns.
pub data Round : Type 0 where
  advance : ResponseReader → Round
  complete need_more : Round
  fail : ResponseError → Round

abbrev pub new_reader : ResponseReader
new_reader = record { buf = []; step = status; remote_error = none }

-- `if self.buf.len() < varint_bytes { return More }; let (len, used) = read_varint(&self.buf)?;
-- if len > limit { bail!(…) }`
unfoldable pub read_length :
    ℕ → ResponseError → (ℕ → ResponseStep) → ℕ → Bytes → Option Bytes → Round
read_length limit too_long next first rest e =
    if ltb (length (first ∷ rest)) (tail_len first)
    then need_more
    else elim (read_varint (first ∷ rest)) [
      | ok (len, used) ↦
          if ltb limit len
          then fail too_long
          else advance
              (record { buf = drop used (first ∷ rest); step = next len; remote_error = e })
      | err x ↦ fail bad_varint
    ]

-- `if self.remote_error.is_some() { self.remote_error = Some(msg) }`
abbrev pub keep_message : Option Bytes → Bytes → Option Bytes
keep_message none text = none
keep_message (some old) text = some (from_utf8_lossy text)

unfoldable pub round : ResponseStep → Bytes → Option Bytes → Round
round done buf e = complete
round status [] e = need_more
round status (b ∷ rest) e =
    advance (record { buf = rest; step = msg_len; remote_error = if b == 0 then e else some [] })
round msg_len [] e = need_more
round msg_len (b ∷ rest) e = read_length max_tcp_response_message message_too_long msg b rest e
round (msg len) buf e =
    if ltb (length buf) len
    then need_more
    else advance (record {
      buf = drop len buf;
      step = pad_len;
      remote_error = keep_message e (take len buf);
    })
round pad_len [] e = need_more
round pad_len (b ∷ rest) e = read_length max_tcp_response_padding padding_too_long pad b rest e
round (pad len) buf e =
    if ltb (length buf) len
    then need_more
    else advance (record { buf = drop len buf; step = done; remote_error = e })

-- What `parse_step` returns: `Ok(None)`, `Ok(Some(More))` or an error. `stuck` is no value of the
-- program: the fuel ran out.
pub data Parsed : Type 0 where
  parsed wants_more stuck : Parsed
  failed : ResponseError → Parsed

unfoldable pub parse_loop : ℕ → ResponseReader → ResponseReader × Parsed
parse_loop zero r = (r, stuck)
parse_loop (suc fuel) r = elim (round r.step r.buf r.remote_error) [
  | advance r' ↦ parse_loop fuel r'
  | complete ↦ (r, parsed)
  | need_more ↦ (r, wants_more)
  | fail e ↦ (r, failed e)
]

unfoldable pub parse_step : ResponseReader → ResponseReader × Parsed
unfolding parse_loop
parse_step r = parse_loop 7 r

-- `self.response.buf.put_slice(…)` of poll_response
abbrev pub feed : Bytes → ResponseReader → ResponseReader
feed more r = record r { buf = r.buf ++ more }
