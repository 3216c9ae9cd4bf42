-- ===== src/Lms/Link.antt =====
-- The read loop of `SlimProtoClient::run` and `maybeHeartbeat`, src/lms/slimproto.cpp. The socket is
-- the list of the bytes that it will still deliver; an event is one round of the loop: what `poll`
-- and the receive that follows it return. `handled` is a history of the packets given to `process`.
pub mod Stream
pub mod Packets
use squeeze2raop.Base.{
  ℕ, ◌+◌, ◌-◌, ◌*◌, ◌≤◌, List, [], ◌∷◌, ◌++◌, length, take, drop, min, ltb, leb, ◌==◌, not, ◌&&◌,
  ◌||◌, if◌then◌else◌, Option, none, some, Bool, true, false, Checked, ok, oob, sub64, u32,
}
use squeeze2raop.Common.ByteOrder.{big, wire_value}
use squeeze2raop.Lms.Protocol.{StreamStats, min_packet_bytes, max_packet_bytes}
use squeeze2raop.Lms.Stat
use squeeze2raop.Lms.Client.{Client, send_stat}
use squeeze2raop.Lms.Process.{Env, process, provided}

abbrev pub read_drain_buffer_bytes : ℕ
read_drain_buffer_bytes = 2048

abbrev pub heartbeat_interval_ms : ℕ
heartbeat_interval_ms = 1000

pub record Link : Type 0 where
  pub incoming : List ℕ
  pub expect : ℕ
  pub buf : List ℕ
  pub client : Client
  pub last_server_msg_ms : ℕ
  pub server_timeout_ms : ℕ
  pub handled : List (List ℕ)

-- `readable n`: the descriptor is readable and the kernel holds at most `n` bytes.
pub data Event : Type 0 where
  interrupted : Event
  poll_failed : Event
  idle : Event
  readable : ℕ → Event
  again : Event

-- The loop goes on, the connection is given up, or a handler faulted.
pub data Outcome : Type 0 where
  going : Link → Outcome
  lost : Link → Outcome
  fault : Outcome

unfoldable pub maybe_heartbeat : Env → Client → Client
maybe_heartbeat env c =
    if leb heartbeat_interval_ms (sub64 env.now c.last_heartbeat_ms)
    then send_stat Stat.heartbeat (provided env.provider) 0 env.now
        (record c { last_heartbeat_ms = env.now })
    else c

-- The silence watchdog of an idle round.
unfoldable pub is_silent : Env → Link → Bool
is_silent env l =
    not (l.server_timeout_ms == 0)
    && (not (l.last_server_msg_ms == 0)
        && ltb l.server_timeout_ms (sub64 env.now l.last_server_msg_ms))

unfoldable pub on_idle : Env → Link → Outcome
on_idle env l =
    let l' = record l { client = maybe_heartbeat env l.client } in
    if is_silent env l' then lost l' else going l'

-- A length prefix: `recvFully` waits for both bytes, and fails at the end of the stream.
unfoldable pub on_prefix : List ℕ → Link → Outcome
on_prefix (a ∷ b ∷ rest) l =
    let expect = wire_value big (a ∷ b ∷ []) in
    if ltb max_packet_bytes expect || ltb expect min_packet_bytes
    then lost (record l { incoming = rest; expect = expect })
    else going (record l { incoming = rest; expect = expect; buf = [] })
on_prefix _ l = lost l

-- A whole packet goes to `process`.
unfoldable pub on_packet : Env → Link → Outcome
on_packet env l = elim (process env l.buf l.client) [
  | ok c ↦ going (record l {
    expect = 0;
    buf = [];
    client = c;
    last_server_msg_ms = env.now;
    handled = l.handled ++ (l.buf ∷ []);
  })
  | oob ↦ fault
]

-- `recv` of at most `want` bytes, when the kernel holds `n`; nothing is the end of the stream.
unfoldable pub on_chunk : Env → ℕ → Link → Outcome
on_chunk env n l =
    let want = min read_drain_buffer_bytes (l.expect - length l.buf) in
    let chunk = take (min want n) l.incoming in
    let l' = record l { incoming = drop (min want n) l.incoming; buf = l.buf ++ chunk } in
    if length chunk == 0
    then lost l
    else if length l'.buf == l'.expect
    then on_packet env l'
    else going l'

unfoldable pub round : Env → Event → Link → Outcome
round env interrupted l = going l
round env poll_failed l = lost l
round env idle l = on_idle env l
round env (readable n) l = if l.expect == 0 then on_prefix l.incoming l else on_chunk env n l
round env again l = if l.expect == 0 then lost l else going l

-- The loop over the rounds that the environment gives; each has its own clock and handlers.
unfoldable pub rounds : List (Env × Event) → Link → Outcome
rounds [] l = going l
rounds ((env, e) ∷ es) l = elim (round env e l) [
  | going l' ↦ rounds es l'
  | lost l' ↦ lost l'
  | fault ↦ fault
]

-- The link behind a fresh connection: `lastServerMsgMs_` is the time of the connect.
abbrev pub fresh : List ℕ → Client → ℕ → ℕ → Link
fresh stream c now timeout = record {
  incoming = stream;
  expect = 0;
  buf = [];
  client = c;
  last_server_msg_ms = now;
  server_timeout_ms = timeout;
  handled = [];
}

-- Seconds to wait after `fails` failed connects, on `unsigned`.
unfoldable pub reconnect_delay : ℕ → ℕ
reconnect_delay fails = min (u32 (fails * 2)) 15
