-- ===== src/Lms/Process.antt =====
-- `SlimProtoClient::process` of src/lms/slimproto_packets.cpp: one server packet. The std::function
-- members are parameters: `handle` gives the session's handler of each callback, none where it is
-- not set, and a handler may use the client. Every reading of the clock within one packet gives
-- `now`. The volume callback carries the two gains; the handler applies `lmsSliderPctFromGain`.
pub mod Safety
pub mod Start
pub mod Names
use squeeze2raop.Base.{
  ℕ, ◌+◌, ◌%◌, List, [], ◌∷◌, ◌++◌, length, take, ltb, leb, ◌==◌, if◌then◌else◌, Option, none, some,
  Bool, true, false, not, Checked, ok, oob, bit_and, u8, same_bytes, codes,
}
use squeeze2raop.Lms.Protocol.{
  PcmParams, StrmStart, StreamStats, no_stats, min_packet_bytes, setd_min_bytes, audg_min_bytes,
  aude_min_bytes, codc_min_bytes, serv_min_bytes, strm_min_bytes, strm_start_min_bytes,
  strm_flag_ssl,
}
use squeeze2raop.Lms.Op
use squeeze2raop.Lms.Stat
use squeeze2raop.Lms.Packet.{Reader, Read, ◌>>=◌, pure, field, skip, take_int, u32_at, tail}
use squeeze2raop.Lms.Client.{Client, send_stat, send_setd_name}

pub data Callback : Type 0 where
  on_stop : Callback
  on_flush : Bool → Callback
  on_pause : ℕ → Callback
  on_skip_ahead : ℕ → Callback
  on_unpause : ℕ → Callback
  on_start : StrmStart → Callback
  on_cont : ℕ → Callback
  on_codc : ℕ → PcmParams → Callback
  on_volume : ℕ → ℕ → Callback
  on_aude : Bool → Callback
  on_set_name : List ℕ → Callback
  on_server_switch : ℕ → Callback

pub record Env : Type 0 where
  pub handle : Callback → Option (Client → Client)
  pub provider : Option StreamStats
  pub now : ℕ

-- `if (events_.f) events_.f(..)`.
unfoldable pub fire : Env → Callback → Client → Client
fire env cb c = elim (env.handle cb) [ none ↦ c | some f ↦ f c ]

abbrev pub stat : Env → List ℕ → StreamStats → ℕ → Client → Client
stat env event st timestamp = send_stat event st timestamp env.now

-- The value of a read that was defined; its cursor is dropped.
abbrev pub finish : {A : Type 0} → Checked (A × Reader) → Checked A
finish (ok (a, r)) = ok a
finish oob = oob

-- `if (!r.skip(n)) return;`
abbrev pub need : {A : Type 0} → ℕ → Read (Option A) → Read (Option A)
need n rest = skip n >>= λ b. if b then rest else pure none

-- The fields of 'strm s' behind the command byte, whose length was checked.
unfoldable pub read_start : Read (Option StrmStart)
read_start = do
  autostart ← field 1
  format ← field 1
  size ← field 1
  rate ← field 1
  channels ← field 1
  endian ← field 1
  threshold ← field 1
  need 1 do
    period ← field 1
    transition ← field 1
    flags ← field 1
    need 1 (
        need 1 do
          gain ← field 4
          port ← field 2
          ip ← field 4
          λ r. ok (
            some (record {
              autostart = u8 (autostart + 208);
              format = format;
              pcm = record {
                sample_size_code = size;
                sample_rate_code = rate;
                channels_code = channels;
                endian_code = endian;
              };
              threshold_kb = threshold;
              transition_type = u8 (transition + 208);
              transition_period_s = period;
              flags = flags;
              ssl = not (bit_and flags strm_flag_ssl == 0);
              replay_gain = gain;
              server_ip = ip;
              server_port = port;
              request = tail r;
            }),
            r,
          ))

-- What follows an early return or a value: the client stays, or goes on.
abbrev pub when_some :
    {A : Type 0} → (A → Client → Client) → Client → Checked (Option A) → Checked Client
when_some f c (ok none) = ok c
when_some f c (ok (some a)) = ok (f a c)
when_some f c oob = oob

abbrev pub body : List ℕ → Reader
body p = record { packet = p; offset = 4 }

unfoldable pub provided : Option StreamStats → StreamStats
provided none = no_stats
provided (some st) = st

unfoldable pub heartbeat : Env → ℕ → Client → Client
heartbeat env ts c = record (stat env Stat.heartbeat (provided env.provider) ts c) {
  last_heartbeat_ms = env.now;
}

unfoldable pub pause : Env → ℕ → Client → Client
pause env ms c =
    let c' = fire env (on_pause ms) c in if ms == 0 then stat env Stat.pause c'.stats 0 c' else c'

unfoldable pub unpause : Env → ℕ → Client → Client
unpause env jiffies c =
    let c' = fire env (on_unpause jiffies) c in stat env Stat.resume c'.stats 0 c'

unfoldable pub start : Env → StrmStart → Client → Client
start env st c = fire env (on_start st) (stat env Stat.flush c.stats 0 c)

-- The `switch` on the command byte of 'strm'.
unfoldable pub strm_command : Env → List ℕ → ℕ → Reader → Client → Checked Client
strm_command env p command r c =
    if command == b't'
    then when_some (heartbeat env) c (u32_at p 18)
    else if command == b'q'
    then ok (fire env on_stop c)
    else if command == b'f'
    then ok (fire env (on_flush true) c)
    else if command == b'p'
    then when_some (pause env) c (u32_at p 18)
    else if command == b'a'
    then when_some (λ ms. fire env (on_skip_ahead ms)) c (u32_at p 18)
    else if command == b'u'
    then when_some (unpause env) c (u32_at p 18)
    else if command == b's'
    then (if ltb (length p) strm_start_min_bytes
        then ok c
        else when_some (start env) c (finish (read_start r)))
    else ok c

unfoldable pub strm : Env → List ℕ → Client → Checked Client
strm env p c =
    if ltb (length p) strm_min_bytes
    then ok c
    else elim (field 1 (body p)) [ ok (command, r) ↦ strm_command env p command r c | oob ↦ oob ]

unfoldable pub cont : Env → List ℕ → Client → Checked Client
cont env p c = when_some (λ metaint. fire env (on_cont metaint)) c (finish (take_int 4 (body p)))

unfoldable pub read_codc : Read (Option (ℕ × PcmParams))
read_codc = do
  format ← field 1
  size ← field 1
  rate ← field 1
  channels ← field 1
  endian ← field 1
  pure (
      some (
        format,
        record {
          sample_size_code = size;
          sample_rate_code = rate;
          channels_code = channels;
          endian_code = endian;
        },
      ))

unfoldable pub codc : Env → List ℕ → Client → Checked Client
codc env p c =
    if ltb (length p) codc_min_bytes
    then ok c
    else when_some (λ (f, pcm). fire env (on_codc f pcm)) c (finish (read_codc (body p)))

-- `adjust` is 0 in LMS's fixed-output mode, where the gains are not read.
unfoldable pub read_audg : Read (Option (ℕ × ℕ))
read_audg = need 8 (
    field 1 >>= λ adjust.
    if adjust == 0
    then pure none
    else need 1 do gain_l ← field 4; gain_r ← field 4; pure (some (gain_l, gain_r)))

unfoldable pub audg : Env → List ℕ → Client → Checked Client
audg env p c =
    if ltb (length p) audg_min_bytes
    then ok c
    else when_some (λ (l, r). fire env (on_volume l r)) c (finish (read_audg (body p)))

unfoldable pub read_aude : Read (Option Bool)
read_aude = field 1 >>= λ spdif. need 1 (pure (some (not (spdif == 0))))

unfoldable pub aude : Env → List ℕ → Client → Checked Client
aude env p c =
    if ltb (length p) aude_min_bytes
    then ok c
    else when_some (λ on. fire env (on_aude on)) c (finish (read_aude (body p)))

-- `while (!name.empty() && name.back() == '\0') name.pop_back();`
unfoldable pub strip_nuls : List ℕ → List ℕ
strip_nuls [] = []
strip_nuls (b ∷ bs) = elim (strip_nuls bs) [
  | [] ↦ if b == 0 then [] else b ∷ []
  | b' ∷ bs' ↦ b ∷ b' ∷ bs'
]

unfoldable pub default_name : List ℕ → List ℕ
default_name [] = codes "squeeze2raop2"
default_name (b ∷ bs) = b ∷ bs

unfoldable pub rename : Env → List ℕ → Client → Client
rename env name c =
    send_setd_name name (fire env (on_set_name name) (record c { player_name = name }))

unfoldable pub setd : Env → List ℕ → Client → Checked Client
setd env p c = if ltb (length p) setd_min_bytes then ok c else elim (field 1 (body p)) [
  | oob ↦ oob
  | ok (id, r) ↦
      if not (id == 0)
      then ok c
      else if length p == setd_min_bytes
      then ok (send_setd_name (default_name c.player_name) c)
      else ok (rename env (strip_nuls (tail r)) c)
]

unfoldable pub serv : Env → List ℕ → Client → Checked Client
serv env p c =
    if ltb (length p) serv_min_bytes
    then ok c
    else when_some (λ ip. fire env (on_server_switch ip)) c (finish (take_int 4 (body p)))

-- An opcode that is not handled is ignored, known or not: the two branches differ in their log line.
unfoldable pub dispatch : Env → List ℕ → List ℕ → Client → Checked Client
dispatch env op p c =
    if same_bytes op Op.strm
    then strm env p c
    else if same_bytes op Op.cont
    then cont env p c
    else if same_bytes op Op.codc
    then codc env p c
    else if same_bytes op Op.audg
    then audg env p c
    else if same_bytes op Op.aude
    then aude env p c
    else if same_bytes op Op.setd_server
    then setd env p c
    else if same_bytes op Op.serv
    then serv env p c
    else ok c

unfoldable pub process : Env → List ℕ → Client → Checked Client
process env p c = if ltb (length p) min_packet_bytes then ok c else dispatch env (take 4 p) p c
