-- ===== src/App/Persistence/Parse.antt =====
-- `parse`: the file's lines one by one. An error ends the parse with the number of its line; the log's
-- warnings are left out.
use squeeze2raop.Base.{
  ℕ, ◌^◌, List, Bool, true, false, not, ◌&&◌, ◌||◌, Option, none, some, if◌then◌else◌, codes,
  same_bytes,
}
use squeeze2raop.App.Config.{
  lms, fixed, auto, ntp, ptp, no_number, out_of_range, in_range, Outside, GlobalConfig,
  PlayerConfig,
}
use squeeze2raop.App.Persistence.{Section}
use squeeze2raop.App.Persistence.Keys.{
  Parsed, good, bad, ◌>>=◌, bool_key, int_key, unsigned_key, mac_key, host_and_port, word2, word3,
  source_timeout, parse_number, resampler_key, log_key,
}

is : List ℕ → List ℕ → Bool
is = same_bytes

with_lms : GlobalConfig → List ℕ × Option ℕ → GlobalConfig
with_lms g (host, none) = record g { lms_host = some host }
with_lms g (host, some port) = record g { lms_host = some host; lms_port = port }

unfoldable pub parse_global_key : List ℕ → List ℕ → GlobalConfig → Parsed GlobalConfig
unfolding is with_lms bool_key unsigned_key host_and_port source_timeout parse_number resampler_key
    log_key
parse_global_key k v g =
    if is k (codes "lms")
    then host_and_port v (codes "lms port must be 1-65535") >>= (λ h. good (with_lms g h))
    else if is k (codes "discovery")
    then bool_key v k >>= (λ b. good (record g { discovery = b }))
    else if is k (codes "iface")
    then good (record g { mdns_iface = v })
    else if is k (codes "mdns-debug")
    then bool_key v k >>= (λ b. good (record g { mdns_debug = b }))
    else if is k (codes "auto-register")
    then bool_key v k >>= (λ b. good (record g { auto_register = b }))
    else if is k (codes "volume-feedback")
    then bool_key v k >>= (λ b. good (record g { volume_feedback = b }))
    else if is k (codes "server-timeout-ms")
    then unsigned_key v 1000 600000 k (codes "1000-600000")
      >>= (λ n. good (record g { server_timeout_ms = n }))
    else if is k (codes "source-timeout-ms")
    then source_timeout (parse_number (2 ^ 32) v)
      >>= (λ n. good (record g { source_timeout_ms = n }))
    else if is k (codes "tls-verify")
    then bool_key v k >>= (λ b. good (record g { tls_verify = b }))
    else if is k (codes "tls-ca")
    then good (record g { tls_ca_path = v })
    else if is k (codes "resampler-quality")
    then resampler_key v >>= (λ q. good (record g { resampler_quality = q }))
    else if is k (codes "log")
    then log_key v >>= (λ n. good (record g { log_level = n }))
    else good g

-- The keys that [default] does not take.
is_identity : List ℕ → Bool
unfolding is
is_identity k =
    is k (codes "id")
    || (is k (codes "mac")
        || (is k (codes "name") || (is k (codes "target") || is k (codes "creds"))))

with_config : (PlayerConfig → PlayerConfig) → Section → Section
with_config f s = record s { config = f s.config }

with_target : Section → List ℕ × Option ℕ → Section
with_target s (host, none) = with_config (λ c. record c { target_host = some host }) s
with_target s (host, some port) =
    with_config (λ c. record c { target_host = some host; target_port = some port }) s

percent_key : Outside → List ℕ → Section → Parsed Section
unfolding with_config
percent_key out v s = elim (out.percent v) [
  | no_number ↦ bad (codes "volume-pct must be a number")
  | out_of_range ↦ bad (codes "volume-pct must be 0.5-100 (0 would be mute)")
  | in_range ↦ good (with_config (λ c. record c { vol_pct = some v }) s)
]

volume_map_key : Outside → List ℕ → Section → Parsed Section
unfolding with_config
volume_map_key out v s =
    if out.is_volume_map v
    then good (with_config (λ c. record c { volume_map = some v }) s)
    else bad (codes "volume-map needs \"db:pct, ...\" pairs, ascending pct 1-100, db <= 0")

with_auto : Bool → Bool → Section → Section
unfolding with_config
with_auto is_default b s =
    let s' = with_config (λ c. record c { auto_section = some b }) s in
    if not is_default && b then record s' { auto_registered = true } else s'

with_mac : Section → List ℕ → Section
unfolding with_config
with_mac s m = record (with_config (λ c. record c { mac = some m }) s) { mac = m; has_mac = true }

-- A key of a player's section; [default] is read as a section of its own.
unfoldable pub parse_player_key : Outside → Bool → List ℕ → List ℕ → Section → Parsed Section
unfolding is is_identity with_config with_target percent_key volume_map_key with_auto with_mac
    bool_key int_key mac_key host_and_port word2 word3
parse_player_key out is_default k v s =
    if is_default && is_identity k
    then good s
    else if is k (codes "id")
    then good (with_config (λ c. record c { id = some v }) s)
    else if is k (codes "mac")
    then mac_key v >>= (λ m. good (with_mac s m))
    else if is k (codes "name")
    then good
        (record (with_config (λ c. record c { name = some v }) s) { has_name_override = true })
    else if is k (codes "target")
    then host_and_port v (codes "target port must be 1-65535") >>= (λ h. good (with_target s h))
    else if is k (codes "protocol")
    then word2 v (codes "ap1") false (codes "ap2") true (codes "protocol must be ap1|ap2")
      >>= (λ b. good (with_config (λ c. record c { airplay2 = some b }) s))
    else if is k (codes "timing")
    then word3 v (codes "auto") auto (codes "ntp") ntp (codes "ptp") ptp
        (codes "timing must be auto|ntp|ptp")
      >>= (λ t. good (with_config (λ c. record c { timing = some t }) s))
    else if is k (codes "password")
    then good (with_config (λ c. record c { password = some v }) s)
    else if is k (codes "enabled")
    then bool_key v k >>= (λ b. good (with_config (λ c. record c { enabled = some b }) s))
    else if is k (codes "volume")
    then word2 v (codes "lms") lms (codes "fixed") fixed (codes "volume must be lms|fixed")
      >>= (λ m. good (with_config (λ c. record c { volume_mode = some m }) s))
    else if is k (codes "volume-map")
    then volume_map_key out v s
    else if is k (codes "volume-pct")
    then percent_key out v s
    else if is k (codes "latency-ms")
    then int_key v 250 2000 k (codes "250-2000 (receiver latencyMin..Max)")
      >>= (λ n. good (with_config (λ c. record c { latency_ms = some n }) s))
    else if is k (codes "buffer-ms")
    then int_key v 0 5000 k (codes "0-5000 ms (0 = off)")
      >>= (λ n. good (with_config (λ c. record c { buffer_ms = some n }) s))
    else if is k (codes "sink")
    then good (with_config (λ c. record c { sink_path = some v }) s)
    else if is k (codes "pace")
    then word2 v (codes "fast") false (codes "realtime") true (codes "pace must be realtime|fast")
      >>= (λ b. good (with_config (λ c. record c { pace_realtime = some b }) s))
    else if is k (codes "creds")
    then good (record s { creds = v })
    else if is k (codes "auto")
    then bool_key v k >>= (λ b. good (with_auto is_default b s))
    else good s
