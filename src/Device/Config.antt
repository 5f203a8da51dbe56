-- ===== src/Device/Config.antt =====
-- main/device_config.c: the settings, the checks of what is to be set, and the setters. Texts are
-- lists of character codes; a text that is stored has passed a check of its length before. The
-- answers of the lock and of `persist_config`, which writes to non-volatile storage, are arguments.
pub mod Lowercase
pub mod Valid
mod Tests
use Prim.Native.Nat.{zero, suc}
use esp32p4_nts_time_server.Base.{
  ℕ, ◌+◌, ◌-◌, ◌^◌, Bool, true, false, not, ◌&&◌, ◌||◌, List, [], ◌∷◌, map, length, u32, ltb, leb,
  ◌==◌, if◌then◌else◌, Status, Result, EspErr, ok, err, esp_ok, fail, invalid_arg, invalid_state,
  not_found,
}
use esp32p4_nts_time_server.Base.Bytes.{byte_at}

-- `isalnum`, in the C locale.
unfoldable pub is_alnum : ℕ → Bool
is_alnum c = (leb 48 c && leb c 57) || (leb 65 c && leb c 90) || (leb 97 c && leb c 122)

-- `isxdigit`
unfoldable pub is_xdigit : ℕ → Bool
is_xdigit c = (leb 48 c && leb c 57) || (leb 65 c && leb c 70) || (leb 97 c && leb c 102)

-- `tolower`
unfoldable pub to_lower : ℕ → ℕ
to_lower c = if leb 65 c && leb c 90 then c + 32 else c

unfoldable pub lowercase : List ℕ → List ℕ
lowercase [] = []
lowercase (c ∷ text) = to_lower c ∷ lowercase text

unfoldable pub all_of : (ℕ → Bool) → List ℕ → Bool
all_of test [] = true
all_of test (c ∷ text) = test c && all_of test text

unfoldable pub last_of : List ℕ → ℕ
last_of text = byte_at text (length text - 1)

unfoldable pub is_host_char : ℕ → Bool
is_host_char c = is_alnum c || (c == 45)

unfoldable pub hostname_is_valid : List ℕ → Bool
hostname_is_valid hostname =
    if (length hostname == 0) || ltb 63 (length hostname)
    then false
    else if not (is_alnum (byte_at hostname 0)) || not (is_alnum (last_of hostname))
    then false
    else all_of is_host_char hostname

-- The loop over the labels of a zone: the length of the label so far, whether it is at its start,
-- and the character before.
unfoldable pub zone_labels : ℕ → Bool → ℕ → List ℕ → Bool
zone_labels label_len label_first previous [] = ltb 0 label_len && not (previous == 45)
zone_labels label_len label_first previous (c ∷ text) =
    let next_label = zone_labels 0 true 46 text in
    let same_label = zone_labels (label_len + 1) false c text in
    if c == 46
    then not ((label_len == 0) || (previous == 45)) && next_label
    else if not (is_host_char c)
    then false
    else if label_first && (c == 45)
    then false
    else if ltb 63 (label_len + 1)
    then false
    else same_label

unfoldable pub cloudflare_zone_is_valid : List ℕ → Bool
cloudflare_zone_is_valid zone =
    if (length zone == 0) || ltb 253 (length zone)
    then false
    else if (byte_at zone 0 == 46) || (last_of zone == 46)
    then false
    else zone_labels 0 true 0 zone

unfoldable pub is_server_char : ℕ → Bool
is_server_char c = is_host_char c || (c == 46)

unfoldable pub ntp_peer_server_is_valid : List ℕ → Bool
ntp_peer_server_is_valid server =
    if (length server == 0) || ltb 253 (length server)
    then false
    else if (byte_at server 0 == 46) || (last_of server == 46)
    then false
    else all_of is_server_char server

unfoldable pub is_token_char : ℕ → Bool
is_token_char c = not (leb c 32 || leb 127 c)

unfoldable pub api_token_is_valid : List ℕ → Bool
api_token_is_valid token =
    if ltb (length token) 20 || ltb 512 (length token) then false else all_of is_token_char token

unfoldable pub zone_id_is_valid : List ℕ → Bool
zone_id_is_valid zone_id = (length zone_id == 32) && all_of is_xdigit zone_id

-- `device_config_ntp_peer_t`
pub record ConfigPeer : Type 0 where
  pub enabled : Bool
  pub server : List ℕ

-- `stored_config_t`
pub record Config : Type 0 where
  pub generation : ℕ
  pub hostname : List ℕ
  pub cloudflare_configured : Bool
  pub cloudflare_zone_name : List ℕ
  pub cloudflare_zone_id : List ℕ
  pub cloudflare_api_token : List ℕ
  pub ntp_peer_monitor_enabled : Bool
  pub ntp_peer_poll_interval_seconds : ℕ
  pub ntp_peer_response_timeout_ms : ℕ
  pub ntp_peers : List ConfigPeer

-- The module's variables, and the hostname that `app_state` was told last.
pub record Device : Type 0 where
  pub is_initialized : Bool
  pub config : Config
  pub told_hostname : List ℕ

unfoldable pub next_generation : ℕ → ℕ
next_generation generation = let next = u32 (generation + 1) in if next == 0 then 1 else next

-- A candidate takes the place of the settings once it is stored.
unfoldable pub commit : Status → Config → Device → Device × Status
commit (ok _) candidate d = (record d { config = candidate }, esp_ok)
commit (err code) candidate d = (d, err code)

unfoldable pub text_eq : List ℕ → List ℕ → Bool
text_eq [] [] = true
text_eq [] (y ∷ ys) = false
text_eq (x ∷ xs) [] = false
text_eq (x ∷ xs) (y ∷ ys) = (x == y) && text_eq xs ys

-- What the lock and the storage answer to a setter.
pub record Answers : Type 0 where
  pub locked : Bool
  pub persisted : Status

unfoldable pub set_hostname : Answers → List ℕ → Device → Device × Status
set_hostname answers hostname d =
    let normalized = lowercase hostname in
    if not d.is_initialized
    then (d, err invalid_state)
    else if not (hostname_is_valid hostname)
    then (d, err invalid_arg)
    else if not answers.locked
    then (d, err fail)
    else if text_eq normalized d.config.hostname
    then (d, esp_ok)
    else (let (next, answer) =
          commit answers.persisted
            (record d.config {
              hostname = normalized;
              generation = next_generation d.config.generation;
            })
            d in
        elim answer [
          | ok _ ↦ (record next { told_hostname = normalized }, esp_ok)
          | err code ↦ (next, err code)
        ])

unfoldable pub set_cloudflare : Answers → List ℕ → List ℕ → List ℕ → Device → Device × Status
set_cloudflare answers api_token zone_name zone_id d =
    if not d.is_initialized
    then (d, err invalid_state)
    else if not (api_token_is_valid api_token)
        || not (cloudflare_zone_is_valid zone_name)
        || not (zone_id_is_valid zone_id)
    then (d, err invalid_arg)
    else if not answers.locked
    then (d, err fail)
    else commit answers.persisted
        (record d.config {
          cloudflare_configured = true;
          cloudflare_zone_name = lowercase zone_name;
          cloudflare_zone_id = zone_id;
          cloudflare_api_token = api_token;
          generation = next_generation d.config.generation;
        })
        d

unfoldable pub clear_cloudflare : Answers → Device → Device × Status
clear_cloudflare answers d =
    if not d.is_initialized
    then (d, err invalid_state)
    else if not answers.locked
    then (d, err fail)
    else if not d.config.cloudflare_configured
    then (d, esp_ok)
    else commit answers.persisted
        (record d.config {
          cloudflare_configured = false;
          cloudflare_zone_name = [];
          cloudflare_zone_id = [];
          cloudflare_api_token = [];
          generation = next_generation d.config.generation;
        })
        d

unfoldable pub peers_are_valid : List ConfigPeer → Bool
peers_are_valid [] = true
peers_are_valid (p ∷ peers) =
    not (p.enabled && not (ntp_peer_server_is_valid p.server)) && peers_are_valid peers

unfoldable pub stored_peer : ConfigPeer → ConfigPeer
stored_peer p = record {
  enabled = p.enabled;
  server = if p.enabled then lowercase p.server else [];
}

-- The array of peers has `APP_NTP_PEER_MAX_COUNT` entries, by its type.
unfoldable pub set_ntp_peer_monitor :
    Answers → Bool → ℕ → ℕ → List ConfigPeer → Device → Device × Status
set_ntp_peer_monitor answers enabled poll_interval_seconds response_timeout_ms peers d =
    if not d.is_initialized
    then (d, err invalid_state)
    else if ltb poll_interval_seconds 4
        || ltb 3_600 poll_interval_seconds
        || ltb response_timeout_ms 250
        || ltb 10_000 response_timeout_ms
    then (d, err invalid_arg)
    else if not (peers_are_valid peers)
    then (d, err invalid_arg)
    else if not answers.locked
    then (d, err fail)
    else commit answers.persisted
        (record d.config {
          ntp_peer_monitor_enabled = enabled;
          ntp_peer_poll_interval_seconds = poll_interval_seconds;
          ntp_peer_response_timeout_ms = response_timeout_ms;
          ntp_peers = map stored_peer peers;
          generation = next_generation d.config.generation;
        })
        d

-- `device_config_get_cloudflare_credentials`: the token, the zone's name and its id.
unfoldable pub get_cloudflare_credentials : Bool → Device → Result (List ℕ × List ℕ × List ℕ)
get_cloudflare_credentials locked d =
    if not d.is_initialized
    then err invalid_state
    else if not locked
    then err fail
    else if not d.config.cloudflare_configured
    then err not_found
    else ok
        (d.config.cloudflare_api_token, d.config.cloudflare_zone_name, d.config.cloudflare_zone_id)
