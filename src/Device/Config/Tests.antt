-- ===== src/Device/Config/Tests.antt =====
-- Settings with a hostname, and calls that set it.
use esp32p4_nts_time_server.Base.{
  ℕ, ◌≡◌, refl, false, true, List, [], ◌∷◌, arith, esp_ok, err, invalid_arg,
}
use esp32p4_nts_time_server.Device.Config.{
  Config, Device, Answers, hostname_is_valid, is_host_char, is_alnum, all_of, last_of,
  peers_are_valid,
}
use esp32p4_nts_time_server.Device.Config.Valid.{
  IsValid, Call, hostname_set, call, calls_run, calls_run-IsValid, call-err,
}

-- `ntp`
abbrev hostname : List ℕ
hostname = 110 ∷ 116 ∷ 112 ∷ []

abbrev config : Config
config = record {
  generation = 1;
  hostname = hostname;
  cloudflare_configured = false;
  cloudflare_zone_name = [];
  cloudflare_zone_id = [];
  cloudflare_api_token = [];
  ntp_peer_monitor_enabled = false;
  ntp_peer_poll_interval_seconds = 16;
  ntp_peer_response_timeout_ms = 2_000;
  ntp_peers = [];
}

abbrev device : Device
device = record { is_initialized = true; config = config; told_hostname = hostname }

hostname_valid : hostname_is_valid hostname ≡ true
unfolding hostname_is_valid is_host_char is_alnum all_of last_of
hostname_valid = refl

no_peers : peers_are_valid [] ≡ true
unfolding peers_are_valid
no_peers = refl

config-IsValid : IsValid config
config-IsValid = ground (arith, hostname_valid, no_peers)

abbrev stored : Answers
stored = record { locked = true; persisted = esp_ok }

-- `NTP-P4`, and a name that ends in a dash.
abbrev named : Call
named = hostname_set (78 ∷ 84 ∷ 80 ∷ 45 ∷ 80 ∷ 52 ∷ [])

abbrev misnamed : Call
misnamed = hostname_set (110 ∷ 45 ∷ [])

calls_run-IsValid_example :
    IsValid (calls_run ((stored, named) ∷ (stored, misnamed) ∷ []) device).config
calls_run-IsValid_example =
    calls_run-IsValid ((stored, named) ∷ (stored, misnamed) ∷ []) device config-IsValid

misnamed_refused : (call stored misnamed device).1 ≡ err invalid_arg
unfolding call esp32p4_nts_time_server.Device.Config.set_hostname hostname_is_valid is_host_char
    is_alnum all_of last_of esp32p4_nts_time_server.Device.Config.lowercase
    esp32p4_nts_time_server.Device.Config.to_lower
misnamed_refused = refl

call-err_example : (call stored misnamed device).0.config ≡ device.config
call-err_example = call-err stored misnamed device invalid_arg misnamed_refused
