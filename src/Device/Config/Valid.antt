-- ===== src/Device/Config/Valid.antt =====
-- main/device_config.c: the settings stay valid, and change only once they are stored.
use esp32p4_nts_time_server.Base.{
  ℕ, ◌≤◌, ◌≡◌, ◌≢◌, refl, Bool, true, List, [], ◌∷◌, map, arith, Status, EspErr, err, Result-cases,
}
use esp32p4_nts_time_server.Device.Config.{
  Config, ConfigPeer, Device, Answers, hostname_is_valid, cloudflare_zone_is_valid,
  api_token_is_valid, zone_id_is_valid, next_generation, commit, set_hostname, set_cloudflare,
  clear_cloudflare, peers_are_valid, stored_peer, set_ntp_peer_monitor,
}
use esp32p4_nts_time_server.Device.Config.Lowercase.{
  hostname_is_valid-lowercase, cloudflare_zone_is_valid-lowercase,
  ntp_peer_server_is_valid-lowercase,
}

-- Settings that another part of the program can rely on.
pub record IsValid (c : Config) : Type 0 where
  pub hostname_in : hostname_is_valid c.hostname ≡ true
  pub generation_in : c.generation ≢ 0
  pub zone_in :
      c.cloudflare_configured ≡ true → cloudflare_zone_is_valid c.cloudflare_zone_name ≡ true
  pub zone_id_in : c.cloudflare_configured ≡ true → zone_id_is_valid c.cloudflare_zone_id ≡ true
  pub token_in : c.cloudflare_configured ≡ true → api_token_is_valid c.cloudflare_api_token ≡ true
  pub poll_in : (4 ≤ c.ntp_peer_poll_interval_seconds) × (c.ntp_peer_poll_interval_seconds ≤ 3_600)
  pub timeout_in :
      (250 ≤ c.ntp_peer_response_timeout_ms) × (c.ntp_peer_response_timeout_ms ≤ 10_000)
  pub servers_in : peers_are_valid c.ntp_peers ≡ true

next_generation-positive : (n : ℕ) → next_generation n ≢ 0
unfolding next_generation
next_generation-positive n = ground arith

set_hostname-IsValid :
    (a : Answers) (hostname : List ℕ) (d : Device)
    → IsValid d.config
    → IsValid (set_hostname a hostname d).0.config
unfolding set_hostname commit
set_hostname-IsValid a hostname d h = ground (
  arith,
  h,
  next_generation-positive d.config.generation,
  hostname_is_valid-lowercase hostname,
  Result-cases a.persisted,
)

set_cloudflare-IsValid :
    (a : Answers) (token zone zone_id : List ℕ) (d : Device)
    → IsValid d.config
    → IsValid (set_cloudflare a token zone zone_id d).0.config
unfolding set_cloudflare commit
set_cloudflare-IsValid a token zone zone_id d h = ground (
  arith,
  h,
  next_generation-positive d.config.generation,
  cloudflare_zone_is_valid-lowercase zone,
  Result-cases a.persisted,
)

clear_cloudflare-IsValid :
    (a : Answers) (d : Device) → IsValid d.config → IsValid (clear_cloudflare a d).0.config
unfolding clear_cloudflare commit
clear_cloudflare-IsValid a d h =
    ground (arith, h, next_generation-positive d.config.generation, Result-cases a.persisted)

-- What is stored of valid peers is valid: a peer that is not enabled is stored without a server.
peers_are_valid-map :
    (peers : List ConfigPeer)
    → peers_are_valid peers ≡ true
    → peers_are_valid (map stored_peer peers) ≡ true
unfolding peers_are_valid stored_peer
peers_are_valid-map [] h = refl
peers_are_valid-map (p ∷ peers) h =
    let rest = peers_are_valid-map peers in
    ground (arith, h, rest, ntp_peer_server_is_valid-lowercase p.server)

set_ntp_peer_monitor-IsValid :
    (a : Answers) (enabled : Bool) (poll timeout : ℕ) (peers : List ConfigPeer) (d : Device)
    → IsValid d.config
    → IsValid (set_ntp_peer_monitor a enabled poll timeout peers d).0.config
unfolding set_ntp_peer_monitor commit
set_ntp_peer_monitor-IsValid a enabled poll timeout peers d h = ground (
  arith,
  h,
  next_generation-positive d.config.generation,
  peers_are_valid-map peers,
  Result-cases a.persisted,
)

-- The calls that change the settings.
pub data Call : Type 0 where
  hostname_set : List ℕ → Call
  cloudflare_set : List ℕ → List ℕ → List ℕ → Call
  cloudflare_cleared : Call
  peers_set : Bool → ℕ → ℕ → List ConfigPeer → Call

unfoldable pub call : Answers → Call → Device → Device × Status
call a (hostname_set hostname) d = set_hostname a hostname d
call a (cloudflare_set token zone zone_id) d = set_cloudflare a token zone zone_id d
call a cloudflare_cleared d = clear_cloudflare a d
call a (peers_set enabled poll timeout peers) d =
    set_ntp_peer_monitor a enabled poll timeout peers d

call-IsValid :
    (a : Answers) (c : Call) (d : Device) → IsValid d.config → IsValid (call a c d).0.config
unfolding call
call-IsValid a (hostname_set hostname) d h = set_hostname-IsValid a hostname d h
call-IsValid a (cloudflare_set token zone zone_id) d h =
    set_cloudflare-IsValid a token zone zone_id d h
call-IsValid a cloudflare_cleared d h = clear_cloudflare-IsValid a d h
call-IsValid a (peers_set enabled poll timeout peers) d h =
    set_ntp_peer_monitor-IsValid a enabled poll timeout peers d h

unfoldable pub calls_run : List (Answers × Call) → Device → Device
calls_run [] d = d
calls_run ((a, c) ∷ calls) d = calls_run calls (call a c d).0

-- Valid settings stay valid, whatever is set and whatever the lock and the storage answer: the
-- hostname, a peer's server and, where it is configured, the zone pass their checks in the lower
-- case in which they are stored, the numbers are in their ranges, and the generation is never 0.
pub calls_run-IsValid :
    (calls : List (Answers × Call)) (d : Device)
    → IsValid d.config
    → IsValid (calls_run calls d).config
unfolding calls_run
calls_run-IsValid [] d h = h
calls_run-IsValid ((a, c) ∷ calls) d h =
    calls_run-IsValid calls (call a c d).0 (call-IsValid a c d h)

-- A call that does not return ESP_OK changes none of the settings.
pub call-err :
    (a : Answers) (c : Call) (d : Device) (code : EspErr)
    → (call a c d).1 ≡ err code
    → (call a c d).0.config ≡ d.config
unfolding call set_hostname set_cloudflare clear_cloudflare set_ntp_peer_monitor commit
call-err a (hostname_set hostname) d code e = ground (arith, e, Result-cases a.persisted)
call-err a (cloudflare_set token zone zone_id) d code e =
    ground (arith, e, Result-cases a.persisted)
call-err a cloudflare_cleared d code e = ground (arith, e, Result-cases a.persisted)
call-err a (peers_set enabled poll timeout peers) d code e =
    ground (arith, e, Result-cases a.persisted)
