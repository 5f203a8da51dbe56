-- ===== src/Ntp/RateLimit.antt =====
-- main/ntp_rate_limit.c: a token bucket for each of at most 32 clients. `s_clients` is a list of
-- 32 records that the functions take and return; the value of `esp_timer_get_time()` is the
-- argument `now_us`, a count of microseconds that is never negative.
pub mod Lookup
pub mod Slots
pub mod Refine
pub mod Budget
mod Tests
use esp32p4_nts_time_server.Base.{
  ℕ, ◌+◌, ◌-◌, ◌*◌, ◌/◌, ◌%◌, ◌^◌, List, [], ◌∷◌, Bool, true, false, not, ◌&&◌, get_or, set,
  replicate, ltb, leb, ◌==◌, if◌then◌else◌, u32, u64,
}

abbrev pub max_clients : ℕ
max_clients = 32

abbrev pub rate_burst : ℕ
rate_burst = 8

abbrev pub rate_per_minute : ℕ
rate_per_minute = 30

pub record NtpRateClient : Type 0 where
  pub in_use : Bool
  pub client_ipv4 : ℕ
  pub tokens : ℕ
  pub last_refill_us : ℕ
  pub last_seen_us : ℕ

-- An all-zero entry, as `memset` leaves it.
abbrev pub unused_client : NtpRateClient
unused_client = record {
  in_use = false;
  client_ipv4 = 0;
  tokens = 0;
  last_refill_us = 0;
  last_seen_us = 0;
}

abbrev pub Clients : Type 0
Clients = List NtpRateClient

unfoldable pub tokens_to_add : ℕ → ℕ
tokens_to_add elapsed_us = u64 (elapsed_us * rate_per_minute) / 60_000_000

unfoldable pub refill_client : NtpRateClient → ℕ → NtpRateClient
refill_client c now_us =
    if c.last_refill_us == 0
    then record c { last_refill_us = now_us; tokens = rate_burst }
    else if leb now_us c.last_refill_us
    then c
    else let added = tokens_to_add (now_us - c.last_refill_us) in
      let updated_tokens = u64 (c.tokens + added) in
      if added == 0 then c else record c {
        tokens = u32 (if ltb rate_burst updated_tokens then rate_burst else updated_tokens);
        last_refill_us = now_us;
      }

-- Where the loop of `find_or_allocate_client` stops: at the client's entry, at a free one, or
-- behind the last with the least recently seen.
pub data Place : Type 0 where
  tracked vacant oldest : ℕ → Place

-- The loop from `index` on; `oldest_index` is `oldest`, which was last seen at `oldest_seen`.
unfoldable pub scan : ℕ → Clients → ℕ → ℕ → ℕ → Place
scan ip [] index oldest_index oldest_seen = oldest oldest_index
scan ip (candidate ∷ rest) index oldest_index oldest_seen =
    let older = ltb candidate.last_seen_us oldest_seen in
    let further =
      scan ip rest (index + 1) (if older then index else oldest_index)
        (if older then candidate.last_seen_us else oldest_seen) in
    if candidate.in_use && candidate.client_ipv4 == ip
    then tracked index
    else if not candidate.in_use
    then vacant index
    else further

-- What is stored into a free entry, and over the oldest one.
abbrev pub fresh_client : ℕ → ℕ → NtpRateClient
fresh_client ip now_us = record {
  in_use = true;
  client_ipv4 = ip;
  tokens = rate_burst;
  last_refill_us = now_us;
  last_seen_us = now_us;
}

unfoldable pub enter : Place → Clients → ℕ → ℕ → ℕ × Clients
enter (tracked i) clients ip now_us = (i, clients)
enter (vacant i) clients ip now_us = (i, set clients i (fresh_client ip now_us))
enter (oldest i) clients ip now_us = (i, set clients i (fresh_client ip now_us))

abbrev pub client_at : Clients → ℕ → NtpRateClient
client_at clients i = get_or clients i unused_client

abbrev pub scan_all : ℕ → Clients → Place
scan_all ip clients = scan ip clients 0 0 (client_at clients 0).last_seen_us

-- The pointer that is returned is the index into the table.
unfoldable pub find_or_allocate_client : Clients → ℕ → ℕ → ℕ × Clients
unfolding enter
find_or_allocate_client clients ip now_us = enter (scan_all ip clients) clients ip now_us

unfoldable pub init : Clients
init = replicate max_clients unused_client

-- The part of `ntp_rate_limit_allow` that works on the client's entry: its new value, and
-- whether the request may be serviced.
unfoldable pub serve : NtpRateClient → ℕ → NtpRateClient × Bool
serve c now_us =
    let refilled = refill_client c now_us in
    let seen = record refilled { last_seen_us = now_us } in
    if ltb 0 refilled.tokens
    then (record seen { tokens = refilled.tokens - 1 }, true)
    else (seen, false)

pub record Verdict : Type 0 where
  pub clients : Clients
  pub allowed : Bool
  pub send_kod : Bool

-- `ntp_rate_limit_allow`.
unfoldable pub allow : Clients → ℕ → ℕ → Verdict
allow clients ip now_us =
    let (i, found) = find_or_allocate_client clients ip now_us in
    let (c, allowed) = serve (client_at found i) now_us in
    record { clients = set found i c; allowed = allowed; send_kod = not allowed }
