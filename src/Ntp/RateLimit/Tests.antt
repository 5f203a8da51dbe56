-- ===== src/Ntp/RateLimit/Tests.antt =====
-- Runs of the limiter, and the theorems about it at concrete tables.
use esp32p4_nts_time_server.Base.{
  ℕ, zero, suc, ◌+◌, ◌-◌, ◌*◌, ◌<◌, ◌≤◌, ◌≡◌, refl, inl, List, [], ◌∷◌, true, false, none, some,
  All, ◌==◌, arith,
}
use esp32p4_nts_time_server.Ntp.RateLimit.{
  NtpRateClient, Clients, init, allow, serve, fresh_client, refill_client, tokens_to_add, scan,
  find_or_allocate_client, enter,
}
use esp32p4_nts_time_server.Ntp.RateLimit.Lookup.{lookup, IsPacked}
use esp32p4_nts_time_server.Ntp.RateLimit.Slots.{AllUsed}
use esp32p4_nts_time_server.Ntp.RateLimit.Refine.{
  IsValid, Maps, allow_tracked, allow_full, init-IsValid, allow-IsValid,
}
use esp32p4_nts_time_server.Ntp.RateLimit.Budget.{admitted, admitted_bound, serve_after_two_seconds}

abbrev client_a : NtpRateClient
client_a = record {
  in_use = true;
  client_ipv4 = 7;
  tokens = 1;
  last_refill_us = 1_000_000;
  last_seen_us = 1_000_000;
}

-- `n` clients with the addresses from `k` on.
abbrev filled : ℕ → ℕ → Clients
filled zero k = []
filled (suc n) k = record client_a { client_ipv4 = k } ∷ filled n (k + 1)

lookup-filled : (n k ip : ℕ) → ip < k → lookup ip (filled n k) ≡ none
lookup-filled zero k ip h = refl
lookup-filled (suc n) k ip h = ground (arith, lookup-filled n (k + 1) ip (omega arith))

filled-IsPacked : (n k : ℕ) → IsPacked (filled n k)
filled-IsPacked zero k = tt
filled-IsPacked (suc n) k =
    (inl (refl, lookup-filled n (k + 1) k (omega arith)), filled-IsPacked n (k + 1))

filled-bucket : (n k : ℕ) → All (λ (c : NtpRateClient). c.tokens ≤ 8) (filled n k)
filled-bucket zero k = tt
filled-bucket (suc n) k = (omega arith, filled-bucket n (k + 1))

filled-AllUsed : (n k : ℕ) → AllUsed (filled n k)
filled-AllUsed zero k = tt
filled-AllUsed (suc n) k = (refl, filled-AllUsed n (k + 1))

full-IsValid : IsValid (filled 32 100)
full-IsValid = record {
  size = refl;
  bucket = filled-bucket 32 100;
  packed = filled-IsPacked 32 100;
}

-- A table with one client whose last token is left.
abbrev one_client : Clients
one_client = (allow init 7 1_000_000).clients

one_client-IsValid : IsValid one_client
one_client-IsValid = allow-IsValid init 7 1_000_000 init-IsValid.0

-- The first request of a client is serviced, and takes one of the eight tokens.
one_client_holds : lookup 7 one_client ≡ some (record client_a { tokens = 7 })
unfolding allow init find_or_allocate_client scan enter serve refill_client
one_client_holds = refl

allow_tracked_example : Maps one_client 7 1_000_001 (record client_a { tokens = 7 }) (λ _. false)
allow_tracked_example =
    allow_tracked one_client 7 1_000_001 (record client_a { tokens = 7 }) one_client-IsValid
      one_client_holds

init-free : ¬ AllUsed init
unfolding init
init-free used = ground (arith, used.0)

allow_full_example :
    (victim : NtpRateClient) × (lookup victim.client_ipv4 (filled 32 100) ≡ some victim)
    × All (λ c. victim.last_seen_us ≤ c.last_seen_us) (filled 32 100)
    × Maps (filled 32 100) 5 2_000_000 (fresh_client 5 2_000_000) (λ j. victim.client_ipv4 == j)
allow_full_example =
    allow_full (filled 32 100) 5 2_000_000 full-IsValid (lookup-filled 32 100 5 (omega arith))
      (filled-AllUsed 32 100)

-- Two requests in the same second: one token, one of them is let through.
abbrev two_requests : List ℕ
two_requests = 1_000_001 ∷ 1_500_000 ∷ []

one_admitted : admitted client_a two_requests ≡ 1
unfolding admitted serve refill_client tokens_to_add
one_admitted = refl

admitted_bound_example :
    60_000_000 * admitted client_a two_requests ≤ 60_000_000 * 1 + 30 * (1_500_000 - 1_000_000)
admitted_bound_example = admitted_bound client_a 1_500_000 two_requests (omega arith) (omega arith)

serve_after_two_seconds_example : (serve (record client_a { tokens = 0 }) 3_000_000).1 ≡ true
serve_after_two_seconds_example =
    serve_after_two_seconds (record client_a { tokens = 0 }) 3_000_000 (omega arith) (omega arith)
      (omega arith) (omega arith)
