-- ===== src/Ntp/RateLimit/Lookup.antt =====
-- The table as a map from addresses to entries, and what a store into it changes.
use esp32p4_nts_time_server.Base.{
  ℕ, zero, suc, ◌<◌, ◌≡◌, ◌≢◌, refl, ◌⊎◌, [], ◌∷◌, Bool, true, false, ◌&&◌, Option, none, some,
  length, set, All, ◌==◌, if◌then◌else◌, arith,
}
use esp32p4_nts_time_server.Ntp.RateLimit.{NtpRateClient, Clients, unused_client, client_at}

-- Whether an entry is the one of the address `ip`.
abbrev pub holds : ℕ → NtpRateClient → Bool
holds ip c = c.in_use && c.client_ipv4 == ip

abbrev pub lookup : ℕ → Clients → Option NtpRateClient
lookup ip [] = none
lookup ip (c ∷ cs) = if holds ip c then some c else lookup ip cs

abbrev pub AllUnused : Clients → Type 0
AllUnused = All (λ c. c.in_use ≡ false)

-- No address has two entries, and the entries in use come before the free ones.
abbrev pub IsPacked : Clients → Type 0
IsPacked [] = Unit
IsPacked (c ∷ cs) =
    ((c.in_use ≡ true) × (lookup c.client_ipv4 cs ≡ none) ⊎ (c.in_use ≡ false) × AllUnused cs)
    × IsPacked cs

-- The table without the entry at `i`.
abbrev pub cleared : Clients → ℕ → Clients
cleared cs i = set cs i unused_client

-- An entry in use is found, or one before it with the same address.
lookup_of_holds :
    (cs : Clients) (i ip : ℕ)
    → i < length cs
    → holds ip (client_at cs i) ≡ true
    → lookup ip cs ≢ none
lookup_of_holds [] i ip l h = absurd (omega arith)
lookup_of_holds (x ∷ xs) zero ip l h = ground arith
lookup_of_holds (x ∷ xs) (suc i) ip l h = ground (arith, lookup_of_holds xs i ip)

-- A store of an entry in use whose address no other entry has. The address reads as the new
-- entry, that of the entry that stood there is gone, and every other address reads as before.
pub lookup-set :
    (cs : Clients) (i : ℕ) (c : NtpRateClient) (ip : ℕ)
    → IsPacked cs
    → i < length cs
    → c.in_use ≡ true
    → lookup c.client_ipv4 (cleared cs i) ≡ none
    → lookup ip (set cs i c) ≡ (
        if c.client_ipv4 == ip
        then some c
        else if holds ip (client_at cs i)
        then none
        else lookup ip cs)
lookup-set [] i c ip p l u h = absurd (omega arith)
lookup-set (x ∷ xs) zero c ip (b, q) l u h = ground arith
lookup-set (x ∷ xs) (suc i) c ip (b, q) l u h =
    ground (arith, lookup-set xs i c ip q (omega arith) u, lookup_of_holds xs i x.client_ipv4)

-- Clearing an entry hides only its own address.
pub lookup-cleared :
    (cs : Clients) (i ip : ℕ) → lookup ip cs ≡ none → lookup ip (cleared cs i) ≡ none
lookup-cleared [] i ip h = refl
lookup-cleared (x ∷ xs) zero ip h = ground arith
lookup-cleared (x ∷ xs) (suc i) ip h = ground (arith, lookup-cleared xs i ip)

-- An address has one entry: with it cleared, the address is not found.
pub lookup-cleared_self :
    (cs : Clients) (i : ℕ)
    → IsPacked cs
    → i < length cs
    → (client_at cs i).in_use ≡ true
    → lookup (client_at cs i).client_ipv4 (cleared cs i) ≡ none
lookup-cleared_self [] i p l u = absurd (omega arith)
lookup-cleared_self (x ∷ xs) zero (b, q) l u = ground arith
lookup-cleared_self (x ∷ xs) (suc i) (b, q) l u = ground (
  arith,
  lookup-cleared_self xs i q (omega arith) u,
  lookup_of_holds xs i (client_at xs i).client_ipv4,
)

-- In a packed table an entry in use is what its address reads as.
pub lookup-client_at :
    (cs : Clients) (i : ℕ)
    → IsPacked cs
    → i < length cs
    → (client_at cs i).in_use ≡ true
    → lookup (client_at cs i).client_ipv4 cs ≡ some (client_at cs i)
lookup-client_at [] i p l u = absurd (omega arith)
lookup-client_at (x ∷ xs) zero (b, p) l u = ground arith
lookup-client_at (x ∷ xs) (suc i) (b, p) l u =
    ground (arith, lookup-client_at xs i p (omega arith) u)
