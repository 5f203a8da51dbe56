-- ===== src/Ntp/RateLimit/Refine.antt =====
-- `ntp_rate_limit_allow` on the table as a map from addresses to entries.
use esp32p4_nts_time_server.Base.{
  ℕ, zero, suc, ◌<◌, ◌≤◌, ◌≡◌, refl, ap, sym, ◌∙◌, ◌⊎◌, inl, inr, Bool, true, false, not, none,
  some, length, set, take, All, All-at, All-set, All-replicate, length-set, set-set,
  get_or-set_self, ◌==◌, if◌then◌else◌, arith, replicate,
}
use esp32p4_nts_time_server.Ntp.RateLimit.{
  NtpRateClient, Clients, unused_client, client_at, Place, tracked, vacant, oldest, scan_all, enter,
  find_or_allocate_client, init, serve, refill_client, allow, fresh_client,
}
use esp32p4_nts_time_server.Ntp.RateLimit.Lookup.{
  holds, lookup, AllUnused, IsPacked, cleared, lookup-set, lookup-cleared, lookup-cleared_self,
  lookup-client_at,
}
use esp32p4_nts_time_server.Ntp.RateLimit.Slots.{
  AllUsed, Found, Candidate, AllUsed-take, scan-Found, used_before, set-IsPacked,
}

-- The table that `s_clients` always is: 32 entries, none with more tokens than a full bucket, no
-- address twice, and the free entries last.
pub record IsValid (cs : Clients) : Type 0 where
  pub size : length cs ≡ 32
  pub bucket : All (λ c. c.tokens ≤ 8) cs
  pub packed : IsPacked cs

-- Serving an entry keeps its owner.
serve-owner :
    (c : NtpRateClient) (now : ℕ)
    → ((serve c now).0.in_use ≡ c.in_use) × ((serve c now).0.client_ipv4 ≡ c.client_ipv4)
unfolding serve refill_client
serve-owner c now = ground arith

serve-tokens : (c : NtpRateClient) (now : ℕ) → c.tokens ≤ 8 → (serve c now).0.tokens ≤ 8
unfolding serve refill_client
serve-tokens c now h = ground arith

-- The call of `allow` once the entry `c` for `ip` stands, or is put, at index `i`.
record Served (cs : Clients) (ip now : ℕ) (c : NtpRateClient) (i : ℕ) : Type 0 where
  within : i < length cs
  owner : (c.in_use ≡ true) × (c.client_ipv4 ≡ ip)
  alone : lookup ip (cleared cs i) ≡ none
  behind : AllUsed (take i cs)
  result : allow cs ip now ≡ record {
    clients = set cs i (serve c now).0;
    allowed = (serve c now).1;
    send_kod = not (serve c now).1;
  }

-- What a client of the limiter sees: the verdict on the entry, and the new map, where `hidden`
-- tells the addresses whose entry is gone.
abbrev pub Maps : Clients → ℕ → ℕ → NtpRateClient → (ℕ → Bool) → Type 0
Maps cs ip now c hidden =
    ((allow cs ip now).allowed ≡ (serve c now).1)
    × ((allow cs ip now).send_kod ≡ not (serve c now).1)
    × ((j : ℕ)
        → lookup j (allow cs ip now).clients
          ≡ (if ip == j then some (serve c now).0 else if hidden j then none else lookup j cs))

module _ (cs : Clients) (ip now : ℕ) (p : IsPacked cs) where
  Served-Maps :
      {c : NtpRateClient} {i : ℕ}
      → Served cs ip now c i
      → Maps cs ip now c (λ j. holds j (client_at cs i))
  Served-Maps {c} {i} s = (
    ap (λ v. v.allowed) s.result,
    ap (λ v. v.send_kod) s.result,
    λ j. rw s.result (
        ground (
          arith,
          serve-owner c now,
          s.owner,
          s.alone,
          lookup-set cs i (serve c now).0 j p s.within,
        )),
  )

  Served-IsPacked :
      {c : NtpRateClient} {i : ℕ} → Served cs ip now c i → IsPacked (allow cs ip now).clients
  Served-IsPacked {c} {i} s = rw s.result (
      set-IsPacked cs i (serve c now).0 p s.within (ground (arith, serve-owner c now, s.owner))
        s.behind (ground (arith, serve-owner c now, s.owner, s.alone)))

  allow-find :
      (i : ℕ) (found : Clients)
      → find_or_allocate_client cs ip now ≡ (i, found)
      → allow cs ip now ≡ record {
        clients = set found i (serve (client_at found i) now).0;
        allowed = (serve (client_at found i) now).1;
        send_kod = not (serve (client_at found i) now).1;
      }
  unfolding allow
  allow-find i found e = rw e

  find_at : (q : Place) → scan_all ip cs ≡ q → find_or_allocate_client cs ip now ≡ enter q cs ip now
  unfolding find_or_allocate_client
  find_at q e = rw e

  serve_stored :
      (i : ℕ)
      → i < length cs
      → find_or_allocate_client cs ip now ≡ (i, set cs i (fresh_client ip now))
      → lookup ip cs ≡ none
      → AllUsed (take i cs)
      → Served cs ip now (fresh_client ip now) i
  serve_stored i l e absent used = record {
    within = l;
    owner = (refl, refl);
    alone = lookup-cleared cs i ip absent;
    behind = used;
    result =
        rw (allow-find i (set cs i (fresh_client ip now)) e)
          (rw (set-set cs i, get_or-set_self cs i (fresh_client ip now) unused_client l));
  }

  serve_tracked :
      (i : ℕ)
      → i < length cs
      → scan_all ip cs ≡ tracked i
      → holds ip (client_at cs i) ≡ true
      → Served cs ip now (client_at cs i) i
  unfolding enter
  serve_tracked i l e h =
      let used : (client_at cs i).in_use ≡ true = ground arith in
      let owned : (client_at cs i).client_ipv4 ≡ ip = ground arith in
      record {
        within = l;
        owner = (used, owned);
        alone = rw (← owned) (lookup-cleared_self cs i p l used);
        behind = used_before cs i p l used;
        result = allow-find i cs (find_at (tracked i) e);
      }

  -- The three outcomes of the search, each with the entry that is served and its index.
  abbrev Outcome : Type 0
  Outcome =
      ((i : ℕ) × (lookup ip cs ≡ some (client_at cs i)) × Served cs ip now (client_at cs i) i)
      ⊎ ((i : ℕ) × (lookup ip cs ≡ none)
          × ((client_at cs i).in_use ≡ false)
          × Served cs ip now (fresh_client ip now) i)
      ⊎ ((i : ℕ) × (lookup ip cs ≡ none)
          × AllUsed cs
          × All (λ c. (client_at cs i).last_seen_us ≤ c.last_seen_us) cs
          × Served cs ip now (fresh_client ip now) i)

  place_seen :
      (i v : ℕ)
      → 0 < length cs
      → Candidate cs 0 0 (client_at cs 0).last_seen_us i v
      → (i < length cs) × ((client_at cs i).last_seen_us ≡ v)
  place_seen i v l (inl (e, q)) = (omega arith, rw e (sym q))
  place_seen i v l (inr (j, (e, b), q)) =
      let same : i ≡ j = omega arith in (omega arith, rw same (sym q))

  outcome :
      (q : Place)
      → 0 < length cs
      → scan_all ip cs ≡ q
      → Found ip cs 0 0 (client_at cs 0).last_seen_us q
      → Outcome
  unfolding enter
  outcome (tracked i) l e (j, (a, b), h, r) =
      let same : i ≡ j = omega arith in
      inl (i, rw same r, serve_tracked i (omega arith) e (rw same h))
  outcome (vacant i) l e (j, (a, b), h, u, r) =
      let same : i ≡ j = omega arith in
      inr (inl (i, r, rw same h, serve_stored i (omega arith) (find_at (vacant i) e) r (rw same u)))
  outcome (oldest i) l e (v, u, r, _, m, c) =
      let k = place_seen i v l c in
      inr
        (inr (i, r, u, rw k.1 m, serve_stored i k.0 (find_at (oldest i) e) r (AllUsed-take i cs u)))

  served : 0 < length cs → Outcome
  served l = outcome (scan_all ip cs) l refl (scan-Found ip cs 0 0 _ p)

-- A request of an address that the table holds is decided by its entry alone: the verdict is
-- that of `serve`, a KoD is asked for exactly when the request is refused, the entry is replaced
-- by the served one, and every other address reads as before.
pub allow_tracked :
    (cs : Clients) (ip now : ℕ) (c : NtpRateClient)
    → IsValid cs
    → lookup ip cs ≡ some c
    → Maps cs ip now c (λ _. false)
allow_tracked cs ip now c v e = elim (served cs ip now v.packed (omega (arith, v.size))) [
  | inl (i, r, s) ↦
      let m = Served-Maps cs ip now v.packed s in
      let same : client_at cs i ≡ c = cc in
      (rw (← same) m.0, rw (← same) m.1, λ j. ground (arith, m.2 j, s.owner))
  | inr (inl (i, r, _, s)) ↦ cc
  | inr (inr (i, r, _, _, s)) ↦ cc
]

-- A request of an unknown address, while an entry is free, is served from a full bucket, and
-- every other address reads as before.
pub allow_vacant :
    (cs : Clients) (ip now : ℕ)
    → IsValid cs
    → lookup ip cs ≡ none
    → ¬ AllUsed cs
    → Maps cs ip now (fresh_client ip now) (λ _. false)
allow_vacant cs ip now v e free = elim (served cs ip now v.packed (omega (arith, v.size))) [
  | inl (i, r, s) ↦ cc
  | inr (inl (i, r, h, s)) ↦
      let m = Served-Maps cs ip now v.packed s in (m.0, m.1, λ j. ground (arith, m.2 j))
  | inr (inr (i, r, u, _, s)) ↦ absurd (free u)
]

-- A request of an unknown address, while no entry is free, takes the entry of a client that no
-- other was seen before: the request is served from a full bucket, that client is forgotten, and
-- every other address reads as before.
pub allow_full :
    (cs : Clients) (ip now : ℕ)
    → IsValid cs
    → lookup ip cs ≡ none
    → AllUsed cs
    → (victim : NtpRateClient) × (lookup victim.client_ipv4 cs ≡ some victim)
      × All (λ c. victim.last_seen_us ≤ c.last_seen_us) cs
      × Maps cs ip now (fresh_client ip now) (λ j. victim.client_ipv4 == j)
allow_full cs ip now v e used = elim (served cs ip now v.packed (omega (arith, v.size))) [
  | inl (i, r, s) ↦ cc
  | inr (inl (i, r, h, s)) ↦
      let in_use =
        All-at (λ (c : NtpRateClient). c.in_use ≡ true) cs i unused_client used s.within in
      cc
  | inr (inr (i, r, u, m, s)) ↦
      let in_use =
        All-at (λ (c : NtpRateClient). c.in_use ≡ true) cs i unused_client used s.within in
      let maps = Served-Maps cs ip now v.packed s in
      (
        client_at cs i,
        lookup-client_at cs i v.packed s.within in_use,
        m,
        (maps.0, maps.1, λ j. ground (arith, maps.2 j, in_use)),
      )
]

-- The empty table of `ntp_rate_limit_init` is well formed, and holds no address.
pub init-IsValid : IsValid init × ((ip : ℕ) → lookup ip init ≡ none)
unfolding init
init-IsValid = (record { size = refl; bucket = omega arith; packed = all_free 32 }, λ ip. refl)
  where
    all_unused : (n : ℕ) → AllUnused (replicate n unused_client)
    all_unused n = All-replicate (λ (c : NtpRateClient). c.in_use ≡ false) n unused_client refl

    all_free : (n : ℕ) → IsPacked (replicate n unused_client)
    all_free zero = tt
    all_free (suc n) = (inr (refl, all_unused n), all_free n)

Served-IsValid :
    (cs : Clients) (ip now : ℕ) (c : NtpRateClient) (i : ℕ)
    → IsValid cs
    → c.tokens ≤ 8
    → Served cs ip now c i
    → IsValid (allow cs ip now).clients
Served-IsValid cs ip now c i v t s = record {
  size = rw s.result (length-set cs i (serve c now).0 ∙ v.size);
  bucket = rw s.result (
      All-set (λ (c : NtpRateClient). c.tokens ≤ 8) cs i (serve c now).0 v.bucket
        (serve-tokens c now t));
  packed = Served-IsPacked cs ip now v.packed s;
}

-- Every request keeps the table well formed: 32 entries, no address twice, the free entries
-- last, and no bucket above the burst of 8.
pub allow-IsValid : (cs : Clients) (ip now : ℕ) → IsValid cs → IsValid (allow cs ip now).clients
allow-IsValid cs ip now v = elim (served cs ip now v.packed (omega (arith, v.size))) [
  | inl (i, r, s) ↦
      let full =
        All-at (λ (c : NtpRateClient). c.tokens ≤ 8) cs i unused_client v.bucket s.within in
      Served-IsValid cs ip now (client_at cs i) i v full s
  | inr (inl (i, r, h, s)) ↦ Served-IsValid cs ip now (fresh_client ip now) i v (omega arith) s
  | inr (inr (i, r, u, m, s)) ↦ Served-IsValid cs ip now (fresh_client ip now) i v (omega arith) s
]
