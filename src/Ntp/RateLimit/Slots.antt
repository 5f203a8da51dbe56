-- ===== src/Ntp/RateLimit/Slots.antt =====
-- Where the search of `find_or_allocate_client` stops, and that a store there keeps the table
-- well formed.
use esp32p4_nts_time_server.Base.{
  ℕ, zero, suc, ◌+◌, ◌<◌, ◌≤◌, ◌≡◌, refl, ◌⊎◌, inl, inr, [], ◌∷◌, true, false, none, some, length,
  set, take, All, All-at, All-take, if◌then◌else◌, arith, ltb, Bool-cases,
}
use esp32p4_nts_time_server.Ntp.RateLimit.{
  NtpRateClient, Clients, unused_client, client_at, Place, tracked, vacant, oldest, scan,
}
use esp32p4_nts_time_server.Ntp.RateLimit.Lookup.{
  holds, lookup, AllUnused, IsPacked, cleared, lookup-set,
}

abbrev pub AllUsed : Clients → Type 0
AllUsed = All (λ c. c.in_use ≡ true)

-- The `i`-th entry behind index `k` of the whole table is the `j`-th of `cs`.
abbrev pub At : ℕ → Clients → ℕ → ℕ → Type 0
At k cs i j = (i ≡ k + j) × (j < length cs)

-- The entry `i`, last seen at `v`, is the starting candidate `o` or one of `cs`.
abbrev pub Candidate : Clients → ℕ → ℕ → ℕ → ℕ → ℕ → Type 0
Candidate cs k o s i v =
    (i ≡ o) × (v ≡ s) ⊎ ((j : ℕ) × At k cs i j × (v ≡ (client_at cs j).last_seen_us))

-- What the place where the search stops says of the entries from index `k` on.
abbrev pub Found : ℕ → Clients → ℕ → ℕ → ℕ → Place → Type 0
Found ip cs k o s (tracked i) =
    (j : ℕ) × At k cs i j
    × (holds ip (client_at cs j) ≡ true)
    × (lookup ip cs ≡ some (client_at cs j))
Found ip cs k o s (vacant i) =
    (j : ℕ) × At k cs i j
    × ((client_at cs j).in_use ≡ false)
    × AllUsed (take j cs)
    × (lookup ip cs ≡ none)
Found ip cs k o s (oldest i) =
    (v : ℕ) × AllUsed cs
    × (lookup ip cs ≡ none)
    × (v ≤ s)
    × All (λ c. v ≤ c.last_seen_us) cs
    × Candidate cs k o s i v

lookup_unused : (ip : ℕ) (cs : Clients) → AllUnused cs → lookup ip cs ≡ none
lookup_unused ip [] h = refl
lookup_unused ip (c ∷ cs) h = ground (arith, lookup_unused ip cs h.1)

module _ (ip : ℕ) (x : NtpRateClient) (xs : Clients) (k o s : ℕ) where
  next_place :
      (i v : ℕ)
      → v ≤ (if ltb x.last_seen_us s then x.last_seen_us else s)
      → Candidate xs
          (k + 1)
          (if ltb x.last_seen_us s then k else o)
          (if ltb x.last_seen_us s then x.last_seen_us else s)
          i
          v
      → Candidate (x ∷ xs) k o s i v × (v ≤ s) × (v ≤ x.last_seen_us)
  next_place i v b (inr (j, (e, l), q)) =
      (inr (suc j, (omega arith, omega arith), q), ground arith, ground arith)
  next_place i v b (inl (e, q)) = elim (Bool-cases (ltb x.last_seen_us s)) [
    | inl older ↦ (inr (0, (ground arith, omega arith), ground arith), ground arith, ground arith)
    | inr newer ↦ (inl (ground arith, ground arith), ground arith, ground arith)
  ]

  Found-next :
      (p : Place)
      → x.in_use ≡ true
      → holds ip x ≡ false
      → Found ip xs
          (k + 1)
          (if ltb x.last_seen_us s then k else o)
          (if ltb x.last_seen_us s then x.last_seen_us else s)
          p
      → Found ip (x ∷ xs) k o s p
  Found-next (tracked i) u h (j, (e, l), t, q) =
      (suc j, (omega arith, omega arith), t, ground arith)
  Found-next (vacant i) u h (j, (e, l), t, a, q) =
      (suc j, (omega arith, omega arith), t, (u, a), ground arith)
  Found-next (oldest i) u h (v, a, q, b, m, c) =
      let n = next_place i v b c in (v, (u, a), ground arith, n.1, (n.2, m), n.0)

  abbrev further : Place
  further =
      scan ip xs (k + 1) (if ltb x.last_seen_us s then k else o)
        (if ltb x.last_seen_us s then x.last_seen_us else s)

  -- The three ways that the search goes on from an entry.
  scan-cons :
      ((holds ip x ≡ true) × (scan ip (x ∷ xs) k o s ≡ tracked k))
      ⊎ ((holds ip x ≡ false) × (x.in_use ≡ false) × (scan ip (x ∷ xs) k o s ≡ vacant k))
      ⊎ ((holds ip x ≡ false) × (x.in_use ≡ true) × (scan ip (x ∷ xs) k o s ≡ further))
  unfolding scan
  scan-cons = ground arith

pub scan-Found :
    (ip : ℕ) (cs : Clients) (k o s : ℕ) → IsPacked cs → Found ip cs k o s (scan ip cs k o s)
scan-Found ip [] k o s p = unfold scan in (s, tt, refl, omega arith, tt, inl (refl, refl))
scan-Found ip (x ∷ xs) k o s (b, p) = elim (scan-cons ip x xs k o s) [
  | inl (hit, e) ↦ rw e (0, (omega arith, omega arith), hit, rw hit refl)
  | inr (inl (miss, free, e)) ↦
      rw e (0, (omega arith, omega arith), free, tt, ground (arith, lookup_unused ip xs))
  | inr (inr (miss, used, e)) ↦
      rw e (
        Found-next ip x xs k o s (further ip x xs k o s) used miss (scan-Found ip xs (k + 1) _ _ p))
]

pub AllUsed-take : (n : ℕ) (cs : Clients) → AllUsed cs → AllUsed (take n cs)
AllUsed-take = All-take (λ (c : NtpRateClient). c.in_use ≡ true)

-- The entries before one in use are in use.
pub used_before :
    (cs : Clients) (i : ℕ)
    → IsPacked cs
    → i < length cs
    → (client_at cs i).in_use ≡ true
    → AllUsed (take i cs)
used_before [] i p l u = absurd (omega arith)
used_before (x ∷ xs) zero p l u = tt
used_before (x ∷ xs) (suc i) (inl (a, b), p) l u = (a, used_before xs i p (omega arith) u)
used_before (x ∷ xs) (suc i) (inr (a, b), p) l u =
    let unused : (client_at xs i).in_use ≡ false =
      All-at (λ (c : NtpRateClient). c.in_use ≡ false) xs i unused_client b (omega arith) in
    cc

-- A store behind entries in use, of an entry whose address no other has, keeps the table packed.
pub set-IsPacked :
    (cs : Clients) (i : ℕ) (c : NtpRateClient)
    → IsPacked cs
    → i < length cs
    → c.in_use ≡ true
    → AllUsed (take i cs)
    → lookup c.client_ipv4 (cleared cs i) ≡ none
    → IsPacked (set cs i c)
set-IsPacked [] i c p l u a h = absurd (omega arith)
set-IsPacked (x ∷ xs) zero c (b, p) l u a h = (inl (u, h), p)
set-IsPacked (x ∷ xs) (suc i) c (b, p) l u a h = (
  inl (a.0, ground (arith, lookup-set xs i c x.client_ipv4 p (omega arith) u)),
  set-IsPacked xs i c p (omega arith) u a.1 (ground arith),
)
