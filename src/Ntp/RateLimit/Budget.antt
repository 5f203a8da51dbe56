-- ===== src/Ntp/RateLimit/Budget.antt =====
-- How many requests one entry of the table lets through.
use esp32p4_nts_time_server.Base.{
  ℕ, ◌+◌, ◌-◌, ◌*◌, ◌^◌, ◌<◌, ◌≤◌, ◌≡◌, List, [], ◌∷◌, true, if◌then◌else◌, arith,
}
use esp32p4_nts_time_server.Ntp.RateLimit.{NtpRateClient, serve, refill_client, tokens_to_add}

-- The number of serviced requests among those that arrive at the given times.
unfoldable pub admitted : NtpRateClient → List ℕ → ℕ
admitted c [] = 0
admitted c (t ∷ ts) =
    let (c', allowed) = serve c t in let rest = admitted c' ts in if allowed then rest + 1 else rest

-- The times do not run backwards, and lie between `from` and `until`.
abbrev pub Between : ℕ → ℕ → List ℕ → Type 0
Between from until [] = from ≤ until
Between from until (t ∷ ts) = (from ≤ t) × Between t until ts

-- Refilling gives no more tokens than 30 for each minute since the last refill.
refill_pays :
    (c : NtpRateClient) (now : ℕ)
    → 0 < c.last_refill_us
    → c.last_refill_us ≤ now
    → let r = refill_client c now in
      (c.last_refill_us ≤ r.last_refill_us)
      × (r.last_refill_us ≤ now)
      × (60_000_000 * r.tokens + 30 * c.last_refill_us
          ≤ 60_000_000 * c.tokens + 30 * r.last_refill_us)
unfolding refill_client tokens_to_add
refill_pays c now p l = ground arith

serve_pays :
    (c : NtpRateClient) (now : ℕ)
    → 0 < c.last_refill_us
    → c.last_refill_us ≤ now
    → let (r, allowed) = serve c now in
      (c.last_refill_us ≤ r.last_refill_us)
      × (r.last_refill_us ≤ now)
      × (60_000_000 * (if allowed then r.tokens + 1 else r.tokens) + 30 * c.last_refill_us
          ≤ 60_000_000 * c.tokens + 30 * r.last_refill_us)
unfolding serve
serve_pays c now p l = ground (arith, refill_pays c now p l)

widen-Between : (s t until : ℕ) (ts : List ℕ) → s ≤ t → Between t until ts → Between s until ts
widen-Between s t until [] h b = omega arith
widen-Between s t until (u ∷ ts) h b = (omega arith, b.1)

Between-le : (t until : ℕ) (ts : List ℕ) → Between t until ts → t ≤ until
Between-le t until [] b = b
Between-le t until (u ∷ ts) b = omega (arith, Between-le u until ts b.1)

-- An entry with `tokens` left, last refilled at `from`, lets through at most `tokens` requests
-- and 30 for each minute from `from` to `until`, however many arrive in that time.
pub admitted_bound :
    (c : NtpRateClient) (until : ℕ) (times : List ℕ)
    → 0 < c.last_refill_us
    → Between c.last_refill_us until times
    → 60_000_000 * admitted c times ≤ 60_000_000 * c.tokens + 30 * (until - c.last_refill_us)
unfolding admitted
admitted_bound c until [] p b = omega arith
admitted_bound c until (t ∷ ts) p b =
    let paid = serve_pays c t p b.0 in
    let rest =
      admitted_bound (serve c t).0 until ts (omega arith)
        (widen-Between (serve c t).0.last_refill_us t until ts paid.1 b.1) in
    let end = Between-le t until ts b.1 in ground (arith, paid, rest, end)

-- A request two seconds or more after the last refill is serviced, whatever came before it. The
-- bound on the clock, 18 thousand years, keeps the product of the refill from wrapping.
pub serve_after_two_seconds :
    (c : NtpRateClient) (now : ℕ)
    → c.tokens ≤ 8
    → 0 < c.last_refill_us
    → c.last_refill_us + 2_000_000 ≤ now
    → now < 2 ^ 59
    → (serve c now).1 ≡ true
unfolding serve refill_client tokens_to_add
serve_after_two_seconds c now t p l m = ground arith
