-- ===== src/Ntp/Peers/Response/Checks.antt =====
-- main/ntp_peer_monitor.c: which answers of a peer are taken.
use mathlib.Core.Path.{subst}
use esp32p4_nts_time_server.Base.{
  ℕ, ◌+◌, ◌-◌, ◌*◌, ◌^◌, ◌<◌, ◌≤◌, ◌≡◌, sym, ◌⊎◌, ◌&&◌, u64, Bool-cases, ◌≢◌, Bool, true, false,
  not, ◌||◌, Option, some, List, arith, length, drop, ltb, ◌==◌, ◌<<<◌, ◌>>>◌, bit_and, bit_or,
  Option-cases, inl, inr,
}
use esp32p4_nts_time_server.Base.Bytes.{byte_at, read_be32}
use esp32p4_nts_time_server.Base.Signed.{signed_ltb, signed_quotient}
use esp32p4_nts_time_server.Ntp.Peers.{fixed_delta_ns}
use esp32p4_nts_time_server.Ntp.Peers.Response.{
  Arrival, accepted, is_last, header_invalid, field_time, judge_times, judge, offset_of,
  signed_half_rest,
}

-- What an answer has that is taken, to a request that carried the given time of sending.
pub record IsGenuine (seconds fraction : ℕ) (last_t3 : Option ℕ) (a : Arrival) (f4 : ℕ)
    : Type 0 where
  pub clock_read : a.t4 ≡ some f4
  pub long_enough : 48 ≤ length a.response
  pub from_peer : a.same_source ≡ true
  pub mode_is : bit_and (byte_at a.response 0) 7 ≡ 4
  pub version_in : 3 ≤ bit_and (byte_at a.response 0 >>> 3) 7
  pub synchronized : byte_at a.response 0 >>> 6 ≢ 3
  pub stratum_in : (1 ≤ byte_at a.response 1) × (byte_at a.response 1 ≤ 15)
  pub echoes :
      (read_be32 (drop 24 a.response) ≡ seconds) × (read_be32 (drop 28 a.response) ≡ fraction)
  pub received : (read_be32 (drop 32 a.response) ≢ 0) ⊎ (read_be32 (drop 36 a.response) ≢ 0)
  pub sent : (read_be32 (drop 40 a.response) ≢ 0) ⊎ (read_be32 (drop 44 a.response) ≢ 0)
  pub new_time : is_last last_t3 (field_time a.response 40) ≡ false

or_false : (x y : Bool) → (x || y) ≡ false → (x ≡ false) × (y ≡ false)
or_false x y h = ground (arith, h)

at_least : (x low : ℕ) → ltb x low ≡ false → low ≤ x
at_least x low h = ground (arith, h)

same_number : (x y : ℕ) → not (x == y) ≡ false → x ≡ y
same_number x y h = ground (arith, h)

other_number : (x y : ℕ) → (x == y) ≡ false → x ≢ y
other_number x y h = ground (arith, h)

not_both_zero : (x y : ℕ) → ((x == 0) && (y == 0)) ≡ false → (x ≢ 0) ⊎ (y ≢ 0)
not_both_zero x y h = elim (Bool-cases (x == 0)) [
  | inl zero_x ↦ inr (other_number y 0 (ground (arith, h, zero_x)))
  | inr e ↦ inl (other_number x 0 e)
]

header_valid :
    (response : List ℕ) (seconds fraction : ℕ)
    → header_invalid response seconds fraction ≡ false
    → (3 ≤ bit_and (byte_at response 0 >>> 3) 7)
      × (bit_and (byte_at response 0) 7 ≡ 4)
      × (byte_at response 0 >>> 6 ≢ 3)
      × (byte_at response 1 ≤ 15)
      × (read_be32 (drop 24 response) ≡ seconds)
      × (read_be32 (drop 28 response) ≡ fraction)
      × ((read_be32 (drop 32 response) ≢ 0) ⊎ (read_be32 (drop 36 response) ≢ 0))
      × ((read_be32 (drop 40 response) ≢ 0) ⊎ (read_be32 (drop 44 response) ≢ 0))
unfolding header_invalid
header_valid response seconds fraction h =
    let (h7, sending) = or_false _ _ h in
    let (h6, receiving) = or_false _ _ h7 in
    let (h5, sent_fraction) = or_false _ _ h6 in
    let (h4, sent_seconds) = or_false _ _ h5 in
    let (h3, stratum) = or_false _ _ h4 in
    let (h2, leap) = or_false _ _ h3 in
    let (version, mode) = or_false _ _ h2 in
    (
      at_least _ 3 version,
      same_number _ 4 mode,
      other_number _ 3 leap,
      at_least 15 _ stratum,
      same_number _ _ sent_seconds,
      same_number _ _ sent_fraction,
      not_both_zero _ _ receiving,
      not_both_zero _ _ sending,
    )

-- A number that is twice the other, to 1 on either side, as int64_t.
abbrev pub IsTwice : ℕ → ℕ → Type 0
IsTwice total half =
    (u64 total ≡ u64 (2 * half))
    ⊎ (u64 total ≡ u64 (2 * half + 1))
    ⊎ (u64 total ≡ u64 (2 * half + 2 ^ 64 - 1))

-- The offset and the delay of an exchange: sent at `t1`, received at `t2`, answered at `t3` and
-- received back at `t4`. The offset is half the sum of t2 - t1 and t3 - t4.
abbrev pub IsMeasured : ℕ → ℕ → ℕ → ℕ → ℕ → ℕ → Type 0
IsMeasured t1 t2 t3 t4 offset_ns delay_ns =
    IsTwice (fixed_delta_ns t2 t1 + fixed_delta_ns t3 t4) offset_ns
    × (delay_ns ≡ u64 (fixed_delta_ns t4 t1 + 2 ^ 64 - fixed_delta_ns t3 t2))
    × (signed_ltb delay_ns 0 ≡ false)

offset_of-IsTwice : (a b : ℕ) → a < 2 ^ 64 → b < 2 ^ 64 → IsTwice (a + b) (offset_of a b)
unfolding offset_of signed_half_rest signed_quotient
offset_of-IsTwice a b small_a small_b = ground (arith, small_a, small_b)

fixed_delta_ns_small : (a b : ℕ) → fixed_delta_ns a b < 2 ^ 64
unfolding fixed_delta_ns
fixed_delta_ns_small a b = ground arith

judge_times_accepted :
    (f1 f2 f3 f4 t3 offset_ns delay_ns : ℕ)
    → judge_times f1 f2 f3 f4 ≡ accepted t3 offset_ns delay_ns
    → (t3 ≡ f3)
      × (offset_ns ≡ offset_of (fixed_delta_ns f2 f1) (fixed_delta_ns f3 f4))
      × (delay_ns ≡ u64 (fixed_delta_ns f4 f1 + 2 ^ 64 - fixed_delta_ns f3 f2))
      × (signed_ltb delay_ns 0 ≡ false)
unfolding judge_times
judge_times_accepted f1 f2 f3 f4 t3 offset_ns delay_ns e =
    (ground (arith, e), ground (arith, e), ground (arith, e), ground (arith, e))

times-IsMeasured :
    (f1 f2 f3 f4 t3 offset_ns delay_ns : ℕ)
    → judge_times f1 f2 f3 f4 ≡ accepted t3 offset_ns delay_ns
    → (t3 ≡ f3) × IsMeasured f1 f2 f3 f4 offset_ns delay_ns
times-IsMeasured f1 f2 f3 f4 t3 offset_ns delay_ns e =
    let (sent, half, delay, positive) = judge_times_accepted f1 f2 f3 f4 t3 offset_ns delay_ns e in
    let a = fixed_delta_ns f2 f1 in
    let b = fixed_delta_ns f3 f4 in
    (
      sent,
      (
        subst (IsTwice (a + b)) (sym half)
            (offset_of-IsTwice a b (fixed_delta_ns_small f2 f1) (fixed_delta_ns_small f3 f4)),
        delay,
        positive,
      ),
    )

-- The tests that an answer has passed when it is taken.
passed :
    (seconds fraction : ℕ) (last_t3 : Option ℕ) (a : Arrival) (t3 offset_ns delay_ns f4 : ℕ)
    → judge seconds fraction last_t3 a ≡ accepted t3 offset_ns delay_ns
    → a.t4 ≡ some f4
    → (48 ≤ length a.response)
      × (a.same_source ≡ true)
      × (byte_at a.response 1 ≢ 0)
      × (header_invalid a.response seconds fraction ≡ false)
      × (is_last last_t3 (field_time a.response 40) ≡ false)
      × (judge_times
            (bit_or (seconds <<< 32) fraction)
            (field_time a.response 32)
            (field_time a.response 40)
            f4
          ≡ accepted t3 offset_ns delay_ns)
unfolding judge
passed seconds fraction last_t3 a t3 offset_ns delay_ns f4 e t = ground (arith, e, t)

-- An answer changes the samples of a peer only where it is genuine: it has 48 bytes or more and
-- comes from the address that was asked, is of a synchronized server, in mode 4, of version 3 or
-- more, at stratum 1 to 15, carries the time of sending of the request, has times of receiving
-- and of sending that are not zero, and a time of sending that the answer before it did not have.
-- The offset that is then taken is half the sum of t2 - t1 and t3 - t4, to a nanosecond, and the
-- delay is t4 - t1 less t3 - t2 and not negative.
pub judge_accepted :
    (seconds fraction : ℕ) (last_t3 : Option ℕ) (a : Arrival) (t3 offset_ns delay_ns : ℕ)
    → judge seconds fraction last_t3 a ≡ accepted t3 offset_ns delay_ns
    → (f4 : ℕ) × IsGenuine seconds fraction last_t3 a f4
      × (t3 ≡ field_time a.response 40)
      × IsMeasured
          (bit_or (seconds <<< 32) fraction)
          (field_time a.response 32)
          (field_time a.response 40)
          f4
          offset_ns
          delay_ns
unfolding judge
judge_accepted seconds fraction last_t3 a t3 offset_ns delay_ns e = elim (Option-cases a.t4) [
  | inl n ↦ absurd (ground (arith, e, n))
  | inr (f4, t) ↦
      let (long, source, stratum, header, fresh, times) =
        passed seconds fraction last_t3 a t3 offset_ns delay_ns f4 e t in
      let (version, mode, leap, top, sent_seconds, sent_fraction, receiving, sending) =
        header_valid a.response seconds fraction header in
      let (sent, measured) = times-IsMeasured _ _ _ f4 t3 offset_ns delay_ns times in
      (
        f4,
        record {
          clock_read = t;
          long_enough = long;
          from_peer = source;
          mode_is = mode;
          version_in = version;
          synchronized = leap;
          stratum_in = (ground (arith, stratum), top);
          echoes = (sent_seconds, sent_fraction);
          received = receiving;
          sent = sending;
          new_time = fresh;
        },
        sent,
        measured,
      )
]
