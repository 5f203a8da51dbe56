-- ===== src/Ntp/Server/Timing/Summary.antt =====
-- The statistics after a list of responses, against the list.
use mathlib.Core.Path.{subst}
use esp32p4_nts_time_server.Base.{
  ℕ, suc, ◌+◌, ◌*◌, ◌/◌, ◌^◌, ◌<◌, ◌≤◌, ◌≡◌, refl, ap, sym, inl, inr, ◌⊎◌, List, [], ◌∷◌, ltb,
  if◌then◌else◌, length, u32, u64, arith, All, Bool-cases,
}
use esp32p4_nts_time_server.Ntp.Server.Timing.{
  Span, update_min_max, record_span, Sample, TimingStats, record_timing,
}

abbrev pub total_of : List ℕ → ℕ
total_of [] = 0
total_of (v ∷ vs) = v + total_of vs

abbrev pub IsAmong : ℕ → List ℕ → Type 0
IsAmong m [] = ⊥
IsAmong m (v ∷ vs) = (m ≡ v) ⊎ IsAmong m vs

-- The sum and the mean of the values, and their least and their greatest one.
abbrev pub Summarises : List ℕ → Span → Type 0
Summarises [] span = span.sum ≡ 0
Summarises (v ∷ vs) span =
    (span.sum ≡ total_of (v ∷ vs))
    × (span.average ≡ u32 (total_of (v ∷ vs) / length (v ∷ vs)))
    × All (λ (w : ℕ). span.minimum ≤ w) (v ∷ vs)
    × IsAmong span.minimum (v ∷ vs)
    × All (λ (w : ℕ). w ≤ span.maximum) (v ∷ vs)
    × IsAmong span.maximum (v ∷ vs)

abbrev pub Small : List ℕ → Type 0
Small vs = All (λ (w : ℕ). w < 2 ^ 32) vs

total_of-bound : (vs : List ℕ) → Small vs → total_of vs ≤ length vs * 0xFFFFFFFF
total_of-bound [] small = omega arith
total_of-bound (v ∷ vs) small = omega (arith, total_of-bound vs small.1, small.0)

sum_of : (vs : List ℕ) (span : Span) → Summarises vs span → span.sum ≡ total_of vs
sum_of [] span h = h
sum_of (v ∷ vs) span h = h.0

lower : (a b : ℕ) (vs : List ℕ) → a ≤ b → All (λ (w : ℕ). b ≤ w) vs → All (λ (w : ℕ). a ≤ w) vs
lower a b [] h all = tt
lower a b (v ∷ vs) h all = (omega (arith, all.0), lower a b vs h all.1)

higher : (a b : ℕ) (vs : List ℕ) → a ≤ b → All (λ (w : ℕ). w ≤ a) vs → All (λ (w : ℕ). w ≤ b) vs
higher a b [] h all = tt
higher a b (v ∷ vs) h all = (omega (arith, all.0), higher a b vs h all.1)

record_span-sum :
    (v : ℕ) (vs : List ℕ) (n : ℕ) (span : Span)
    → span.sum ≡ total_of vs
    → v < 2 ^ 32
    → Small vs
    → suc (length vs) < 2 ^ 32
    → ((record_span v n span).sum ≡ v + total_of vs)
      × ((record_span v n span).average ≡ u32 ((v + total_of vs) / n))
unfolding record_span update_min_max
record_span-sum v vs n span h sv small few =
    let bound = total_of-bound vs small in
    let fits : u64 (span.sum + v) ≡ v + total_of vs = omega arith in
    (fits, ap (λ (t : ℕ). u32 (t / n)) fits)

record_span-first :
    (v : ℕ) (span : Span)
    → ((record_span v 1 span).minimum ≡ v) × ((record_span v 1 span).maximum ≡ v)
unfolding record_span update_min_max
record_span-first v span = (ground arith, ground arith)

record_span-minimum :
    (v n : ℕ) (span : Span)
    → 1 < n
    → (record_span v n span).minimum ≡ (if ltb v span.minimum then v else span.minimum)
unfolding record_span update_min_max
record_span-minimum v n span more = ground (arith, more)

record_span-maximum :
    (v n : ℕ) (span : Span)
    → 1 < n
    → (record_span v n span).maximum ≡ (if ltb span.maximum v then v else span.maximum)
unfolding record_span update_min_max
record_span-maximum v n span more = ground (arith, more)

minimum_lem :
    (v : ℕ) (vs : List ℕ) (n : ℕ) (span : Span)
    → 1 < n
    → All (λ (w : ℕ). span.minimum ≤ w) vs
    → IsAmong span.minimum vs
    → All (λ (w : ℕ). (record_span v n span).minimum ≤ w) (v ∷ vs)
      × IsAmong (record_span v n span).minimum (v ∷ vs)
minimum_lem v vs n span more low least =
    let m = record_span-minimum v n span more in
    elim (Bool-cases (ltb v span.minimum)) [
      | inl q ↦
          let e : (record_span v n span).minimum ≡ v = ground (arith, m, q) in
          ((omega (arith, e), lower _ span.minimum vs (ground (arith, e, q)) low), inl e)
      | inr q ↦
          let e : (record_span v n span).minimum ≡ span.minimum = ground (arith, m, q) in
          (
            (ground (arith, e, q), lower _ span.minimum vs (omega (arith, e)) low),
            inr (subst (λ (k : ℕ). IsAmong k vs) (sym e) least),
          )
    ]

maximum_lem :
    (v : ℕ) (vs : List ℕ) (n : ℕ) (span : Span)
    → 1 < n
    → All (λ (w : ℕ). w ≤ span.maximum) vs
    → IsAmong span.maximum vs
    → All (λ (w : ℕ). w ≤ (record_span v n span).maximum) (v ∷ vs)
      × IsAmong (record_span v n span).maximum (v ∷ vs)
maximum_lem v vs n span more high greatest =
    let m = record_span-maximum v n span more in
    elim (Bool-cases (ltb span.maximum v)) [
      | inl q ↦
          let e : (record_span v n span).maximum ≡ v = ground (arith, m, q) in
          ((omega (arith, e), higher span.maximum _ vs (ground (arith, e, q)) high), inl e)
      | inr q ↦
          let e : (record_span v n span).maximum ≡ span.maximum = ground (arith, m, q) in
          (
            (ground (arith, e, q), higher span.maximum _ vs (omega (arith, e)) high),
            inr (subst (λ (k : ℕ). IsAmong k vs) (sym e) greatest),
          )
    ]

-- One more value.
record_span-Summarises :
    (v : ℕ) (vs : List ℕ) (span : Span)
    → Summarises vs span
    → v < 2 ^ 32
    → Small vs
    → suc (length vs) < 2 ^ 32
    → Summarises (v ∷ vs) (record_span v (suc (length vs)) span)
record_span-Summarises v [] span h sv small few =
    let (sum, average) = record_span-sum v [] 1 span h sv tt few in
    let (least, greatest) = record_span-first v span in
    (sum, average, (omega arith, tt), inl least, (omega arith, tt), inl greatest)
record_span-Summarises v (w ∷ ws) span (total, _, low, least, high, greatest) sv small few =
    let n = suc (suc (length ws)) in
    let more : 1 < n = omega arith in
    let (sum, average) = record_span-sum v (w ∷ ws) n span total sv small few in
    let (low', least') = minimum_lem v (w ∷ ws) n span more low least in
    let (high', greatest') = maximum_lem v (w ∷ ws) n span more high greatest in
    (sum, average, low', least', high', greatest')

-- The statistics after the samples, the last of which comes first.
abbrev pub recorded : TimingStats → List Sample → TimingStats
recorded start [] = start
recorded start (x ∷ xs) = record_timing x (recorded start xs)

abbrev pub SmallSample : Sample → Type 0
SmallSample x =
    (x.rx_start_us < 2 ^ 32)
    × (x.rx_call_us < 2 ^ 32)
    × (x.build_us < 2 ^ 32)
    × (x.tx_to_send_us < 2 ^ 32)
    × (x.send_call_us < 2 ^ 32)
    × (x.total_us < 2 ^ 32)

abbrev pub values : (Sample → ℕ) → List Sample → List ℕ
values field [] = []
values field (x ∷ xs) = field x ∷ values field xs

-- Each of the six durations.
abbrev pub AllSummarise : List Sample → TimingStats → Type 0
AllSummarise xs t =
    Summarises (values (λ x. x.rx_start_us) xs) t.rx_start
    × Summarises (values (λ x. x.rx_call_us) xs) t.rx_call
    × Summarises (values (λ x. x.build_us) xs) t.building
    × Summarises (values (λ x. x.tx_to_send_us) xs) t.tx_to_send
    × Summarises (values (λ x. x.send_call_us) xs) t.send_call
    × Summarises (values (λ x. x.total_us) xs) t.total

length-values : (field : Sample → ℕ) (xs : List Sample) → length (values field xs) ≡ length xs
length-values field [] = refl
length-values field (x ∷ xs) = ap suc (length-values field xs)

values-Small :
    (field : Sample → ℕ) (xs : List Sample)
    → ((x : Sample) → SmallSample x → field x < 2 ^ 32)
    → All SmallSample xs
    → Small (values field xs)
values-Small field [] fits small = tt
values-Small field (x ∷ xs) fits small = (fits x small.0, values-Small field xs fits small.1)

next_span :
    (field : Sample → ℕ) (x : Sample) (xs : List Sample) (span : Span) (n : ℕ)
    → ((x : Sample) → SmallSample x → field x < 2 ^ 32)
    → Summarises (values field xs) span
    → All SmallSample (x ∷ xs)
    → n ≡ suc (length xs)
    → n < 2 ^ 32
    → Summarises (values field (x ∷ xs)) (record_span (field x) n span)
next_span field x xs span n fits h small count few =
    let l = length-values field xs in
    let e : suc (length (values field xs)) ≡ n = omega (arith, l, count) in
    subst (λ (k : ℕ). Summarises (values field (x ∷ xs)) (record_span (field x) k span)) (e)
      (record_span-Summarises (field x) (values field xs) span h (fits x small.0)
        (values-Small field xs fits small.1) (omega (arith, l, count)))

-- Fewer than 2 ^ 32 samples whose durations are 32-bit numbers, recorded from zeroed statistics:
-- the count is their number, and for each of the six durations the sum, the mean, the least and
-- the greatest value are those of the list.
pub record_timing-AllSummarise :
    (start : TimingStats) (xs : List Sample)
    → start.samples ≡ 0
    → AllSummarise [] start
    → All SmallSample xs
    → length xs < 2 ^ 32
    → ((recorded start xs).samples ≡ length xs) × AllSummarise xs (recorded start xs)
unfolding record_timing
record_timing-AllSummarise start [] zero_count zeros small few = (zero_count, zeros)
record_timing-AllSummarise start (x ∷ xs) zero_count zeros small few =
    let (count, (a, b, c, d, e, f)) =
      record_timing-AllSummarise start xs zero_count zeros small.1 (omega arith) in
    let t = recorded start xs in
    let n : u64 (t.samples + 1) ≡ suc (length xs) = omega (arith, count) in
    let bound : u64 (t.samples + 1) < 2 ^ 32 = omega (arith, n) in
    (
      n,
      (
        next_span (λ y. y.rx_start_us) x xs t.rx_start _ (λ y s. s.0) a small n bound,
        next_span (λ y. y.rx_call_us) x xs t.rx_call _ (λ y s. s.1) b small n bound,
        next_span (λ y. y.build_us) x xs t.building _ (λ y s. s.2) c small n bound,
        next_span (λ y. y.tx_to_send_us) x xs t.tx_to_send _ (λ y s. s.3) d small n bound,
        next_span (λ y. y.send_call_us) x xs t.send_call _ (λ y s. s.4) e small n bound,
        next_span (λ y. y.total_us) x xs t.total _ (λ y s. s.5) f small n bound,
      ),
    )
