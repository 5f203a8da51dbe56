-- ===== src/Ntp/Peers/Window.antt =====
-- main/ntp_peer_monitor.c: the rolling arrays hold the last 16 samples, the oldest first.
use Prim.Native.Nat.{zero, suc}
use esp32p4_nts_time_server.Base.{
  ℕ, ◌+◌, ◌-◌, ◌%◌, ◌≤◌, ◌<◌, ◌≡◌, refl, sym, ap, ◌∙◌, ◌⊎◌, inl, inr, List, [], ◌∷◌, ◌++◌, map,
  arith, length, take, drop, set, length-set, length-take, length-drop, drop-drop, append-nil,
  append_assoc, length-append, take-set, take_all,
}
use esp32p4_nts_time_server.Ntp.Peers.{PeerRuntime, window, rotated, push_sample}

-- The window as the statistics read it: the first `count` entries.
abbrev pub samples_of : List ℕ → PeerRuntime → List ℕ
samples_of xs rt = take rt.count xs

-- The last 16 of a list of samples.
abbrev pub last_samples : List ℕ → List ℕ
last_samples xs = drop (length xs - window) xs

-- The arrays have 16 entries, of which `count` are in use; the next one goes behind these while
-- there is room, and is then the first one.
pub record IsWindow (rt : PeerRuntime) : Type 0 where
  pub offset_size : length rt.offset ≡ window
  pub delay_size : length rt.delay ≡ window
  pub used : rt.count ≤ window
  pub next_free : (rt.next ≡ rt.count) × (rt.count < window) ⊎ (rt.next ≡ 0) × (rt.count ≡ window)

-- A full array loses its oldest entry.
rotated-full :
    (xs : List ℕ) (v : ℕ) → length xs ≡ window → rotated 1 (set xs 0 v) ≡ drop 1 (xs ++ v ∷ [])
rotated-full (a ∷ b ∷ c ∷ d ∷ e ∷ f ∷ g ∷ h ∷ i ∷ j ∷ k ∷ l ∷ m ∷ n ∷ o ∷ p ∷ []) v size = refl
rotated-full _ v size = absurd (omega arith)

module _ (o d : ℕ) (rt : PeerRuntime) where
  pushed : PeerRuntime
  pushed = push_sample o d rt

  push_room :
      rt.next ≡ rt.count
      → rt.count < window
      → (pushed.offset ≡ set rt.offset rt.count o)
        × (pushed.delay ≡ set rt.delay rt.count d)
        × (pushed.count ≡ rt.count + 1)
        × (pushed.next ≡ (rt.count + 1) % window)
  unfolding pushed push_sample
  push_room at room = ground (arith, at, room)

  push_full :
      rt.next ≡ 0
      → rt.count ≡ window
      → (pushed.offset ≡ rotated 1 (set rt.offset 0 o))
        × (pushed.delay ≡ rotated 1 (set rt.delay 0 d))
        × (pushed.count ≡ window)
        × (pushed.next ≡ 0)
  unfolding pushed push_sample
  push_full at full = ground (arith, at, full)

-- An entry behind those in use.
added :
    (xs : List ℕ) (v n m : ℕ)
    → n < window
    → length xs ≡ window
    → m ≡ n + 1
    → take m (set xs n v) ≡ last_samples (take n xs ++ v ∷ [])
added xs v n m room size e =
    ap (λ (k : ℕ). take k (set xs n v)) (let s : m ≡ suc n = omega arith in s)
    ∙ take-set xs n v (omega arith)
    ∙ sym (ap (λ (k : ℕ). drop k (take n xs ++ v ∷ [])) short)
  where
    short : length (take n xs ++ v ∷ []) - window ≡ 0
    short = omega (arith, length-append (take n xs) (v ∷ []), length-take n xs)

length-rotated : (k : ℕ) (xs : List ℕ) → length (rotated k xs) ≡ window
length-rotated k xs = refl

-- The oldest entry out, the new one in.
replaced :
    (xs : List ℕ) (v n m : ℕ)
    → n ≡ window
    → length xs ≡ window
    → m ≡ window
    → take m (rotated 1 (set xs 0 v)) ≡ last_samples (take n xs ++ v ∷ [])
replaced xs v n m full size e =
    take_all m (rotated 1 (set xs 0 v)) (omega arith)
    ∙ rotated-full xs v size
    ∙ ap (λ (ys : List ℕ). drop 1 (ys ++ v ∷ [])) (sym (take_all n xs (omega arith)))
    ∙ ap (λ (k : ℕ). drop k (take n xs ++ v ∷ [])) (sym one)
  where
    one : length (take n xs ++ v ∷ []) - window ≡ 1
    one = omega (arith, length-append (take n xs) (v ∷ []), length-take n xs)

-- Storing a sample keeps the arrays in order: the offsets and the delays in use are the last 16 of
-- what they were with the new one behind, and all invariants of the window hold again.
pub push_sample-IsWindow :
    (o d : ℕ) (rt : PeerRuntime)
    → IsWindow rt
    → let next = push_sample o d rt in
      IsWindow next
      × (samples_of next.offset next ≡ last_samples (samples_of rt.offset rt ++ o ∷ []))
      × (samples_of next.delay next ≡ last_samples (samples_of rt.delay rt ++ d ∷ []))
unfolding pushed
push_sample-IsWindow o d rt h = elim h.next_free [
  | inl (at, room) ↦
      let (offsets, delays, counted, next) = push_room o d rt at room in
      (
        record {
          offset_size = ap length offsets ∙ length-set rt.offset rt.count o ∙ h.offset_size;
          delay_size = ap length delays ∙ length-set rt.delay rt.count d ∙ h.delay_size;
          used = omega (arith, counted);
          next_free = ground (arith, counted, next, room);
        },
        ap (take (push_sample o d rt).count) offsets
            ∙ added rt.offset o rt.count (push_sample o d rt).count room h.offset_size counted,
        ap (take (push_sample o d rt).count) delays
            ∙ added rt.delay d rt.count (push_sample o d rt).count room h.delay_size counted,
      )
  | inr (at, full) ↦
      let (offsets, delays, counted, next) = push_full o d rt at full in
      (
        record {
          offset_size = ap length offsets;
          delay_size = ap length delays;
          used = omega (arith, counted);
          next_free = inr (next, counted);
        },
        ap (take (push_sample o d rt).count) offsets
            ∙ replaced rt.offset o rt.count (push_sample o d rt).count full h.offset_size counted,
        ap (take (push_sample o d rt).count) delays
            ∙ replaced rt.delay d rt.count (push_sample o d rt).count full h.delay_size counted,
      )
]

drop-append : (k : ℕ) (xs ys : List ℕ) → k ≤ length xs → drop k xs ++ ys ≡ drop k (xs ++ ys)
drop-append zero xs ys h = refl
drop-append (suc k) [] ys h = absurd (omega arith)
drop-append (suc k) (x ∷ xs) ys h = drop-append k xs ys (omega arith)

-- What has left the window once does not come back.
last_samples-append :
    (xs ys : List ℕ) → last_samples (last_samples xs ++ ys) ≡ last_samples (xs ++ ys)
last_samples-append xs ys =
    let k = length xs - window in
    ap last_samples (drop-append k xs ys (omega arith))
    ∙ drop-drop (length (drop k (xs ++ ys)) - window) k (xs ++ ys)
    ∙ ap (λ (n : ℕ). drop n (xs ++ ys)) counted
  where
    counted :
        length xs - window + (length (drop (length xs - window) (xs ++ ys)) - window)
        ≡ length (xs ++ ys) - window
    counted = omega (arith, length-append xs ys, length-drop (length xs - window) (xs ++ ys))

-- The samples one after the other.
unfoldable pub push_all : List (ℕ × ℕ) → PeerRuntime → PeerRuntime
push_all [] rt = rt
push_all ((o, d) ∷ samples) rt = push_all samples (push_sample o d rt)

abbrev pub offsets_of : List (ℕ × ℕ) → List ℕ
offsets_of = map (λ (sample : ℕ × ℕ). sample.0)

abbrev pub delays_of : List (ℕ × ℕ) → List ℕ
delays_of = map (λ (sample : ℕ × ℕ). sample.1)

-- At all times the window is the abstract one: however many samples are stored, the offsets and the
-- delays in use are the last 16 of those that were in use before and of those that were stored
-- since, in their order.
pub push_all-last_samples :
    (samples : List (ℕ × ℕ)) (rt : PeerRuntime)
    → IsWindow rt
    → let last = push_all samples rt in
      IsWindow last
      × (samples_of last.offset last ≡ last_samples (samples_of rt.offset rt ++ offsets_of samples))
      × (samples_of last.delay last ≡ last_samples (samples_of rt.delay rt ++ delays_of samples))
unfolding push_all
push_all-last_samples [] rt h = (h, few rt.offset h.offset_size, few rt.delay h.delay_size)
  where
    few :
        (xs : List ℕ)
        → length xs ≡ window
        → take rt.count xs ≡ last_samples (take rt.count xs ++ [])
    few xs size =
        ap (λ (k : ℕ). drop k (take rt.count xs)) (sym none_over)
        ∙ ap last_samples (sym (append-nil (take rt.count xs)))
      where
        none_over : length (take rt.count xs) - window ≡ 0
        none_over = omega (arith, length-take rt.count xs, h.used)
push_all-last_samples ((o, d) ∷ samples) rt h =
    let (sound, offsets, delays) = push_sample-IsWindow o d rt h in
    let (rest, later_offsets, later_delays) =
      push_all-last_samples samples (push_sample o d rt) sound in
    (
      rest,
      later_offsets ∙ extended (samples_of rt.offset rt) o (offsets_of samples) offsets,
      later_delays ∙ extended (samples_of rt.delay rt) d (delays_of samples) delays,
    )
  where
    extended :
        {now : List ℕ} (old : List ℕ) (v : ℕ) (others : List ℕ)
        → now ≡ last_samples (old ++ v ∷ [])
        → last_samples (now ++ others) ≡ last_samples (old ++ v ∷ others)
    extended old v others e =
        ap (λ (xs : List ℕ). last_samples (xs ++ others)) e
        ∙ last_samples-append (old ++ v ∷ []) others
        ∙ ap last_samples (append_assoc old (v ∷ []) others)
